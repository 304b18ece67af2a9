-- ===== src/Atem/Answer.antt =====
-- `task_` on a packet that asks for an ACK: what it sends back.
use atem_esp_idf.Prelude.{
  ℕ, ◌+◌, ◌*◌, ◌%◌, ◌<◌, ◌≡◌, refl, ap, ◌∙◌, Bool, true, false, Option, some, [], ◌∷◌, arith,
  length, bit_or, bit_and, u8, ◌<<<◌, ◌>>>◌, ◌>>=◌, if◌then◌else◌, ◌||◌, ltb, ltb→lt, nonzero,
  Bool-cases, inl, inr,
}
use atem_esp_idf.Prelude.Bits.{bit_and-mask}
use atem_esp_idf.Buffer.{Bytes}
use atem_esp_idf.Sequence
use atem_esp_idf.Sequence.{SequenceCheck}
use atem_esp_idf.Packet
use atem_esp_idf.Packet.Fields.{flags_byte}
use atem_esp_idf.Packet.Header.{create-fields}
use atem_esp_idf.Atem.Object.{Atem, sent}
use atem_esp_idf.Atem.Getters.{is_active}
use atem_esp_idf.Atem.Connection.{World, send_dropped}
use atem_esp_idf.Atem.Task.{on_ack_request}
use atem_esp_idf.Atem.Sendable.{send_dropped_whole}

-- A packet that is only a header, with these fields.
pub record IsReply (flags session ack resend : ℕ) (p : Bytes) : Type 0 where
  pub size : length p ≡ 12
  pub flags_read : Packet.get_flags p ≡ some flags
  pub length_read : Packet.get_length p ≡ some 12
  pub session_read : Packet.get_session_id p ≡ some session
  pub ack_read : Packet.get_ack_id p ≡ some ack
  pub resend_read : Packet.get_resend_id p ≡ some resend
  pub id_read : Packet.get_id p ≡ some 0

set_ack_id-IsReply :
    (p : Bytes) (session ack : ℕ)
    → IsReply 0x10 session 0 0 p
    → ack < 65536
    → (p' : Bytes) × (Packet.set_ack_id p ack ≡ some p') × IsReply 0x10 session ack 0 p'
unfolding Packet.set_ack_id Packet.get_flags Packet.get_length Packet.get_session_id
    Packet.get_ack_id Packet.get_resend_id Packet.get_id
set_ack_id-IsReply (b0 ∷ b1 ∷ b2 ∷ b3 ∷ b4 ∷ b5 ∷ b6 ∷ b7 ∷ b8 ∷ b9 ∷ b10 ∷ b11 ∷ []) session ack h
      fits =
    (
      b0 ∷ b1 ∷ b2 ∷ b3 ∷ u8 (ack >>> 8) ∷ u8 ack ∷ b6 ∷ b7 ∷ b8 ∷ b9 ∷ b10 ∷ b11 ∷ [],
      refl,
      record {
        size = refl;
        flags_read = h.flags_read;
        length_read = h.length_read;
        session_read = h.session_read;
        ack_read = ap some (omega arith);
        resend_read = h.resend_read;
        id_read = h.id_read;
      },
    )
set_ack_id-IsReply p session ack h fits = absurd (omega (arith, h.size))

-- "Request missing".
request : Bytes → ℕ → Option Bytes
request p missing_id = do
  f ← Packet.get_flags p
  p ← Packet.set_flags p (bit_or f 0x8)
  p ← Packet.set_resend_id p missing_id
  p ← Packet.set_id p 0
  Packet.set_unknown p 0x100

request-IsReply :
    (p : Bytes) (session ack missing_id : ℕ)
    → IsReply 0x10 session ack 0 p
    → missing_id < 65536
    → (p' : Bytes) × (request p missing_id ≡ some p') × IsReply 0x18 session ack missing_id p'
unfolding request Packet.set_flags Packet.set_resend_id Packet.set_id Packet.set_unknown
    Packet.get_flags Packet.get_length Packet.get_session_id Packet.get_ack_id Packet.get_resend_id
    Packet.get_id
request-IsReply (b0 ∷ b1 ∷ b2 ∷ b3 ∷ b4 ∷ b5 ∷ b6 ∷ b7 ∷ b8 ∷ b9 ∷ b10 ∷ b11 ∷ []) session ack k h
      fits =
    let had : b0 >>> 3 ≡ 0x10 = cc (h.flags_read) in
    let first : u8 (bit_or (0x18 <<< 3) (bit_and b0 0x7)) ≡ 0x18 * 8 + b0 % 8 =
      flags_byte 0x18 b0 (omega arith) in
    rw had (
      u8 (bit_or (0x18 <<< 3) (bit_and b0 0x7))
          ∷ b1
          ∷ b2
          ∷ b3
          ∷ b4
          ∷ b5
          ∷ u8 (k >>> 8)
          ∷ u8 k
          ∷ 1
          ∷ 0
          ∷ 0
          ∷ 0
          ∷ [],
      refl,
      record {
        size = refl;
        flags_read = ap some (omega (arith, first));
        length_read =
            ap some (
              bit_and-mask 11 (u8 (bit_or (0x18 <<< 3) (bit_and b0 0x7)) * 256 + b1)
              ∙ omega (arith, first, bit_and-mask 11 (b0 * 256 + b1)))
            ∙ h.length_read;
        session_read = h.session_read;
        ack_read = h.ack_read;
        resend_read = ap some (omega arith);
        id_read = refl;
      },
    )
request-IsReply p session ack k h fits = absurd (omega (arith, h.size))

-- What the reply reports as missing: the ids from 0x8000 on stand for none.
abbrev pub reports : SequenceCheck → Bool
reports sequence = ltb (Sequence.get_missing sequence) 0x8000

-- The handling of an ACK request with this session and id, where `Add` answers so.
pub record Answers (w : World) (m : Bytes) (session id : ℕ) (fresh : Bool)
    (sequence : SequenceCheck) (a : Atem) : Type 0 where
  pub reply : Bytes
  pub is_reply :
      IsReply
        (if reports sequence then 0x18 else 0x10)
        session
        id
        (if reports sequence then Sequence.get_missing sequence else 0)
        reply
  pub returns :
      on_ack_request w m a
      ≡ some (
        fresh,
        record a {
          remote_id = id;
          sequence = sequence;
          log = if is_active a.state || reports sequence then sent reply ∷ a.log else a.log;
        },
      )

-- The last two steps on the reply.
reports-IsReply :
    (p : Bytes) (session id : ℕ) (sequence : SequenceCheck)
    → IsReply 0x10 session id 0 p
    → (p' : Bytes) × ((if reports sequence
          then request p (Sequence.get_missing sequence)
          else some p)
        ≡ some p')
      × IsReply
          (if reports sequence then 0x18 else 0x10)
          session
          id
          (if reports sequence then Sequence.get_missing sequence else 0)
          p'
reports-IsReply p session id sequence h = elim (Bool-cases (reports sequence)) [
  | inl t ↦
      let small : Sequence.get_missing sequence < 32768 =
        ltb→lt (Sequence.get_missing sequence) 32768 t in
      rw t (request-IsReply p session id (Sequence.get_missing sequence) h (omega arith))
  | inr f ↦ rw f (p, refl, h)
]

module _ (w : World) (sizes : (n : ℕ) → length (w.malloc n) ≡ n) where
  sends_if :
      (b : Bool) (p : Bytes) (a : Atem)
      → Packet.get_length p ≡ some (length p)
      → (if b then send_dropped w p a else some a)
        ≡ some (record a { log = if b then sent p ∷ a.log else a.log })
  sends_if true p a h = send_dropped_whole w p a h
  sends_if false p a h = refl

  -- A packet that asks for an ACK, whose id the window takes: the reply is a header with the ACK
  -- flag, the packet's session and id, and if an id is missing then also the flag of a resend
  -- request and that id. It is sent if the connection is active or an id is missing, and only then.
  -- The window and the remote id are the new ones, and `should_parse_packet` is what `Add` answers.
  -- The session and the id have 16 bits, and `malloc` returns blocks of the size asked for.
  pub on_ack_request-Answers :
      (m : Bytes) (a : Atem) (flags session id : ℕ) (fresh : Bool) (sequence : SequenceCheck)
      → Packet.get_flags m ≡ some flags
      → nonzero (bit_and flags 0x1) ≡ true
      → Packet.get_session_id m ≡ some session
      → session < 65536
      → Packet.get_id m ≡ some id
      → id < 65536
      → Sequence.add a.sequence id ≡ some (fresh, sequence)
      → Answers w m session id fresh sequence a
  unfolding on_ack_request request
  on_ack_request-Answers m a flags session id fresh sequence hf asks hs session_fits hi id_fits
        added =
      let c =
        create-fields w.malloc 0x10 session 12 sizes (omega arith) session_fits (omega arith) in
      let new : IsReply 0x10 session 0 0 c.0 = record {
        size = c.2;
        flags_read = c.3.flags_read;
        length_read = c.3.length_read;
        session_read = c.3.session_read;
        ack_read = c.4.no_ack;
        resend_read = c.4.no_resend;
        id_read = c.4.no_id;
      } in
      let (p, e, h) = set_ack_id-IsReply c.0 session id new id_fits in
      let (p', e', h') = reports-IsReply p session id sequence h in
      record {
        reply = p';
        is_reply = h';
        returns =
            rw
              (
                hf,
                asks,
                hi,
                hs,
                c.1,
                e,
                added,
                e',
                sends_if (is_active a.state || reports sequence) p'
                    (record a { remote_id = id; sequence = sequence })
                    (h'.length_read ∙ ap some (omega (arith, h'.size))),
              )
              refl;
      }
