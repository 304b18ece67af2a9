-- ===== src/Atem/Resend/Request.antt =====
-- src/atem.cpp: the answer to a resend request.
use atem_esp_idf.Prelude.{
  ℕ, zero, suc, ◌≡◌, ◌≤◌, ◌<◌, refl, ap, ◌∙◌, Bool, true, false, Option, none, some, List, [], ◌∷◌,
  arith, length, ◌==◌, Bool-cases, inl, inr, if◌then◌else◌, nonzero, bit_and, u8, ◌>>>◌, ◌>>=◌,
}
use atem_esp_idf.Buffer.{Bytes}
use atem_esp_idf.Packet
use atem_esp_idf.Packet.Header.{create-fields}
use atem_esp_idf.Atem.Object.{Atem, ConnectionState, active, sent}
use atem_esp_idf.Atem.Getters.{is_active}
use atem_esp_idf.Atem.Connection.{World, send_dropped}
use atem_esp_idf.Atem.Task.{find_sent, max_loops, on_resend}
use atem_esp_idf.Atem.Sendable.{send_dropped_whole}
use atem_esp_idf.Atem.Resend.{HaveIds}

-- A header without commands that stands for the packet with this id.
pub record IsPlaceholder (session id : ℕ) (p : Bytes) : Type 0 where
  pub size : length p ≡ 12
  pub flags_read : Packet.get_flags p ≡ some 0x1
  pub length_read : Packet.get_length p ≡ some 12
  pub session_read : Packet.get_session_id p ≡ some session
  pub id_read : Packet.get_id p ≡ some id

-- The length field of each packet is its size.
abbrev pub AreWhole : List Bytes → Type 0
AreWhole [] = Unit {0}
AreWhole (p ∷ ps) = (Packet.get_length p ≡ some (length p)) × AreWhole ps

-- The first packet with this id, and else `q`.
abbrev pub first_with : ℕ → List ℕ → List Bytes → Bytes → Bytes
first_with id (k ∷ ks) (p ∷ ps) q =
    let later = first_with id ks ps q in if k == id then p else later
first_with id ks ps q = q

-- What a resend request with its own id and the id that it asks for finds in its packet.
pub record IsRequest (session id asked : ℕ) (m : Bytes) : Type 0 where
  pub flags : ℕ
  pub flags_read : Packet.get_flags m ≡ some flags
  pub requests : nonzero (bit_and flags 0x8) ≡ true
  pub session_read : Packet.get_session_id m ≡ some session
  pub id_read : Packet.get_id m ≡ some id
  pub asked_read : Packet.get_resend_id m ≡ some asked
  pub session_fits : session < 65536
  pub asked_fits : asked < 65536

set_id-IsPlaceholder :
    (p : Bytes) (session id : ℕ)
    → length p ≡ 12
    → Packet.get_flags p ≡ some 0x1
    → Packet.get_length p ≡ some 12
    → Packet.get_session_id p ≡ some session
    → id < 65536
    → (q : Bytes) × (Packet.set_id p id ≡ some q) × IsPlaceholder session id q
unfolding Packet.set_id Packet.get_flags Packet.get_length Packet.get_session_id Packet.get_id
set_id-IsPlaceholder (b0 ∷ b1 ∷ b2 ∷ b3 ∷ b4 ∷ b5 ∷ b6 ∷ b7 ∷ b8 ∷ b9 ∷ b10 ∷ b11 ∷ []) session id
      size flags own is fits =
    (
      b0 ∷ b1 ∷ b2 ∷ b3 ∷ b4 ∷ b5 ∷ b6 ∷ b7 ∷ b8 ∷ b9 ∷ u8 (id >>> 8) ∷ u8 id ∷ [],
      refl,
      record {
        size = refl;
        flags_read = flags;
        length_read = own;
        session_read = is;
        id_read = ap some (omega arith);
      },
    )
set_id-IsPlaceholder p session id size flags own is fits = absurd (omega arith)

is_active-active : (s : ConnectionState) → s ≡ active → is_active s ≡ true
unfolding is_active
is_active-active s e = rw e refl

module _ (w : World) where
  -- The search and the send of what it finds, or else `other`.
  search-first_with :
      (left id : ℕ) (ks : List ℕ) (ps : List Bytes) (a : Atem) (q : Bytes) (other : Option Atem)
      → HaveIds ks ps
      → AreWhole ps
      → length ps ≤ left
      → other ≡ some (record a { log = sent q ∷ a.log })
      → (do found ← find_sent left id ps; elim found [ none ↦ other | some p ↦ send_dropped w p a ])
        ≡ some (record a { log = sent (first_with id ks ps q) ∷ a.log })
  unfolding find_sent
  search-first_with zero id [] [] a q other h whole few e = e
  search-first_with zero id (k ∷ ks) [] a q other h whole few e = absurd h
  search-first_with zero id (k ∷ ks) (p ∷ ps) a q other h whole few e = absurd (omega arith)
  search-first_with zero id [] (p ∷ ps) a q other h whole few e = absurd (omega arith)
  search-first_with (suc left) id [] [] a q other h whole few e = e
  search-first_with (suc left) id [] (p ∷ ps) a q other h whole few e = cc
  search-first_with (suc left) id (k ∷ ks) [] a q other h whole few e = absurd h
  search-first_with (suc left) id (k ∷ ks) (p ∷ ps) a q other h whole few e =
      elim (Bool-cases (k == id)) [
        | inl t ↦ rw (h.0, t) (send_dropped_whole w p a whole.0)
        | inr t ↦
            rw (h.0, t) (search-first_with left id ks ps a q other h.1 whole.1 (omega arith) e)
      ]

  -- "We don't have this packet".
  abbrev pretend : Bytes → Atem → Option Atem
  pretend m a = do
    session ← Packet.get_session_id m
    packet ← Packet.create w.malloc 0x1 session 12
    id ← Packet.get_resend_id m
    packet ← Packet.set_id packet id
    send_dropped w packet a

  pretend-sends :
      (m c q : Bytes) (a : Atem) (session id asked : ℕ)
      → IsRequest session id asked m
      → Packet.create w.malloc 0x1 session 12 ≡ some c
      → Packet.set_id c asked ≡ some q
      → Packet.get_length q ≡ some (length q)
      → pretend m a ≡ some (record a { log = sent q ∷ a.log })
  pretend-sends m c q a session id asked h ec eq own =
      rw (h.session_read, ec, h.asked_read, eq) (send_dropped_whole w q a own)

  -- The two ways to answer, where the blocks of the second are known.
  on_resend-answers :
      (m c q : Bytes) (locked : Bool) (a : Atem) (session id asked : ℕ) (ks : List ℕ)
      → is_active a.state ≡ true
      → IsRequest session id asked m
      → HaveIds ks a.send_packets
      → AreWhole a.send_packets
      → length a.send_packets ≤ 51
      → Packet.create w.malloc 0x1 session 12 ≡ some c
      → Packet.set_id c asked ≡ some q
      → Packet.get_length q ≡ some (length q)
      → on_resend w m locked a
        ≡ some (record a {
          log = sent (if locked then first_with id ks a.send_packets q else q) ∷ a.log;
        })
  unfolding on_resend
  on_resend-answers m c q true a session id asked ks is h ids whole few ec eq own =
      rw (h.flags_read, h.requests, is, h.id_read)
        (search-first_with max_loops id ks a.send_packets a q (pretend m a) ids whole few
          (pretend-sends m c q a session id asked h ec eq own))
  on_resend-answers m c q false a session id asked ks is h ids whole few ec eq own =
      rw (h.flags_read, h.requests, is) (pretend-sends m c q a session id asked h ec eq own)

  -- A resend request of an active session is answered with one packet, where at most 51 packets are
  -- stored, whose length fields are their sizes, and `malloc` returns blocks of the size asked for.
  -- It is the first stored packet with the request's own id, not with the id that it asks for. If there is none, or the lock is not taken in
  -- time, it is a header that asks for an ACK and has the session and the id that is asked for. Nothing else changes.
  pub on_resend-first_with :
      ((n : ℕ) → length (w.malloc n) ≡ n)
      → (m : Bytes) (locked : Bool) (a : Atem) (session id asked : ℕ) (ks : List ℕ)
      → a.state ≡ active
      → IsRequest session id asked m
      → HaveIds ks a.send_packets
      → AreWhole a.send_packets
      → length a.send_packets ≤ 51
      → (q : Bytes) × IsPlaceholder session asked q
        × (on_resend w m locked a
            ≡ some (record a {
              log = sent (if locked then first_with id ks a.send_packets q else q) ∷ a.log;
            }))
  on_resend-first_with sizes m locked a session id asked ks is h ids whole few =
      let c =
        create-fields w.malloc 0x1 session 12 sizes (omega arith) h.session_fits (omega arith) in
      let (q, made, hold) =
        set_id-IsPlaceholder c.0 session asked c.2 c.3.flags_read c.3.length_read c.3.session_read
          h.asked_fits in
      (
        q,
        hold,
        on_resend-answers m c.0 q locked a session id asked ks (is_active-active a.state is) h ids
            whole few c.1 made (hold.length_read ∙ ap some (omega (arith, hold.size))),
      )
