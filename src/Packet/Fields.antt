-- ===== src/Packet/Fields.antt =====
-- The setters of `AtemPacket`: each field reads back, and the others stay.
use atem_esp_idf.Prelude.{
  ℕ, ◌+◌, ◌*◌, ◌%◌, ◌≤◌, ◌<◌, ◌≡◌, refl, ap, ◌∙◌, Option, some, ◌∷◌, arith, bit_or, bit_and, u8,
  ◌<<<◌, ◌>>>◌, length, drop, ◌>>=◌,
}
use atem_esp_idf.Prelude.Bits.{bit_and-mask, bit_or-shift}
use atem_esp_idf.Buffer.{Bytes}
use atem_esp_idf.Packet.{
  get_flags, get_length, get_session_id, get_ack_id, get_resend_id, get_id, set_flags, set_ack_id,
  set_resend_id, set_unknown, set_id,
}

-- All the setters, one after the other.
abbrev pub set_all : Bytes → ℕ → ℕ → ℕ → ℕ → ℕ → Option Bytes
set_all m flags ack resend unknown id = do
  m ← set_flags m flags
  m ← set_ack_id m ack
  m ← set_resend_id m resend
  m ← set_unknown m unknown
  set_id m id

pub record Reads (m : Bytes) (flags ack resend id : ℕ) (m' : Bytes) : Type 0 where
  pub flags_read : get_flags m' ≡ some flags
  pub ack_read : get_ack_id m' ≡ some ack
  pub resend_read : get_resend_id m' ≡ some resend
  pub id_read : get_id m' ≡ some id
  pub same_length : get_length m' ≡ get_length m
  pub same_session : get_session_id m' ≡ get_session_id m
  pub same_payload : drop 12 m' ≡ drop 12 m

pub flags_byte : (f b : ℕ) → f < 32 → u8 (bit_or (f <<< 3) (bit_and b 0x7)) ≡ f * 8 + b % 8
flags_byte f b h = rw (bit_and-mask 3 b) (omega (arith, bit_or-shift 3 f (b % 8) (omega arith)))

-- After the five setters the getters give the flags and ids that were set, and the length, the
-- session and the payload are as before.
pub set_all-Reads :
    (m : Bytes) (flags ack resend unknown id : ℕ)
    → 12 ≤ length m
    → flags < 32
    → ack < 65536
    → resend < 65536
    → unknown < 65536
    → id < 65536
    → (m' : Bytes) × (set_all m flags ack resend unknown id ≡ some m')
      × Reads m flags ack resend id m'
unfolding get_flags get_length get_session_id get_ack_id get_resend_id get_id set_flags set_ack_id
    set_resend_id set_unknown set_id
set_all-Reads (b0 ∷ b1 ∷ b2 ∷ b3 ∷ b4 ∷ b5 ∷ b6 ∷ b7 ∷ b8 ∷ b9 ∷ b10 ∷ b11 ∷ rest) f ack resend
      unknown id big hf ha hr hu hi =
    (
      u8 (bit_or (f <<< 3) (bit_and b0 0x7))
          ∷ b1
          ∷ b2
          ∷ b3
          ∷ u8 (ack >>> 8)
          ∷ u8 ack
          ∷ u8 (resend >>> 8)
          ∷ u8 resend
          ∷ u8 (unknown >>> 8)
          ∷ u8 unknown
          ∷ u8 (id >>> 8)
          ∷ u8 id
          ∷ rest,
      refl,
      record {
        flags_read = ap some (omega (arith, flags_byte f b0 hf));
        ack_read = ap some (omega arith);
        resend_read = ap some (omega arith);
        id_read = ap some (omega arith);
        same_length = ap some (
            bit_and-mask 11 (u8 (bit_or (f <<< 3) (bit_and b0 0x7)) * 256 + b1)
            ∙ omega (arith, flags_byte f b0 hf, bit_and-mask 11 (b0 * 256 + b1)));
        same_session = refl;
        same_payload = refl;
      },
    )
set_all-Reads m f ack resend unknown id big hf ha hr hu hi = absurd (omega arith)
