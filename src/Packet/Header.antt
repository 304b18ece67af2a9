-- ===== src/Packet/Header.antt =====
-- The header that `AtemPacket`'s constructor writes, and what the getters read from it.
use atem_esp_idf.Prelude.{
  ℕ, ◌+◌, ◌*◌, ◌/◌, ◌%◌, ◌≤◌, ◌<◌, ◌≡◌, refl, ap, ap₂, ◌∙◌, length-append, length-drop, some, [],
  ◌∷◌, ◌++◌, arith, bit_or, ltb, if◌then◌else◌, u8, ◌<<<◌, ◌>>>◌, length, drop,
}
use atem_esp_idf.Prelude.Bits.{bit_and-mask, bit_or-div, bit_or-mod, bit_or-lt, zero-bit_or}
use atem_esp_idf.Buffer.{Bytes}
use atem_esp_idf.Packet.{
  create, get_flags, get_length, get_session_id, get_ack_id, get_resend_id, get_id,
}

-- The size of the block: 12 at least.
abbrev pub capped : ℕ → ℕ
capped length = if ltb length 12 then 12 else length

abbrev pub header : ℕ → ℕ → ℕ → Bytes
header flags session size =
    u8 (bit_or (u8 (flags <<< 3)) (size >>> 8))
    ∷ u8 (bit_or 0 (u8 size))
    ∷ u8 (session >>> 8)
    ∷ u8 session
    ∷ 0
    ∷ 0
    ∷ 0
    ∷ 0
    ∷ 0
    ∷ 0
    ∷ 0
    ∷ 0
    ∷ []

pub create_block :
    (malloc : ℕ → Bytes) (flags session length' : ℕ) (m : Bytes)
    → malloc (capped length') ≡ m
    → 12 ≤ length m
    → create malloc flags session length'
      ≡ some (header flags session (capped length') ++ drop 12 m)
unfolding create
create_block malloc flags session n
      (b0 ∷ b1 ∷ b2 ∷ b3 ∷ b4 ∷ b5 ∷ b6 ∷ b7 ∷ b8 ∷ b9 ∷ b10 ∷ b11 ∷ rest) e h =
    rw e refl
create_block malloc flags session n m e h = absurd (omega arith)

-- What the getters read from a packet.
pub record HasFields (flags session length' : ℕ) (m : Bytes) : Type 0 where
  pub flags_read : get_flags m ≡ some flags
  pub length_read : get_length m ≡ some length'
  pub session_read : get_session_id m ≡ some session

-- A new packet's ids are 0.
pub record HasNoIds (m : Bytes) : Type 0 where
  pub no_ack : get_ack_id m ≡ some 0
  pub no_resend : get_resend_id m ≡ some 0
  pub no_id : get_id m ≡ some 0

-- The first byte: 5 bits of flags, and the length from bit 8 on.
first_byte :
    (f n : ℕ) → f < 32 → n < 65536 → u8 (bit_or (u8 (f <<< 3)) (n >>> 8)) ≡ bit_or (f * 8) (n / 256)
first_byte f n hf hn =
    let e : u8 (f <<< 3) ≡ f * 8 = omega arith in
    rw e (omega (arith, bit_or-lt 8 (f * 8) (n / 256) (omega arith) (omega arith)))

first_byte-flags : (f n : ℕ) → bit_or (f * 8) (n / 256) / 8 ≡ bit_or f (n / 2048)
first_byte-flags f n =
    let a : f * 8 / 8 ≡ f = omega arith in
    let b : n / 256 / 8 ≡ n / 2048 = omega arith in bit_or-div 3 (f * 8) (n / 256) ∙ ap₂ bit_or a b

first_byte-length : (f n : ℕ) → bit_or (f * 8) (n / 256) % 8 ≡ n / 256 % 8
first_byte-length f n =
    let a : f * 8 % 8 ≡ 0 = omega arith in
    bit_or-mod 3 (f * 8) (n / 256) ∙ ap (λ t. bit_or t (n / 256 % 8)) a ∙ zero-bit_or (n / 256 % 8)

-- The fields of a header as written, with a length of up to 16 bits: the length keeps its low 11
-- bits, and the others land in the flags.
header_fields :
    (f s n : ℕ) (rest : Bytes)
    → f < 32
    → s < 65536
    → n < 65536
    → HasFields (bit_or f (n / 2048)) s (n % 2048) (header f s n ++ rest)
unfolding get_flags get_length get_session_id
header_fields f s n rest hf hs hn = record {
  flags_read = ap some (ap (λ t. t / 8) (first_byte f n hf hn) ∙ first_byte-flags f n);
  length_read = ap some (
      bit_and-mask 11 (u8 (bit_or (u8 (f <<< 3)) (n >>> 8)) * 256 + u8 (bit_or 0 (u8 n)))
      ∙ omega (arith, first_byte f n hf hn, first_byte-length f n, zero-bit_or (u8 n)));
  session_read = ap some (omega arith);
}

-- A packet of the constructor, from any block of the size asked for: the getters give back the
-- flags, the session and the length, which is 12 at least. A length from 2048 on does not fit: the
-- getters give its low 11 bits, and its other bits are ORed into the flags.
pub create-fields :
    (malloc : ℕ → Bytes) (flags session length' : ℕ)
    → ((n : ℕ) → length (malloc n) ≡ n)
    → flags < 32
    → session < 65536
    → length' < 65536
    → (m : Bytes) × (create malloc flags session length' ≡ some m)
      × (length m ≡ capped length')
      × HasFields (bit_or flags (capped length' / 2048)) session (capped length' % 2048) m
      × HasNoIds m
create-fields malloc f s n sizes hf hs hn = (
  header f s (capped n) ++ drop 12 (malloc (capped n)),
  create_block malloc f s n (malloc (capped n)) refl big,
  omega (
    arith,
    length-append (header f s (capped n)) (drop 12 (malloc (capped n))),
    length-drop 12 (malloc (capped n)),
    sizes (capped n),
    big,
  ),
  header_fields f s (capped n) (drop 12 (malloc (capped n))) hf hs (ground arith),
  unfold get_ack_id get_resend_id get_id in
      record { no_ack = refl; no_resend = refl; no_id = refl },
)
  where
    big : 12 ≤ length (malloc (capped n))
    big = ground (arith, sizes (capped n))
