-- ===== src/Atem/Sendable.antt =====
-- Packets that `SendPacket_` can read to their end: those that the constructor builds stay so under
-- the setters.
use atem_esp_idf.Prelude.{
  ℕ, suc, ◌+◌, ◌*◌, ◌%◌, ◌≡◌, ◌≤◌, ◌<◌, refl, ap, ◌∙◌, some, [], ◌∷◌, arith, length, set,
  length-set, get_elem?-set_ne, u8, ◌>>>◌, ◌<<<◌, bit_or, bit_and,
}
use atem_esp_idf.Prelude.Bits.{bit_and-mask, bit_or-mod, zero-bit_or}
use atem_esp_idf.Prelude.Returns.{Returns}
use atem_esp_idf.Buffer.{Bytes, load8, store16}
use atem_esp_idf.Buffer.Inside.{copy_from_inside}
use atem_esp_idf.Buffer.Store.{store8-set}
use atem_esp_idf.Packet
use atem_esp_idf.Packet.Header.{create-fields}
use atem_esp_idf.Atem.Object.{Atem, sent}
use atem_esp_idf.Atem.Connection.{World, send_packet, send_dropped}
use atem_esp_idf.Atem.Outcome.{send_packet-takes}

pub record IsSendable (m : Bytes) : Type 0 where
  pub has_header : 12 ≤ length m
  pub sent_length : ℕ
  pub own_length : Packet.get_length m ≡ some sent_length
  pub inside : sent_length ≤ length m

-- A block with the same size and length field.
keeps-IsSendable :
    (m m' : Bytes)
    → length m' ≡ length m
    → load8 m' 0 ≡ load8 m 0
    → load8 m' 1 ≡ load8 m 1
    → IsSendable m
    → IsSendable m'
unfolding Packet.get_length
keeps-IsSendable m m' size e0 e1 h = record {
  has_header = omega (arith, h.has_header, size);
  sent_length = h.sent_length;
  own_length = rw (e0, e1) h.own_length;
  inside = omega (arith, h.inside, size);
}

store16-IsSendable :
    (m : Bytes) (i v : ℕ) → 4 ≤ i → i < 11 → IsSendable m → Returns IsSendable (store16 m i v)
store16-IsSendable m i v low high h =
    let mid = set m i (u8 (v >>> 8)) in
    let mid_size : length mid ≡ length m = length-set m i (u8 (v >>> 8)) in
    let same = λ (j : ℕ) (lt : j < 4).
      get_elem?-set_ne mid (suc i) j (u8 v) (λ e. absurd (omega arith))
      ∙ get_elem?-set_ne m i j (u8 (v >>> 8)) (λ e. absurd (omega arith)) in
    (
      set mid (suc i) (u8 v),
      rw (store8-set m i (v >>> 8) (omega (arith, h.has_header)))
          (store8-set mid (suc i) v (omega (arith, mid_size, h.has_header))),
      keeps-IsSendable m (set mid (suc i) (u8 v)) (length-set mid (suc i) (u8 v) ∙ mid_size)
          (same 0 (omega arith)) (same 1 (omega arith)) h,
    )

pub set_id-IsSendable :
    (m : Bytes) (id : ℕ) → IsSendable m → Returns IsSendable (Packet.set_id m id)
unfolding Packet.set_id
set_id-IsSendable m id h = store16-IsSendable m 10 id (omega arith) (omega arith) h

pub set_ack_id-IsSendable :
    (m : Bytes) (id : ℕ) → IsSendable m → Returns IsSendable (Packet.set_ack_id m id)
unfolding Packet.set_ack_id
set_ack_id-IsSendable m id h = store16-IsSendable m 4 id (omega arith) (omega arith) h

pub set_resend_id-IsSendable :
    (m : Bytes) (id : ℕ) → IsSendable m → Returns IsSendable (Packet.set_resend_id m id)
unfolding Packet.set_resend_id
set_resend_id-IsSendable m id h = store16-IsSendable m 6 id (omega arith) (omega arith) h

pub set_unknown-IsSendable :
    (m : Bytes) (id : ℕ) → IsSendable m → Returns IsSendable (Packet.set_unknown m id)
unfolding Packet.set_unknown
set_unknown-IsSendable m id h = store16-IsSendable m 8 id (omega arith) (omega arith) h

-- The three bits of the length in the first byte stay.
flags_byte-mod : (f b : ℕ) → u8 (bit_or (f <<< 3) (bit_and b 0x7)) % 8 ≡ b % 8
flags_byte-mod f b =
    let shifted : f * 8 % 8 ≡ 0 = omega arith in
    let low : bit_or (f * 8) (b % 8) % 8 ≡ b % 8 =
      bit_or-mod 3 (f * 8) (b % 8)
      ∙ ap (λ t. bit_or t (b % 8 % 8)) shifted
      ∙ zero-bit_or (b % 8 % 8)
      ∙ omega arith in
    rw (bit_and-mask 3 b) (omega (arith, low))

pub set_flags-IsSendable :
    (m : Bytes) (f : ℕ) → IsSendable m → Returns IsSendable (Packet.set_flags m f)
unfolding Packet.set_flags Packet.get_length
set_flags-IsSendable [] f h = absurd (omega (arith, h.has_header))
set_flags-IsSendable (b ∷ []) f h = absurd (omega (arith, h.has_header))
set_flags-IsSendable (b ∷ c ∷ m) f h = (
  u8 (bit_or (f <<< 3) (bit_and b 0x7)) ∷ c ∷ m,
  refl,
  record {
    has_header = h.has_header;
    sent_length = h.sent_length;
    inside = h.inside;
    own_length =
        ap some (
          bit_and-mask 11 (u8 (bit_or (f <<< 3) (bit_and b 0x7)) * 256 + c)
          ∙ omega (arith, flags_byte-mod f b, bit_and-mask 11 (b * 256 + c)))
        ∙ h.own_length;
  },
)

module _ (w : World) where
  pub create-IsSendable :
      ((n : ℕ) → length (w.malloc n) ≡ n)
      → (flags session : ℕ) → flags < 32
      → session < 65536
      → Returns IsSendable (Packet.create w.malloc flags session 12)
  create-IsSendable sizes flags session hf hs =
      let c = create-fields w.malloc flags session 12 sizes hf hs (omega arith) in
      (
        c.0,
        c.1,
        record {
          has_header = omega (arith, c.2);
          sent_length = 12;
          own_length = c.3.length_read;
          inside = omega (arith, c.2);
        },
      )

  pub send_dropped-IsSendable :
      (p : Bytes) (a : Atem)
      → IsSendable p
      → (data' : Bytes) × (send_dropped w p a ≡ some (record a { log = sent data' ∷ a.log }))
  unfolding send_dropped send_packet
  send_dropped-IsSendable p a h =
      let (bytes, e) = copy_from_inside p 0 h.sent_length (omega (arith, h.inside)) in
      (bytes, rw (h.own_length, e) refl)

  pub send_dropped_whole :
      (p : Bytes) (a : Atem)
      → Packet.get_length p ≡ some (length p)
      → send_dropped w p a ≡ some (record a { log = sent p ∷ a.log })
  unfolding send_dropped
  send_dropped_whole p a e = rw (send_packet-takes w p a (length p) e refl) refl
