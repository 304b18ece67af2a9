-- ===== src/Sequence/Window.antt =====
-- The bits of the window behind `add`, `get_missing` and `contains`: what each operation does to
-- the set of ids that the window holds.
use atem_esp_idf.Prelude.{
  ℕ, ◌+◌, ◌-◌, ◌*◌, ◌%◌, ◌^◌, ◌≤◌, ◌<◌, ◌≡◌, ◌⊎◌, inl, inr, refl, Bool, bit_and, bit_or, ◌==◌,
  if◌then◌else◌, nonzero, arith, ap, ◌∙◌, ==_iff, Bool-cases, lt→ltb, ◌<<<◌,
}
use native.Mathlib.Nat.{pow-le-pow_right}
use atem_esp_idf.Prelude.Bits.{
  bit, bit-lt, bit-bit_or, bit-shift_low, bit-shift, bit-mod, bit-one_self, bit-one_ne, bit_and-one,
  bit_and-mask, bit_or-lt, pow_pos,
}
use atem_esp_idf.Sequence.{SequenceCheck, ahead, advance, mark}

-- Packet ids have 15 bits, the window 32.
pub record IsValid (s : SequenceCheck) : Type 0 where
  pub offset_fits : s.offset < 32768
  pub received_fits : s.received < 2 ^ 32

mask15 : (x : ℕ) → bit_and (x % 2 ^ 16) 0x7FFF ≡ x % 32768
mask15 x = omega (arith, bit_and-mask 15 (x % 2 ^ 16))

pub ahead_lem :
    (s : SequenceCheck) (id : ℕ) → s.offset < 32768 → ahead s id ≡ (id + 32768 - s.offset) % 32768
unfolding ahead
ahead_lem s id h = omega (arith, mask15 (id + 65536 - s.offset))

pub bit-cases : (i a : ℕ) → (bit a i ≡ 0) ⊎ (bit a i ≡ 1)
bit-cases i a = ground (arith, bit-lt i a)

-- The test `a & 1 << i` reads bit `i`.
pub nonzero-bit : (i a : ℕ) → nonzero (bit_and a (1 <<< i)) ≡ (bit a i == 1)
nonzero-bit i a = elim (bit-cases i a) [
  | inl e ↦
      let z : bit_and a (1 * 2 ^ i) ≡ 0 = bit_and-one i a ∙ ap (λ t. t * 2 ^ i) e ∙ omega arith in
      rw (z, e) refl
  | inr e ↦
      let p : bit_and a (1 * 2 ^ i) ≡ 2 ^ i =
        bit_and-one i a ∙ ap (λ t. t * 2 ^ i) e ∙ omega arith in
      rw (p, e) (ground (arith, pow_pos i))
]

pub bit-or_one : (a i j : ℕ) → bit (bit_or a (1 <<< i)) j ≡ (if i == j then 1 else bit a j)
bit-or_one a i j = elim (Bool-cases (i == j)) [
  | inl e ↦
      let same : i ≡ j = (==_iff i j).0 e in
      let one : bit (1 <<< i) j ≡ 1 = rw (← same) (bit-one_self i) in
      rw e (omega (arith, bit-bit_or j a (1 <<< i), bit-lt j a, one))
  | inr e ↦
      rw e (omega (arith, bit-bit_or j a (1 <<< i), bit-one_ne i j (λ h. cc (e, (==_iff i j).1 h))))
]

one_shifted-lt : (k : ℕ) → k < 32 → 1 <<< k < 2 ^ 32
one_shifted-lt k h =
    let up : 2 ^ k ≤ 2 ^ 31 =
      pow-le-pow_right {n = 2} (omega arith) {i = k} {j = 31} (omega arith) in
    omega arith

already : (k j a : ℕ) → bit a k ≡ 1 → bit a j ≡ (if k == j then 1 else bit a j)
already k j a e = elim (Bool-cases (k == j)) [
  | inl q ↦ let same : k ≡ j = (==_iff k j).0 q in rw q (rw same at e)
  | inr q ↦ rw q refl
]

-- What `mark` does to the window, at an age that it holds.
pub record Marks (s : SequenceCheck) (k : ℕ) (r : Bool × SequenceCheck) : Type 0 where
  pub fresh : r.0 ≡ (bit s.received k == 0)
  pub same_offset : r.1.offset ≡ s.offset
  pub same_last_id : r.1.last_id ≡ s.last_id
  pub bits : (j : ℕ) → bit r.1.received j ≡ (if k == j then 1 else bit s.received j)
  pub fits : r.1.received < 2 ^ 32

pub mark-Marks : (s : SequenceCheck) (k : ℕ) → k < 32 → s.received < 2 ^ 32 → Marks s k (mark s k)
unfolding mark
mark-Marks s k h fit = elim (bit-cases k s.received) [
  | inl e ↦
      rw (nonzero-bit k s.received, e, mark)
        (record {
          fresh = rw e refl;
          same_offset = refl;
          same_last_id = refl;
          bits = bit-or_one s.received k;
          fits = bit_or-lt 32 s.received (1 <<< k) fit (one_shifted-lt k h);
        })
  | inr e ↦
      rw (nonzero-bit k s.received, e, mark)
        (record {
          fresh = rw e refl;
          same_offset = refl;
          same_last_id = refl;
          bits = λ j. already k j s.received e;
          fits = fit;
        })
]

-- `advance` by `d < 32` shifts the window; by more it does nothing.
pub record Advances (s : SequenceCheck) (id d : ℕ) (s' : SequenceCheck) : Type 0 where
  pub head : s'.offset ≡ id
  pub same_last_id : s'.last_id ≡ s.last_id
  pub low : (j : ℕ) → j < d → bit s'.received j ≡ 0
  pub high : (j : ℕ) → d + j < 32 → bit s'.received (d + j) ≡ bit s.received j
  pub fits : s'.received < 2 ^ 32

pub advance-Advances :
    (s : SequenceCheck) (id : ℕ) → ahead s id < 32 → Advances s id (ahead s id) (advance s id)
unfolding advance
advance-Advances s id h = rw (lt→ltb (ahead s id) 32 h) (record {
  head = refl;
  same_last_id = refl;
  low = λ j p.
      bit-mod 32 j (s.received <<< ahead s id) (omega arith)
      ∙ bit-shift_low (ahead s id) j s.received p;
  high = λ j p.
      bit-mod 32 (ahead s id + j) (s.received <<< ahead s id) p
      ∙ bit-shift (ahead s id) j s.received;
  fits = omega arith;
})

pub advance_behind : (s : SequenceCheck) (id : ℕ) → 32 ≤ ahead s id → advance s id ≡ s
unfolding advance
advance_behind s id h = ground arith
