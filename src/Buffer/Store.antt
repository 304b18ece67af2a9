-- ===== src/Buffer/Store.antt =====
-- Stores and copies within a block: they succeed, keep its size, and write only their range.
use atem_esp_idf.Prelude.{
  ℕ, zero, suc, ◌+◌, ◌≤◌, ◌<◌, ◌≡◌, refl, ap, ◌∙◌, Option, some, [], ◌∷◌, arith, length, set,
  length-set, get_elem?-set_self, get_elem?-set_ne, u8, ◌⊎◌, inl,
}
use atem_esp_idf.Buffer.{Bytes, load8, store8, copy_to, AreBytes}

pub store8-set : (m : Bytes) (i v : ℕ) → i < length m → store8 m i v ≡ some (set m i (u8 v))
store8-set [] i v h = absurd (omega arith)
store8-set (b ∷ m) zero v h = refl
store8-set (b ∷ m) (suc i) v h = rw (store8-set m i v (omega arith)) refl

pub set-AreBytes : (m : Bytes) (i v : ℕ) → v < 256 → AreBytes m → AreBytes (set m i v)
set-AreBytes [] i v h b = b
set-AreBytes (x ∷ m) zero v h b = (h, b.1)
set-AreBytes (x ∷ m) (suc i) v h b = (b.0, set-AreBytes m i v h b.1)

-- What `copy_to` of `bs` at `i` leaves.
pub record Copies (m : Bytes) (i : ℕ) (bs : Bytes) (r : Option Bytes) : Type 0 where
  pub after : Bytes
  pub returns : r ≡ some after
  pub same_length : length after ≡ length m
  pub inside : (j : ℕ) → j < length bs → load8 after (i + j) ≡ load8 bs j
  pub outside : (j : ℕ) → (j < i) ⊎ (i + length bs ≤ j) → load8 after j ≡ load8 m j

Copies-cons :
    (b : ℕ) (bs m : Bytes) (i : ℕ)
    → i < length m
    → b < 256
    → Copies (set m i (u8 b)) (suc i) bs (copy_to (set m i (u8 b)) (suc i) bs)
    → Copies m i (b ∷ bs) (copy_to m i (b ∷ bs))
Copies-cons b bs m i fits byte r = record {
  after = r.after;
  returns = rw (store8-set m i b fits) r.returns;
  same_length = r.same_length ∙ length-set m i (u8 b);
  inside = inside;
  outside =
      λ j h. r.outside j (ground arith) ∙ get_elem?-set_ne m i j (u8 b) (λ e. absurd (omega arith));
}
  where
    inside : (j : ℕ) → j < suc (length bs) → load8 r.after (i + j) ≡ load8 (b ∷ bs) j
    inside zero h =
        let e : i + 0 ≡ i = omega arith in
        let same : u8 b ≡ b = omega arith in
        rw e (r.outside i (inl (omega arith)) ∙ get_elem?-set_self m i (u8 b) fits ∙ ap some same)
    inside (suc j) h =
        let e : i + suc j ≡ suc i + j = omega arith in rw e (r.inside j (omega arith))

pub copy_to-Copies :
    (bs m : Bytes) (i : ℕ) → i + length bs ≤ length m → AreBytes bs → Copies m i bs (copy_to m i bs)
copy_to-Copies [] m i fits bytes = record {
  after = m;
  returns = refl;
  same_length = refl;
  inside = λ j h. absurd (omega arith);
  outside = λ j h. refl;
}
copy_to-Copies (b ∷ bs) m i fits bytes =
    Copies-cons b bs m i (omega arith) bytes.0
      (copy_to-Copies bs (set m i (u8 b)) (suc i) (omega (arith, length-set m i (u8 b))) bytes.1)
