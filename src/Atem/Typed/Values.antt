-- ===== src/Atem/Typed/Values.antt =====
-- What the loads and the containers keep of the types.
use atem_esp_idf.Prelude.{
  ℕ, zero, suc, ◌+◌, ◌*◌, ◌≡◌, refl, List, [], ◌∷◌, ◌++◌, arith, length, get_elem?, replicate, take,
  Bool-cases, inl, inr, ◌==◌, subst,
}
use atem_esp_idf.Prelude.Returns.{Ensures, Ensures-bind, Ensures-some}
use atem_esp_idf.Buffer.{Bytes, load8, load16, load32, copy_from, AreBytes}
use atem_esp_idf.Sequence
use atem_esp_idf.Sequence.{SequenceCheck}
use atem_esp_idf.State.{AtemState, put, set}
use atem_esp_idf.Command.{get_data, get_data_s, get_data_u32}
use atem_esp_idf.Atem.Object.{find, assign}
use atem_esp_idf.Atem.Vector.{resize, update}
use atem_esp_idf.Atem.Typed.{Fits8, Fits16, Fits32, All, Stamped, Keyed}

load8-Fits8 : (m : Bytes) (i : ℕ) → AreBytes m → Ensures Fits8 (load8 m i)
load8-Fits8 [] i h a e = cc
load8-Fits8 (b ∷ m) zero h a e = let same : b ≡ a = cc in omega (arith, h.0)
load8-Fits8 (b ∷ m) (suc i) h a e = load8-Fits8 m i h.1 a e

pub load16-Fits16 : (m : Bytes) (i : ℕ) → AreBytes m → Ensures Fits16 (load16 m i)
load16-Fits16 m i h = Ensures-bind Fits8 _ _ _ (load8-Fits8 m i h) λ hi p.
    Ensures-bind Fits8 _ _ _ (load8-Fits8 m (suc i) h)
      λ lo q. Ensures-some Fits16 (hi * 256 + lo) (omega arith)

pub load32-Fits32 : (m : Bytes) (i : ℕ) → AreBytes m → Ensures Fits32 (load32 m i)
load32-Fits32 m i h = Ensures-bind Fits16 _ _ _ (load16-Fits16 m i h) λ hi p.
    Ensures-bind Fits16 _ _ _ (load16-Fits16 m (suc (suc i)) h)
      λ lo q. Ensures-some Fits32 (hi * 65536 + lo) (omega arith)

module _ (m : Bytes) (base i : ℕ) (h : AreBytes m) where
  pub data-Fits8 : Ensures Fits8 (get_data m base i)
  unfolding get_data
  data-Fits8 = load8-Fits8 m (base + 8 + i) h

  pub data-Fits16 : Ensures Fits16 (get_data_s m base i)
  unfolding get_data_s
  data-Fits16 = load16-Fits16 m (base + 8 + 2 * i) h

  pub data-Fits32 : Ensures Fits32 (get_data_u32 m base i)
  unfolding get_data_u32
  data-Fits32 = load32-Fits32 m (base + 8 + 4 * i) h

-- The bytes of a copy, and how many there are.
pub copy_from-sized :
    (m : Bytes) (i n : ℕ)
    → AreBytes m
    → Ensures (λ bs. (length bs ≡ n) × AreBytes bs) (copy_from m i n)
copy_from-sized m i zero h = Ensures-some _ [] (refl, tt)
copy_from-sized m i (suc n) h = Ensures-bind Fits8 _ _ _ (load8-Fits8 m i h) λ b p.
    Ensures-bind (λ bs. (length bs ≡ n) × AreBytes bs) _ _ _ (copy_from-sized m (suc i) n h)
      λ bs q. Ensures-some _ (b ∷ bs) (omega (arith, q.0), (p, q.1))

pub append-AreBytes : (xs ys : Bytes) → AreBytes xs → AreBytes ys → AreBytes (xs ++ ys)
append-AreBytes [] ys h k = k
append-AreBytes (x ∷ xs) ys h k = (h.0, append-AreBytes xs ys h.1 k)

pub zeros-AreBytes : (n : ℕ) → AreBytes (replicate n 0)
zeros-AreBytes zero = tt
zeros-AreBytes (suc n) = (omega arith, zeros-AreBytes n)

pub take-AreBytes : (n : ℕ) (xs : Bytes) → AreBytes xs → AreBytes (take n xs)
take-AreBytes zero xs h = tt
take-AreBytes (suc n) [] h = tt
take-AreBytes (suc n) (x ∷ xs) h = (h.0, take-AreBytes n xs h.1)

pub put-Stamped :
    {T : Type 0} (P : T → Type 0) (x : AtemState T) (sequence : SequenceCheck) (v : T)
    → Fits16 sequence.last_id
    → Stamped P x
    → P v
    → Stamped P (put x sequence v)
unfolding put set
put-Stamped P x sequence v fits h k =
    elim (Bool-cases (Sequence.is_newer sequence x.last_change_id)) [
      | inl e ↦ rw (put, e) h
      | inr e ↦ rw (put, e) (fits, k)
    ]

module _ {A : Type 0} (P : A → Type 0) where
  pub update-All :
      (xs : List A) (i : ℕ) (f : A → A)
      → ((x : A) → P x → P (f x))
      → All P xs
      → All P (update xs i f)
  unfolding update
  update-All [] i f k h = tt
  update-All (x ∷ xs) zero f k h = (k x h.0, h.1)
  update-All (x ∷ xs) (suc i) f k h = (h.0, update-All xs i f k h.1)

  pub resize-All : (xs : List A) (n : ℕ) (new : A) → P new → All P xs → All P (resize xs n new)
  unfolding resize
  resize-All xs zero new k h = tt
  resize-All [] (suc n) new k h = (k, resize-All [] n new k tt)
  resize-All (x ∷ xs) (suc n) new k h = (h.0, resize-All xs n new k h.1)

  pub get_elem?-All : (xs : List A) (i : ℕ) → All P xs → Ensures P (get_elem? xs i)
  get_elem?-All [] i h a e = cc
  get_elem?-All (x ∷ xs) zero h a e = let same : x ≡ a = cc in subst P same h.0
  get_elem?-All (x ∷ xs) (suc i) h a e = get_elem?-All xs i h.1 a e

  pub assign-All :
      (xs : List (ℕ × A)) (k : ℕ) (v : A)
      → Fits16 k
      → P v
      → All (Keyed P) xs
      → All (Keyed P) (assign k v xs)
  unfolding assign
  assign-All [] k v fits p h = ((fits, p), tt)
  assign-All ((j, x) ∷ xs) k v fits p h = elim (Bool-cases (j == k)) [
    | inl e ↦ rw e ((h.0.0, p), h.1)
    | inr e ↦ rw e (h.0, assign-All xs k v fits p h.1)
  ]

  pub find-All : (xs : List (ℕ × A)) (k : ℕ) → All (Keyed P) xs → Ensures P (find k xs)
  unfolding find
  find-All [] k h a e = cc
  find-All ((j, x) ∷ xs) k h a e = elim (Bool-cases (j == k)) [
    | inl t ↦ let same : x ≡ a = cc (rw t at e) in subst P same h.0.1
    | inr t ↦ find-All xs k h.1 a (rw t at e)
  ]
