-- ===== src/Atem/Vector.antt =====
-- `std::vector`: `resize`, and a write through an index.
use atem_esp_idf.Prelude.{
  ℕ, zero, suc, ◌≡◌, ◌≢◌, refl, ap, Option, none, some, List, [], ◌∷◌, leb, not, if◌then◌else◌,
  length, get_elem?, ◌>>=◌,
}
use atem_esp_idf.State.{AtemState, is_valid, get}

module _ {A : Type 0} where
  unfoldable pub resize : List A → ℕ → A → List A
  resize xs zero new = []
  resize [] (suc n) new = new ∷ resize [] n new
  resize (x ∷ xs) (suc n) new = x ∷ resize xs n new

  unfoldable pub update : List A → ℕ → (A → A) → List A
  update [] i f = []
  update (x ∷ xs) zero f = f x ∷ xs
  update (x ∷ xs) (suc i) f = x ∷ update xs i f

  -- The body of a getter: `false` out of range, or where the value is not valid.
  unfoldable pub read_at : {T : Type 0} → (A → AtemState T) → List A → ℕ → Option T
  read_at field xs i =
      if leb (length xs) i
      then none
      else do x ← get_elem? xs i; if not (is_valid (field x)) then none else some (get (field x))

  pub length-resize : (xs : List A) (n : ℕ) (new : A) → length (resize xs n new) ≡ n
  unfolding resize
  length-resize xs zero new = refl
  length-resize [] (suc n) new = ap suc (length-resize [] n new)
  length-resize (x ∷ xs) (suc n) new = ap suc (length-resize xs n new)

  pub length-update : (xs : List A) (i : ℕ) (f : A → A) → length (update xs i f) ≡ length xs
  unfolding update
  length-update [] i f = refl
  length-update (x ∷ xs) zero f = refl
  length-update (x ∷ xs) (suc i) f = ap suc (length-update xs i f)

  pub get_elem?-update_self :
      (xs : List A) (i : ℕ) (f : A → A) (x : A)
      → get_elem? xs i ≡ some x
      → get_elem? (update xs i f) i ≡ some (f x)
  unfolding update
  get_elem?-update_self [] i f x e = cc
  get_elem?-update_self (y ∷ xs) zero f x e = cc
  get_elem?-update_self (y ∷ xs) (suc i) f x e = get_elem?-update_self xs i f x e

  pub get_elem?-update_ne :
      (xs : List A) (i j : ℕ) (f : A → A) → i ≢ j → get_elem? (update xs i f) j ≡ get_elem? xs j
  unfolding update
  get_elem?-update_ne [] i j f h = refl
  get_elem?-update_ne (x ∷ xs) zero zero f h = absurd (h refl)
  get_elem?-update_ne (x ∷ xs) zero (suc j) f h = refl
  get_elem?-update_ne (x ∷ xs) (suc i) zero f h = refl
  get_elem?-update_ne (x ∷ xs) (suc i) (suc j) f h =
      get_elem?-update_ne xs i j f (λ e. h (ap suc e))
