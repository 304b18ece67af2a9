-- ===== src/Prelude/Returns.antt =====
-- A computation that is defined, with what holds of its result.
use mathlib.Core.Path.{◌≡◌, refl, subst}
use mathlib.Core.Bool.{Bool, true, false}
use mathlib.Core.Option.{Option, none, some}
use atem_esp_idf.Prelude.Tests.{if◌then◌else◌}
use atem_esp_idf.Prelude.Fault.{◌>>=◌}

abbrev pub Returns {ℓ κ} : {A : Type ℓ} → (A → Type κ) → Option A → Type (ℓ ⊔ κ)
Returns {A = A} P r = (a : A) × (r ≡ some a) × P a

pub Returns-some {ℓ κ} : {A : Type ℓ} (P : A → Type κ) (a : A) → P a → Returns P (some a)
Returns-some P a h = (a, refl, h)

pub Returns-bind {ℓ κ μ} :
    {A : Type ℓ} {B : Type ℓ} (P : A → Type κ) (Q : B → Type μ) (r : Option A) (f : A → Option B)
    → Returns P r
    → ((a : A) → P a → Returns Q (f a))
    → Returns Q (r >>= f)
Returns-bind P Q r f (a, e, h) k = rw e (k a h)

pub Returns-if {ℓ κ} :
    {A : Type ℓ} (P : A → Type κ) (b : Bool) (x y : Option A)
    → Returns P x
    → Returns P y
    → Returns P (if b then x else y)
Returns-if P true x y h k = h
Returns-if P false x y h k = k

-- The first branch, where the test holds.
pub Returns-test {ℓ κ} :
    {A : Type ℓ} (P : A → Type κ) (b : Bool) (x y : Option A)
    → (b ≡ true → Returns P x)
    → Returns P y
    → Returns P (if b then x else y)
Returns-test P true x y h k = h refl
Returns-test P false x y h k = k

-- A computation that is defined.
abbrev pub IsDefined {ℓ} : {A : Type ℓ} → Option A → Type ℓ
IsDefined {A = A} r = (a : A) × (r ≡ some a)

pub IsDefined-bind {ℓ κ} :
    {A : Type ℓ} {B : Type κ} (r : Option A) (f : A → Option B)
    → IsDefined r
    → ((a : A) → IsDefined (f a))
    → IsDefined (r >>= f)
IsDefined-bind r f (a, e) k = rw e (k a)

-- The second branch, where the test fails.
pub IsDefined-if {ℓ} :
    {A : Type ℓ} (b : Bool) (x y : Option A)
    → IsDefined x
    → (b ≡ false → IsDefined y)
    → IsDefined (if b then x else y)
IsDefined-if true x y h k = h
IsDefined-if false x y h k = k refl

-- What holds of the result, where there is one.
abbrev pub Ensures {ℓ κ} : {A : Type ℓ} → (A → Type κ) → Option A → Type (ℓ ⊔ κ)
Ensures {A = A} P r = (a : A) → r ≡ some a → P a

pub Ensures-some {ℓ κ} : {A : Type ℓ} (P : A → Type κ) (a : A) → P a → Ensures P (some a)
Ensures-some P a h b e = let same : a ≡ b = cc in subst P same h

pub Ensures-bind {ℓ κ μ} :
    {A : Type ℓ} {B : Type ℓ} (P : A → Type κ) (Q : B → Type μ) (r : Option A) (f : A → Option B)
    → Ensures P r
    → ((a : A) → P a → Ensures Q (f a))
    → Ensures Q (r >>= f)
Ensures-bind P Q (some a) f h k b e = k a (h a refl) b e
Ensures-bind P Q none f h k b e = cc

pub Ensures-if {ℓ κ} :
    {A : Type ℓ} (P : A → Type κ) (b : Bool) (x y : Option A)
    → Ensures P x
    → Ensures P y
    → Ensures P (if b then x else y)
Ensures-if P true x y h k = h
Ensures-if P false x y h k = k
