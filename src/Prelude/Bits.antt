-- ===== src/Prelude/Bits.antt =====
-- Laws of `&` and `|` at variables: the lowest digit, a mask of low bits, and a single bit.
use Prim.Native.Nat.{
  ℕ, zero, suc, ◌+◌, ◌-◌, ◌*◌, ◌/◌, ◌%◌, ◌^◌, ◌≤◌, ◌<◌, min, max, bit_and, bit_or, digits,
  bit_and-bitwise, bit_or-bitwise,
}
use mathlib.Core.Logic.{◌≢◌}
use mathlib.Core.Path.{◌≡◌, refl, sym, ap, ap₂, ◌∙◌}
use native.Mathlib.Omega.{arith}
use native.Mathlib.Nat.{div-div-eq-div-mul, pow-suc, one-le-pow, zero-add, suc-add}

-- More digits to go than the first number has change nothing.
module _ (z : ℕ → ℕ) (f : ℕ → ℕ → ℕ) where
  digits_more : (n a b : ℕ) → a ≤ n → digits z f n a b ≡ digits z f a a b
  digits_more n a b h = agree n a a b h (omega arith)
    where
      agree : (n m a b : ℕ) → a ≤ n → a ≤ m → digits z f n a b ≡ digits z f m a b
      agree zero zero a b p q = refl
      agree (suc n) zero zero b p q = refl
      agree (suc n) zero (suc a) b p q = absurd (omega arith)
      agree zero (suc m) zero b p q = refl
      agree zero (suc m) (suc a) b p q = absurd (omega arith)
      agree (suc n) (suc m) zero b p q = refl
      agree (suc n) (suc m) (suc a) b p q =
          rw (agree n m (suc a / 2) (b / 2) (omega arith) (omega arith))

pub bit_and_low : (a b : ℕ) → bit_and a b ≡ bit_and (a / 2) (b / 2) * 2 + min (a % 2) (b % 2)
bit_and_low zero b = simp bit_and-bitwise (omega arith)
bit_and_low (suc a) b =
    simp bit_and-bitwise
      (omega (arith, digits_more (λ y. 0) min a (suc a / 2) (b / 2) (omega arith)))

pub bit_or_low : (a b : ℕ) → bit_or a b ≡ bit_or (a / 2) (b / 2) * 2 + max (a % 2) (b % 2)
bit_or_low zero b = simp bit_or-bitwise (omega arith)
bit_or_low (suc a) b =
    simp bit_or-bitwise
      (omega (arith, digits_more (λ y. y) max a (suc a / 2) (b / 2) (omega arith)))

-- The digit of weight `2 ^ i`.
abbrev pub bit : ℕ → ℕ → ℕ
bit a zero = a % 2
bit a (suc i) = bit (a / 2) i

pub bit-lt : (i a : ℕ) → bit a i < 2
bit-lt zero a = omega arith
bit-lt (suc i) a = bit-lt i (a / 2)

pub zero-bit : (i : ℕ) → bit 0 i ≡ 0
zero-bit zero = refl
zero-bit (suc i) = zero-bit i

pub bit-bit_or : (i a b : ℕ) → bit (bit_or a b) i ≡ max (bit a i) (bit b i)
bit-bit_or zero a b = omega (arith, bit_or_low a b)
bit-bit_or (suc i) a b =
    let half : bit_or a b / 2 ≡ bit_or (a / 2) (b / 2) = omega (arith, bit_or_low a b) in
    rw half (bit-bit_or i (a / 2) (b / 2))

pub bit-bit_and : (i a b : ℕ) → bit (bit_and a b) i ≡ min (bit a i) (bit b i)
bit-bit_and zero a b = omega (arith, bit_and_low a b)
bit-bit_and (suc i) a b =
    let half : bit_and a b / 2 ≡ bit_and (a / 2) (b / 2) = omega (arith, bit_and_low a b) in
    rw half (bit-bit_and i (a / 2) (b / 2))

-- Numbers with the same digits are equal.
pub bit_ext : (n a b : ℕ) → a ≤ n → b ≤ n → ((i : ℕ) → bit a i ≡ bit b i) → a ≡ b
bit_ext zero a b p q h = omega arith
bit_ext (suc n) a b p q h =
    omega (arith, h 0, bit_ext n (a / 2) (b / 2) (omega arith) (omega arith) (λ i. h (suc i)))

pub bit-shift_low : (d j a : ℕ) → j < d → bit (a * 2 ^ d) j ≡ 0
bit-shift_low zero j a h = absurd (omega arith)
bit-shift_low (suc d) zero a h = omega (arith, ap (λ (t : ℕ). a * t) (pow-suc 2 d))
bit-shift_low (suc d) (suc j) a h =
    let half : a * 2 ^ suc d / 2 ≡ a * 2 ^ d = omega (arith, ap (λ (t : ℕ). a * t) (pow-suc 2 d)) in
    rw half (bit-shift_low d j a (omega arith))

pub bit-shift : (d j a : ℕ) → bit (a * 2 ^ d) (d + j) ≡ bit a j
bit-shift zero j a = let e : a * 2 ^ 0 ≡ a = omega arith in rw (zero-add j) (rw e refl)
bit-shift (suc d) j a =
    let half : a * 2 ^ suc d / 2 ≡ a * 2 ^ d = omega (arith, ap (λ (t : ℕ). a * t) (pow-suc 2 d)) in
    rw (suc-add d j) (rw (half, bit) (bit-shift d j a))

mod-half : (a p : ℕ) → 0 < p → a % (2 * p) / 2 ≡ a / 2 % p
mod-half a p h = grind arith

mod-low : (a p : ℕ) → 0 < p → a % (2 * p) % 2 ≡ a % 2
mod-low a p h = grind arith

pub pow-suc_two : (w : ℕ) → 2 ^ suc w ≡ 2 * 2 ^ w
pow-suc_two w = omega (arith, pow-suc 2 w)

pub pow_pos : (w : ℕ) → 0 < 2 ^ w
pow_pos w = one-le-pow w 2 (omega arith)

pub bit-mod : (w j a : ℕ) → j < w → bit (a % 2 ^ w) j ≡ bit a j
bit-mod zero j a h = absurd (omega arith)
bit-mod (suc w) zero a h = rw (pow-suc_two w) (mod-low a (2 ^ w) (pow_pos w))
bit-mod (suc w) (suc j) a h =
    rw (pow-suc_two w) (rw (mod-half a (2 ^ w) (pow_pos w)) (bit-mod w j (a / 2) (omega arith)))

-- Above its width a number has no digits.
pub bit_above : (w j a : ℕ) → a < 2 ^ w → w ≤ j → bit a j ≡ 0
bit_above zero j a h p = let e : a ≡ 0 = omega arith in rw e (zero-bit j)
bit_above (suc w) zero a h p = absurd (omega arith)
bit_above (suc w) (suc j) a h p = bit_above w j (a / 2) (omega (arith, pow-suc_two w)) (omega arith)

-- `1 << i` has one digit.
pub bit-one_self : (i : ℕ) → bit (1 * 2 ^ i) i ≡ 1
bit-one_self zero = refl
bit-one_self (suc i) =
    let half : 1 * 2 ^ suc i / 2 ≡ 1 * 2 ^ i = omega (arith, pow-suc 2 i) in
    rw half (bit-one_self i)

pub bit-one_ne : (i j : ℕ) → i ≢ j → bit (1 * 2 ^ i) j ≡ 0
bit-one_ne zero zero h = absurd (h refl)
bit-one_ne zero (suc j) h = zero-bit j
bit-one_ne (suc i) zero h = omega (arith, pow-suc 2 i)
bit-one_ne (suc i) (suc j) h =
    let half : 1 * 2 ^ suc i / 2 ≡ 1 * 2 ^ i = omega (arith, pow-suc 2 i) in
    rw half (bit-one_ne i j (λ e. h (ap suc e)))

bit_and-zero : (n a : ℕ) → a ≤ n → bit_and a 0 ≡ 0
bit_and-zero zero a h = let e : a ≡ 0 = omega arith in rw e refl
bit_and-zero (suc n) zero h = refl
bit_and-zero (suc n) (suc a) h =
    omega (arith, bit_and_low (suc a) 0, bit_and-zero n (suc a / 2) (omega arith))

-- `a & 1 << i` is the digit, in its place.
pub bit_and-one : (i a : ℕ) → bit_and a (1 * 2 ^ i) ≡ bit a i * 2 ^ i
bit_and-one zero a = omega (arith, bit_and_low a 1, bit_and-zero (a / 2) (a / 2) (omega arith))
bit_and-one (suc i) a =
    let half : 1 * 2 ^ suc i / 2 ≡ 1 * 2 ^ i = omega (arith, pow-suc 2 i) in
    let low : 1 * 2 ^ suc i % 2 ≡ 0 = omega (arith, pow-suc 2 i) in
    let rest : bit_and (a / 2) (1 * 2 ^ suc i / 2) ≡ bit (a / 2) i * 2 ^ i =
      rw half (bit_and-one i (a / 2)) in
    omega (
      arith,
      bit_and_low a (1 * 2 ^ suc i),
      rest,
      low,
      ap (λ (t : ℕ). bit (a / 2) i * t) (pow-suc 2 i),
    )

-- A mask of `k` low bits is the remainder.
pub bit_and-mask : (k a : ℕ) → bit_and a (2 ^ k - 1) ≡ a % 2 ^ k
bit_and-mask zero a =
    let e : 2 ^ 0 - 1 ≡ 0 = omega arith in omega (arith, bit_and-zero a a (omega arith))
bit_and-mask (suc k) a =
    let half : (2 ^ suc k - 1) / 2 ≡ 2 ^ k - 1 = omega (arith, pow-suc_two k, pow_pos k) in
    let low : (2 ^ suc k - 1) % 2 ≡ 1 = omega (arith, pow-suc_two k, pow_pos k) in
    let rest : bit_and (a / 2) ((2 ^ suc k - 1) / 2) ≡ a / 2 % 2 ^ k =
      rw half (bit_and-mask k (a / 2)) in
    rw (pow-suc_two k) (
      omega (
        arith,
        bit_and_low a (2 * 2 ^ k - 1),
        rw (pow-suc_two k) at rest,
        rw (pow-suc_two k) at low,
        mod-half a (2 ^ k) (pow_pos k),
        mod-low a (2 ^ k) (pow_pos k),
      ))

bit_or-zero : (n a : ℕ) → a ≤ n → bit_or a 0 ≡ a
bit_or-zero zero a h = let e : a ≡ 0 = omega arith in rw e refl
bit_or-zero (suc n) zero h = refl
bit_or-zero (suc n) (suc a) h =
    omega (arith, bit_or_low (suc a) 0, bit_or-zero n (suc a / 2) (omega arith))

-- `q << k | r` is a sum where `r` fits in `k` bits.
pub bit_or-shift : (k q r : ℕ) → r < 2 ^ k → bit_or (q * 2 ^ k) r ≡ q * 2 ^ k + r
bit_or-shift zero q r h =
    let e : r ≡ 0 = omega arith in
    rw e (omega (arith, bit_or-zero (q * 2 ^ 0) (q * 2 ^ 0) (omega arith)))
bit_or-shift (suc k) q r h =
    let half : q * 2 ^ suc k / 2 ≡ q * 2 ^ k = omega (arith, ap (λ (t : ℕ). q * t) (pow-suc 2 k)) in
    let rest : bit_or (q * 2 ^ suc k / 2) (r / 2) ≡ q * 2 ^ k + r / 2 =
      rw half (bit_or-shift k q (r / 2) (omega (arith, pow-suc 2 k))) in
    omega (arith, bit_or_low (q * 2 ^ suc k) r, rest, ap (λ (t : ℕ). q * t) (pow-suc 2 k))

pub bit_or-lt : (w a b : ℕ) → a < 2 ^ w → b < 2 ^ w → bit_or a b < 2 ^ w
bit_or-lt zero a b p q =
    let ea : a ≡ 0 = omega arith in let eb : b ≡ 0 = omega arith in rw (ea, eb) (omega arith)
bit_or-lt (suc w) a b p q = omega (
  arith,
  pow-suc_two w,
  bit_or_low a b,
  bit_or-lt w (a / 2) (b / 2) (omega (arith, pow-suc_two w)) (omega (arith, pow-suc_two w)),
)

pub bit_all_ones : (w j : ℕ) → j < w → bit (2 ^ w - 1) j ≡ 1
bit_all_ones zero j h = absurd (omega arith)
bit_all_ones (suc w) zero h = omega (arith, pow-suc_two w, pow_pos w)
bit_all_ones (suc w) (suc j) h =
    let half : (2 ^ suc w - 1) / 2 ≡ 2 ^ w - 1 = omega (arith, pow-suc_two w, pow_pos w) in
    rw half (bit_all_ones w j (omega arith))

pub zero-bit_or : (b : ℕ) → bit_or 0 b ≡ b
zero-bit_or b = bit_or-bitwise 0 b

pub bit_or-div : (k a b : ℕ) → bit_or a b / 2 ^ k ≡ bit_or (a / 2 ^ k) (b / 2 ^ k)
bit_or-div zero a b =
    let one : (x : ℕ) → x / 2 ^ 0 ≡ x = λ x. omega arith in rw (one (bit_or a b), one a, one b) refl
bit_or-div (suc k) a b =
    let down : (x : ℕ) → x / 2 ^ suc k ≡ x / 2 / 2 ^ k =
      λ x. rw (pow-suc_two k) (sym (div-div-eq-div-mul x 2 (2 ^ k))) in
    let half : bit_or a b / 2 ≡ bit_or (a / 2) (b / 2) = omega (arith, bit_or_low a b) in
    rw (down (bit_or a b), down a, down b, half) (bit_or-div k (a / 2) (b / 2))

pub bit_or-mod : (k a b : ℕ) → bit_or a b % 2 ^ k ≡ bit_or (a % 2 ^ k) (b % 2 ^ k)
bit_or-mod zero a b =
    let none : (x : ℕ) → x % 2 ^ 0 ≡ 0 = λ x. omega arith in
    rw (none (bit_or a b), none a, none b) refl
bit_or-mod (suc k) a b =
    let half : bit_or a b / 2 ≡ bit_or (a / 2) (b / 2) = omega (arith, bit_or_low a b) in
    let ih : bit_or a b / 2 % 2 ^ k ≡ bit_or (a / 2 % 2 ^ k) (b / 2 % 2 ^ k) =
      rw half (bit_or-mod k (a / 2) (b / 2)) in
    let pos = pow_pos k in
    let split : (x : ℕ) → x % (2 * 2 ^ k) ≡ x / 2 % 2 ^ k * 2 + x % 2 =
      λ x. omega (arith, mod-half x (2 ^ k) pos, mod-low x (2 ^ k) pos) in
    rw (pow-suc_two k) (
      split (bit_or a b)
      ∙ omega (
        arith,
        bit_or_low a b,
        bit_or_low (a % (2 * 2 ^ k)) (b % (2 * 2 ^ k)),
        ih,
        mod-low a (2 ^ k) pos,
        mod-low b (2 ^ k) pos,
        ap₂ bit_or (mod-half a (2 ^ k) pos) (mod-half b (2 ^ k) pos),
      ))
