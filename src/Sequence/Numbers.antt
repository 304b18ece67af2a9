-- ===== src/Sequence/Numbers.antt =====
-- `SequenceCheck` against the packets' own numbers, which do not wrap: the id of the packet `n` is
-- `n` modulo 2 ^ 15.
pub mod Refinement
use atem_esp_idf.Prelude.{
  ℕ, zero, suc, ◌+◌, ◌-◌, ◌%◌, ◌≤◌, ◌<◌, ◌≡◌, ◌≢◌, refl, ap, sym, ◌∙◌, ◌⊎◌, inl, inr, Bool, true,
  false, not, ◌||◌, Bool-cases, Option, some, List, [], ◌∷◌, map, max, arith, ◌>>=◌, ◌==◌, ==_iff,
  ==_self, ltb, ltb→lt, of_bool, subst,
}
use atem_esp_idf.Prelude.Bits.{bit, bit_all_ones}
use atem_esp_idf.Sequence.{SequenceCheck, init, add}
use atem_esp_idf.Sequence.Window.{IsValid}
use atem_esp_idf.Sequence.Add.{distance, AddsAhead, AddsBehind, add-ahead, add-behind}
use atem_esp_idf.Sequence.Stream.{add_all}

abbrev pub id_of : ℕ → ℕ
id_of n = n % 32768

unfoldable pub has : ℕ → List ℕ → Bool
has n [] = false
has n (m ∷ ms) = m == n || has n ms

-- The specification: which of the packets come for the first time, with those seen before.
unfoldable pub first_times : List ℕ → List ℕ → List Bool
unfolding has
first_times seen [] = []
first_times seen (n ∷ ns) = not (has n seen) ∷ first_times (n ∷ seen) ns

-- Each packet is less than 32 after the highest number so far, or less than 32 before it and with
-- no rollover of the ids between the two.
abbrev pub IsNear : ℕ → ℕ → Type 0
IsNear h n = ((h ≤ n) × (n < h + 32)) ⊎ ((n < h) × (h < n + 32) × (id_of n < id_of h))

abbrev pub AreNear : ℕ → List ℕ → Type 0
AreNear h [] = Unit {0}
AreNear h (n ∷ ns) = IsNear h n × AreNear (max h n) ns

abbrev pub highest : ℕ → List ℕ → ℕ
highest h [] = h
highest h (n ∷ ns) = highest (max h n) ns

abbrev pub all_seen : List ℕ → List ℕ → List ℕ
all_seen seen [] = seen
all_seen seen (n ∷ ns) = all_seen (n ∷ seen) ns

-- The window of `s` shows which of the last 32 numbers up to `h` were seen, and none is above `h`.
pub record Represents (s : SequenceCheck) (h : ℕ) (seen : List ℕ) : Type 0 where
  pub valid : IsValid s
  pub head : s.offset ≡ id_of h
  pub window : (k : ℕ) → k < 32 → k ≤ h → bit s.received k ≡ of_bool (has (h - k) seen)
  pub above : (n : ℕ) → h < n → has n seen ≡ false

-- One `Add` and what it answers.
pub record AddsNumber (s : SequenceCheck) (h : ℕ) (seen : List ℕ) (n : ℕ) : Type 0 where
  pub after : SequenceCheck
  pub returns : add s (id_of n) ≡ some (not (has n seen), after)
  pub represents : Represents after (max h n) (n ∷ seen)

pub has_other : (n m : ℕ) (seen : List ℕ) → m ≢ n → has n (m ∷ seen) ≡ has n seen
unfolding has
has_other n m seen ne = ground arith

pub has_self : (n : ℕ) (seen : List ℕ) → has n (n ∷ seen) ≡ true
unfolding has
has_self n seen = ground arith

pub exclusive : {b : Bool} → b ≡ true → b ≡ false → ⊥
exclusive p q = cc

pub above-cons :
    (h n : ℕ) (seen : List ℕ)
    → ((m : ℕ) → h < m → has m seen ≡ false)
    → (m : ℕ) → max h n < m
    → has m (n ∷ seen) ≡ false
above-cons h n seen a m lt = has_other m n seen (λ e. absurd (omega arith)) ∙ a m (omega arith)

-- The same numbers, with the conditions of `add-ahead` and `add-behind` on the ids.
pub distance_lem :
    (s : SequenceCheck) (h n : ℕ)
    → s.offset ≡ id_of h
    → h ≤ n
    → n < h + 32
    → distance s (id_of n) ≡ n - h
distance_lem s h n e le lt = omega (arith, e)

pub seen_at :
    (s : SequenceCheck) (h : ℕ) (seen : List ℕ) (k m : ℕ)
    → Represents s h seen
    → k < 32
    → m + k ≡ h
    → bit s.received k ≡ of_bool (has m seen)
seen_at s h seen k m r lt e =
    let at : h - k ≡ m = omega arith in
    subst (λ i. bit s.received k ≡ of_bool (has i seen)) at (r.window k lt (omega arith))
