-- ===== src/Sequence/Missing.antt =====
-- `SequenceCheck::GetMissing` names the oldest id of the window that has not been received.
use atem_esp_idf.Prelude.{
  ℕ, zero, suc, ◌+◌, ◌-◌, ◌%◌, ◌^◌, ◌≤◌, ◌<◌, ◌≡◌, ◌⊎◌, inl, inr, refl, ap, sym, subst, ◌∙◌, Bool,
  Option, some, true, bit_and, ◌==◌, ==_iff, if◌then◌else◌, arith, Bool-cases, u16,
}
use atem_esp_idf.Prelude.Bits.{bit, bit_and-mask, bit_all_ones}
use atem_esp_idf.Sequence.Add.{distance, AddsAhead, add-ahead, AddsBehind, add-behind}
use atem_esp_idf.Sequence.{SequenceCheck, add, scan, get_missing, nothing_missing, uint32_max}
use atem_esp_idf.Sequence.Window.{IsValid, bit-cases, nonzero-bit}

-- The id `i` before the head.
abbrev pub id_at : SequenceCheck → ℕ → ℕ
id_at s i = (s.offset + 32768 - i) % 32768

-- What `m` says of the ages from 1 up to `n`: the oldest of them that is missing, or none.
abbrev pub Oldest : SequenceCheck → ℕ → ℕ → Type 0
Oldest s n m =
    (((j : ℕ) → 0 < j → j ≤ n → bit s.received j ≡ 1) × (m ≡ nothing_missing))
    ⊎ ((i : ℕ) × (0 < i)
        × (i ≤ n)
        × (bit s.received i ≡ 0)
        × ((j : ℕ) → i < j → j ≤ n → bit s.received j ≡ 1)
        × (m ≡ id_at s i))

masked :
    (s : SequenceCheck) (i : ℕ)
    → s.offset < 32768
    → i < 32
    → bit_and (u16 (s.offset + 65536 - i)) 0x7FFF ≡ id_at s i
masked s i h k = omega (arith, bit_and-mask 15 (u16 (s.offset + 65536 - i)))

up_to : (P : ℕ → Type 0) (n : ℕ) → P (suc n) → ((j : ℕ) → j ≤ n → P j) → (j : ℕ) → j ≤ suc n → P j
up_to P n top h j le = elim (Bool-cases (j == suc n)) [
  | inl e ↦ subst P (sym ((==_iff j (suc n)).0 e)) top
  | inr e ↦ h j (ground arith)
]

scan-Oldest : (s : SequenceCheck) (n : ℕ) → s.offset < 32768 → n < 32 → Oldest s n (scan s n)
unfolding scan
scan-Oldest s zero h k = inl (λ j p q. absurd (omega arith), refl)
scan-Oldest s (suc n) h k = elim (bit-cases (suc n) s.received) [
  | inl e ↦
      rw (nonzero-bit (suc n) s.received, e, scan)
        (inr
          (suc n, omega arith, omega arith, e, λ j p q. absurd (omega arith), masked s (suc n) h k))
  | inr e ↦
      rw (nonzero-bit (suc n) s.received, e, scan)
        (extend (scan s n) e (scan-Oldest s n h (omega arith)))
]
  where
    extend : (m : ℕ) → bit s.received (suc n) ≡ 1 → Oldest s n m → Oldest s (suc n) m
    extend m e (inl (all, q)) = inl (
      λ j pos le.
          up_to (λ j. 0 < j → bit s.received j ≡ 1) n (λ _. e) (λ j le pos. all j pos le) j le pos,
      q,
    )
    extend m e (inr (i, pos, le, miss, newer, q)) = inr (
      i,
      pos,
      omega arith,
      miss,
      λ j p le.
          up_to (λ j. i < j → bit s.received j ≡ 1) n (λ _. e) (λ j le p. newer j p le) j le p,
      q,
    )

-- `GetMissing` returns the oldest id among the 31 before the head that has not been received, and
-- -1 exactly if there is none.
pub get_missing-Oldest : (s : SequenceCheck) → IsValid s → Oldest s 31 (get_missing s)
unfolding get_missing
get_missing-Oldest s v = elim (Bool-cases (s.received == uint32_max)) [
  | inl e ↦
      let full : s.received ≡ 2 ^ 32 - 1 = (==_iff s.received uint32_max).0 e in
      rw (e, get_missing)
        (inl (λ j p q. ap (λ r. bit r j) full ∙ bit_all_ones 32 j (omega arith), refl))
  | inr e ↦ rw (e, get_missing) (scan-Oldest s 31 v.offset_fits (omega arith))
]

pub ahead_fresh :
    {s : SequenceCheck} {id d : ℕ} {x : Option (Bool × SequenceCheck)} (r : AddsAhead s id d x)
    → 0 < d
    → r.fresh ≡ true
ahead_fresh r pos = elim (Bool-cases r.fresh) [
  | inl e ↦ e
  | inr e ↦ absurd (omega (arith, (r.fresh_iff.0 e).0))
]

behind_fresh :
    {s : SequenceCheck} {id k : ℕ} {x : Option (Bool × SequenceCheck)} (r : AddsBehind s id k x)
    → bit s.received k ≡ 0
    → r.fresh ≡ true
behind_fresh r miss = elim (Bool-cases r.fresh) [
  | inl e ↦ e
  | inr e ↦ absurd (omega (arith, r.fresh_iff.0 e))
]

-- The first id after the head.
abbrev pub next_id : SequenceCheck → ℕ
next_id s = (s.offset + 1) % 32768

Oldest-gap :
    (s t : SequenceCheck) (id d m : ℕ)
    → s.offset < 32768
    → id < 32768
    → distance s id ≡ d
    → 2 ≤ d
    → d < 32
    → t.offset ≡ id
    → ((j : ℕ) → 0 < j → j < d → bit t.received j ≡ 0)
    → ((j : ℕ) → d ≤ j → j < 32 → bit t.received j ≡ 1)
    → Oldest t 31 m
    → m ≡ next_id s
Oldest-gap s t id d m so ido de two far head low high (inl (all, q)) =
    absurd (omega (arith, low 1 (omega arith) (omega arith), all 1 (omega arith) (omega arith)))
Oldest-gap s t id d m so ido de two far head low high (inr (i, pos, le, miss, newer, q)) =
    ground (arith, low i, high i, newer (d - 1), low (d - 1))

-- After a gap in an unbroken stream the request goes to the first id that was skipped: with all
-- of the window received, `Add` of an id 2 to 31 ahead makes `GetMissing` name the id after the
-- old head.
pub get_missing-add_gap :
    (s : SequenceCheck) (id : ℕ)
    → IsValid s
    → id < 32768
    → ((j : ℕ) → j < 32 → bit s.received j ≡ 1)
    → 2 ≤ distance s id
    → distance s id < 32
    → (s' : SequenceCheck) × (add s id ≡ some (true, s')) × (get_missing s' ≡ next_id s)
get_missing-add_gap s id v h full two far = (
  r.after,
  r.returns ∙ ap (λ b. some (b, r.after)) (ahead_fresh r (omega arith)),
  Oldest-gap s r.after id (distance s id) (get_missing r.after) v.offset_fits h refl two far r.head
      r.skipped received (get_missing-Oldest r.after r.valid),
)
  where
    r : AddsAhead s id (distance s id) (add s id)
    r = add-ahead s id v h far

    received : (j : ℕ) → distance s id ≤ j → j < 32 → bit r.after.received j ≡ 1
    received j le lt =
        let e : distance s id + (j - distance s id) ≡ j = omega arith in
        subst (λ i. bit r.after.received i ≡ 1) e
          (r.kept (j - distance s id) (omega arith) (omega arith)
            ∙ full (j - distance s id) (omega arith))

-- How many of the ages 1 to `n` have not been received.
abbrev pub gaps : SequenceCheck → ℕ → ℕ
gaps s zero = 0
gaps s (suc n) = (if bit s.received (suc n) == 0 then 1 else 0) + gaps s n

gaps_same :
    (s t : SequenceCheck) (n : ℕ)
    → ((j : ℕ) → j ≤ n → bit t.received j ≡ bit s.received j)
    → gaps t n ≡ gaps s n
gaps_same s t zero h = refl
gaps_same s t (suc n) h =
    rw (h (suc n) (omega arith), gaps_same s t n (λ j le. h j (omega arith))) refl

gaps_fill :
    (s t : SequenceCheck) (k n : ℕ)
    → 0 < k
    → k ≤ n
    → bit s.received k ≡ 0
    → ((j : ℕ) → bit t.received j ≡ (if k == j then 1 else bit s.received j))
    → gaps t n + 1 ≡ gaps s n
gaps_fill s t k zero pos le miss h = absurd (omega arith)
gaps_fill s t k (suc n) pos le miss h = elim (Bool-cases (k == suc n)) [
  | inl e ↦
      let same : k ≡ suc n = (==_iff k (suc n)).0 e in
      let here : bit t.received (suc n) ≡ 1 = h (suc n) ∙ rw e refl in
      let gone : bit s.received (suc n) ≡ 0 = subst (λ j. bit s.received j ≡ 0) same miss in
      rw (here, gone) (omega (arith, gaps_same s t n (λ j below. h j ∙ ground arith)))
  | inr e ↦
      let here : bit t.received (suc n) ≡ bit s.received (suc n) = h (suc n) ∙ rw e refl in
      rw here (omega (arith, gaps_fill s t k n pos (ground arith) miss h))
]

-- The id that `GetMissing` names is taken when it comes again, as long as the ids have not rolled
-- over since: it is new, the head stays, and one id less is missing.
pub add-get_missing :
    (s : SequenceCheck)
    → IsValid s
    → get_missing s < s.offset
    → (s' : SequenceCheck) × (add s (get_missing s) ≡ some (true, s'))
      × IsValid s'
      × (s'.offset ≡ s.offset)
      × (gaps s' 31 + 1 ≡ gaps s 31)
add-get_missing s v h = fill (get_missing s) h (get_missing-Oldest s v)
  where
    fill :
        (m : ℕ)
        → m < s.offset
        → Oldest s 31 m
        → (s' : SequenceCheck) × (add s m ≡ some (true, s'))
          × IsValid s'
          × (s'.offset ≡ s.offset)
          × (gaps s' 31 + 1 ≡ gaps s 31)
    fill m lt (inl (all, q)) = absurd (omega (arith, v.offset_fits))
    fill m lt (inr (i, pos, le, miss, newer, q)) =
        let age : s.offset - m ≡ i = omega (arith, v.offset_fits) in
        let r = add-behind s m v lt (omega (arith, v.offset_fits)) in
        (
          r.after,
          r.returns ∙ ap (λ b. some (b, r.after)) (behind_fresh r (rw age miss)),
          r.valid,
          r.head,
          gaps_fill s r.after i 31 pos le miss
              (λ j. r.recorded j ∙ ap (λ k. if k == j then 1 else bit s.received j) age),
        )
