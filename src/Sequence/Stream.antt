-- ===== src/Sequence/Stream.antt =====
-- A stream of packets in order, over any number of rollovers of the 15-bit ids.
use atem_esp_idf.Prelude.{
  ℕ, zero, suc, ◌+◌, ◌-◌, ◌%◌, ◌<◌, ◌≡◌, refl, ap, subst, ◌∙◌, ◌⊎◌, inl, inr, Bool, Option, some,
  true, Bool-cases, arith, ◌>>=◌, List, [], ◌∷◌, replicate,
}
use atem_esp_idf.Prelude.Bits.{bit, bit_all_ones}
use atem_esp_idf.Sequence.{SequenceCheck, init, add, get_missing, nothing_missing}
use atem_esp_idf.Sequence.Window.{IsValid}
use atem_esp_idf.Sequence.Add.{distance, AddsAhead, add-ahead}
use atem_esp_idf.Sequence.Missing.{get_missing-Oldest}

-- `Add` on one id after the other, with its results.
unfoldable pub add_all : SequenceCheck → List ℕ → Option (List Bool × SequenceCheck)
add_all s [] = some ([], s)
add_all s (id ∷ ids) = do
  (fresh, s') ← add s id
  (results, end) ← add_all s' ids
  some (fresh ∷ results, end)

-- `n` ids in a row, from `id`.
abbrev pub ids_from : ℕ → ℕ → List ℕ
ids_from id zero = []
ids_from id (suc n) = id ∷ ids_from ((id + 1) % 32768) n

-- All ids of the window but perhaps the head are received, and `next` is the one to come.
record IsInOrder (s : SequenceCheck) (next : ℕ) : Type 0 where
  valid : IsValid s
  next_fits : next < 32768
  older : (j : ℕ) → 0 < j → j < 32 → bit s.received j ≡ 1
  newest :
      ((bit s.received 0 ≡ 1) × (distance s next ≡ 1))
      ⊎ ((bit s.received 0 ≡ 0) × (distance s next ≡ 0))

-- What one `Add` of the next id leaves.
record Steps (s : SequenceCheck) (next : ℕ) : Type 0 where
  after : SequenceCheck
  returns : add s next ≡ some (true, after)
  in_order : IsInOrder after ((next + 1) % 32768)

all_received :
    (s : SequenceCheck) (next : ℕ)
    → IsInOrder s next
    → bit s.received 0 ≡ 1
    → (j : ℕ) → j < 32
    → bit s.received j ≡ 1
all_received s next o e zero h = e
all_received s next o e (suc j) h = o.older (suc j) (omega arith) h

Steps-new :
    (s : SequenceCheck) (next d : ℕ)
    → IsInOrder s next
    → (r : AddsAhead s next d (add s next))
    → ((bit s.received 0 ≡ 1) × (d ≡ 1)) ⊎ ((bit s.received 0 ≡ 0) × (d ≡ 0))
    → Steps s next
Steps-new s next d o r side = record {
  after = r.after;
  returns = r.returns ∙ ap (λ b. some (b, r.after)) is_new;
  in_order = record {
    valid = r.valid;
    next_fits = omega arith;
    older = λ j pos lt. older side j pos lt;
    newest = inl (r.recorded, omega (arith, r.head, o.next_fits));
  };
}
  where
    is_new : r.fresh ≡ true
    is_new = elim (Bool-cases r.fresh) [
      | inl e ↦ e
      | inr e ↦ absurd (omega (arith, side, r.fresh_iff.0 e))
    ]

    older :
        ((bit s.received 0 ≡ 1) × (d ≡ 1)) ⊎ ((bit s.received 0 ≡ 0) × (d ≡ 0))
        → (j : ℕ) → 0 < j
        → j < 32
        → bit r.after.received j ≡ 1
    older (inl (b, e)) j pos lt =
        let at : d + (j - 1) ≡ j = omega arith in
        subst (λ i. bit r.after.received i ≡ 1) at
          (r.kept (j - 1) (omega arith) (omega arith)
            ∙ all_received s next o b (j - 1) (omega arith))
    older (inr (b, e)) j pos lt =
        let at : d + j ≡ j = omega arith in
        subst (λ i. bit r.after.received i ≡ 1) at
          (r.kept j (omega arith) (omega arith) ∙ o.older j pos lt)

step_in_order : (s : SequenceCheck) (next : ℕ) → IsInOrder s next → Steps s next
step_in_order s next o =
    Steps-new s next (distance s next) o
      (add-ahead s next o.valid o.next_fits (omega (arith, o.newest))) o.newest

in_order_missing :
    (s : SequenceCheck) (next : ℕ) → IsInOrder s next → get_missing s ≡ nothing_missing
in_order_missing s next o = elim (get_missing-Oldest s o.valid) [
  | inl p ↦ p.1
  | inr (i, pos, le, miss, newer, q) ↦ absurd (omega (arith, o.older i pos (omega arith)))
]

stream :
    (n id : ℕ) (s : SequenceCheck)
    → IsInOrder s id
    → (s' : SequenceCheck) × (add_all s (ids_from id n) ≡ some (replicate n true, s'))
      × (get_missing s' ≡ nothing_missing)
unfolding add_all
stream zero id s o = (s, refl, in_order_missing s id o)
stream (suc n) id s o =
    let r = step_in_order s id o in
    let rest = stream n ((id + 1) % 32768) r.after r.in_order in
    (rest.0, rw (r.returns, rest.1) refl, rest.2)

init-IsInOrder : IsInOrder init 1
init-IsInOrder = record {
  valid = record { offset_fits = omega arith; received_fits = omega arith };
  next_fits = omega arith;
  older = λ j pos lt. older j pos lt;
  newest = inr (refl, omega arith);
}
  where
    older : (j : ℕ) → 0 < j → j < 32 → bit init.received j ≡ 1
    older zero pos lt = absurd (omega arith)
    older (suc j) pos lt = bit_all_ones 31 j (omega arith)

-- From a new connection, any number of packets whose ids come in order, from 1 and with 0 after
-- 32767, are each called new, and nothing is missing after them.
pub add_all-in_order :
    (n : ℕ)
    → (s : SequenceCheck) × (add_all init (ids_from 1 n) ≡ some (replicate n true, s))
      × (get_missing s ≡ nothing_missing)
add_all-in_order n = stream n 1 init init-IsInOrder
