-- ===== src/Sequence/Cases.antt =====
-- Where `add` is defined, and what it does with an id that it has taken.
use atem_esp_idf.Prelude.{
  ℕ, ◌+◌, ◌-◌, ◌*◌, ◌%◌, ◌^◌, ◌≤◌, ◌<◌, ◌≡◌, ◌⊎◌, ◌↔◌, inl, inr, refl, ◌∙◌, Bool, false, Option,
  none, some, ==_self, subst, arith, abs_diff_s16,
}
use atem_esp_idf.Prelude.Bits.{bit}
use atem_esp_idf.Sequence.{SequenceCheck, ahead, advance, mark, add}
use atem_esp_idf.Sequence.Window.{IsValid, ahead_lem, advance_behind, nonzero-bit}
use atem_esp_idf.Sequence.Add.{
  abs_diff_self, distance, seen_last, add-mark, add_too_far, add-ahead, add-behind,
}

-- The other ids: those that are neither less than 32 ahead nor less than 32 before the head in the
-- plain order shift by 32 or more, which is undefined.
pub add_far :
    (s : SequenceCheck) (id : ℕ)
    → IsValid s
    → id < 32768
    → 32 ≤ distance s id
    → (id + 32 ≤ s.offset) ⊎ (s.offset < id)
    → add s id ≡ none
add_far s id v h far side = add_too_far s id (
    rw
      (advance_behind (seen_last s id) id
        (omega (arith, ahead_lem (seen_last s id) id v.offset_fits)))
      (omega (arith, v.offset_fits)))

add_cases :
    (s : SequenceCheck) (id : ℕ)
    → IsValid s
    → id < 32768
    → (distance s id < 32)
      ⊎ ((id < s.offset) × (s.offset < id + 32))
      ⊎ ((32 ≤ distance s id) × ((id + 32 ≤ s.offset) ⊎ (s.offset < id)))
add_cases s id v h = ground arith

clash : {r : Option (Bool × SequenceCheck)} {p : Bool × SequenceCheck} → r ≡ some p → r ≡ none → ⊥
clash p q = cc

after-eq :
    {r : Option (Bool × SequenceCheck)} {b c : Bool} {s t : SequenceCheck}
    → r ≡ some (b, s)
    → r ≡ some (c, t)
    → s ≡ t
after-eq p q = cc

-- `Add` is defined exactly for the ids less than 32 after the head, modulo 2 ^ 15, and for those
-- less than 32 before it in the plain order.
pub add-none_iff :
    (s : SequenceCheck) (id : ℕ)
    → IsValid s
    → id < 32768
    → (add s id ≡ none) ↔ ((32 ≤ distance s id) × ((id + 32 ≤ s.offset) ⊎ (s.offset < id)))
add-none_iff s id v h = (λ e. undefined (add_cases s id v h) e, λ e. add_far s id v h e.0 e.1)
  where
    undefined :
        (distance s id < 32)
          ⊎ ((id < s.offset) × (s.offset < id + 32))
          ⊎ ((32 ≤ distance s id) × ((id + 32 ≤ s.offset) ⊎ (s.offset < id)))
        → add s id ≡ none
        → (32 ≤ distance s id) × ((id + 32 ≤ s.offset) ⊎ (s.offset < id))
    undefined (inl near) e = let r = add-ahead s id v h near in absurd (clash r.returns e)
    undefined (inr (inl p)) e = let r = add-behind s id v p.0 p.1 in absurd (clash r.returns e)
    undefined (inr (inr p)) e = p

advance_here : (t : SequenceCheck) → IsValid t → advance t t.offset ≡ t
unfolding advance
advance_here t v =
    let z : ahead t t.offset ≡ 0 =
      ahead_lem t t.offset v.offset_fits ∙ omega (arith, v.offset_fits) in
    let same : t.received * 2 ^ 0 % 2 ^ 32 ≡ t.received = omega (arith, v.received_fits) in
    rw z (rw same refl)

mark_known : (t : SequenceCheck) (k : ℕ) → bit t.received k ≡ 1 → mark t k ≡ (false, t)
unfolding mark
mark_known t k e = rw (nonzero-bit k t.received, e) refl

add_known :
    (t : SequenceCheck) (id k : ℕ)
    → t.last_id ≡ id
    → advance t id ≡ t
    → abs_diff_s16 id t.offset ≡ k
    → k < 32
    → bit t.received k ≡ 1
    → add t id ≡ some (false, t)
add_known t id k last still dist h e =
    rw (add-mark t id k (rw (same, still) dist) h, same, still, mark_known t k e) refl
  where
    same : seen_last t id ≡ t
    same = rw (← last) refl

-- An id that `Add` has taken is a duplicate when it comes again, and changes nothing then.
pub add-add :
    (s : SequenceCheck) (id : ℕ) (b : Bool) (s' : SequenceCheck)
    → IsValid s
    → id < 32768
    → add s id ≡ some (b, s')
    → add s' id ≡ some (false, s')
add-add s id b s' v h e = again (add_cases s id v h)
  where
    again :
        (distance s id < 32)
          ⊎ ((id < s.offset) × (s.offset < id + 32))
          ⊎ ((32 ≤ distance s id) × ((id + 32 ≤ s.offset) ⊎ (s.offset < id)))
        → add s' id ≡ some (false, s')
    again (inl near) =
        let r = add-ahead s id v h near in
        let same : r.after ≡ s' = after-eq r.returns e in
        subst (λ t. add t id ≡ some (false, t)) same
          (add_known r.after id 0 r.last
            (subst (λ i. advance r.after i ≡ r.after) r.head (advance_here r.after r.valid))
            (rw r.head (abs_diff_self id)) (omega arith) r.recorded)
    again (inr (inl p)) =
        let r = add-behind s id v p.0 p.1 in
        let same : r.after ≡ s' = after-eq r.returns e in
        subst (λ t. add t id ≡ some (false, t)) same
          (add_known r.after id (s.offset - id) r.last
            (advance_behind r.after id
              (omega (arith, ahead_lem r.after id r.valid.offset_fits, r.head, v.offset_fits)))
            (rw r.head (omega (arith, v.offset_fits))) (omega arith)
            (r.recorded (s.offset - id) ∙ rw (==_self (s.offset - id)) refl))
    again (inr (inr p)) = absurd (clash e (add_far s id v h p.0 p.1))
