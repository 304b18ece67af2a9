-- ===== src/Examples/Ids.antt =====
-- `SequenceCheck` and `AtemState` on concrete ids.
use atem_esp_idf.Prelude.{
  ℕ, [], ◌∷◌, ◌+◌, ◌/◌, ◌≡◌, ◌≤◌, ◌<◌, ◌↔◌, ◌⊎◌, refl, true, none, some, arith, replicate,
}
use atem_esp_idf.Prelude.Bits.{bit_all_ones}
use atem_esp_idf.Sequence.{
  SequenceCheck, init, add, get_missing, contains, nothing_missing, advance, mark, ahead, scan,
}
use atem_esp_idf.Sequence.Window.{IsValid}
use atem_esp_idf.Sequence.Add.{distance, AddsAhead, add-ahead}
use atem_esp_idf.Sequence.Cases.{add-none_iff}
use atem_esp_idf.Sequence.Missing.{
  Oldest, get_missing-Oldest, get_missing-add_gap, add-get_missing, next_id, gaps,
}
use atem_esp_idf.Sequence.Rollover.{add-get_missing_rollover, contains-get_missing}
use atem_esp_idf.Sequence.Stream.{add_all, ids_from, add_all-in_order}
use atem_esp_idf.State.{AtemState, set, unset}
use atem_esp_idf.State.Replay.{put_all}
use atem_esp_idf.State.Rollover.{put_all_rollover}

-- All of 100 and the 31 ids before it.
abbrev full : SequenceCheck
full = record { offset = 100; last_id = 100; received = 0xFFFFFFFF }

-- All but 98.
abbrev gap : SequenceCheck
gap = record { offset = 100; last_id = 100; received = 0xFFFFFFFB }

-- The head is at 2, and 32767 is missing.
abbrev rolled : SequenceCheck
rolled = record { offset = 2; last_id = 2; received = 0xFFFFFFF7 }

full-IsValid : IsValid full
full-IsValid = record { offset_fits = omega arith; received_fits = omega arith }

gap-IsValid : IsValid gap
gap-IsValid = record { offset_fits = omega arith; received_fits = omega arith }

rolled-IsValid : IsValid rolled
rolled-IsValid = record { offset_fits = omega arith; received_fits = omega arith }

add_test : add gap 103 ≡ some (true, record { offset = 103; last_id = 103; received = 0xFFFFFFD9 })
unfolding add advance ahead mark
add_test = refl

get_missing_test : get_missing gap ≡ 98
unfolding get_missing scan
get_missing_test = refl

get_missing-rolled : get_missing rolled ≡ 32767
unfolding get_missing scan
get_missing-rolled = refl

add-ahead_example : AddsAhead gap 103 3 (add gap 103)
add-ahead_example = add-ahead gap 103 gap-IsValid (omega arith) (omega arith)

add-none_iff_example :
    (add gap 5000 ≡ none) ↔ ((32 ≤ distance gap 5000) × ((5032 ≤ 100) ⊎ (100 < 5000)))
add-none_iff_example = add-none_iff gap 5000 gap-IsValid (omega arith)

get_missing-Oldest_example : Oldest gap 31 (get_missing gap)
get_missing-Oldest_example = get_missing-Oldest gap gap-IsValid

get_missing-add_gap_example :
    (s' : SequenceCheck) × (add full 103 ≡ some (true, s')) × (get_missing s' ≡ next_id full)
get_missing-add_gap_example =
    get_missing-add_gap full 103 full-IsValid (omega arith) (λ j h. bit_all_ones 32 j h)
      (omega arith) (omega arith)

gap_below : get_missing gap < 100
gap_below = omega (arith, get_missing_test)

add-get_missing_example :
    (s' : SequenceCheck) × (add gap (get_missing gap) ≡ some (true, s'))
    × IsValid s'
    × (s'.offset ≡ 100)
    × (gaps s' 31 + 1 ≡ gaps gap 31)
add-get_missing_example = add-get_missing gap gap-IsValid gap_below

add_all-in_order_example :
    (s : SequenceCheck) × (add_all init (ids_from 1 40000) ≡ some (replicate 40000 true, s))
    × (get_missing s ≡ nothing_missing)
add_all-in_order_example = add_all-in_order 40000

rolled_above : 2 < get_missing rolled
rolled_above = omega (arith, get_missing-rolled)

rolled_fits : get_missing rolled < 32768
rolled_fits = omega (arith, get_missing-rolled)

add-get_missing_rollover_example : add rolled (get_missing rolled) ≡ none
add-get_missing_rollover_example =
    add-get_missing_rollover rolled rolled-IsValid rolled_above rolled_fits

-- 98 was not received.
contains-get_missing_example : contains gap (get_missing gap) ≡ true
contains-get_missing_example =
    contains-get_missing gap gap-IsValid (omega (arith, get_missing_test))

abbrev none_yet : AtemState ℕ
none_yet = unset 0

abbrev at : ℕ → SequenceCheck
at id = record { offset = id; last_id = id; received = 0xFFFFFFFF }

abbrev old : AtemState ℕ
old = record { last_change_id = 32767; state = 10 }

-- The packet 32767 changed `old`; 32768 and 32770 come after the rollover.
put_all_rollover_example :
    (put_all old ((at 0, 20) ∷ (at 2, 30) ∷ []) ≡ old)
    × (((set (put_all old ((at 0, 20) ∷ (at 2, 30) ∷ [])) (at 1) 40).0 ≡ true)
        ↔ (32767 / 32768 ≡ 32769 / 32768))
put_all_rollover_example =
    put_all_rollover old 32767 ((at 0, 20) ∷ (at 2, 30) ∷ []) 32769 (at 1) 40 refl
      ((32768, refl, omega arith, omega arith), ((32770, refl, omega arith, omega arith), tt)) refl
      (omega arith) (omega arith)
