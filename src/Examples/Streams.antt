-- ===== src/Examples/Streams.antt =====
-- Whole sequences of packets and changes.
use native.Mathlib.Nat.{ℕ_set}
use mathlib.Core.List.{Permᴰ}
use atem_esp_idf.Prelude.{ℕ, ◌≡◌, refl, some, List, [], ◌∷◌, map, inl, inr, arith}
use atem_esp_idf.Sequence.{SequenceCheck, init}
use atem_esp_idf.Sequence.Stream.{add_all}
use atem_esp_idf.Sequence.Numbers.{id_of, first_times, AreNear, highest, all_seen, Represents}
use atem_esp_idf.Sequence.Numbers.Refinement.{add_all-first_times}
use atem_esp_idf.State.{unset}
use atem_esp_idf.State.Replay.{put_all, put_all-perm}

-- The number 3 comes late, 4 comes twice, and 5 to 7 are lost.
abbrev numbers : List ℕ
numbers = 2 ∷ 4 ∷ 3 ∷ 4 ∷ 8 ∷ []

numbers-AreNear : AreNear 1 numbers
numbers-AreNear = (
  inl (omega arith, omega arith),
  (
    inl (omega arith, omega arith),
    (
      inr (omega arith, omega arith, omega arith),
      (inl (omega arith, omega arith), (inl (omega arith, omega arith), tt)),
    ),
  ),
)

add_all-first_times_example :
    (s : SequenceCheck) × (add_all init (map id_of numbers)
      ≡ some (first_times (0 ∷ []) numbers, s))
    × Represents s (highest 1 numbers) (all_seen (0 ∷ []) numbers)
add_all-first_times_example = add_all-first_times numbers numbers-AreNear

abbrev fifth : SequenceCheck × ℕ
fifth = (record { offset = 5; last_id = 5; received = 0xFFFFFFFF }, 10)

abbrev sixth : SequenceCheck × ℕ
sixth = (record { offset = 6; last_id = 6; received = 0xFFFFFFFF }, 20)

put_all-perm_example :
    put_all (unset 0) (fifth ∷ sixth ∷ []) ≡ put_all (unset 0) (sixth ∷ fifth ∷ [])
put_all-perm_example =
    put_all-perm (unset 0) (fifth ∷ sixth ∷ []) (sixth ∷ fifth ∷ []) ℕ_set ∣ Permᴰ.swap refl refl ∣₁
      (omega arith, (λ e. absurd (omega (arith, e)), tt), (omega arith, tt, tt))
