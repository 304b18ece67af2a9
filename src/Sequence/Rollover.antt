-- ===== src/Sequence/Rollover.antt =====
-- What the 15-bit rollover does to late packets, and what `Contains` answers.
use atem_esp_idf.Prelude.{ℕ, ◌+◌, ◌-◌, ◌%◌, ◌≤◌, ◌<◌, ◌≡◌, inl, inr, none, true, arith, u16, ◌↔◌}
use atem_esp_idf.Prelude.Bits.{bit_and-mask}
use atem_esp_idf.Sequence.{SequenceCheck, add, get_missing, contains}
use atem_esp_idf.Sequence.Window.{IsValid}
use atem_esp_idf.Sequence.Add.{distance}
use atem_esp_idf.Sequence.Cases.{add_far}
use atem_esp_idf.Sequence.Missing.{Oldest, get_missing-Oldest}

-- Where the ids have rolled over between a lost packet and the head, the id that `GetMissing` asks
-- for lies above the head; when that packet comes, `Add` shifts by 32 or more.
pub add-get_missing_rollover :
    (s : SequenceCheck)
    → IsValid s
    → s.offset < get_missing s
    → get_missing s < 32768
    → add s (get_missing s) ≡ none
add-get_missing_rollover s v above fits =
    add_far s (get_missing s) v fits
      (omega (arith, v.offset_fits, far (get_missing s) fits above (get_missing-Oldest s v)))
      (inr above)
  where
    far : (m : ℕ) → m < 32768 → s.offset < m → Oldest s 31 m → 32 ≤ distance s m
    far m fits above (inl (all, q)) = absurd (omega arith)
    far m fits above (inr (i, pos, le, miss, newer, q)) = omega (arith, v.offset_fits)

contains_iff :
    (s : SequenceCheck) (id : ℕ)
    → IsValid s
    → id < 32768
    → (contains s id ≡ true) ↔ ((s.offset + 32768 - id) % 32768 < 32)
unfolding contains
contains_iff s id v h = ground (arith, bit_and-mask 15 (u16 (s.offset + 65536 - id)), v.offset_fits)

-- `Contains` does not tell whether an id was received: where `GetMissing` reports an id as missing,
-- `Contains` answers true for it.
pub contains-get_missing :
    (s : SequenceCheck) → IsValid s → get_missing s < 32768 → contains s (get_missing s) ≡ true
contains-get_missing s v fits =
    (contains_iff s (get_missing s) v fits).1 (near (get_missing s) (get_missing-Oldest s v) fits)
  where
    near : (m : ℕ) → Oldest s 31 m → m < 32768 → (s.offset + 32768 - m) % 32768 < 32
    near m (inl (all, q)) fits = absurd (omega arith)
    near m (inr (i, pos, le, miss, newer, q)) fits = omega (arith, v.offset_fits)
