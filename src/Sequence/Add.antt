-- ===== src/Sequence/Add.antt =====
-- `SequenceCheck::Add` against the set of ids in the window.
use atem_esp_idf.Prelude.{
  ℕ, zero, suc, ◌+◌, ◌-◌, ◌%◌, ◌≤◌, ◌<◌, ◌≡◌, ◌↔◌, refl, ◌∙◌, Bool, false, Option, none, some,
  lt→ltb, ◌==◌, if◌then◌else◌, arith, abs_diff_s16,
}
use atem_esp_idf.Prelude.Bits.{bit}
use atem_esp_idf.Sequence.{SequenceCheck, ahead, advance, mark, add}
use atem_esp_idf.Sequence.Window.{
  IsValid, ahead_lem, Marks, mark-Marks, Advances, advance-Advances, advance_behind, bit-cases,
}

-- How far `id` lies after the head of the window, among the 15-bit ids.
abbrev pub distance : SequenceCheck → ℕ → ℕ
distance s id = (id + 32768 - s.offset) % 32768

pub abs_diff_self : (a : ℕ) → abs_diff_s16 a a ≡ 0
abs_diff_self a = omega arith

abs_diff_s16_lem : (a b : ℕ) → a < 32768 → b < 32768 → abs_diff_s16 a b ≡ (a - b) + (b - a)
abs_diff_s16_lem a b p q = omega arith

-- `Add` of an id less than 32 after the head (rollover of the 15-bit ids included): it returns
-- whether the id is new, makes the id the head, records it, and keeps for every other age of the
-- window what was known of that id.
pub record AddsAhead (s : SequenceCheck) (id d : ℕ) (r : Option (Bool × SequenceCheck))
    : Type 0 where
  pub fresh : Bool
  pub after : SequenceCheck
  pub returns : r ≡ some (fresh, after)
  pub fresh_iff : (fresh ≡ false) ↔ ((d ≡ 0) × (bit s.received 0 ≡ 1))
  pub head : after.offset ≡ id
  pub last : after.last_id ≡ id
  pub recorded : bit after.received 0 ≡ 1
  pub skipped : (j : ℕ) → 0 < j → j < d → bit after.received j ≡ 0
  pub kept : (j : ℕ) → 0 < d + j → d + j < 32 → bit after.received (d + j) ≡ bit s.received j
  pub valid : IsValid after

-- The id as the last one received.
abbrev pub seen_last : SequenceCheck → ℕ → SequenceCheck
seen_last s id = record s { last_id = id }

pub add-mark :
    (s : SequenceCheck) (id k : ℕ)
    → abs_diff_s16 id (advance (seen_last s id) id).offset ≡ k
    → k < 32
    → add s id ≡ some (mark (advance (seen_last s id) id) k)
unfolding add
add-mark s id k e h = rw (e, lt→ltb k 32 h) refl

pub add_too_far :
    (s : SequenceCheck) (id : ℕ)
    → 32 ≤ abs_diff_s16 id (advance (seen_last s id) id).offset
    → add s id ≡ none
unfolding add
add_too_far s id h = ground arith

newest_age :
    (s : SequenceCheck) (id d : ℕ) (s' : SequenceCheck)
    → d < 32
    → Advances s id d s'
    → (bit s'.received 0 ≡ 1) ↔ ((d ≡ 0) × (bit s.received 0 ≡ 1))
newest_age s id zero s' h a = ground (arith, a.high 0)
newest_age s id (suc d) s' h a = ground (arith, a.low 0)

not_fresh_iff :
    (s : SequenceCheck) (k : ℕ) (r : Bool × SequenceCheck)
    → Marks s k r
    → (r.0 ≡ false) ↔ (bit s.received k ≡ 1)
not_fresh_iff s k r m = ground (arith, m.fresh, bit-cases k s.received)

-- `Add` of an id less than 32 after the head, modulo 2 ^ 15, is defined. The head moves to the id,
-- whose bit is set; the ids that were skipped are marked as missing, those before the old head
-- that are still in the window keep their marks, and the id is called a duplicate exactly if it is
-- the old head and was received. The window stays valid.
pub add-ahead :
    (s : SequenceCheck) (id : ℕ)
    → IsValid s
    → id < 32768
    → distance s id < 32
    → AddsAhead s id (distance s id) (add s id)
add-ahead s id v h near = record {
  fresh = m.0;
  after = m.1;
  returns = add-mark s id 0 (rw a.head (abs_diff_self id)) (omega arith);
  fresh_iff = (
    λ e. (newest_age _ id _ _ near a).0 ((not_fresh_iff _ 0 m marks).0 e),
    λ e. (not_fresh_iff _ 0 m marks).1 ((newest_age _ id _ _ near a).1 e),
  );
  head = marks.same_offset ∙ a.head;
  last = marks.same_last_id ∙ a.same_last_id;
  recorded = marks.bits 0;
  skipped = λ j p q. marks.bits j ∙ ground (arith, a.low j);
  kept = λ j p q. marks.bits (distance s id + j) ∙ ground (arith, a.high j);
  valid = record {
    offset_fits = omega (arith, marks.same_offset, a.head);
    received_fits = marks.fits;
  };
}
  where
    d-eq : ahead (seen_last s id) id ≡ distance s id
    d-eq = ahead_lem (seen_last s id) id v.offset_fits

    a : Advances (seen_last s id) id (distance s id) (advance (seen_last s id) id)
    a = rw d-eq at (advance-Advances (seen_last s id) id (rw d-eq near))

    m : Bool × SequenceCheck
    m = mark (advance (seen_last s id) id) 0

    marks : Marks (advance (seen_last s id) id) 0 m
    marks = mark-Marks (advance (seen_last s id) id) 0 (omega arith) a.fits

-- `Add` of an id from 1 to 31 before the head: it returns whether the id is new, and records it;
-- the head and what is known of the other ids stay.
pub record AddsBehind (s : SequenceCheck) (id k : ℕ) (r : Option (Bool × SequenceCheck))
    : Type 0 where
  pub fresh : Bool
  pub after : SequenceCheck
  pub returns : r ≡ some (fresh, after)
  pub fresh_iff : (fresh ≡ false) ↔ (bit s.received k ≡ 1)
  pub head : after.offset ≡ s.offset
  pub last : after.last_id ≡ id
  pub recorded : (j : ℕ) → bit after.received j ≡ (if k == j then 1 else bit s.received j)
  pub valid : IsValid after

-- `Add` of an id less than 32 before the head, in the plain order, is defined. The head stays, the
-- id's bit is set and no other changes, and the id is called a duplicate exactly if its bit was
-- set. The window stays valid.
pub add-behind :
    (s : SequenceCheck) (id : ℕ)
    → IsValid s
    → id < s.offset
    → s.offset < id + 32
    → AddsBehind s id (s.offset - id) (add s id)
add-behind s id v h near = record {
  fresh = m.0;
  after = m.1;
  returns = rw (add-mark s id (s.offset - id) (rw still (abs_diff_lem)) (omega arith), still) refl;
  fresh_iff = not_fresh_iff (seen_last s id) (s.offset - id) m marks;
  head = marks.same_offset;
  last = marks.same_last_id;
  recorded = marks.bits;
  valid = record {
    offset_fits = omega (arith, marks.same_offset, v.offset_fits);
    received_fits = marks.fits;
  };
}
  where
    still : advance (seen_last s id) id ≡ seen_last s id
    still =
        advance_behind (seen_last s id) id
          (omega (arith, ahead_lem (seen_last s id) id v.offset_fits, v.offset_fits))

    abs_diff_lem : abs_diff_s16 id s.offset ≡ s.offset - id
    abs_diff_lem = omega (arith, v.offset_fits)

    m : Bool × SequenceCheck
    m = mark (seen_last s id) (s.offset - id)

    marks : Marks (seen_last s id) (s.offset - id) m
    marks = mark-Marks (seen_last s id) (s.offset - id) (omega arith) v.received_fits
