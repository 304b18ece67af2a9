-- ===== src/State/Rollover.antt =====
-- `AtemState::Set` against the packets' own numbers, which do not wrap.
use atem_esp_idf.Prelude.{
  ℕ, ◌+◌, ◌/◌, ◌≡◌, ◌≤◌, ◌<◌, ◌↔◌, refl, ap, ◌∙◌, true, List, [], ◌∷◌, arith,
}
use atem_esp_idf.Sequence.{SequenceCheck}
use atem_esp_idf.Sequence.Numbers.{id_of}
use atem_esp_idf.State.{AtemState, set, put}
use atem_esp_idf.State.Replay.{put_all}

module _ {T : Type 0} where
  -- Every change is by a packet later than the packet `n`, less than 2 ^ 15 after it, and the ids
  -- have rolled over between the two.
  abbrev pub AreRolledOver : ℕ → List (SequenceCheck × T) → Type 0
  AreRolledOver n [] = Unit {0}
  AreRolledOver n (c ∷ changes) =
      ((m : ℕ) × (c.0.last_id ≡ id_of m) × (n / 32768 < m / 32768) × (m < n + 32768))
      × AreRolledOver n changes

  put_refused :
      (a : AtemState T) (n m : ℕ) (p : SequenceCheck) (v : T)
      → a.last_change_id ≡ id_of n
      → p.last_id ≡ id_of m
      → n / 32768 < m / 32768
      → m < n + 32768
      → put a p v ≡ a
  unfolding put set
  put_refused a n m p v e f later near = ground arith

  put_all_refused :
      (a : AtemState T) (n : ℕ) (changes : List (SequenceCheck × T))
      → a.last_change_id ≡ id_of n
      → AreRolledOver n changes
      → put_all a changes ≡ a
  unfolding put_all
  put_all_refused a n [] e h = refl
  put_all_refused a n (c ∷ changes) e ((m, f, later, near), h) =
      ap (λ b. put_all b changes) (put_refused a n m c.0 c.1 e f later near)
      ∙ put_all_refused a n changes e h

  set_newer :
      (a : AtemState T) (n m : ℕ) (p : SequenceCheck) (v : T)
      → a.last_change_id ≡ id_of n
      → p.last_id ≡ id_of m
      → n ≤ m
      → m < n + 32768
      → ((set a p v).0 ≡ true) ↔ (n / 32768 ≡ m / 32768)
  unfolding set
  set_newer a n m p v e f later near = ground arith

  -- A value was last changed by the packet number `n`, whose id is its number modulo 2 ^ 15. Any
  -- changes by packets that come after it, less than 2 ^ 15 numbers later and with a rollover of
  -- the ids between, leave the value and its id as they were. Among the packets from `n` on, less
  -- than 2 ^ 15 numbers later, `Set` takes exactly the changes of those before the next rollover.
  pub put_all_rollover :
      (a : AtemState T) (n : ℕ) (changes : List (SequenceCheck × T)) (m : ℕ) (p : SequenceCheck)
      (v : T)
      → a.last_change_id ≡ id_of n
      → AreRolledOver n changes
      → p.last_id ≡ id_of m
      → n ≤ m
      → m < n + 32768
      → (put_all a changes ≡ a)
        × (((set (put_all a changes) p v).0 ≡ true) ↔ (n / 32768 ≡ m / 32768))
  put_all_rollover a n changes m p v e h f later near =
      let same = put_all_refused a n changes e h in
      (same, rw same (set_newer a n m p v e f later near))
