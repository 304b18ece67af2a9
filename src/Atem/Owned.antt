-- ===== src/Atem/Owned.antt =====
-- Which blocks of the heap are live, and how many entries of `media_player_file` point to each.
pub mod Freed
pub mod Files
pub mod Stills
pub mod Session
use atem_esp_idf.Prelude.{
  ℕ, zero, suc, ◌+◌, ◌≡◌, ◌≢◌, ◌≤◌, ◌<◌, refl, ap, ◌∙◌, Bool, true, false, Option, none, some, List,
  [], ◌∷◌, ◌++◌, arith, length, get_elem?, set, ◌==◌, ==_iff, ==_self, if◌then◌else◌, ◌&&◌,
  Bool-cases, inl, inr, bias, of_bool, subst,
}
use atem_esp_idf.Buffer.{Bytes}
use atem_esp_idf.Sequence.{SequenceCheck}
use atem_esp_idf.State.{AtemState, is_valid, get, put}
use atem_esp_idf.Atem.Object.{Heap, Switcher, free, allocate, find, assign}
use atem_esp_idf.Atem.Names.{free-live}
use atem_esp_idf.Atem.ReadBack.{IsCurrent}

-- 1 for the pointer to a live block, and else 0.
abbrev pub live : ℕ → Heap → ℕ
live zero h = 0
live (suc k) [] = 0
live (suc zero) (none ∷ h) = 0
live (suc zero) (some b ∷ h) = 1
live (suc (suc k)) (b ∷ h) = live (suc k) h

-- 1 if the entry is valid and holds this pointer.
abbrev pub holds : ℕ → AtemState ℕ → ℕ
holds p file = of_bool (is_valid file && get file == p)

-- How many entries hold it.
abbrev pub holders : ℕ → List (ℕ × AtemState ℕ) → ℕ
holders p [] = 0
holders p ((i, file) ∷ files) = holds p file + holders p files

-- Each live block has one entry that points to it, and no entry points elsewhere.
abbrev pub Owns : List (ℕ × AtemState ℕ) → Heap → Type 0
Owns files heap = (k : ℕ) → holders (suc k) files ≡ live (suc k) heap

-- No entry was last changed by a later packet.
abbrev pub AreCurrent : SequenceCheck → List (ℕ × AtemState ℕ) → Type 0
AreCurrent sequence [] = Unit {0}
AreCurrent sequence ((i, file) ∷ files) = IsCurrent sequence file × AreCurrent sequence files

pub live-le : (p : ℕ) (h : Heap) → live p h ≤ 1
live-le zero h = omega arith
live-le (suc k) [] = omega arith
live-le (suc zero) (none ∷ h) = omega arith
live-le (suc zero) (some b ∷ h) = omega arith
live-le (suc (suc k)) (b ∷ h) = live-le (suc k) h

live-block : (k : ℕ) (h : Heap) → live (suc k) h ≡ 1 → (b : Bytes) × (get_elem? h k ≡ some (some b))
live-block k [] e = absurd (omega arith)
live-block zero (none ∷ h) e = absurd (omega arith)
live-block zero (some b ∷ h) e = (b, refl)
live-block (suc k) (c ∷ h) e = live-block k h e

live-set :
    (k : ℕ) (h : Heap) (j : ℕ)
    → live (suc j) (set h k none) ≡ (if j == k then 0 else live (suc j) h)
live-set k [] j = ground arith
live-set zero (c ∷ h) zero = refl
live-set zero (c ∷ h) (suc j) = ground arith
live-set (suc k) (c ∷ h) zero = ground arith
live-set (suc k) (c ∷ h) (suc j) = ground (arith, live-set k h j)

-- A live block can be freed; no other block is touched.
pub live-free :
    (k : ℕ) (h : Heap)
    → live (suc k) h ≡ 1
    → (h' : Heap) × (free (suc k) h ≡ some h')
      × ((j : ℕ) → live (suc j) h' ≡ (if j == k then 0 else live (suc j) h))
live-free k h e = let (b, at) = live-block k h e in (set h k none, free-live h k b at, live-set k h)

pub live-allocate :
    (b : Bytes) (h : Heap) (j : ℕ)
    → live (suc j) (h ++ some b ∷ []) ≡ (if j == length h then 1 else live (suc j) h)
live-allocate b [] zero = refl
live-allocate b [] (suc j) = ground arith
live-allocate b (none ∷ h) zero = ground arith
live-allocate b (some c ∷ h) zero = ground arith
live-allocate b (c ∷ h) (suc j) = ground (arith, live-allocate b h j)

pub live_above : (h : Heap) (j : ℕ) → length h ≤ j → live (suc j) h ≡ 0
live_above [] j le = refl
live_above (c ∷ h) zero le = absurd (omega arith)
live_above (c ∷ h) (suc j) le = live_above h j (omega arith)

-- `assign` at a key that `find` finds replaces one entry.
pub holders-assign :
    (p k : ℕ) (old new : AtemState ℕ) (files : List (ℕ × AtemState ℕ))
    → find k files ≡ some old
    → holders p (assign k new files) + holds p old ≡ holders p files + holds p new
unfolding find assign
holders-assign p k old new [] e = cc
holders-assign p k old new ((i, file) ∷ files) e = elim (Bool-cases (i == k)) [
  | inl t ↦ let same : file ≡ old = cc (rw t at e) in rw (t, same) (omega arith)
  | inr u ↦ rw u (omega (arith, holders-assign p k old new files (rw u at e)))
]

-- And at a key that it does not find adds one.
pub holders-assign_new :
    (p k : ℕ) (new : AtemState ℕ) (files : List (ℕ × AtemState ℕ))
    → find k files ≡ none
    → holders p (assign k new files) ≡ holders p files + holds p new
unfolding find assign
holders-assign_new p k new [] e = omega arith
holders-assign_new p k new ((i, file) ∷ files) e = elim (Bool-cases (i == k)) [
  | inl t ↦ let wrong : ◌≡◌ {A = Option (AtemState ℕ)} (some file) none = rw t at e in cc
  | inr u ↦ rw u (omega (arith, holders-assign_new p k new files (rw u at e)))
]

-- An entry that `find` finds is one of them.
pub holds-le-holders :
    (p k : ℕ) (file : AtemState ℕ) (files : List (ℕ × AtemState ℕ))
    → find k files ≡ some file
    → holds p file ≤ holders p files
unfolding find
holds-le-holders p k file [] e = cc
holds-le-holders p k file ((i, other) ∷ files) e = elim (Bool-cases (i == k)) [
  | inl t ↦ let same : other ≡ file = cc (rw t at e) in rw same (omega arith)
  | inr u ↦ omega (arith, holds-le-holders p k file files (rw u at e))
]

pub find-AreCurrent :
    (sequence : SequenceCheck) (k : ℕ) (file : AtemState ℕ) (files : List (ℕ × AtemState ℕ))
    → find k files ≡ some file
    → AreCurrent sequence files
    → IsCurrent sequence file
unfolding find
find-AreCurrent sequence k file [] e h = cc
find-AreCurrent sequence k file ((i, other) ∷ files) e h = elim (Bool-cases (i == k)) [
  | inl t ↦ let same : other ≡ file = cc (rw t at e) in subst (IsCurrent sequence) same h.0
  | inr u ↦ find-AreCurrent sequence k file files (rw u at e) h.1
]

pub assign-AreCurrent :
    (sequence : SequenceCheck) (k : ℕ) (new : AtemState ℕ) (files : List (ℕ × AtemState ℕ))
    → IsCurrent sequence new
    → AreCurrent sequence files
    → AreCurrent sequence (assign k new files)
unfolding assign
assign-AreCurrent sequence k new [] c h = (c, tt)
assign-AreCurrent sequence k new ((i, file) ∷ files) c h = elim (Bool-cases (i == k)) [
  | inl t ↦ rw t (c, h.1)
  | inr u ↦ rw u (h.0, assign-AreCurrent sequence k new files c h.1)
]

-- A later packet.
pub AreCurrent-le :
    (sequence later : SequenceCheck) (files : List (ℕ × AtemState ℕ))
    → bias sequence.last_id ≤ bias later.last_id
    → AreCurrent sequence files
    → AreCurrent later files
AreCurrent-le sequence later [] le h = tt
AreCurrent-le sequence later ((i, file) ∷ files) le h =
    (ground arith, AreCurrent-le sequence later files le h.1)
