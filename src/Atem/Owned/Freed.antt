-- ===== src/Atem/Owned/Freed.antt =====
-- `free` of the name of an entry, and of the names of all entries.
use atem_esp_idf.Prelude.{
  ℕ, zero, suc, ◌+◌, ◌≡◌, ◌≤◌, refl, ◌∙◌, true, false, some, List, [], ◌∷◌, arith, ◌==◌,
  if◌then◌else◌, Bool-cases, inl, inr, ==_self, ==_iff, ◌⊎◌,
}
use atem_esp_idf.State.{AtemState, is_valid, get}
use atem_esp_idf.Atem.Object.{Heap, free}
use atem_esp_idf.Atem.Connection.{free_files}
use atem_esp_idf.Atem.Owned.{live, holds, Owns, live-le, live-free}

-- An entry that holds block `k` accounts for what the heap loses with it.
less_one :
    (file : AtemState ℕ) (k j before after : ℕ)
    → is_valid file ≡ true
    → get file ≡ suc k
    → (j ≡ k → before ≡ 1)
    → after ≡ (if j == k then 0 else before)
    → after + holds (suc j) file ≡ before
less_one file k j before after valid e one a =
    rw (valid, e)
      (elim (Bool-cases (j == k)) [
        | inl t ↦
            let same : j ≡ k = (==_iff j k).0 t in
            let last : after ≡ 0 = a ∙ rw t refl in
            rw same (rw (==_self (suc k)) (omega (arith, one same)))
        | inr u ↦ ground arith
      ])

no_holds :
    (file : AtemState ℕ) (k : ℕ) → (is_valid file ≡ false) ⊎ (get file ≡ 0) → holds (suc k) file ≡ 0
no_holds file k (inl e) = rw e refl
no_holds file k (inr e) = ground arith

freed :
    (file : AtemState ℕ) (p : ℕ) (heap : Heap)
    → is_valid file ≡ true
    → get file ≡ p
    → ((k : ℕ) → holds (suc k) file ≤ live (suc k) heap)
    → (heap' : Heap) × (free p heap ≡ some heap')
      × ((k : ℕ) → live (suc k) heap' + holds (suc k) file ≡ live (suc k) heap)
unfolding free
freed file zero heap valid e h = (heap, refl, λ k. omega (arith, no_holds file k (inr e)))
freed file (suc k) heap valid e h =
    let one : holds (suc k) file ≡ 1 = rw (valid, e, ==_self (suc k)) refl in
    let is_live : live (suc k) heap ≡ 1 = omega (arith, one, h k, live-le (suc k) heap) in
    let (heap', f, less) = live-free k heap is_live in
    (
      heap',
      f,
      λ j.
          less_one file k j (live (suc j) heap) (live (suc j) heap') valid e
            (λ same. rw same is_live) (less j),
    )

-- The name of an entry that holds a live block, or none, can be freed: the heap loses what the entry holds.
pub free_entry :
    (file : AtemState ℕ) (heap : Heap)
    → ((k : ℕ) → holds (suc k) file ≤ live (suc k) heap)
    → (heap' : Heap) × ((if is_valid file then free (get file) heap else some heap) ≡ some heap')
      × ((k : ℕ) → live (suc k) heap' + holds (suc k) file ≡ live (suc k) heap)
free_entry file heap h = elim (Bool-cases (is_valid file)) [
  | inl valid ↦
      let (heap', f, less) = freed file (get file) heap valid refl h in (heap', rw valid f, less)
  | inr out ↦ (heap, rw out refl, λ k. omega (arith, no_holds file k (inl out)))
]

-- Names that are owned can all be freed, and then no block is live.
pub free_files-frees :
    (files : List (ℕ × AtemState ℕ)) (heap : Heap)
    → Owns files heap
    → (heap' : Heap) × (free_files files heap ≡ some heap') × ((k : ℕ) → live (suc k) heap' ≡ 0)
unfolding free_files
free_files-frees [] heap h = (heap, refl, λ k. omega (arith, h k))
free_files-frees ((i, file) ∷ files) heap h =
    let (heap', f, less) = free_entry file heap (λ k. omega (arith, h k)) in
    let (heap'', g, gone) = free_files-frees files heap' (λ k. omega (arith, h k, less k)) in
    (heap'', rw f g, gone)
