-- ===== src/Atem/Owned/Files.antt =====
-- MPfe of a packet that is not older than the stills' last changes: the names stay owned.
use atem_esp_idf.Prelude.{
  ℕ, suc, ◌+◌, ◌≡◌, ◌<◌, ◌⊎◌, refl, ◌∙◌, none, some, [], ◌∷◌, ◌++◌, arith, length, ◌==◌, Bool-cases,
  Option-cases, inl, inr, of_bool, ==_iff,
}
use atem_esp_idf.Buffer.{Bytes}
use atem_esp_idf.Sequence.{SequenceCheck}
use atem_esp_idf.State.{AtemState, is_valid, put, unset}
use atem_esp_idf.Atem.Object.{Switcher, Heap, allocate, find, assign}
use atem_esp_idf.Atem.Names.{find-assign}
use atem_esp_idf.Atem.ReadBack.{IsCurrent, put_current}
use atem_esp_idf.Atem.Handlers.Media.{clear_file, store_file}
use atem_esp_idf.Atem.Owned.Freed.{free_entry}
use atem_esp_idf.Atem.Owned.{
  live, holds, holders, Owns, AreCurrent, live-allocate, live_above, holders-assign,
  holders-assign_new, holds-le-holders, find-AreCurrent, assign-AreCurrent,
}

-- The names are owned, and the packet is not older than any of them.
pub record IsOwned (sequence : SequenceCheck) (s : Switcher) : Type 0 where
  pub owns : Owns s.media_player_file s.heap
  pub current : AreCurrent sequence s.media_player_file

-- A new block, that one more entry points to.
one_more :
    (heap : Heap) (name : Bytes) (k before : ℕ)
    → before ≡ live (suc k) heap
    → before + of_bool (k == length heap) ≡ live (suc k) (heap ++ some name ∷ [])
one_more heap name k before e = elim (Bool-cases (k == length heap)) [
  | inl t ↦
      let none_before : live (suc k) heap ≡ 0 =
        live_above heap k (rw ((==_iff k (length heap)).0 t) (omega arith)) in
      let new : live (suc k) (heap ++ some name ∷ []) ≡ 1 = live-allocate name heap k ∙ rw t refl in
      rw t (omega (arith, none_before, new))
  | inr u ↦
      let same : live (suc k) (heap ++ some name ∷ []) ≡ live (suc k) heap =
        live-allocate name heap k ∙ rw u refl in
      rw u (omega (arith, same))
]

module _ (sequence : SequenceCheck) (fits : sequence.last_id < 32768) (index : ℕ) where
  -- The entry with this pointer, changed by the packet.
  abbrev entry : ℕ → AtemState ℕ
  entry pointer = record { last_change_id = sequence.last_id; state = pointer }

  holds-entry : (p k : ℕ) → holds (suc k) (entry (suc p)) ≡ of_bool (k == p)
  unfolding is_valid
  holds-entry p k = ground arith

  entry_bare : (k : ℕ) → holds (suc k) (entry 0) ≡ 0
  unfolding is_valid
  entry_bare k = ground arith

  -- The entry holds no name.
  abbrev pub IsBare : Switcher → Type 0
  IsBare s =
      (find index s.media_player_file ≡ none) ⊎ (find index s.media_player_file ≡ some (entry 0))

  pub record Clears (s' : Switcher) : Type 0 where
    pub owned : IsOwned sequence s'
    pub bare : IsBare s'

  abbrev cleared_with : Switcher → Heap → Switcher
  cleared_with s heap = record s {
    media_player_file = assign index (entry 0) s.media_player_file;
    heap = heap;
  }

  -- Where the heap loses what the old entry holds.
  clears :
      (s : Switcher) (file : AtemState ℕ) (heap : Heap)
      → IsOwned sequence s
      → find index s.media_player_file ≡ some file
      → ((k : ℕ) → live (suc k) heap + holds (suc k) file ≡ live (suc k) s.heap)
      → Clears (cleared_with s heap)
  clears s file heap h found less = record {
    owned = record {
      owns = λ k. omega (
        arith,
        holders-assign (suc k) index file (entry 0) s.media_player_file found,
        entry_bare k,
        less k,
        h.owns k,
      );
      current =
          assign-AreCurrent sequence index (entry 0) s.media_player_file (omega arith) h.current;
    };
    bare = inr (find-assign index (entry 0) s.media_player_file);
  }

  pub clear_file-Clears :
      (s : Switcher)
      → IsOwned sequence s
      → (s' : Switcher) × (clear_file sequence index s ≡ some s') × Clears s'
  unfolding clear_file
  clear_file-Clears s h = elim (Option-cases (find index s.media_player_file)) [
    | inl found ↦ (s, rw (clear_file, found) refl, record { owned = h; bare = inl found })
    | inr (file, found) ↦
        let current : put file sequence 0 ≡ entry 0 =
          put_current sequence file 0
            (find-AreCurrent sequence index file s.media_player_file found h.current) in
        let (heap, f, less) = free_entry file s.heap (λ k.
          omega (arith, holds-le-holders (suc k) index file s.media_player_file found, h.owns k)) in
        (
          cleared_with s heap,
          rw (clear_file, found, f, current) refl,
          clears s file heap h found less,
        )
  ]

  put-entry : (file : AtemState ℕ) (p : ℕ) → IsCurrent sequence file → put file sequence p ≡ entry p
  put-entry file p c = put_current sequence file p c

  -- The entry and the heap after the name is copied.
  abbrev stored_with : Switcher → Bytes → Switcher
  stored_with s name = record s {
    media_player_file = assign index (entry (suc (length s.heap))) s.media_player_file;
    heap = s.heap ++ some name ∷ [];
  }

  store_file-stored_with :
      (s : Switcher) (name : Bytes)
      → IsBare s
      → store_file sequence index name s ≡ stored_with s name
  unfolding store_file allocate
  store_file-stored_with s name (inl found) =
      rw (store_file, found, put-entry (unset 0) (suc (length s.heap)) (omega arith)) refl
  store_file-stored_with s name (inr found) =
      rw (store_file, found, put-entry (entry 0) (suc (length s.heap)) (omega arith)) refl

  -- One more block is live, and the new entry points to it.
  holders_stored :
      (s : Switcher) (name : Bytes) (k : ℕ)
      → IsBare s
      → holders (suc k) (stored_with s name).media_player_file
        ≡ holders (suc k) s.media_player_file + of_bool (k == length s.heap)
  holders_stored s name k (inl found) = omega (
    arith,
    holders-assign_new (suc k) index (entry (suc (length s.heap))) s.media_player_file found,
    holds-entry (length s.heap) k,
  )
  holders_stored s name k (inr found) = omega (
    arith,
    holders-assign (suc k) index (entry 0) (entry (suc (length s.heap))) s.media_player_file found,
    entry_bare k,
    holds-entry (length s.heap) k,
  )

  pub stored-IsOwned :
      (s : Switcher) (name : Bytes)
      → IsOwned sequence s
      → IsBare s
      → IsOwned sequence (store_file sequence index name s)
  stored-IsOwned s name h bare = rw (store_file-stored_with s name bare) (record {
    owns = λ k.
        holders_stored s name k bare
        ∙ one_more s.heap name k (holders (suc k) s.media_player_file) (h.owns k);
    current =
        assign-AreCurrent sequence index (entry (suc (length s.heap))) s.media_player_file
          (omega arith) h.current;
  })
