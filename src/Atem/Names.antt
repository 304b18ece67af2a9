-- ===== src/Atem/Names.antt =====
-- MPfe: the blocks of the stills' names, and what a packet that comes late does to them.
use atem_esp_idf.Prelude.{
  ℕ, zero, suc, ◌≡◌, ◌<◌, refl, true, none, some, List, [], ◌∷◌, arith, length, get_elem?, set,
  get_elem?-set_self, ◌==◌, ==_self, Bool-cases, inl, inr, bias,
}
use atem_esp_idf.Buffer.{Bytes}
use atem_esp_idf.Sequence.{SequenceCheck}
use atem_esp_idf.State.{AtemState, is_valid, get, put}
use atem_esp_idf.Atem.Object.{Switcher, Heap, free, find, assign}
use atem_esp_idf.Atem.Handlers.Media.{clear_file}
use atem_esp_idf.Atem.ReadBack.{IsCurrent, put_current, put_stale}

pub find-assign : {V : Type 0} (k : ℕ) (v : V) (m : List (ℕ × V)) → find k (assign k v m) ≡ some v
unfolding find assign
find-assign k v [] = rw (==_self k) refl
find-assign k v ((j, w) ∷ m) = elim (Bool-cases (j == k)) [
  | inl e ↦ rw (e, find) (rw e refl)
  | inr e ↦ rw (e, find) (rw e (find-assign k v m))
]

below : {A : Type 0} (xs : List A) (i : ℕ) (x : A) → get_elem? xs i ≡ some x → i < length xs
below [] i x e = cc
below (y ∷ xs) zero x e = omega arith
below (y ∷ xs) (suc i) x e = omega (arith, below xs i x e)

pub free-live :
    (h : Heap) (k : ℕ) (b : Bytes)
    → get_elem? h k ≡ some (some b)
    → free (suc k) h ≡ some (set h k none)
unfolding free
free-live h k b e = rw (free, e) refl

free-gone : (h : Heap) (k : ℕ) → get_elem? h k ≡ some none → free (suc k) h ≡ none
unfolding free
free-gone h k e = rw (free, e) refl

-- The still has a name, in the live block `k`.
pub record HasName (s : Switcher) (index k : ℕ) (file : AtemState ℕ) : Type 0 where
  pub bytes : Bytes
  pub found : find index s.media_player_file ≡ some file
  pub valid : is_valid file ≡ true
  pub pointer : get file ≡ suc k
  pub live : get_elem? s.heap k ≡ some (some bytes)

-- The first part of MPfe, for a packet that is not older than the still's last change, frees the
-- name and leaves the still without one: to do the same again is defined.
pub clear_file_current :
    (sequence : SequenceCheck) (index k : ℕ) (s : Switcher) (file : AtemState ℕ)
    → HasName s index k file
    → IsCurrent sequence file
    → (s' : Switcher) × (clear_file sequence index s ≡ some s')
      × (s'.heap ≡ set s.heap k none)
      × (find index s'.media_player_file
          ≡ some (record { last_change_id = sequence.last_id; state = 0 }))
      × ((s'' : Switcher) × (clear_file sequence index s' ≡ some s''))
unfolding clear_file free
clear_file_current sequence index k s file h current =
    let empty : AtemState ℕ = record { last_change_id = sequence.last_id; state = 0 } in
    let files = assign index empty s.media_player_file in
    let heap : Heap = set s.heap k none in
    (
      record s { media_player_file = files; heap = heap },
      rw
          (
            clear_file,
            h.found,
            h.valid,
            put_current sequence file 0 current,
            h.pointer,
            free-live s.heap k h.bytes h.live,
          )
          refl,
      refl,
      find-assign index empty s.media_player_file,
      (
        record s { media_player_file = assign index (put empty sequence 0) files; heap = heap },
        rw (clear_file, find-assign index empty s.media_player_file)
            (elim (Bool-cases (is_valid empty)) [ inl e ↦ rw e refl | inr e ↦ rw e refl ]),
      ),
    )

-- For an older packet it frees the name but keeps the pointer to it: the next MPfe for this still
-- frees the block again, whatever its packet.
pub clear_file_stale :
    (sequence later : SequenceCheck) (index k : ℕ) (s : Switcher) (file : AtemState ℕ)
    → HasName s index k file
    → bias sequence.last_id < bias file.last_change_id
    → (s' : Switcher) × (clear_file sequence index s ≡ some s') × (clear_file later index s' ≡ none)
unfolding clear_file free
clear_file_stale sequence later index k s file h stale =
    let files = assign index file s.media_player_file in
    let heap : Heap = set s.heap k none in
    let gone : get_elem? heap k ≡ some none =
      get_elem?-set_self s.heap k none (below s.heap k (some h.bytes) h.live) in
    (
      record s { media_player_file = files; heap = heap },
      rw
          (
            clear_file,
            h.found,
            h.valid,
            put_stale sequence file 0 stale,
            h.pointer,
            free-live s.heap k h.bytes h.live,
          )
          refl,
      rw
          (
            clear_file,
            find-assign index file s.media_player_file,
            h.valid,
            h.pointer,
            free-gone heap k gone,
          )
          refl,
    )
