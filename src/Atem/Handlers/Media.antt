-- ===== src/Atem/Handlers/Media.antt =====
-- MPCE and MPfe: the sources of the media players, and the names of the stills.
use atem_esp_idf.Prelude.{
  ℕ, ◌+◌, Option, none, some, leb, not, nonzero, if◌then◌else◌, length, ◌>>=◌, ◌==◌,
}
use atem_esp_idf.Buffer.{Bytes}
use atem_esp_idf.Buffer.Text.{strndup}
use atem_esp_idf.Sequence.{SequenceCheck}
use atem_esp_idf.State.{put, unset, is_valid, get}
use atem_esp_idf.Types.{MediaPlayerSource}
use atem_esp_idf.Command.{get_data, get_data_s}
use atem_esp_idf.Atem.Object.{Switcher, free, allocate, find, assign}
use atem_esp_idf.Atem.Vector.{update}
use atem_esp_idf.Atem.Events.{bit_of, event_media_player, event_media_pool}
use atem_esp_idf.Atem.Handlers.Device.{Handled}

module _ (sequence : SequenceCheck) where
  -- "Clear index": the name of the entry that `find` returned is freed, and the entry set to
  -- `nullptr`. `Set` may refuse that, if the entry's last change is newer.
  unfoldable pub clear_file : ℕ → Switcher → Option Switcher
  clear_file index s = elim (find index s.media_player_file) [
    | none ↦ some s
    | some file ↦ do
      heap ← (if is_valid file then free (get file) s.heap else some s.heap)
      some (record s {
        media_player_file = assign index (put file sequence 0) s.media_player_file;
        heap = heap;
      })
  ]

  -- "Store file": a copy of the name goes to the entry, which is inserted if there is none.
  unfoldable pub store_file : ℕ → Bytes → Switcher → Switcher
  store_file index filename s =
      let (pointer, heap) = allocate filename s.heap in
      record s {
        media_player_file = elim (find index s.media_player_file) [
          | none ↦ assign index (put (unset 0) sequence pointer) s.media_player_file
          | some file ↦ assign index (put file sequence pointer) s.media_player_file
        ];
        heap = heap;
      }

module _ (sequence : SequenceCheck) (m : Bytes) (base : ℕ) (s : Switcher) where
  unfoldable pub on_mpce : Handled
  on_mpce = do
    mediaplayer ← get_data m base 0
    let skip : Handled = some (bit_of event_media_player, s)
    let write : Handled = (do
      type ← get_data m base 1
      still_index ← get_data m base 2
      clip_index ← get_data m base 3
      let source : MediaPlayerSource = record {
        type = type;
        still_index = still_index;
        clip_index = clip_index;
      }
      some (
        bit_of event_media_player,
        record s {
          media_player_source =
              update s.media_player_source mediaplayer (λ x. put x sequence source);
        },
      ))
    if leb (length s.media_player_source) mediaplayer then skip else write

  -- Only stills, of type 0, are kept.
  unfoldable pub on_mpfe : Handled
  on_mpfe = do
    type ← get_data m base 0
    index ← get_data_s m base 1
    is_used ← get_data m base 4
    let store : Switcher → Handled = λ s'. (do
      filename_len ← get_data m base 23
      filename ← strndup m (base + 8 + 24) filename_len
      some (bit_of event_media_pool, store_file sequence index filename s'))
    let still : Handled = (do
      s' ← clear_file sequence index s
      if nonzero is_used then store s' else some (bit_of event_media_pool, s'))
    if not (type == 0) then some (0, s) else still
