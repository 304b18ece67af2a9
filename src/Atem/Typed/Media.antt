-- ===== src/Atem/Typed/Media.antt =====
-- _top, MPCE and MPfe keep the types.
use atem_esp_idf.Prelude.{
  ℕ, ◌+◌, Option, some, List, arith, length, leb, if◌then◌else◌, Option-cases, inl, inr, ◌==◌, not,
  nonzero,
}
use atem_esp_idf.Prelude.Returns.{Ensures, Ensures-bind, Ensures-some, Ensures-if}
use atem_esp_idf.Buffer.{Bytes, AreBytes}
use atem_esp_idf.Buffer.Text.{strndup}
use atem_esp_idf.Sequence.{SequenceCheck}
use atem_esp_idf.State.{AtemState, put, get, is_valid, unset}
use atem_esp_idf.Types.{Topology, mix_effect_new, dsk_new, media_player_source_zero}
use atem_esp_idf.Command.{get_data}
use atem_esp_idf.Atem.Object.{Switcher, find, assign, free, allocate}
use atem_esp_idf.Atem.Vector.{resize}
use atem_esp_idf.Atem.Typed
use atem_esp_idf.Atem.Typed.{
  Fits8, Fits16, Fits32, All, Stamped, Keyed, IsTyped, IsInput, IsTopology, IsVersion,
  IsMediaPlayer, IsPlayerSource, IsUskState, IsDve, IsUsk, IsDskSource, IsDsk, IsPosition,
  IsTransition, IsMixEffect, IsProductId, of_inputs, of_topology, of_version, of_player, of_product,
  of_mix_effects, of_dsks, of_outputs, of_sources, of_files, of_stream,
}
use atem_esp_idf.Atem.Typed.Values.{
  data-Fits8, data-Fits16, put-Stamped, update-All, resize-All, assign-All, find-All,
}
use atem_esp_idf.Atem.Typed.Device.{IsTypedResult, any, dsk_new-IsDsk, mix_effect_new-IsMixEffect}
use atem_esp_idf.Atem.Handlers.Device.{on_top}
use atem_esp_idf.Atem.Handlers.Media.{clear_file, store_file, on_mpce, on_mpfe}

-- The entries of the stills.
abbrev IsFile : AtemState ℕ → Type 0
IsFile x = Fits16 x.last_change_id

put-IsFile :
    (x : AtemState ℕ) (sequence : SequenceCheck) (v : ℕ)
    → Fits16 sequence.last_id
    → IsFile x
    → IsFile (put x sequence v)
put-IsFile x sequence v fits h = (put-Stamped (λ p. Unit {0}) x sequence v fits (h, tt) tt).0

module _ (sequence : SequenceCheck) (fits : Fits16 sequence.last_id) (m : Bytes)
    (bytes : AreBytes m) (base : ℕ) (s : Switcher) (h : IsTyped s) where
  data8 : (i : ℕ) → Ensures Fits8 (get_data m base i)
  data8 i = data-Fits8 m base i bytes

  pub top-IsTyped : Ensures IsTypedResult (on_top sequence m base s)
  unfolding on_top
  top-IsTyped = Ensures-bind Fits8 IsTypedResult _ _ (data8 0) λ me is_me.
      Ensures-bind Fits8 IsTypedResult _ _ (data8 1) λ sources is_sources.
        Ensures-bind Fits8 IsTypedResult _ _ (data8 2) λ dsk is_dsk.
          Ensures-bind Fits8 IsTypedResult _ _ (data8 3) λ aux is_aux.
            Ensures-bind Fits8 IsTypedResult _ _ (data8 4) λ mixminus_outputs is_mixminus_outputs.
              Ensures-bind Fits8 IsTypedResult _ _ (data8 5) λ mediaplayers is_mediaplayers.
                Ensures-bind Fits8 IsTypedResult _ _ (data8 6) λ multiviewers is_multiviewers.
                  Ensures-bind Fits8 IsTypedResult _ _ (data8 7) λ rs485 is_rs485.
                    Ensures-bind Fits8 IsTypedResult _ _ (data8 8) λ hyperdecks is_hyperdecks.
                      Ensures-bind Fits8 IsTypedResult _ _ (data8 9) λ dve is_dve.
                        Ensures-bind Fits8 IsTypedResult _ _ (data8 10) λ stingers is_stingers.
                          Ensures-bind Fits8 IsTypedResult _ _ (data8 11)
                            λ supersources is_supersources.
                              Ensures-bind Fits8 IsTypedResult _ _ (data8 13)
                                λ talkback_channels is_talkback_channels.
                                  Ensures-bind Fits8 IsTypedResult _ _ (data8 18)
                                    λ camera_control is_camera_control.
                                      Ensures-some IsTypedResult _ (
                                        resized _ me dsk aux mediaplayers (record {
                                          me = is_me;
                                          sources = is_sources;
                                          dsk = is_dsk;
                                          aux = is_aux;
                                          mixminus_outputs = is_mixminus_outputs;
                                          mediaplayers = is_mediaplayers;
                                          multiviewers = is_multiviewers;
                                          rs485 = is_rs485;
                                          hyperdecks = is_hyperdecks;
                                          dve = is_dve;
                                          stingers = is_stingers;
                                          supersources = is_supersources;
                                          talkback_channels = is_talkback_channels;
                                          camera_control = is_camera_control;
                                        }))
    where
      resized :
          (x : Topology) (me dsks auxs players : ℕ)
          → IsTopology x
          → IsTyped (record s {
            topology = put s.topology sequence x;
            mix_effect = resize s.mix_effect me mix_effect_new;
            dsk = resize s.dsk dsks dsk_new;
            aux_out = resize s.aux_out auxs (unset 0);
            media_player_source =
                resize s.media_player_source players (unset media_player_source_zero);
          })
      resized x me dsks auxs players is of_topology =
          put-Stamped IsTopology s.topology sequence x fits (h of_topology) is
      resized x me dsks auxs players is of_mix_effects =
          resize-All IsMixEffect s.mix_effect me _ mix_effect_new-IsMixEffect (h of_mix_effects)
      resized x me dsks auxs players is of_dsks =
          resize-All IsDsk s.dsk dsks _ dsk_new-IsDsk (h of_dsks)
      resized x me dsks auxs players is of_outputs =
          resize-All (Stamped Fits16) s.aux_out auxs _ (omega arith, omega arith) (h of_outputs)
      resized x me dsks auxs players is of_sources =
          resize-All (Stamped IsPlayerSource) s.media_player_source players _
            (omega arith, (omega arith, omega arith, omega arith)) (h of_sources)
      resized x me dsks auxs players is member = h member

  pub mpce-IsTyped : Ensures IsTypedResult (on_mpce sequence m base s)
  unfolding on_mpce
  mpce-IsTyped = Ensures-bind Fits8 IsTypedResult _ _ (data8 0) λ player _.
      Ensures-if IsTypedResult (leb (length s.media_player_source) player) _ _
        (Ensures-some IsTypedResult _ h)
        (Ensures-bind Fits8 IsTypedResult _ _ (data8 1) λ type a.
          Ensures-bind Fits8 IsTypedResult _ _ (data8 2) λ still b.
            Ensures-bind Fits8 IsTypedResult _ _ (data8 3) λ clip c. Ensures-some IsTypedResult _ (
              Typed.with_sources s h _ (
                update-All (Stamped IsPlayerSource) s.media_player_source player _
                  (λ x k. put-Stamped IsPlayerSource x sequence _ fits k (a, b, c))
                  (h of_sources))))

  -- The entries do not depend on the heap.
  files-IsTyped :
      (t : Switcher) (files : List (ℕ × AtemState ℕ)) (heap : List (Option Bytes))
      → IsTyped t
      → All (Keyed IsFile) files
      → IsTyped (record t { media_player_file = files; heap = heap })
  files-IsTyped t files heap k l of_files = l
  files-IsTyped t files heap k l member = k member

  abbrev freed : AtemState ℕ → Option (List (Option Bytes))
  freed file = if is_valid file then free (get file) s.heap else some s.heap

  clear_file-IsTyped : (index : ℕ) → Fits16 index → Ensures IsTyped (clear_file sequence index s)
  unfolding clear_file
  clear_file-IsTyped index a = elim (Option-cases (find index s.media_player_file)) [
    | inl e ↦ rw (clear_file, e) (Ensures-some IsTyped s h)
    | inr (file, e) ↦
        rw (clear_file, e)
          (Ensures-bind (λ heap. Unit {0}) IsTyped (freed file)
            (λ heap. some (record s {
              media_player_file = assign index (put file sequence 0) s.media_player_file;
              heap = heap;
            }))
            (any (freed file))
            λ heap _. Ensures-some IsTyped _ (
              files-IsTyped s _ heap h (
                assign-All IsFile s.media_player_file index _ a
                  (put-IsFile file sequence 0 fits
                    (find-All IsFile s.media_player_file index (h of_files) file e))
                  (h of_files))))
  ]

  store_file-IsTyped :
      (index : ℕ) (name : Bytes) (t : Switcher)
      → Fits16 index
      → IsTyped t
      → IsTyped (store_file sequence index name t)
  unfolding store_file allocate
  store_file-IsTyped index name t a k = elim (Option-cases (find index t.media_player_file)) [
    | inl e ↦
        rw (store_file, e)
          (files-IsTyped t _ _ k (
            assign-All IsFile t.media_player_file index _ a
              (put-IsFile (unset 0) sequence _ fits (omega arith)) (k of_files)))
    | inr (file, e) ↦
        rw (store_file, e)
          (files-IsTyped t _ _ k (
            assign-All IsFile t.media_player_file index _ a
              (put-IsFile file sequence _ fits
                (find-All IsFile t.media_player_file index (k of_files) file e))
              (k of_files)))
  ]

  pub mpfe-IsTyped : Ensures IsTypedResult (on_mpfe sequence m base s)
  unfolding on_mpfe
  mpfe-IsTyped = Ensures-bind Fits8 IsTypedResult _ _ (data8 0) λ type _.
      Ensures-bind Fits16 IsTypedResult _ _ (data-Fits16 m base 1 bytes) λ index a.
        Ensures-bind Fits8 IsTypedResult _ _ (data8 4) λ is_used _.
          Ensures-if IsTypedResult (not (type == 0)) _ _ (Ensures-some IsTypedResult _ h) (
            Ensures-bind IsTyped IsTypedResult _ _ (clear_file-IsTyped index a) λ t k.
              Ensures-if IsTypedResult (nonzero is_used) _ _
                (Ensures-bind Fits8 IsTypedResult _ _ (data8 23) λ n _.
                  Ensures-bind (λ name. Unit {0}) IsTypedResult _ _
                    (any (strndup m (base + 8 + 24) n))
                    λ name _. Ensures-some IsTypedResult _ (store_file-IsTyped index name t a k))
                (Ensures-some IsTypedResult _ k))
