-- ===== src/Atem/ReadBack/Getters.antt =====
-- The value of a command reads back from the getter.
pub mod Writes
pub mod Outputs
pub mod Keyers
pub mod UpstreamKeyers
pub mod MixEffects
pub mod Handled
use atem_esp_idf.Prelude.{
  ℕ, ◌≡◌, ◌<◌, refl, ap, ◌∙◌, Option, none, some, List, arith, length, leb, get_elem?, get_elem?_in,
  if◌then◌else◌, ◌==◌, Bool, true, false, not, nonzero, bit_and, Bool-cases, inl, inr, ◌>>=◌,
}
use atem_esp_idf.Prelude.Returns.{Ensures, Ensures-bind, Ensures-some}
use atem_esp_idf.Buffer.{Bytes}
use atem_esp_idf.Sequence.{SequenceCheck}
use atem_esp_idf.State.{AtemState, put, get, is_valid}
use atem_esp_idf.Types.{
  TransitionPosition, TransitionState, MediaPlayer, MediaPlayerSource, Topology, FadeToBlack,
  ProtocolVersion, MixEffect, UskState, DveState, Usk, Dsk, DskSource, DskProperties, DskState,
}
use atem_esp_idf.Command.{get_data, get_length, get_data_s, get_data_u32}
use atem_esp_idf.Atem.Object.{Switcher}
use atem_esp_idf.Atem.Vector.{update, read_at, length-update, get_elem?-update_self}
use atem_esp_idf.Atem.Getters.{
  read, read_keyer, get_aux_output, get_program_input, get_preview_input, get_transition_position,
  get_transition_state, get_media_player_source, get_dsk_source, get_dsk_properties, get_dsk_state,
  get_ftb_state, get_media_player, get_topology, get_protocol_version, get_usk_state,
  get_usk_dve_state, get_stream_state,
}
use atem_esp_idf.Atem.Dispatch.{
  Kind, auxs, prgi, prvi, trps, trss, mpce, dskb, dskp, dsks, ftbs, mpl, top, ver, kebp, kedv, strs,
  handle,
}
use atem_esp_idf.Atem.Handlers.Complete.{leb-lt}
use atem_esp_idf.Atem.Handlers.Device.{on_mpl, on_ver, on_top}
use atem_esp_idf.Atem.Handlers.Media.{on_mpce}
use atem_esp_idf.Atem.Handlers.MixEffects.{
  write_me, on_auxs, on_prgi, on_prvi, on_trps, on_trss, on_ftbs,
}
use atem_esp_idf.Atem.Handlers.Keyers.{
  with_dsk, with_usk, on_kebp, on_kedv, on_dskb, on_dskp, on_dsks,
}
use atem_esp_idf.Atem.ReadBack.{IsCurrent, current_valid, current_get, read_at-update_self}
use atem_esp_idf.Atem.Typed.{All}
use atem_esp_idf.Atem.Typed.Values.{get_elem?-All}

-- The commands with one value.
pub data Single : Type 0 where
  single_auxs single_prgi single_prvi single_trps single_trss single_mpce single_dskb single_dskp
        single_dsks single_ftbs single_mpl single_top single_ver single_kebp single_kedv
        single_strs :
      Single

abbrev pub kind_of_single : Single → Kind
kind_of_single single_auxs = auxs
kind_of_single single_prgi = prgi
kind_of_single single_prvi = prvi
kind_of_single single_trps = trps
kind_of_single single_trss = trss
kind_of_single single_mpce = mpce
kind_of_single single_dskb = dskb
kind_of_single single_dskp = dskp
kind_of_single single_dsks = dsks
kind_of_single single_ftbs = ftbs
kind_of_single single_mpl = mpl
kind_of_single single_top = top
kind_of_single single_ver = ver
kind_of_single single_kebp = kebp
kind_of_single single_kedv = kedv
kind_of_single single_strs = strs

-- No value of the command's kind was last changed by a later packet.
abbrev pub AreRecent : Single → SequenceCheck → Switcher → Type 0
AreRecent single_auxs sequence s = All (λ x. IsCurrent sequence (x)) s.aux_out
AreRecent single_prgi sequence s = All (λ x. IsCurrent sequence (x.program)) s.mix_effect
AreRecent single_prvi sequence s = All (λ x. IsCurrent sequence (x.preview)) s.mix_effect
AreRecent single_trps sequence s =
    All (λ x. IsCurrent sequence (x.transition.position)) s.mix_effect
AreRecent single_trss sequence s = All (λ x. IsCurrent sequence (x.transition.state)) s.mix_effect
AreRecent single_mpce sequence s = All (λ x. IsCurrent sequence (x)) s.media_player_source
AreRecent single_dskb sequence s = All (λ x. IsCurrent sequence (x.source)) s.dsk
AreRecent single_dskp sequence s = All (λ x. IsCurrent sequence (x.properties)) s.dsk
AreRecent single_dsks sequence s = All (λ x. IsCurrent sequence (x.state)) s.dsk
AreRecent single_ftbs sequence s = All (λ x. IsCurrent sequence (x.ftb)) s.mix_effect
AreRecent single_mpl sequence s = IsCurrent sequence s.media_player
AreRecent single_top sequence s = IsCurrent sequence s.topology
AreRecent single_ver sequence s = IsCurrent sequence s.version
AreRecent single_strs sequence s = IsCurrent sequence s.stream
AreRecent single_kebp sequence s =
    All (λ x. All (λ k. IsCurrent sequence k.state) x.keyer) s.mix_effect
AreRecent single_kedv sequence s =
    All (λ x. All (λ k. IsCurrent sequence k.dve) x.keyer) s.mix_effect

-- The getter returns what the data says, at the index of the first byte.
abbrev pub ReadsBack : Single → Bytes → ℕ → Switcher → Switcher → Type 0
ReadsBack single_auxs m base s s' =
    (i : ℕ) × (get_data m base 0 ≡ some i)
    × (get_aux_output s' i ≡ (if leb (length s.aux_out) i then none else get_data_s m base 1))
ReadsBack single_prgi m base s s' =
    (i : ℕ) × (get_data m base 0 ≡ some i)
    × (get_program_input s' i ≡ (if leb (length s.mix_effect) i then none else get_data_s m base 1))
ReadsBack single_prvi m base s s' =
    (i : ℕ) × (get_data m base 0 ≡ some i)
    × (get_preview_input s' i ≡ (if leb (length s.mix_effect) i then none else get_data_s m base 1))
ReadsBack single_trps m base s s' =
    (i : ℕ) × (get_data m base 0 ≡ some i)
    × (get_transition_position s' i ≡ (
        if leb (length s.mix_effect) i then none else do
          flags ← get_data m base 1
          position ← get_data_s m base 2
          some (record { in_transition = nonzero (bit_and flags 0x01); position = position })))
ReadsBack single_trss m base s s' =
    (i : ℕ) × (get_data m base 0 ≡ some i)
    × (get_transition_state s' i ≡ (
        if leb (length s.mix_effect) i then none else do
          style ← get_data m base 1
          next ← get_data m base 2
          some (record { style = style; next = next })))
ReadsBack single_mpce m base s s' =
    (i : ℕ) × (get_data m base 0 ≡ some i)
    × (get_media_player_source s' i ≡ (
        if leb (length s.media_player_source) i then none else do
          type ← get_data m base 1
          still ← get_data m base 2
          clip ← get_data m base 3
          some (record { type = type; still_index = still; clip_index = clip })))
ReadsBack single_dskb m base s s' =
    (i : ℕ) × (get_data m base 0 ≡ some i)
    × (get_dsk_source s' i ≡ (
        if leb (length s.dsk) i then none else do
          fill ← get_data_s m base 1
          key ← get_data_s m base 2
          some (record { fill = fill; key = key })))
ReadsBack single_dskp m base s s' =
    (i : ℕ) × (get_data m base 0 ≡ some i)
    × (get_dsk_properties s' i ≡ (
        if leb (length s.dsk) i
        then none
        else do tie ← get_data m base 1; some (record { tie = nonzero tie })))
ReadsBack single_dsks m base s s' =
    (i : ℕ) × (get_data m base 0 ≡ some i)
    × (get_dsk_state s' i ≡ (
        if leb (length s.dsk) i then none else do
          on_air ← get_data m base 1
          moves ← get_data m base 2
          auto ← get_data m base 3
          some (record {
            on_air = nonzero on_air;
            in_transition = nonzero moves;
            is_auto_transitioning = nonzero auto;
          })))
ReadsBack single_ftbs m base s s' =
    (i : ℕ) × (get_data m base 0 ≡ some i)
    × (get_ftb_state s' i ≡ (
        if leb (length s.mix_effect) i then none else do
          black ← get_data m base 1
          moves ← get_data m base 2
          some (record { fully_black = nonzero black; in_transition = nonzero moves })))
ReadsBack single_mpl m base s s' = get_media_player s' ≡ (do
  still ← get_data m base 0
  clip ← get_data m base 1
  some (record { still = still; clip = clip }))
ReadsBack single_top m base s s' = get_topology s' ≡ (do
  me ← get_data m base 0
  sources ← get_data m base 1
  dsk ← get_data m base 2
  aux ← get_data m base 3
  mixminus_outputs ← get_data m base 4
  mediaplayers ← get_data m base 5
  multiviewers ← get_data m base 6
  rs485 ← get_data m base 7
  hyperdecks ← get_data m base 8
  dve ← get_data m base 9
  stingers ← get_data m base 10
  supersources ← get_data m base 11
  talkback_channels ← get_data m base 13
  camera_control ← get_data m base 18
  some (record {
    me = me;
    sources = sources;
    dsk = dsk;
    aux = aux;
    mixminus_outputs = mixminus_outputs;
    mediaplayers = mediaplayers;
    multiviewers = multiviewers;
    rs485 = rs485;
    hyperdecks = hyperdecks;
    dve = dve;
    stingers = stingers;
    supersources = supersources;
    talkback_channels = talkback_channels;
    camera_control = camera_control;
  }))
ReadsBack single_ver m base s s' = get_protocol_version s' ≡ (do
  major ← get_data_s m base 0
  minor ← get_data_s m base 1
  some (record { major = major; minor = minor }))
ReadsBack single_strs m base s s' =
    (n : ℕ) × (get_length m base ≡ some n)
    × (get_stream_state s' ≡ (if n == 12 then get_data m base 1 else get_stream_state s))
ReadsBack single_kebp m base s s' =
    (me keyer : ℕ) × (get_data m base 0 ≡ some me)
    × (get_data m base 1 ≡ some keyer)
    × (get_usk_state s' me keyer ≡ (
        if leb (length s.mix_effect) me then none else do
          x ← get_elem? s.mix_effect me
          if leb (length x.keyer) keyer then none else do
            type ← get_data m base 2
            fill ← get_data_s m base 3
            key ← get_data_s m base 4
            upper ← get_data_s m base 6
            bottom ← get_data_s m base 7
            left ← get_data_s m base 8
            right ← get_data_s m base 9
            some (record {
              type = type;
              fill = fill;
              key = key;
              top = upper;
              bottom = bottom;
              left = left;
              right = right;
            })))
ReadsBack single_kedv m base s s' =
    (me keyer : ℕ) × (get_data m base 0 ≡ some me)
    × (get_data m base 1 ≡ some keyer)
    × (get_usk_dve_state s' me keyer ≡ (
        if leb (length s.mix_effect) me then none else do
          x ← get_elem? s.mix_effect me
          if leb (length x.keyer) keyer then none else do
            size_x ← get_data_u32 m base 1
            size_y ← get_data_u32 m base 2
            pos_x ← get_data_u32 m base 3
            pos_y ← get_data_u32 m base 4
            rotation ← get_data_u32 m base 5
            some (record {
              size_x = size_x;
              size_y = size_y;
              pos_x = pos_x;
              pos_y = pos_y;
              rotation = rotation;
            })))
