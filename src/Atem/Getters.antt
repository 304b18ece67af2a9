-- ===== src/Atem/Getters.antt =====
-- src/atem_state.cpp and include/atem.h: the getters of `Atem`. A getter's `bool` and its output argument are an
-- `Option`. `ATEM_MUTEX_OWER_CHECK` is empty, as in the default configuration.
use atem_esp_idf.Prelude.{
  ℕ, Bool, Option, none, some, leb, ltb, ◌||◌, not, if◌then◌else◌, length, get_elem?, bit_and,
  ◌<<<◌, nonzero, u8, ◌>>=◌, true, false, List,
}
use atem_esp_idf.Buffer.{Bytes}
use atem_esp_idf.State.{AtemState, is_valid, get}
use atem_esp_idf.Types.{
  Source, DskState, DskSource, DskProperties, FadeToBlack, StreamState, MediaPlayer,
  MediaPlayerSource, ProtocolVersion, Topology, TransitionState, TransitionPosition, UskState,
  DveState, Usk, InputProperty, Dsk, MixEffect,
}
use atem_esp_idf.Atem.Object.{Atem, ConnectionState, active, Switcher}
use atem_esp_idf.Atem.Vector.{read_at}

-- A getter of a value that stands alone.
unfoldable pub read : {T : Type 0} → AtemState T → Option T
read x = if not (is_valid x) then none else some (get x)

unfoldable pub is_active : ConnectionState → Bool
is_active active = true
is_active _ = false

unfoldable pub is_connected : Atem → Bool
unfolding is_active
is_connected a = is_active a.state

-- The getters of a member, in include/atem.h.
abbrev pub get_input_properties : Switcher → List (Source × AtemState InputProperty)
get_input_properties s = s.input_properties

abbrev pub get_dsk : Switcher → List Dsk
get_dsk s = s.dsk

abbrev pub get_mix_effect : Switcher → List MixEffect
get_mix_effect s = s.mix_effect

abbrev pub get_media_player_sources : Switcher → List (AtemState MediaPlayerSource)
get_media_player_sources s = s.media_player_source

abbrev pub get_aux_outputs : Switcher → List (AtemState Source)
get_aux_outputs s = s.aux_out

abbrev pub get_media_player_file_name : Switcher → List (ℕ × AtemState ℕ)
get_media_player_file_name s = s.media_player_file

abbrev pub get_product_id : Switcher → Bytes
get_product_id s = s.product_id

unfoldable pub get_aux_output : Switcher → ℕ → Option Source
get_aux_output s channel = read_at (λ x. x) s.aux_out channel

unfoldable pub get_dsk_state : Switcher → ℕ → Option DskState
get_dsk_state s keyer = read_at (λ d. d.state) s.dsk keyer

unfoldable pub get_dsk_source : Switcher → ℕ → Option DskSource
get_dsk_source s keyer = read_at (λ d. d.source) s.dsk keyer

unfoldable pub get_dsk_properties : Switcher → ℕ → Option DskProperties
get_dsk_properties s keyer = read_at (λ d. d.properties) s.dsk keyer

unfoldable pub get_ftb_state : Switcher → ℕ → Option FadeToBlack
get_ftb_state s me = read_at (λ x. x.ftb) s.mix_effect me

unfoldable pub get_stream_state : Switcher → Option StreamState
get_stream_state s = read s.stream

unfoldable pub get_media_player : Switcher → Option MediaPlayer
get_media_player s = read s.media_player

unfoldable pub get_media_player_source : Switcher → ℕ → Option MediaPlayerSource
get_media_player_source s mediaplayer = read_at (λ x. x) s.media_player_source mediaplayer

unfoldable pub get_preview_input : Switcher → ℕ → Option Source
get_preview_input s me = read_at (λ x. x.preview) s.mix_effect me

unfoldable pub get_program_input : Switcher → ℕ → Option Source
get_program_input s me = read_at (λ x. x.program) s.mix_effect me

unfoldable pub get_protocol_version : Switcher → Option ProtocolVersion
get_protocol_version s = read s.version

unfoldable pub get_topology : Switcher → Option Topology
get_topology s = read s.topology

unfoldable pub get_transition_state : Switcher → ℕ → Option TransitionState
get_transition_state s me = read_at (λ x. x.transition.state) s.mix_effect me

unfoldable pub get_transition_position : Switcher → ℕ → Option TransitionPosition
get_transition_position s me = read_at (λ x. x.transition.position) s.mix_effect me

-- The getters of a keyer test both indices.
unfoldable pub read_keyer : {T : Type 0} → (Usk → AtemState T) → Switcher → ℕ → ℕ → Option T
read_keyer field s me keyer =
    if leb (length s.mix_effect) me
    then none
    else do x ← get_elem? s.mix_effect me; read_at field x.keyer keyer

unfoldable pub get_usk_state : Switcher → ℕ → ℕ → Option UskState
get_usk_state = read_keyer (λ k. k.state)

unfoldable pub get_usk_number : Switcher → ℕ → Option ℕ
get_usk_number s me =
    if leb (length s.mix_effect) me
    then none
    else do x ← get_elem? s.mix_effect me; some (u8 (length x.keyer))

unfoldable pub get_usk_on_air : Switcher → ℕ → ℕ → Option Bool
get_usk_on_air s me keyer = if leb (length s.mix_effect) me || ltb 15 keyer then none else do
  x ← get_elem? s.mix_effect me
  let on_air = some (nonzero (bit_and (get x.usk_on_air) (0x1 <<< keyer)))
  if not (is_valid x.usk_on_air) then none else on_air

unfoldable pub get_usk_dve_state : Switcher → ℕ → ℕ → Option DveState
get_usk_dve_state = read_keyer (λ k. k.dve)
