-- ===== src/Types.antt =====
-- include/atem_types.h: the structs of the switcher's state. An enumeration with a fixed underlying
-- type is its number; an `int16_t` or `int` field is its bit pattern. `…_zero` is `T()`.
use atem_esp_idf.Prelude.{ℕ, Bool, false, List, []}
use atem_esp_idf.State.{AtemState, unset}

-- `enum Source : uint16_t`; any 16-bit value may be cast to it.
abbrev pub Source : Type 0
Source = ℕ

pub record InputProperty : Type 0 where
  pub name_long : List ℕ
  pub name_short : List ℕ

pub record TransitionPosition : Type 0 where
  pub in_transition : Bool
  pub position : ℕ

pub record TransitionState : Type 0 where
  pub style : ℕ
  pub next : ℕ

pub record Topology : Type 0 where
  pub me : ℕ
  pub sources : ℕ
  pub dsk : ℕ
  pub aux : ℕ
  pub mixminus_outputs : ℕ
  pub mediaplayers : ℕ
  pub multiviewers : ℕ
  pub rs485 : ℕ
  pub hyperdecks : ℕ
  pub dve : ℕ
  pub stingers : ℕ
  pub supersources : ℕ
  pub talkback_channels : ℕ
  pub camera_control : ℕ

-- `enum class UskDveKeyFrame : uint8_t`.
pub data UskDveKeyFrame : Type 0 where
  frame_a frame_b full run_to_inf : UskDveKeyFrame

abbrev pub key_frame_value : UskDveKeyFrame → ℕ
key_frame_value frame_a = 1
key_frame_value frame_b = 2
key_frame_value full = 3
key_frame_value run_to_inf = 4

pub record DveState : Type 0 where
  pub size_x : ℕ
  pub size_y : ℕ
  pub pos_x : ℕ
  pub pos_y : ℕ
  pub rotation : ℕ

pub data UskDveProperty : Type 0 where
  size_x size_y pos_x pos_y rotation : UskDveProperty

abbrev pub property_value : UskDveProperty → ℕ
property_value size_x = 0
property_value size_y = 1
property_value pos_x = 2
property_value pos_y = 3
property_value rotation = 4

pub record ProtocolVersion : Type 0 where
  pub major : ℕ
  pub minor : ℕ

pub record MediaPlayer : Type 0 where
  pub still : ℕ
  pub clip : ℕ

pub record MediaPlayerSource : Type 0 where
  pub type : ℕ
  pub still_index : ℕ
  pub clip_index : ℕ

pub record UskState : Type 0 where
  pub type : ℕ
  pub fill : Source
  pub key : Source
  pub top : ℕ
  pub bottom : ℕ
  pub left : ℕ
  pub right : ℕ

pub record Usk : Type 0 where
  pub state : AtemState UskState
  pub at_key_frame : AtemState Bool
  pub dve : AtemState DveState

pub record DskState : Type 0 where
  pub on_air : Bool
  pub in_transition : Bool
  pub is_auto_transitioning : Bool

pub record DskSource : Type 0 where
  pub fill : Source
  pub key : Source

pub record DskProperties : Type 0 where
  pub tie : Bool

pub record Dsk : Type 0 where
  pub state : AtemState DskState
  pub source : AtemState DskSource
  pub properties : AtemState DskProperties

pub record FadeToBlack : Type 0 where
  pub fully_black : Bool
  pub in_transition : Bool

pub record Transition : Type 0 where
  pub position : AtemState TransitionPosition
  pub state : AtemState TransitionState

pub record MixEffect : Type 0 where
  pub program : AtemState Source
  pub preview : AtemState Source
  pub usk_on_air : AtemState ℕ
  pub transition : Transition
  pub ftb : AtemState FadeToBlack
  pub keyer : List Usk

-- `enum class StreamState`; the code casts any byte to it.
abbrev pub StreamState : Type 0
StreamState = ℕ

abbrev pub stream_idle : StreamState
stream_idle = 1

abbrev pub topology_zero : Topology
topology_zero = record {
  me = 0;
  sources = 0;
  dsk = 0;
  aux = 0;
  mixminus_outputs = 0;
  mediaplayers = 0;
  multiviewers = 0;
  rs485 = 0;
  hyperdecks = 0;
  dve = 0;
  stingers = 0;
  supersources = 0;
  talkback_channels = 0;
  camera_control = 0;
}

abbrev pub version_zero : ProtocolVersion
version_zero = record { major = 0; minor = 0 }

abbrev pub media_player_zero : MediaPlayer
media_player_zero = record { still = 0; clip = 0 }

abbrev pub media_player_source_zero : MediaPlayerSource
media_player_source_zero = record { type = 0; still_index = 0; clip_index = 0 }

abbrev pub usk_new : Usk
usk_new = record {
  state = unset (record { type = 0; fill = 0; key = 0; top = 0; bottom = 0; left = 0; right = 0 });
  at_key_frame = unset false;
  dve = unset (record { size_x = 0; size_y = 0; pos_x = 0; pos_y = 0; rotation = 0 });
}

abbrev pub dsk_new : Dsk
dsk_new = record {
  state = unset (record { on_air = false; in_transition = false; is_auto_transitioning = false });
  source = unset (record { fill = 0; key = 0 });
  properties = unset (record { tie = false });
}

abbrev pub mix_effect_new : MixEffect
mix_effect_new = record {
  program = unset 0;
  preview = unset 0;
  usk_on_air = unset 0;
  transition = record {
    position = unset (record { in_transition = false; position = 0 });
    state = unset (record { style = 0; next = 0 });
  };
  ftb = unset (record { fully_black = false; in_transition = false });
  keyer = [];
}
