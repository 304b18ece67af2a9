-- ===== src/Atem/Typed.antt =====
-- include/atem_types.h: the ranges of the fields of the switcher's state, and the sizes of its
-- arrays.
pub mod Values
pub mod Device
pub mod Media
pub mod MixEffects
pub mod Keyers
pub mod Packets
pub mod Product
use atem_esp_idf.Prelude.{
  ℕ, zero, suc, ◌+◌, ◌*◌, ◌≡◌, ◌≤◌, ◌<◌, refl, Option, none, some, List, [], ◌∷◌, arith, length,
  leb, get_elem?, if◌then◌else◌, Bool-cases, inl, inr, ◌==◌, ◌>>=◌, >>=-eq-some,
}
use atem_esp_idf.Prelude.Returns.{Ensures, Ensures-bind, Ensures-some}
use atem_esp_idf.Buffer.{Bytes, load8, load16, load32, AreBytes}
use atem_esp_idf.Sequence
use atem_esp_idf.Sequence.{SequenceCheck}
use atem_esp_idf.State.{AtemState, put, set, unset}
use atem_esp_idf.Command.{get_data, get_data_s, get_data_u32}
use atem_esp_idf.Types.{
  InputProperty, TransitionPosition, TransitionState, Topology, DveState, ProtocolVersion,
  MediaPlayer, MediaPlayerSource, UskState, Usk, DskSource, Dsk, MixEffect,
}
use atem_esp_idf.Atem.Object.{Switcher, find, assign}
use atem_esp_idf.Atem.Vector.{resize, update}

-- `uint8_t`, `uint16_t` and `uint32_t`.
abbrev pub Fits8 : ℕ → Type 0
Fits8 n = n < 256

abbrev pub Fits16 : ℕ → Type 0
Fits16 n = n < 65536

abbrev pub Fits32 : ℕ → Type 0
Fits32 n = n < 4294967296

abbrev pub All : {A : Type 0} → (A → Type 0) → List A → Type 0
All P [] = Unit {0}
All P (x ∷ xs) = P x × All P xs

-- A value with the id of a packet.
abbrev pub Stamped : {T : Type 0} → (T → Type 0) → AtemState T → Type 0
Stamped P x = Fits16 x.last_change_id × P x.state

-- `char[20]` and `char[4]`.
pub record IsInput (x : InputProperty) : Type 0 where
  pub long_size : length x.name_long ≡ 20
  pub long_bytes : AreBytes x.name_long
  pub short_size : length x.name_short ≡ 4
  pub short_bytes : AreBytes x.name_short

pub record IsTopology (x : Topology) : Type 0 where
  pub me : Fits8 x.me
  pub sources : Fits8 x.sources
  pub dsk : Fits8 x.dsk
  pub aux : Fits8 x.aux
  pub mixminus_outputs : Fits8 x.mixminus_outputs
  pub mediaplayers : Fits8 x.mediaplayers
  pub multiviewers : Fits8 x.multiviewers
  pub rs485 : Fits8 x.rs485
  pub hyperdecks : Fits8 x.hyperdecks
  pub dve : Fits8 x.dve
  pub stingers : Fits8 x.stingers
  pub supersources : Fits8 x.supersources
  pub talkback_channels : Fits8 x.talkback_channels
  pub camera_control : Fits8 x.camera_control

abbrev pub IsVersion : ProtocolVersion → Type 0
IsVersion x = Fits16 x.major × Fits16 x.minor

abbrev pub IsMediaPlayer : MediaPlayer → Type 0
IsMediaPlayer x = Fits8 x.still × Fits8 x.clip

abbrev pub IsPlayerSource : MediaPlayerSource → Type 0
IsPlayerSource x = Fits8 x.type × Fits8 x.still_index × Fits8 x.clip_index

pub record IsUskState (x : UskState) : Type 0 where
  pub type : Fits8 x.type
  pub fill : Fits16 x.fill
  pub key : Fits16 x.key
  pub top : Fits16 x.top
  pub bottom : Fits16 x.bottom
  pub left : Fits16 x.left
  pub right : Fits16 x.right

pub record IsDve (x : DveState) : Type 0 where
  pub size_x : Fits32 x.size_x
  pub size_y : Fits32 x.size_y
  pub pos_x : Fits32 x.pos_x
  pub pos_y : Fits32 x.pos_y
  pub rotation : Fits32 x.rotation

pub record IsUsk (x : Usk) : Type 0 where
  pub state : Stamped IsUskState x.state
  pub at_key_frame : Fits16 x.at_key_frame.last_change_id
  pub dve : Stamped IsDve x.dve

abbrev pub IsDskSource : DskSource → Type 0
IsDskSource x = Fits16 x.fill × Fits16 x.key

pub record IsDsk (x : Dsk) : Type 0 where
  pub state : Fits16 x.state.last_change_id
  pub source : Stamped IsDskSource x.source
  pub properties : Fits16 x.properties.last_change_id

abbrev pub IsPosition : TransitionPosition → Type 0
IsPosition x = Fits16 x.position

abbrev pub IsTransition : TransitionState → Type 0
IsTransition x = Fits8 x.style × Fits8 x.next

pub record IsMixEffect (x : MixEffect) : Type 0 where
  pub program : Stamped Fits16 x.program
  pub preview : Stamped Fits16 x.preview
  pub usk_on_air : Stamped Fits16 x.usk_on_air
  pub position : Stamped IsPosition x.transition.position
  pub transition : Stamped IsTransition x.transition.state
  pub ftb : Fits16 x.ftb.last_change_id
  pub keyer : All IsUsk x.keyer

-- `char product_id_[45]`, whose last byte is the NUL that ends any text in it.
abbrev pub IsProductId : Bytes → Type 0
IsProductId x = (length x ≡ 45) × AreBytes x × (get_elem? x 44 ≡ some 0)

-- An entry of a map whose keys have 16 bits.
abbrev pub Keyed : {V : Type 0} → (V → Type 0) → ℕ × V → Type 0
Keyed P e = Fits16 e.0 × P e.1

-- The members with a type of the state.
pub data Member : Type 0 where
  of_inputs of_topology of_version of_player of_product of_mix_effects of_dsks of_outputs of_sources
        of_files of_stream :
      Member

abbrev pub Typed : Member → Switcher → Type 0
Typed of_inputs s = All (Keyed (Stamped IsInput)) s.input_properties
Typed of_topology s = Stamped IsTopology s.topology
Typed of_version s = Stamped IsVersion s.version
Typed of_player s = Stamped IsMediaPlayer s.media_player
Typed of_product s = IsProductId s.product_id
Typed of_mix_effects s = All IsMixEffect s.mix_effect
Typed of_dsks s = All IsDsk s.dsk
Typed of_outputs s = All (Stamped Fits16) s.aux_out
Typed of_sources s = All (Stamped IsPlayerSource) s.media_player_source
Typed of_files s = All (Keyed (λ x. Fits16 x.last_change_id)) s.media_player_file
Typed of_stream s = Stamped Fits8 s.stream

-- Every field of the state has a value of its type.
abbrev pub IsTyped : Switcher → Type 0
IsTyped s = (member : Member) → Typed member s

-- A member that changes.
module _ (s : Switcher) (h : IsTyped s) where
  pub with_inputs :
      (x : List (ℕ × AtemState InputProperty))
      → All (Keyed (Stamped IsInput)) x
      → IsTyped (record s { input_properties = x })
  with_inputs x k of_inputs = k
  with_inputs x k member = h member

  pub with_topology :
      (x : AtemState Topology) → Stamped IsTopology x → IsTyped (record s { topology = x })
  with_topology x k of_topology = k
  with_topology x k member = h member

  pub with_version :
      (x : AtemState ProtocolVersion) → Stamped IsVersion x → IsTyped (record s { version = x })
  with_version x k of_version = k
  with_version x k member = h member

  pub with_player :
      (x : AtemState MediaPlayer)
      → Stamped IsMediaPlayer x
      → IsTyped (record s { media_player = x })
  with_player x k of_player = k
  with_player x k member = h member

  pub with_product : (x : Bytes) → IsProductId x → IsTyped (record s { product_id = x })
  with_product x k of_product = k
  with_product x k member = h member

  pub with_mix_effects :
      (x : List MixEffect) → All IsMixEffect x → IsTyped (record s { mix_effect = x })
  with_mix_effects x k of_mix_effects = k
  with_mix_effects x k member = h member

  pub with_dsks : (x : List Dsk) → All IsDsk x → IsTyped (record s { dsk = x })
  with_dsks x k of_dsks = k
  with_dsks x k member = h member

  pub with_outputs :
      (x : List (AtemState ℕ)) → All (Stamped Fits16) x → IsTyped (record s { aux_out = x })
  with_outputs x k of_outputs = k
  with_outputs x k member = h member

  pub with_sources :
      (x : List (AtemState MediaPlayerSource))
      → All (Stamped IsPlayerSource) x
      → IsTyped (record s { media_player_source = x })
  with_sources x k of_sources = k
  with_sources x k member = h member

  pub with_files :
      (x : List (ℕ × AtemState ℕ))
      → All (Keyed (λ x. Fits16 x.last_change_id)) x
      → IsTyped (record s { media_player_file = x })
  with_files x k of_files = k
  with_files x k member = h member

  pub with_stream : (x : AtemState ℕ) → Stamped Fits8 x → IsTyped (record s { stream = x })
  with_stream x k of_stream = k
  with_stream x k member = h member
