-- ===== src/Atem/Object.antt =====
-- include/atem.h: the members of `Atem`, and the effects of its methods.
use atem_esp_idf.Prelude.{
  ℕ, zero, suc, Option, none, some, List, [], ◌∷◌, ◌++◌, ◌==◌, if◌then◌else◌, length, get_elem?,
  set, replicate,
}
use atem_esp_idf.Buffer.{Bytes}
use atem_esp_idf.Sequence
use atem_esp_idf.Sequence.{SequenceCheck}
use atem_esp_idf.State.{AtemState, unset}
use atem_esp_idf.Types.{
  Source, InputProperty, Topology, ProtocolVersion, MediaPlayer, MediaPlayerSource, MixEffect, Dsk,
  StreamState, stream_idle, topology_zero, version_zero, media_player_zero,
}

pub data ConnectionState : Type 0 where
  not_connected connected initializing active : ConnectionState

-- The blocks of `strndup`, freed ones as `none`. The pointer to block `k` is `suc k`, and `nullptr`
-- is 0.
abbrev pub Heap : Type 0
Heap = List (Option Bytes)

-- `free`: of a block that is freed already, or of no block, it is undefined.
unfoldable pub free : ℕ → Heap → Option Heap
free zero h = some h
free (suc k) h = elim (get_elem? h k) [
  | none ↦ none
  | some none ↦ none
  | some (some b) ↦ some (set h k none)
]

-- The pointer to a new block, and the heap with it.
unfoldable pub allocate : Bytes → Heap → ℕ × Heap
allocate b h = (suc (length h), h ++ some b ∷ [])

-- A `std::map` as the list of its entries.
module _ {V : Type 0} where
  unfoldable pub find : ℕ → List (ℕ × V) → Option V
  find k [] = none
  find k ((j, v) ∷ m) = if j == k then some v else find k m

  -- `it->second = v` at the entry that `find` found, and `insert` where there is none.
  unfoldable pub assign : ℕ → V → List (ℕ × V) → List (ℕ × V)
  assign k v [] = (k, v) ∷ []
  assign k v ((j, w) ∷ m) = if j == k then (j, v) ∷ m else (j, w) ∷ assign k v m

-- The members that `state_mutex_` guards.
pub record Switcher : Type 0 where
  pub input_properties : List (Source × AtemState InputProperty)
  pub topology : AtemState Topology
  pub version : AtemState ProtocolVersion
  pub media_player : AtemState MediaPlayer
  pub product_id : Bytes
  pub mix_effect : List MixEffect
  pub dsk : List Dsk
  pub aux_out : List (AtemState Source)
  pub media_player_source : List (AtemState MediaPlayerSource)
  pub media_player_file : List (ℕ × AtemState ℕ)
  pub stream : AtemState StreamState
  pub heap : Heap

-- What the methods do to the outside.
pub data Effect : Type 0 where
  sent : Bytes → Effect
  posted : ℕ → ℕ → Effect

-- The other members, and the effects so far, the latest first.
pub record Atem : Type 0 where
  pub state : ConnectionState
  pub session_id : ℕ
  pub local_id : ℕ
  pub remote_id : ℕ
  pub sequence : SequenceCheck
  pub send_packets : List Bytes
  pub switcher : Switcher
  pub log : List Effect

abbrev pub product_id_size : ℕ
product_id_size = 45

-- The members as they are after a reset, but for the heap.
abbrev pub cleared : Heap → Switcher
cleared heap = record {
  input_properties = [];
  topology = unset topology_zero;
  version = unset version_zero;
  media_player = unset media_player_zero;
  product_id = replicate product_id_size 0;
  mix_effect = [];
  dsk = [];
  aux_out = [];
  media_player_source = [];
  media_player_file = [];
  stream = unset 0;
  heap = heap;
}

-- The members' initialisers. `session_id_` has none: it holds any value.
abbrev pub initial : ℕ → Atem
initial session_id = record {
  state = not_connected;
  session_id = session_id;
  local_id = 0;
  remote_id = 0;
  sequence = Sequence.init;
  send_packets = [];
  switcher = record (cleared []) { stream = unset stream_idle };
  log = [];
}
