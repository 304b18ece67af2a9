-- ===== src/Atem/Reset.antt =====
-- src/atem.cpp: what `Reconnect_` leaves, as the getters see it.
use native.Mathlib.Nat.{zero-add}
use atem_esp_idf.Prelude.{
  ℕ, ◌≡◌, refl, none, some, [], ◌∷◌, arith, ◌∙◌, ap, false, ◌<◌, length, set, length-set, ◌==◌,
  if◌then◌else◌, get_elem?-set_ne, replicate,
}
use atem_esp_idf.Buffer.{Bytes, load8, copy_from}
use atem_esp_idf.Buffer.Store.{store8-set}
use atem_esp_idf.Sequence
use atem_esp_idf.Packet
use atem_esp_idf.Packet.Header.{create-fields}
use atem_esp_idf.Packet.Layout.{copy_from-At}
use atem_esp_idf.Atem.Send.{same_length_field}
use atem_esp_idf.Atem.Object.{Atem, Switcher, Heap, sent, posted, cleared, connected}
use atem_esp_idf.Atem.Getters.{
  is_connected, is_active, read, read_keyer, get_aux_output, get_dsk_state, get_dsk_source,
  get_dsk_properties, get_ftb_state, get_stream_state, get_media_player, get_media_player_source,
  get_preview_input, get_program_input, get_protocol_version, get_topology, get_transition_state,
  get_transition_position, get_usk_state, get_usk_number, get_usk_on_air, get_usk_dve_state,
  get_input_properties, get_dsk, get_mix_effect, get_media_player_sources, get_aux_outputs,
  get_media_player_file_name, get_product_id,
}
use atem_esp_idf.Atem.Events.{event_product_id}
use atem_esp_idf.Atem.Vector.{read_at}
use atem_esp_idf.State.{is_valid}
use atem_esp_idf.Atem.Connection.{
  World, free_files, send_dropped, send_packet, reconnect, init_session,
}

-- No getter gives a value: the text is empty, and so are the vectors and maps.
pub record KnowsNothing (s : Switcher) : Type 0 where
  pub aux_output : (c : ℕ) → get_aux_output s c ≡ none
  pub dsk_state : (k : ℕ) → get_dsk_state s k ≡ none
  pub dsk_source : (k : ℕ) → get_dsk_source s k ≡ none
  pub dsk_properties : (k : ℕ) → get_dsk_properties s k ≡ none
  pub ftb_state : (me : ℕ) → get_ftb_state s me ≡ none
  pub stream_state : get_stream_state s ≡ none
  pub media_player : get_media_player s ≡ none
  pub media_player_source : (p : ℕ) → get_media_player_source s p ≡ none
  pub preview_input : (me : ℕ) → get_preview_input s me ≡ none
  pub program_input : (me : ℕ) → get_program_input s me ≡ none
  pub protocol_version : get_protocol_version s ≡ none
  pub topology : get_topology s ≡ none
  pub transition_state : (me : ℕ) → get_transition_state s me ≡ none
  pub transition_position : (me : ℕ) → get_transition_position s me ≡ none
  pub usk_state : (me k : ℕ) → get_usk_state s me k ≡ none
  pub usk_number : (me : ℕ) → get_usk_number s me ≡ none
  pub usk_on_air : (me k : ℕ) → get_usk_on_air s me k ≡ none
  pub usk_dve_state : (me k : ℕ) → get_usk_dve_state s me k ≡ none
  pub input_properties : get_input_properties s ≡ []
  pub dsk : get_dsk s ≡ []
  pub mix_effect : get_mix_effect s ≡ []
  pub media_player_sources : get_media_player_sources s ≡ []
  pub aux_outputs : get_aux_outputs s ≡ []
  pub media_player_file_name : get_media_player_file_name s ≡ []
  pub product_id : get_product_id s ≡ replicate 45 0

cleared-KnowsNothing : (h : Heap) → KnowsNothing (cleared h)
unfolding get_aux_output get_dsk_state get_dsk_source get_dsk_properties get_ftb_state
    get_stream_state get_media_player get_media_player_source get_preview_input get_program_input
    get_protocol_version get_topology get_transition_state get_transition_position get_usk_state
    get_usk_number get_usk_on_air get_usk_dve_state read read_keyer read_at is_valid
cleared-KnowsNothing h = record {
  aux_output = λ c. ground arith;
  dsk_state = λ k. ground arith;
  dsk_source = λ k. ground arith;
  dsk_properties = λ k. ground arith;
  ftb_state = λ me. ground arith;
  stream_state = ground arith;
  media_player = ground arith;
  media_player_source = λ p. ground arith;
  preview_input = λ me. ground arith;
  program_input = λ me. ground arith;
  protocol_version = ground arith;
  topology = ground arith;
  transition_state = λ me. ground arith;
  transition_position = λ me. ground arith;
  usk_state = λ me k. ground arith;
  usk_number = λ me. ground arith;
  usk_on_air = λ me k. ground arith;
  usk_dve_state = λ me k. ground arith;
  input_properties = refl;
  dsk = refl;
  mix_effect = refl;
  media_player_sources = refl;
  aux_outputs = refl;
  media_player_file_name = refl;
  product_id = refl;
}

-- The client before the handshake.
pub record IsReset (a' : Atem) : Type 0 where
  pub not_active : is_connected a' ≡ false
  pub session : a'.session_id ≡ 0x0B06
  pub sequence : a'.sequence ≡ Sequence.init
  pub knows_nothing : KnowsNothing a'.switcher

module _ (w : World) where
  send_dropped-eq :
      (packet : Bytes) (a : Atem) (n : ℕ)
      → Packet.get_length packet ≡ some n
      → length packet ≡ n
      → send_dropped w packet a ≡ some (record a { log = sent packet ∷ a.log })
  unfolding send_dropped send_packet
  send_dropped-eq packet a n e size = rw (e, copied) refl
    where
      copied : copy_from packet 0 n ≡ some packet
      copied = rw (← size) (copy_from-At packet 0 packet (λ j h. ap (load8 packet) (zero-add j)))

  -- The members before the handshake's packet goes out.
  abbrev before_init : Atem → ℕ → Heap → Atem
  before_init a first heap = record a {
    state = connected;
    session_id = init_session w;
    local_id = 0;
    remote_id = 0;
    sequence = Sequence.init;
    send_packets = [];
    switcher = cleared heap;
    log = if first == 0 then a.log else posted event_product_id 0 ∷ a.log;
  }

  -- Where the names' blocks can be freed, and `malloc` gives blocks of the sizes asked for,
  -- `Reconnect_` is defined. It leaves a client that is not connected, with the session id of the
  -- handshake and a new window. Then every getter of a value gives none, GetProductId an empty
  -- text, all of it NUL, and GetInputProperties, GetMediaPlayerFileName and the getters of the
  -- vectors give empty ones.
  pub reconnect-IsReset :
      (a : Atem) (first : ℕ) (heap : Heap)
      → ((n : ℕ) → length (w.malloc n) ≡ n)
      → load8 a.switcher.product_id 0 ≡ some first
      → free_files a.switcher.media_player_file a.switcher.heap ≡ some heap
      → (a' : Atem) × (reconnect w a ≡ some a') × IsReset a'
  unfolding reconnect is_connected is_active
  reconnect-IsReset a first heap sizes e0 e1 =
      let c =
        create-fields w.malloc 0x2 0x0B06 20 sizes (omega arith) (omega arith) (omega arith) in
      let stored = store8-set c.0 12 0x01 (omega (arith, c.2)) in
      let head : (j : ℕ) → j < 10 → load8 (set c.0 12 0x01) j ≡ load8 c.0 j =
        λ j h. get_elem?-set_ne c.0 12 j 0x01 (λ e. absurd (omega arith)) in
      let read : Packet.get_length (set c.0 12 0x01) ≡ some 20 =
        same_length_field c.0 (set c.0 12 0x01) head ∙ c.3.length_read in
      let size : length (set c.0 12 0x01) ≡ 20 = length-set c.0 12 0x01 ∙ c.2 in
      (
        record (before_init a first heap) {
          log = sent (set c.0 12 0x01) ∷ (before_init a first heap).log;
        },
        rw (e0, e1, c.1, stored)
            (send_dropped-eq (set c.0 12 0x01) (before_init a first heap) 20 read size),
        record {
          not_active = refl;
          session = refl;
          sequence = refl;
          knows_nothing = cleared-KnowsNothing heap;
        },
      )
