-- ===== src/Atem/Events.antt =====
-- include/atem.h: the event ids, and the bits of `event` in `task_`.
use atem_esp_idf.Prelude.{ℕ, of_bool, ltb, ◌<<<◌}

abbrev pub event_aux : ℕ
event_aux = 0

abbrev pub event_dsk : ℕ
event_dsk = 1

abbrev pub event_fade_to_black : ℕ
event_fade_to_black = 2

abbrev pub event_input_properties : ℕ
event_input_properties = 3

abbrev pub event_usk : ℕ
event_usk = 4

abbrev pub event_usk_dve : ℕ
event_usk_dve = 5

abbrev pub event_media_player : ℕ
event_media_player = 6

abbrev pub event_media_pool : ℕ
event_media_pool = 7

abbrev pub event_product_id : ℕ
event_product_id = 8

abbrev pub event_protocol_version : ℕ
event_protocol_version = 9

abbrev pub event_source : ℕ
event_source = 10

abbrev pub event_stream : ℕ
event_stream = 11

abbrev pub event_topology : ℕ
event_topology = 12

abbrev pub event_transition_position : ℕ
event_transition_position = 13

abbrev pub event_transition_state : ℕ
event_transition_state = 14

-- `1 << event`.
abbrev pub bit_of : ℕ → ℕ
bit_of event = 1 <<< event

-- `1 < event`, as the handler of KeFS has it.
abbrev pub less_of : ℕ → ℕ
less_of event = of_bool (ltb 1 event)
