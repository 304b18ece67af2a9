-- ===== src/Examples/Switchers.antt =====
-- Commands of the switcher on a concrete model of it.
use atem_esp_idf.Prelude.{ℕ, ◌≡◌, ◌≢◌, ◌<◌, refl, true, false, some, [], ◌∷◌, arith}
use atem_esp_idf.Buffer.{Bytes}
use atem_esp_idf.Sequence.{SequenceCheck}
use atem_esp_idf.State.{is_valid, put, set, unset}
use atem_esp_idf.Types.{MixEffect, mix_effect_new, dsk_new, topology_zero, media_player_source_zero}
use atem_esp_idf.Command.{get_data, get_data_s}
use atem_esp_idf.Atem.Object.{Switcher, cleared}
use atem_esp_idf.Atem.Getters.{get_usk_on_air}
use atem_esp_idf.Atem.Events.{bit_of, event_topology, event_usk}
use atem_esp_idf.Atem.Vector.{resize}
use atem_esp_idf.Atem.Dispatch.{top, handle}
use atem_esp_idf.Atem.Handlers.Device.{on_top}
use atem_esp_idf.Atem.Handlers.Keyers.{on_keon}
use atem_esp_idf.Atem.OnAir.{get_usk_on_air-on_keon}
use atem_esp_idf.Atem.Sizes.{SizesAfter, handle-sizes}

abbrev pub two_mix_effects : Switcher
two_mix_effects = record (cleared []) { mix_effect = mix_effect_new ∷ mix_effect_new ∷ [] }

-- A packet with the id 9 was the last.
abbrev pub ninth : SequenceCheck
ninth = record { offset = 9; last_id = 9; received = 0xFFFFFFFF }

-- The source 3 on the mix effect 1.
abbrev pub source_command : Bytes
source_command = 0 ∷ 12 ∷ 0 ∷ 0 ∷ b'P' ∷ b'r' ∷ b'v' ∷ b'I' ∷ 1 ∷ 0 ∷ 0 ∷ 3 ∷ []

mix_effect_read : get_data source_command 0 0 ≡ some 1
unfolding get_data
mix_effect_read = refl

source_read : get_data_s source_command 0 1 ≡ some 3
unfolding get_data_s
source_read = refl

abbrev top_command : Bytes
top_command =
    0 ∷ 28 ∷ 0 ∷ 0 ∷ b'_' ∷ b't' ∷ b'o' ∷ b'p' ∷ 1 ∷ 20 ∷ 2 ∷ 3 ∷ 0 ∷ 2 ∷ 0 ∷ 0 ∷ 0 ∷ 1 ∷ 0 ∷ 0 ∷ 0
    ∷ 1 ∷ 0 ∷ 0 ∷ 0 ∷ 0 ∷ 0 ∷ 0 ∷ []

abbrev topped : Switcher
topped = record (cleared []) {
  topology = record {
    last_change_id = 9;
    state = record topology_zero {
      me = 1;
      sources = 20;
      dsk = 2;
      aux = 3;
      mediaplayers = 2;
      dve = 1;
      talkback_channels = 1;
    };
  };
  mix_effect = mix_effect_new ∷ [];
  dsk = dsk_new ∷ dsk_new ∷ [];
  aux_out = unset 0 ∷ unset 0 ∷ unset 0 ∷ [];
  media_player_source = unset media_player_source_zero ∷ unset media_player_source_zero ∷ [];
}

top_handled : handle ninth top_command top 0 (cleared []) ≡ some (bit_of event_topology, topped)
unfolding handle on_top get_data put set resize
top_handled = refl

handle-sizes_example : SizesAfter top top_command 0 (cleared []) topped
handle-sizes_example =
    handle-sizes ninth top_command 0 (cleared []) (bit_of event_topology) topped top top_handled

-- The keyers 0 and 1 are on air.
abbrev on_air : MixEffect
on_air = record mix_effect_new { usk_on_air = record { last_change_id = 3; state = 3 } }

abbrev keyed : Switcher
keyed = record (cleared []) { mix_effect = on_air ∷ [] }

-- The keyer 1 goes off.
abbrev keon_command : Bytes
keon_command = 0 ∷ 12 ∷ 0 ∷ 0 ∷ b'K' ∷ b'e' ∷ b'O' ∷ b'n' ∷ 0 ∷ 1 ∷ 0 ∷ 0 ∷ []

keon_data :
    (get_data keon_command 0 0 ≡ some 0)
    × (get_data keon_command 0 1 ≡ some 1)
    × (get_data keon_command 0 2 ≡ some 0)
unfolding get_data
keon_data = (refl, refl, refl)

on_air-valid : is_valid on_air.usk_on_air ≡ true
unfolding is_valid
on_air-valid = refl

get_usk_on_air-on_keon_example :
    (s' : Switcher) × (on_keon ninth keon_command 0 keyed ≡ some (bit_of event_usk, s'))
    × (get_usk_on_air s' 0 1 ≡ some false)
    × ((other : ℕ)
        → 1 ≢ other
        → other < 16
        → get_usk_on_air s' 0 other ≡ get_usk_on_air keyed 0 other)
get_usk_on_air-on_keon_example =
    get_usk_on_air-on_keon ninth keon_command 0 keyed 0 1 0 on_air keon_data.0 keon_data.1
      keon_data.2 (omega arith) (omega arith) refl (omega arith) on_air-valid (omega arith)
      (omega arith)
