-- ===== src/Examples/Commands.antt =====
-- What commands change and raise, on concrete packets.
use atem_esp_idf.Prelude.{
  ℕ, ◌≡◌, refl, true, some, [], ◌∷◌, arith, if◌then◌else◌, ◌==◌, ◌||◌, ◌&&◌, not,
}
use atem_esp_idf.Prelude.Bits.{bit}
use atem_esp_idf.State.{put, set}
use atem_esp_idf.Types.{mix_effect_new}
use atem_esp_idf.Command
use atem_esp_idf.Command.{get_cmd, get_data, get_data_s}
use atem_esp_idf.Packet
use atem_esp_idf.Packet.Iterator.{for_commands, walk, next, begin}
use atem_esp_idf.Atem.Object.{Atem, Switcher, cleared, posted}
use atem_esp_idf.Atem.Events.{bit_of, event_source}
use atem_esp_idf.Atem.Getters.{is_active}
use atem_esp_idf.Atem.Vector.{update}
use atem_esp_idf.Atem.Task.{on_payload, post_events, post_from}
use atem_esp_idf.Atem.Dispatch.{prvi, handle, parse_packet, on_command, kind_of}
use atem_esp_idf.Atem.Handlers.MixEffects.{write_me, on_prgi, on_prvi}
use atem_esp_idf.Atem.Touches.{Touches, handle-Touches}
use atem_esp_idf.Atem.Raises.Posted.{is_raised, announce, on_payload-announce}
use atem_esp_idf.Atem.ReadBack.Getters.{single_prvi, AreRecent, ReadsBack}
use atem_esp_idf.Atem.ReadBack.Getters.Handled.{handle-ReadsBack}
use atem_esp_idf.Examples.Packets.{world, session}
use atem_esp_idf.Examples.Switchers.{two_mix_effects, ninth, source_command}
use atem_esp_idf.Examples.Tasks.{packet, packet_flags, packet_id}
use atem_esp_idf.Examples.Reached.{prgi_block, packet-Laid}

-- The preview of the mix effect 1 is the source 3.
abbrev previewed : Switcher
previewed = record (cleared []) {
  mix_effect =
      mix_effect_new
      ∷ record mix_effect_new { preview = record { last_change_id = 9; state = 3 } }
      ∷ [];
}

preview_handled :
    handle ninth source_command prvi 0 two_mix_effects ≡ some (bit_of event_source, previewed)
unfolding handle on_prvi write_me get_data get_data_s put set update
preview_handled = refl

handle-Touches_example : Touches prvi source_command 0 two_mix_effects previewed
handle-Touches_example =
    handle-Touches ninth source_command 0 two_mix_effects (bit_of event_source) previewed prvi
      preview_handled

packet_length : Packet.get_length packet ≡ some 24
unfolding Packet.get_length
packet_length = refl

-- The switcher has no mix effect, and the event is posted.
abbrev announced : Atem
announced = record session { log = posted 10 2 ∷ [] }

payload_is : on_payload world packet 24 true 0 session ≡ some (0, announced)
unfolding on_payload parse_packet on_command kind_of handle on_prgi get_cmd get_data for_commands
    walk next Command.get_length Packet.get_flags Packet.get_length Packet.get_id is_active
    post_events post_from
payload_is = refl

on_payload-announce_example :
    (announced.log ≡ (
      if is_active session.state
      then announce 32 0 packet (prgi_block ∷ []) 2 session.log
      else session.log))
    × ((j : ℕ)
        → (bit 0 j == 1) ≡ (
            (bit 0 j == 1)
            || (not (is_active session.state) && is_raised j packet begin (prgi_block ∷ []))))
on_payload-announce_example =
    on_payload-announce world packet 24 0 session 0x1 2 24 (prgi_block ∷ []) 0 announced
      (omega arith) packet_flags refl packet_id packet_length (omega arith) (omega arith)
      (record { has_length = omega arith; own_length = refl }, tt) packet-Laid payload_is

previews_recent : AreRecent single_prvi ninth two_mix_effects
previews_recent = (omega arith, (omega arith, tt))

handle-ReadsBack_example : ReadsBack single_prvi source_command 0 two_mix_effects previewed
handle-ReadsBack_example =
    handle-ReadsBack ninth (omega arith) source_command 0 two_mix_effects single_prvi
      (bit_of event_source) previewed previews_recent preview_handled
