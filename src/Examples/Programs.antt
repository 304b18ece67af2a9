-- ===== src/Examples/Programs.antt =====
-- The example programs on concrete inputs.
use atem_esp_idf.Prelude.{ℕ, zero, suc, ◌≡◌, refl, true, false, some, [], ◌∷◌, arith, ◌&&◌}
use atem_esp_idf.Buffer.{AreBytes}
use atem_esp_idf.State.{is_valid}
use atem_esp_idf.Types.{MixEffect, mix_effect_new}
use atem_esp_idf.Atem.Object.{Atem}
use atem_esp_idf.Atem.Getters.{get_preview_input, is_connected}
use atem_esp_idf.Atem.Vector.{read_at}
use atem_esp_idf.Apps.Boot.{set_ps}
use atem_esp_idf.Apps.PreviewTurn.{Previews, turn_lem}
use atem_esp_idf.Apps.Wifi.{
  System, Reach, start, next, by_handler, by_command, got_ip, handler_step, command_step, boot,
  clear_disconnected, set_connected, clearing,
}
use atem_esp_idf.Apps.WifiBits.{PromptFits, Reach-PromptFits}
use atem_esp_idf.Examples.Packets.{world, session, zeros, zeros-length}

zeros-AreBytes : (n : ℕ) → AreBytes (zeros n)
zeros-AreBytes zero = tt
zeros-AreBytes (suc n) = (omega arith, zeros-AreBytes n)

-- The source 3 is on the preview of the first mix effect.
abbrev previewing : MixEffect
previewing = record mix_effect_new { preview = record { last_change_id = 9; state = 3 } }

abbrev switching : Atem
switching = record session { switcher = record session.switcher { mix_effect = previewing ∷ [] } }

switching_connected : is_connected switching ≡ true
unfolding is_connected
switching_connected = refl

switching_known : get_preview_input switching.switcher 0 ≡ some 3
unfolding get_preview_input read_at is_valid
switching_known = refl

turn_lem_example : Previews world true 0 3 switching
turn_lem_example =
    turn_lem world zeros-length zeros-AreBytes true 0 3 switching switching_connected
      switching_known (omega arith)

-- The command `wifi` while the Wi-Fi is connected, before it clears the first bit.
abbrev rejoining : System
rejoining = record boot {
  wifi = record { connected = true; disconnected = false; reconnect = false; calls = set_ps ∷ [] };
  prompt = clearing;
}

rejoining_reached : Reach rejoining
unfolding handler_step command_step clear_disconnected set_connected
rejoining_reached =
    next
      (next (next (next (next start (by_handler got_ip)) (by_handler got_ip)) by_command)
        by_command)
      by_command

Reach-PromptFits_example :
    ((rejoining.wifi.connected && rejoining.wifi.disconnected) ≡ false)
    × PromptFits rejoining.prompt rejoining.wifi
Reach-PromptFits_example = Reach-PromptFits rejoining rejoining_reached
