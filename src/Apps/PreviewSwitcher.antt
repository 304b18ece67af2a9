-- ===== src/Apps/PreviewSwitcher.antt =====
-- example/basic-preview-switcher/main/main.cpp: each second the next source goes to the preview of
-- the first mix effect. The source passes `&preview_source` to a parameter that is a reference; what
-- is meant, and modelled, is the variable itself.
use atem_esp_idf.Prelude.{
  ◌+◌, Bool, true, false, Option, none, some, List, [], ◌∷◌, if◌then◌else◌, ◌>>=◌, u16, ◌&&◌,
}
use atem_esp_idf.Types.{Source}
use atem_esp_idf.Command.Classes.{preview_input, construct}
use atem_esp_idf.Atem.Object.{Atem, find}
use atem_esp_idf.Atem.Getters.{is_connected, get_preview_input, get_input_properties}
use atem_esp_idf.Atem.Connection.{World, CommandObject, send_commands}
use atem_esp_idf.Apps.Boot.{Call, wifi_connect}

-- The events that `event_handler` is registered for.
pub data WifiEvent : Type 0 where
  sta_start sta_disconnected got_ip other_event : WifiEvent

unfoldable pub event_handler : WifiEvent → List Call → List Call
event_handler sta_start calls = wifi_connect ∷ calls
event_handler sta_disconnected calls = wifi_connect ∷ calls
event_handler got_ip calls = calls
event_handler other_event calls = calls

-- `Source::BLACK`.
abbrev pub black : Source
black = 0

abbrev pub is_some {ℓ} : {A : Type ℓ} → Option A → Bool
is_some none = false
is_some (some _) = true

-- "Check if the next source is valid for this ATEM".
unfoldable pub next_source : Source → Atem → Source
next_source source a =
    let next = u16 (source + 1) in
    if is_some (find next (get_input_properties a.switcher)) then next else black

-- One round of the loop: whether the state's mutex is got, and whether `SendCommands` gets its own.
-- With `preview_source` as it is before and after.
unfoldable pub turn : World → (locked send_locked : Bool) → Source → Atem → Option (Source × Atem)
turn w locked send_locked preview_source a =
    let work : Option (Source × Atem) = elim (get_preview_input a.switcher 0) [
      | none ↦ some (preview_source, a)
      | some source ↦ do
        let next = next_source source a
        block ← construct w.malloc (preview_input next 0)
        let object : CommandObject = record { command = preview_input next 0; block = block }
        (result, a) ← send_commands w send_locked (some object ∷ []) a
        some (next, a)
    ] in
    if is_connected a && locked then work else some (preview_source, a)
