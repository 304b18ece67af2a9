-- ===== src/Apps/Wifi.antt =====
-- example/atem-console/main/wifi.cpp: the handlers of the Wi-Fi events, and the command `wifi`. The
-- handlers run in the event loop's task, between any two steps of the command.
use atem_esp_idf.Prelude.{Bool, true, false, List, [], ◌∷◌, if◌then◌else◌}
use atem_esp_idf.Apps.Boot.{Call, wifi_connect, wifi_disconnect, set_ps, set_mode_sta, set_config}

-- The bits of `wifi_event_group`, and `reconnect`.
pub record Wifi : Type 0 where
  pub connected : Bool
  pub disconnected : Bool
  pub reconnect : Bool
  pub calls : List Call

abbrev pub initial : Wifi
initial = record { connected = false; disconnected = false; reconnect = true; calls = [] }

-- The steps that change the bits, in the handlers and in the command.
unfoldable pub clear_connected : Wifi → Wifi
clear_connected s = record s { connected = false }

unfoldable pub set_connected : Wifi → Wifi
set_connected s = record s { connected = true }

unfoldable pub clear_disconnected : Wifi → Wifi
clear_disconnected s = record s { disconnected = false }

unfoldable pub set_disconnected : Wifi → Wifi
set_disconnected s = record s { disconnected = true }

unfoldable pub connect : Wifi → Wifi
connect s = record s { calls = wifi_connect ∷ s.calls }

-- Where the event loop's task stands: between two events, or before the second step of
-- `got_ip_handler`, or before the second or the third of `disconnect_handler`.
pub data Handler : Type 0 where
  idle getting_ip losing lost : Handler

-- The events that the handlers are registered for.
pub data Event : Type 0 where
  got_ip disconnected : Event

-- One step of a handler; between two events, the next event chooses.
unfoldable pub handler_step : Handler → Event → Wifi → Wifi × Handler
unfolding clear_connected set_connected clear_disconnected set_disconnected connect
handler_step idle got_ip s = (clear_disconnected s, getting_ip)
handler_step getting_ip _ s = (set_connected s, idle)
handler_step idle disconnected s = (if s.reconnect then connect s else s, losing)
handler_step losing _ s = (clear_connected s, lost)
handler_step lost _ s = (set_disconnected s, idle)

-- Where `wifi_cmd` stands: at the prompt, or before the step named. At `joining` with whether
-- `bits` showed a connection when it was read, so that the first branch was taken.
pub data Prompt : Type 0 where
  ready reading holding clearing dropping waiting configuring connecting awaiting : Prompt
  joining : Bool → Prompt

abbrev pub call : Call → Wifi → Wifi
call c s = record s { calls = c ∷ s.calls }

-- One step of `wifi_cmd`, on arguments that parse, where the calls that it checks succeed. A wait
-- ends with the bit or with its time.
unfoldable pub command_step : Prompt → Wifi → Wifi × Prompt
unfolding clear_connected connect
command_step ready s = (call set_ps s, reading)
command_step reading s = (s, if s.connected then holding else joining false)
command_step holding s = (record s { reconnect = false }, clearing)
command_step clearing s = (clear_connected s, dropping)
command_step dropping s = (call wifi_disconnect s, waiting)
command_step waiting s = (s, joining true)
command_step (joining _) s = (record s { reconnect = true }, configuring)
command_step configuring s = (call set_config (call set_mode_sta s), connecting)
command_step connecting s = (connect s, awaiting)
command_step awaiting s = (s, ready)

pub record System : Type 0 where
  pub wifi : Wifi
  pub handler : Handler
  pub prompt : Prompt

abbrev pub boot : System
boot = record { wifi = initial; handler = idle; prompt = ready }

pub data Step (s : System) : System → Type 0 where
  by_handler :
      (e : Event)
      → Step s (record s {
        wifi = (handler_step s.handler e s.wifi).0;
        handler = (handler_step s.handler e s.wifi).1;
      })
  by_command : Step s (record s {
    wifi = (command_step s.prompt s.wifi).0;
    prompt = (command_step s.prompt s.wifi).1;
  })

pub data Reach : System → Type 0 where
  start : Reach boot
  next : {s t : System} → Reach s → Step s t → Reach t
