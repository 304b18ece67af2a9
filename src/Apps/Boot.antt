-- ===== src/Apps/Boot.antt =====
-- What the examples' `app_main` and `wifi_init` ask of the ESP-IDF when they start. The results of
-- the calls are a parameter.
use atem_esp_idf.Prelude.{
  Bool, true, false, Option, none, some, List, [], ◌∷◌, if◌then◌else◌, ◌>>=◌,
}

-- The calls, in the order of their first use.
pub data Call : Type 0 where
  log_level_set : Call
  nvs_flash_init nvs_flash_erase : Call
  event_loop_create netif_init : Call
  event_group_create netif_create_sta : Call
  wifi_init register_disconnected register_got_ip register_any_wifi register_atem : Call
  set_storage set_mode_null set_mode_sta set_config set_ps : Call
  wifi_start wifi_connect wifi_disconnect : Call
  register_command new_repl start_repl : Call

pub data EspResult : Type 0 where
  ok no_free_pages new_version_found other_error : EspResult

abbrev pub is_ok : EspResult → Bool
is_ok ok = true
is_ok _ = false

-- The result of a call after the calls so far, the latest first.
abbrev pub Esp : Type 0
Esp = List Call → Call → EspResult

module _ (esp : Esp) where
  -- A call whose result is dropped.
  abbrev pub call : Call → List Call → List Call
  call c calls = c ∷ calls

  -- `ESP_ERROR_CHECK`: the program aborts, `none`, unless the call succeeds.
  unfoldable pub checked : Call → List Call → Option (List Call)
  checked c calls = if is_ok (esp calls c) then some (c ∷ calls) else none

  unfoldable pub checked_all : List Call → List Call → Option (List Call)
  checked_all [] calls = some calls
  checked_all (c ∷ cs) calls = do calls' ← checked c calls; checked_all cs calls'

  abbrev pub wants_erase : EspResult → Bool
  wants_erase no_free_pages = true
  wants_erase new_version_found = true
  wants_erase _ = false

  -- "Setup NVS", in both programs.
  unfoldable pub init_nvs : List Call → Option (List Call)
  init_nvs calls =
      let ret = esp calls nvs_flash_init in
      let again = checked_all (nvs_flash_erase ∷ nvs_flash_init ∷ []) (nvs_flash_init ∷ calls) in
      let once : Option (List Call) = if is_ok ret then some (nvs_flash_init ∷ calls) else none in
      if wants_erase ret then again else once

  -- example/basic-preview-switcher/main/main.cpp: `wifi_init`.
  unfoldable pub switcher_wifi_init : List Call → Option (List Call)
  switcher_wifi_init calls =
      checked_all
        (wifi_init ∷ register_any_wifi ∷ register_got_ip ∷ set_mode_sta ∷ set_config ∷ wifi_start
          ∷ [])
        (netif_create_sta ∷ calls)

  -- `app_main`, up to the connection with the ATEM.
  unfoldable pub switcher_boot : List Call → Option (List Call)
  switcher_boot calls = do
    calls ← init_nvs calls
    calls ← checked_all (event_loop_create ∷ netif_init ∷ []) calls
    switcher_wifi_init calls

  -- example/atem-console/main/wifi.cpp: `wifi_init`. `initialized` is its static
  -- variable, and `assert` checks the interface.
  unfoldable pub console_wifi_init : Bool → List Call → Option (Bool × List Call)
  console_wifi_init initialized calls =
      let work : Option (Bool × List Call) = (do
        calls ←
            checked_all
              (netif_create_sta ∷ wifi_init ∷ register_disconnected ∷ register_got_ip ∷ set_storage
                ∷ set_mode_null ∷ wifi_start ∷ register_command ∷ [])
              (event_group_create ∷ calls)
        some (true, calls)) in
      if initialized then some (initialized, calls) else work

  -- example/atem-console/main/main.cpp: `app_main`.
  unfoldable pub console_boot : Bool → List Call → Option (Bool × List Call)
  console_boot initialized calls = do
    calls ← init_nvs (log_level_set ∷ log_level_set ∷ log_level_set ∷ calls)
    calls ← checked_all (event_loop_create ∷ netif_init ∷ []) calls
    (initialized, calls) ← console_wifi_init initialized calls
    calls ← checked_all (register_atem ∷ register_command ∷ new_repl ∷ start_repl ∷ []) calls
    some (initialized, calls)
