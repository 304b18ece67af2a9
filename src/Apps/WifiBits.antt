-- ===== src/Apps/WifiBits.antt =====
-- The bits of the Wi-Fi event group over any interleaving of the handlers and the command.
use atem_esp_idf.Prelude.{◌≡◌, refl, true, false, not, ◌&&◌, arith}
use atem_esp_idf.Apps.Wifi.{
  Wifi, Handler, idle, getting_ip, losing, lost, Event, got_ip, disconnected, handler_step, Prompt,
  ready, reading, holding, clearing, dropping, waiting, joining, configuring, connecting, awaiting,
  command_step, System, Step, by_handler, by_command, Reach, start, next,
}

-- What the handler's own position says of the bits.
abbrev pub HandlerFits : Handler → Wifi → Type 0
HandlerFits idle s = (s.connected && s.disconnected) ≡ false
HandlerFits getting_ip s = s.disconnected ≡ false
HandlerFits losing s = (s.connected && s.disconnected) ≡ false
HandlerFits lost s = s.connected ≡ false

-- `reconnect` is off from the line of the first branch that clears it to the line that sets it,
-- and on where the command has not taken that branch.
abbrev pub PromptFits : Prompt → Wifi → Type 0
PromptFits clearing s = s.reconnect ≡ false
PromptFits dropping s = s.reconnect ≡ false
PromptFits waiting s = s.reconnect ≡ false
PromptFits (joining left) s = s.reconnect ≡ not left
PromptFits _ s = s.reconnect ≡ true

pub record IsSafe (s : System) : Type 0 where
  pub handler_fits : HandlerFits s.handler s.wifi
  pub prompt_fits : PromptFits s.prompt s.wifi
  pub not_both : (s.wifi.connected && s.wifi.disconnected) ≡ false

handler-fits :
    (h : Handler) (e : Event) (s : Wifi)
    → HandlerFits h s
    → (s.connected && s.disconnected) ≡ false
    → HandlerFits (handler_step h e s).1 (handler_step h e s).0
      × (((handler_step h e s).0.connected && (handler_step h e s).0.disconnected) ≡ false)
      × ((handler_step h e s).0.reconnect ≡ s.reconnect)
unfolding handler_step
handler-fits idle got_ip s f b = ground arith
handler-fits idle disconnected s f b = ground arith
handler-fits getting_ip e s f b = ground arith
handler-fits losing e s f b = ground arith
handler-fits lost e s f b = ground arith

-- The handlers leave `reconnect`, so the command's own position still fits.
PromptFits-same :
    (p : Prompt) (s t : Wifi) → t.reconnect ≡ s.reconnect → PromptFits p s → PromptFits p t
PromptFits-same ready s t e f = cc
PromptFits-same reading s t e f = cc
PromptFits-same holding s t e f = cc
PromptFits-same clearing s t e f = cc
PromptFits-same dropping s t e f = cc
PromptFits-same waiting s t e f = cc
PromptFits-same (joining left) s t e f = cc
PromptFits-same configuring s t e f = cc
PromptFits-same connecting s t e f = cc
PromptFits-same awaiting s t e f = cc

-- What a step of the command does to the bits: it may clear the first.
record Clears (s t : Wifi) : Type 0 where
  first : (t.connected && s.connected) ≡ t.connected
  second : t.disconnected ≡ s.disconnected

command-Clears : (p : Prompt) (s : Wifi) → Clears s (command_step p s).0
unfolding command_step
command-Clears p s = ground arith

command-PromptFits :
    (p : Prompt) (s : Wifi) → PromptFits p s → PromptFits (command_step p s).1 (command_step p s).0
unfolding command_step
command-PromptFits p s f = ground arith

HandlerFits-Clears : (h : Handler) (s t : Wifi) → Clears s t → HandlerFits h s → HandlerFits h t
HandlerFits-Clears idle s t c f = ground arith
HandlerFits-Clears getting_ip s t c f = ground arith
HandlerFits-Clears losing s t c f = ground arith
HandlerFits-Clears lost s t c f = ground arith

not_both-Clears :
    (s t : Wifi)
    → Clears s t
    → (s.connected && s.disconnected) ≡ false
    → (t.connected && t.disconnected) ≡ false
not_both-Clears s t c b = ground arith

Step-IsSafe : (s t : System) → Step s t → IsSafe s → IsSafe t
Step-IsSafe s t (by_handler e) safe =
    let r = handler-fits s.handler e s.wifi safe.handler_fits safe.not_both in
    record {
      handler_fits = r.0;
      prompt_fits =
          PromptFits-same s.prompt s.wifi (handler_step s.handler e s.wifi).0 r.2 safe.prompt_fits;
      not_both = r.1;
    }
Step-IsSafe s t by_command safe =
    let c = command-Clears s.prompt s.wifi in
    record {
      handler_fits =
          HandlerFits-Clears s.handler s.wifi (command_step s.prompt s.wifi).0 c safe.handler_fits;
      prompt_fits = command-PromptFits s.prompt s.wifi safe.prompt_fits;
      not_both = not_both-Clears s.wifi (command_step s.prompt s.wifi).0 c safe.not_both;
    }

-- However the steps of the handlers and of the command follow each other, from the start of the
-- program, the group never shows connected and disconnected at once; and `reconnect` is off from the
-- line of the command that clears it, where the bits showed a connection, to the line that sets it,
-- and on everywhere else: at the prompt, and before that second line where no connection was shown.
pub Reach-PromptFits :
    (s : System)
    → Reach s
    → ((s.wifi.connected && s.wifi.disconnected) ≡ false) × PromptFits s.prompt s.wifi
Reach-PromptFits s r = let safe = keeps s r in (safe.not_both, safe.prompt_fits)
  where
    keeps : (t : System) → Reach t → IsSafe t
    keeps t start = record { handler_fits = refl; prompt_fits = refl; not_both = refl }
    keeps t (next {s = u} q st) = Step-IsSafe u t st (keeps u q)
