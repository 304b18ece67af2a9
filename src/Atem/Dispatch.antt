-- ===== src/Atem/Dispatch.antt =====
-- The `switch` on the command's name in `Atem::task_`, and the loop over a packet's commands.
use atem_esp_idf.Prelude.{ℕ, Option, some, ◌==◌, if◌then◌else◌, bit_or, ◌>>=◌}
use atem_esp_idf.Buffer.{Bytes}
use atem_esp_idf.Sequence.{SequenceCheck}
use atem_esp_idf.Command.{atem_cmd, get_cmd}
use atem_esp_idf.Packet.Iterator.{for_commands}
use atem_esp_idf.Atem.Object.{Switcher}
use atem_esp_idf.Atem.Handlers.Device.{
  Handled, on_mpl, on_mec, on_ver, on_pin, on_top, on_inpr, on_strs,
}
use atem_esp_idf.Atem.Handlers.Media.{on_mpce, on_mpfe}
use atem_esp_idf.Atem.Handlers.MixEffects.{on_auxs, on_ftbs, on_prgi, on_prvi, on_trps, on_trss}
use atem_esp_idf.Atem.Handlers.Keyers.{
  on_dskb, on_dskp, on_dsks, on_kebp, on_kedv, on_kefs, on_keon,
}

-- The labels of the `switch`.
pub data Kind : Type 0 where
  mpl mec ver pin top auxs dskb dskp dsks ftbs inpr kebp kedv kefs keon mpce mpfe prgi prvi strs
        trps trss other :
      Kind

unfoldable pub kind_of : ℕ → Kind
kind_of cmd =
    if cmd == atem_cmd b'_' b'm' b'p' b'l'
    then mpl
    else if cmd == atem_cmd b'_' b'M' b'e' b'C'
    then mec
    else if cmd == atem_cmd b'_' b'v' b'e' b'r'
    then ver
    else if cmd == atem_cmd b'_' b'p' b'i' b'n'
    then pin
    else if cmd == atem_cmd b'_' b't' b'o' b'p'
    then top
    else if cmd == atem_cmd b'A' b'u' b'x' b'S'
    then auxs
    else if cmd == atem_cmd b'D' b's' b'k' b'B'
    then dskb
    else if cmd == atem_cmd b'D' b's' b'k' b'P'
    then dskp
    else if cmd == atem_cmd b'D' b's' b'k' b'S'
    then dsks
    else if cmd == atem_cmd b'F' b't' b'b' b'S'
    then ftbs
    else if cmd == atem_cmd b'I' b'n' b'P' b'r'
    then inpr
    else if cmd == atem_cmd b'K' b'e' b'B' b'P'
    then kebp
    else if cmd == atem_cmd b'K' b'e' b'D' b'V'
    then kedv
    else if cmd == atem_cmd b'K' b'e' b'F' b'S'
    then kefs
    else if cmd == atem_cmd b'K' b'e' b'O' b'n'
    then keon
    else if cmd == atem_cmd b'M' b'P' b'C' b'E'
    then mpce
    else if cmd == atem_cmd b'M' b'P' b'f' b'e'
    then mpfe
    else if cmd == atem_cmd b'P' b'r' b'g' b'I'
    then prgi
    else if cmd == atem_cmd b'P' b'r' b'v' b'I'
    then prvi
    else if cmd == atem_cmd b'S' b't' b'R' b'S'
    then strs
    else if cmd == atem_cmd b'T' b'r' b'P' b's'
    then trps
    else if cmd == atem_cmd b'T' b'r' b'S' b'S'
    then trss
    else other

module _ (sequence : SequenceCheck) (m : Bytes) where
  unfoldable pub handle : Kind → ℕ → Switcher → Handled
  handle mpl = on_mpl sequence m
  handle mec = on_mec sequence m
  handle ver = on_ver sequence m
  handle pin = on_pin sequence m
  handle top = on_top sequence m
  handle auxs = on_auxs sequence m
  handle dskb = on_dskb sequence m
  handle dskp = on_dskp sequence m
  handle dsks = on_dsks sequence m
  handle ftbs = on_ftbs sequence m
  handle inpr = on_inpr sequence m
  handle kebp = on_kebp sequence m
  handle kedv = on_kedv sequence m
  handle kefs = on_kefs sequence m
  handle keon = on_keon sequence m
  handle mpce = on_mpce sequence m
  handle mpfe = on_mpfe sequence m
  handle prgi = on_prgi sequence m
  handle prvi = on_prvi sequence m
  handle strs = on_strs sequence m
  handle trps = on_trps sequence m
  handle trss = on_trss sequence m
  handle other = λ base s. some (0, s)

  -- One command: the bits that it sets join `event`.
  unfoldable pub on_command : ℕ → ℕ × Switcher → Option (ℕ × Switcher)
  on_command base (event, s) = do
    cmd ← get_cmd m base
    (bits, s') ← handle (kind_of cmd) base s
    some (bit_or event bits, s')

  -- The commands of the packet, from no event.
  unfoldable pub parse_packet : Switcher → Option (ℕ × Switcher)
  parse_packet s = for_commands on_command m (0, s)
