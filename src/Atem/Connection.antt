-- ===== src/Atem/Connection.antt =====
-- src/atem.cpp: the constructor, the destructor, `SendPacket_`, `Reconnect_` and `SendCommands`.
use atem_esp_idf.Prelude.{
  ℕ, ◌+◌, ◌-◌, Bool, true, false, Option, none, some, List, [], ◌∷◌, ◌++◌, leb, ◌==◌, not, ◌&&◌,
  if◌then◌else◌, u16, length, take, ◌>>=◌,
}
use atem_esp_idf.Buffer.{Bytes, load8, store8, copy_to, copy_from}
use atem_esp_idf.Sequence
use atem_esp_idf.State.{AtemState, is_valid, get}
use atem_esp_idf.Types.{ProtocolVersion}
use atem_esp_idf.Packet
use atem_esp_idf.Command
use atem_esp_idf.Command.Classes.{Command, prepair_command}
use atem_esp_idf.Atem.Object.{Atem, Effect, sent, posted, Heap, free, cleared, initial, connected}
use atem_esp_idf.Atem.Events.{event_product_id}

-- What the code gets from outside: the block that `malloc` returns for a size, and the result of
-- `send` for the bytes, after the effects so far (`none` is -1).
pub record World : Type 0 where
  pub malloc : ℕ → Bytes
  pub send : List Effect → Bytes → Option ℕ

pub data EspErr : Type 0 where
  esp_ok esp_fail esp_err_invalid_arg esp_err_timeout : EspErr

-- The `free` of each valid name.
unfoldable pub free_files : List (ℕ × AtemState ℕ) → Heap → Option Heap
free_files [] heap = some heap
free_files ((index, file) ∷ files) heap = do
  heap' ← (if is_valid file then free (get file) heap else some heap)
  free_files files heap'

-- `++local_id_`, in 16 bits.
abbrev pub next_local_id : Atem → ℕ
next_local_id a = u16 (a.local_id + 1)

module _ (w : World) where
  -- `SendPacket_`: true for ESP_OK. All of the packet's length is read.
  unfoldable pub send_packet : Bytes → Atem → Option (Bool × Atem)
  send_packet packet a = do
    n ← Packet.get_length packet
    data' ← copy_from packet 0 n
    let ok : Bool = elim (w.send a.log data') [ none ↦ false | some k ↦ k == n ]
    some (ok, record a { log = sent data' ∷ a.log })

  -- The same, where the result is dropped.
  unfoldable pub send_dropped : Bytes → Atem → Option Atem
  send_dropped packet a = do r ← send_packet packet a; some r.1

  abbrev pub init_session : ℕ
  init_session = 0x0B06

  unfoldable pub reconnect : Atem → Option Atem
  reconnect a = do
    first ← load8 a.switcher.product_id 0
    heap ← free_files a.switcher.media_player_file a.switcher.heap
    let reset = record a {
      state = connected;
      session_id = init_session;
      local_id = 0;
      remote_id = 0;
      sequence = Sequence.init;
      send_packets = [];
      switcher = cleared heap;
      log = if first == 0 then a.log else posted event_product_id 0 ∷ a.log;
    }
    packet ← Packet.create w.malloc 0x2 init_session 20
    packet ← store8 packet 12 0x01
    send_dropped packet reset

  -- What the constructor's calls of the network return: no address, or whether `socket` and
  -- `connect` succeed for each address in turn; and whether the task is created.
  unfoldable pub any_connects : List (Bool × Bool) → Bool
  any_connects [] = false
  any_connects ((socket_ok, connect_ok) ∷ rest) =
      let later = any_connects rest in if socket_ok && connect_ok then true else later

  unfoldable pub construct : ℕ → Option (List (Bool × Bool)) → Bool → Option Atem
  construct session_id none task_created = some (initial session_id)
  construct session_id (some addresses) task_created =
      if any_connects addresses && task_created
      then reconnect (initial session_id)
      else some (initial session_id)

  -- The destructor, on the members that it clears.
  unfoldable pub destroy : Atem → Option Atem
  destroy a = do
    heap ← free_files a.switcher.media_player_file a.switcher.heap
    some (record a {
      send_packets = [];
      switcher = record a.switcher { media_player_file = []; heap = heap };
    })

-- A command object: its class with the arguments, and its block.
pub record CommandObject : Type 0 where
  pub command : Command
  pub block : Bytes

-- The first loop: 12 and the lengths of the commands that are not `nullptr`, in 16 bits.
unfoldable pub total_length : ℕ → List (Option CommandObject) → Option ℕ
total_length n [] = some n
total_length n (none ∷ cs) = total_length n cs
total_length n (some c ∷ cs) = do k ← Command.get_length c.block 0; total_length (u16 (n + k)) cs

-- The second loop: each command is prepared and copied to the packet at `i`.
unfoldable pub copy_commands :
    ProtocolVersion → ℕ → Bytes → List (Option CommandObject) → Option (ℕ × Bytes)
copy_commands ver i packet [] = some (i, packet)
copy_commands ver i packet (none ∷ cs) = copy_commands ver i packet cs
copy_commands ver i packet (some c ∷ cs) = do
  block ← prepair_command c.command ver c.block
  k ← Command.get_length block 0
  bytes ← copy_from block 0 k
  packet' ← copy_to packet i bytes
  copy_commands ver (u16 (i + k)) packet' cs

abbrev pub max_send_packets : ℕ
max_send_packets = 32

-- `send_packets_.pop_back()` at 32 packets, then `push_back`.
unfoldable pub store_packet : Bytes → List Bytes → List Bytes
store_packet packet ps =
    let kept = if leb max_send_packets (length ps) then take (length ps - 1) ps else ps in
    kept ++ packet ∷ []

-- `SendCommands`, with whether `send_mutex_` is got in time.
unfoldable pub send_commands :
    World → Bool → List (Option CommandObject) → Atem → Option (EspErr × Atem)
send_commands w locked commands a = do
  n ← total_length 12 commands
  let work : Option (EspErr × Atem) = (do
    packet ← Packet.create w.malloc 0x1 a.session_id n
    let a' = record a { local_id = next_local_id a }
    packet ← Packet.set_id packet a'.local_id
    (i, packet) ← copy_commands (get a.switcher.version) 12 packet commands
    let send : Option (EspErr × Atem) = (do
      (ok, a'') ← send_packet w packet a'
      let stored : EspErr × Atem =
          (esp_ok, record a'' { send_packets = store_packet packet a''.send_packets })
      let result : EspErr × Atem = if locked then stored else (esp_err_timeout, a'')
      some (if ok then result else (esp_fail, a'')))
    if not (i == n) then some (esp_fail, a') else send)
  if n == 12 then some (esp_err_invalid_arg, a) else work
