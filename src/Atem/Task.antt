-- ===== src/Atem/Task.antt =====
-- src/atem.cpp: one round of the loop of `Atem::task_`. What `recv` and the semaphores return is
-- the round's input.
use atem_esp_idf.Prelude.{
  ℕ, zero, suc, ◌+◌, ◌-◌, Bool, true, false, Option, none, some, List, [], ◌∷◌, ltb, ◌==◌, not,
  ◌&&◌, ◌||◌, if◌then◌else◌, nonzero, u16, length, bit_and, bit_or, ◌<<<◌, ◌>>=◌,
}
use atem_esp_idf.Buffer.{Bytes, load8, copy_to}
use atem_esp_idf.Sequence
use atem_esp_idf.Packet
use atem_esp_idf.Atem.Object.{Atem, ConnectionState, initializing, active, Effect, posted}
use atem_esp_idf.Atem.Getters.{is_active, is_connected}
use atem_esp_idf.Atem.Dispatch.{parse_packet}
use atem_esp_idf.Atem.Connection.{World, send_dropped, reconnect, next_local_id}

-- A call of `recv`: -1 with `errno` EAGAIN or another, or the bytes that it stored.
pub data Recv : Type 0 where
  again failed : Recv
  got : Bytes → Recv

pub record Input : Type 0 where
  pub peeked : Recv
  pub received : Recv
  pub resend_locked : Bool
  pub ack_locked : Bool
  pub state_locked : Bool

-- The members, and the variables of the task.
pub record Task : Type 0 where
  pub atem : Atem
  pub buffer : Bytes
  pub ack_count : ℕ
  pub boot_events : ℕ

abbrev pub int_max : ℕ
int_max = 0x7FFFFFFF

-- `for (i = 0; i < 32; i++) if (event & 1 << i) esp_event_post(…, i, &packet_id, …)`, on the rounds
-- left.
unfoldable pub post_from : ℕ → ℕ → ℕ → ℕ → List Effect → List Effect
post_from zero i event packet_id log = log
post_from (suc left) i event packet_id log =
    post_from left (suc i) event packet_id
      (if nonzero (bit_and event (1 <<< i)) then posted i packet_id ∷ log else log)

unfoldable pub post_events : ℕ → ℕ → Atem → Atem
post_events event packet_id a = record a { log = post_from 32 0 event packet_id a.log }

unfoldable pub is_initializing : ConnectionState → Bool
is_initializing initializing = true
is_initializing _ = false

-- The id of a stored packet that is asked for, among the first `left`.
unfoldable pub find_sent : ℕ → ℕ → List Bytes → Option (Option Bytes)
find_sent zero id ps = some none
find_sent (suc left) id [] = some none
find_sent (suc left) id (p ∷ ps) = do
  k ← Packet.get_id p
  let later = find_sent left id ps
  if k == id then some (some p) else later

-- `i++ > 50` lets 51 packets pass.
abbrev pub max_loops : ℕ
max_loops = 51

-- `((a - b) & 0x7FFF) > 32`.
abbrev pub is_far : ℕ → ℕ → Bool
is_far a b = ltb 32 (bit_and (u16 (a + 65536 - b)) 0x7FFF)

-- The ACK of `id`: of the first `left` packets, up to one with that id, those far from it go, and
-- so does that one.
unfoldable pub acknowledge : ℕ → ℕ → List Bytes → Option (List Bytes)
acknowledge zero id ps = some ps
acknowledge (suc left) id [] = some []
acknowledge (suc left) id (p ∷ ps) = do
  k ← Packet.get_id p
  let drop_it = acknowledge left id ps
  let keep_it : Option (List Bytes) = (do rest ← acknowledge left id ps; some (p ∷ rest))
  if is_far k id && is_far id k then drop_it else if k == id then some ps else keep_it

module _ (w : World) where
  -- No packet within the second.
  unfoldable pub on_timeout : Task → Option Task
  on_timeout t =
      let lost : Option Task = (do
        a ← reconnect w t.atem
        some (record t { atem = a; ack_count = int_max })) in
      let ping : Option Task = (do
        packet ← Packet.create w.malloc 0x11 t.atem.session_id 12
        let a = record t.atem { local_id = next_local_id t.atem }
        packet ← Packet.set_id packet a.local_id
        packet ← Packet.set_ack_id packet a.remote_id
        a ← send_dropped w packet a
        some (record t { atem = a; ack_count = t.ack_count + 1 })) in
      let quiet : Option Task = some (record t { ack_count = t.ack_count + 1 }) in
      if ltb 4 t.ack_count then lost else if is_connected t.atem then ping else quiet

  -- "INIT packet".
  unfoldable pub on_init : Bytes → Atem → Option Atem
  on_init m a = do
    flags ← Packet.get_flags m
    let init : Option Atem = (do
      init_status ← load8 m 12
      let accept : Option Atem = (do
        session ← Packet.get_session_id m
        packet ← Packet.create w.malloc 0x10 session 12
        send_dropped w packet (record a { local_id = 0; remote_id = 0; state = initializing }))
      if init_status == 0x2 then accept else some a)
    if nonzero (bit_and flags 0x2) && not (is_active a.state) then init else some a

  -- "INIT packets complete".
  unfoldable pub on_init_complete : Bytes → ℕ → Atem → Option Atem
  on_init_complete m boot_events a = do
    flags ← Packet.get_flags m
    n ← Packet.get_length m
    session ← Packet.get_session_id m
    let done = post_events boot_events 1 (record a { session_id = session; state = active })
    if is_initializing a.state && nonzero (bit_and flags 0x1) && n == 12 then some done else some a

  -- "RESEND request".
  unfoldable pub on_resend : Bytes → Bool → Atem → Option Atem
  on_resend m locked a = do
    flags ← Packet.get_flags m
    let pretend : Option Atem = (do
      session ← Packet.get_session_id m
      packet ← Packet.create w.malloc 0x1 session 12
      id ← Packet.get_resend_id m
      packet ← Packet.set_id packet id
      send_dropped w packet a)
    let search : Option Atem = (do
      id ← Packet.get_id m
      found ← find_sent max_loops id a.send_packets
      elim found [ none ↦ pretend | some p ↦ send_dropped w p a ])
    if nonzero (bit_and flags 0x8) && is_active a.state
        then (if locked then search else pretend)
        else some a

  -- "Send ACK": the new members, and `should_parse_packet`.
  unfoldable pub on_ack_request : Bytes → Atem → Option (Bool × Atem)
  on_ack_request m a = do
    flags ← Packet.get_flags m
    let work : Option (Bool × Atem) = (do
      id ← Packet.get_id m
      session ← Packet.get_session_id m
      packet ← Packet.create w.malloc 0x10 session 12
      packet ← Packet.set_ack_id packet id
      (fresh, sequence) ← Sequence.add a.sequence id
      let a' = record a { remote_id = id; sequence = sequence }
      let missing_id = Sequence.get_missing sequence
      let is_missing = ltb missing_id 0x8000
      let request : Option Bytes = (do
        f ← Packet.get_flags packet
        packet ← Packet.set_flags packet (bit_or f 0x8)
        packet ← Packet.set_resend_id packet missing_id
        packet ← Packet.set_id packet 0
        Packet.set_unknown packet 0x100)
      packet ← (if is_missing then request else some packet)
      a'' ← (if is_active a'.state || is_missing then send_dropped w packet a' else some a')
      some (fresh, a''))
    if nonzero (bit_and flags 0x1) then work else some (true, a)

  -- "Receive ACK".
  unfoldable pub on_ack : Bytes → Bool → Atem → Option Atem
  on_ack m locked a = do
    flags ← Packet.get_flags m
    let work : Option Atem = (do
      id ← Packet.get_ack_id m
      ps ← acknowledge max_loops id a.send_packets
      some (record a { send_packets = ps }))
    if nonzero (bit_and flags 0x10) && is_active a.state && locked then work else some a

  -- "Parse packet", for a packet of `len` bytes: the members, and `boot_events`.
  unfoldable pub on_payload : Bytes → ℕ → Bool → ℕ → Atem → Option (ℕ × Atem)
  on_payload m len locked boot_events a = do
    flags ← Packet.get_flags m
    let parse : Option (ℕ × Atem) = (do
      (event, s) ← parse_packet a.sequence m a.switcher
      id ← Packet.get_id m
      let a' = record a { switcher = s }
      let post : ℕ × Atem = (boot_events, post_events event id a')
      let keep : ℕ × Atem = (bit_or boot_events event, a')
      some (if not (event == 0) && is_active a.state then post else keep))
    if ltb 12 len && not (nonzero (bit_and flags 0x2)) && locked
        then parse
        else some (boot_events, a)

  -- A packet of the right length and session.
  unfoldable pub on_packet : Input → ℕ → Task → Option Task
  on_packet input len t = do
    a ← on_init t.buffer t.atem
    a ← on_init_complete t.buffer t.boot_events a
    a ← on_resend t.buffer input.resend_locked a
    (should_parse_packet, a) ← on_ack_request t.buffer a
    let parse : Option Task = (do
      a ← on_ack t.buffer input.ack_locked a
      (boot_events, a) ← on_payload t.buffer len input.state_locked t.boot_events a
      some (record t { atem = a; boot_events = boot_events }))
    if should_parse_packet then parse else some (record t { atem = a })

  -- The tests of length and session.
  unfoldable pub on_received : Input → ℕ → Task → Option Task
  on_received input len t = do
    n ← Packet.get_length t.buffer
    session ← Packet.get_session_id t.buffer
    let foreign = is_active t.atem.state && not (session == t.atem.session_id)
    let packet = on_packet input len t
    if not (n == len) || foreign then some t else packet

  -- The second `recv` of the round, of the packet's length but of the buffer's size at most.
  unfoldable pub on_peeked : Input → Task → Option Task
  on_peeked input t = elim input.received [
    | again ↦ some t
    | failed ↦ some t
    | got bytes ↦ do
      buffer ← copy_to t.buffer 0 bytes
      on_received input (length bytes) (record t { buffer = buffer; ack_count = 0 })
  ]

  unfoldable pub round : Input → Task → Option Task
  round input t = elim input.peeked [
    | failed ↦ some t
    | again ↦ on_timeout t
    | got bytes ↦ do
      buffer ← copy_to t.buffer 0 bytes
      on_peeked input (record t { buffer = buffer })
  ]
