-- ===== src/Atem/Stored.antt =====
-- src/atem.cpp: the packets that are kept to be sent again, over any order of rounds of `task_` and
-- calls of `SendCommands`.
use atem_esp_idf.Prelude.{
  ℕ, zero, suc, ◌≡◌, ◌≤◌, ◌<◌, refl, Bool, Option, some, List, [], ◌∷◌, arith, >>=-eq-some, length,
  ◌++◌, length-take, inl, inr, ap,
}
use atem_esp_idf.Buffer.{Bytes, copy_to}
use atem_esp_idf.Atem.Object.{Atem}
use atem_esp_idf.Atem.Connection.{
  World, EspErr, CommandObject, send_packet, send_dropped, reconnect, store_packet, send_commands,
}
use atem_esp_idf.Atem.Task.{
  Recv, again, failed, got, Input, Task, acknowledge, post_events, on_init, on_init_complete,
  on_resend, on_ack_request, on_ack, on_payload, on_packet, on_received, on_peeked, round,
  on_timeout,
}
use atem_esp_idf.Atem.Session.{on_packet-Steps}

-- At most 32 packets are stored, and the id fits its 16 bits.
abbrev pub IsBounded : Atem → Type 0
IsBounded a = (length a.send_packets ≤ 32) × (a.local_id < 65536)

acknowledge-length :
    (left id : ℕ) (ps ps' : List Bytes) → acknowledge left id ps ≡ some ps' → length ps' ≤ length ps
unfolding acknowledge
acknowledge-length zero id ps ps' e = ground arith
acknowledge-length (suc left) id [] ps' e = ground arith
acknowledge-length (suc left) id (p ∷ ps) ps' e =
    let ih = acknowledge-length left id ps in grind arith

length-snoc : (ps : List Bytes) (p : Bytes) → length (ps ++ p ∷ []) ≡ suc (length ps)
length-snoc [] p = refl
length-snoc (q ∷ ps) p = ap suc (length-snoc ps p)

store_packet-length :
    (p : Bytes) (ps : List Bytes) → length ps ≤ 32 → length (store_packet p ps) ≤ 32
unfolding store_packet
store_packet-length p ps h = grind (arith, length-snoc, length-take)

module _ (w : World) where
  pub send_dropped_same :
      (p : Bytes) (a a' : Atem)
      → send_dropped w p a ≡ some a'
      → (a'.send_packets ≡ a.send_packets) × (a'.local_id ≡ a.local_id)
  unfolding send_dropped send_packet
  send_dropped_same p a a' e = ground arith

  pub reconnect_empty :
      (a a' : Atem) → reconnect w a ≡ some a' → (a'.send_packets ≡ []) × (a'.local_id ≡ 0)
  unfolding reconnect
  reconnect_empty a a' e = grind (arith, send_dropped_same)

  on_init-IsBounded :
      (m : Bytes) (a a' : Atem) → on_init w m a ≡ some a' → IsBounded a → IsBounded a'
  unfolding on_init
  on_init-IsBounded m a a' e b = grind (arith, send_dropped_same)

  on_init_complete-IsBounded :
      (m : Bytes) (boot : ℕ) (a a' : Atem)
      → on_init_complete w m boot a ≡ some a'
      → IsBounded a
      → IsBounded a'
  unfolding on_init_complete post_events
  on_init_complete-IsBounded m boot a a' e b = ground arith

  on_resend-IsBounded :
      (m : Bytes) (locked : Bool) (a a' : Atem)
      → on_resend w m locked a ≡ some a'
      → IsBounded a
      → IsBounded a'
  unfolding on_resend
  on_resend-IsBounded m locked a a' e b = grind (arith, send_dropped_same)

  on_ack_request-IsBounded :
      (m : Bytes) (a : Atem) (parse : Bool) (a' : Atem)
      → on_ack_request w m a ≡ some (parse, a')
      → IsBounded a
      → IsBounded a'
  unfolding on_ack_request
  on_ack_request-IsBounded m a parse a' e b = grind (arith, send_dropped_same)

  on_ack-IsBounded :
      (m : Bytes) (locked : Bool) (a a' : Atem)
      → on_ack w m locked a ≡ some a'
      → IsBounded a
      → IsBounded a'
  unfolding on_ack
  on_ack-IsBounded m locked a a' e b = grind (arith, acknowledge-length)

  on_payload-IsBounded :
      (m : Bytes) (len : ℕ) (locked : Bool) (boot : ℕ) (a : Atem) (boot' : ℕ) (a' : Atem)
      → on_payload w m len locked boot a ≡ some (boot', a')
      → IsBounded a
      → IsBounded a'
  unfolding on_payload post_events
  on_payload-IsBounded m len locked boot a boot' a' e b = ground arith

  on_packet-IsBounded :
      (input : Input) (len : ℕ) (t t' : Task)
      → on_packet w input len t ≡ some t'
      → IsBounded t.atem
      → IsBounded t'.atem
  on_packet-IsBounded input len t t' e b =
      let s = on_packet-Steps w input len t t' e in
      let b2 =
        on_init_complete-IsBounded t.buffer t.boot_events s.a1 s.a2 s.complete
          (on_init-IsBounded t.buffer t.atem s.a1 s.init b) in
      let b4 =
        on_ack_request-IsBounded t.buffer s.a3 s.parse s.a4 s.request
          (on_resend-IsBounded t.buffer input.resend_locked s.a2 s.a3 s.resend b2) in
      elim s.rest [
        | inl (_, eq) ↦ rw eq b4
        | inr (_, (a5, boot, a6, e5, e6, eq)) ↦ rw eq (
            on_payload-IsBounded t.buffer len input.state_locked t.boot_events a5 boot a6 e6
              (on_ack-IsBounded t.buffer input.ack_locked s.a4 a5 e5 b4))
      ]

  on_timeout-IsBounded :
      (t t' : Task) → on_timeout w t ≡ some t' → IsBounded t.atem → IsBounded t'.atem
  unfolding on_timeout
  on_timeout-IsBounded t t' e b = grind (arith, reconnect_empty, send_dropped_same)

  on_received-IsBounded :
      (input : Input) (len : ℕ) (t t' : Task)
      → on_received w input len t ≡ some t'
      → IsBounded t.atem
      → IsBounded t'.atem
  unfolding on_received
  on_received-IsBounded input len t t' e b = grind (arith, on_packet-IsBounded input len t t')

  on_peeked-IsBounded :
      (input : Input) (received : Recv) (t t' : Task)
      → on_peeked w (record input { received = received }) t ≡ some t'
      → IsBounded t.atem
      → IsBounded t'.atem
  unfolding on_peeked
  on_peeked-IsBounded input again t t' e b = grind arith
  on_peeked-IsBounded input failed t t' e b = grind arith
  on_peeked-IsBounded input (got bytes) t t' e b =
      let (buffer, _, f) = >>=-eq-some (copy_to t.buffer 0 bytes) _ e in
      on_received-IsBounded (record input { received = got bytes }) (length bytes)
        (record t { buffer = buffer; ack_count = 0 }) t' f b

  round-IsBounded :
      (input : Input) (peeked : Recv) (t t' : Task)
      → round w (record input { peeked = peeked }) t ≡ some t'
      → IsBounded t.atem
      → IsBounded t'.atem
  unfolding round
  round-IsBounded input again t t' e b = on_timeout-IsBounded t t' e b
  round-IsBounded input failed t t' e b = grind arith
  round-IsBounded input (got bytes) t t' e b =
      let (buffer, _, f) = >>=-eq-some (copy_to t.buffer 0 bytes) _ e in
      on_peeked-IsBounded (record input { peeked = got bytes }) input.received
        (record t { buffer = buffer }) t' f b

  send_commands-IsBounded :
      (locked : Bool) (cs : List (Option CommandObject)) (a a' : Atem) (r : EspErr)
      → send_commands w locked cs a ≡ some (r, a')
      → IsBounded a
      → IsBounded a'
  unfolding send_commands send_packet
  send_commands-IsBounded locked cs a a' r e b = grind (arith, store_packet-length)

  -- The rounds of the task and the calls of `SendCommands` by other tasks, in any order. A call is
  -- not interleaved with a round.
  pub data Reaches (t : Task) : Task → Type 0 where
    start : Reaches t t
    rounds :
        (input : Input) {t1 t2 : Task} → Reaches t t1 → round w input t1 ≡ some t2 → Reaches t t2
    calls :
        (locked : Bool) (cs : List (Option CommandObject)) {t1 : Task} {r : EspErr} {a : Atem}
        → Reaches t t1
        → send_commands w locked cs t1.atem ≡ some (r, a)
        → Reaches t (record t1 { atem = a })

  -- However the rounds and the calls follow each other, from at most 32 stored packets and a
  -- 16-bit local id there are never more than 32 stored packets, and the id stays within 16 bits.
  pub Reaches-IsBounded : (t t' : Task) → IsBounded t.atem → Reaches t t' → IsBounded t'.atem
  Reaches-IsBounded t t' b start = b
  Reaches-IsBounded t t' b (rounds input {t1 = t1} r e) =
      round-IsBounded input input.peeked t1 t' e (Reaches-IsBounded t t1 b r)
  Reaches-IsBounded t t' b (calls locked cs {t1 = t1} {r = x} {a = a} r e) =
      send_commands-IsBounded locked cs t1.atem a x e (Reaches-IsBounded t t1 b r)
