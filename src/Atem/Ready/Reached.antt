-- ===== src/Atem/Ready/Reached.antt =====
-- The stored packets over any order of rounds of `task_` and calls of `SendCommands`.
use atem_esp_idf.Prelude.{
  ℕ, ◌≡◌, ◌⊎◌, inl, inr, sym, ◌∙◌, subst, Bool, some, List, [], arith, >>=-eq-some, length,
}
use atem_esp_idf.Buffer.{Bytes, copy_to}
use atem_esp_idf.Atem.Object.{Atem}
use atem_esp_idf.Atem.Connection.{World}
use atem_esp_idf.Atem.Task.{
  again, failed, got, Recv, Input, Task, acknowledge, post_events, on_init, on_init_complete,
  on_resend, on_ack_request, on_ack, on_payload, on_packet, on_received, on_peeked, on_timeout,
  round,
}
use atem_esp_idf.Atem.Control.{AreSendable, acknowledge-Returns}
use atem_esp_idf.Atem.Session.{on_packet-Steps}
use atem_esp_idf.Atem.Stored.{Reaches, start, rounds, calls}
use atem_esp_idf.Atem.Stored.{send_dropped_same, reconnect_empty}
use atem_esp_idf.Atem.Ready.{send_commands-AreSendable}

module _ (w : World) where
  on_init_stored :
      (m : Bytes) (a a' : Atem) → on_init w m a ≡ some a' → a'.send_packets ≡ a.send_packets
  unfolding on_init
  on_init_stored m a a' e = grind (arith, send_dropped_same)

  on_init_complete_stored :
      (m : Bytes) (boot : ℕ) (a a' : Atem)
      → on_init_complete w m boot a ≡ some a'
      → a'.send_packets ≡ a.send_packets
  unfolding on_init_complete post_events
  on_init_complete_stored m boot a a' e = ground arith

  on_resend_stored :
      (m : Bytes) (locked : Bool) (a a' : Atem)
      → on_resend w m locked a ≡ some a'
      → a'.send_packets ≡ a.send_packets
  unfolding on_resend
  on_resend_stored m locked a a' e = grind (arith, send_dropped_same)

  on_ack_request_stored :
      (m : Bytes) (a : Atem) (parse : Bool) (a' : Atem)
      → on_ack_request w m a ≡ some (parse, a')
      → a'.send_packets ≡ a.send_packets
  unfolding on_ack_request
  on_ack_request_stored m a parse a' e = grind (arith, send_dropped_same)

  on_payload_stored :
      (m : Bytes) (len : ℕ) (locked : Bool) (boot : ℕ) (a : Atem) (boot' : ℕ) (a' : Atem)
      → on_payload w m len locked boot a ≡ some (boot', a')
      → a'.send_packets ≡ a.send_packets
  unfolding on_payload post_events
  on_payload_stored m len locked boot a boot' a' e = ground arith

  acknowledge-AreSendable :
      (left id : ℕ) (ps ps' : List Bytes)
      → acknowledge left id ps ≡ some ps'
      → AreSendable ps
      → AreSendable ps'
  acknowledge-AreSendable left id ps ps' e h =
      let (qs, f, k) = acknowledge-Returns left id ps h in
      let same : qs ≡ ps' = cc in subst AreSendable same k

  on_ack-AreSendable :
      (m : Bytes) (locked : Bool) (a a' : Atem)
      → on_ack w m locked a ≡ some a'
      → AreSendable a.send_packets
      → AreSendable a'.send_packets
  unfolding on_ack
  on_ack-AreSendable m locked a a' e h = grind (arith, acknowledge-AreSendable)

  on_packet-AreSendable :
      (input : Input) (len : ℕ) (t t' : Task)
      → on_packet w input len t ≡ some t'
      → AreSendable t.atem.send_packets
      → AreSendable t'.atem.send_packets
  on_packet-AreSendable input len t t' e h =
      let s = on_packet-Steps w input len t t' e in
      let same =
        on_ack_request_stored t.buffer s.a3 s.parse s.a4 s.request
        ∙ on_resend_stored t.buffer input.resend_locked s.a2 s.a3 s.resend
        ∙ on_init_complete_stored t.buffer t.boot_events s.a1 s.a2 s.complete
        ∙ on_init_stored t.buffer t.atem s.a1 s.init in
      let h4 : AreSendable s.a4.send_packets = subst AreSendable (sym same) h in
      elim s.rest [
        | inl (_, eq) ↦ rw eq h4
        | inr (_, (a5, boot, a6, e5, e6, eq)) ↦
            rw (eq, on_payload_stored t.buffer len input.state_locked t.boot_events a5 boot a6 e6)
              (on_ack-AreSendable t.buffer input.ack_locked s.a4 a5 e5 h4)
      ]

  on_timeout_stored :
      (t t' : Task)
      → on_timeout w t ≡ some t'
      → (t'.atem.send_packets ≡ t.atem.send_packets) ⊎ (t'.atem.send_packets ≡ [])
  unfolding on_timeout
  on_timeout_stored t t' e = grind (arith, reconnect_empty, send_dropped_same)

  on_timeout-AreSendable :
      (t t' : Task)
      → on_timeout w t ≡ some t'
      → AreSendable t.atem.send_packets
      → AreSendable t'.atem.send_packets
  on_timeout-AreSendable t t' e h = elim (on_timeout_stored t t' e) [
    | inl same ↦ rw same h
    | inr empty ↦ rw empty tt
  ]

  on_received-AreSendable :
      (input : Input) (len : ℕ) (t t' : Task)
      → on_received w input len t ≡ some t'
      → AreSendable t.atem.send_packets
      → AreSendable t'.atem.send_packets
  unfolding on_received
  on_received-AreSendable input len t t' e h = grind (arith, on_packet-AreSendable input len t t')

  on_peeked-AreSendable :
      (input : Input) (received : Recv) (t t' : Task)
      → on_peeked w (record input { received = received }) t ≡ some t'
      → AreSendable t.atem.send_packets
      → AreSendable t'.atem.send_packets
  unfolding on_peeked
  on_peeked-AreSendable input again t t' e h = grind arith
  on_peeked-AreSendable input failed t t' e h = grind arith
  on_peeked-AreSendable input (got bytes) t t' e h =
      let (buffer, _, f) = >>=-eq-some (copy_to t.buffer 0 bytes) _ e in
      on_received-AreSendable (record input { received = got bytes }) (length bytes)
        (record t { buffer = buffer; ack_count = 0 }) t' f h

  round-AreSendable :
      (input : Input) (peeked : Recv) (t t' : Task)
      → round w (record input { peeked = peeked }) t ≡ some t'
      → AreSendable t.atem.send_packets
      → AreSendable t'.atem.send_packets
  unfolding round
  round-AreSendable input again t t' e h = on_timeout-AreSendable t t' e h
  round-AreSendable input failed t t' e h = grind arith
  round-AreSendable input (got bytes) t t' e h =
      let (buffer, _, f) = >>=-eq-some (copy_to t.buffer 0 bytes) _ e in
      on_peeked-AreSendable (record input { peeked = got bytes }) input.received
        (record t { buffer = buffer }) t' f h

  module _ (sizes : (n : ℕ) → length (w.malloc n) ≡ n) where
    -- However the rounds and the calls of `SendCommands` follow each other, from stored packets with
    -- a header, an id and a length that is not above their block's, there are only such packets:
    -- `SendPacket_` sends each of them again without reading past its end, to any network. Here
    -- `malloc` returns blocks of the size asked for; of the commands nothing is assumed.
    pub Reaches-AreSendable :
        (t t' : Task)
        → AreSendable t.atem.send_packets
        → Reaches w t t'
        → AreSendable t'.atem.send_packets
    Reaches-AreSendable t t' h start = h
    Reaches-AreSendable t t' h (rounds input {t1 = t1} r e) =
        round-AreSendable input input.peeked t1 t' e (Reaches-AreSendable t t1 h r)
    Reaches-AreSendable t t' h (calls locked cs {t1 = t1} {r = x} {a = a} r e) =
        send_commands-AreSendable w sizes locked cs t1.atem a x e (Reaches-AreSendable t t1 h r)
