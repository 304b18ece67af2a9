-- ===== src/Atem/Control/Handled.antt =====
-- `task_` on a packet whose commands can be parsed: the steps one after the other.
use atem_esp_idf.Prelude.{
  Bool-cases, ◌<◌, ==_iff, inl, inr, ltb, ℕ, ◌≡◌, ◌≤◌, ap, ◌∙◌, Bool, true, some, arith, length,
  ◌>>=◌, sym, ◌==◌, ◌&&◌, ◌||◌, not, nonzero, bit_and,
}
use atem_esp_idf.Prelude.Returns.{
  Returns, Returns-bind, Returns-if, Returns-some, Returns-test, IsDefined,
}
use atem_esp_idf.Buffer.{Bytes, AreBytes}
use atem_esp_idf.Sequence
use atem_esp_idf.Sequence.{SequenceCheck}
use atem_esp_idf.Packet
use atem_esp_idf.Atem.Object.{Atem, Switcher}
use atem_esp_idf.Atem.Getters.{is_active}
use atem_esp_idf.Atem.Connection.{World}
use atem_esp_idf.Atem.Dispatch.{parse_packet}
use atem_esp_idf.Atem.Task.{Input, Task, post_events, on_ack, on_payload, on_packet, on_received}
use atem_esp_idf.Atem.Control.{HasHeader, buffer-HasHeader, AreSendable}
use atem_esp_idf.Atem.Control.Received.{
  on_init-Returns, on_init_complete-Returns, on_resend-Returns, on_ack-Returns,
  on_ack_request-Returns,
}

-- A packet of `len` bytes of which every command, if there is one, can be parsed.
abbrev pub IsParsed : Bytes → ℕ → Type 0
IsParsed m len =
    (12 < len) → (sequence : SequenceCheck) (s : Switcher) → IsDefined (parse_packet sequence m s)

long : (len : ℕ) (b c : Bool) → (ltb 12 len && b && c) ≡ true → 12 < len
long len b c e = ground arith

module _ (w : World) (sizes : (n : ℕ) → length (w.malloc n) ≡ n) where
  on_payload-Returns :
      (m : Bytes) (len : ℕ) (locked : Bool) (boot : ℕ) (a : Atem)
      → HasHeader m
      → IsParsed m len
      → AreSendable a.send_packets
      → Returns (λ r. AreSendable r.1.send_packets) (on_payload w m len locked boot a)
  unfolding on_payload post_events
  on_payload-Returns m len locked boot a h parsed s = rw (h.flags_read) (
      Returns-test _ (ltb 12 len && not (nonzero (bit_and h.flags 0x2)) && locked) _ _
        (λ t.
          let (r, e) =
            parsed (long len (not (nonzero (bit_and h.flags 0x2))) locked t) a.sequence
              a.switcher in
          let posts = not (r.0 == 0) && is_active a.state in
          rw (e, h.id_read)
            (elim (Bool-cases posts) [
              | inl p ↦ rw p (Returns-some _ _ s)
              | inr p ↦ rw p (Returns-some _ _ s)
            ]))
        (Returns-some _ (boot, a) s))

  parses :
      (input : Input) (len : ℕ) (t : Task) (a : Atem)
      → HasHeader t.buffer
      → IsParsed t.buffer len
      → AreSendable a.send_packets
      → Returns
          (λ t'. AreSendable t'.atem.send_packets)
          (do
            a ← on_ack w t.buffer input.ack_locked a
            (boot_events, a) ← on_payload w t.buffer len input.state_locked t.boot_events a
            some (record t { atem = a; boot_events = boot_events }))
  parses input len t a h parsed s =
      Returns-bind _ _ _ _ (on_ack-Returns w sizes t.buffer input.ack_locked a h s) λ a' k.
        Returns-bind _ _ _ _
          (on_payload-Returns t.buffer len input.state_locked t.boot_events a' h parsed k.stored)
          λ r q. Returns-some _ _ q

  steps :
      (input : Input) (len : ℕ) (t : Task) (r : Bool × SequenceCheck)
      → (h : HasHeader t.buffer) → Sequence.add t.atem.sequence h.id ≡ some r
      → IsParsed t.buffer len
      → AreSendable t.atem.send_packets
      → Returns (λ t'. AreSendable t'.atem.send_packets) (on_packet w input len t)
  unfolding on_packet
  steps input len t r h added parsed s =
      Returns-bind _ _ _ _ (on_init-Returns w sizes t.buffer t.atem h s) λ a k.
        Returns-bind _ _ _ _ (on_init_complete-Returns w sizes t.buffer t.boot_events a h k.stored)
          λ b l.
            Returns-bind _ _ _ _
              (on_resend-Returns w sizes t.buffer input.resend_locked b h l.stored)
              λ c n.
                let same : c.sequence ≡ t.atem.sequence = n.sequence ∙ l.sequence ∙ k.sequence in
                Returns-bind _ _ _ _
                  (on_ack_request-Returns w sizes t.buffer c r h
                    (ap (λ q. Sequence.add q h.id) same ∙ added) n.stored)
                  λ d p.
                    Returns-if _ d.0 _ _ (parses input len t d.1 h parsed p) (Returns-some _ _ p)

  -- A packet of `len` bytes that has arrived in a buffer of at least 13 bytes is handled to its end,
  -- whatever its flags, its ids, the state of the connection and the results of the locks are, where
  -- its commands can be parsed, the window takes its id, `malloc` returns blocks of the size that is
  -- asked for, and the stored packets can be sent again: `task_` computes its new state, and the
  -- stored packets are such packets again.
  pub on_received-Returns :
      (input : Input) (len : ℕ) (t : Task) (id : ℕ) (r : Bool × SequenceCheck)
      → 13 ≤ length t.buffer
      → AreBytes t.buffer
      → Packet.get_id t.buffer ≡ some id
      → Sequence.add t.atem.sequence id ≡ some r
      → (Packet.get_length t.buffer ≡ some len → IsParsed t.buffer len)
      → AreSendable t.atem.send_packets
      → Returns (λ t'. AreSendable t'.atem.send_packets) (on_received w input len t)
  unfolding on_received
  on_received-Returns input len t id r big bytes is_id added parsed s =
      let h = buffer-HasHeader t.buffer big bytes in
      let same : id ≡ h.id = cc in
      let foreign = is_active t.atem.state && not (h.session == t.atem.session_id) in
      rw (h.length_read, h.session_read)
        (elim (Bool-cases (h.own_length == len)) [
          | inl t' ↦
              let own : h.own_length ≡ len = (==_iff h.own_length len).0 t' in
              Returns-if _ (not (h.own_length == len) || foreign) _ _ (Returns-some _ t s) (
                steps input len t r h (ap (Sequence.add t.atem.sequence) (sym same) ∙ added)
                  (parsed (h.length_read ∙ ap some own)) s)
          | inr f ↦ rw f (Returns-some _ t s)
        ])
