-- ===== src/Atem/Handshake/Setup.antt =====
-- The handshake as a whole: the answer, the switcher's state, and the packet that ends it.
use atem_esp_idf.Prelude.{
  ℕ, ◌≡◌, ◌≢◌, refl, ap, sym, ◌∙◌, Bool, true, false, some, ◌∷◌, arith, length, if◌then◌else◌,
  nonzero, bit_and, ◌==◌, ==_self, ◌&&◌, inl, inr,
}
use atem_esp_idf.Buffer.{Bytes}
use atem_esp_idf.Sequence
use atem_esp_idf.Sequence.{SequenceCheck}
use atem_esp_idf.Packet
use atem_esp_idf.Packet.Header.{create-fields}
use atem_esp_idf.Atem.Object.{Atem, initializing, active, sent}
use atem_esp_idf.Atem.Getters.{is_active}
use atem_esp_idf.Atem.Connection.{World}
use atem_esp_idf.Atem.Task.{
  Input, Task, post_from, post_events, on_init, on_init_complete, on_packet, on_received,
}
use atem_esp_idf.Atem.Session.{on_packet-Steps}
use atem_esp_idf.Atem.Frame.{
  on_resend-Keeps, on_ack-Keeps, on_ack_request-Acknowledges, on_payload-Keeps,
}
use atem_esp_idf.Atem.Answer.{IsReply, reports, on_ack_request-Answers}
use atem_esp_idf.Atem.Handshake.{
  IsInitReply, IsComplete, accepted, on_init-accepts, on_packet-accepts, completed,
  on_packet-completes, no_init, no_init_complete, some-injective,
}

-- Other packets of the session that is being set up: no answer to the handshake, and no end of it.
pub record IsData (m : Bytes) : Type 0 where
  pub flags : ℕ
  pub own_length : ℕ
  pub session : ℕ
  pub flags_read : Packet.get_flags m ≡ some flags
  pub length_read : Packet.get_length m ≡ some own_length
  pub session_read : Packet.get_session_id m ≡ some session
  pub no_answer : nonzero (bit_and flags 0x2) ≡ false
  pub no_end : own_length ≢ 12

not_last : (b : Bool) (n : ℕ) → n ≢ 12 → (b && n == 12) ≡ false
not_last true n h = ground arith
not_last false n h = refl

-- Packets of the switcher's state, one after the other.
pub data Loads (w : World) (t : Task) : Task → Type 0 where
  none_yet : Loads w t t
  loads :
      (input : Input) (len : ℕ) (m : Bytes) {t1 t2 : Task}
      → Loads w t t1
      → IsData m
      → on_received w input len (record t1 { buffer = m; ack_count = 0 }) ≡ some t2
      → Loads w t t2

is_data :
    (w : World) (m : Bytes) (boot : ℕ) (a : Atem)
    → IsData m
    → (on_init w m a ≡ some a) × (on_init_complete w m boot a ≡ some a)
is_data w m boot a h =
    let other : (nonzero (bit_and h.flags 0x1) && h.own_length == 12) ≡ false =
      not_last (nonzero (bit_and h.flags 0x1)) h.own_length h.no_end in
    (
      no_init w m h.flags a h.flags_read h.no_answer,
      no_init_complete w m h.flags a boot h.own_length h.session h.flags_read h.length_read
          h.session_read other,
    )

on_packet-state :
    (w : World) (input : Input) (len : ℕ) (t t' : Task)
    → IsData t.buffer
    → on_packet w input len t ≡ some t'
    → t'.atem.state ≡ t.atem.state
on_packet-state w input len t t' h e =
    let s = on_packet-Steps w input len t t' e in
    let (init, complete) = is_data w t.buffer t.boot_events t.atem h in
    let a1 : s.a1 ≡ t.atem = some-injective (sym s.init ∙ init) in
    let a2 : s.a2 ≡ t.atem = some-injective (sym s.complete ∙ rw a1 complete) in
    let k3 = on_resend-Keeps w t.buffer input.resend_locked s.a2 s.a3 s.resend in
    let k4 = on_ack_request-Acknowledges w t.buffer s.a3 s.parse s.a4 s.request in
    let st : s.a4.state ≡ t.atem.state = k4.state ∙ k3.state ∙ ap (λ a. a.state) a2 in
    elim s.rest [
      | inl (_, eq) ↦ rw eq st
      | inr (_, (a5, boot, a6, e5, e6, eq)) ↦
          let k5 = on_ack-Keeps w t.buffer input.ack_locked s.a4 a5 e5 in
          let k6 = on_payload-Keeps w t.buffer len input.state_locked t.boot_events a5 boot a6 e6 in
          rw eq (k6.0 ∙ k5.state ∙ st)
    ]

on_received-state :
    (w : World) (input : Input) (len : ℕ) (t t' : Task)
    → IsData t.buffer
    → on_received w input len t ≡ some t'
    → t'.atem.state ≡ t.atem.state
unfolding on_received
on_received-state w input len t t' h e = grind (arith, on_packet-state)

Loads-state : (w : World) (t t' : Task) → Loads w t t' → t'.atem.state ≡ t.atem.state
Loads-state w t t' none_yet = refl
Loads-state w t t' (loads input len m {t1 = t1} r h e) =
    on_received-state w input len (record t1 { buffer = m; ack_count = 0 }) t' h e
    ∙ Loads-state w t t1 r

on_received-idle :
    (w : World) (input : Input) (len : ℕ) (t : Task) (session : ℕ)
    → is_active t.atem.state ≡ false
    → Packet.get_length t.buffer ≡ some len
    → Packet.get_session_id t.buffer ≡ some session
    → on_received w input len t ≡ on_packet w input len t
unfolding on_received
on_received-idle w input len t session idle own is = rw (own, is, idle, ==_self len) refl

module _ (w : World) (sizes : (n : ℕ) → length (w.malloc n) ≡ n) where
  -- While no session is active, a packet of 20 bytes that accepts the handshake is answered with a
  -- header that has the ACK flag, the packet's session and no ids; the ids start again, and the
  -- client waits for the switcher's state. Nothing else changes. `malloc` returns blocks of the
  -- size asked for.
  pub on_received-accepts :
      (input : Input) (t : Task) (session : ℕ)
      → is_active t.atem.state ≡ false
      → IsInitReply session t.buffer
      → (p : Bytes) × IsReply 0x10 session 0 0 p × (on_received w input 20 t ≡ some (accepted p t))
  on_received-accepts input t session idle h =
      let c =
        create-fields w.malloc 0x10 session 12 sizes (omega arith) h.session_fits (omega arith) in
      let own : Packet.get_length c.0 ≡ some (length c.0) =
        c.3.length_read ∙ ap some (omega (arith, c.2)) in
      (
        c.0,
        record {
          size = c.2;
          flags_read = c.3.flags_read;
          length_read = c.3.length_read;
          session_read = c.3.session_read;
          ack_read = c.4.no_ack;
          resend_read = c.4.no_resend;
          id_read = c.4.no_id;
        },
        on_received-idle w input 20 t session idle h.length_read h.session_read
            ∙ on_packet-accepts w input 20 t (accepted c.0 t).atem 20 session
                (on_init-accepts w t.buffer t session c.0 idle h c.1 own) h.flags_read h.length_read
                h.session_read,
      )

  -- A client waits for the switcher's state and gets any packets of it, which neither answer the
  -- handshake nor have the length of a header. Then a header that asks for an ACK ends the handshake:
  -- the session is active, with the session id of that packet, and the events of what came before
  -- are posted, but not forgotten. Last the packet is acknowledged, and an id that the window misses
  -- is asked for, if there is one. The window takes the packet's id, and `malloc` returns blocks of
  -- the size asked for.
  pub Loads-completes :
      (t t' : Task) (input : Input) (m : Bytes) (session id : ℕ) (fresh : Bool)
      (sequence : SequenceCheck)
      → t.atem.state ≡ initializing
      → Loads w t t'
      → IsComplete session id m
      → Sequence.add t'.atem.sequence id ≡ some (fresh, sequence)
      → (t'' : Task) × (on_received w input 12 (record t' { buffer = m; ack_count = 0 }) ≡ some t'')
        × (t''.atem.state ≡ active)
        × (t''.atem.session_id ≡ session)
        × (t''.boot_events ≡ t'.boot_events)
        × ((p : Bytes) × IsReply
              (if reports sequence then 0x18 else 0x10)
              session
              id
              (if reports sequence then Sequence.get_missing sequence else 0)
              p
            × (t''.atem.log ≡ sent p ∷ post_from 32 0 t'.boot_events 1 t'.atem.log))
  unfolding post_events is_active
  Loads-completes t t' input m session id fresh sequence is r h added =
      let waits : t'.atem.state ≡ initializing = Loads-state w t t' r ∙ is in
      let now : Task = record t' { buffer = m; ack_count = 0 } in
      let a =
        on_ack_request-Answers w sizes m (completed session now) 0x1 session id fresh sequence
          h.flags_read refl h.session_read h.session_fits h.id_read h.id_fits added in
      (
        record now {
          atem = record (completed session now) {
            remote_id = id;
            sequence = sequence;
            log = sent a.reply ∷ (completed session now).log;
          };
        },
        on_received-idle w input 12 now session (rw waits refl) h.length_read h.session_read
            ∙ on_packet-completes w input now session id fresh _ waits h a.returns,
        refl,
        refl,
        refl,
        (a.reply, a.is_reply, refl),
      )
