-- ===== src/Atem/Handshake.antt =====
-- src/atem.cpp: from the switcher's answer to the handshake to an active session.
pub mod Setup
use atem_esp_idf.Prelude.{
  ℕ, ◌+◌, ◌≡◌, ◌≢◌, ◌<◌, refl, ap, sym, ◌∙◌, Bool, true, false, Option, some, List, [], ◌∷◌, arith,
  length, ltb, if◌then◌else◌, nonzero, bit_and, ◌==◌, and_false, ◌||◌, not, ◌&&◌, inl, inr,
  Bool-cases,
}
use atem_esp_idf.Buffer.{Bytes, load8}
use atem_esp_idf.Sequence
use atem_esp_idf.Sequence.{SequenceCheck}
use atem_esp_idf.Packet
use atem_esp_idf.Packet.Header.{create-fields}
use atem_esp_idf.Atem.Object.{Atem, ConnectionState, initializing, active, sent}
use atem_esp_idf.Atem.Getters.{is_active}
use atem_esp_idf.Atem.Connection.{World, send_dropped}
use atem_esp_idf.Atem.Task.{
  Input, Task, post_from, post_events, is_initializing, on_init, on_init_complete, on_resend,
  on_ack_request, on_ack, on_payload, on_packet, on_received,
}
use atem_esp_idf.Atem.Sendable.{send_dropped_whole}
use atem_esp_idf.Atem.Session.{on_packet-Steps}
use atem_esp_idf.Atem.Frame.{
  on_resend-Keeps, on_ack-Keeps, on_ack_request-Acknowledges, on_payload-Keeps,
}
use atem_esp_idf.Atem.Answer.{IsReply, Answers, reports, on_ack_request-Answers}

pub some-injective : {A : Type 0} {x y : A} → some x ≡ some y → x ≡ y
some-injective e = cc

-- The answer to the first packet of the handshake.
pub record IsInitReply (session : ℕ) (m : Bytes) : Type 0 where
  pub flags_read : Packet.get_flags m ≡ some 0x2
  pub length_read : Packet.get_length m ≡ some 20
  pub session_read : Packet.get_session_id m ≡ some session
  pub status_read : load8 m 12 ≡ some 0x2
  pub session_fits : session < 65536

-- The packet after the switcher's state: a header that asks for an ACK.
pub record IsComplete (session id : ℕ) (m : Bytes) : Type 0 where
  pub flags_read : Packet.get_flags m ≡ some 0x1
  pub length_read : Packet.get_length m ≡ some 12
  pub session_read : Packet.get_session_id m ≡ some session
  pub id_read : Packet.get_id m ≡ some id
  pub session_fits : session < 65536
  pub id_fits : id < 65536

abbrev pub accepted : Bytes → Task → Task
accepted p t = record t {
  atem = record t.atem {
    local_id = 0;
    remote_id = 0;
    state = initializing;
    log = sent p ∷ t.atem.log;
  };
}

pub on_init-accepts :
    (w : World) (m : Bytes) (t : Task) (session : ℕ) (p : Bytes)
    → is_active t.atem.state ≡ false
    → IsInitReply session m
    → Packet.create w.malloc 0x10 session 12 ≡ some p
    → Packet.get_length p ≡ some (length p)
    → on_init w m t.atem ≡ some (accepted p t).atem
unfolding on_init
on_init-accepts w m t session p idle h made own =
    rw
      (
        h.flags_read,
        idle,
        h.status_read,
        h.session_read,
        made,
        send_dropped_whole w p (record t.atem { local_id = 0; remote_id = 0; state = initializing })
            own,
      )
      refl

-- The steps that a packet with these flags does not ask for.
module _ (w : World) (m : Bytes) (flags : ℕ) (a : Atem) where
  pub no_init :
      Packet.get_flags m ≡ some flags → nonzero (bit_and flags 0x2) ≡ false → on_init w m a ≡ some a
  unfolding on_init
  no_init e off = ground arith

  pub no_init_complete :
      (boot n session : ℕ)
      → Packet.get_flags m ≡ some flags
      → Packet.get_length m ≡ some n
      → Packet.get_session_id m ≡ some session
      → (nonzero (bit_and flags 0x1) && n == 12) ≡ false
      → on_init_complete w m boot a ≡ some a
  unfolding on_init_complete
  no_init_complete boot n session e own is off = ground arith

  no_resend :
      (locked : Bool)
      → Packet.get_flags m ≡ some flags
      → nonzero (bit_and flags 0x8) ≡ false
      → on_resend w m locked a ≡ some a
  unfolding on_resend
  no_resend locked e off = ground arith

  no_ack_request :
      Packet.get_flags m ≡ some flags
      → nonzero (bit_and flags 0x1) ≡ false
      → on_ack_request w m a ≡ some (true, a)
  unfolding on_ack_request
  no_ack_request e off = ground arith

  no_ack :
      (locked : Bool)
      → Packet.get_flags m ≡ some flags
      → nonzero (bit_and flags 0x10) ≡ false
      → on_ack w m locked a ≡ some a
  unfolding on_ack
  no_ack locked e off = ground arith

  no_payload :
      (len : ℕ) (locked : Bool) (boot : ℕ)
      → Packet.get_flags m ≡ some flags
      → (ltb 12 len && not (nonzero (bit_and flags 0x2))) ≡ false
      → on_payload w m len locked boot a ≡ some (boot, a)
  unfolding on_payload
  no_payload len locked boot e off = ground arith

-- An answer to the handshake does nothing else.
pub on_packet-accepts :
    (w : World) (input : Input) (len : ℕ) (t : Task) (a : Atem) (n session : ℕ)
    → on_init w t.buffer t.atem ≡ some a
    → Packet.get_flags t.buffer ≡ some 0x2
    → Packet.get_length t.buffer ≡ some n
    → Packet.get_session_id t.buffer ≡ some session
    → on_packet w input len t ≡ some (record t { atem = a })
unfolding on_packet
on_packet-accepts w input len t a n session e flags own is =
    rw
      (
        e,
        no_init_complete w t.buffer 2 a t.boot_events n session flags own is refl,
        no_resend w t.buffer 2 a input.resend_locked flags refl,
        no_ack_request w t.buffer 2 a flags refl,
        no_ack w t.buffer 2 a input.ack_locked flags refl,
        no_payload w t.buffer 2 a len input.state_locked t.boot_events flags
            (and_false (ltb 12 len)),
      )
      refl

-- The last packet makes the session active and posts what came before it.
abbrev pub completed : ℕ → Task → Atem
completed session t =
    post_events t.boot_events 1 (record t.atem { session_id = session; state = active })

on_init_complete-completed :
    (w : World) (t : Task) (session id : ℕ)
    → t.atem.state ≡ initializing
    → IsComplete session id t.buffer
    → on_init_complete w t.buffer t.boot_events t.atem ≡ some (completed session t)
unfolding on_init_complete is_initializing
on_init_complete-completed w t session id is h =
    rw (h.flags_read, h.length_read, h.session_read, is) refl

either : (b : Bool) (x : Option Task) → (if b then x else x) ≡ x
either true x = refl
either false x = refl

-- What comes after `on_ack_request`.
pub on_packet-completes :
    (w : World) (input : Input) (t : Task) (session id : ℕ) (fresh : Bool) (a : Atem)
    → t.atem.state ≡ initializing
    → IsComplete session id t.buffer
    → on_ack_request w t.buffer (completed session t) ≡ some (fresh, a)
    → on_packet w input 12 t ≡ some (record t { atem = a })
unfolding on_packet
on_packet-completes w input t session id fresh a is h e =
    rw
      (
        no_init w t.buffer 1 t.atem h.flags_read refl,
        on_init_complete-completed w t session id is h,
        no_resend w t.buffer 1 (completed session t) input.resend_locked h.flags_read refl,
        e,
        no_ack w t.buffer 1 a input.ack_locked h.flags_read refl,
        no_payload w t.buffer 1 a 12 input.state_locked t.boot_events h.flags_read refl,
      )
      (either fresh (some (record t { atem = a })))
