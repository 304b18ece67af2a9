-- ===== src/Atem/Loss.antt =====
-- src/atem.cpp: when `task_` leaves a session.
use atem_esp_idf.Prelude.{ℕ, ◌+◌, ◌≡◌, ◌<◌, ◌≤◌, ◌⊎◌, inl, inr, some, arith, ◌∙◌, ap}
use atem_esp_idf.Atem.Object.{Atem, active}
use atem_esp_idf.Atem.Connection.{World, reconnect}
use atem_esp_idf.Atem.Task.{
  again, Input, Task, on_packet, on_received, on_peeked, round, on_timeout,
}
use atem_esp_idf.Atem.Frame.{
  on_init_active, on_init_complete_active, on_resend-Keeps, on_ack-Keeps,
  on_ack_request-Acknowledges, on_payload-Keeps, send_dropped-Keeps,
}
use atem_esp_idf.Atem.Session.{on_packet-Steps}

-- The state is active, and the session is that of `a`.
pub record StaysActive (a a' : Atem) : Type 0 where
  pub state : a'.state ≡ active
  pub session : a'.session_id ≡ a.session_id

module _ (w : World) where
  on_packet-StaysActive :
      (input : Input) (len : ℕ) (t t' : Task)
      → t.atem.state ≡ active
      → on_packet w input len t ≡ some t'
      → StaysActive t.atem t'.atem
  on_packet-StaysActive input len t t' is e =
      let s = on_packet-Steps w input len t t' e in
      let e1 = on_init_active w t.buffer t.atem s.a1 is s.init in
      let e2 = on_init_complete_active w t.buffer t.boot_events s.a1 s.a2 (rw e1 is) s.complete in
      let k3 = on_resend-Keeps w t.buffer input.resend_locked s.a2 s.a3 s.resend in
      let k4 = on_ack_request-Acknowledges w t.buffer s.a3 s.parse s.a4 s.request in
      let same : s.a2 ≡ t.atem = e2 ∙ e1 in
      let st : s.a4.state ≡ active = k4.state ∙ k3.state ∙ ap (λ a. a.state) same ∙ is in
      let se : s.a4.session_id ≡ t.atem.session_id =
        k4.session ∙ k3.session ∙ ap (λ a. a.session_id) same in
      elim s.rest [
        | inl (_, eq) ↦ record { state = rw eq st; session = rw eq se }
        | inr (_, (a5, boot, a6, e5, e6, eq)) ↦
            let k5 = on_ack-Keeps w t.buffer input.ack_locked s.a4 a5 e5 in
            let k6 =
              on_payload-Keeps w t.buffer len input.state_locked t.boot_events a5 boot a6 e6 in
            record {
              state = rw eq (k6.0 ∙ k5.state ∙ st);
              session = rw eq (k6.1 ∙ k5.session ∙ se);
            }
      ]

  on_received-StaysActive :
      (input : Input) (len : ℕ) (t t' : Task)
      → t.atem.state ≡ active
      → on_received w input len t ≡ some t'
      → StaysActive t.atem t'.atem
  unfolding on_received
  on_received-StaysActive input len t t' is e = grind (arith, on_packet-StaysActive)

  on_peeked-StaysActive :
      (input : Input) (t t' : Task)
      → t.atem.state ≡ active
      → on_peeked w input t ≡ some t'
      → StaysActive t.atem t'.atem
  unfolding on_peeked
  on_peeked-StaysActive input t t' is e = grind (arith, on_received-StaysActive)

  -- A ping counts the second and leaves the session.
  on_timeout-StaysActive :
      (t t' : Task)
      → t.atem.state ≡ active
      → t.ack_count ≤ 4
      → on_timeout w t ≡ some t'
      → StaysActive t.atem t'.atem × (t'.ack_count ≡ t.ack_count + 1)
  unfolding on_timeout
  on_timeout-StaysActive t t' is few e = grind (arith, send_dropped-Keeps)

  on_timeout_late :
      (t t' : Task) → 4 < t.ack_count → on_timeout w t ≡ some t' → reconnect w t.atem ≡ some t'.atem
  unfolding on_timeout
  on_timeout_late t t' late e = ground arith

  -- A round of a task with an active session leaves the session active, with the same id, or it is
  -- a round without a packet after more than 4 counted seconds of silence, and the result is that
  -- of `Reconnect_`.
  pub round_active :
      (input : Input) (t t' : Task)
      → t.atem.state ≡ active
      → round w input t ≡ some t'
      → StaysActive t.atem t'.atem
        ⊎ ((input.peeked ≡ again) × (4 < t.ack_count) × (reconnect w t.atem ≡ some t'.atem))
  unfolding round
  round_active input t t' is e =
      grind (arith, on_peeked-StaysActive, on_timeout-StaysActive, on_timeout_late)
