-- ===== src/Atem/Control.antt =====
-- What `task_` finds in a packet's header and among the stored packets, where both are complete.
pub mod Received
pub mod Handled
use atem_esp_idf.Prelude.{
  ℕ, zero, suc, ◌+◌, ◌*◌, ◌/◌, ◌≡◌, ◌≤◌, ◌<◌, ◌⊎◌, refl, ap, ◌∙◌, Bool, true, false, Option, none,
  some, List, [], ◌∷◌, arith, length, ◌>>=◌, sym, if◌then◌else◌, ◌==◌, ◌&&◌, ◌||◌, subst, not,
  nonzero, bit_and, bit_or, ltb, Bool-cases, inl, inr,
}
use atem_esp_idf.Prelude.Returns.{Returns, Returns-bind, Returns-if, Returns-some}
use atem_esp_idf.Buffer.{Bytes, load8, load16, AreBytes}
use atem_esp_idf.Sequence
use atem_esp_idf.Sequence.{SequenceCheck}
use atem_esp_idf.Packet
use atem_esp_idf.Atem.Object.{Atem, sent, initializing, active}
use atem_esp_idf.Atem.Getters.{is_active}
use atem_esp_idf.Atem.Connection.{World, send_dropped}
use atem_esp_idf.Atem.Task.{
  Input, Task, post_events, is_initializing, find_sent, acknowledge, max_loops, is_far, on_init,
  on_init_complete, on_resend, on_ack_request, on_ack, on_payload, on_packet, on_received,
}
use atem_esp_idf.Atem.Sendable.{
  IsSendable, set_id-IsSendable, set_ack_id-IsSendable, set_resend_id-IsSendable,
  set_unknown-IsSendable, set_flags-IsSendable, create-IsSendable, send_dropped-IsSendable,
}

pub get_flags-Returns : (p : Bytes) → IsSendable p → Returns (λ f. Unit {0}) (Packet.get_flags p)
unfolding Packet.get_flags
get_flags-Returns [] q = absurd (omega (arith, q.has_header))
get_flags-Returns (b ∷ p) q = (_, refl, tt)

-- What the getters find in a buffer.
pub record HasHeader (m : Bytes) : Type 0 where
  pub flags : ℕ
  pub own_length : ℕ
  pub session : ℕ
  pub ack_id : ℕ
  pub resend_id : ℕ
  pub id : ℕ
  pub first : ℕ
  pub flags_read : Packet.get_flags m ≡ some flags
  pub length_read : Packet.get_length m ≡ some own_length
  pub session_read : Packet.get_session_id m ≡ some session
  pub ack_read : Packet.get_ack_id m ≡ some ack_id
  pub resend_read : Packet.get_resend_id m ≡ some resend_id
  pub id_read : Packet.get_id m ≡ some id
  pub first_read : load8 m 12 ≡ some first
  pub session_fits : session < 65536
  pub flags_fit : flags < 32

pub buffer-HasHeader : (m : Bytes) → 13 ≤ length m → AreBytes m → HasHeader m
unfolding Packet.get_flags Packet.get_length Packet.get_session_id Packet.get_ack_id
    Packet.get_resend_id Packet.get_id
buffer-HasHeader (b0 ∷ b1 ∷ b2 ∷ b3 ∷ b4 ∷ b5 ∷ b6 ∷ b7 ∷ b8 ∷ b9 ∷ b10 ∷ b11 ∷ b12 ∷ m) big bytes =
    record {
      flags = _;
      own_length = _;
      session = _;
      ack_id = _;
      resend_id = _;
      id = _;
      first = b12;
      flags_read = refl;
      length_read = refl;
      session_read = refl;
      ack_read = refl;
      resend_read = refl;
      id_read = refl;
      first_read = refl;
      session_fits = omega (arith, bytes);
      flags_fit = omega (arith, bytes);
    }
buffer-HasHeader m big bytes = absurd (omega arith)

-- All stored packets can be sent again.
abbrev pub AreSendable : List Bytes → Type 0
AreSendable [] = Unit {0}
AreSendable (p ∷ ps) = (IsSendable p × ((id : ℕ) × (Packet.get_id p ≡ some id))) × AreSendable ps

-- The stored packets can be sent, and the window is that of `a`.
pub record StaysReady (a a' : Atem) : Type 0 where
  pub stored : AreSendable a'.send_packets
  pub sequence : a'.sequence ≡ a.sequence

pub find_sent-Returns :
    (left id : ℕ) (ps : List Bytes)
    → AreSendable ps
    → Returns (λ r. (r ≡ none) ⊎ ((p : Bytes) × (r ≡ some p) × IsSendable p)) (find_sent left id ps)
unfolding find_sent
find_sent-Returns zero id ps h = (none, refl, inl refl)
find_sent-Returns (suc left) id [] h = (none, refl, inl refl)
find_sent-Returns (suc left) id (p ∷ ps) h =
    let (k, e) = h.0.1 in
    rw e (
      Returns-if _ (k == id) _ _ (Returns-some _ (some p) (inr (p, refl, h.0.0)))
        (find_sent-Returns left id ps h.1))

pub acknowledge-Returns :
    (left id : ℕ) (ps : List Bytes) → AreSendable ps → Returns AreSendable (acknowledge left id ps)
unfolding acknowledge
acknowledge-Returns zero id ps h = Returns-some _ ps h
acknowledge-Returns (suc left) id [] h = Returns-some _ [] tt
acknowledge-Returns (suc left) id (p ∷ ps) h =
    let (k, e) = h.0.1 in
    let rest = acknowledge-Returns left id ps h.1 in
    rw e (
      Returns-if _ (is_far k id && is_far id k) _ _ rest (
        Returns-if _ (k == id) _ _ (Returns-some _ ps h.1)
          (Returns-bind _ _ _ _ rest (λ qs q. Returns-some _ (p ∷ qs) (h.0, q)))))
