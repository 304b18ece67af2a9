-- ===== src/Atem/Frame.antt =====
-- Which members each step of a round leaves as they were.
use atem_esp_idf.Prelude.{ℕ, ◌≡◌, Bool, true, some, arith, nonzero, bit_and}
use atem_esp_idf.Buffer.{Bytes}
use atem_esp_idf.Sequence
use atem_esp_idf.Sequence.{SequenceCheck}
use atem_esp_idf.Packet
use atem_esp_idf.Atem.Object.{Atem, active}
use atem_esp_idf.Atem.Getters.{is_active}
use atem_esp_idf.Atem.Connection.{World, send_packet, send_dropped}
use atem_esp_idf.Atem.Task.{
  post_events, is_initializing, on_init, on_init_complete, on_resend, on_ack_request, on_ack,
  on_payload,
}

-- All members but the ids, the stored packets and the effects.
pub record Keeps (a a' : Atem) : Type 0 where
  pub state : a'.state ≡ a.state
  pub session : a'.session_id ≡ a.session_id
  pub sequence : a'.sequence ≡ a.sequence
  pub switcher : a'.switcher ≡ a.switcher

-- The sequence and the switcher.
pub record KeepsData (a a' : Atem) : Type 0 where
  pub sequence : a'.sequence ≡ a.sequence
  pub switcher : a'.switcher ≡ a.switcher

module _ (w : World) where
  pub send_dropped-Keeps :
      (packet : Bytes) (a a' : Atem) → send_dropped w packet a ≡ some a' → Keeps a a'
  unfolding send_dropped send_packet
  send_dropped-Keeps packet a a' e = ground arith

  pub on_init-KeepsData : (m : Bytes) (a a' : Atem) → on_init w m a ≡ some a' → KeepsData a a'
  unfolding on_init
  on_init-KeepsData m a a' e = grind (arith, send_dropped-Keeps)

  pub on_init_active :
      (m : Bytes) (a a' : Atem) → a.state ≡ active → on_init w m a ≡ some a' → a' ≡ a
  unfolding on_init is_active
  on_init_active m a a' s e = ground arith

  pub on_init_complete-KeepsData :
      (m : Bytes) (boot : ℕ) (a a' : Atem) → on_init_complete w m boot a ≡ some a' → KeepsData a a'
  unfolding on_init_complete post_events
  on_init_complete-KeepsData m boot a a' e = ground arith

  pub on_init_complete_active :
      (m : Bytes) (boot : ℕ) (a a' : Atem)
      → a.state ≡ active
      → on_init_complete w m boot a ≡ some a'
      → a' ≡ a
  unfolding on_init_complete is_initializing
  on_init_complete_active m boot a a' s e = ground arith

  pub on_resend-Keeps :
      (m : Bytes) (locked : Bool) (a a' : Atem) → on_resend w m locked a ≡ some a' → Keeps a a'
  unfolding on_resend
  on_resend-Keeps m locked a a' e = grind (arith, send_dropped-Keeps)

  pub on_ack-Keeps :
      (m : Bytes) (locked : Bool) (a a' : Atem) → on_ack w m locked a ≡ some a' → Keeps a a'
  unfolding on_ack
  on_ack-Keeps m locked a a' e = ground arith

  -- What `on_ack_request` does to the members that `Keeps` names.
  pub record Acknowledges (m : Bytes) (a : Atem) (parse : Bool) (a' : Atem) : Type 0 where
    pub state : a'.state ≡ a.state
    pub session : a'.session_id ≡ a.session_id
    pub switcher : a'.switcher ≡ a.switcher
    pub sequence :
        (flags id : ℕ)
        → Packet.get_flags m ≡ some flags
        → nonzero (bit_and flags 0x1) ≡ true
        → Packet.get_id m ≡ some id
        → Sequence.add a.sequence id ≡ some (parse, a'.sequence)

  pub on_ack_request-Acknowledges :
      (m : Bytes) (a : Atem) (parse : Bool) (a' : Atem)
      → on_ack_request w m a ≡ some (parse, a')
      → Acknowledges m a parse a'
  unfolding on_ack_request
  on_ack_request-Acknowledges m a parse a' e = record {
    state = grind (arith, send_dropped-Keeps);
    session = grind (arith, send_dropped-Keeps);
    switcher = grind (arith, send_dropped-Keeps);
    sequence = λ flags id p q r. grind (arith, send_dropped-Keeps);
  }

  pub on_payload-Keeps :
      (m : Bytes) (len : ℕ) (locked : Bool) (boot : ℕ) (a : Atem) (boot' : ℕ) (a' : Atem)
      → on_payload w m len locked boot a ≡ some (boot', a')
      → (a'.state ≡ a.state) × (a'.session_id ≡ a.session_id) × (a'.sequence ≡ a.sequence)
  unfolding on_payload post_events
  on_payload-Keeps m len locked boot a boot' a' e = ground arith
