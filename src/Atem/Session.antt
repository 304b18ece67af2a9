-- ===== src/Atem/Session.antt =====
-- The connection over a round of the task: foreign packets, packets that come twice, and when an
-- active connection ends.
use atem_esp_idf.Prelude.{
  ℕ, ◌≡◌, ◌<◌, ◌⊎◌, inl, inr, refl, Bool, true, false, Option, some, nonzero, bit_and, ◌>>=◌,
  >>=-eq-some, ◌∙◌, if◌then◌else◌,
}
use atem_esp_idf.Sequence
use atem_esp_idf.Sequence.{SequenceCheck}
use atem_esp_idf.Sequence.Window.{IsValid}
use atem_esp_idf.Sequence.Cases.{add-add}
use atem_esp_idf.Packet
use atem_esp_idf.Atem.Object.{Atem}
use atem_esp_idf.Atem.Connection.{World}
use atem_esp_idf.Atem.Task.{
  Input, Task, on_init, on_init_complete, on_resend, on_ack_request, on_ack, on_payload, on_packet,
}
use atem_esp_idf.Atem.Frame.{
  on_init-KeepsData, on_init_complete-KeepsData, on_resend-Keeps, on_ack-Keeps,
  on_ack_request-Acknowledges, on_payload-Keeps,
}

exclusive : {b : Bool} → b ≡ true → b ≡ false → ⊥
exclusive p q = cc

fresh-false :
    {r : Option (Bool × SequenceCheck)} {b c : Bool} {s t : SequenceCheck}
    → r ≡ some (b, s)
    → r ≡ some (c, t)
    → c ≡ false
    → b ≡ false
fresh-false p q e = cc

module _ (w : World) where
  -- The last steps, from the result of `on_ack_request` on.
  abbrev pub Rest : Input → ℕ → Task → Bool → Atem → Task → Type 0
  Rest input len t parse a4 t' =
      ((parse ≡ false) × (t' ≡ record t { atem = a4 }))
      ⊎ ((parse ≡ true)
          × ((a5 : Atem) × (boot : ℕ) × (a6 : Atem) × (on_ack w t.buffer input.ack_locked a4
                ≡ some a5)
              × (on_payload w t.buffer len input.state_locked t.boot_events a5 ≡ some (boot, a6))
              × (t' ≡ record t { atem = a6; boot_events = boot })))

  parse_steps : Input → ℕ → Task → Atem → Option Task
  parse_steps input len t a4 = do
    a ← on_ack w t.buffer input.ack_locked a4
    (boot_events, a) ← on_payload w t.buffer len input.state_locked t.boot_events a
    some (record t { atem = a; boot_events = boot_events })

  last_steps :
      (input : Input) (len : ℕ) (t : Task) (parse : Bool) (a4 : Atem) (t' : Task)
      → (if parse then parse_steps input len t a4 else some (record t { atem = a4 })) ≡ some t'
      → Rest input len t parse a4 t'
  unfolding parse_steps
  last_steps input len t false a4 t' e = inl (refl, cc)
  last_steps input len t true a4 t' e =
      let (a5, e5, f5) = >>=-eq-some (on_ack w t.buffer input.ack_locked a4) _ e in
      let (r, e6, f6) =
        >>=-eq-some (on_payload w t.buffer len input.state_locked t.boot_events a5) _ f5 in
      inr (refl, (a5, r.0, r.1, e5, e6, cc))

  -- The steps of `on_packet`, with what stands between them.
  pub record Steps (input : Input) (len : ℕ) (t t' : Task) : Type 0 where
    pub a1 : Atem
    pub a2 : Atem
    pub a3 : Atem
    pub parse : Bool
    pub a4 : Atem
    pub init : on_init w t.buffer t.atem ≡ some a1
    pub complete : on_init_complete w t.buffer t.boot_events a1 ≡ some a2
    pub resend : on_resend w t.buffer input.resend_locked a2 ≡ some a3
    pub request : on_ack_request w t.buffer a3 ≡ some (parse, a4)
    pub rest : Rest input len t parse a4 t'

  pub on_packet-Steps :
      (input : Input) (len : ℕ) (t t' : Task)
      → on_packet w input len t ≡ some t'
      → Steps input len t t'
  unfolding on_packet parse_steps
  on_packet-Steps input len t t' e =
      let (a1, e1, f1) = >>=-eq-some (on_init w t.buffer t.atem) _ e in
      let (a2, e2, f2) = >>=-eq-some (on_init_complete w t.buffer t.boot_events a1) _ f1 in
      let (a3, e3, f3) = >>=-eq-some (on_resend w t.buffer input.resend_locked a2) _ f2 in
      let (r, e4, f4) = >>=-eq-some (on_ack_request w t.buffer a3) _ f3 in
      record {
        a1 = a1;
        a2 = a2;
        a3 = a3;
        parse = r.0;
        a4 = r.1;
        init = e1;
        complete = e2;
        resend = e3;
        request = e4;
        rest = last_steps input len t r.0 r.1 t' f4;
      }

  -- The members after a packet, whatever it holds.
  on_packet-sequence :
      (input : Input) (len : ℕ) (t t' : Task)
      → on_packet w input len t ≡ some t'
      → (flags id : ℕ) → Packet.get_flags t.buffer ≡ some flags
      → nonzero (bit_and flags 0x1) ≡ true
      → Packet.get_id t.buffer ≡ some id
      → (fresh : Bool) × (Sequence.add t.atem.sequence id ≡ some (fresh, t'.atem.sequence))
        × (t'.buffer ≡ t.buffer)
        × (fresh ≡ false → (t'.atem.switcher ≡ t.atem.switcher) × (t'.boot_events ≡ t.boot_events))
  on_packet-sequence input len t t' e flags id ef asks ei =
      let s = on_packet-Steps input len t t' e in
      let k1 = on_init-KeepsData w t.buffer t.atem s.a1 s.init in
      let k2 = on_init_complete-KeepsData w t.buffer t.boot_events s.a1 s.a2 s.complete in
      let k3 = on_resend-Keeps w t.buffer input.resend_locked s.a2 s.a3 s.resend in
      let k4 = on_ack_request-Acknowledges w t.buffer s.a3 s.parse s.a4 s.request in
      let before : s.a3.sequence ≡ t.atem.sequence = k3.sequence ∙ k2.sequence ∙ k1.sequence in
      let same : s.a4.switcher ≡ t.atem.switcher =
        k4.switcher ∙ k3.switcher ∙ k2.switcher ∙ k1.switcher in
      let added : Sequence.add t.atem.sequence id ≡ some (s.parse, s.a4.sequence) =
        rw (← before) (k4.sequence flags id ef asks ei) in
      elim s.rest [
        | inl (no_parse, eq) ↦ (s.parse, rw eq added, rw eq refl, λ _. rw eq (same, refl))
        | inr (parses, (a5, boot, a6, e5, e6, eq)) ↦
            let k5 = on_ack-Keeps w t.buffer input.ack_locked s.a4 a5 e5 in
            let k6 =
              on_payload-Keeps w t.buffer len input.state_locked t.boot_events a5 boot a6 e6 in
            (
              s.parse,
              rw eq (rw (k6.2 ∙ k5.sequence) added),
              rw eq refl,
              λ no_parse. absurd (exclusive parses no_parse),
            )
      ]

  -- A packet with an ACK request that is handled once more finds its id known: the switcher and
  -- `boot_events` stay as the first time left them.
  pub on_packet_twice :
      (first second : Input) (len : ℕ) (t t1 t2 : Task) (flags id : ℕ)
      → IsValid t.atem.sequence
      → id < 32768
      → Packet.get_flags t.buffer ≡ some flags
      → nonzero (bit_and flags 0x1) ≡ true
      → Packet.get_id t.buffer ≡ some id
      → on_packet w first len t ≡ some t1
      → on_packet w second len t1 ≡ some t2
      → (t2.atem.switcher ≡ t1.atem.switcher) × (t2.boot_events ≡ t1.boot_events)
  on_packet_twice first second len t t1 t2 flags id v fits ef asks ei e1 e2 =
      let (b, added, buffer, _) = on_packet-sequence first len t t1 e1 flags id ef asks ei in
      let r = on_packet-sequence second len t1 t2 e2 flags id (rw buffer ef) asks (rw buffer ei) in
      let known = add-add t.atem.sequence id b t1.atem.sequence v fits added in
      r.3 (fresh-false r.1 known refl)
