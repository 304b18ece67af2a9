-- ===== src/Atem/Control/Received.antt =====
-- The steps of `task_` on a packet before it parses the commands, each on every branch.
use atem_esp_idf.Prelude.{
  inl, inr, ltb, ℕ, ◌≡◌, ◌⊎◌, refl, Bool, true, Option, none, some, ◌∷◌, arith, length, ◌>>=◌,
  if◌then◌else◌, ◌==◌, ◌&&◌, ◌||◌, subst, not, nonzero, bit_and, bit_or,
}
use atem_esp_idf.Prelude.Returns.{Returns, Returns-bind, Returns-if, Returns-some}
use atem_esp_idf.Buffer.{Bytes}
use atem_esp_idf.Sequence
use atem_esp_idf.Sequence.{SequenceCheck}
use atem_esp_idf.Packet
use atem_esp_idf.Atem.Object.{Atem, sent, initializing}
use atem_esp_idf.Atem.Getters.{is_active}
use atem_esp_idf.Atem.Connection.{World, send_dropped}
use atem_esp_idf.Atem.Task.{
  post_events, is_initializing, max_loops, on_init, on_init_complete, on_resend, on_ack_request,
  on_ack,
}
use atem_esp_idf.Atem.Sendable.{
  IsSendable, set_id-IsSendable, set_ack_id-IsSendable, set_resend_id-IsSendable,
  set_unknown-IsSendable, set_flags-IsSendable, create-IsSendable, send_dropped-IsSendable,
}
use atem_esp_idf.Atem.Control.{
  HasHeader, AreSendable, StaysReady, get_flags-Returns, find_sent-Returns, acknowledge-Returns,
}

module _ (w : World) (sizes : (n : ℕ) → length (w.malloc n) ≡ n) where
  sends :
      (p : Bytes) (a a' : Atem)
      → IsSendable p
      → StaysReady a a'
      → Returns (StaysReady a) (send_dropped w p a')
  sends p a a' h r =
      let (bytes, e) = send_dropped-IsSendable w p a' h in
      (
        record a' { log = sent bytes ∷ a'.log },
        e,
        record { stored = r.stored; sequence = r.sequence },
      )

  pub on_init-Returns :
      (m : Bytes) (a : Atem)
      → HasHeader m
      → AreSendable a.send_packets
      → Returns (StaysReady a) (on_init w m a)
  unfolding on_init
  on_init-Returns m a h s =
      let still : Returns (StaysReady a) (some a) =
        Returns-some _ a (record { stored = s; sequence = refl }) in
      rw (h.flags_read, h.first_read, h.session_read)
        (Returns-if _ (nonzero (bit_and h.flags 0x2) && not (is_active a.state)) _ _
          (Returns-if _ (h.first == 0x2) _ _
            (Returns-bind _ _ _ _
              (create-IsSendable w sizes 0x10 h.session (omega arith) h.session_fits)
              (λ p q.
                sends p a (record a { local_id = 0; remote_id = 0; state = initializing }) q
                  (record { stored = s; sequence = refl })))
            still)
          still)

  pub on_init_complete-Returns :
      (m : Bytes) (boot : ℕ) (a : Atem)
      → HasHeader m
      → AreSendable a.send_packets
      → Returns (StaysReady a) (on_init_complete w m boot a)
  unfolding on_init_complete post_events
  on_init_complete-Returns m boot a h s =
      rw (h.flags_read, h.length_read, h.session_read)
        (Returns-if _
          (is_initializing a.state && nonzero (bit_and h.flags 0x1) && h.own_length == 12) _ _
          (Returns-some _ _ (record { stored = s; sequence = refl }))
          (Returns-some _ a (record { stored = s; sequence = refl })))

  reads : (r : Option ℕ) (x : ℕ) → r ≡ some x → Returns (λ y. y ≡ x) r
  reads r x e = (x, e, refl)

  pretend-Returns :
      (m : Bytes) (a : Atem)
      → HasHeader m
      → AreSendable a.send_packets
      → Returns (StaysReady a) (do
        session ← Packet.get_session_id m
        packet ← Packet.create w.malloc 0x1 session 12
        id ← Packet.get_resend_id m
        packet ← Packet.set_id packet id
        send_dropped w packet a)
  pretend-Returns m a h s =
      Returns-bind _ _ _ _ (h.session, h.session_read, h.session_fits)
        λ session fits.
          Returns-bind _ _ _ _ (create-IsSendable w sizes 0x1 session (omega arith) fits) λ p q.
            Returns-bind _ _ _ _ (reads _ h.resend_id h.resend_read) λ id _.
              Returns-bind _ _ _ _ (set_id-IsSendable p id q)
                λ p q. sends p a a q (record { stored = s; sequence = refl })

  resend_found :
      (r : Option Bytes) (a : Atem) (pretend : Option Atem)
      → (r ≡ none) ⊎ ((p : Bytes) × (r ≡ some p) × IsSendable p)
      → AreSendable a.send_packets
      → Returns (StaysReady a) pretend
      → Returns (StaysReady a) (elim r [ none ↦ pretend | some p ↦ send_dropped w p a ])
  resend_found none a pretend f s k = k
  resend_found (some p) a pretend (inl e) s k = cc
  resend_found (some p) a pretend (inr (q, e, h)) s k =
      let same : q ≡ p = cc in
      sends p a a (subst IsSendable same h) (record { stored = s; sequence = refl })

  pub on_resend-Returns :
      (m : Bytes) (locked : Bool) (a : Atem)
      → HasHeader m
      → AreSendable a.send_packets
      → Returns (StaysReady a) (on_resend w m locked a)
  unfolding on_resend
  on_resend-Returns m locked a h s =
      let pretend = pretend-Returns m a h s in
      rw (h.flags_read) (
        Returns-if _ (nonzero (bit_and h.flags 0x8) && is_active a.state) _ _
          (Returns-if _ locked _ _
            (Returns-bind _ _ _ _ (reads _ h.id h.id_read) λ id _.
              Returns-bind _ _ _ _ (find_sent-Returns max_loops id a.send_packets s)
                (λ r f. resend_found r a _ f s pretend))
            pretend)
          (Returns-some _ a (record { stored = s; sequence = refl })))

  pub on_ack-Returns :
      (m : Bytes) (locked : Bool) (a : Atem)
      → HasHeader m
      → AreSendable a.send_packets
      → Returns (StaysReady a) (on_ack w m locked a)
  unfolding on_ack
  on_ack-Returns m locked a h s =
      rw (h.flags_read, h.ack_read)
        (Returns-if _ (nonzero (bit_and h.flags 0x10) && is_active a.state && locked) _ _
          (Returns-bind _ _ _ _ (acknowledge-Returns max_loops h.ack_id a.send_packets s)
            (λ ps q. Returns-some _ _ (record { stored = q; sequence = refl })))
          (Returns-some _ a (record { stored = s; sequence = refl })))

  -- The reply to an ACK request, with the request for a missing packet.
  request-Returns :
      (p : Bytes) (missing_id : ℕ)
      → IsSendable p
      → Returns IsSendable (
          if ltb missing_id 0x8000
          then (do
            f ← Packet.get_flags p
            p ← Packet.set_flags p (bit_or f 0x8)
            p ← Packet.set_resend_id p missing_id
            p ← Packet.set_id p 0
            Packet.set_unknown p 0x100)
          else some p)
  request-Returns p missing_id q =
      Returns-if _ (ltb missing_id 0x8000) _ _
        (Returns-bind _ _ _ _ (get_flags-Returns p q) λ f _.
          Returns-bind _ _ _ _ (set_flags-IsSendable p (bit_or f 0x8) q) λ p q.
            Returns-bind _ _ _ _ (set_resend_id-IsSendable p missing_id q) λ p q.
              Returns-bind _ _ _ _ (set_id-IsSendable p 0 q)
                λ p q. set_unknown-IsSendable p 0x100 q)
        (Returns-some _ p q)

  pub on_ack_request-Returns :
      (m : Bytes) (a : Atem) (r : Bool × SequenceCheck)
      → (h : HasHeader m) → Sequence.add a.sequence h.id ≡ some r
      → AreSendable a.send_packets
      → Returns (λ x. AreSendable x.1.send_packets) (on_ack_request w m a)
  unfolding on_ack_request
  on_ack_request-Returns m a r h added s =
      let a' : Atem = record a { remote_id = h.id; sequence = r.1 } in
      let missing_id = Sequence.get_missing r.1 in
      rw (h.flags_read, h.session_read, h.id_read, added)
        (Returns-if _ (nonzero (bit_and h.flags 0x1)) _ _
          (Returns-bind _ _ _ _
            (create-IsSendable w sizes 0x10 h.session (omega arith) h.session_fits)
            λ p q. Returns-bind _ _ _ _ (set_ack_id-IsSendable p h.id q) λ p q.
              Returns-bind _ _ _ _ (request-Returns p missing_id q) λ p q.
                Returns-bind _ _ _ _
                  (Returns-if _ (is_active a'.state || ltb missing_id 0x8000) _ _
                    (sends p a' a' q (record { stored = s; sequence = refl }))
                    (Returns-some _ a' (record { stored = s; sequence = refl })))
                  λ a'' k. Returns-some _ (r.0, a'') k.stored)
          (Returns-some _ (true, a) s))
