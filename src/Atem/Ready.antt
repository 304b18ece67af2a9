-- ===== src/Atem/Ready.antt =====
-- What `SendCommands` stores can be sent again.
pub mod Reached
pub mod Total
use atem_esp_idf.Prelude.{
  ℕ, zero, suc, ◌*◌, ◌+◌, ◌-◌, ◌≡◌, ◌≤◌, ◌<◌, ◌⊎◌, inl, inr, refl, ap, sym, ◌∙◌, subst, Bool, true,
  false, Option, none, some, List, [], ◌∷◌, ◌++◌, arith, >>=-eq-some, ◌>>=◌, length, take, leb,
  Bool-cases, get_elem?_in, length-append, length-drop, ◌>>>◌, u8, if◌then◌else◌, ◌==◌, not, drop,
}
use atem_esp_idf.Prelude.Returns.{Returns}
use atem_esp_idf.Buffer.{Bytes, load8, load16, store8, copy_to, copy_from}
use atem_esp_idf.Buffer.Inside.{store8-length, copy_to-length, copy_from-le}
use atem_esp_idf.Types.{ProtocolVersion}
use atem_esp_idf.State.{get}
use atem_esp_idf.Packet
use atem_esp_idf.Packet.Header.{capped, header, create_block}
use atem_esp_idf.Command
use atem_esp_idf.Command.Classes.{prepair_command}
use atem_esp_idf.Atem.Object.{Atem}
use atem_esp_idf.Atem.Connection.{
  World, EspErr, esp_ok, esp_fail, esp_err_timeout, esp_err_invalid_arg, CommandObject, send_packet,
  send_dropped, reconnect, store_packet, send_commands, copy_commands, total_length, next_local_id,
}
use atem_esp_idf.Atem.Task.{
  again, failed, got, Recv, Input, Task, acknowledge, max_loops, post_events, on_init,
  on_init_complete, on_resend, on_ack_request, on_ack, on_payload, on_packet, on_received,
  on_peeked, on_timeout, round,
}
use atem_esp_idf.Atem.Sendable.{IsSendable}
use atem_esp_idf.Atem.Control.{AreSendable, acknowledge-Returns}
use atem_esp_idf.Atem.Session.{on_packet-Steps}
use atem_esp_idf.Atem.Stored.{Reaches, start, rounds, calls}

copy_commands-length :
    (ver : ProtocolVersion) (cs : List (Option CommandObject)) (i : ℕ) (packet : Bytes) (i' : ℕ)
    (packet' : Bytes)
    → copy_commands ver i packet cs ≡ some (i', packet')
    → length packet' ≡ length packet
unfolding copy_commands
copy_commands-length ver [] i packet i' packet' e =
    let same : packet ≡ packet' = cc in ap length (sym same)
copy_commands-length ver (none ∷ cs) i packet i' packet' e =
    copy_commands-length ver cs i packet i' packet' e
copy_commands-length ver (some c ∷ cs) i packet i' packet' e =
    let (block, _, e1) = >>=-eq-some (prepair_command c.command ver c.block) _ e in
    let (k, _, e2) = >>=-eq-some (Command.get_length block 0) _ e1 in
    let (bytes, _, e3) = >>=-eq-some (copy_from block 0 k) _ e2 in
    let (after, e4, e5) = >>=-eq-some (copy_to packet i bytes) _ e3 in
    copy_commands-length ver cs _ after i' packet' e5 ∙ copy_to-length bytes packet i after e4

set_id-length :
    (m : Bytes) (id : ℕ) (m' : Bytes) → Packet.set_id m id ≡ some m' → length m' ≡ length m
unfolding Packet.set_id
set_id-length m id m' e =
    let (r, p, q) = >>=-eq-some (store8 m 10 (id >>> 8)) _ e in
    store8-length r 11 id m' q ∙ store8-length m 10 (id >>> 8) r p

get_id-some : (m : Bytes) → 12 ≤ length m → (id : ℕ) × (Packet.get_id m ≡ some id)
unfolding Packet.get_id
get_id-some m h =
    let (a, p) = get_elem?_in m 10 (omega arith) in
    let (b, q) = get_elem?_in m 11 (omega arith) in (a * 256 + b, rw (p, q) refl)

-- One stored packet: what `AreSendable` says of each.
abbrev IsStored : Bytes → Type 0
IsStored p = IsSendable p × ((id : ℕ) × (Packet.get_id p ≡ some id))

snoc-AreSendable :
    (ps : List Bytes) (p : Bytes) → AreSendable ps → IsStored p → AreSendable (ps ++ p ∷ [])
snoc-AreSendable [] p h k = (k, tt)
snoc-AreSendable (q ∷ ps) p h k = (h.0, snoc-AreSendable ps p h.1 k)

take-AreSendable : (n : ℕ) (ps : List Bytes) → AreSendable ps → AreSendable (take n ps)
take-AreSendable zero ps h = tt
take-AreSendable (suc n) [] h = tt
take-AreSendable (suc n) (p ∷ ps) h = (h.0, take-AreSendable n ps h.1)

store_packet-AreSendable :
    (p : Bytes) (ps : List Bytes) → AreSendable ps → IsStored p → AreSendable (store_packet p ps)
unfolding store_packet
store_packet-AreSendable p ps h k = elim (Bool-cases (leb 32 (length ps))) [
  | inl t ↦
      rw t (snoc-AreSendable (take (length ps - 1) ps) p (take-AreSendable (length ps - 1) ps h) k)
  | inr f ↦ rw f (snoc-AreSendable ps p h k)
]

create-length :
    (malloc : ℕ → Bytes) (flags session n : ℕ) (m : Bytes)
    → ((k : ℕ) → length (malloc k) ≡ k)
    → Packet.create malloc flags session n ≡ some m
    → 12 ≤ length m
create-length malloc flags session n m sizes e =
    let block = malloc (capped n) in
    let big : 12 ≤ length block = ground (arith, sizes (capped n)) in
    let is = create_block malloc flags session n block refl big in
    let same : header flags session (capped n) ++ drop 12 block ≡ m = cc in
    omega (arith, length-append (header flags session (capped n)) (drop 12 block), ap length same)

module _ (w : World) where
  -- A packet that was sent can be sent again.
  send_packet-IsSendable :
      (p : Bytes) (a : Atem) (r : Bool × Atem)
      → 12 ≤ length p
      → send_packet w p a ≡ some r
      → IsSendable p × (r.1.send_packets ≡ a.send_packets)
  unfolding send_packet
  send_packet-IsSendable p a r big e =
      let (n, own, e1) = >>=-eq-some (Packet.get_length p) _ e in
      let (bytes, copied, e2) = >>=-eq-some (copy_from p 0 n) _ e1 in
      (
        record {
          has_header = big;
          sent_length = n;
          own_length = own;
          inside = omega (arith, copy_from-le p 0 n bytes (omega arith) copied);
        },
        ground arith,
      )

  stored_after :
      (ok locked : Bool) (packet : Bytes) (a a' : Atem) (r : EspErr)
      → AreSendable a.send_packets
      → IsStored packet
      → ◌≡◌ {A = Option (EspErr × Atem)}
          (some (
            if ok
            then (if locked
                then (esp_ok, record a { send_packets = store_packet packet a.send_packets })
                else (esp_err_timeout, a))
            else (esp_fail, a)))
          (some (r, a'))
      → AreSendable a'.send_packets
  stored_after false locked packet a a' r h k e =
      let same : a ≡ a' = cc in subst (λ b. AreSendable b.send_packets) same h
  stored_after true false packet a a' r h k e =
      let same : a ≡ a' = cc in subst (λ b. AreSendable b.send_packets) same h
  stored_after true true packet a a' r h k e =
      let same : record a { send_packets = store_packet packet a.send_packets } ≡ a' = cc in
      subst (λ b. AreSendable b.send_packets) same
        (store_packet-AreSendable packet a.send_packets h k)

  -- An early return leaves the members as they are there.
  early :
      (b : Bool) (x r : EspErr) (a a' : Atem) (work : Option (EspErr × Atem))
      → (if b then some (x, a) else work) ≡ some (r, a')
      → (a ≡ a') ⊎ (work ≡ some (r, a'))
  early true x r a a' work e = inl cc
  early false x r a a' work e = inr e

  -- The last part of `SendCommands`, on a packet that is filled up to `i`.
  after_copy :
      (locked : Bool) (i n : ℕ) (packet : Bytes) (b a' : Atem) (r : EspErr)
      → 12 ≤ length packet
      → AreSendable b.send_packets
      → (let send : Option (EspErr × Atem) = (do
        (ok, a'') ← send_packet w packet b
        let stored : EspErr × Atem =
            (esp_ok, record a'' { send_packets = store_packet packet a''.send_packets })
        let result : EspErr × Atem = if locked then stored else (esp_err_timeout, a'')
        some (if ok then result else (esp_fail, a''))) in
          if not (i == n) then some (esp_fail, b) else send)
        ≡ some (r, a')
      → AreSendable a'.send_packets
  after_copy locked i n packet b a' r big h e = elim (early (not (i == n)) esp_fail r b a' _ e) [
    | inl same ↦ subst (λ c. AreSendable c.send_packets) same h
    | inr g ↦
        let (s, sent_is, e5) = >>=-eq-some (send_packet w packet b) _ g in
        let (k, same) = send_packet-IsSendable packet b s big sent_is in
        stored_after s.0 locked packet s.1 a' r (subst AreSendable (sym same) h)
          (k, get_id-some packet big) e5
  ]

  module _ (sizes : (n : ℕ) → length (w.malloc n) ≡ n) where
    after_length :
        (locked : Bool) (cs : List (Option CommandObject)) (n : ℕ) (a a' : Atem) (r : EspErr)
        → AreSendable a.send_packets
        → (do
          packet ← Packet.create w.malloc 0x1 a.session_id n
          let a' = record a { local_id = next_local_id a }
          packet ← Packet.set_id packet a'.local_id
          (i, packet) ← copy_commands (get a.switcher.version) 12 packet cs
          let send : Option (EspErr × Atem) = (do
            (ok, a'') ← send_packet w packet a'
            let stored : EspErr × Atem =
                (esp_ok, record a'' { send_packets = store_packet packet a''.send_packets })
            let result : EspErr × Atem = if locked then stored else (esp_err_timeout, a'')
            some (if ok then result else (esp_fail, a'')))
          if not (i == n) then some (esp_fail, a') else send)
          ≡ some (r, a')
        → AreSendable a'.send_packets
    after_length locked cs n a a' r h e =
        let (created, creates, e2) = >>=-eq-some (Packet.create w.malloc 0x1 a.session_id n) _ e in
        let (with_id, sets, e3) = >>=-eq-some (Packet.set_id created (next_local_id a)) _ e2 in
        let (q, copies, e4) =
          >>=-eq-some (copy_commands (get a.switcher.version) 12 with_id cs) _ e3 in
        let c1 = create-length w.malloc 0x1 a.session_id n created sizes creates in
        let c2 = set_id-length created (next_local_id a) with_id sets in
        let c3 = copy_commands-length (get a.switcher.version) cs 12 with_id q.0 q.1 copies in
        after_copy locked q.0 n q.1 (record a { local_id = next_local_id a }) a' r
          (omega (arith, c1, c2, c3)) h e4

    pub send_commands-AreSendable :
        (locked : Bool) (cs : List (Option CommandObject)) (a a' : Atem) (r : EspErr)
        → send_commands w locked cs a ≡ some (r, a')
        → AreSendable a.send_packets
        → AreSendable a'.send_packets
    unfolding send_commands
    send_commands-AreSendable locked cs a a' r e h =
        let (n, _, e1) = >>=-eq-some (total_length 12 cs) _ e in
        elim (early (n == 12) esp_err_invalid_arg r a a' _ e1) [
          | inl same ↦ subst (λ b. AreSendable b.send_packets) same h
          | inr f ↦ after_length locked cs n a a' r h f
        ]
