-- ===== src/Atem/Ready/Total.antt =====
-- `task_` in a session that has been reached: it does not read or write outside its blocks.
use atem_esp_idf.Prelude.{
  ℕ, ◌≡◌, ◌≤◌, ◌<◌, ◌∙◌, subst, Bool, some, List, [], ◌∷◌, arith, length, get_elem?, zero, suc,
}
use atem_esp_idf.Buffer.{Bytes, AreBytes}
use atem_esp_idf.Sequence
use atem_esp_idf.Sequence.{SequenceCheck}
use atem_esp_idf.Packet
use atem_esp_idf.Atem.Object.{Atem, sent}
use atem_esp_idf.Atem.Connection.{World, send_dropped}
use atem_esp_idf.Atem.Task.{got, Input, Task, round, on_peeked}
use atem_esp_idf.Atem.Sendable.{IsSendable, send_dropped-IsSendable}
use atem_esp_idf.Atem.Control.{AreSendable}
use atem_esp_idf.Atem.Control.Handled.{on_received-Returns}
use atem_esp_idf.Atem.Parses.{AreComplete, parse_packet-IsDefined}
use atem_esp_idf.Atem.Buffered.{buffered, AreComplete-same, Laid-same, get_id-same}
use atem_esp_idf.Packet.Layout.{Laid, AreCommands}
use atem_esp_idf.Packet.Iterator.{begin}
use atem_esp_idf.Atem.Stored.{Reaches}
use atem_esp_idf.Atem.Ready.Reached.{Reaches-AreSendable}

AreSendable-at :
    (ps : List Bytes) (i : ℕ) (p : Bytes)
    → AreSendable ps
    → get_elem? ps i ≡ some p
    → IsSendable p × ((id : ℕ) × (Packet.get_id p ≡ some id))
AreSendable-at [] i p h e = cc
AreSendable-at (q ∷ ps) zero p h e =
    let same : q ≡ p = cc in
    subst (λ p. IsSendable p × ((id : ℕ) × (Packet.get_id p ≡ some id))) same h.0
AreSendable-at (q ∷ ps) (suc i) p h e = AreSendable-at ps i p h.1 e

module _ (w : World) (sizes : (n : ℕ) → length (w.malloc n) ≡ n) where
  stored_ready :
      (t0 t : Task) → t0.atem.send_packets ≡ [] → Reaches w t0 t → AreSendable t.atem.send_packets
  stored_ready t0 t none_yet r = Reaches-AreSendable w sizes t0 t (rw none_yet tt) r

  -- However the rounds and the calls of `SendCommands` follow each other, from no stored packets,
  -- whatever the commands are: each stored packet can be sent again from any state of the
  -- members without a read outside its block, and has an id to search for. Here `malloc` returns
  -- blocks of the size asked for.
  pub Reaches-send_dropped :
      (t0 t : Task) (i : ℕ) (p : Bytes) (a : Atem)
      → t0.atem.send_packets ≡ []
      → Reaches w t0 t
      → get_elem? t.atem.send_packets i ≡ some p
      → ((data' : Bytes) × (send_dropped w p a ≡ some (record a { log = sent data' ∷ a.log })))
        × ((id : ℕ) × (Packet.get_id p ≡ some id))
  Reaches-send_dropped t0 t i p a none_yet r at =
      let (h, id) = AreSendable-at t.atem.send_packets i p (stored_ready t0 t none_yet r) at in
      (send_dropped-IsSendable w p a h, id)

  -- A round that receives a packet ends, in any session that rounds and calls of `SendCommands`
  -- reach from no stored packets: `task_` computes its new state, whatever the packet's flags and
  -- ids, the state of the connection and of the switcher and the results of the locks are. The
  -- packet has fewer than 65536 bytes; its commands lie one behind the other and have the bytes that
  -- their cases read, "_pin" a text that ends and "MPfe" no still; a packet of 12 bytes has none.
  -- The window takes its id, the buffer holds bytes, at least 13 and those of the two `recv`, and
  -- `malloc` returns blocks of the size asked for.
  pub round-Returns :
      (t0 t : Task) (input : Input) (head bytes : Bytes) (cs : List Bytes) (id : ℕ)
      (r : Bool × SequenceCheck)
      → t0.atem.send_packets ≡ []
      → Reaches w t0 t
      → 13 ≤ length t.buffer
      → AreBytes t.buffer
      → length head ≤ length t.buffer
      → AreBytes head
      → 12 ≤ length bytes
      → length bytes ≤ length t.buffer
      → length bytes < 65536
      → AreBytes bytes
      → AreCommands cs
      → Laid bytes begin cs (length bytes)
      → AreComplete bytes begin cs
      → Packet.get_id bytes ≡ some id
      → Sequence.add t.atem.sequence id ≡ some r
      → (t' : Task) × (round w (record input { peeked = got head; received = got bytes }) t
          ≡ some t')
  unfolding round on_peeked
  round-Returns t0 t input head bytes cs id r none_yet reached big hm head_fits hh header fits short
        hb are laid complete is_id added =
      let b1 = buffered t.buffer head head_fits hm hh in
      let b2 = buffered b1.after bytes (omega (arith, b1.same_length)) b1.are_bytes hb in
      let longer : length bytes ≤ length b2.after = omega (arith, b1.same_length, b2.same_length) in
      let (t', e, _) =
        on_received-Returns w sizes (record input { peeked = got head; received = got bytes })
          (length bytes) (record t { buffer = b2.after; ack_count = 0 }) id r
          (omega (arith, b1.same_length, b2.same_length)) b2.are_bytes
          (get_id-same bytes b2.after longer b2.same header ∙ is_id) added
          (λ own lt sequence s.
            parse_packet-IsDefined sequence b2.after s cs (length bytes) own short are
              (Laid-same bytes b2.after longer b2.same begin cs (length bytes) (omega arith) laid)
              (AreComplete-same bytes b2.after longer b2.same begin cs complete))
          (stored_ready t0 t none_yet reached) in
      (t', rw (b1.returns, b2.returns) e)
