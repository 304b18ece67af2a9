-- ===== src/Atem/Typed/Packets.antt =====
-- The types over the data packets of a session.
use atem_esp_idf.Prelude.{ℕ, zero, suc, ◌≡◌, refl, some, [], ◌∷◌, arith, ◌==◌, length-replicate}
use atem_esp_idf.Prelude.Returns.{Ensures, Ensures-bind, Ensures-some, Ensures-if}
use atem_esp_idf.Buffer.{Bytes, AreBytes}
use atem_esp_idf.Sequence.{SequenceCheck}
use atem_esp_idf.Packet
use atem_esp_idf.Packet.Iterator.{walk, next, for_commands, begin, max_commands}
use atem_esp_idf.Command.{get_cmd}
use atem_esp_idf.Atem.Object.{Switcher, Heap, cleared, product_id_size}
use atem_esp_idf.Atem.Dispatch.{
  Kind, mpl, mec, ver, pin, top, auxs, dskb, dskp, dsks, ftbs, inpr, kebp, kedv, kefs, keon, mpce,
  mpfe, prgi, prvi, strs, trps, trss, other, kind_of, handle, on_command, parse_packet,
}
use atem_esp_idf.Atem.Owned.Session.{Packets, parse_packets}
use atem_esp_idf.Atem.Typed.{
  Fits16, IsTyped, of_inputs, of_topology, of_version, of_player, of_product, of_mix_effects,
  of_dsks, of_outputs, of_sources, of_files, of_stream,
}
use atem_esp_idf.Atem.Typed.Values.{zeros-AreBytes}
use atem_esp_idf.Atem.Typed.Device.{
  IsTypedResult, any, mpl-IsTyped, mec-IsTyped, ver-IsTyped, pin-IsTyped, inpr-IsTyped,
  strs-IsTyped,
}
use atem_esp_idf.Atem.Typed.Media.{top-IsTyped, mpce-IsTyped, mpfe-IsTyped}
use atem_esp_idf.Atem.Typed.MixEffects.{
  auxs-IsTyped, ftbs-IsTyped, prgi-IsTyped, prvi-IsTyped, trps-IsTyped, trss-IsTyped, keon-IsTyped,
}
use atem_esp_idf.Atem.Typed.Keyers.{
  dskb-IsTyped, dskp-IsTyped, dsks-IsTyped, kebp-IsTyped, kedv-IsTyped, kefs-IsTyped,
}

module _ (sequence : SequenceCheck) (fits : Fits16 sequence.last_id) (m : Bytes)
    (bytes : AreBytes m) where
  -- Each case of the switch keeps the types.
  handle-IsTyped :
      (k : Kind) (base : ℕ) (s : Switcher)
      → IsTyped s
      → Ensures IsTypedResult (handle sequence m k base s)
  unfolding handle
  handle-IsTyped mpl base s h = mpl-IsTyped sequence fits m bytes base s h
  handle-IsTyped mec base s h = mec-IsTyped sequence fits m bytes base s h
  handle-IsTyped ver base s h = ver-IsTyped sequence fits m bytes base s h
  handle-IsTyped pin base s h = pin-IsTyped sequence fits m bytes base s h
  handle-IsTyped top base s h = top-IsTyped sequence fits m bytes base s h
  handle-IsTyped auxs base s h = auxs-IsTyped sequence fits m bytes base s h
  handle-IsTyped dskb base s h = dskb-IsTyped sequence fits m bytes base s h
  handle-IsTyped dskp base s h = dskp-IsTyped sequence fits m bytes base s h
  handle-IsTyped dsks base s h = dsks-IsTyped sequence fits m bytes base s h
  handle-IsTyped ftbs base s h = ftbs-IsTyped sequence fits m bytes base s h
  handle-IsTyped inpr base s h = inpr-IsTyped sequence fits m bytes base s h
  handle-IsTyped kebp base s h = kebp-IsTyped sequence fits m bytes base s h
  handle-IsTyped kedv base s h = kedv-IsTyped sequence fits m bytes base s h
  handle-IsTyped kefs base s h = kefs-IsTyped sequence fits m bytes base s h
  handle-IsTyped keon base s h = keon-IsTyped sequence fits m bytes base s h
  handle-IsTyped mpce base s h = mpce-IsTyped sequence fits m bytes base s h
  handle-IsTyped mpfe base s h = mpfe-IsTyped sequence fits m bytes base s h
  handle-IsTyped prgi base s h = prgi-IsTyped sequence fits m bytes base s h
  handle-IsTyped prvi base s h = prvi-IsTyped sequence fits m bytes base s h
  handle-IsTyped strs base s h = strs-IsTyped sequence fits m bytes base s h
  handle-IsTyped trps base s h = trps-IsTyped sequence fits m bytes base s h
  handle-IsTyped trss base s h = trss-IsTyped sequence fits m bytes base s h
  handle-IsTyped other base s h = Ensures-some IsTypedResult _ h

  on_command-IsTyped :
      (base : ℕ) (r : ℕ × Switcher)
      → IsTypedResult r
      → Ensures IsTypedResult (on_command sequence m base r)
  unfolding on_command
  on_command-IsTyped base (event, s) h =
      Ensures-bind (λ c. Unit {0}) IsTypedResult _ _ (any (get_cmd m base))
        λ cmd _.
          Ensures-bind IsTypedResult IsTypedResult _ _ (handle-IsTyped (kind_of cmd) base s h)
            λ r k. Ensures-some IsTypedResult _ k

  walk-IsTyped :
      (end left i : ℕ) (r : ℕ × Switcher)
      → IsTypedResult r
      → Ensures IsTypedResult (walk (on_command sequence m) m end left i r)
  unfolding walk
  walk-IsTyped end zero i r h = Ensures-some IsTypedResult r h
  walk-IsTyped end (suc left) i r h =
      Ensures-if IsTypedResult (i == end) _ _ (Ensures-some IsTypedResult r h) (
        Ensures-bind IsTypedResult IsTypedResult _ _ (on_command-IsTyped i r h) λ r' k.
          Ensures-bind (λ j. Unit {0}) IsTypedResult _ _ (any (next m i))
            λ j _. walk-IsTyped end left j r' k)

  -- A packet of bytes keeps the types, however its commands lie and whatever they are.
  parse_packet-IsTyped :
      (s : Switcher) → IsTyped s → Ensures IsTypedResult (parse_packet sequence m s)
  unfolding parse_packet for_commands
  parse_packet-IsTyped s h =
      Ensures-bind (λ n. Unit {0}) IsTypedResult _ _ (any (Packet.get_length m))
        λ end _. walk-IsTyped end max_commands begin (0, s) h

-- Packets of bytes, with ids of 16 bits.
abbrev pub ArePackets : Packets → Type 0
ArePackets [] = Unit {0}
ArePackets ((sequence, m) ∷ packets) = Fits16 sequence.last_id × AreBytes m × ArePackets packets

cleared-IsTyped : (heap : Heap) → IsTyped (cleared heap)
cleared-IsTyped heap of_inputs = tt
cleared-IsTyped heap of_topology = (
  omega arith,
  record {
    me = omega arith;
    sources = omega arith;
    dsk = omega arith;
    aux = omega arith;
    mixminus_outputs = omega arith;
    mediaplayers = omega arith;
    multiviewers = omega arith;
    rs485 = omega arith;
    hyperdecks = omega arith;
    dve = omega arith;
    stingers = omega arith;
    supersources = omega arith;
    talkback_channels = omega arith;
    camera_control = omega arith;
  },
)
cleared-IsTyped heap of_version = (omega arith, (omega arith, omega arith))
cleared-IsTyped heap of_player = (omega arith, (omega arith, omega arith))
cleared-IsTyped heap of_product =
    (length-replicate {A = ℕ} product_id_size 0, zeros-AreBytes 45, refl)
cleared-IsTyped heap of_mix_effects = tt
cleared-IsTyped heap of_dsks = tt
cleared-IsTyped heap of_outputs = tt
cleared-IsTyped heap of_sources = tt
cleared-IsTyped heap of_files = tt
cleared-IsTyped heap of_stream = (omega arith, omega arith)

parse_packets-IsTyped :
    (packets : Packets) (s : Switcher)
    → ArePackets packets
    → IsTyped s
    → Ensures IsTyped (parse_packets packets s)
parse_packets-IsTyped [] s a h = Ensures-some IsTyped s h
parse_packets-IsTyped ((sequence, m) ∷ packets) s (fits, bytes, rest) h =
    Ensures-bind IsTypedResult IsTyped _ _ (parse_packet-IsTyped sequence fits m bytes s h)
      λ r k. parse_packets-IsTyped packets r.1 rest k

-- After any packets of bytes since a reset, whatever their commands are, if all are parsed: every
-- field of the switcher's state has a value of its type in include/atem_types.h and include/atem.h,
-- of 8, 16 or 32 bits, with packet ids of 16 bits, and every text has just the size of its array; the
-- last byte of the product's id is NUL.
pub session-IsTyped :
    (packets : Packets) (heap : Heap) (s : Switcher)
    → ArePackets packets
    → parse_packets packets (cleared heap) ≡ some s
    → IsTyped s
session-IsTyped packets heap s a e =
    parse_packets-IsTyped packets (cleared heap) a (cleared-IsTyped heap) s e
