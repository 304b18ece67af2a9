-- ===== src/Atem/Owned/Session.antt =====
-- The names over the data packets of a session, from a reset to the next one.
use atem_esp_idf.Prelude.{
  ℕ, zero, suc, ◌+◌, ◌≡◌, ◌≤◌, ◌<◌, refl, Option, some, List, [], ◌∷◌, arith, length, ◌==◌, ==_self,
  bias, ◌>>=◌,
}
use atem_esp_idf.Prelude.Returns.{Returns, Returns-if}
use atem_esp_idf.Buffer.{Bytes}
use atem_esp_idf.Sequence.{SequenceCheck}
use atem_esp_idf.Packet
use atem_esp_idf.Packet.Iterator.{walk, for_commands, begin, max_commands}
use atem_esp_idf.Packet.Layout.{Laid, AreCommands}
use atem_esp_idf.Command.{get_cmd}
use atem_esp_idf.Atem.Object.{Switcher, Heap, cleared}
use atem_esp_idf.Atem.Connection.{free_files}
use atem_esp_idf.Atem.Dispatch.{kind_of, on_command, parse_packet}
use atem_esp_idf.Atem.Parses.{next-Laid}
use atem_esp_idf.Atem.Owned.{live, AreCurrent-le}
use atem_esp_idf.Atem.Owned.Files.{IsOwned}
use atem_esp_idf.Atem.Owned.Freed.{free_files-frees}
use atem_esp_idf.Atem.Owned.Stills.{ReadsName, handle-IsOwned}

-- Each command has a name, and what the case of that name reads.
abbrev pub AreNamed : Bytes → ℕ → List Bytes → Type 0
AreNamed m i [] = Unit {0}
AreNamed m i (c ∷ cs) =
    ((cmd : ℕ) × (get_cmd m i ≡ some cmd) × ReadsName (kind_of cmd) m i)
    × AreNamed m (i + length c) cs

-- The packet's length, and the commands that lie one behind the other up to it.
pub record IsWhole (m : Bytes) : Type 0 where
  pub end : ℕ
  pub commands : List Bytes
  pub own_length : Packet.get_length m ≡ some end
  pub fits : end < 65536
  pub are_commands : AreCommands commands
  pub laid : Laid m begin commands end
  pub named : AreNamed m begin commands

module _ (sequence : SequenceCheck) (fits : sequence.last_id < 32768) (m : Bytes) where
  walk-IsOwned :
      (end : ℕ) (cs : List Bytes) (left i event : ℕ) (s : Switcher)
      → end < 65536
      → AreCommands cs
      → Laid m i cs end
      → AreNamed m i cs
      → IsOwned sequence s
      → Returns (λ r. IsOwned sequence r.1) (walk (on_command sequence m) m end left i (event, s))
  unfolding walk on_command
  walk-IsOwned end cs zero i event s le are h k o = (_, refl, o)
  walk-IsOwned end [] (suc left) i event s le are h k o = rw (h, ==_self end) (_, refl, o)
  walk-IsOwned end (c ∷ cs) (suc left) i event s le are h ((cmd, e, reads), k) o =
      Returns-if (λ r. IsOwned sequence r.1) (i == end) _ _ (_, refl, o)
        (rw e (
          let ((bits, s'), f, o') = handle-IsOwned sequence m i s (kind_of cmd) fits reads o in
          rw (f, next-Laid sequence m i end c cs le are h)
            (walk-IsOwned end cs left (i + length c) _ s' le are.1 h.1 k o')))

  parse_packet-IsOwned :
      (s : Switcher)
      → IsWhole m
      → IsOwned sequence s
      → Returns (λ r. IsOwned sequence r.1) (parse_packet sequence m s)
  unfolding parse_packet for_commands
  parse_packet-IsOwned s w o =
      rw w.own_length (
        walk-IsOwned w.end w.commands max_commands begin 0 s w.fits w.are_commands w.laid w.named o)

-- The packets of a session, each with the numbers of its time.
abbrev pub Packets : Type 0
Packets = List (SequenceCheck × Bytes)

-- Each packet parsed in turn.
abbrev pub parse_packets : Packets → Switcher → Option Switcher
parse_packets [] s = some s
parse_packets ((sequence, m) ∷ packets) s = do
  (event, s') ← parse_packet sequence m s
  parse_packets packets s'

-- No packet's id is before the one before it, or out of 15 bits.
abbrev pub AreInOrder : SequenceCheck → Packets → Type 0
AreInOrder before [] = Unit {0}
AreInOrder before ((sequence, m) ∷ packets) =
    (bias before.last_id ≤ bias sequence.last_id)
    × ((sequence.last_id < 32768) × (IsWhole m × AreInOrder sequence packets))

parse_packets-frees :
    (before : SequenceCheck) (packets : Packets) (s : Switcher)
    → AreInOrder before packets
    → IsOwned before s
    → (s' : Switcher) × (parse_packets packets s ≡ some s')
      × ((heap : Heap) × (free_files s'.media_player_file s'.heap ≡ some heap)
          × ((k : ℕ) → live (suc k) heap ≡ 0))
parse_packets-frees before [] s h o = (s, refl, free_files-frees s.media_player_file s.heap o.owns)
parse_packets-frees before ((sequence, m) ∷ packets) s (le, (fits, (whole, rest))) o =
    let current : IsOwned sequence s = record {
      owns = o.owns;
      current = AreCurrent-le before sequence s.media_player_file le o.current;
    } in
    let ((event, s'), e, o') = parse_packet-IsOwned sequence fits m s whole current in
    let (s'', f, frees) = parse_packets-frees sequence packets s' rest o' in (s'', rw e f, frees)

-- From a reset that left no block live, any packets that are in the order of their ids, and each of
-- whose commands has the bytes that its case reads, are parsed without a fault. In particular no
-- name is freed twice. And at the end the next reset frees all the names: no block of any name is
-- left.
pub session-frees :
    (before : SequenceCheck) (packets : Packets) (heap : Heap)
    → ((k : ℕ) → live (suc k) heap ≡ 0)
    → AreInOrder before packets
    → (s : Switcher) × (parse_packets packets (cleared heap) ≡ some s)
      × ((heap' : Heap) × (free_files s.media_player_file s.heap ≡ some heap')
          × ((k : ℕ) → live (suc k) heap' ≡ 0))
session-frees before packets heap gone h =
    parse_packets-frees before packets (cleared heap) h
      (record { owns = λ k. omega (arith, gone k); current = tt })
