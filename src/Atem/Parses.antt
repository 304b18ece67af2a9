-- ===== src/Atem/Parses.antt =====
-- The loop over the commands of a packet that has all the bytes that its cases read.
use atem_esp_idf.Prelude.{
  ℕ, zero, suc, ◌+◌, ◌≡◌, ◌<◌, refl, some, List, [], ◌∷◌, arith, length, ◌==◌, ==_self, u16,
}
use atem_esp_idf.Prelude.Returns.{IsDefined, IsDefined-bind, IsDefined-if}
use atem_esp_idf.Buffer.{Bytes}
use atem_esp_idf.Sequence.{SequenceCheck}
use atem_esp_idf.Packet
use atem_esp_idf.Packet.Iterator.{walk, next, for_commands, begin, max_commands}
use atem_esp_idf.Packet.Layout.{Laid, AreCommands, Laid-le, load16-At}
use atem_esp_idf.Command
use atem_esp_idf.Command.{get_cmd}
use atem_esp_idf.Atem.Object.{Switcher}
use atem_esp_idf.Atem.Dispatch.{kind_of, on_command, parse_packet}
use atem_esp_idf.Atem.Handlers.Complete.{Reads}
use atem_esp_idf.Atem.Handlers.Complete.Cases.{handle-IsDefined}

-- Each command has a name, and what the case of that name reads.
abbrev pub AreComplete : Bytes → ℕ → List Bytes → Type 0
AreComplete m i [] = Unit {0}
AreComplete m i (c ∷ cs) =
    ((cmd : ℕ) × (get_cmd m i ≡ some cmd) × Reads (kind_of cmd) m i)
    × AreComplete m (i + length c) cs

module _ (sequence : SequenceCheck) (m : Bytes) where
  on_command-IsDefined :
      (i event cmd : ℕ) (s : Switcher)
      → get_cmd m i ≡ some cmd
      → Reads (kind_of cmd) m i
      → IsDefined (on_command sequence m i (event, s))
  unfolding on_command
  on_command-IsDefined i event cmd s e h =
      rw e (IsDefined-bind _ _ (handle-IsDefined sequence m i s (kind_of cmd) h) λ r. (_, refl))

  pub next-Laid :
      (i end : ℕ) (c : Bytes) (cs : List Bytes)
      → end < 65536
      → AreCommands (c ∷ cs)
      → Laid m i (c ∷ cs) end
      → next m i ≡ some (i + length c)
  unfolding next Command.get_length
  next-Laid i end c cs fits are h =
      let step : u16 (i + length c) ≡ i + length c =
        omega (arith, Laid-le m (i + length c) cs end h.1) in
      rw (load16-At m i c are.0.has_length h.0, are.0.own_length, step) refl

  walk-IsDefined :
      (end : ℕ) (cs : List Bytes) (left i event : ℕ) (s : Switcher)
      → end < 65536
      → AreCommands cs
      → Laid m i cs end
      → AreComplete m i cs
      → IsDefined (walk (on_command sequence m) m end left i (event, s))
  unfolding walk
  walk-IsDefined end cs zero i event s fits are h k = (_, refl)
  walk-IsDefined end [] (suc left) i event s fits are h k = rw (h, ==_self end) (_, refl)
  walk-IsDefined end (c ∷ cs) (suc left) i event s fits are h k =
      IsDefined-if (i == end) _ _ (_, refl)
        λ e. IsDefined-bind _ _ (on_command-IsDefined i event k.0.0 s k.0.1 k.0.2) λ r.
          rw (next-Laid i end c cs fits are h)
            (walk-IsDefined end cs left (i + length c) r.0 r.1 fits are.1 h.1 k.1)

  -- A packet whose commands lie one behind the other and have the bytes that their cases read is
  -- parsed without a fault, from any state of the switcher.
  pub parse_packet-IsDefined :
      (s : Switcher) (cs : List Bytes) (end : ℕ)
      → Packet.get_length m ≡ some end
      → end < 65536
      → AreCommands cs
      → Laid m begin cs end
      → AreComplete m begin cs
      → IsDefined (parse_packet sequence m s)
  unfolding parse_packet for_commands
  parse_packet-IsDefined s cs end e fits are h k =
      rw e (walk-IsDefined end cs max_commands begin 0 s fits are h k)
