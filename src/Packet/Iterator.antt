-- ===== src/Packet/Iterator.antt =====
-- `AtemPacket::Iterator` and the `for` loops over `begin()` and `end()`.
use atem_esp_idf.Prelude.{ℕ, zero, suc, ◌+◌, Option, some, ◌==◌, if◌then◌else◌, u16, ◌>>=◌}
use atem_esp_idf.Buffer.{Bytes}
use atem_esp_idf.Packet
use atem_esp_idf.Command

-- The offset of the first command.
abbrev pub begin : ℕ
begin = 12

-- `operator++`: on by the length of the command at `i`, in 16 bits.
unfoldable pub next : Bytes → ℕ → Option ℕ
next m i = do n ← Command.get_length m i; some (u16 (i + n))

module _ {S : Type 0} (body : ℕ → S → Option S) (m : Bytes) (end : ℕ) where
  -- `for (AtemCommand command : packet)` with a `break` after `left` commands; the body takes the
  -- command's offset.
  unfoldable pub walk : ℕ → ℕ → S → Option S
  walk zero i s = some s
  walk (suc left) i s =
      let rest : Option S = (do s' ← body i s; i' ← next m i; walk left i' s') in
      if i == end then some s else rest

-- The loop of `task_`, which stops after 512 commands.
abbrev pub max_commands : ℕ
max_commands = 512

unfoldable pub for_commands : {S : Type 0} → (ℕ → S → Option S) → Bytes → S → Option S
for_commands body m s = do end ← Packet.get_length m; walk body m end max_commands begin s
