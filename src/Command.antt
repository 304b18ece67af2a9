-- ===== src/Command.antt =====
-- include/atem_command.h and src/atem_command.cpp: `AtemCommand`, a view of a command at an offset
-- of a block: 2 bytes of length, 2 unused, 4 of name, then the data.
pub mod Classes
pub mod Stores
pub mod WellFormed
use atem_esp_idf.Prelude.{ℕ, ◌+◌, ◌*◌, Option, some, ◌<<<◌, ◌>>=◌, bit_or, ◌^◌}
use atem_esp_idf.Buffer.{Bytes, load8, load16, load32, store16, copy_to}

-- `ATEM_CMD(s)`, from the four characters of `s`.
abbrev pub atem_cmd : ℕ → ℕ → ℕ → ℕ → ℕ
atem_cmd a b c d = bit_or (bit_or (bit_or (a <<< 24) (b <<< 16)) (c <<< 8)) d

abbrev pub header_size : ℕ
header_size = 8

-- `AtemCommand(cmd, length)` over the block that `malloc` returned: the two unused bytes and the
-- data keep what the block held.
unfoldable pub create : (ℕ → Bytes) → Bytes → ℕ → Option Bytes
create malloc cmd length = do m ← store16 (malloc length) 0 length; copy_to m 4 cmd

-- The accessors of the command at `base`.
unfoldable pub get_length : Bytes → ℕ → Option ℕ
get_length m base = load16 m base

unfoldable pub get_cmd : Bytes → ℕ → Option ℕ
get_cmd m base = do
  a ← load8 m (base + 4)
  b ← load8 m (base + 5)
  c ← load8 m (base + 6)
  d ← load8 m (base + 7)
  some (atem_cmd a b c d)

-- `GetData(i)`, and `GetData<uint8_t *>()[i]`.
unfoldable pub get_data : Bytes → ℕ → ℕ → Option ℕ
get_data m base i = load8 m (base + 8 + i)

-- `GetDataS(i)`, and `ntohs(GetData<uint16_t *>()[i])`.
unfoldable pub get_data_s : Bytes → ℕ → ℕ → Option ℕ
get_data_s m base i = load16 m (base + 8 + 2 * i)

-- `ntohl(GetData<uint32_t *>()[i])`.
unfoldable pub get_data_u32 : Bytes → ℕ → ℕ → Option ℕ
get_data_u32 m base i = load32 m (base + 8 + 4 * i)

-- `GetDataL(i)`: `ntohl` of a 16-bit load at half the step, on a little-endian host.
unfoldable pub get_data_l : Bytes → ℕ → ℕ → Option ℕ
get_data_l m base i = do
  lo ← load8 m (base + 4 + 2 * i)
  hi ← load8 m (base + 5 + 2 * i)
  some (lo * 2 ^ 24 + hi * 2 ^ 16)
