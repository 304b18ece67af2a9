-- ===== src/Packet.antt =====
-- include/atem_packet.h and src/atem_packet.cpp: `AtemPacket`, a view of a block of memory. The
-- block's bytes are the packet; `malloc` gives a block of which only the size is known.
pub mod Header
pub mod Fields
pub mod Iterator
pub mod Layout
use atem_esp_idf.Prelude.{
  ℕ, Option, some, [], ◌∷◌, ltb, if◌then◌else◌, u8, ◌<<<◌, ◌>>>◌, ◌>>=◌, bit_or, bit_and,
}
use atem_esp_idf.Buffer.{Bytes, load8, load16, store8, store16, copy_to}

abbrev pub header_size : ℕ
header_size = 12

-- `AtemPacket(flags, session, length)` over the block that `malloc` returned for a size.
unfoldable pub create : (ℕ → Bytes) → ℕ → ℕ → ℕ → Option Bytes
create malloc flags session length = do
  let size = if ltb length 12 then 12 else length
  m ← copy_to (malloc size) 0 (0 ∷ 0 ∷ 0 ∷ 0 ∷ 0 ∷ 0 ∷ 0 ∷ 0 ∷ 0 ∷ 0 ∷ 0 ∷ 0 ∷ [])
  m ← store8 m 0 (flags <<< 3)
  hi ← load8 m 0
  lo ← load8 m 1
  m ← store8 m 0 (bit_or hi (size >>> 8))
  m ← store8 m 1 (bit_or lo (u8 size))
  store16 m 2 session

unfoldable pub get_flags : Bytes → Option ℕ
get_flags m = do b ← load8 m 0; some (b >>> 3)

unfoldable pub get_length : Bytes → Option ℕ
get_length m = do n ← load16 m 0; some (bit_and n 0x07FF)

unfoldable pub get_session_id : Bytes → Option ℕ
get_session_id m = load16 m 2

unfoldable pub get_ack_id : Bytes → Option ℕ
get_ack_id m = load16 m 4

unfoldable pub get_resend_id : Bytes → Option ℕ
get_resend_id m = load16 m 6

unfoldable pub get_id : Bytes → Option ℕ
get_id m = load16 m 10

unfoldable pub set_flags : Bytes → ℕ → Option Bytes
set_flags m flags = do b ← load8 m 0; store8 m 0 (bit_or (flags <<< 3) (bit_and b 0x7))

unfoldable pub set_ack_id : Bytes → ℕ → Option Bytes
set_ack_id m id = store16 m 4 id

unfoldable pub set_resend_id : Bytes → ℕ → Option Bytes
set_resend_id m id = store16 m 6 id

unfoldable pub set_unknown : Bytes → ℕ → Option Bytes
set_unknown m id = store16 m 8 id

unfoldable pub set_id : Bytes → ℕ → Option Bytes
set_id m id = store16 m 10 id
