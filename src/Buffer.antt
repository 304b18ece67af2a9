-- ===== src/Buffer.antt =====
-- Raw memory as the list of its bytes: the loads and stores through cast pointers of atem_packet.h
-- and atem_command.h, with `ntohs`, `ntohl`, `htons` and `htonl`. An access outside the block is a
-- fault. A 16-bit load followed by `ntohs` reads the high byte first on any host.
pub mod Text
pub mod Store
pub mod Inside
use atem_esp_idf.Prelude.{
  ℕ, zero, suc, ◌+◌, ◌*◌, ◌<◌, ◌≡◌, Option, none, some, List, [], ◌∷◌, get_elem?, u8, ◌>>>◌, ◌>>=◌,
}

abbrev pub Bytes : Type 0
Bytes = List ℕ

abbrev pub load8 : Bytes → ℕ → Option ℕ
load8 m i = get_elem? m i

abbrev pub load16 : Bytes → ℕ → Option ℕ
load16 m i = do hi ← load8 m i; lo ← load8 m (suc i); some (hi * 256 + lo)

abbrev pub load32 : Bytes → ℕ → Option ℕ
load32 m i = do hi ← load16 m i; lo ← load16 m (suc (suc i)); some (hi * 65536 + lo)

abbrev pub store8 : Bytes → ℕ → ℕ → Option Bytes
store8 [] i v = none
store8 (b ∷ m) zero v = some (u8 v ∷ m)
store8 (b ∷ m) (suc i) v = do m' ← store8 m i v; some (b ∷ m')

abbrev pub store16 : Bytes → ℕ → ℕ → Option Bytes
store16 m i v = do m' ← store8 m i (v >>> 8); store8 m' (suc i) v

abbrev pub store32 : Bytes → ℕ → ℕ → Option Bytes
store32 m i v = do m' ← store16 m i (v >>> 16); store16 m' (suc (suc i)) v

-- `memcpy` into a block.
abbrev pub copy_to : Bytes → ℕ → Bytes → Option Bytes
copy_to m i [] = some m
copy_to m i (b ∷ bs) = do m' ← store8 m i b; copy_to m' (suc i) bs

-- `memcpy` out of a block.
abbrev pub copy_from : Bytes → ℕ → ℕ → Option Bytes
copy_from m i zero = some []
copy_from m i (suc n) = do b ← load8 m i; rest ← copy_from m (suc i) n; some (b ∷ rest)

-- Every element is a byte.
abbrev pub AreBytes : Bytes → Type 0
AreBytes [] = Unit {0}
AreBytes (b ∷ m) = (b < 256) × AreBytes m
