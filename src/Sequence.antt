-- ===== src/Sequence.antt =====
-- include/sequence_check.h: `SequenceCheck`, the window of the last 32 packet ids. Ids are
-- `int16_t` patterns; bit `k` of `received` stands for the id `k` before `offset`.
pub mod Window
pub mod Add
pub mod Cases
pub mod Missing
pub mod Rollover
pub mod Stream
pub mod Numbers
use atem_esp_idf.Prelude.{
  ℕ, zero, suc, ◌+◌, ◌-◌, Bool, true, false, Option, none, some, bit_and, bit_or, ltb, ◌==◌,
  if◌then◌else◌, nonzero, u16, u32, ◌<<<◌, lt_s16, abs_diff_s16, int16_max,
}

pub record SequenceCheck : Type 0 where
  pub offset : ℕ
  pub last_id : ℕ
  pub received : ℕ

abbrev pub uint32_max : ℕ
uint32_max = 0xFFFFFFFF

-- The size of `received` in bits.
abbrev pub recv_len : ℕ
recv_len = 32

-- The constructor, with the members' initialisers.
abbrev pub init : SequenceCheck
init = record { offset = 1; last_id = 0; received = uint32_max - 1 }

-- `(id - offset_) & INT16_MAX`, how far `id` is ahead of the window's head.
unfoldable pub ahead : SequenceCheck → ℕ → ℕ
ahead s id = bit_and (u16 (id + 65536 - s.offset)) int16_max

-- Make room in the buffer for an id that is less than 32 ahead.
unfoldable pub advance : SequenceCheck → ℕ → SequenceCheck
unfolding ahead
advance s id =
    if ltb (ahead s id) recv_len
    then record s { offset = id; received = u32 (s.received <<< ahead s id) }
    else s

-- The test and the write of the bit at `offset`.
unfoldable pub mark : SequenceCheck → ℕ → Bool × SequenceCheck
mark s offset =
    if nonzero (bit_and s.received (1 <<< offset))
    then (false, s)
    else (true, record s { received = bit_or s.received (1 <<< offset) })

-- `none` is the shift `1 << offset` by 32 or more, which C++ leaves undefined.
unfoldable pub add : SequenceCheck → ℕ → Option (Bool × SequenceCheck)
add s id =
    let s' = advance (record s { last_id = id }) id in
    let offset = abs_diff_s16 id s'.offset in
    if ltb offset recv_len then some (mark s' offset) else none

-- The pattern of -1.
abbrev pub nothing_missing : ℕ
nothing_missing = 0xFFFF

-- `for (i = recv_len - 1; i != 0; i--)`, on the `i` left to test.
unfoldable pub scan : SequenceCheck → ℕ → ℕ
scan s zero = nothing_missing
scan s (suc i) =
    if nonzero (bit_and s.received (1 <<< suc i))
    then scan s i
    else bit_and (u16 (s.offset + 65536 - suc i)) int16_max

unfoldable pub get_missing : SequenceCheck → ℕ
unfolding scan
get_missing s = if s.received == uint32_max then nothing_missing else scan s 31

unfoldable pub contains : SequenceCheck → ℕ → Bool
contains s id = ltb (bit_and (u16 (s.offset + 65536 - id)) int16_max) recv_len

unfoldable pub is_newer : SequenceCheck → ℕ → Bool
is_newer s id = lt_s16 s.last_id id
