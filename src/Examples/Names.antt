-- ===== src/Examples/Names.antt =====
-- A session that names a still twice.
use atem_esp_idf.Prelude.{ℕ, ◌≤◌, ◌++◌, replicate, ◌≡◌, refl, some, none, [], ◌∷◌, arith}
use atem_esp_idf.Buffer.{Bytes}
use atem_esp_idf.Sequence.{SequenceCheck}
use atem_esp_idf.Packet
use atem_esp_idf.Packet.Iterator.{begin}
use atem_esp_idf.Packet.Layout.{Laid}
use atem_esp_idf.Command
use atem_esp_idf.Command.{get_cmd, get_data, get_data_s, atem_cmd}
use atem_esp_idf.Sequence
use atem_esp_idf.State.{put, set, is_valid}
use atem_esp_idf.Buffer.Text.{strndup, strnlen, strlen, text_length}
use atem_esp_idf.Atem.Typed.Product.{ShowsText, session-ShowsText}
use atem_esp_idf.Atem.Getters.{get_product_id}
use atem_esp_idf.Atem.Events.{bit_of, event_product_id}
use atem_esp_idf.Atem.Handlers.Device.{on_pin}
use atem_esp_idf.Packet.Iterator.{for_commands, walk, next}
use atem_esp_idf.Atem.Handlers.Media.{on_mpfe, clear_file, store_file}
use atem_esp_idf.Atem.Object.{Switcher, cleared, find, assign, free, allocate}
use atem_esp_idf.Atem.Dispatch.{pin, kind_of, handle, on_command, parse_packet}
use atem_esp_idf.Atem.Owned.Session.{AreNamed, IsWhole, Packets, parse_packets, AreInOrder}
use atem_esp_idf.Atem.Object.{Atem, initial}
use atem_esp_idf.Atem.Sessions.{IsSession, IsEmpty, sessions, sessions-IsEmpty}
use atem_esp_idf.Examples.Packets.{world, zeros-length}
use atem_esp_idf.Examples.Stored.{packet_id}

-- "MPfe" of the still 7, with a name of two letters.
abbrev name_block : Bytes
name_block =
    0 ∷ 34 ∷ 0 ∷ 0 ∷ b'M' ∷ b'P' ∷ b'f' ∷ b'e' ∷ 0 ∷ 0 ∷ 0 ∷ 7 ∷ 1 ∷ 0 ∷ 0 ∷ 0 ∷ 0 ∷ 0 ∷ 0 ∷ 0 ∷ 0
    ∷ 0 ∷ 0 ∷ 0 ∷ 0 ∷ 0 ∷ 0 ∷ 0 ∷ 0 ∷ 0 ∷ 0 ∷ 2 ∷ b'a' ∷ b'b' ∷ []

abbrev name_packet : Bytes
name_packet = 8 ∷ 46 ∷ 128 ∷ 1 ∷ 0 ∷ 0 ∷ 0 ∷ 0 ∷ 0 ∷ 0 ∷ 0 ∷ 9 ∷ name_block

name_packet-Laid : Laid name_packet begin (name_block ∷ []) 46
name_packet-Laid = (λ j h. ground arith, refl)

name_packet-AreNamed : AreNamed name_packet begin (name_block ∷ [])
unfolding get_cmd kind_of get_data
name_packet-AreNamed =
    ((atem_cmd b'M' b'P' b'f' b'e', refl, (omega arith, (2, refl, omega arith))), tt)

name_packet-IsWhole : IsWhole name_packet
unfolding Packet.get_length
name_packet-IsWhole = record {
  end = 46;
  commands = name_block ∷ [];
  own_length = refl;
  fits = omega arith;
  are_commands = (record { has_length = omega arith; own_length = refl }, tt);
  laid = name_packet-Laid;
  named = name_packet-AreNamed;
}

-- Packets 4 and 5.
abbrev names : Packets
names = (packet_id 4, name_packet) ∷ (packet_id 5, name_packet) ∷ []

names-AreInOrder : AreInOrder (packet_id 0) names
names-AreInOrder = (
  omega arith,
  (omega arith, (name_packet-IsWhole, (omega arith, (omega arith, (name_packet-IsWhole, tt))))),
)

-- After the two packets: the first name is freed.
abbrev named_twice : Switcher
named_twice = record (cleared (none ∷ some (b'a' ∷ b'b' ∷ []) ∷ [])) {
  media_player_file = (7, record { last_change_id = 5; state = 2 }) ∷ [];
}

names_parsed : parse_packets names (cleared []) ≡ some named_twice
unfolding parse_packet on_command kind_of handle on_mpfe clear_file store_file for_commands walk
    next Command.get_length get_cmd get_data get_data_s Packet.get_length find assign free allocate
    strndup strnlen put set is_valid Sequence.is_newer
names_parsed = refl

names-IsSession : IsSession names
names-IsSession = record {
  before = packet_id 0;
  in_order = names-AreInOrder;
  of_bytes = (omega arith, ground arith, (omega arith, ground arith, tt));
}

abbrev empty : Atem
empty = record (initial 0) { switcher = cleared [] }

-- The same session twice.
sessions-IsEmpty_example :
    (a' : Atem) × (sessions world (names ∷ names ∷ []) empty ≡ some a') × IsEmpty a'
sessions-IsEmpty_example =
    sessions-IsEmpty world zeros-length (names ∷ names ∷ []) empty
      (names-IsSession, (names-IsSession, tt))
      (record { heap = []; empty = refl; none_live = λ k. refl })

-- A command _pin, with a text of 44 bytes.
abbrev pin_command : Bytes
pin_command = 0 ∷ 52 ∷ 0 ∷ 0 ∷ b'_' ∷ b'p' ∷ b'i' ∷ b'n' ∷ (replicate 44 b'A' ++ 0 ∷ [])

-- The switcher after it.
abbrev with_product : Switcher
with_product = record named_twice { product_id = replicate 44 b'A' ++ 0 ∷ [] }

pin_handled :
    handle (packet_id 6) pin_command pin 0 named_twice
    ≡ some (bit_of event_product_id, with_product)
unfolding handle on_pin strlen text_length
pin_handled = refl

session-ShowsText_example :
    ((n : ℕ) × (strlen (get_product_id named_twice) 0 ≡ some n) × (n ≤ 44))
    × ShowsText pin_command 8 (get_product_id with_product)
session-ShowsText_example =
    session-ShowsText names [] named_twice (packet_id 6) pin_command 0 (bit_of event_product_id)
      with_product (omega arith, ground arith, (omega arith, ground arith, tt)) (ground arith)
      names_parsed pin_handled
