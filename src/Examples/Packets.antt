-- ===== src/Examples/Packets.antt =====
-- `AtemPacket`, the commands and `SendCommands` on concrete packets.
use atem_esp_idf.Prelude.{
  ℕ, ◌≡◌, refl, true, Option, none, some, List, [], ◌∷◌, arith, length, replicate, length-replicate,
}
use atem_esp_idf.Buffer.{Bytes}
use atem_esp_idf.Types.{ProtocolVersion}
use atem_esp_idf.Command
use atem_esp_idf.Packet
use atem_esp_idf.Packet.Header.{HasFields, HasNoIds, create-fields}
use atem_esp_idf.Packet.Fields.{set_all, Reads, set_all-Reads}
use atem_esp_idf.Packet.Layout.{Laid, commands_of, commands_of-Laid}
use atem_esp_idf.Packet.Iterator.{begin}
use atem_esp_idf.Command.Classes.{program_input, dsk_auto, construct}
use atem_esp_idf.Command.Stores.{HasHeader}
use atem_esp_idf.Command.WellFormed.{construct-HasHeader}
use atem_esp_idf.Atem.Object.{Atem, sent, initial, active}
use atem_esp_idf.Atem.Connection.{World, esp_ok, CommandObject, send_commands, store_packet}
use atem_esp_idf.Atem.Assemble.{AreObjects}
use atem_esp_idf.Atem.Send.{Sends, send_commands-Sends}

-- Memory that holds zeros, and a network that takes all.
abbrev pub zeros : ℕ → Bytes
zeros n = replicate n 0

abbrev pub world : World
world = record { malloc = zeros; send = λ log data'. some (length data') }

pub zeros-length : (n : ℕ) → length (zeros n) ≡ n
zeros-length n = length-replicate n 0

create-fields_example :
    (m : Bytes) × (Packet.create zeros 0x1 0x8001 2060 ≡ some m)
    × (length m ≡ 2060)
    × HasFields 1 0x8001 12 m
    × HasNoIds m
create-fields_example =
    create-fields zeros 0x1 0x8001 2060 zeros-length (omega arith) (omega arith) (omega arith)

-- "_top" and "PrgI", of 8 and 12 bytes.
abbrev top_block : Bytes
top_block = 0 ∷ 8 ∷ 0 ∷ 0 ∷ b'_' ∷ b't' ∷ b'o' ∷ b'p' ∷ []

abbrev prgi_block : Bytes
prgi_block = 0 ∷ 12 ∷ 0 ∷ 0 ∷ b'P' ∷ b'r' ∷ b'g' ∷ b'I' ∷ 0 ∷ 0 ∷ 0 ∷ 3 ∷ []

abbrev two_commands : Bytes
two_commands =
    8 ∷ 32 ∷ 128 ∷ 1 ∷ 0 ∷ 0 ∷ 0 ∷ 0 ∷ 0 ∷ 0 ∷ 0 ∷ 9 ∷ 0 ∷ 8 ∷ 0 ∷ 0 ∷ b'_' ∷ b't' ∷ b'o' ∷ b'p' ∷ 0
    ∷ 12 ∷ 0 ∷ 0 ∷ b'P' ∷ b'r' ∷ b'g' ∷ b'I' ∷ 0 ∷ 0 ∷ 0 ∷ 3 ∷ []

set_all-Reads_example :
    (m' : Bytes) × (set_all two_commands 0x11 5 6 7 8 ≡ some m') × Reads two_commands 0x11 5 6 8 m'
set_all-Reads_example =
    set_all-Reads two_commands 0x11 5 6 7 8 (omega arith) (omega arith) (omega arith) (omega arith)
      (omega arith) (omega arith)

two_commands-length : Packet.get_length two_commands ≡ some 32
unfolding Packet.get_length
two_commands-length = refl

two_commands-Laid : Laid two_commands begin (top_block ∷ prgi_block ∷ []) 32
two_commands-Laid = (λ j h. ground arith, (λ j h. ground arith, refl))

commands_of-Laid_example : commands_of two_commands ≡ some (top_block ∷ prgi_block ∷ [])
commands_of-Laid_example =
    commands_of-Laid two_commands (top_block ∷ prgi_block ∷ []) 32 two_commands-length (omega arith)
      (omega arith)
      (
        record { has_length = omega arith; own_length = refl },
        (record { has_length = omega arith; own_length = refl }, tt),
      )
      two_commands-Laid

construct-HasHeader_example :
    (m : Bytes) × (construct zeros (program_input 3 0) ≡ some m)
    × HasHeader 12 (b'C', b'P', b'g', b'I') m
construct-HasHeader_example = construct-HasHeader zeros zeros-length (program_input 3 0)

-- What the constructors of `ProgramInput(3)` and `DskAuto(1)` build.
abbrev pub program_block : Bytes
program_block = 0 ∷ 12 ∷ 0 ∷ 0 ∷ b'C' ∷ b'P' ∷ b'g' ∷ b'I' ∷ 0 ∷ 0 ∷ 0 ∷ 3 ∷ []

abbrev dsk_block : Bytes
dsk_block = 0 ∷ 12 ∷ 0 ∷ 0 ∷ b'D' ∷ b'D' ∷ b's' ∷ b'A' ∷ 0 ∷ 0 ∷ 0 ∷ 0 ∷ []

construct_program : construct zeros (program_input 3 0) ≡ some program_block
unfolding construct Command.create
construct_program = refl

construct_dsk : construct zeros (dsk_auto 1) ≡ some dsk_block
unfolding construct Command.create
construct_dsk = refl

dsk-HasHeader : HasHeader 12 (b'D', b'D', b's', b'A') dsk_block
dsk-HasHeader = record {
  size = refl;
  length_high = refl;
  length_low = refl;
  name0 = refl;
  name1 = refl;
  name2 = refl;
  name3 = refl;
}

abbrev new_version : ProtocolVersion
new_version = record { major = 2; minor = 30 }

abbrev pub objects : List (Option CommandObject)
objects =
    some (record { command = program_input 3 0; block = program_block })
    ∷ none
    ∷ some (record { command = dsk_auto 1; block = dsk_block })
    ∷ []

pub objects-AreObjects : AreObjects objects
objects-AreObjects = (
  record {
    header = record {
      size = refl;
      length_high = refl;
      length_low = refl;
      name0 = refl;
      name1 = refl;
      name2 = refl;
      name3 = refl;
    };
    bytes = ground arith;
  },
  (record { header = dsk-HasHeader; bytes = ground arith }, tt),
)

-- An active session.
abbrev pub session : Atem
session = record (initial 0x8001) { state = active }

send_commands-Sends_example :
    (packet : Bytes) × Sends session objects packet
    × (send_commands world true objects session
        ≡ some (
          esp_ok,
          record session {
            local_id = 1;
            log = sent packet ∷ [];
            send_packets = store_packet packet [];
          },
        ))
send_commands-Sends_example =
    send_commands-Sends world session objects zeros-length (λ log data'. refl) objects-AreObjects
      (omega arith) (omega arith) (omega arith) (omega arith)
