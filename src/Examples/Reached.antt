-- ===== src/Examples/Reached.antt =====
-- A session after a call of `SendCommands`.
use atem_esp_idf.Prelude.{ℕ, ◌≡◌, refl, true, some, [], ◌∷◌, arith}
use atem_esp_idf.Buffer.{Bytes}
use atem_esp_idf.Packet
use atem_esp_idf.Command
use atem_esp_idf.Command.Classes.{prepair_command}
use atem_esp_idf.Command.{get_cmd, atem_cmd}
use atem_esp_idf.Packet.Iterator.{begin}
use atem_esp_idf.Packet.Layout.{Laid}
use atem_esp_idf.Atem.Dispatch.{kind_of}
use atem_esp_idf.Atem.Parses.{AreComplete}
use atem_esp_idf.Atem.Object.{Atem, sent}
use atem_esp_idf.Atem.Connection.{
  esp_ok, send_commands, total_length, copy_commands, send_packet, store_packet, send_dropped,
}
use atem_esp_idf.Atem.Task.{got, Task, round}
use atem_esp_idf.Atem.Stored.{Reaches, start, calls}
use atem_esp_idf.Atem.Answer.{Answers, on_ack_request-Answers}
use atem_esp_idf.Atem.Ready.Total.{Reaches-send_dropped, round-Returns}
use atem_esp_idf.Examples.Packets.{world, session, zeros-length}
use atem_esp_idf.Examples.Outcomes.{program}
use atem_esp_idf.Examples.Tasks.{quiet, task, packet, packet_flags, packet_id, request_added}

-- What goes out for `ProgramInput(3)`.
abbrev program_packet : Bytes
program_packet =
    8 ∷ 24 ∷ 128 ∷ 1 ∷ 0 ∷ 0 ∷ 0 ∷ 0 ∷ 0 ∷ 0 ∷ 0 ∷ 1 ∷ 0 ∷ 12 ∷ 0 ∷ 0 ∷ b'C' ∷ b'P' ∷ b'g' ∷ b'I'
    ∷ 0 ∷ 0 ∷ 0 ∷ 3 ∷ []

abbrev called : Atem
called = record session {
  local_id = 1;
  log = sent program_packet ∷ [];
  send_packets = program_packet ∷ [];
}

called_is : send_commands world true (some program ∷ []) session ≡ some (esp_ok, called)
unfolding send_commands total_length copy_commands send_packet store_packet prepair_command
    Packet.create Packet.set_id Packet.get_length Command.get_length
called_is = refl

abbrev called_task : Task
called_task = record task { atem = called }

called_reached : Reaches world task called_task
called_reached = calls true (some program ∷ []) start called_is

Reaches-send_dropped_example :
    ((data' : Bytes) × (send_dropped world program_packet session
        ≡ some (record session { log = sent data' ∷ [] })))
    × ((id : ℕ) × (Packet.get_id program_packet ≡ some id))
Reaches-send_dropped_example =
    Reaches-send_dropped world zeros-length task called_task 0 program_packet session refl
      called_reached refl

-- The only command of `packet`.
abbrev pub prgi_block : Bytes
prgi_block = 0 ∷ 12 ∷ 0 ∷ 0 ∷ b'P' ∷ b'r' ∷ b'g' ∷ b'I' ∷ 0 ∷ 0 ∷ 0 ∷ 3 ∷ []

pub packet-Laid : Laid packet begin (prgi_block ∷ []) 24
packet-Laid = (λ j h. ground arith, refl)

packet-AreComplete : AreComplete packet begin (prgi_block ∷ [])
unfolding get_cmd kind_of
packet-AreComplete = ((atem_cmd b'P' b'r' b'g' b'I', refl, (omega arith, tt)), tt)

round-Returns_example :
    (t' : Task) × (round world
        (record quiet { peeked = got (8 ∷ 24 ∷ []); received = got packet })
        called_task
      ≡ some t')
round-Returns_example =
    round-Returns world zeros-length task called_task quiet (8 ∷ 24 ∷ []) packet (prgi_block ∷ []) 2
      (true, record { offset = 2; last_id = 2; received = 0xFFFFFFFD }) refl called_reached
      (omega arith) (ground arith) (omega arith) (ground arith) (omega arith) (omega arith)
      (omega arith) (ground arith) (record { has_length = omega arith; own_length = refl }, tt)
      packet-Laid packet-AreComplete packet_id request_added

packet_session : Packet.get_session_id packet ≡ some 0x8001
unfolding Packet.get_session_id
packet_session = refl

on_ack_request-Answers_example :
    Answers world packet 0x8001 2 true
      (record { offset = 2; last_id = 2; received = 0xFFFFFFFD })
      session
on_ack_request-Answers_example =
    on_ack_request-Answers world zeros-length packet session 0x1 0x8001 2 true
      (record { offset = 2; last_id = 2; received = 0xFFFFFFFD }) packet_flags refl packet_session
      (omega arith) packet_id (omega arith) request_added
