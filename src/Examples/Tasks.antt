-- ===== src/Examples/Tasks.antt =====
-- Rounds of the task and calls of `SendCommands` on a concrete session.
use atem_esp_idf.Prelude.{◌≡◌, ◌<◌, ◌⊎◌, refl, true, some, [], ◌∷◌, arith}
use atem_esp_idf.Buffer.{Bytes}
use atem_esp_idf.Sequence
use atem_esp_idf.Sequence.Window.{IsValid}
use atem_esp_idf.Packet
use atem_esp_idf.Atem.Object.{sent, posted}
use atem_esp_idf.Atem.Connection.{reconnect, send_dropped, send_packet}
use atem_esp_idf.Atem.Task.{
  again, got, Input, Task, on_packet, round, on_peeked, on_received, on_init, on_init_complete,
  on_resend, on_ack_request, on_ack, on_payload, post_events, post_from, is_initializing,
  acknowledge,
}
use atem_esp_idf.Atem.Getters.{is_active}
use atem_esp_idf.Atem.Dispatch.{parse_packet, on_command, kind_of, handle}
use atem_esp_idf.Atem.Handlers.MixEffects.{on_prgi}
use atem_esp_idf.Command
use atem_esp_idf.Packet.Iterator.{for_commands, walk, next}
use atem_esp_idf.Atem.Session.{on_packet_twice}
use atem_esp_idf.Atem.Loss.{StaysActive, round_active}
use atem_esp_idf.Atem.Stored.{IsBounded, Reaches, start, rounds, Reaches-IsBounded}
use atem_esp_idf.Examples.Packets.{world, session}

-- "PrgI" in a packet with the id 2 and an ACK request.
abbrev pub packet : Bytes
packet =
    8 ∷ 24 ∷ 128 ∷ 1 ∷ 0 ∷ 0 ∷ 0 ∷ 0 ∷ 0 ∷ 0 ∷ 0 ∷ 2 ∷ 0 ∷ 12 ∷ 0 ∷ 0 ∷ b'P' ∷ b'r' ∷ b'g' ∷ b'I'
    ∷ 0 ∷ 0 ∷ 0 ∷ 3 ∷ []

abbrev pub quiet : Input
quiet = record {
  peeked = got packet;
  received = got packet;
  resend_locked = true;
  ack_locked = true;
  state_locked = true;
}

abbrev pub task : Task
task = record { atem = session; buffer = packet; ack_count = 0; boot_events = 0 }

-- After the packet: the id 1 is asked for again, and the program source is posted.
abbrev task_once : Task
task_once = record task {
  atem = record session {
    remote_id = 2;
    sequence = record { offset = 2; last_id = 2; received = 0xFFFFFFFD };
    log = posted 10 2 ∷ sent (192 ∷ 12 ∷ 128 ∷ 1 ∷ 0 ∷ 2 ∷ 0 ∷ 1 ∷ 1 ∷ 0 ∷ 0 ∷ 0 ∷ []) ∷ [];
  };
}

abbrev task_twice : Task
task_twice = record task_once {
  atem = record task_once.atem {
    log = sent (192 ∷ 12 ∷ 128 ∷ 1 ∷ 0 ∷ 2 ∷ 0 ∷ 1 ∷ 1 ∷ 0 ∷ 0 ∷ 0 ∷ []) ∷ task_once.atem.log;
  };
}

once_is : on_packet world quiet 24 task ≡ some task_once
unfolding on_packet on_init on_init_complete on_resend on_ack_request on_ack on_payload post_events
    post_from is_initializing is_active acknowledge send_dropped send_packet Packet.create
    Packet.get_flags Packet.get_length Packet.get_session_id Packet.get_id Packet.get_ack_id
    Packet.set_id Packet.set_ack_id Packet.set_resend_id Packet.set_flags Packet.set_unknown
    Sequence.add Sequence.ahead Sequence.advance Sequence.mark Sequence.get_missing Sequence.scan
    parse_packet on_command kind_of handle on_prgi Command.get_cmd Command.get_data for_commands
    walk next Command.get_length
once_is = refl

twice_is : on_packet world quiet 24 task_once ≡ some task_twice
unfolding on_packet on_init on_init_complete on_resend on_ack_request on_ack on_payload post_events
    post_from is_initializing is_active acknowledge send_dropped send_packet Packet.create
    Packet.get_flags Packet.get_length Packet.get_session_id Packet.get_id Packet.get_ack_id
    Packet.set_id Packet.set_ack_id Packet.set_resend_id Packet.set_flags Packet.set_unknown
    Sequence.add Sequence.ahead Sequence.advance Sequence.mark Sequence.get_missing Sequence.scan
    parse_packet on_command kind_of handle on_prgi Command.get_cmd Command.get_data for_commands
    walk next Command.get_length
twice_is = refl

pub packet_flags : Packet.get_flags packet ≡ some 0x1
unfolding Packet.get_flags
packet_flags = refl

pub packet_id : Packet.get_id packet ≡ some 2
unfolding Packet.get_id
packet_id = refl

init-IsValid : IsValid Sequence.init
init-IsValid = record { offset_fits = omega arith; received_fits = omega arith }

on_packet_twice_example :
    (task_twice.atem.switcher ≡ task_once.atem.switcher)
    × (task_twice.boot_events ≡ task_once.boot_events)
on_packet_twice_example =
    on_packet_twice world quiet quiet 24 task task_once task_twice 0x1 2 init-IsValid (omega arith)
      packet_flags refl packet_id once_is twice_is

round_is : round world quiet task ≡ some task_once
unfolding round on_peeked on_received on_packet on_init on_init_complete on_resend on_ack_request
    on_ack on_payload post_events post_from is_initializing is_active acknowledge send_dropped
    send_packet Packet.create Packet.get_flags Packet.get_length Packet.get_session_id Packet.get_id
    Packet.get_ack_id Packet.set_id Packet.set_ack_id Packet.set_resend_id Packet.set_flags
    Packet.set_unknown Sequence.add Sequence.ahead Sequence.advance Sequence.mark
    Sequence.get_missing Sequence.scan parse_packet on_command kind_of handle on_prgi
    Command.get_cmd Command.get_data for_commands walk next Command.get_length
round_is = refl

round_active_example :
    StaysActive session task_once.atem
    ⊎ ((quiet.peeked ≡ again) × (4 < 0) × (reconnect world session ≡ some task_once.atem))
round_active_example = round_active world quiet task task_once refl round_is

reaches : Reaches world task task_once
reaches = rounds quiet start round_is

Reaches-IsBounded_example : IsBounded task_once.atem
Reaches-IsBounded_example =
    Reaches-IsBounded world task task_once (omega arith, omega arith) reaches

pub request_added :
    Sequence.add Sequence.init 2
    ≡ some (true, record { offset = 2; last_id = 2; received = 0xFFFFFFFD })
unfolding Sequence.add Sequence.ahead Sequence.advance Sequence.mark
request_added = refl
