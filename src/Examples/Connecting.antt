-- ===== src/Examples/Connecting.antt =====
-- A handshake, and a session that falls silent.
use atem_esp_idf.Prelude.{◌≡◌, refl, true, false, some, [], ◌∷◌, arith, if◌then◌else◌}
use atem_esp_idf.Buffer.{Bytes}
use atem_esp_idf.Sequence
use atem_esp_idf.Packet
use atem_esp_idf.Atem.Object.{initial, initializing, connected, active, sent}
use atem_esp_idf.Atem.Getters.{is_active}
use atem_esp_idf.Atem.Connection.{free_files}
use atem_esp_idf.Atem.Task.{again, Input, Task, round, on_received, post_from, int_max}
use atem_esp_idf.Atem.Answer.{IsReply, reports}
use atem_esp_idf.Atem.Reset.{IsReset}
use atem_esp_idf.Atem.Silence.{Waits, run, silence-IsReset}
use atem_esp_idf.Atem.Handshake.{IsInitReply, IsComplete, accepted}
use atem_esp_idf.Atem.Handshake.Setup.{
  none_yet, loads, IsData, on_received-accepts, Loads-completes,
}
use atem_esp_idf.Examples.Packets.{world, session, zeros-length}
use atem_esp_idf.Sequence.{SequenceCheck}
use atem_esp_idf.Command
use atem_esp_idf.Packet.Iterator.{for_commands, walk, next}
use atem_esp_idf.Atem.Connection.{send_dropped, send_packet}
use atem_esp_idf.Atem.Task.{
  on_packet, on_init, on_init_complete, on_resend, on_ack_request, on_ack, on_payload, post_events,
  is_initializing, acknowledge,
}
use atem_esp_idf.Atem.Dispatch.{parse_packet, on_command, kind_of, handle}
use atem_esp_idf.Atem.Handlers.MixEffects.{on_prgi}
use atem_esp_idf.Examples.Tasks.{packet, task, quiet}

abbrev silent : Input
silent = record quiet { peeked = again }

no_files : free_files session.switcher.media_player_file session.switcher.heap ≡ some []
unfolding free_files
no_files = refl

silence-IsReset_example :
    (t5 t' : Task) × (run world (silent ∷ silent ∷ silent ∷ silent ∷ silent ∷ []) task ≡ some t5)
    × Waits 5 task t5
    × (round world silent t5 ≡ some t')
    × IsReset t'.atem
    × (t'.ack_count ≡ int_max)
silence-IsReset_example =
    silence-IsReset world zeros-length task (silent ∷ silent ∷ silent ∷ silent ∷ silent ∷ []) silent
      0 [] refl refl (omega arith) (omega arith) (refl, (refl, (refl, (refl, (refl, tt))))) refl
      refl refl no_files

-- The switcher accepts, with the session 1.
abbrev accepting : Bytes
accepting = 16 ∷ 20 ∷ 0 ∷ 1 ∷ 0 ∷ 0 ∷ 0 ∷ 0 ∷ 0 ∷ 0 ∷ 0 ∷ 0 ∷ 2 ∷ 0 ∷ 0 ∷ 0 ∷ 0 ∷ 0 ∷ 0 ∷ 0 ∷ []

accepting-IsInitReply : IsInitReply 1 accepting
unfolding Packet.get_flags Packet.get_length Packet.get_session_id
accepting-IsInitReply = record {
  flags_read = refl;
  length_read = refl;
  session_read = refl;
  status_read = refl;
  session_fits = omega arith;
}

abbrev asking : Task
asking = record {
  atem = record (initial 0x0B06) { state = connected };
  buffer = accepting;
  ack_count = 0;
  boot_events = 0;
}

asking_idle : is_active asking.atem.state ≡ false
unfolding is_active
asking_idle = refl

on_received-accepts_example :
    (p : Bytes) × IsReply 0x10 1 0 0 p
    × (on_received world quiet 20 asking ≡ some (accepted p asking))
on_received-accepts_example =
    on_received-accepts world zeros-length quiet asking 1 asking_idle accepting-IsInitReply

-- The end, with the id 1 and the session 0x8001.
abbrev ending : Bytes
ending = 8 ∷ 12 ∷ 128 ∷ 1 ∷ 0 ∷ 0 ∷ 0 ∷ 0 ∷ 0 ∷ 0 ∷ 0 ∷ 1 ∷ []

ending-IsComplete : IsComplete 0x8001 1 ending
unfolding Packet.get_flags Packet.get_length Packet.get_session_id Packet.get_id
ending-IsComplete = record {
  flags_read = refl;
  length_read = refl;
  session_read = refl;
  id_read = refl;
  session_fits = omega arith;
  id_fits = omega arith;
}

abbrev waiting : Task
waiting = record asking { atem = record asking.atem { state = initializing }; boot_events = 2 }

-- The packet 2 comes first: its event is kept, and the packet 1 is asked for.
abbrev loading : Task
loading = record waiting {
  atem = record waiting.atem {
    remote_id = 2;
    sequence = record { offset = 2; last_id = 2; received = 0xFFFFFFFD };
    log = sent (192 ∷ 12 ∷ 128 ∷ 1 ∷ 0 ∷ 2 ∷ 0 ∷ 1 ∷ 1 ∷ 0 ∷ 0 ∷ 0 ∷ []) ∷ [];
  };
  buffer = packet;
  boot_events = 1026;
}

loading_is :
    on_received world quiet 24 (record waiting { buffer = packet; ack_count = 0 }) ≡ some loading
unfolding on_received on_packet on_init on_init_complete on_resend on_ack_request on_ack on_payload
    post_events post_from is_initializing is_active acknowledge send_dropped send_packet
    Packet.create Packet.get_flags Packet.get_length Packet.get_session_id Packet.get_id
    Packet.get_ack_id Packet.set_id Packet.set_ack_id Packet.set_resend_id Packet.set_flags
    Packet.set_unknown Sequence.add Sequence.ahead Sequence.advance Sequence.mark
    Sequence.get_missing Sequence.scan parse_packet on_command kind_of handle on_prgi
    Command.get_cmd Command.get_data for_commands walk next Command.get_length
loading_is = refl

packet-IsData : IsData packet
unfolding Packet.get_flags Packet.get_length Packet.get_session_id
packet-IsData = record {
  flags = 1;
  own_length = 24;
  session = 0x8001;
  flags_read = refl;
  length_read = refl;
  session_read = refl;
  no_answer = refl;
  no_end = λ e. absurd (omega arith);
}

last_added :
    Sequence.add loading.atem.sequence 1
    ≡ some (true, record { offset = 2; last_id = 1; received = 0xFFFFFFFF })
unfolding Sequence.add Sequence.ahead Sequence.advance Sequence.mark
last_added = refl

abbrev full : SequenceCheck
full = record { offset = 2; last_id = 1; received = 0xFFFFFFFF }

Loads-completes_example :
    (t'' : Task) × (on_received world quiet 12 (record loading { buffer = ending; ack_count = 0 })
      ≡ some t'')
    × (t''.atem.state ≡ active)
    × (t''.atem.session_id ≡ 0x8001)
    × (t''.boot_events ≡ 1026)
    × ((p : Bytes) × IsReply
          (if reports full then 0x18 else 0x10)
          0x8001
          1
          (if reports full then Sequence.get_missing full else 0)
          p
        × (t''.atem.log ≡ sent p ∷ post_from 32 0 1026 1 loading.atem.log))
Loads-completes_example =
    Loads-completes world zeros-length waiting loading quiet ending 0x8001 1 true full refl
      (loads quiet 24 packet none_yet packet-IsData loading_is) ending-IsComplete last_added
