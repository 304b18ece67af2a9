-- ===== src/Examples/Stored.antt =====
-- Stored packets and `Reconnect_` on concrete inputs.
use atem_esp_idf.Prelude.{ℕ, true, ◌≡◌, refl, none, some, [], ◌∷◌, arith, length-replicate}
use atem_esp_idf.Buffer.{Bytes}
use atem_esp_idf.State.{is_valid}
use atem_esp_idf.Packet
use atem_esp_idf.Atem.Object.{Atem, cleared, free, find, Switcher}
use atem_esp_idf.Atem.Connection.{free_files, reconnect}
use atem_esp_idf.Atem.Task.{acknowledge, max_loops}
use atem_esp_idf.Atem.Handlers.Media.{clear_file}
use atem_esp_idf.Sequence.{SequenceCheck}
use atem_esp_idf.Atem.Names.{HasName, clear_file_stale}
use atem_esp_idf.Atem.Object.{sent}
use atem_esp_idf.Atem.Task.{on_resend}
use atem_esp_idf.Atem.Resend.Request.{IsRequest, IsPlaceholder, AreWhole, on_resend-first_with}
use atem_esp_idf.Atem.Resend.{acknowledge_lem}
use atem_esp_idf.Atem.Reset.{IsReset, reconnect-IsReset}
use atem_esp_idf.Examples.Packets.{world, session, zeros-length}

-- Packets with the ids 4 and 5.
abbrev fourth : Bytes
fourth = 8 ∷ 12 ∷ 128 ∷ 1 ∷ 0 ∷ 0 ∷ 0 ∷ 0 ∷ 0 ∷ 0 ∷ 0 ∷ 4 ∷ []

abbrev fifth : Bytes
fifth = 8 ∷ 12 ∷ 128 ∷ 1 ∷ 0 ∷ 0 ∷ 0 ∷ 0 ∷ 0 ∷ 0 ∷ 0 ∷ 5 ∷ []

fourth_id : Packet.get_id fourth ≡ some 4
unfolding Packet.get_id
fourth_id = refl

fifth_id : Packet.get_id fifth ≡ some 5
unfolding Packet.get_id
fifth_id = refl

abbrev far : Bytes
far = 8 ∷ 12 ∷ 128 ∷ 1 ∷ 0 ∷ 0 ∷ 0 ∷ 0 ∷ 0 ∷ 0 ∷ 127 ∷ 224 ∷ []

far_id : Packet.get_id far ≡ some 32736
unfolding Packet.get_id
far_id = refl

-- The ACK of 5 takes 32736, 37 before it, and 5.
acknowledge_lem_example :
    (acknowledge max_loops 5 (far ∷ fourth ∷ []) ≡ some (fourth ∷ []))
    × (acknowledge max_loops 5 (far ∷ fourth ∷ fifth ∷ far ∷ []) ≡ some (fourth ∷ far ∷ []))
acknowledge_lem_example =
    acknowledge_lem 5 (32736 ∷ 4 ∷ []) (far ∷ fourth ∷ []) (far ∷ []) fifth (omega arith)
      (omega arith, (λ e. absurd (omega arith)), (omega arith, (λ e. absurd (omega arith)), tt))
      (far_id, (fourth_id, refl)) fifth_id (omega arith)

-- A session with the name of the still 7 at the first block.
abbrev named : Atem
named = record session {
  switcher = record (cleared (some (b'a' ∷ 0 ∷ []) ∷ [])) {
    media_player_file = (7, record { last_change_id = 3; state = 1 }) ∷ [];
  };
}

named_freed : free_files named.switcher.media_player_file named.switcher.heap ≡ some (none ∷ [])
unfolding free_files free is_valid
named_freed = refl

reconnect-IsReset_example : (a' : Atem) × (reconnect world named ≡ some a') × IsReset a'
reconnect-IsReset_example =
    reconnect-IsReset world named 0 (none ∷ []) (λ n. length-replicate n 0) refl named_freed

-- The switcher of `named`, whose entry was last changed by the packet 3.
named-HasName : HasName named.switcher 7 0 (record { last_change_id = 3; state = 1 })
unfolding find is_valid
named-HasName = record {
  bytes = b'a' ∷ 0 ∷ [];
  found = refl;
  valid = refl;
  pointer = refl;
  live = refl;
}

abbrev pub packet_id : ℕ → SequenceCheck
packet_id id = record { offset = id; last_id = id; received = 0xFFFFFFFF }

clear_file_stale_example :
    (s' : Switcher) × (clear_file (packet_id 2) 7 named.switcher ≡ some s')
    × (clear_file (packet_id 5) 7 s' ≡ none)
clear_file_stale_example =
    clear_file_stale (packet_id 2) (packet_id 5) 7 0 named.switcher
      (record { last_change_id = 3; state = 1 }) named-HasName (omega arith)

-- The packets 4 and 5 are stored, and the packet 0 asks for 4.
abbrev storing : Atem
storing = record session { send_packets = fourth ∷ fifth ∷ [] }

abbrev asking_fourth : Bytes
asking_fourth = 64 ∷ 12 ∷ 128 ∷ 1 ∷ 0 ∷ 0 ∷ 0 ∷ 4 ∷ 0 ∷ 0 ∷ 0 ∷ 0 ∷ []

asking_fourth-IsRequest : IsRequest 0x8001 0 4 asking_fourth
unfolding Packet.get_flags Packet.get_session_id Packet.get_id Packet.get_resend_id
asking_fourth-IsRequest = record {
  flags = 8;
  flags_read = refl;
  requests = refl;
  session_read = refl;
  id_read = refl;
  asked_read = refl;
  session_fits = omega arith;
  asked_fits = omega arith;
}

storing-AreWhole : AreWhole storing.send_packets
unfolding Packet.get_length
storing-AreWhole = (refl, (refl, tt))

-- A header goes out for 4, and not the stored packet.
on_resend-first_with_example :
    (q : Bytes) × IsPlaceholder 0x8001 4 q
    × (on_resend world asking_fourth true storing ≡ some (record storing { log = sent q ∷ [] }))
on_resend-first_with_example =
    on_resend-first_with world zeros-length asking_fourth true storing 0x8001 0 4 (4 ∷ 5 ∷ []) refl
      asking_fourth-IsRequest (fourth_id, (fifth_id, refl)) storing-AreWhole (omega arith)
