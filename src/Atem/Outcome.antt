-- ===== src/Atem/Outcome.antt =====
-- `SendCommands`: what it returns on each branch after the packet is filled.
use native.Mathlib.Nat.{zero-add}
use atem_esp_idf.Prelude.{
  ℕ, ◌+◌, ◌≡◌, ◌≤◌, ◌<◌, refl, ap, Bool, true, false, Option, none, some, List, ◌∷◌, arith, length,
  ◌==◌, ==_self, if◌then◌else◌,
}
use atem_esp_idf.Buffer.{Bytes, load8, copy_from}
use atem_esp_idf.Packet
use atem_esp_idf.Packet.Layout.{copy_from-At}
use atem_esp_idf.Atem.Object.{Atem, sent}
use atem_esp_idf.Atem.Connection.{
  World, EspErr, esp_ok, esp_fail, esp_err_timeout, CommandObject, send_packet, send_commands,
  store_packet, next_local_id,
}
use atem_esp_idf.Atem.Assemble.{AreObjects, total_size, count, total_length-eq}
use atem_esp_idf.Atem.Send.{Sends, fill, not_empty}

-- `send` took all of the bytes.
abbrev pub takes : Option ℕ → ℕ → Bool
takes none n = false
takes (some k) n = k == n

-- The result and the members, from those at the call of `send`.
abbrev pub outcome : Bool → Bool → Bytes → Atem → EspErr × Atem
outcome false locked packet a = (esp_fail, a)
outcome true false packet a = (esp_err_timeout, a)
outcome true true packet a =
    (esp_ok, record a { send_packets = store_packet packet a.send_packets })

takes-eq :
    (r : Option ℕ) (n : ℕ) → ◌≡◌ {A = Bool} (elim r [ none ↦ false | some k ↦ k == n ]) (takes r n)
takes-eq none n = refl
takes-eq (some k) n = refl

pub send_packet-takes :
    (w : World) (packet : Bytes) (a : Atem) (n : ℕ)
    → Packet.get_length packet ≡ some n
    → length packet ≡ n
    → send_packet w packet a
      ≡ some (takes (w.send a.log packet) n, record a { log = sent packet ∷ a.log })
unfolding send_packet
send_packet-takes w packet a n e size =
    rw (e, copied)
      (ap (λ b. some (b, record a { log = sent packet ∷ a.log }))
        (takes-eq (w.send a.log packet) n))
  where
    copied : copy_from packet 0 n ≡ some packet
    copied = rw (← size) (copy_from-At packet 0 packet (λ j h. ap (load8 packet) (zero-add j)))

last_branch :
    (ok locked : Bool) (packet : Bytes) (a : Atem)
    → ◌≡◌ {A = Option (EspErr × Atem)}
        (some (
          if ok
          then (if locked
              then (esp_ok, record a { send_packets = store_packet packet a.send_packets })
              else (esp_err_timeout, a))
          else (esp_fail, a)))
        (some (outcome ok locked packet a))
last_branch false locked packet a = refl
last_branch true false packet a = refl
last_branch true true packet a = refl

-- `SendCommands` with 1 to 512 commands, as their constructors leave them, that fit in 2047 bytes
-- with the header, whatever `send` answers and whether or not the mutex is got: the packet of
-- `Sends` goes out, once, and the local id has moved on. The result is ESP_OK exactly if all bytes
-- were taken and the mutex was got, and only then the packet is stored; it is ESP_FAIL if they were
-- not taken, and else ESP_ERR_TIMEOUT. `malloc` returns blocks of the size asked for, and the
-- session id has 16 bits.
pub send_commands-outcome :
    (w : World) (locked : Bool) (a : Atem) (commands : List (Option CommandObject))
    → ((n : ℕ) → length (w.malloc n) ≡ n)
    → AreObjects commands
    → 0 < total_size commands
    → 12 + total_size commands < 2048
    → count commands ≤ 512
    → a.session_id < 65536
    → (packet : Bytes) × Sends a commands packet
      × (send_commands w locked commands a
          ≡ some (
              outcome
                (takes (w.send a.log packet) (12 + total_size commands))
                locked
                packet
                (record a { local_id = next_local_id a; log = sent packet ∷ a.log })))
unfolding send_commands
send_commands-outcome w locked a commands sizes objects some_command small few session =
    let f = fill w a commands sizes objects small few session in
    let a' : Atem = record a { local_id = next_local_id a } in
    (
      f.packet,
      f.sends,
      rw
          (
            total_length-eq commands 12 objects (omega arith),
            not_empty (12 + total_size commands) (omega arith),
            f.creates,
            f.sets,
            f.copies,
            ==_self (12 + total_size commands),
            send_packet-takes w f.packet a' (12 + total_size commands) f.sends.length_read
                f.sends.size,
          )
          (last_branch (takes (w.send a.log f.packet) (12 + total_size commands)) locked f.packet
            (record a' { log = sent f.packet ∷ a.log })),
    )
