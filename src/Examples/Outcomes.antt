-- ===== src/Examples/Outcomes.antt =====
-- `SendCommands` with more than it can send, and where `send` fails.
use atem_esp_idf.Prelude.{
  ℕ, zero, suc, ◌*◌, ◌≡◌, refl, true, Option, none, some, List, [], ◌∷◌, arith, replicate,
}
use atem_esp_idf.Buffer.{Bytes}
use atem_esp_idf.Atem.Object.{sent}
use atem_esp_idf.Atem.Connection.{World, CommandObject, send_commands, next_local_id}
use atem_esp_idf.Command.Classes.{program_input}
use atem_esp_idf.Atem.Assemble.{AreObjects, total_size, IsObject}
use atem_esp_idf.Atem.Send.{Sends}
use atem_esp_idf.Atem.Outcome.{takes, outcome, send_commands-outcome}
use atem_esp_idf.Atem.Overflow.{send_commands_overflow}
use atem_esp_idf.Examples.Packets.{
  world, session, zeros, zeros-length, objects, objects-AreObjects, program_block,
}

-- A network that takes nothing.
abbrev broken : World
broken = record { malloc = zeros; send = λ log data'. none }

send_commands-outcome_example :
    (packet : Bytes) × Sends session objects packet
    × (send_commands broken true objects session
        ≡ some (
            outcome
              (takes (broken.send [] packet) 36)
              true
              packet
              (record session { local_id = next_local_id session; log = sent packet ∷ [] })))
send_commands-outcome_example =
    send_commands-outcome broken true session objects zeros-length objects-AreObjects (omega arith)
      (omega arith) (omega arith) (omega arith)

abbrev pub program : CommandObject
program = record { command = program_input 3 0; block = program_block }

program-IsObject : IsObject program
program-IsObject = objects-AreObjects.0

abbrev programs : ℕ → List (Option CommandObject)
programs n = replicate n (some program)

programs-AreObjects : (n : ℕ) → AreObjects (programs n)
programs-AreObjects zero = tt
programs-AreObjects (suc n) = (program-IsObject, programs-AreObjects n)

programs-size : (n : ℕ) → total_size (programs n) ≡ 12 * n
programs-size zero = refl
programs-size (suc n) = omega (arith, programs-size n)

send_commands_overflow_example : send_commands world true (programs 5462) session ≡ none
send_commands_overflow_example =
    send_commands_overflow world true session (programs 5462) zeros-length
      (programs-AreObjects 5462) (omega (arith, programs-size 5462))
      (λ e. absurd (omega (arith, programs-size 5462, e))) (omega arith)
