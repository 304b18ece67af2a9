-- ===== src/Apps/Console.antt =====
-- example/atem-console/main/main.cpp: the command `atem`. What `arg_parse` finds is an argument.
use atem_esp_idf.Prelude.{
  ℕ, Bool, true, false, Option, none, some, List, [], ◌∷◌, if◌then◌else◌, ◌>>=◌, u8, u16, ◌==◌,
  ◌&&◌,
}
use atem_esp_idf.Types.{Source}
use atem_esp_idf.Command.Classes.{preview_input, construct as construct_command}
use atem_esp_idf.Atem.Object.{Atem}
use atem_esp_idf.Atem.Getters.{get_preview_input}
use atem_esp_idf.Atem.Connection.{World, CommandObject, send_commands, construct, destroy}

pub data Table : Type 0 where
  atem_table connect_table preview_table : Table

-- What is printed.
pub data Line : Type 0 where
  usage glossary : Table → Line
  parse_errors not_found not_available not_locked : Line
  current_source : ℕ → Source → Line

-- The three `arg_parse`: whether they succeed, and the values that they leave. An `int` is its
-- 32-bit pattern, a text its characters.
pub record Args : Type 0 where
  pub connect_parses : Bool
  pub connect_count : ℕ
  pub preview_parses : Bool
  pub me : Option ℕ
  pub source : Option ℕ
  pub atem_parses : Bool
  pub command : Option (List ℕ)

-- What the network and the semaphores answer, and the bits in a new object's `session_id_`.
pub record Answers : Type 0 where
  pub addresses : Option (List (Bool × Bool))
  pub task_created : Bool
  pub session_id : ℕ
  pub state_locked : Bool
  pub send_locked : Bool

-- The pointer `_atem`, and what was printed, the latest first.
pub record Console : Type 0 where
  pub client : Option Atem
  pub output : List Line

unfoldable pub same_text : List ℕ → List ℕ → Bool
same_text [] [] = true
same_text [] (d ∷ ds) = false
same_text (c ∷ cs) [] = false
same_text (c ∷ cs) (d ∷ ds) = c == d && same_text cs ds

abbrev pub connect_text : List ℕ
connect_text = b'c' ∷ b'o' ∷ b'n' ∷ b'n' ∷ b'e' ∷ b'c' ∷ b't' ∷ []

abbrev pub preview_text : List ℕ
preview_text = b'p' ∷ b'r' ∷ b'e' ∷ b'v' ∷ b'i' ∷ b'e' ∷ b'w' ∷ []

abbrev pub print : Line → Console → Console
print line c = record c { output = line ∷ c.output }

module _ (w : World) where
  -- `delete`, which does nothing to a null pointer.
  unfoldable pub delete_client : Option Atem → Option (Unit {0})
  delete_client none = some tt
  delete_client (some a) = do a' ← destroy w a; some tt

  -- The result is the program's return value.
  unfoldable pub atem_connect : Args → Answers → Console → Option (ℕ × Console)
  atem_connect args answers c =
      let connect : Option (ℕ × Console) = (do
        gone ← delete_client c.client
        a ← construct w answers.session_id answers.addresses answers.task_created
        some (0, record c { client = some a })) in
      if args.connect_count == 0 then some (1, c) else connect

  -- A call through `_atem` is undefined if it is null.
  unfoldable pub atem_preview : Args → Answers → Console → Option (ℕ × Console)
  atem_preview args answers c = do
    a ← c.client
    let me : ℕ = elim args.me [ none ↦ 0 | some me ↦ me ]
    let read : ℕ × Console = elim (get_preview_input a.switcher (u8 me)) [
      | none ↦ (0, print not_available c)
      | some source ↦ (0, print (current_source me source) c)
    ]
    elim args.source [
      | none ↦ some (if answers.state_locked then read else (2, print not_locked c))
      | some source ↦ do
        block ← construct_command w.malloc (preview_input (u16 source) (u8 me))
        let object : CommandObject = record {
          command = preview_input (u16 source) (u8 me);
          block = block;
        }
        (result, a') ← send_commands w answers.send_locked (some object ∷ []) a
        some (0, record c { client = some a' })
    ]

  -- "Default command". A count of `help` is never below 0.
  unfoldable pub atem_help : Args → Console → ℕ × Console
  atem_help args c =
      let overview : Console =
        print (usage preview_table) (print (usage connect_table) (print (usage atem_table) c)) in
      let help : Console = elim args.command [
        | none ↦ overview
        | some text ↦
            if same_text text connect_text
            then print (glossary connect_table) (print (usage connect_table) c)
            else if same_text text preview_text
            then print (glossary preview_table) (print (usage preview_table) c)
            else print not_found c
      ] in
      if args.atem_parses then (0, help) else (1, print parse_errors c)

  unfoldable pub atem_cmd : Args → Answers → Console → Option (ℕ × Console)
  atem_cmd args answers c =
      if args.connect_parses
      then atem_connect args answers c
      else if args.preview_parses
      then atem_preview args answers c
      else some (atem_help args c)

  -- `atem_handler`: what it reads, if it gets the lock.
  unfoldable pub atem_handler : Bool → Console → Option (Option Source)
  atem_handler locked c = do
    a ← c.client
    some (if locked then get_preview_input a.switcher 0 else none)
