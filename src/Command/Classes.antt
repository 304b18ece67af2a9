-- ===== src/Command/Classes.antt =====
-- include/atem_command.h, namespace `cmd`: the commands that are sent to the switcher. A
-- constructor of `Command` is a class with its arguments; `construct` is that class's constructor.
use atem_esp_idf.Prelude.{
  ℕ, ◌+◌, ◌*◌, Bool, Option, some, List, [], ◌∷◌, ◌<<<◌, ◌>>=◌, bit_or, of_bool, leb, ◌&&◌,
  if◌then◌else◌,
}
use atem_esp_idf.Buffer.{Bytes, store8, store16, store32}
use atem_esp_idf.Types.{
  Source, UskDveKeyFrame, UskDveProperty, key_frame_value, property_value, ProtocolVersion,
}
use atem_esp_idf.Command.{create}

abbrev pub Properties : Type 0
Properties = List (UskDveProperty × ℕ)

pub data Command : Type 0 where
  auto : ℕ → Command
  aux_input : Source → ℕ → Command
  capture_still : Command
  cut : ℕ → Command
  dsk_auto : ℕ → Command
  dsk_on_air : Bool → ℕ → Command
  dsk_fill : Source → ℕ → Command
  dsk_key : Source → ℕ → Command
  dsk_tie : Bool → ℕ → Command
  fade_to_black : ℕ → Command
  media_player_source : ℕ → ℕ → ℕ → ℕ → ℕ → Command
  usk_dve_key_frame_properties : UskDveKeyFrame → Properties → ℕ → ℕ → Command
  usk_dve_run_flying_key : UskDveKeyFrame → ℕ → ℕ → ℕ → Command
  usk_dve_properties : Properties → ℕ → ℕ → Command
  usk_fill : Source → ℕ → ℕ → Command
  usk_type : ℕ → ℕ → ℕ → Command
  usk_on_air : Bool → ℕ → ℕ → Command
  preview_input : Source → ℕ → Command
  program_input : Source → ℕ → Command
  save_startup_state : Command
  stream : Bool → Command
  transition_position : ℕ → ℕ → Command
  transition_state : ℕ → ℕ → Command

-- `GetData<uint8_t *>()[i] = v`, `GetData<uint16_t *>()[i] = htons(v)` and
-- `GetData<uint32_t *>()[i] = htonl(v)`.
abbrev pub put8 : ℕ → ℕ → Bytes → Option Bytes
put8 i v m = store8 m (8 + i) v

abbrev pub put16 : ℕ → ℕ → Bytes → Option Bytes
put16 i v m = store16 m (8 + 2 * i) v

abbrev pub put32 : ℕ → ℕ → Bytes → Option Bytes
put32 i v m = store32 m (8 + 4 * i) v

-- The loop over the properties: each is stored at `data_[4 + property]`, and sets its mask bit.
unfoldable pub put_properties : Properties → ℕ → Bytes → Option (ℕ × Bytes)
put_properties [] mask m = some (mask, m)
put_properties ((property, value) ∷ rest) mask m = do
  m ← store32 m (4 * (4 + property_value property)) value
  put_properties rest (bit_or mask (1 <<< property_value property)) m

module _ (malloc : ℕ → Bytes) where
  unfoldable pub construct : Command → Option Bytes
  construct (auto me) = do m ← create malloc (b'D' ∷ b'A' ∷ b'u' ∷ b't' ∷ []) 12; put8 0 me m
  construct (aux_input source channel) = do
    m ← create malloc (b'C' ∷ b'A' ∷ b'u' ∷ b'S' ∷ []) 12
    m ← put8 0 1 m
    m ← put8 1 channel m
    put16 1 source m
  construct capture_still = create malloc (b'C' ∷ b'a' ∷ b'p' ∷ b't' ∷ []) 8
  construct (cut me) = do m ← create malloc (b'D' ∷ b'C' ∷ b'u' ∷ b't' ∷ []) 12; put8 0 me m
  construct (dsk_auto keyer) = create malloc (b'D' ∷ b'D' ∷ b's' ∷ b'A' ∷ []) 12
  construct (dsk_on_air state keyer) = do
    m ← create malloc (b'C' ∷ b'D' ∷ b's' ∷ b'L' ∷ []) 12
    m ← put8 0 keyer m
    put8 1 (of_bool state) m
  construct (dsk_fill source keyer) = do
    m ← create malloc (b'C' ∷ b'D' ∷ b's' ∷ b'F' ∷ []) 12
    m ← put8 0 keyer m
    put16 1 source m
  construct (dsk_key source keyer) = do
    m ← create malloc (b'C' ∷ b'D' ∷ b's' ∷ b'C' ∷ []) 12
    m ← put8 0 keyer m
    put16 1 source m
  construct (dsk_tie state keyer) = do
    m ← create malloc (b'C' ∷ b'D' ∷ b's' ∷ b'T' ∷ []) 12
    m ← put8 0 keyer m
    put8 1 (of_bool state) m
  construct (fade_to_black me) = do
    m ← create malloc (b'F' ∷ b't' ∷ b'b' ∷ b'A' ∷ []) 12
    put8 0 me m
  construct (media_player_source mediaplayer mask type still clip) = do
    m ← create malloc (b'M' ∷ b'P' ∷ b'S' ∷ b'S' ∷ []) 16
    m ← put8 0 mask m
    m ← put8 1 mediaplayer m
    m ← put8 2 type m
    m ← put8 3 still m
    put8 4 clip m
  construct (usk_dve_key_frame_properties key_frame p keyer me) = do
    m ← create malloc (b'C' ∷ b'K' ∷ b'F' ∷ b'P' ∷ []) 64
    (mask, m) ← put_properties p 0 m
    m ← put32 0 mask m
    m ← put8 4 me m
    m ← put8 5 keyer m
    put8 6 (key_frame_value key_frame) m
  construct (usk_dve_run_flying_key key_frame run_to_inf_i keyer me) = do
    m ← create malloc (b'R' ∷ b'F' ∷ b'l' ∷ b'K' ∷ []) 16
    m ← put8 0 0 m
    m ← put8 1 me m
    m ← put8 2 keyer m
    m ← put8 4 (key_frame_value key_frame) m
    put8 5 run_to_inf_i m
  construct (usk_dve_properties p keyer me) = do
    m ← create malloc (b'C' ∷ b'K' ∷ b'D' ∷ b'V' ∷ []) 72
    (mask, m) ← put_properties p 0 m
    m ← put32 0 mask m
    m ← put8 4 me m
    put8 5 keyer m
  construct (usk_fill source keyer me) = do
    m ← create malloc (b'C' ∷ b'K' ∷ b'e' ∷ b'F' ∷ []) 12
    m ← put8 0 me m
    m ← put8 1 keyer m
    put16 1 source m
  construct (usk_type type keyer me) = do
    m ← create malloc (b'C' ∷ b'K' ∷ b'T' ∷ b'p' ∷ []) 16
    m ← put8 0 1 m
    m ← put8 1 me m
    m ← put8 2 keyer m
    put8 3 type m
  construct (usk_on_air enabled key me) = do
    m ← create malloc (b'C' ∷ b'K' ∷ b'O' ∷ b'n' ∷ []) 12
    m ← put8 0 me m
    m ← put8 1 key m
    put8 2 (of_bool enabled) m
  construct (preview_input source me) = do
    m ← create malloc (b'C' ∷ b'P' ∷ b'v' ∷ b'I' ∷ []) 12
    m ← put8 0 me m
    put16 1 source m
  construct (program_input source me) = do
    m ← create malloc (b'C' ∷ b'P' ∷ b'g' ∷ b'I' ∷ []) 12
    m ← put8 0 me m
    put16 1 source m
  construct save_startup_state = do
    m ← create malloc (b'S' ∷ b'R' ∷ b's' ∷ b'v' ∷ []) 12
    put32 0 0 m
  construct (stream state) = do
    m ← create malloc (b'S' ∷ b't' ∷ b'r' ∷ b'R' ∷ []) 12
    put8 0 (of_bool state) m
  construct (transition_position position me) = do
    m ← create malloc (b'C' ∷ b'T' ∷ b'P' ∷ b's' ∷ []) 12
    m ← put8 0 me m
    put16 1 position m
  construct (transition_state next me) = do
    m ← create malloc (b'C' ∷ b'T' ∷ b'T' ∷ b'p' ∷ []) 12
    m ← put8 0 2 m
    m ← put8 1 me m
    put8 3 next m

-- The virtual `PrepairCommand`: only `DskAuto` overrides it.
unfoldable pub prepair_command : Command → ProtocolVersion → Bytes → Option Bytes
prepair_command (dsk_auto keyer) ver m =
    if leb ver.major 2 && leb ver.minor 27 then put8 0 keyer m else put8 1 keyer m
prepair_command c ver m = some m
