-- ===== src/State.antt =====
-- include/atem_state.h: `AtemState<T>`, a value with the id of the packet that last changed it. Ids
-- are `int16_t` patterns.
pub mod Order
pub mod Replay
pub mod Rollover
use atem_esp_idf.Prelude.{ℕ, ◌+◌, Bool, true, false, not, ◌==◌, if◌then◌else◌, int16_min}
use atem_esp_idf.Sequence
use atem_esp_idf.Sequence.{SequenceCheck}

pub record AtemState {ℓ} (T : Type ℓ) : Type ℓ where
  pub last_change_id : ℕ
  pub state : T

module _ {ℓ} {T : Type ℓ} where
  -- The constructor from a sequence and a value.
  unfoldable pub of_sequence : SequenceCheck → T → AtemState T
  of_sequence sequence state = record { last_change_id = sequence.last_id; state = state }

  -- The constructor from a value, `T()` by default: not set yet.
  abbrev pub unset : T → AtemState T
  unset state = record { last_change_id = int16_min; state = state }

  -- `operator==` with a packet id.
  unfoldable pub changed_by : AtemState T → ℕ → Bool
  changed_by a id = a.last_change_id == id

  unfoldable pub is_valid : AtemState T → Bool
  is_valid a = not (a.last_change_id == int16_min)

  abbrev pub get : AtemState T → T
  get a = a.state

  -- The result, and the object after the call.
  unfoldable pub set : AtemState T → SequenceCheck → T → Bool × AtemState T
  unfolding Sequence.is_newer
  set a sequence state =
      if Sequence.is_newer sequence a.last_change_id
      then (false, a)
      else (true, record { last_change_id = sequence.last_id; state = state })

  unfoldable pub reset_last_change_id : AtemState T → AtemState T
  reset_last_change_id a = record a { last_change_id = int16_min + 1 }

  unfoldable pub get_packet_id : AtemState T → ℕ
  get_packet_id a = a.last_change_id

  -- `Set` where the caller drops the result.
  unfoldable pub put : AtemState T → SequenceCheck → T → AtemState T
  put a sequence state = (set a sequence state).1
