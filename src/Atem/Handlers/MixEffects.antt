-- ===== src/Atem/Handlers/MixEffects.antt =====
-- AuxS, FtbS, PrgI, PrvI, TrPs and TrSS: the outputs and the mix effects.
use atem_esp_idf.Prelude.{ℕ, some, leb, nonzero, if◌then◌else◌, length, bit_and, ◌>>=◌}
use atem_esp_idf.Buffer.{Bytes}
use atem_esp_idf.Sequence.{SequenceCheck}
use atem_esp_idf.State.{put}
use atem_esp_idf.Types.{MixEffect, FadeToBlack, TransitionPosition, TransitionState}
use atem_esp_idf.Command.{get_data, get_data_s}
use atem_esp_idf.Atem.Object.{Switcher}
use atem_esp_idf.Atem.Vector.{update}
use atem_esp_idf.Atem.Events.{
  bit_of, event_aux, event_fade_to_black, event_source, event_transition_position,
  event_transition_state,
}
use atem_esp_idf.Atem.Handlers.Device.{Handled}

-- `if (mix_effect_.size() <= me) break;` and the write behind it.
unfoldable pub write_me : Switcher → ℕ → (MixEffect → MixEffect) → Switcher
write_me s me f =
    if leb (length s.mix_effect) me then s else record s { mix_effect = update s.mix_effect me f }

module _ (sequence : SequenceCheck) (m : Bytes) (base : ℕ) (s : Switcher) where
  unfoldable pub on_auxs : Handled
  on_auxs = do
    channel ← get_data m base 0
    let write : Handled = (do
      source ← get_data_s m base 1
      some (
        bit_of event_aux,
        record s { aux_out = update s.aux_out channel (λ x. put x sequence source) },
      ))
    if leb (length s.aux_out) channel then some (bit_of event_aux, s) else write

  unfoldable pub on_ftbs : Handled
  on_ftbs = do
    me ← get_data m base 0
    fully_black ← get_data m base 1
    in_transition ← get_data m base 2
    let ftb : FadeToBlack = record {
      fully_black = nonzero fully_black;
      in_transition = nonzero in_transition;
    }
    some
        (bit_of event_fade_to_black, write_me s me (λ x. record x { ftb = put x.ftb sequence ftb }))

  unfoldable pub on_prgi : Handled
  on_prgi = do
    me ← get_data m base 0
    let write : Handled = (do
      source ← get_data_s m base 1
      some (
        bit_of event_source,
        write_me s me (λ x. record x { program = put x.program sequence source }),
      ))
    if leb (length s.mix_effect) me then some (bit_of event_source, s) else write

  unfoldable pub on_prvi : Handled
  on_prvi = do
    me ← get_data m base 0
    let write : Handled = (do
      source ← get_data_s m base 1
      some (
        bit_of event_source,
        write_me s me (λ x. record x { preview = put x.preview sequence source }),
      ))
    if leb (length s.mix_effect) me then some (bit_of event_source, s) else write

  unfoldable pub on_trps : Handled
  on_trps = do
    me ← get_data m base 0
    let write : Handled = (do
      flags ← get_data m base 1
      position ← get_data_s m base 2
      let value : TransitionPosition = record {
        in_transition = nonzero (bit_and flags 0x01);
        position = position;
      }
      some (
        bit_of event_transition_position,
        write_me s me (λ x. record x {
          transition = record x.transition { position = put x.transition.position sequence value };
        }),
      ))
    if leb (length s.mix_effect) me then some (bit_of event_transition_position, s) else write

  unfoldable pub on_trss : Handled
  on_trss = do
    me ← get_data m base 0
    let write : Handled = (do
      style ← get_data m base 1
      next ← get_data m base 2
      let value : TransitionState = record { style = style; next = next }
      some (
        bit_of event_transition_state,
        write_me s me (λ x. record x {
          transition = record x.transition { state = put x.transition.state sequence value };
        }),
      ))
    if leb (length s.mix_effect) me then some (bit_of event_transition_state, s) else write
