-- ===== src/Atem/Handlers/Keyers.antt =====
-- DskB, DskP, DskS, KeBP, KeDV, KeFS and KeOn: the downstream and upstream keyers.
use atem_esp_idf.Prelude.{
  ℕ, ◌-◌, Option, some, leb, ltb, nonzero, if◌then◌else◌, length, get_elem?, bit_and, bit_or, u16,
  ◌<<<◌, ◌>>=◌,
}
use atem_esp_idf.Buffer.{Bytes}
use atem_esp_idf.Sequence.{SequenceCheck}
use atem_esp_idf.State.{put, is_valid, get}
use atem_esp_idf.Types.{Dsk, DskSource, DskState, DskProperties, Usk, UskState, DveState}
use atem_esp_idf.Command.{get_data, get_data_s, get_data_u32}
use atem_esp_idf.Atem.Object.{Switcher}
use atem_esp_idf.Atem.Vector.{update}
use atem_esp_idf.Atem.Events.{bit_of, less_of, event_dsk, event_usk, event_usk_dve}
use atem_esp_idf.Atem.Handlers.Device.{Handled}

-- `if (dsk_.size() <= keyer) break;` and what follows.
unfoldable pub with_dsk : Switcher → ℕ → Option (Dsk → Dsk) → Handled
with_dsk s keyer change =
    let write : Handled = (do
      f ← change
      some (bit_of event_dsk, record s { dsk = update s.dsk keyer f })) in
    if leb (length s.dsk) keyer then some (bit_of event_dsk, s) else write

-- The tests of `me` and `keyer`, and what follows: a write at `keyer` of `me`.
unfoldable pub with_usk : ℕ → Switcher → ℕ → ℕ → Option (Usk → Usk) → Handled
with_usk event s me keyer change =
    let write : Handled = (do
      f ← change
      some (
        event,
        record s {
          mix_effect = update s.mix_effect me (λ x. record x { keyer = update x.keyer keyer f });
        },
      )) in
    let inner : Handled = (do
      x ← get_elem? s.mix_effect me
      if leb (length x.keyer) keyer then some (event, s) else write) in
    if leb (length s.mix_effect) me then some (event, s) else inner

module _ (sequence : SequenceCheck) (m : Bytes) (base : ℕ) (s : Switcher) where
  unfoldable pub on_dskb : Handled
  unfolding with_dsk
  on_dskb = do
    keyer ← get_data m base 0
    with_dsk s keyer (do
      fill ← get_data_s m base 1
      key ← get_data_s m base 2
      let source : DskSource = record { fill = fill; key = key }
      some (λ d. record d { source = put d.source sequence source }))

  unfoldable pub on_dskp : Handled
  unfolding with_dsk
  on_dskp = do
    keyer ← get_data m base 0
    with_dsk s keyer (do
      tie ← get_data m base 1
      let properties : DskProperties = record { tie = nonzero tie }
      some (λ d. record d { properties = put d.properties sequence properties }))

  unfoldable pub on_dsks : Handled
  unfolding with_dsk
  on_dsks = do
    keyer ← get_data m base 0
    with_dsk s keyer (do
      on_air ← get_data m base 1
      in_transition ← get_data m base 2
      is_auto_transitioning ← get_data m base 3
      let state : DskState = record {
        on_air = nonzero on_air;
        in_transition = nonzero in_transition;
        is_auto_transitioning = nonzero is_auto_transitioning;
      }
      some (λ d. record d { state = put d.state sequence state }))

  unfoldable pub on_kebp : Handled
  unfolding with_usk
  on_kebp = do
    me ← get_data m base 0
    keyer ← get_data m base 1
    with_usk (bit_of event_usk) s me keyer (do
      type ← get_data m base 2
      fill ← get_data_s m base 3
      key ← get_data_s m base 4
      top ← get_data_s m base 6
      bottom ← get_data_s m base 7
      left ← get_data_s m base 8
      right ← get_data_s m base 9
      let state : UskState = record {
        type = type;
        fill = fill;
        key = key;
        top = top;
        bottom = bottom;
        left = left;
        right = right;
      }
      some (λ k. record k { state = put k.state sequence state }))

  unfoldable pub on_kedv : Handled
  unfolding with_usk
  on_kedv = do
    me ← get_data m base 0
    keyer ← get_data m base 1
    with_usk (bit_of event_usk_dve) s me keyer (do
      size_x ← get_data_u32 m base 1
      size_y ← get_data_u32 m base 2
      pos_x ← get_data_u32 m base 3
      pos_y ← get_data_u32 m base 4
      rotation ← get_data_u32 m base 5
      let dve : DveState = record {
        size_x = size_x;
        size_y = size_y;
        pos_x = pos_x;
        pos_y = pos_y;
        rotation = rotation;
      }
      some (λ k. record k { dve = put k.dve sequence dve }))

  -- The event is `1 < ATEM_EVENT_USK`.
  unfoldable pub on_kefs : Handled
  unfolding with_usk
  on_kefs = do
    me ← get_data m base 0
    keyer ← get_data m base 1
    with_usk (less_of event_usk) s me keyer (do
      at_key_frame ← get_data m base 6
      some (λ k. record k { at_key_frame = put k.at_key_frame sequence (nonzero at_key_frame) }))

  unfoldable pub on_keon : Handled
  on_keon = do
    me ← get_data m base 0
    keyer ← get_data m base 1
    let skip : Handled = some (bit_of event_usk, s)
    let write : Handled = (do
      x ← get_elem? s.mix_effect me
      enabled ← get_data m base 2
      let old = if is_valid x.usk_on_air then get x.usk_on_air else 0
      let off = bit_and old (0xFFFF - (0x1 <<< keyer))
      let state = u16 (bit_or off (enabled <<< keyer))
      some (
        bit_of event_usk,
        record s {
          mix_effect =
              update s.mix_effect me
                (λ x. record x { usk_on_air = put x.usk_on_air sequence state });
        },
      ))
    let inner : Handled = if ltb 15 keyer then skip else write
    if leb (length s.mix_effect) me then skip else inner
