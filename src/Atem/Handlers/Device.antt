-- ===== src/Atem/Handlers/Device.antt =====
-- _mpl, _MeC, _ver, _pin, _top, InPr and StRS: what the device is and has.
use atem_esp_idf.Prelude.{
  ℕ, ◌+◌, ◌-◌, Option, none, some, ◌++◌, leb, ltb, if◌then◌else◌, length, take, replicate, ◌>>=◌,
  ◌==◌, not,
}
use atem_esp_idf.Buffer.{Bytes, copy_from}
use atem_esp_idf.Buffer.Text.{strlen, strnlen}
use atem_esp_idf.Sequence.{SequenceCheck}
use atem_esp_idf.State.{put, of_sequence}
use atem_esp_idf.Types.{InputProperty, mix_effect_new, dsk_new, usk_new, media_player_source_zero}
use atem_esp_idf.State.{unset}
use atem_esp_idf.Command.{get_data, get_data_s, get_length}
use atem_esp_idf.Atem.Object.{Switcher, find, assign, product_id_size}
use atem_esp_idf.Atem.Vector.{resize, update}
use atem_esp_idf.Atem.Events.{
  bit_of, event_media_player, event_topology, event_protocol_version, event_product_id,
  event_input_properties, event_stream,
}

-- A handler's result.
abbrev pub Handled : Type 0
Handled = Option (ℕ × Switcher)

module _ (sequence : SequenceCheck) (m : Bytes) (base : ℕ) (s : Switcher) where
  unfoldable pub on_mpl : Handled
  on_mpl = do
    still ← get_data m base 0
    clip ← get_data m base 1
    some (
      bit_of event_media_player,
      record s {
        media_player = put s.media_player sequence (record { still = still; clip = clip });
      },
    )

  unfoldable pub on_mec : Handled
  on_mec = do
    me ← get_data m base 0
    num_keyer ← get_data m base 1
    some (
      bit_of event_topology,
      if leb (length s.mix_effect) me then s else record s {
        mix_effect =
            update s.mix_effect me (λ x. record x { keyer = resize x.keyer num_keyer usk_new });
      },
    )

  unfoldable pub on_ver : Handled
  on_ver = do
    major ← get_data_s m base 0
    minor ← get_data_s m base 1
    some (
      bit_of event_protocol_version,
      record s { version = put s.version sequence (record { major = major; minor = minor }) },
    )

  -- The first 45 bytes are copied, and set to 0 from the end of the text on, from byte 44 at most.
  unfoldable pub on_pin : Handled
  on_pin = do
    bytes ← copy_from m (base + 8) product_id_size
    n ← strlen m (base + 8)
    let len = if ltb 44 n then 44 else n
    some (
      bit_of event_product_id,
      record s { product_id = take len bytes ++ replicate (product_id_size - len) 0 },
    )

  unfoldable pub on_top : Handled
  on_top = do
    me ← get_data m base 0
    sources ← get_data m base 1
    dsk ← get_data m base 2
    aux ← get_data m base 3
    mixminus_outputs ← get_data m base 4
    mediaplayers ← get_data m base 5
    multiviewers ← get_data m base 6
    rs485 ← get_data m base 7
    hyperdecks ← get_data m base 8
    dve ← get_data m base 9
    stingers ← get_data m base 10
    supersources ← get_data m base 11
    talkback_channels ← get_data m base 13
    camera_control ← get_data m base 18
    some (
      bit_of event_topology,
      record s {
        topology = put s.topology sequence (record {
          me = me;
          sources = sources;
          dsk = dsk;
          aux = aux;
          mixminus_outputs = mixminus_outputs;
          mediaplayers = mediaplayers;
          multiviewers = multiviewers;
          rs485 = rs485;
          hyperdecks = hyperdecks;
          dve = dve;
          stingers = stingers;
          supersources = supersources;
          talkback_channels = talkback_channels;
          camera_control = camera_control;
        });
        mix_effect = resize s.mix_effect me mix_effect_new;
        dsk = resize s.dsk dsk dsk_new;
        aux_out = resize s.aux_out aux (unset 0);
        media_player_source =
            resize s.media_player_source mediaplayers (unset media_player_source_zero);
      },
    )

  unfoldable pub on_inpr : Handled
  on_inpr = do
    source ← get_data_s m base 0
    n ← strnlen m (base + 10) 20
    name_long ← copy_from m (base + 10) n
    _ ← strnlen m (base + 30) 4
    name_short ← copy_from m (base + 30) 4
    let inpr : InputProperty = record {
      name_long = name_long ++ replicate (20 - n) 0;
      name_short = name_short;
    }
    some (
      bit_of event_input_properties,
      record s {
        input_properties = elim (find source s.input_properties) [
          | none ↦ assign source (of_sequence sequence inpr) s.input_properties
          | some x ↦ assign source (put x sequence inpr) s.input_properties
        ];
      },
    )

  -- A command of another length than 12 is left out, before the event is set.
  unfoldable pub on_strs : Handled
  on_strs = do
    n ← get_length m base
    if not (n == 12) then some (0, s) else do
      state ← get_data m base 1
      some (bit_of event_stream, record s { stream = put s.stream sequence state })
