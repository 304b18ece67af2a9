-- ===== src/Atem/Raises.antt =====
-- The events that a packet raises, read off its commands alone.
pub mod Posted
use atem_esp_idf.Prelude.{
  ℕ, zero, suc, ◌+◌, ◌≡◌, ◌≤◌, ◌<◌, refl, ap, ◌∙◌, sym, some, none, List, [], ◌∷◌, arith, length,
  ◌==◌, ==_self, bit_or, if◌then◌else◌, not, >>=-eq-some, ◌>>=◌,
}
use atem_esp_idf.Buffer.{Bytes}
use atem_esp_idf.Sequence.{SequenceCheck}
use atem_esp_idf.Packet
use atem_esp_idf.Packet.Iterator.{walk, for_commands, begin, max_commands}
use atem_esp_idf.Packet.Layout.{Laid, AreCommands}
use atem_esp_idf.Command.{get_data, get_cmd, get_length}
use atem_esp_idf.Atem.Object.{Switcher}
use atem_esp_idf.Atem.Events.{
  bit_of, event_aux, event_dsk, event_fade_to_black, event_input_properties, event_media_player,
  event_media_pool, event_product_id, event_protocol_version, event_source, event_stream,
  event_topology, event_transition_position, event_transition_state, event_usk, event_usk_dve,
}
use atem_esp_idf.Atem.Parses.{next-Laid}
use atem_esp_idf.Atem.Dispatch.{
  Kind, mpl, mec, ver, pin, top, auxs, dskb, dskp, dsks, ftbs, inpr, kebp, kedv, kefs, keon, mpce,
  mpfe, prgi, prvi, strs, trps, trss, other, handle, kind_of, on_command, parse_packet,
}
use atem_esp_idf.Atem.Handlers.Device.{on_mpl, on_mec, on_ver, on_pin, on_top, on_inpr, on_strs}
use atem_esp_idf.Atem.Handlers.Media.{clear_file, store_file, on_mpce, on_mpfe}
use atem_esp_idf.Atem.Handlers.MixEffects.{
  write_me, on_auxs, on_ftbs, on_prgi, on_prvi, on_trps, on_trss,
}
use atem_esp_idf.Atem.Handlers.Keyers.{
  with_dsk, with_usk, on_dskb, on_dskp, on_dsks, on_kebp, on_kedv, on_kefs, on_keon,
}

-- The bit of a command of each kind: MPfe raises one for a still only, StRS for a command of 12
-- bytes only, and KeFS raises the first event.
abbrev pub raises : Kind → Bytes → ℕ → ℕ
raises mpfe m base = elim (get_data m base 0) [
  | none ↦ 0
  | some type ↦ if type == 0 then bit_of event_media_pool else 0
]
raises strs m base = elim (get_length m base) [
  | none ↦ 0
  | some n ↦ if n == 12 then bit_of event_stream else 0
]
raises kefs m base = bit_of event_aux
raises other m base = 0
raises mpl m base = bit_of event_media_player
raises mec m base = bit_of event_topology
raises ver m base = bit_of event_protocol_version
raises pin m base = bit_of event_product_id
raises top m base = bit_of event_topology
raises auxs m base = bit_of event_aux
raises dskb m base = bit_of event_dsk
raises dskp m base = bit_of event_dsk
raises dsks m base = bit_of event_dsk
raises ftbs m base = bit_of event_fade_to_black
raises inpr m base = bit_of event_input_properties
raises kebp m base = bit_of event_usk
raises kedv m base = bit_of event_usk_dve
raises keon m base = bit_of event_usk
raises mpce m base = bit_of event_media_player
raises prgi m base = bit_of event_source
raises prvi m base = bit_of event_source
raises trps m base = bit_of event_transition_position
raises trss m base = bit_of event_transition_state

module _ (sequence : SequenceCheck) (m : Bytes) (base : ℕ) (s : Switcher) (bits : ℕ)
    (s' : Switcher) where
  mpl_raises : on_mpl sequence m base s ≡ some (bits, s') → bits ≡ raises mpl m base
  unfolding on_mpl
  mpl_raises e = ground arith

  mec_raises : on_mec sequence m base s ≡ some (bits, s') → bits ≡ raises mec m base
  unfolding on_mec
  mec_raises e = ground arith

  ver_raises : on_ver sequence m base s ≡ some (bits, s') → bits ≡ raises ver m base
  unfolding on_ver
  ver_raises e = ground arith

  pin_raises : on_pin sequence m base s ≡ some (bits, s') → bits ≡ raises pin m base
  unfolding on_pin
  pin_raises e = ground arith

  top_raises : on_top sequence m base s ≡ some (bits, s') → bits ≡ raises top m base
  unfolding on_top
  top_raises e = ground arith

  auxs_raises : on_auxs sequence m base s ≡ some (bits, s') → bits ≡ raises auxs m base
  unfolding on_auxs
  auxs_raises e = ground arith

  dskb_raises : on_dskb sequence m base s ≡ some (bits, s') → bits ≡ raises dskb m base
  unfolding on_dskb with_dsk
  dskb_raises e = ground arith

  dskp_raises : on_dskp sequence m base s ≡ some (bits, s') → bits ≡ raises dskp m base
  unfolding on_dskp with_dsk
  dskp_raises e = ground arith

  dsks_raises : on_dsks sequence m base s ≡ some (bits, s') → bits ≡ raises dsks m base
  unfolding on_dsks with_dsk
  dsks_raises e = ground arith

  ftbs_raises : on_ftbs sequence m base s ≡ some (bits, s') → bits ≡ raises ftbs m base
  unfolding on_ftbs write_me
  ftbs_raises e = ground arith

  inpr_raises : on_inpr sequence m base s ≡ some (bits, s') → bits ≡ raises inpr m base
  unfolding on_inpr
  inpr_raises e = ground arith

  kebp_raises : on_kebp sequence m base s ≡ some (bits, s') → bits ≡ raises kebp m base
  unfolding on_kebp with_usk
  kebp_raises e = ground arith

  kedv_raises : on_kedv sequence m base s ≡ some (bits, s') → bits ≡ raises kedv m base
  unfolding on_kedv with_usk
  kedv_raises e = ground arith

  kefs_raises : on_kefs sequence m base s ≡ some (bits, s') → bits ≡ raises kefs m base
  unfolding on_kefs with_usk
  kefs_raises e = ground arith

  keon_raises : on_keon sequence m base s ≡ some (bits, s') → bits ≡ raises keon m base
  unfolding on_keon
  keon_raises e = ground arith

  mpce_raises : on_mpce sequence m base s ≡ some (bits, s') → bits ≡ raises mpce m base
  unfolding on_mpce
  mpce_raises e = ground arith

  mpfe_raises : on_mpfe sequence m base s ≡ some (bits, s') → bits ≡ raises mpfe m base
  unfolding on_mpfe clear_file store_file
  mpfe_raises e = ground arith

  prgi_raises : on_prgi sequence m base s ≡ some (bits, s') → bits ≡ raises prgi m base
  unfolding on_prgi write_me
  prgi_raises e = ground arith

  prvi_raises : on_prvi sequence m base s ≡ some (bits, s') → bits ≡ raises prvi m base
  unfolding on_prvi write_me
  prvi_raises e = ground arith

  strs_raises : on_strs sequence m base s ≡ some (bits, s') → bits ≡ raises strs m base
  unfolding on_strs
  strs_raises e = ground arith

  trps_raises : on_trps sequence m base s ≡ some (bits, s') → bits ≡ raises trps m base
  unfolding on_trps write_me
  trps_raises e = ground arith

  trss_raises : on_trss sequence m base s ≡ some (bits, s') → bits ≡ raises trss m base
  unfolding on_trss write_me
  trss_raises e = ground arith

  pub handle-raises :
      (k : Kind) → handle sequence m k base s ≡ some (bits, s') → bits ≡ raises k m base
  unfolding handle
  handle-raises mpl e = mpl_raises e
  handle-raises mec e = mec_raises e
  handle-raises ver e = ver_raises e
  handle-raises pin e = pin_raises e
  handle-raises top e = top_raises e
  handle-raises auxs e = auxs_raises e
  handle-raises dskb e = dskb_raises e
  handle-raises dskp e = dskp_raises e
  handle-raises dsks e = dsks_raises e
  handle-raises ftbs e = ftbs_raises e
  handle-raises inpr e = inpr_raises e
  handle-raises kebp e = kebp_raises e
  handle-raises kedv e = kedv_raises e
  handle-raises kefs e = kefs_raises e
  handle-raises keon e = keon_raises e
  handle-raises mpce e = mpce_raises e
  handle-raises mpfe e = mpfe_raises e
  handle-raises prgi e = prgi_raises e
  handle-raises prvi e = prvi_raises e
  handle-raises strs e = strs_raises e
  handle-raises trps e = trps_raises e
  handle-raises trss e = trss_raises e
  handle-raises other e = ground arith
