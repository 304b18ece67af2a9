-- ===== src/Atem/Touches.antt =====
-- Which members each case of the switch changes.
use atem_esp_idf.Prelude.{ℕ, ◌≡◌, ◌≢◌, some, arith, get_elem?, List}
use atem_esp_idf.Buffer.{Bytes}
use atem_esp_idf.Sequence.{SequenceCheck}
use atem_esp_idf.Command.{get_data}
use atem_esp_idf.Atem.Object.{Switcher}
use atem_esp_idf.Atem.Vector.{get_elem?-update_ne}
use atem_esp_idf.Atem.Dispatch.{
  Kind, mpl, mec, ver, pin, top, auxs, dskb, dskp, dsks, ftbs, inpr, kebp, kedv, kefs, keon, mpce,
  mpfe, prgi, prvi, strs, trps, trss, other, handle,
}
use atem_esp_idf.Atem.Handlers.Device.{on_mpl, on_mec, on_ver, on_pin, on_top, on_inpr, on_strs}
use atem_esp_idf.Atem.Handlers.Media.{clear_file, store_file, on_mpce, on_mpfe}
use atem_esp_idf.Atem.Handlers.MixEffects.{
  write_me, on_auxs, on_ftbs, on_prgi, on_prvi, on_trps, on_trss,
}
use atem_esp_idf.Atem.Handlers.Keyers.{
  with_dsk, with_usk, on_dskb, on_dskp, on_dsks, on_kebp, on_kedv, on_kefs, on_keon,
}

-- The elements but the one that the command's first byte of data names.
abbrev pub OthersSame : {A : Type 0} → Bytes → ℕ → List A → List A → Type 0
OthersSame m base xs ys = (j : ℕ) → get_data m base 0 ≢ some j → get_elem? ys j ≡ get_elem? xs j

-- The members that the case may change, and of a vector the element.
abbrev pub Touches : Kind → Bytes → ℕ → Switcher → Switcher → Type 0
Touches mpl m base s s' = s' ≡ record s { media_player = s'.media_player }
Touches mec m base s s' =
    (s' ≡ record s { mix_effect = s'.mix_effect }) × OthersSame m base s.mix_effect s'.mix_effect
Touches ver m base s s' = s' ≡ record s { version = s'.version }
Touches pin m base s s' = s' ≡ record s { product_id = s'.product_id }
Touches top m base s s' = s' ≡ record s {
  topology = s'.topology;
  mix_effect = s'.mix_effect;
  dsk = s'.dsk;
  aux_out = s'.aux_out;
  media_player_source = s'.media_player_source;
}
Touches auxs m base s s' =
    (s' ≡ record s { aux_out = s'.aux_out }) × OthersSame m base s.aux_out s'.aux_out
Touches dskb m base s s' = (s' ≡ record s { dsk = s'.dsk }) × OthersSame m base s.dsk s'.dsk
Touches dskp m base s s' = (s' ≡ record s { dsk = s'.dsk }) × OthersSame m base s.dsk s'.dsk
Touches dsks m base s s' = (s' ≡ record s { dsk = s'.dsk }) × OthersSame m base s.dsk s'.dsk
Touches ftbs m base s s' =
    (s' ≡ record s { mix_effect = s'.mix_effect }) × OthersSame m base s.mix_effect s'.mix_effect
Touches inpr m base s s' = s' ≡ record s { input_properties = s'.input_properties }
Touches kebp m base s s' =
    (s' ≡ record s { mix_effect = s'.mix_effect }) × OthersSame m base s.mix_effect s'.mix_effect
Touches kedv m base s s' =
    (s' ≡ record s { mix_effect = s'.mix_effect }) × OthersSame m base s.mix_effect s'.mix_effect
Touches kefs m base s s' =
    (s' ≡ record s { mix_effect = s'.mix_effect }) × OthersSame m base s.mix_effect s'.mix_effect
Touches keon m base s s' =
    (s' ≡ record s { mix_effect = s'.mix_effect }) × OthersSame m base s.mix_effect s'.mix_effect
Touches mpce m base s s' =
    (s' ≡ record s { media_player_source = s'.media_player_source })
    × OthersSame m base s.media_player_source s'.media_player_source
Touches mpfe m base s s' =
    s' ≡ record s { media_player_file = s'.media_player_file; heap = s'.heap }
Touches prgi m base s s' =
    (s' ≡ record s { mix_effect = s'.mix_effect }) × OthersSame m base s.mix_effect s'.mix_effect
Touches prvi m base s s' =
    (s' ≡ record s { mix_effect = s'.mix_effect }) × OthersSame m base s.mix_effect s'.mix_effect
Touches strs m base s s' = s' ≡ record s { stream = s'.stream }
Touches trps m base s s' =
    (s' ≡ record s { mix_effect = s'.mix_effect }) × OthersSame m base s.mix_effect s'.mix_effect
Touches trss m base s s' =
    (s' ≡ record s { mix_effect = s'.mix_effect }) × OthersSame m base s.mix_effect s'.mix_effect
Touches other m base s s' = s' ≡ s

module _ (sequence : SequenceCheck) (m : Bytes) (base : ℕ) (s : Switcher) (bits : ℕ)
    (s' : Switcher) where
  mpl-Touches : on_mpl sequence m base s ≡ some (bits, s') → Touches mpl m base s s'
  unfolding on_mpl
  mpl-Touches e = ground arith

  mec-Touches : on_mec sequence m base s ≡ some (bits, s') → Touches mec m base s s'
  unfolding on_mec
  mec-Touches e = (ground arith, λ j h. grind (arith, get_elem?-update_ne))

  ver-Touches : on_ver sequence m base s ≡ some (bits, s') → Touches ver m base s s'
  unfolding on_ver
  ver-Touches e = ground arith

  pin-Touches : on_pin sequence m base s ≡ some (bits, s') → Touches pin m base s s'
  unfolding on_pin
  pin-Touches e = ground arith

  top-Touches : on_top sequence m base s ≡ some (bits, s') → Touches top m base s s'
  unfolding on_top
  top-Touches e = ground arith

  auxs-Touches : on_auxs sequence m base s ≡ some (bits, s') → Touches auxs m base s s'
  unfolding on_auxs
  auxs-Touches e = (ground arith, λ j h. grind (arith, get_elem?-update_ne))

  dskb-Touches : on_dskb sequence m base s ≡ some (bits, s') → Touches dskb m base s s'
  unfolding on_dskb with_dsk
  dskb-Touches e = (ground arith, λ j h. grind (arith, get_elem?-update_ne))

  dskp-Touches : on_dskp sequence m base s ≡ some (bits, s') → Touches dskp m base s s'
  unfolding on_dskp with_dsk
  dskp-Touches e = (ground arith, λ j h. grind (arith, get_elem?-update_ne))

  dsks-Touches : on_dsks sequence m base s ≡ some (bits, s') → Touches dsks m base s s'
  unfolding on_dsks with_dsk
  dsks-Touches e = (ground arith, λ j h. grind (arith, get_elem?-update_ne))

  ftbs-Touches : on_ftbs sequence m base s ≡ some (bits, s') → Touches ftbs m base s s'
  unfolding on_ftbs write_me
  ftbs-Touches e = (ground arith, λ j h. grind (arith, get_elem?-update_ne))

  inpr-Touches : on_inpr sequence m base s ≡ some (bits, s') → Touches inpr m base s s'
  unfolding on_inpr
  inpr-Touches e = ground arith

  kebp-Touches : on_kebp sequence m base s ≡ some (bits, s') → Touches kebp m base s s'
  unfolding on_kebp with_usk
  kebp-Touches e = (ground arith, λ j h. grind (arith, get_elem?-update_ne))

  kedv-Touches : on_kedv sequence m base s ≡ some (bits, s') → Touches kedv m base s s'
  unfolding on_kedv with_usk
  kedv-Touches e = (ground arith, λ j h. grind (arith, get_elem?-update_ne))

  kefs-Touches : on_kefs sequence m base s ≡ some (bits, s') → Touches kefs m base s s'
  unfolding on_kefs with_usk
  kefs-Touches e = (ground arith, λ j h. grind (arith, get_elem?-update_ne))

  keon-Touches : on_keon sequence m base s ≡ some (bits, s') → Touches keon m base s s'
  unfolding on_keon
  keon-Touches e = (ground arith, λ j h. grind (arith, get_elem?-update_ne))

  mpce-Touches : on_mpce sequence m base s ≡ some (bits, s') → Touches mpce m base s s'
  unfolding on_mpce
  mpce-Touches e = (ground arith, λ j h. grind (arith, get_elem?-update_ne))

  mpfe-Touches : on_mpfe sequence m base s ≡ some (bits, s') → Touches mpfe m base s s'
  unfolding on_mpfe clear_file store_file
  mpfe-Touches e = ground arith

  prgi-Touches : on_prgi sequence m base s ≡ some (bits, s') → Touches prgi m base s s'
  unfolding on_prgi write_me
  prgi-Touches e = (ground arith, λ j h. grind (arith, get_elem?-update_ne))

  prvi-Touches : on_prvi sequence m base s ≡ some (bits, s') → Touches prvi m base s s'
  unfolding on_prvi write_me
  prvi-Touches e = (ground arith, λ j h. grind (arith, get_elem?-update_ne))

  strs-Touches : on_strs sequence m base s ≡ some (bits, s') → Touches strs m base s s'
  unfolding on_strs
  strs-Touches e = ground arith

  trps-Touches : on_trps sequence m base s ≡ some (bits, s') → Touches trps m base s s'
  unfolding on_trps write_me
  trps-Touches e = (ground arith, λ j h. grind (arith, get_elem?-update_ne))

  trss-Touches : on_trss sequence m base s ≡ some (bits, s') → Touches trss m base s s'
  unfolding on_trss write_me
  trss-Touches e = (ground arith, λ j h. grind (arith, get_elem?-update_ne))

  -- A command that is handled changes only the members of its kind. Of a vector of mix effects,
  -- downstream keyers, outputs or media players, it changes only the element that its first byte of
  -- data names, but _top, which resizes all of them. Another command changes nothing.
  pub handle-Touches :
      (k : Kind) → handle sequence m k base s ≡ some (bits, s') → Touches k m base s s'
  unfolding handle
  handle-Touches mpl e = mpl-Touches e
  handle-Touches mec e = mec-Touches e
  handle-Touches ver e = ver-Touches e
  handle-Touches pin e = pin-Touches e
  handle-Touches top e = top-Touches e
  handle-Touches auxs e = auxs-Touches e
  handle-Touches dskb e = dskb-Touches e
  handle-Touches dskp e = dskp-Touches e
  handle-Touches dsks e = dsks-Touches e
  handle-Touches ftbs e = ftbs-Touches e
  handle-Touches inpr e = inpr-Touches e
  handle-Touches kebp e = kebp-Touches e
  handle-Touches kedv e = kedv-Touches e
  handle-Touches kefs e = kefs-Touches e
  handle-Touches keon e = keon-Touches e
  handle-Touches mpce e = mpce-Touches e
  handle-Touches mpfe e = mpfe-Touches e
  handle-Touches prgi e = prgi-Touches e
  handle-Touches prvi e = prvi-Touches e
  handle-Touches strs e = strs-Touches e
  handle-Touches trps e = trps-Touches e
  handle-Touches trss e = trss-Touches e
  handle-Touches other e = ground arith
