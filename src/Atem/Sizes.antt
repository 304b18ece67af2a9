-- ===== src/Atem/Sizes.antt =====
-- The sizes of the switcher's vectors: only _top changes them, to what the packet says.
use atem_esp_idf.Prelude.{ℕ, ◌≡◌, some, arith, length}
use atem_esp_idf.Buffer.{Bytes}
use atem_esp_idf.Sequence.{SequenceCheck}
use atem_esp_idf.Command.{get_data}
use atem_esp_idf.Atem.Object.{Switcher}
use atem_esp_idf.Atem.Vector.{length-update, length-resize}
use atem_esp_idf.Atem.Dispatch.{
  Kind, mpl, mec, ver, pin, top, auxs, dskb, dskp, dsks, ftbs, inpr, kebp, kedv, kefs, keon, mpce,
  mpfe, prgi, prvi, strs, trps, trss, other, handle,
}
use atem_esp_idf.Atem.Handlers.Device.{on_mpl, on_mec, on_ver, on_pin, on_top, on_inpr, on_strs}
use atem_esp_idf.Atem.Handlers.Media.{clear_file, store_file, on_mpce, on_mpfe}
use atem_esp_idf.Atem.Handlers.MixEffects.{
  write_me, on_auxs, on_ftbs, on_prgi, on_prvi, on_trps, on_trss,
}
use atem_esp_idf.Atem.Handlers.Keyers.{
  on_dskb, on_dskp, on_dsks, on_kebp, on_kedv, on_kefs, on_keon,
}

-- The two switchers have vectors of the same sizes.
pub record SameSizes (s s' : Switcher) : Type 0 where
  pub mix_effects : length s'.mix_effect ≡ length s.mix_effect
  pub dsks : length s'.dsk ≡ length s.dsk
  pub auxs : length s'.aux_out ≡ length s.aux_out
  pub players : length s'.media_player_source ≡ length s.media_player_source

-- The sizes are bytes 0, 2, 3 and 5 of the command's data.
pub record TopologySizes (m : Bytes) (base : ℕ) (s' : Switcher) : Type 0 where
  pub mix_effects : get_data m base 0 ≡ some (length s'.mix_effect)
  pub dsks : get_data m base 2 ≡ some (length s'.dsk)
  pub auxs : get_data m base 3 ≡ some (length s'.aux_out)
  pub players : get_data m base 5 ≡ some (length s'.media_player_source)

abbrev pub SizesAfter : Kind → Bytes → ℕ → Switcher → Switcher → Type 0
SizesAfter top m base s s' = TopologySizes m base s'
SizesAfter _ m base s s' = SameSizes s s'

module _ (sequence : SequenceCheck) (m : Bytes) (base : ℕ) (s : Switcher) (bits : ℕ)
    (s' : Switcher) where
  mpl_sizes : on_mpl sequence m base s ≡ some (bits, s') → SameSizes s s'
  unfolding on_mpl
  mpl_sizes e = grind (arith, length-update)

  mec_sizes : on_mec sequence m base s ≡ some (bits, s') → SameSizes s s'
  unfolding on_mec
  mec_sizes e = grind (arith, length-update)

  ver_sizes : on_ver sequence m base s ≡ some (bits, s') → SameSizes s s'
  unfolding on_ver
  ver_sizes e = grind (arith, length-update)

  pin_sizes : on_pin sequence m base s ≡ some (bits, s') → SameSizes s s'
  unfolding on_pin
  pin_sizes e = grind (arith, length-update)

  top_sizes : on_top sequence m base s ≡ some (bits, s') → TopologySizes m base s'
  unfolding on_top
  top_sizes e = grind (arith, length-resize)

  inpr_sizes : on_inpr sequence m base s ≡ some (bits, s') → SameSizes s s'
  unfolding on_inpr
  inpr_sizes e = grind (arith, length-update)

  strs_sizes : on_strs sequence m base s ≡ some (bits, s') → SameSizes s s'
  unfolding on_strs
  strs_sizes e = grind (arith, length-update)

  mpce_sizes : on_mpce sequence m base s ≡ some (bits, s') → SameSizes s s'
  unfolding on_mpce
  mpce_sizes e = grind (arith, length-update)

  mpfe_sizes : on_mpfe sequence m base s ≡ some (bits, s') → SameSizes s s'
  unfolding on_mpfe clear_file store_file
  mpfe_sizes e = grind (arith, length-update)

  auxs_sizes : on_auxs sequence m base s ≡ some (bits, s') → SameSizes s s'
  unfolding on_auxs
  auxs_sizes e = grind (arith, length-update)

  ftbs_sizes : on_ftbs sequence m base s ≡ some (bits, s') → SameSizes s s'
  unfolding on_ftbs write_me
  ftbs_sizes e = grind (arith, length-update)

  prgi_sizes : on_prgi sequence m base s ≡ some (bits, s') → SameSizes s s'
  unfolding on_prgi write_me
  prgi_sizes e = grind (arith, length-update)

  prvi_sizes : on_prvi sequence m base s ≡ some (bits, s') → SameSizes s s'
  unfolding on_prvi write_me
  prvi_sizes e = grind (arith, length-update)

  trps_sizes : on_trps sequence m base s ≡ some (bits, s') → SameSizes s s'
  unfolding on_trps write_me
  trps_sizes e = grind (arith, length-update)

  trss_sizes : on_trss sequence m base s ≡ some (bits, s') → SameSizes s s'
  unfolding on_trss write_me
  trss_sizes e = grind (arith, length-update)

  dskb_sizes : on_dskb sequence m base s ≡ some (bits, s') → SameSizes s s'
  unfolding on_dskb
  dskb_sizes e = grind (arith, length-update)

  dskp_sizes : on_dskp sequence m base s ≡ some (bits, s') → SameSizes s s'
  unfolding on_dskp
  dskp_sizes e = grind (arith, length-update)

  dsks_sizes : on_dsks sequence m base s ≡ some (bits, s') → SameSizes s s'
  unfolding on_dsks
  dsks_sizes e = grind (arith, length-update)

  kebp_sizes : on_kebp sequence m base s ≡ some (bits, s') → SameSizes s s'
  unfolding on_kebp
  kebp_sizes e = grind (arith, length-update)

  kedv_sizes : on_kedv sequence m base s ≡ some (bits, s') → SameSizes s s'
  unfolding on_kedv
  kedv_sizes e = grind (arith, length-update)

  kefs_sizes : on_kefs sequence m base s ≡ some (bits, s') → SameSizes s s'
  unfolding on_kefs
  kefs_sizes e = grind (arith, length-update)

  keon_sizes : on_keon sequence m base s ≡ some (bits, s') → SameSizes s s'
  unfolding on_keon
  keon_sizes e = grind (arith, length-update)

  -- A command that is handled leaves the sizes of the vectors of mix effects, downstream keyers, outputs and
  -- media players as they were, but _top sets them to the numbers that it names.
  pub handle-sizes :
      (k : Kind) → handle sequence m k base s ≡ some (bits, s') → SizesAfter k m base s s'
  unfolding handle
  handle-sizes mpl e = mpl_sizes e
  handle-sizes mec e = mec_sizes e
  handle-sizes ver e = ver_sizes e
  handle-sizes pin e = pin_sizes e
  handle-sizes top e = top_sizes e
  handle-sizes inpr e = inpr_sizes e
  handle-sizes strs e = strs_sizes e
  handle-sizes mpce e = mpce_sizes e
  handle-sizes mpfe e = mpfe_sizes e
  handle-sizes auxs e = auxs_sizes e
  handle-sizes ftbs e = ftbs_sizes e
  handle-sizes prgi e = prgi_sizes e
  handle-sizes prvi e = prvi_sizes e
  handle-sizes trps e = trps_sizes e
  handle-sizes trss e = trss_sizes e
  handle-sizes dskb e = dskb_sizes e
  handle-sizes dskp e = dskp_sizes e
  handle-sizes dsks e = dsks_sizes e
  handle-sizes kebp e = kebp_sizes e
  handle-sizes kedv e = kedv_sizes e
  handle-sizes kefs e = kefs_sizes e
  handle-sizes keon e = keon_sizes e
  handle-sizes other e = ground arith
