-- ===== src/Atem/Handlers/Complete/Cases.antt =====
-- Each case of the switch on a command that has all the bytes that the case reads.
use atem_esp_idf.Prelude.{
  ℕ, ◌+◌, ◌≡◌, ◌≢◌, ◌≤◌, refl, false, some, arith, length, get_elem?_in, leb, ltb, not, ◌==◌,
}
use atem_esp_idf.Prelude.Returns.{IsDefined, IsDefined-bind, IsDefined-if}
use atem_esp_idf.Buffer.{Bytes}
use atem_esp_idf.Buffer.Text.{strlen}
use atem_esp_idf.Buffer.Inside.{copy_from_inside}
use atem_esp_idf.Sequence.{SequenceCheck}
use atem_esp_idf.Command.{get_data, get_length}
use atem_esp_idf.Atem.Object.{Switcher}
use atem_esp_idf.Atem.Dispatch.{
  Kind, mpl, mec, ver, pin, top, auxs, dskb, dskp, dsks, ftbs, inpr, kebp, kedv, kefs, keon, mpce,
  mpfe, prgi, prvi, strs, trps, trss, other, handle,
}
use atem_esp_idf.Atem.Handlers.Device.{on_mpl, on_mec, on_ver, on_pin, on_top, on_inpr, on_strs}
use atem_esp_idf.Atem.Handlers.Media.{on_mpce, on_mpfe}
use atem_esp_idf.Atem.Handlers.MixEffects.{on_auxs, on_ftbs, on_prgi, on_prvi, on_trps, on_trss}
use atem_esp_idf.Atem.Handlers.Keyers.{
  on_dskb, on_dskp, on_dsks, on_kebp, on_kedv, on_kefs, on_keon,
}
use atem_esp_idf.Atem.Handlers.Complete.{
  Reads, load16-IsDefined, strnlen-IsDefined, strnlen-le, data8, data16, data32, with_dsk-IsDefined,
  leb-lt, with_usk-IsDefined,
}

module _ (sequence : SequenceCheck) (m : Bytes) (base : ℕ) (s : Switcher) where
  mpl-IsDefined : base + 8 + 2 ≤ length m → IsDefined (on_mpl sequence m base s)
  unfolding on_mpl
  mpl-IsDefined h =
      IsDefined-bind _ _ (data8 m base 0 (omega arith))
        λ x0. IsDefined-bind _ _ (data8 m base 1 (omega arith)) λ x1. (_, refl)

  mec-IsDefined : base + 8 + 2 ≤ length m → IsDefined (on_mec sequence m base s)
  unfolding on_mec
  mec-IsDefined h =
      IsDefined-bind _ _ (data8 m base 0 (omega arith))
        λ x0. IsDefined-bind _ _ (data8 m base 1 (omega arith)) λ x1. (_, refl)

  ver-IsDefined : base + 8 + 4 ≤ length m → IsDefined (on_ver sequence m base s)
  unfolding on_ver
  ver-IsDefined h =
      IsDefined-bind _ _ (data16 m base 0 (omega arith))
        λ x0. IsDefined-bind _ _ (data16 m base 1 (omega arith)) λ x1. (_, refl)

  top-IsDefined : base + 8 + 19 ≤ length m → IsDefined (on_top sequence m base s)
  unfolding on_top
  top-IsDefined h = IsDefined-bind _ _ (data8 m base 0 (omega arith)) λ x0.
      IsDefined-bind _ _ (data8 m base 1 (omega arith)) λ x1.
        IsDefined-bind _ _ (data8 m base 2 (omega arith)) λ x2.
          IsDefined-bind _ _ (data8 m base 3 (omega arith)) λ x3.
            IsDefined-bind _ _ (data8 m base 4 (omega arith)) λ x4.
              IsDefined-bind _ _ (data8 m base 5 (omega arith)) λ x5.
                IsDefined-bind _ _ (data8 m base 6 (omega arith)) λ x6.
                  IsDefined-bind _ _ (data8 m base 7 (omega arith)) λ x7.
                    IsDefined-bind _ _ (data8 m base 8 (omega arith)) λ x8.
                      IsDefined-bind _ _ (data8 m base 9 (omega arith)) λ x9.
                        IsDefined-bind _ _ (data8 m base 10 (omega arith)) λ x10.
                          IsDefined-bind _ _ (data8 m base 11 (omega arith)) λ x11.
                            IsDefined-bind _ _ (data8 m base 13 (omega arith)) λ x12.
                              IsDefined-bind _ _ (data8 m base 18 (omega arith)) λ x13. (_, refl)

  ftbs-IsDefined : base + 8 + 3 ≤ length m → IsDefined (on_ftbs sequence m base s)
  unfolding on_ftbs
  ftbs-IsDefined h = IsDefined-bind _ _ (data8 m base 0 (omega arith)) λ x0.
      IsDefined-bind _ _ (data8 m base 1 (omega arith))
        λ x1. IsDefined-bind _ _ (data8 m base 2 (omega arith)) λ x2. (_, refl)

  auxs-IsDefined : base + 8 + 4 ≤ length m → IsDefined (on_auxs sequence m base s)
  unfolding on_auxs
  auxs-IsDefined h = IsDefined-bind _ _ (data8 m base 0 (omega arith)) λ i.
      IsDefined-if (leb (length s.aux_out) i) _ _ (_, refl)
        λ e. IsDefined-bind _ _ (data16 m base 1 (omega arith)) λ x0. (_, refl)

  prgi-IsDefined : base + 8 + 4 ≤ length m → IsDefined (on_prgi sequence m base s)
  unfolding on_prgi
  prgi-IsDefined h = IsDefined-bind _ _ (data8 m base 0 (omega arith)) λ i.
      IsDefined-if (leb (length s.mix_effect) i) _ _ (_, refl)
        λ e. IsDefined-bind _ _ (data16 m base 1 (omega arith)) λ x0. (_, refl)

  prvi-IsDefined : base + 8 + 4 ≤ length m → IsDefined (on_prvi sequence m base s)
  unfolding on_prvi
  prvi-IsDefined h = IsDefined-bind _ _ (data8 m base 0 (omega arith)) λ i.
      IsDefined-if (leb (length s.mix_effect) i) _ _ (_, refl)
        λ e. IsDefined-bind _ _ (data16 m base 1 (omega arith)) λ x0. (_, refl)

  trps-IsDefined : base + 8 + 6 ≤ length m → IsDefined (on_trps sequence m base s)
  unfolding on_trps
  trps-IsDefined h = IsDefined-bind _ _ (data8 m base 0 (omega arith)) λ i.
      IsDefined-if (leb (length s.mix_effect) i) _ _ (_, refl)
        λ e.
          IsDefined-bind _ _ (data8 m base 1 (omega arith))
            λ x0. IsDefined-bind _ _ (data16 m base 2 (omega arith)) λ x1. (_, refl)

  trss-IsDefined : base + 8 + 3 ≤ length m → IsDefined (on_trss sequence m base s)
  unfolding on_trss
  trss-IsDefined h = IsDefined-bind _ _ (data8 m base 0 (omega arith)) λ i.
      IsDefined-if (leb (length s.mix_effect) i) _ _ (_, refl)
        λ e.
          IsDefined-bind _ _ (data8 m base 1 (omega arith))
            λ x0. IsDefined-bind _ _ (data8 m base 2 (omega arith)) λ x1. (_, refl)

  mpce-IsDefined : base + 8 + 4 ≤ length m → IsDefined (on_mpce sequence m base s)
  unfolding on_mpce
  mpce-IsDefined h = IsDefined-bind _ _ (data8 m base 0 (omega arith)) λ i.
      IsDefined-if (leb (length s.media_player_source) i) _ _ (_, refl)
        λ e. IsDefined-bind _ _ (data8 m base 1 (omega arith)) λ x0.
          IsDefined-bind _ _ (data8 m base 2 (omega arith))
            λ x1. IsDefined-bind _ _ (data8 m base 3 (omega arith)) λ x2. (_, refl)

  dskb-IsDefined : base + 8 + 6 ≤ length m → IsDefined (on_dskb sequence m base s)
  unfolding on_dskb
  dskb-IsDefined h = IsDefined-bind _ _ (data8 m base 0 (omega arith)) λ keyer.
      with_dsk-IsDefined s keyer _ (
        IsDefined-bind _ _ (data16 m base 1 (omega arith))
          λ x0. IsDefined-bind _ _ (data16 m base 2 (omega arith)) λ x1. (_, refl))

  dskp-IsDefined : base + 8 + 2 ≤ length m → IsDefined (on_dskp sequence m base s)
  unfolding on_dskp
  dskp-IsDefined h = IsDefined-bind _ _ (data8 m base 0 (omega arith)) λ keyer.
      with_dsk-IsDefined s keyer _
        (IsDefined-bind _ _ (data8 m base 1 (omega arith)) λ x0. (_, refl))

  dsks-IsDefined : base + 8 + 4 ≤ length m → IsDefined (on_dsks sequence m base s)
  unfolding on_dsks
  dsks-IsDefined h = IsDefined-bind _ _ (data8 m base 0 (omega arith)) λ keyer.
      with_dsk-IsDefined s keyer _ (
        IsDefined-bind _ _ (data8 m base 1 (omega arith)) λ x0.
          IsDefined-bind _ _ (data8 m base 2 (omega arith))
            λ x1. IsDefined-bind _ _ (data8 m base 3 (omega arith)) λ x2. (_, refl))

  kebp-IsDefined : base + 8 + 20 ≤ length m → IsDefined (on_kebp sequence m base s)
  unfolding on_kebp
  kebp-IsDefined h = IsDefined-bind _ _ (data8 m base 0 (omega arith)) λ me.
      IsDefined-bind _ _ (data8 m base 1 (omega arith)) λ keyer. with_usk-IsDefined _ s me keyer _ (
        IsDefined-bind _ _ (data8 m base 2 (omega arith)) λ x0.
          IsDefined-bind _ _ (data16 m base 3 (omega arith)) λ x1.
            IsDefined-bind _ _ (data16 m base 4 (omega arith)) λ x2.
              IsDefined-bind _ _ (data16 m base 6 (omega arith)) λ x3.
                IsDefined-bind _ _ (data16 m base 7 (omega arith)) λ x4.
                  IsDefined-bind _ _ (data16 m base 8 (omega arith))
                    λ x5. IsDefined-bind _ _ (data16 m base 9 (omega arith)) λ x6. (_, refl))

  kedv-IsDefined : base + 8 + 24 ≤ length m → IsDefined (on_kedv sequence m base s)
  unfolding on_kedv
  kedv-IsDefined h = IsDefined-bind _ _ (data8 m base 0 (omega arith)) λ me.
      IsDefined-bind _ _ (data8 m base 1 (omega arith)) λ keyer. with_usk-IsDefined _ s me keyer _ (
        IsDefined-bind _ _ (data32 m base 1 (omega arith)) λ x0.
          IsDefined-bind _ _ (data32 m base 2 (omega arith)) λ x1.
            IsDefined-bind _ _ (data32 m base 3 (omega arith)) λ x2.
              IsDefined-bind _ _ (data32 m base 4 (omega arith))
                λ x3. IsDefined-bind _ _ (data32 m base 5 (omega arith)) λ x4. (_, refl))

  kefs-IsDefined : base + 8 + 7 ≤ length m → IsDefined (on_kefs sequence m base s)
  unfolding on_kefs
  kefs-IsDefined h = IsDefined-bind _ _ (data8 m base 0 (omega arith)) λ me.
      IsDefined-bind _ _ (data8 m base 1 (omega arith)) λ keyer.
        with_usk-IsDefined _ s me keyer _
          (IsDefined-bind _ _ (data8 m base 6 (omega arith)) λ x0. (_, refl))

  keon-IsDefined : base + 8 + 3 ≤ length m → IsDefined (on_keon sequence m base s)
  unfolding on_keon
  keon-IsDefined h = IsDefined-bind _ _ (data8 m base 0 (omega arith)) λ me.
      IsDefined-bind _ _ (data8 m base 1 (omega arith)) λ keyer.
        IsDefined-if (leb (length s.mix_effect) me) _ _ (_, refl)
          λ e.
            IsDefined-if (ltb 15 keyer) _ _ (_, refl)
              λ f.
                IsDefined-bind _ _
                  (get_elem?_in s.mix_effect me (leb-lt (length s.mix_effect) me e))
                  λ x. IsDefined-bind _ _ (data8 m base 2 (omega arith)) λ enabled. (_, refl)

  inpr-IsDefined : base + 8 + 26 ≤ length m → IsDefined (on_inpr sequence m base s)
  unfolding on_inpr
  inpr-IsDefined h = IsDefined-bind _ _ (data16 m base 0 (omega arith)) λ source.
      let (n, e, le) = strnlen-le m (base + 10) 20 (omega arith) in
      rw e (
        IsDefined-bind _ _ (copy_from_inside m (base + 10) n (omega arith)) λ name_long.
          IsDefined-bind _ _ (strnlen-IsDefined m (base + 30) 4 (omega arith)) λ k.
            IsDefined-bind _ _ (copy_from_inside m (base + 30) 4 (omega arith))
              λ name_short. (_, refl))

  strs-IsDefined : base + 8 + 2 ≤ length m → IsDefined (on_strs sequence m base s)
  unfolding on_strs get_length
  strs-IsDefined h = IsDefined-bind _ _ (load16-IsDefined m base (omega arith)) λ n.
      IsDefined-if (not (n == 12)) _ _ (_, refl)
        λ e. IsDefined-bind _ _ (data8 m base 1 (omega arith)) λ state. (_, refl)

  pin-IsDefined :
      base + 8 + 45 ≤ length m
      → IsDefined (strlen m (base + 8))
      → IsDefined (on_pin sequence m base s)
  unfolding on_pin
  pin-IsDefined h k =
      IsDefined-bind _ _ (copy_from_inside m (base + 8) 45 (omega arith))
        λ bytes. IsDefined-bind _ _ k λ n. (_, refl)

  mpfe-IsDefined :
      base + 8 + 5 ≤ length m
      → (type : ℕ) × (get_data m base 0 ≡ some type) × (type ≢ 0)
      → IsDefined (on_mpfe sequence m base s)
  unfolding on_mpfe
  mpfe-IsDefined h (type, e, clip) =
      let clips : (type == 0) ≡ false = ground arith in
      let (index, e1) = data16 m base 1 (omega arith) in
      let (is_used, e2) = data8 m base 4 (omega arith) in rw (e, e1, e2, clips) (_, refl)

  pub handle-IsDefined :
      (kind : Kind) → Reads kind m base → IsDefined (handle sequence m kind base s)
  unfolding handle
  handle-IsDefined mpl h = mpl-IsDefined h.0
  handle-IsDefined mec h = mec-IsDefined h.0
  handle-IsDefined ver h = ver-IsDefined h.0
  handle-IsDefined top h = top-IsDefined h.0
  handle-IsDefined auxs h = auxs-IsDefined h.0
  handle-IsDefined dskb h = dskb-IsDefined h.0
  handle-IsDefined dskp h = dskp-IsDefined h.0
  handle-IsDefined dsks h = dsks-IsDefined h.0
  handle-IsDefined ftbs h = ftbs-IsDefined h.0
  handle-IsDefined inpr h = inpr-IsDefined h.0
  handle-IsDefined kebp h = kebp-IsDefined h.0
  handle-IsDefined kedv h = kedv-IsDefined h.0
  handle-IsDefined kefs h = kefs-IsDefined h.0
  handle-IsDefined keon h = keon-IsDefined h.0
  handle-IsDefined mpce h = mpce-IsDefined h.0
  handle-IsDefined prgi h = prgi-IsDefined h.0
  handle-IsDefined prvi h = prvi-IsDefined h.0
  handle-IsDefined strs h = strs-IsDefined h.0
  handle-IsDefined trps h = trps-IsDefined h.0
  handle-IsDefined trss h = trss-IsDefined h.0
  handle-IsDefined pin h = pin-IsDefined h.0 h.1
  handle-IsDefined mpfe h = mpfe-IsDefined h.0 h.1
  handle-IsDefined other h = (_, refl)
