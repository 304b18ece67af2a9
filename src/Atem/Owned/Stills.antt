-- ===== src/Atem/Owned/Stills.antt =====
-- The case of MPfe, where the block has what it reads, and the other cases.
use atem_esp_idf.Prelude.{
  ℕ, ◌+◌, ◌≡◌, ◌≢◌, ◌≤◌, ◌<◌, refl, some, arith, length, ◌==◌, nonzero, Bool-cases, inl, inr, subst,
  sym,
}
use atem_esp_idf.Prelude.Returns.{IsDefined, Returns}
use atem_esp_idf.Buffer.{Bytes}
use atem_esp_idf.Buffer.Text.{strndup}
use atem_esp_idf.Buffer.Inside.{copy_from_inside}
use atem_esp_idf.Sequence.{SequenceCheck}
use atem_esp_idf.Command.{get_data}
use atem_esp_idf.Atem.Object.{Switcher}
use atem_esp_idf.Atem.Dispatch.{
  Kind, mpl, mec, ver, pin, top, auxs, dskb, dskp, dsks, ftbs, inpr, kebp, kedv, kefs, keon, mpce,
  mpfe, prgi, prvi, strs, trps, trss, other, handle,
}
use atem_esp_idf.Atem.Events.{bit_of, event_media_pool}
use atem_esp_idf.Atem.Handlers.Device.{on_mpl, on_mec, on_ver, on_pin, on_top, on_inpr, on_strs}
use atem_esp_idf.Atem.Handlers.Media.{on_mpce, on_mpfe, store_file}
use atem_esp_idf.Atem.Handlers.MixEffects.{
  write_me, on_auxs, on_ftbs, on_prgi, on_prvi, on_trps, on_trss,
}
use atem_esp_idf.Atem.Handlers.Keyers.{
  with_dsk, with_usk, on_dskb, on_dskp, on_dsks, on_kebp, on_kedv, on_kefs, on_keon,
}
use atem_esp_idf.Atem.Handlers.Complete.{data8, data16, strnlen-le, Reads}
use atem_esp_idf.Atem.Handlers.Complete.Cases.{handle-IsDefined}
use atem_esp_idf.Atem.Owned.{AreCurrent}
use atem_esp_idf.Atem.Owned.Files.{IsOwned, clear_file-Clears, stored-IsOwned}

-- Of a still, the block has the name that byte 23 counts.
abbrev pub ReadsName : Kind → Bytes → ℕ → Type 0
ReadsName mpfe m base =
    (base + 32 ≤ length m) × ((n : ℕ) × (get_data m base 23 ≡ some n) × (base + 32 + n ≤ length m))
ReadsName kind m base = Reads kind m base

strndup-IsDefined : (m : Bytes) (i n : ℕ) → i + n ≤ length m → IsDefined (strndup m i n)
unfolding strndup
strndup-IsDefined m i n h =
    let (k, e, le) = strnlen-le m i n h in rw e (copy_from_inside m i k (omega arith))

-- The entries and the heap are left alone.
abbrev SameFiles : Switcher → Switcher → Type 0
SameFiles s s' = (s'.media_player_file ≡ s.media_player_file) × (s'.heap ≡ s.heap)

module _ (sequence : SequenceCheck) (m : Bytes) (base : ℕ) (s : Switcher) where
  mpfe-IsOwned :
      sequence.last_id < 32768
      → ReadsName mpfe m base
      → IsOwned sequence s
      → Returns (λ r. IsOwned sequence r.1) (on_mpfe sequence m base s)
  unfolding on_mpfe
  mpfe-IsOwned fits (long, (n, e23, le)) h =
      let (type, e0) = data8 m base 0 (omega arith) in
      let (index, e1) = data16 m base 1 (omega arith) in
      let (is_used, e4) = data8 m base 4 (omega arith) in
      let (name, en) = strndup-IsDefined m (base + 8 + 24) n (omega arith) in
      let (s', ec, clears) = clear_file-Clears sequence fits index s h in
      elim (Bool-cases (type == 0)) [
        | inr u ↦ ((0, s), rw (e0, e1, e4, u) refl, h)
        | inl t ↦ elim (Bool-cases (nonzero is_used)) [
          | inr u ↦ ((bit_of event_media_pool, s'), rw (e0, e1, e4, t, ec, u) refl, clears.owned)
          | inl v ↦ (
            (bit_of event_media_pool, store_file sequence index name s'),
            rw (e0, e1, e4, t, ec, v, e23, en) refl,
            stored-IsOwned sequence fits index s' name clears.owned clears.bare,
          )
        ]
      ]

  module _ (bits : ℕ) (s' : Switcher) where
    mpl_files : on_mpl sequence m base s ≡ some (bits, s') → SameFiles s s'
    unfolding on_mpl
    mpl_files e = ground arith

    mec_files : on_mec sequence m base s ≡ some (bits, s') → SameFiles s s'
    unfolding on_mec
    mec_files e = ground arith

    ver_files : on_ver sequence m base s ≡ some (bits, s') → SameFiles s s'
    unfolding on_ver
    ver_files e = ground arith

    pin_files : on_pin sequence m base s ≡ some (bits, s') → SameFiles s s'
    unfolding on_pin
    pin_files e = ground arith

    top_files : on_top sequence m base s ≡ some (bits, s') → SameFiles s s'
    unfolding on_top
    top_files e = ground arith

    auxs_files : on_auxs sequence m base s ≡ some (bits, s') → SameFiles s s'
    unfolding on_auxs
    auxs_files e = ground arith

    dskb_files : on_dskb sequence m base s ≡ some (bits, s') → SameFiles s s'
    unfolding on_dskb with_dsk
    dskb_files e = ground arith

    dskp_files : on_dskp sequence m base s ≡ some (bits, s') → SameFiles s s'
    unfolding on_dskp with_dsk
    dskp_files e = ground arith

    dsks_files : on_dsks sequence m base s ≡ some (bits, s') → SameFiles s s'
    unfolding on_dsks with_dsk
    dsks_files e = ground arith

    ftbs_files : on_ftbs sequence m base s ≡ some (bits, s') → SameFiles s s'
    unfolding on_ftbs write_me
    ftbs_files e = ground arith

    inpr_files : on_inpr sequence m base s ≡ some (bits, s') → SameFiles s s'
    unfolding on_inpr
    inpr_files e = ground arith

    kebp_files : on_kebp sequence m base s ≡ some (bits, s') → SameFiles s s'
    unfolding on_kebp with_usk
    kebp_files e = ground arith

    kedv_files : on_kedv sequence m base s ≡ some (bits, s') → SameFiles s s'
    unfolding on_kedv with_usk
    kedv_files e = ground arith

    kefs_files : on_kefs sequence m base s ≡ some (bits, s') → SameFiles s s'
    unfolding on_kefs with_usk
    kefs_files e = ground arith

    keon_files : on_keon sequence m base s ≡ some (bits, s') → SameFiles s s'
    unfolding on_keon with_usk
    keon_files e = ground arith

    mpce_files : on_mpce sequence m base s ≡ some (bits, s') → SameFiles s s'
    unfolding on_mpce
    mpce_files e = ground arith

    prgi_files : on_prgi sequence m base s ≡ some (bits, s') → SameFiles s s'
    unfolding on_prgi write_me
    prgi_files e = ground arith

    prvi_files : on_prvi sequence m base s ≡ some (bits, s') → SameFiles s s'
    unfolding on_prvi write_me
    prvi_files e = ground arith

    strs_files : on_strs sequence m base s ≡ some (bits, s') → SameFiles s s'
    unfolding on_strs
    strs_files e = ground arith

    trps_files : on_trps sequence m base s ≡ some (bits, s') → SameFiles s s'
    unfolding on_trps write_me
    trps_files e = ground arith

    trss_files : on_trss sequence m base s ≡ some (bits, s') → SameFiles s s'
    unfolding on_trss write_me
    trss_files e = ground arith

    handle-SameFiles :
        (k : Kind) → k ≢ mpfe → handle sequence m k base s ≡ some (bits, s') → SameFiles s s'
    unfolding handle
    handle-SameFiles mpl n e = mpl_files e
    handle-SameFiles mec n e = mec_files e
    handle-SameFiles ver n e = ver_files e
    handle-SameFiles pin n e = pin_files e
    handle-SameFiles top n e = top_files e
    handle-SameFiles auxs n e = auxs_files e
    handle-SameFiles dskb n e = dskb_files e
    handle-SameFiles dskp n e = dskp_files e
    handle-SameFiles dsks n e = dsks_files e
    handle-SameFiles ftbs n e = ftbs_files e
    handle-SameFiles inpr n e = inpr_files e
    handle-SameFiles kebp n e = kebp_files e
    handle-SameFiles kedv n e = kedv_files e
    handle-SameFiles kefs n e = kefs_files e
    handle-SameFiles keon n e = keon_files e
    handle-SameFiles mpce n e = mpce_files e
    handle-SameFiles prgi n e = prgi_files e
    handle-SameFiles prvi n e = prvi_files e
    handle-SameFiles strs n e = strs_files e
    handle-SameFiles trps n e = trps_files e
    handle-SameFiles trss n e = trss_files e
    handle-SameFiles mpfe n e = absurd (n refl)
    handle-SameFiles other n e = ground arith

  others-IsOwned :
      (k : Kind)
      → k ≢ mpfe
      → Reads k m base
      → IsOwned sequence s
      → Returns (λ r. IsOwned sequence r.1) (handle sequence m k base s)
  others-IsOwned k n r h =
      let ((bits, s'), e) = handle-IsDefined sequence m base s k r in
      let (files, heap) = handle-SameFiles bits s' k n e in
      (
        (bits, s'),
        e,
        record {
          owns = λ j. rw (files, heap) (h.owns j);
          current = subst (AreCurrent sequence) (sym files) h.current;
        },
      )

  pub handle-IsOwned :
      (k : Kind)
      → sequence.last_id < 32768
      → ReadsName k m base
      → IsOwned sequence s
      → Returns (λ r. IsOwned sequence r.1) (handle sequence m k base s)
  unfolding handle
  handle-IsOwned mpfe fits r h = mpfe-IsOwned fits r h
  handle-IsOwned mpl fits r h = others-IsOwned mpl (λ e. cc) r h
  handle-IsOwned mec fits r h = others-IsOwned mec (λ e. cc) r h
  handle-IsOwned ver fits r h = others-IsOwned ver (λ e. cc) r h
  handle-IsOwned pin fits r h = others-IsOwned pin (λ e. cc) r h
  handle-IsOwned top fits r h = others-IsOwned top (λ e. cc) r h
  handle-IsOwned auxs fits r h = others-IsOwned auxs (λ e. cc) r h
  handle-IsOwned dskb fits r h = others-IsOwned dskb (λ e. cc) r h
  handle-IsOwned dskp fits r h = others-IsOwned dskp (λ e. cc) r h
  handle-IsOwned dsks fits r h = others-IsOwned dsks (λ e. cc) r h
  handle-IsOwned ftbs fits r h = others-IsOwned ftbs (λ e. cc) r h
  handle-IsOwned inpr fits r h = others-IsOwned inpr (λ e. cc) r h
  handle-IsOwned kebp fits r h = others-IsOwned kebp (λ e. cc) r h
  handle-IsOwned kedv fits r h = others-IsOwned kedv (λ e. cc) r h
  handle-IsOwned kefs fits r h = others-IsOwned kefs (λ e. cc) r h
  handle-IsOwned keon fits r h = others-IsOwned keon (λ e. cc) r h
  handle-IsOwned mpce fits r h = others-IsOwned mpce (λ e. cc) r h
  handle-IsOwned prgi fits r h = others-IsOwned prgi (λ e. cc) r h
  handle-IsOwned prvi fits r h = others-IsOwned prvi (λ e. cc) r h
  handle-IsOwned strs fits r h = others-IsOwned strs (λ e. cc) r h
  handle-IsOwned trps fits r h = others-IsOwned trps (λ e. cc) r h
  handle-IsOwned trss fits r h = others-IsOwned trss (λ e. cc) r h
  handle-IsOwned other fits r h = others-IsOwned other (λ e. cc) r h
