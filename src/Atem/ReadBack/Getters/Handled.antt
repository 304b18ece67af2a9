-- ===== src/Atem/ReadBack/Getters/Handled.antt =====
-- _mpl, _ver, StRS and _top, and the commands with one value together.
use atem_esp_idf.Prelude.{ℕ, ◌≡◌, ◌<◌, refl, some, ◌==◌, Bool-cases, inl, inr}
use atem_esp_idf.Prelude.Returns.{Ensures, Ensures-bind, Ensures-some}
use atem_esp_idf.Buffer.{Bytes}
use atem_esp_idf.Sequence.{SequenceCheck}
use atem_esp_idf.Command.{get_data, get_data_s, get_length}
use atem_esp_idf.Atem.Object.{Switcher}
use atem_esp_idf.Atem.Getters.{
  get_media_player, get_topology, get_protocol_version, get_stream_state,
}
use atem_esp_idf.Atem.Dispatch.{handle}
use atem_esp_idf.Atem.Handlers.Device.{on_mpl, on_ver, on_top, on_strs}
use atem_esp_idf.Atem.ReadBack.Getters.{
  Single, kind_of_single, AreRecent, ReadsBack, single_auxs, single_prgi, single_prvi, single_trps,
  single_trss, single_mpce, single_dskb, single_dskp, single_dsks, single_ftbs, single_mpl,
  single_top, single_ver, single_kebp, single_kedv, single_strs,
}
use atem_esp_idf.Atem.ReadBack.Getters.Writes.{itself, read_current}
use atem_esp_idf.Atem.ReadBack.Getters.Outputs.{auxs-ReadsBack, mpce-ReadsBack}
use atem_esp_idf.Atem.ReadBack.Getters.Keyers.{dskb-ReadsBack, dskp-ReadsBack, dsks-ReadsBack}
use atem_esp_idf.Atem.ReadBack.Getters.UpstreamKeyers.{kebp-ReadsBack, kedv-ReadsBack}
use atem_esp_idf.Atem.ReadBack.Getters.MixEffects.{
  ftbs-ReadsBack, prgi-ReadsBack, prvi-ReadsBack, trps-ReadsBack, trss-ReadsBack,
}

module _ (sequence : SequenceCheck) (fits : sequence.last_id < 32768) (m : Bytes) (base : ℕ)
    (s : Switcher) where
  mpl-ReadsBack :
      AreRecent single_mpl sequence s
      → Ensures (λ r. ReadsBack single_mpl m base s r.1) (on_mpl sequence m base s)
  unfolding on_mpl get_media_player
  mpl-ReadsBack h =
      Ensures-bind _ (λ r. ReadsBack single_mpl m base s r.1) _ _ (itself (get_data m base 0))
        λ still e0.
          Ensures-bind _ (λ r. ReadsBack single_mpl m base s r.1) _ _ (itself (get_data m base 1))
            λ clip e1.
              Ensures-some (λ r. ReadsBack single_mpl m base s r.1) _
                (rw (e0, e1) (read_current sequence fits s.media_player _ h))

  ver-ReadsBack :
      AreRecent single_ver sequence s
      → Ensures (λ r. ReadsBack single_ver m base s r.1) (on_ver sequence m base s)
  unfolding on_ver get_protocol_version
  ver-ReadsBack h =
      Ensures-bind _ (λ r. ReadsBack single_ver m base s r.1) _ _ (itself (get_data_s m base 0))
        λ major e0.
          Ensures-bind _ (λ r. ReadsBack single_ver m base s r.1) _ _ (itself (get_data_s m base 1))
            λ minor e1.
              Ensures-some (λ r. ReadsBack single_ver m base s r.1) _
                (rw (e0, e1) (read_current sequence fits s.version _ h))

  strs-ReadsBack :
      AreRecent single_strs sequence s
      → Ensures (λ r. ReadsBack single_strs m base s r.1) (on_strs sequence m base s)
  unfolding on_strs get_stream_state
  strs-ReadsBack h =
      Ensures-bind _ (λ r. ReadsBack single_strs m base s r.1) _ _ (itself (get_length m base))
        λ n e0. elim (Bool-cases (n == 12)) [
          | inl t ↦ rw t (
              Ensures-bind _ (λ r. ReadsBack single_strs m base s r.1) _ _
                (itself (get_data m base 1))
                λ state e1.
                  Ensures-some (λ r. ReadsBack single_strs m base s r.1) _
                    (n, e0, rw (t, e1) (read_current sequence fits s.stream _ h)))
          | inr f ↦
              rw f (Ensures-some (λ r. ReadsBack single_strs m base s r.1) _ (n, e0, rw f refl))
        ]

  top-ReadsBack :
      AreRecent single_top sequence s
      → Ensures (λ r. ReadsBack single_top m base s r.1) (on_top sequence m base s)
  unfolding on_top get_topology
  top-ReadsBack h =
      Ensures-bind _ (λ r. ReadsBack single_top m base s r.1) _ _ (itself (get_data m base 0))
        λ me e0.
          Ensures-bind _ (λ r. ReadsBack single_top m base s r.1) _ _ (itself (get_data m base 1))
            λ sources e1.
              Ensures-bind _ (λ r. ReadsBack single_top m base s r.1) _ _
                (itself (get_data m base 2))
                λ dsk e2.
                  Ensures-bind _ (λ r. ReadsBack single_top m base s r.1) _ _
                    (itself (get_data m base 3))
                    λ aux e3.
                      Ensures-bind _ (λ r. ReadsBack single_top m base s r.1) _ _
                        (itself (get_data m base 4))
                        λ mixminus_outputs e4.
                          Ensures-bind _ (λ r. ReadsBack single_top m base s r.1) _ _
                            (itself (get_data m base 5))
                            λ mediaplayers e5.
                              Ensures-bind _ (λ r. ReadsBack single_top m base s r.1) _ _
                                (itself (get_data m base 6))
                                λ multiviewers e6.
                                  Ensures-bind _ (λ r. ReadsBack single_top m base s r.1) _ _
                                    (itself (get_data m base 7))
                                    λ rs485 e7.
                                      Ensures-bind _ (λ r. ReadsBack single_top m base s r.1) _ _
                                        (itself (get_data m base 8))
                                        λ hyperdecks e8.
                                          Ensures-bind _ (λ r. ReadsBack single_top m base s r.1) _
                                            _ (itself (get_data m base 9))
                                            λ dve e9.
                                              Ensures-bind _
                                                (λ r. ReadsBack single_top m base s r.1) _ _
                                                (itself (get_data m base 10))
                                                λ stingers e10.
                                                  Ensures-bind _
                                                    (λ r. ReadsBack single_top m base s r.1) _ _
                                                    (itself (get_data m base 11))
                                                    λ supersources e11.
                                                      Ensures-bind _
                                                        (λ r. ReadsBack single_top m base s r.1) _ _
                                                        (itself (get_data m base 13))
                                                        λ talkback_channels e12.
                                                          Ensures-bind _
                                                            (λ r. ReadsBack single_top m base s r.1)
                                                            _ _ (itself (get_data m base 18))
                                                            λ camera_control e13.
                                                            Ensures-some
                                                            (λ r. ReadsBack single_top m base s r.1)
                                                            _
                                                            (rw
                                                            (
                                                            e0, e1, e2, e3, e4, e5, e6, e7, e8, e9,
                                                            e10, e11, e12, e13,
                                                            )
                                                            (read_current sequence fits s.topology _
                                                            h))

  -- A command AuxS, DskB, DskP, DskS, FtbS, KeBP, KeDV, MPCE, PrgI, PrvI, StRS, TrPs, TrSS, _mpl,
  -- _top or _ver, of a packet that is not older than the last changes of such values, with an id of
  -- 15 bits: afterwards the getter of its value returns what the command's data says, for AuxS to
  -- PrvI, TrPs and TrSS at the index, or the two indices, in its first bytes, or nothing if the
  -- switcher has no element there. StRS does so with a length of 12; with another length the getter
  -- returns what it returned before.
  pub handle-ReadsBack :
      (single : Single) (bits : ℕ) (s' : Switcher)
      → AreRecent single sequence s
      → handle sequence m (kind_of_single single) base s ≡ some (bits, s')
      → ReadsBack single m base s s'
  unfolding handle
  handle-ReadsBack single_auxs bits s' h e = auxs-ReadsBack sequence fits m base s h (bits, s') e
  handle-ReadsBack single_prgi bits s' h e = prgi-ReadsBack sequence fits m base s h (bits, s') e
  handle-ReadsBack single_prvi bits s' h e = prvi-ReadsBack sequence fits m base s h (bits, s') e
  handle-ReadsBack single_trps bits s' h e = trps-ReadsBack sequence fits m base s h (bits, s') e
  handle-ReadsBack single_trss bits s' h e = trss-ReadsBack sequence fits m base s h (bits, s') e
  handle-ReadsBack single_mpce bits s' h e = mpce-ReadsBack sequence fits m base s h (bits, s') e
  handle-ReadsBack single_dskb bits s' h e = dskb-ReadsBack sequence fits m base s h (bits, s') e
  handle-ReadsBack single_dskp bits s' h e = dskp-ReadsBack sequence fits m base s h (bits, s') e
  handle-ReadsBack single_dsks bits s' h e = dsks-ReadsBack sequence fits m base s h (bits, s') e
  handle-ReadsBack single_ftbs bits s' h e = ftbs-ReadsBack sequence fits m base s h (bits, s') e
  handle-ReadsBack single_mpl bits s' h e = mpl-ReadsBack h (bits, s') e
  handle-ReadsBack single_top bits s' h e = top-ReadsBack h (bits, s') e
  handle-ReadsBack single_ver bits s' h e = ver-ReadsBack h (bits, s') e
  handle-ReadsBack single_kebp bits s' h e = kebp-ReadsBack sequence fits m base s h (bits, s') e
  handle-ReadsBack single_kedv bits s' h e = kedv-ReadsBack sequence fits m base s h (bits, s') e
  handle-ReadsBack single_strs bits s' h e = strs-ReadsBack h (bits, s') e
