-- ===== src/Atem/ReadBack/Getters/Outputs.antt =====
-- AuxS and MPCE read back.
use atem_esp_idf.Prelude.{ℕ, ◌<◌, refl, length, leb, Bool-cases, inl, inr}
use atem_esp_idf.Prelude.Returns.{Ensures, Ensures-bind, Ensures-some}
use atem_esp_idf.Buffer.{Bytes}
use atem_esp_idf.Sequence.{SequenceCheck}
use atem_esp_idf.Command.{get_data, get_data_s}
use atem_esp_idf.Atem.Object.{Switcher}
use atem_esp_idf.Atem.Getters.{get_aux_output, get_media_player_source}
use atem_esp_idf.Atem.Handlers.Media.{on_mpce}
use atem_esp_idf.Atem.Handlers.MixEffects.{on_auxs}
use atem_esp_idf.Atem.ReadBack.Getters.{AreRecent, ReadsBack, single_auxs, single_mpce}
use atem_esp_idf.Atem.ReadBack.Getters.Writes.{itself, read_at_current, read_at_beyond}

module _ (sequence : SequenceCheck) (fits : sequence.last_id < 32768) (m : Bytes) (base : ℕ)
    (s : Switcher) where
  pub auxs-ReadsBack :
      AreRecent single_auxs sequence s
      → Ensures (λ r. ReadsBack single_auxs m base s r.1) (on_auxs sequence m base s)
  unfolding on_auxs get_aux_output
  auxs-ReadsBack h =
      Ensures-bind _ (λ r. ReadsBack single_auxs m base s r.1) _ _ (itself (get_data m base 0))
        λ i e. elim (Bool-cases (leb (length s.aux_out) i)) [
          | inl t ↦ rw t (
              Ensures-some (λ r. ReadsBack single_auxs m base s r.1) _
                (i, e, rw t (read_at_beyond sequence fits (λ x. x) s.aux_out i t)))
          | inr u ↦ rw u (
              Ensures-bind _ (λ r. ReadsBack single_auxs m base s r.1) _ _
                (itself (get_data_s m base 1))
                λ source e0.
                  Ensures-some (λ r. ReadsBack single_auxs m base s r.1) _
                    (
                      i,
                      e,
                      rw (u, e0)
                          (read_at_current sequence fits (λ x. x) s.aux_out i _ _ h (λ x. refl) u),
                    ))
        ]

  pub mpce-ReadsBack :
      AreRecent single_mpce sequence s
      → Ensures (λ r. ReadsBack single_mpce m base s r.1) (on_mpce sequence m base s)
  unfolding on_mpce get_media_player_source
  mpce-ReadsBack h =
      Ensures-bind _ (λ r. ReadsBack single_mpce m base s r.1) _ _ (itself (get_data m base 0))
        λ i e. elim (Bool-cases (leb (length s.media_player_source) i)) [
          | inl t ↦ rw t (
              Ensures-some (λ r. ReadsBack single_mpce m base s r.1) _
                (i, e, rw t (read_at_beyond sequence fits (λ x. x) s.media_player_source i t)))
          | inr u ↦ rw u (
              Ensures-bind _ (λ r. ReadsBack single_mpce m base s r.1) _ _
                (itself (get_data m base 1))
                λ type e0.
                  Ensures-bind _ (λ r. ReadsBack single_mpce m base s r.1) _ _
                    (itself (get_data m base 2))
                    λ still e1.
                      Ensures-bind _ (λ r. ReadsBack single_mpce m base s r.1) _ _
                        (itself (get_data m base 3))
                        λ clip e2.
                          Ensures-some (λ r. ReadsBack single_mpce m base s r.1) _
                            (
                              i,
                              e,
                              rw (u, e0, e1, e2)
                                  (read_at_current sequence fits (λ x. x) s.media_player_source i _
                                    _ h (λ x. refl) u),
                            ))
        ]
