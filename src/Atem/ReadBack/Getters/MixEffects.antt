-- ===== src/Atem/ReadBack/Getters/MixEffects.antt =====
-- FtbS, PrgI, PrvI, TrPs and TrSS read back.
use atem_esp_idf.Prelude.{ℕ, ◌<◌, refl, length, leb, Bool-cases, inl, inr}
use atem_esp_idf.Prelude.Returns.{Ensures, Ensures-bind, Ensures-some}
use atem_esp_idf.Buffer.{Bytes}
use atem_esp_idf.Sequence.{SequenceCheck}
use atem_esp_idf.Command.{get_data, get_data_s}
use atem_esp_idf.Atem.Object.{Switcher}
use atem_esp_idf.Atem.Getters.{
  get_program_input, get_preview_input, get_transition_position, get_transition_state,
  get_ftb_state,
}
use atem_esp_idf.Atem.Handlers.MixEffects.{write_me, on_prgi, on_prvi, on_trps, on_trss, on_ftbs}
use atem_esp_idf.Atem.ReadBack.Getters.{
  AreRecent, ReadsBack, single_prgi, single_prvi, single_trps, single_trss, single_ftbs,
}
use atem_esp_idf.Atem.ReadBack.Getters.Writes.{itself, read_at_current, read_at_beyond}

module _ (sequence : SequenceCheck) (fits : sequence.last_id < 32768) (m : Bytes) (base : ℕ)
    (s : Switcher) where
  pub ftbs-ReadsBack :
      AreRecent single_ftbs sequence s
      → Ensures (λ r. ReadsBack single_ftbs m base s r.1) (on_ftbs sequence m base s)
  unfolding on_ftbs write_me get_ftb_state
  ftbs-ReadsBack h =
      Ensures-bind _ (λ r. ReadsBack single_ftbs m base s r.1) _ _ (itself (get_data m base 0))
        λ i e.
          Ensures-bind _ (λ r. ReadsBack single_ftbs m base s r.1) _ _ (itself (get_data m base 1))
            λ black e0.
              Ensures-bind _ (λ r. ReadsBack single_ftbs m base s r.1) _ _
                (itself (get_data m base 2))
                λ moves e1. elim (Bool-cases (leb (length s.mix_effect) i)) [
                  | inl t ↦ rw t (
                      Ensures-some (λ r. ReadsBack single_ftbs m base s r.1) _
                        (i, e, rw t (read_at_beyond sequence fits (λ x. x.ftb) s.mix_effect i t)))
                  | inr u ↦ rw u (
                      Ensures-some (λ r. ReadsBack single_ftbs m base s r.1) _
                        (
                          i,
                          e,
                          rw (u, e0, e1)
                              (read_at_current sequence fits (λ x. x.ftb) s.mix_effect i _ _ h
                                (λ x. refl) u),
                        ))
                ]

  pub prgi-ReadsBack :
      AreRecent single_prgi sequence s
      → Ensures (λ r. ReadsBack single_prgi m base s r.1) (on_prgi sequence m base s)
  unfolding on_prgi write_me get_program_input
  prgi-ReadsBack h =
      Ensures-bind _ (λ r. ReadsBack single_prgi m base s r.1) _ _ (itself (get_data m base 0))
        λ i e. elim (Bool-cases (leb (length s.mix_effect) i)) [
          | inl t ↦ rw t (
              Ensures-some (λ r. ReadsBack single_prgi m base s r.1) _
                (i, e, rw t (read_at_beyond sequence fits (λ x. x.program) s.mix_effect i t)))
          | inr u ↦ rw u (
              Ensures-bind _ (λ r. ReadsBack single_prgi m base s r.1) _ _
                (itself (get_data_s m base 1))
                λ source e0.
                  Ensures-some (λ r. ReadsBack single_prgi m base s r.1) _
                    (
                      i,
                      e,
                      rw (u, e0)
                          (read_at_current sequence fits (λ x. x.program) s.mix_effect i _ _ h
                            (λ x. refl) u),
                    ))
        ]

  pub prvi-ReadsBack :
      AreRecent single_prvi sequence s
      → Ensures (λ r. ReadsBack single_prvi m base s r.1) (on_prvi sequence m base s)
  unfolding on_prvi write_me get_preview_input
  prvi-ReadsBack h =
      Ensures-bind _ (λ r. ReadsBack single_prvi m base s r.1) _ _ (itself (get_data m base 0))
        λ i e. elim (Bool-cases (leb (length s.mix_effect) i)) [
          | inl t ↦ rw t (
              Ensures-some (λ r. ReadsBack single_prvi m base s r.1) _
                (i, e, rw t (read_at_beyond sequence fits (λ x. x.preview) s.mix_effect i t)))
          | inr u ↦ rw u (
              Ensures-bind _ (λ r. ReadsBack single_prvi m base s r.1) _ _
                (itself (get_data_s m base 1))
                λ source e0.
                  Ensures-some (λ r. ReadsBack single_prvi m base s r.1) _
                    (
                      i,
                      e,
                      rw (u, e0)
                          (read_at_current sequence fits (λ x. x.preview) s.mix_effect i _ _ h
                            (λ x. refl) u),
                    ))
        ]

  pub trps-ReadsBack :
      AreRecent single_trps sequence s
      → Ensures (λ r. ReadsBack single_trps m base s r.1) (on_trps sequence m base s)
  unfolding on_trps write_me get_transition_position
  trps-ReadsBack h =
      Ensures-bind _ (λ r. ReadsBack single_trps m base s r.1) _ _ (itself (get_data m base 0))
        λ i e. elim (Bool-cases (leb (length s.mix_effect) i)) [
          | inl t ↦ rw t (
              Ensures-some (λ r. ReadsBack single_trps m base s r.1) _
                (
                  i,
                  e,
                  rw t (read_at_beyond sequence fits (λ x. x.transition.position) s.mix_effect i t),
                ))
          | inr u ↦ rw u (
              Ensures-bind _ (λ r. ReadsBack single_trps m base s r.1) _ _
                (itself (get_data m base 1))
                λ flags e0.
                  Ensures-bind _ (λ r. ReadsBack single_trps m base s r.1) _ _
                    (itself (get_data_s m base 2))
                    λ position e1.
                      Ensures-some (λ r. ReadsBack single_trps m base s r.1) _
                        (
                          i,
                          e,
                          rw (u, e0, e1)
                              (read_at_current sequence fits (λ x. x.transition.position)
                                s.mix_effect i _ _ h (λ x. refl) u),
                        ))
        ]

  pub trss-ReadsBack :
      AreRecent single_trss sequence s
      → Ensures (λ r. ReadsBack single_trss m base s r.1) (on_trss sequence m base s)
  unfolding on_trss write_me get_transition_state
  trss-ReadsBack h =
      Ensures-bind _ (λ r. ReadsBack single_trss m base s r.1) _ _ (itself (get_data m base 0))
        λ i e. elim (Bool-cases (leb (length s.mix_effect) i)) [
          | inl t ↦ rw t (
              Ensures-some (λ r. ReadsBack single_trss m base s r.1) _
                (
                  i,
                  e,
                  rw t (read_at_beyond sequence fits (λ x. x.transition.state) s.mix_effect i t),
                ))
          | inr u ↦ rw u (
              Ensures-bind _ (λ r. ReadsBack single_trss m base s r.1) _ _
                (itself (get_data m base 1))
                λ style e0.
                  Ensures-bind _ (λ r. ReadsBack single_trss m base s r.1) _ _
                    (itself (get_data m base 2))
                    λ next e1.
                      Ensures-some (λ r. ReadsBack single_trss m base s r.1) _
                        (
                          i,
                          e,
                          rw (u, e0, e1)
                              (read_at_current sequence fits (λ x. x.transition.state) s.mix_effect
                                i _ _ h (λ x. refl) u),
                        ))
        ]
