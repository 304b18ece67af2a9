-- ===== src/Atem/ReadBack/Getters/Keyers.antt =====
-- DskB, DskP and DskS read back.
use atem_esp_idf.Prelude.{
  ℕ, ◌≡◌, ◌<◌, refl, some, length, leb, nonzero, Bool-cases, inl, inr, ◌>>=◌,
}
use atem_esp_idf.Prelude.Returns.{Ensures, Ensures-bind, Ensures-some}
use atem_esp_idf.Buffer.{Bytes}
use atem_esp_idf.Sequence.{SequenceCheck}
use atem_esp_idf.State.{put}
use atem_esp_idf.Types.{Dsk, DskSource, DskProperties, DskState}
use atem_esp_idf.Command.{get_data, get_data_s}
use atem_esp_idf.Atem.Object.{Switcher}
use atem_esp_idf.Atem.Getters.{get_dsk_source, get_dsk_properties, get_dsk_state}
use atem_esp_idf.Atem.Handlers.Keyers.{with_dsk, on_dskb, on_dskp, on_dsks}
use atem_esp_idf.Atem.ReadBack.Getters.{AreRecent, ReadsBack, single_dskb, single_dskp, single_dsks}
use atem_esp_idf.Atem.ReadBack.Getters.Writes.{itself, read_at_current, read_at_beyond}

module _ (sequence : SequenceCheck) (fits : sequence.last_id < 32768) (m : Bytes) (base : ℕ)
    (s : Switcher) where
  -- A change that writes the value.
  abbrev DskbWrites : (Dsk → Dsk) → Type 0
  DskbWrites f =
      (v : DskSource) × ((do
        fill ← get_data_s m base 1
        key ← get_data_s m base 2
        some (record { fill = fill; key = key }))
        ≡ some v)
      × ((x : Dsk) → (f x).source ≡ put x.source sequence v)

  pub dskb-ReadsBack :
      AreRecent single_dskb sequence s
      → Ensures (λ r. ReadsBack single_dskb m base s r.1) (on_dskb sequence m base s)
  unfolding on_dskb with_dsk get_dsk_source
  dskb-ReadsBack h =
      Ensures-bind _ (λ r. ReadsBack single_dskb m base s r.1) _ _ (itself (get_data m base 0))
        λ i e. elim (Bool-cases (leb (length s.dsk) i)) [
          | inl t ↦ rw t (
              Ensures-some (λ r. ReadsBack single_dskb m base s r.1) _
                (i, e, rw t (read_at_beyond sequence fits (λ x. x.source) s.dsk i t)))
          | inr u ↦ rw u (
              Ensures-bind DskbWrites (λ r. ReadsBack single_dskb m base s r.1) _ _
                (Ensures-bind _ DskbWrites _ _ (itself (get_data_s m base 1)) λ fill e0.
                  Ensures-bind _ DskbWrites _ _ (itself (get_data_s m base 2)) λ key e1.
                    Ensures-some DskbWrites _
                      (record { fill = fill; key = key }, rw (e0, e1) refl, λ x. refl))
                λ f (v, ev, k).
                  Ensures-some (λ r. ReadsBack single_dskb m base s r.1) _
                    (
                      i,
                      e,
                      rw (u, ev) (read_at_current sequence fits (λ x. x.source) s.dsk i f v h k u),
                    ))
        ]

  -- A change that writes the value.
  abbrev DskpWrites : (Dsk → Dsk) → Type 0
  DskpWrites f =
      (v : DskProperties) × ((do tie ← get_data m base 1; some (record { tie = nonzero tie }))
        ≡ some v)
      × ((x : Dsk) → (f x).properties ≡ put x.properties sequence v)

  pub dskp-ReadsBack :
      AreRecent single_dskp sequence s
      → Ensures (λ r. ReadsBack single_dskp m base s r.1) (on_dskp sequence m base s)
  unfolding on_dskp with_dsk get_dsk_properties
  dskp-ReadsBack h =
      Ensures-bind _ (λ r. ReadsBack single_dskp m base s r.1) _ _ (itself (get_data m base 0))
        λ i e. elim (Bool-cases (leb (length s.dsk) i)) [
          | inl t ↦ rw t (
              Ensures-some (λ r. ReadsBack single_dskp m base s r.1) _
                (i, e, rw t (read_at_beyond sequence fits (λ x. x.properties) s.dsk i t)))
          | inr u ↦ rw u (
              Ensures-bind DskpWrites (λ r. ReadsBack single_dskp m base s r.1) _ _
                (Ensures-bind _ DskpWrites _ _ (itself (get_data m base 1)) λ tie e0.
                  Ensures-some DskpWrites _ (record { tie = nonzero tie }, rw (e0) refl, λ x. refl))
                λ f (v, ev, k).
                  Ensures-some (λ r. ReadsBack single_dskp m base s r.1) _
                    (
                      i,
                      e,
                      rw (u, ev)
                          (read_at_current sequence fits (λ x. x.properties) s.dsk i f v h k u),
                    ))
        ]

  -- A change that writes the value.
  abbrev DsksWrites : (Dsk → Dsk) → Type 0
  DsksWrites f =
      (v : DskState) × ((do
        on_air ← get_data m base 1
        moves ← get_data m base 2
        auto ← get_data m base 3
        some (record {
          on_air = nonzero on_air;
          in_transition = nonzero moves;
          is_auto_transitioning = nonzero auto;
        }))
        ≡ some v)
      × ((x : Dsk) → (f x).state ≡ put x.state sequence v)

  pub dsks-ReadsBack :
      AreRecent single_dsks sequence s
      → Ensures (λ r. ReadsBack single_dsks m base s r.1) (on_dsks sequence m base s)
  unfolding on_dsks with_dsk get_dsk_state
  dsks-ReadsBack h =
      Ensures-bind _ (λ r. ReadsBack single_dsks m base s r.1) _ _ (itself (get_data m base 0))
        λ i e. elim (Bool-cases (leb (length s.dsk) i)) [
          | inl t ↦ rw t (
              Ensures-some (λ r. ReadsBack single_dsks m base s r.1) _
                (i, e, rw t (read_at_beyond sequence fits (λ x. x.state) s.dsk i t)))
          | inr u ↦ rw u (
              Ensures-bind DsksWrites (λ r. ReadsBack single_dsks m base s r.1) _ _
                (Ensures-bind _ DsksWrites _ _ (itself (get_data m base 1)) λ on_air e0.
                  Ensures-bind _ DsksWrites _ _ (itself (get_data m base 2)) λ moves e1.
                    Ensures-bind _ DsksWrites _ _ (itself (get_data m base 3)) λ auto e2.
                      Ensures-some DsksWrites _ (
                        record {
                          on_air = nonzero on_air;
                          in_transition = nonzero moves;
                          is_auto_transitioning = nonzero auto;
                        },
                        rw (e0, e1, e2) refl,
                        λ x. refl,
                      ))
                λ f (v, ev, k).
                  Ensures-some (λ r. ReadsBack single_dsks m base s r.1) _
                    (
                      i,
                      e,
                      rw (u, ev) (read_at_current sequence fits (λ x. x.state) s.dsk i f v h k u),
                    ))
        ]
