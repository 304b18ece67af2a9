-- ===== src/Atem/ReadBack/Getters/UpstreamKeyers.antt =====
-- KeBP and KeDV read back.
use atem_esp_idf.Prelude.{
  ℕ, ◌≡◌, ◌<◌, refl, some, length, leb, get_elem?, Bool-cases, inl, inr, ◌>>=◌,
}
use atem_esp_idf.Prelude.Returns.{Ensures, Ensures-bind, Ensures-some}
use atem_esp_idf.Buffer.{Bytes}
use atem_esp_idf.Sequence.{SequenceCheck}
use atem_esp_idf.State.{put}
use atem_esp_idf.Types.{UskState, DveState, Usk}
use atem_esp_idf.Command.{get_data, get_data_s, get_data_u32}
use atem_esp_idf.Atem.Object.{Switcher}
use atem_esp_idf.Atem.Getters.{read_keyer, get_usk_state, get_usk_dve_state}
use atem_esp_idf.Atem.Handlers.Keyers.{with_usk, on_kebp, on_kedv}
use atem_esp_idf.Atem.ReadBack.Getters.{AreRecent, ReadsBack, single_kebp, single_kedv}
use atem_esp_idf.Atem.ReadBack.Getters.Writes.{itself, read_at_beyond, read_keyer_current}

module _ (sequence : SequenceCheck) (fits : sequence.last_id < 32768) (m : Bytes) (base : ℕ)
    (s : Switcher) where
  -- A change that writes the value.
  abbrev KebpWrites : (Usk → Usk) → Type 0
  KebpWrites f =
      (v : UskState) × ((do
        type ← get_data m base 2
        fill ← get_data_s m base 3
        key ← get_data_s m base 4
        upper ← get_data_s m base 6
        bottom ← get_data_s m base 7
        left ← get_data_s m base 8
        right ← get_data_s m base 9
        some (record {
          type = type;
          fill = fill;
          key = key;
          top = upper;
          bottom = bottom;
          left = left;
          right = right;
        }))
        ≡ some v)
      × ((x : Usk) → (f x).state ≡ put x.state sequence v)

  pub kebp-ReadsBack :
      AreRecent single_kebp sequence s
      → Ensures (λ r. ReadsBack single_kebp m base s r.1) (on_kebp sequence m base s)
  unfolding on_kebp with_usk get_usk_state read_keyer
  kebp-ReadsBack h =
      Ensures-bind _ (λ r. ReadsBack single_kebp m base s r.1) _ _ (itself (get_data m base 0))
        λ me e.
          Ensures-bind _ (λ r. ReadsBack single_kebp m base s r.1) _ _ (itself (get_data m base 1))
            λ keyer e'. elim (Bool-cases (leb (length s.mix_effect) me)) [
              | inl t ↦ rw t (
                  Ensures-some (λ r. ReadsBack single_kebp m base s r.1) _
                    (me, keyer, e, e', rw t refl))
              | inr u ↦ rw u (
                  Ensures-bind _ (λ r. ReadsBack single_kebp m base s r.1) _ _
                    (itself (get_elem? s.mix_effect me))
                    λ x ex. elim (Bool-cases (leb (length x.keyer) keyer)) [
                      | inl t ↦ rw t (
                          Ensures-some (λ r. ReadsBack single_kebp m base s r.1) _
                            (
                              me,
                              keyer,
                              e,
                              e',
                              rw (u, ex, t)
                                  (read_at_beyond sequence fits (λ k. k.state) x.keyer keyer t),
                            ))
                      | inr l ↦ rw l (
                          Ensures-bind KebpWrites (λ r. ReadsBack single_kebp m base s r.1) _ _
                            (Ensures-bind _ KebpWrites _ _ (itself (get_data m base 2)) λ type d0.
                              Ensures-bind _ KebpWrites _ _ (itself (get_data_s m base 3))
                                λ fill d1.
                                  Ensures-bind _ KebpWrites _ _ (itself (get_data_s m base 4))
                                    λ key d2.
                                      Ensures-bind _ KebpWrites _ _ (itself (get_data_s m base 6))
                                        λ upper d3.
                                          Ensures-bind _ KebpWrites _ _
                                            (itself (get_data_s m base 7))
                                            λ bottom d4.
                                              Ensures-bind _ KebpWrites _ _
                                                (itself (get_data_s m base 8))
                                                λ left d5.
                                                  Ensures-bind _ KebpWrites _ _
                                                    (itself (get_data_s m base 9))
                                                    λ right d6. Ensures-some KebpWrites _ (
                                                      record {
                                                        type = type;
                                                        fill = fill;
                                                        key = key;
                                                        top = upper;
                                                        bottom = bottom;
                                                        left = left;
                                                        right = right;
                                                      },
                                                      rw (d0, d1, d2, d3, d4, d5, d6) refl,
                                                      λ x. refl,
                                                    ))
                            λ f (v, ev, k).
                              Ensures-some (λ r. ReadsBack single_kebp m base s r.1) _
                                (
                                  me,
                                  keyer,
                                  e,
                                  e',
                                  rw (u, ex, l, ev)
                                      (read_keyer_current sequence fits (λ k. k.state) s me keyer f
                                        v x h k u ex l),
                                ))
                    ])
            ]

  -- A change that writes the value.
  abbrev KedvWrites : (Usk → Usk) → Type 0
  KedvWrites f =
      (v : DveState) × ((do
        size_x ← get_data_u32 m base 1
        size_y ← get_data_u32 m base 2
        pos_x ← get_data_u32 m base 3
        pos_y ← get_data_u32 m base 4
        rotation ← get_data_u32 m base 5
        some (record {
          size_x = size_x;
          size_y = size_y;
          pos_x = pos_x;
          pos_y = pos_y;
          rotation = rotation;
        }))
        ≡ some v)
      × ((x : Usk) → (f x).dve ≡ put x.dve sequence v)

  pub kedv-ReadsBack :
      AreRecent single_kedv sequence s
      → Ensures (λ r. ReadsBack single_kedv m base s r.1) (on_kedv sequence m base s)
  unfolding on_kedv with_usk get_usk_dve_state read_keyer
  kedv-ReadsBack h =
      Ensures-bind _ (λ r. ReadsBack single_kedv m base s r.1) _ _ (itself (get_data m base 0))
        λ me e.
          Ensures-bind _ (λ r. ReadsBack single_kedv m base s r.1) _ _ (itself (get_data m base 1))
            λ keyer e'. elim (Bool-cases (leb (length s.mix_effect) me)) [
              | inl t ↦ rw t (
                  Ensures-some (λ r. ReadsBack single_kedv m base s r.1) _
                    (me, keyer, e, e', rw t refl))
              | inr u ↦ rw u (
                  Ensures-bind _ (λ r. ReadsBack single_kedv m base s r.1) _ _
                    (itself (get_elem? s.mix_effect me))
                    λ x ex. elim (Bool-cases (leb (length x.keyer) keyer)) [
                      | inl t ↦ rw t (
                          Ensures-some (λ r. ReadsBack single_kedv m base s r.1) _
                            (
                              me,
                              keyer,
                              e,
                              e',
                              rw (u, ex, t)
                                  (read_at_beyond sequence fits (λ k. k.dve) x.keyer keyer t),
                            ))
                      | inr l ↦ rw l (
                          Ensures-bind KedvWrites (λ r. ReadsBack single_kedv m base s r.1) _ _
                            (Ensures-bind _ KedvWrites _ _ (itself (get_data_u32 m base 1))
                              λ size_x d0.
                                Ensures-bind _ KedvWrites _ _ (itself (get_data_u32 m base 2))
                                  λ size_y d1.
                                    Ensures-bind _ KedvWrites _ _ (itself (get_data_u32 m base 3))
                                      λ pos_x d2.
                                        Ensures-bind _ KedvWrites _ _
                                          (itself (get_data_u32 m base 4))
                                          λ pos_y d3.
                                            Ensures-bind _ KedvWrites _ _
                                              (itself (get_data_u32 m base 5))
                                              λ rotation d4. Ensures-some KedvWrites _ (
                                                record {
                                                  size_x = size_x;
                                                  size_y = size_y;
                                                  pos_x = pos_x;
                                                  pos_y = pos_y;
                                                  rotation = rotation;
                                                },
                                                rw (d0, d1, d2, d3, d4) refl,
                                                λ x. refl,
                                              ))
                            λ f (v, ev, k).
                              Ensures-some (λ r. ReadsBack single_kedv m base s r.1) _
                                (
                                  me,
                                  keyer,
                                  e,
                                  e',
                                  rw (u, ex, l, ev)
                                      (read_keyer_current sequence fits (λ k. k.dve) s me keyer f v
                                        x h k u ex l),
                                ))
                    ])
            ]
