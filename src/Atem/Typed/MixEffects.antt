-- ===== src/Atem/Typed/MixEffects.antt =====
-- AuxS, FtbS, PrgI, PrvI, TrPs, TrSS and KeOn keep the types.
use atem_esp_idf.Prelude.{ℕ, arith, length, leb, ltb, get_elem?}
use atem_esp_idf.Prelude.Returns.{Ensures, Ensures-bind, Ensures-some, Ensures-if}
use atem_esp_idf.Buffer.{Bytes, AreBytes}
use atem_esp_idf.Sequence.{SequenceCheck}
use atem_esp_idf.Types.{MixEffect}
use atem_esp_idf.Command.{get_data, get_data_s}
use atem_esp_idf.Atem.Object.{Switcher}
use atem_esp_idf.Atem.Typed
use atem_esp_idf.Atem.Typed.{
  Fits8, Fits16, Fits32, All, Stamped, Keyed, IsTyped, IsInput, IsTopology, IsVersion,
  IsMediaPlayer, IsPlayerSource, IsUskState, IsDve, IsUsk, IsDskSource, IsDsk, IsPosition,
  IsTransition, IsMixEffect, IsProductId, of_inputs, of_topology, of_version, of_player, of_product,
  of_mix_effects, of_dsks, of_outputs, of_sources, of_files, of_stream,
}
use atem_esp_idf.Atem.Typed.Values.{data-Fits8, data-Fits16, put-Stamped, update-All}
use atem_esp_idf.Atem.Typed.Device.{IsTypedResult, if-IsTyped, any}
use atem_esp_idf.Atem.Handlers.MixEffects.{
  write_me, on_auxs, on_ftbs, on_prgi, on_prvi, on_trps, on_trss,
}
use atem_esp_idf.Atem.Handlers.Keyers.{on_keon}

write_me-IsTyped :
    (s : Switcher) (me : ℕ) (f : MixEffect → MixEffect)
    → ((x : MixEffect) → IsMixEffect x → IsMixEffect (f x))
    → IsTyped s
    → IsTyped (write_me s me f)
unfolding write_me
write_me-IsTyped s me f k h =
    if-IsTyped (leb (length s.mix_effect) me) _ _ h
      (Typed.with_mix_effects s h _ (update-All IsMixEffect s.mix_effect me f k (h of_mix_effects)))

module _ (sequence : SequenceCheck) (fits : Fits16 sequence.last_id) (m : Bytes)
    (bytes : AreBytes m) (base : ℕ) (s : Switcher) (h : IsTyped s) where
  data8 : (i : ℕ) → Ensures Fits8 (get_data m base i)
  data8 i = data-Fits8 m base i bytes

  data16 : (i : ℕ) → Ensures Fits16 (get_data_s m base i)
  data16 i = data-Fits16 m base i bytes

  pub auxs-IsTyped : Ensures IsTypedResult (on_auxs sequence m base s)
  unfolding on_auxs
  auxs-IsTyped = Ensures-bind Fits8 IsTypedResult _ _ (data8 0) λ channel _.
      Ensures-if IsTypedResult (leb (length s.aux_out) channel) _ _ (Ensures-some IsTypedResult _ h)
        (Ensures-bind Fits16 IsTypedResult _ _ (data16 1) λ source a. Ensures-some IsTypedResult _ (
          Typed.with_outputs s h _ (
            update-All (Stamped Fits16) s.aux_out channel _
              (λ x k. put-Stamped Fits16 x sequence _ fits k a) (h of_outputs))))

  pub ftbs-IsTyped : Ensures IsTypedResult (on_ftbs sequence m base s)
  unfolding on_ftbs
  ftbs-IsTyped = Ensures-bind Fits8 IsTypedResult _ _ (data8 0) λ me _.
      Ensures-bind Fits8 IsTypedResult _ _ (data8 1) λ black _.
        Ensures-bind Fits8 IsTypedResult _ _ (data8 2) λ moves _. Ensures-some IsTypedResult _ (
          write_me-IsTyped s me _
            (λ x k. record {
              program = k.program;
              preview = k.preview;
              usk_on_air = k.usk_on_air;
              position = k.position;
              transition = k.transition;
              ftb = (put-Stamped (λ v. Unit {0}) x.ftb sequence _ fits (k.ftb, tt) tt).0;
              keyer = k.keyer;
            })
            h)

  pub prgi-IsTyped : Ensures IsTypedResult (on_prgi sequence m base s)
  unfolding on_prgi
  prgi-IsTyped = Ensures-bind Fits8 IsTypedResult _ _ (data8 0) λ me _.
      Ensures-if IsTypedResult (leb (length s.mix_effect) me) _ _ (Ensures-some IsTypedResult _ h) (
        Ensures-bind Fits16 IsTypedResult _ _ (data16 1) λ source a. Ensures-some IsTypedResult _ (
          write_me-IsTyped s me _
            (λ x k. record {
              program = put-Stamped Fits16 x.program sequence _ fits k.program a;
              preview = k.preview;
              usk_on_air = k.usk_on_air;
              position = k.position;
              transition = k.transition;
              ftb = k.ftb;
              keyer = k.keyer;
            })
            h))

  pub prvi-IsTyped : Ensures IsTypedResult (on_prvi sequence m base s)
  unfolding on_prvi
  prvi-IsTyped = Ensures-bind Fits8 IsTypedResult _ _ (data8 0) λ me _.
      Ensures-if IsTypedResult (leb (length s.mix_effect) me) _ _ (Ensures-some IsTypedResult _ h) (
        Ensures-bind Fits16 IsTypedResult _ _ (data16 1) λ source a. Ensures-some IsTypedResult _ (
          write_me-IsTyped s me _
            (λ x k. record {
              program = k.program;
              preview = put-Stamped Fits16 x.preview sequence _ fits k.preview a;
              usk_on_air = k.usk_on_air;
              position = k.position;
              transition = k.transition;
              ftb = k.ftb;
              keyer = k.keyer;
            })
            h))

  pub trps-IsTyped : Ensures IsTypedResult (on_trps sequence m base s)
  unfolding on_trps
  trps-IsTyped = Ensures-bind Fits8 IsTypedResult _ _ (data8 0) λ me _.
      Ensures-if IsTypedResult (leb (length s.mix_effect) me) _ _ (Ensures-some IsTypedResult _ h) (
        Ensures-bind Fits8 IsTypedResult _ _ (data8 1) λ flags _.
          Ensures-bind Fits16 IsTypedResult _ _ (data16 2) λ position a.
            Ensures-some IsTypedResult _ (
              write_me-IsTyped s me _
                (λ x k. record {
                  program = k.program;
                  preview = k.preview;
                  usk_on_air = k.usk_on_air;
                  position =
                      put-Stamped IsPosition x.transition.position sequence _ fits k.position a;
                  transition = k.transition;
                  ftb = k.ftb;
                  keyer = k.keyer;
                })
                h))

  pub trss-IsTyped : Ensures IsTypedResult (on_trss sequence m base s)
  unfolding on_trss
  trss-IsTyped = Ensures-bind Fits8 IsTypedResult _ _ (data8 0) λ me _.
      Ensures-if IsTypedResult (leb (length s.mix_effect) me) _ _ (Ensures-some IsTypedResult _ h) (
        Ensures-bind Fits8 IsTypedResult _ _ (data8 1) λ style a.
          Ensures-bind Fits8 IsTypedResult _ _ (data8 2) λ next b. Ensures-some IsTypedResult _ (
            write_me-IsTyped s me _
              (λ x k. record {
                program = k.program;
                preview = k.preview;
                usk_on_air = k.usk_on_air;
                position = k.position;
                transition =
                    put-Stamped IsTransition x.transition.state sequence _ fits k.transition (a, b);
                ftb = k.ftb;
                keyer = k.keyer;
              })
              h))

  pub keon-IsTyped : Ensures IsTypedResult (on_keon sequence m base s)
  unfolding on_keon
  keon-IsTyped = Ensures-bind Fits8 IsTypedResult _ _ (data8 0) λ me _.
      Ensures-bind Fits8 IsTypedResult _ _ (data8 1) λ keyer _.
        Ensures-if IsTypedResult (leb (length s.mix_effect) me) _ _ (Ensures-some IsTypedResult _ h)
          (Ensures-if IsTypedResult (ltb 15 keyer) _ _ (Ensures-some IsTypedResult _ h) (
            Ensures-bind (λ x. Unit {0}) IsTypedResult _ _ (any (get_elem? s.mix_effect me))
              λ y _. Ensures-bind Fits8 IsTypedResult _ _ (data8 2) λ enabled _.
                Ensures-some IsTypedResult _ (
                  Typed.with_mix_effects s h _ (
                    update-All IsMixEffect s.mix_effect me _
                      (λ x k. record {
                        program = k.program;
                        preview = k.preview;
                        usk_on_air =
                            put-Stamped Fits16 x.usk_on_air sequence _ fits k.usk_on_air
                              (omega arith);
                        position = k.position;
                        transition = k.transition;
                        ftb = k.ftb;
                        keyer = k.keyer;
                      })
                      (h of_mix_effects)))))
