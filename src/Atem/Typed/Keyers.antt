-- ===== src/Atem/Typed/Keyers.antt =====
-- DskB, DskP, DskS, KeBP, KeDV and KeFS keep the types.
use atem_esp_idf.Prelude.{ℕ, Option, length, leb, get_elem?}
use atem_esp_idf.Prelude.Returns.{Ensures, Ensures-bind, Ensures-some, Ensures-if}
use atem_esp_idf.Buffer.{Bytes, AreBytes}
use atem_esp_idf.Sequence.{SequenceCheck}
use atem_esp_idf.Types.{Usk, Dsk}
use atem_esp_idf.Command.{get_data, get_data_s}
use atem_esp_idf.Atem.Object.{Switcher}
use atem_esp_idf.Atem.Typed
use atem_esp_idf.Atem.Typed.{
  Fits8, Fits16, Fits32, All, Stamped, Keyed, IsTyped, IsInput, IsTopology, IsVersion,
  IsMediaPlayer, IsPlayerSource, IsUskState, IsDve, IsUsk, IsDskSource, IsDsk, IsPosition,
  IsTransition, IsMixEffect, IsProductId, of_inputs, of_topology, of_version, of_player, of_product,
  of_mix_effects, of_dsks, of_outputs, of_sources, of_files, of_stream,
}
use atem_esp_idf.Atem.Typed.Values.{data-Fits8, data-Fits16, data-Fits32, put-Stamped, update-All}
use atem_esp_idf.Atem.Typed.Device.{IsTypedResult, any}
use atem_esp_idf.Atem.Handlers.Keyers.{
  with_dsk, with_usk, on_dskb, on_dskp, on_dsks, on_kebp, on_kedv, on_kefs,
}

-- A change of a keyer that keeps its types.
abbrev KeepsDsk : (Dsk → Dsk) → Type 0
KeepsDsk f = (x : Dsk) → IsDsk x → IsDsk (f x)

abbrev KeepsUsk : (Usk → Usk) → Type 0
KeepsUsk f = (x : Usk) → IsUsk x → IsUsk (f x)

with_dsk-IsTyped :
    (s : Switcher) (keyer : ℕ) (change : Option (Dsk → Dsk))
    → IsTyped s
    → Ensures KeepsDsk change
    → Ensures IsTypedResult (with_dsk s keyer change)
unfolding with_dsk
with_dsk-IsTyped s keyer change h k =
    Ensures-if IsTypedResult (leb (length s.dsk) keyer) _ _ (Ensures-some IsTypedResult _ h) (
      Ensures-bind KeepsDsk IsTypedResult _ _ k λ f l.
        Ensures-some IsTypedResult _
          (Typed.with_dsks s h _ (update-All IsDsk s.dsk keyer f l (h of_dsks))))

with_usk-IsTyped :
    (event : ℕ) (s : Switcher) (me keyer : ℕ) (change : Option (Usk → Usk))
    → IsTyped s
    → Ensures KeepsUsk change
    → Ensures IsTypedResult (with_usk event s me keyer change)
unfolding with_usk
with_usk-IsTyped event s me keyer change h k =
    Ensures-if IsTypedResult (leb (length s.mix_effect) me) _ _ (Ensures-some IsTypedResult _ h) (
      Ensures-bind (λ x. Unit {0}) IsTypedResult _ _ (any (get_elem? s.mix_effect me))
        λ y _.
          Ensures-if IsTypedResult (leb (length y.keyer) keyer) _ _ (Ensures-some IsTypedResult _ h)
            (Ensures-bind KeepsUsk IsTypedResult _ _ k λ f l. Ensures-some IsTypedResult _ (
              Typed.with_mix_effects s h _ (
                update-All IsMixEffect s.mix_effect me _
                  (λ x k. record {
                    program = k.program;
                    preview = k.preview;
                    usk_on_air = k.usk_on_air;
                    position = k.position;
                    transition = k.transition;
                    ftb = k.ftb;
                    keyer = update-All IsUsk x.keyer keyer f l k.keyer;
                  })
                  (h of_mix_effects)))))

module _ (sequence : SequenceCheck) (fits : Fits16 sequence.last_id) (m : Bytes)
    (bytes : AreBytes m) (base : ℕ) (s : Switcher) (h : IsTyped s) where
  data8 : (i : ℕ) → Ensures Fits8 (get_data m base i)
  data8 i = data-Fits8 m base i bytes

  data16 : (i : ℕ) → Ensures Fits16 (get_data_s m base i)
  data16 i = data-Fits16 m base i bytes

  pub dskb-IsTyped : Ensures IsTypedResult (on_dskb sequence m base s)
  unfolding on_dskb
  dskb-IsTyped = Ensures-bind Fits8 IsTypedResult _ _ (data8 0) λ keyer _.
      with_dsk-IsTyped s keyer _ h (
        Ensures-bind Fits16 KeepsDsk _ _ (data16 1) λ fill a.
          Ensures-bind Fits16 KeepsDsk _ _ (data16 2) λ key b. Ensures-some KeepsDsk _ (λ x k.
            record {
              state = k.state;
              source = put-Stamped IsDskSource x.source sequence _ fits k.source (a, b);
              properties = k.properties;
            }))

  pub dskp-IsTyped : Ensures IsTypedResult (on_dskp sequence m base s)
  unfolding on_dskp
  dskp-IsTyped = Ensures-bind Fits8 IsTypedResult _ _ (data8 0) λ keyer _.
      with_dsk-IsTyped s keyer _ h (
        Ensures-bind Fits8 KeepsDsk _ _ (data8 1) λ tie _. Ensures-some KeepsDsk _ (λ x k. record {
          state = k.state;
          source = k.source;
          properties =
              (put-Stamped (λ v. Unit {0}) x.properties sequence _ fits (k.properties, tt) tt).0;
        }))

  pub dsks-IsTyped : Ensures IsTypedResult (on_dsks sequence m base s)
  unfolding on_dsks
  dsks-IsTyped = Ensures-bind Fits8 IsTypedResult _ _ (data8 0) λ keyer _.
      with_dsk-IsTyped s keyer _ h (
        Ensures-bind Fits8 KeepsDsk _ _ (data8 1) λ on_air _.
          Ensures-bind Fits8 KeepsDsk _ _ (data8 2) λ moves _.
            Ensures-bind Fits8 KeepsDsk _ _ (data8 3) λ auto _. Ensures-some KeepsDsk _ (λ x k.
              record {
                state = (put-Stamped (λ v. Unit {0}) x.state sequence _ fits (k.state, tt) tt).0;
                source = k.source;
                properties = k.properties;
              }))

  pub kebp-IsTyped : Ensures IsTypedResult (on_kebp sequence m base s)
  unfolding on_kebp
  kebp-IsTyped = Ensures-bind Fits8 IsTypedResult _ _ (data8 0) λ me _.
      Ensures-bind Fits8 IsTypedResult _ _ (data8 1) λ keyer _. with_usk-IsTyped _ s me keyer _ h (
        Ensures-bind Fits8 KeepsUsk _ _ (data8 2) λ type is_type.
          Ensures-bind Fits16 KeepsUsk _ _ (data16 3) λ fill is_fill.
            Ensures-bind Fits16 KeepsUsk _ _ (data16 4) λ key is_key.
              Ensures-bind Fits16 KeepsUsk _ _ (data16 6) λ top is_top.
                Ensures-bind Fits16 KeepsUsk _ _ (data16 7) λ bottom is_bottom.
                  Ensures-bind Fits16 KeepsUsk _ _ (data16 8) λ left is_left.
                    Ensures-bind Fits16 KeepsUsk _ _ (data16 9) λ right is_right.
                      Ensures-some KeepsUsk _ (λ x k. record {
                        state = put-Stamped IsUskState x.state sequence _ fits k.state (record {
                          type = is_type;
                          fill = is_fill;
                          key = is_key;
                          top = is_top;
                          bottom = is_bottom;
                          left = is_left;
                          right = is_right;
                        });
                        at_key_frame = k.at_key_frame;
                        dve = k.dve;
                      }))

  pub kedv-IsTyped : Ensures IsTypedResult (on_kedv sequence m base s)
  unfolding on_kedv
  kedv-IsTyped = Ensures-bind Fits8 IsTypedResult _ _ (data8 0) λ me _.
      Ensures-bind Fits8 IsTypedResult _ _ (data8 1) λ keyer _. with_usk-IsTyped _ s me keyer _ h (
        Ensures-bind Fits32 KeepsUsk _ _ (data-Fits32 m base 1 bytes) λ size_x is_size_x.
          Ensures-bind Fits32 KeepsUsk _ _ (data-Fits32 m base 2 bytes) λ size_y is_size_y.
            Ensures-bind Fits32 KeepsUsk _ _ (data-Fits32 m base 3 bytes) λ pos_x is_pos_x.
              Ensures-bind Fits32 KeepsUsk _ _ (data-Fits32 m base 4 bytes) λ pos_y is_pos_y.
                Ensures-bind Fits32 KeepsUsk _ _ (data-Fits32 m base 5 bytes)
                  λ rotation is_rotation. Ensures-some KeepsUsk _ (λ x k. record {
                    state = k.state;
                    at_key_frame = k.at_key_frame;
                    dve = put-Stamped IsDve x.dve sequence _ fits k.dve (record {
                      size_x = is_size_x;
                      size_y = is_size_y;
                      pos_x = is_pos_x;
                      pos_y = is_pos_y;
                      rotation = is_rotation;
                    });
                  }))

  pub kefs-IsTyped : Ensures IsTypedResult (on_kefs sequence m base s)
  unfolding on_kefs
  kefs-IsTyped = Ensures-bind Fits8 IsTypedResult _ _ (data8 0) λ me _.
      Ensures-bind Fits8 IsTypedResult _ _ (data8 1) λ keyer _. with_usk-IsTyped _ s me keyer _ h (
        Ensures-bind Fits8 KeepsUsk _ _ (data8 6) λ frame _. Ensures-some KeepsUsk _ (λ x k.
          record {
            state = k.state;
            at_key_frame =
                (put-Stamped (λ v. Unit {0}) x.at_key_frame sequence _ fits (k.at_key_frame, tt)
                  tt).0;
            dve = k.dve;
          }))
