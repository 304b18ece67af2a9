-- ===== src/Atem/Typed/Device.antt =====
-- _mpl, _MeC, _ver, _pin, _top, InPr and StRS keep the types.
use atem_esp_idf.Prelude.{
  ℕ, zero, suc, ◌+◌, ◌-◌, ◌≡◌, ◌≤◌, ◌∙◌, Bool, true, false, Option, none, some, [], ◌∷◌, ◌++◌, ◌<◌,
  get_elem?, refl, arith, length, leb, ltb, take, replicate, if◌then◌else◌, Option-cases, inl, inr,
  ◌==◌, not, length-append, length-replicate, length-take,
}
use atem_esp_idf.Prelude.Returns.{Ensures, Ensures-bind, Ensures-some, Ensures-if}
use atem_esp_idf.Buffer.{Bytes, load8, AreBytes}
use atem_esp_idf.Buffer.Text.{strlen, strnlen}
use atem_esp_idf.Sequence.{SequenceCheck}
use atem_esp_idf.State.{put, of_sequence}
use atem_esp_idf.Types.{InputProperty, mix_effect_new, dsk_new, usk_new}
use atem_esp_idf.Command.{get_data, get_length}
use atem_esp_idf.Atem.Object.{Switcher, find, assign}
use atem_esp_idf.Atem.Typed
use atem_esp_idf.Atem.Typed.{
  Fits8, Fits16, Fits32, All, Stamped, Keyed, IsTyped, IsInput, IsTopology, IsVersion,
  IsMediaPlayer, IsPlayerSource, IsUskState, IsDve, IsUsk, IsDskSource, IsDsk, IsPosition,
  IsTransition, IsMixEffect, IsProductId, of_inputs, of_topology, of_version, of_player, of_product,
  of_mix_effects, of_dsks, of_outputs, of_sources, of_files, of_stream,
}
use atem_esp_idf.Atem.Typed.Values.{
  data-Fits8, data-Fits16, copy_from-sized, append-AreBytes, zeros-AreBytes, take-AreBytes,
  put-Stamped, update-All, resize-All, assign-All, find-All,
}
use atem_esp_idf.Atem.Handlers.Device.{on_mpl, on_mec, on_ver, on_pin, on_inpr, on_strs}

-- What is shown of each case.
abbrev pub IsTypedResult : ℕ × Switcher → Type 0
IsTypedResult r = IsTyped r.1

pub if-IsTyped : (b : Bool) (x y : Switcher) → IsTyped x → IsTyped y → IsTyped (if b then x else y)
if-IsTyped true x y h k = h
if-IsTyped false x y h k = k

pub any : {A : Type 0} (r : Option A) → Ensures (λ a. Unit {0}) r
any r a e = tt

usk_new-IsUsk : IsUsk usk_new
usk_new-IsUsk = record {
  state = (
    omega arith,
    record {
      type = omega arith;
      fill = omega arith;
      key = omega arith;
      top = omega arith;
      bottom = omega arith;
      left = omega arith;
      right = omega arith;
    },
  );
  at_key_frame = omega arith;
  dve = (
    omega arith,
    record {
      size_x = omega arith;
      size_y = omega arith;
      pos_x = omega arith;
      pos_y = omega arith;
      rotation = omega arith;
    },
  );
}

pub dsk_new-IsDsk : IsDsk dsk_new
dsk_new-IsDsk = record {
  state = omega arith;
  source = (omega arith, (omega arith, omega arith));
  properties = omega arith;
}

pub mix_effect_new-IsMixEffect : IsMixEffect mix_effect_new
mix_effect_new-IsMixEffect = record {
  program = (omega arith, omega arith);
  preview = (omega arith, omega arith);
  usk_on_air = (omega arith, omega arith);
  position = (omega arith, omega arith);
  transition = (omega arith, (omega arith, omega arith));
  ftb = omega arith;
  keyer = tt;
}

zeros_elem : (n i : ℕ) → i < n → get_elem? {A = ℕ} (replicate n 0) i ≡ some 0
zeros_elem zero i lt = absurd (omega arith)
zeros_elem (suc n) zero lt = refl
zeros_elem (suc n) (suc i) lt = zeros_elem n i (omega arith)

elem_behind :
    (bs : Bytes) (n i : ℕ)
    → length bs ≤ i
    → i < n + length bs
    → get_elem? {A = ℕ} (bs ++ replicate n 0) i ≡ some 0
elem_behind [] n i le lt = zeros_elem n i (omega arith)
elem_behind (b ∷ bs) n zero le lt = absurd (omega arith)
elem_behind (b ∷ bs) n (suc i) le lt = elem_behind bs n i (omega arith) (omega arith)

-- The text, with zeros behind it, fills its array, the last byte is one of the zeros.
IsProductId-sized :
    (n : ℕ) (bs : Bytes)
    → (length bs ≡ 45) × AreBytes bs
    → n ≤ 44
    → IsProductId (take n bs ++ replicate (45 - n) 0)
IsProductId-sized n bs (size, h) le = (
  length-append (take n bs) (replicate (45 - n) 0)
      ∙ omega (arith, length-take n bs, length-replicate {A = ℕ} (45 - n) 0),
  append-AreBytes (take n bs) (replicate (45 - n) 0) (take-AreBytes n bs h)
      (zeros-AreBytes (45 - n)),
  elem_behind (take n bs) (45 - n) 44 (omega (arith, length-take n bs))
      (omega (arith, length-take n bs)),
)

at_most : (n : ℕ) → (if ltb 44 n then 44 else n) ≤ 44
at_most n = ground arith

strnlen-most : (m : Bytes) (i n : ℕ) → Ensures (λ k. k ≤ n) (strnlen m i n)
unfolding strnlen
strnlen-most m i zero = Ensures-some _ 0 (omega arith)
strnlen-most m i (suc n) =
    Ensures-bind (λ b. Unit {0}) _ _ _ (any (load8 m i))
      λ b _. Ensures-if _ (b == 0) _ _ (Ensures-some _ 0 (omega arith)) (
        Ensures-bind (λ k. k ≤ n) _ _ _ (strnlen-most m (suc i) n)
          λ k le. Ensures-some _ (suc k) (omega arith))

name-IsInput :
    (n : ℕ) (xs ys : Bytes)
    → n ≤ 20
    → (length xs ≡ n) × AreBytes xs
    → (length ys ≡ 4) × AreBytes ys
    → IsInput (record { name_long = xs ++ replicate (20 - n) 0; name_short = ys })
name-IsInput n xs ys le (size, h) (short, k) = record {
  long_size =
      length-append xs (replicate (20 - n) 0) ∙ omega (arith, length-replicate {A = ℕ} (20 - n) 0);
  long_bytes = append-AreBytes xs (replicate (20 - n) 0) h (zeros-AreBytes (20 - n));
  short_size = short;
  short_bytes = k;
}

module _ (sequence : SequenceCheck) (fits : Fits16 sequence.last_id) (m : Bytes)
    (bytes : AreBytes m) (base : ℕ) (s : Switcher) (h : IsTyped s) where
  data8 : (i : ℕ) → Ensures Fits8 (get_data m base i)
  data8 i = data-Fits8 m base i bytes

  pub mpl-IsTyped : Ensures IsTypedResult (on_mpl sequence m base s)
  unfolding on_mpl
  mpl-IsTyped = Ensures-bind Fits8 IsTypedResult _ _ (data8 0) λ still a.
      Ensures-bind Fits8 IsTypedResult _ _ (data8 1) λ clip b. Ensures-some IsTypedResult _ (
        Typed.with_player s h _
          (put-Stamped IsMediaPlayer s.media_player sequence _ fits (h of_player) (a, b)))

  pub mec-IsTyped : Ensures IsTypedResult (on_mec sequence m base s)
  unfolding on_mec
  mec-IsTyped = Ensures-bind Fits8 IsTypedResult _ _ (data8 0) λ me a.
      Ensures-bind Fits8 IsTypedResult _ _ (data8 1) λ num_keyer b. Ensures-some IsTypedResult _ (
        if-IsTyped (leb (length s.mix_effect) me) _ _ h (
          Typed.with_mix_effects s h _ (
            update-All IsMixEffect s.mix_effect me _
              (λ x k. record {
                program = k.program;
                preview = k.preview;
                usk_on_air = k.usk_on_air;
                position = k.position;
                transition = k.transition;
                ftb = k.ftb;
                keyer = resize-All IsUsk x.keyer num_keyer usk_new usk_new-IsUsk k.keyer;
              })
              (h of_mix_effects))))

  pub ver-IsTyped : Ensures IsTypedResult (on_ver sequence m base s)
  unfolding on_ver
  ver-IsTyped = Ensures-bind Fits16 IsTypedResult _ _ (data-Fits16 m base 0 bytes) λ major a.
      Ensures-bind Fits16 IsTypedResult _ _ (data-Fits16 m base 1 bytes) λ minor b.
        Ensures-some IsTypedResult _ (
          Typed.with_version s h _
            (put-Stamped IsVersion s.version sequence _ fits (h of_version) (a, b)))

  pub pin-IsTyped : Ensures IsTypedResult (on_pin sequence m base s)
  unfolding on_pin
  pin-IsTyped =
      Ensures-bind (λ bs. (length bs ≡ 45) × AreBytes bs) IsTypedResult _ _
        (copy_from-sized m (base + 8) 45 bytes)
        λ bs sized.
          Ensures-bind (λ n. Unit {0}) IsTypedResult _ _ (any (strlen m (base + 8)))
            λ n _. Ensures-some IsTypedResult _ (
              Typed.with_product s h _
                (IsProductId-sized (if ltb 44 n then 44 else n) bs sized (at_most n)))

  pub inpr-IsTyped : Ensures IsTypedResult (on_inpr sequence m base s)
  unfolding on_inpr of_sequence
  inpr-IsTyped = Ensures-bind Fits16 IsTypedResult _ _ (data-Fits16 m base 0 bytes) λ source a.
      Ensures-bind (λ n. n ≤ 20) IsTypedResult _ _ (strnlen-most m (base + 10) 20)
        λ n le.
          Ensures-bind (λ bs. (length bs ≡ n) × AreBytes bs) IsTypedResult _ _
            (copy_from-sized m (base + 10) n bytes)
            λ long k.
              Ensures-bind (λ k. Unit {0}) IsTypedResult _ _ (any (strnlen m (base + 30) 4))
                λ _ _.
                  Ensures-bind (λ bs. (length bs ≡ 4) × AreBytes bs) IsTypedResult _ _
                    (copy_from-sized m (base + 30) 4 bytes)
                    λ short l. Ensures-some IsTypedResult _ (
                      Typed.with_inputs s h _
                        (entry-IsTyped source _ a (name-IsInput n long short le k l)))
    where
      entry-IsTyped :
          (source : ℕ) (x : InputProperty)
          → Fits16 source
          → IsInput x
          → All (Keyed (Stamped IsInput)) (elim (find source s.input_properties) [
            | none ↦ assign source (of_sequence sequence x) s.input_properties
            | some y ↦ assign source (put y sequence x) s.input_properties
          ])
      entry-IsTyped source x a is = elim (Option-cases (find source s.input_properties)) [
        | inl e ↦
            rw e
              (assign-All (Stamped IsInput) s.input_properties source _ a (fits, is) (h of_inputs))
        | inr (y, e) ↦ rw e (
            assign-All (Stamped IsInput) s.input_properties source _ a
              (put-Stamped IsInput y sequence x fits
                (find-All (Stamped IsInput) s.input_properties source (h of_inputs) y e) is)
              (h of_inputs))
      ]

  pub strs-IsTyped : Ensures IsTypedResult (on_strs sequence m base s)
  unfolding on_strs
  strs-IsTyped =
      Ensures-bind (λ n. Unit {0}) IsTypedResult _ _ (any (get_length m base))
        λ n _. Ensures-if IsTypedResult (not (n == 12)) _ _ (Ensures-some IsTypedResult _ h) (
          Ensures-bind Fits8 IsTypedResult _ _ (data8 1) λ state a.
            Ensures-some IsTypedResult _ (
              Typed.with_stream s h _ (put-Stamped Fits8 s.stream sequence _ fits (h of_stream) a)))
