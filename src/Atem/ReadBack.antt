-- ===== src/Atem/ReadBack.antt =====
-- What a getter returns after the handler that writes its value.
pub mod Getters
use atem_esp_idf.Prelude.{
  ℕ, zero, suc, ◌≤◌, ◌<◌, ◌≡◌, ◌≢◌, refl, ap, ◌∙◌, true, false, not, Option, none, some, List,
  arith, leb, if◌then◌else◌, length, get_elem?, bias, ◌>>=◌, [], ◌∷◌,
}
use atem_esp_idf.Buffer.{Bytes}
use atem_esp_idf.Sequence.{SequenceCheck}
use atem_esp_idf.State.{AtemState, is_valid, get, set, put}
use atem_esp_idf.Types.{MixEffect}
use atem_esp_idf.Command.{get_data, get_data_s}
use atem_esp_idf.Atem.Object.{Switcher}
use atem_esp_idf.Atem.Vector.{
  update, read_at, length-update, get_elem?-update_self, get_elem?-update_ne,
}
use atem_esp_idf.Atem.Events.{bit_of, event_source}
use atem_esp_idf.Atem.Getters.{get_preview_input, get_program_input}
use atem_esp_idf.Atem.Handlers.MixEffects.{write_me, on_prgi, on_prvi}

-- The packet is not older than the last change of the value.
abbrev pub IsCurrent : {T : Type 0} → SequenceCheck → AtemState T → Type 0
IsCurrent sequence x = bias x.last_change_id ≤ bias sequence.last_id

pub put_current :
    {T : Type 0} (sequence : SequenceCheck) (x : AtemState T) (v : T)
    → IsCurrent sequence x
    → put x sequence v ≡ record { last_change_id = sequence.last_id; state = v }
unfolding put set
put_current sequence x v h = ground arith

pub put_stale :
    {T : Type 0} (sequence : SequenceCheck) (x : AtemState T) (v : T)
    → bias sequence.last_id < bias x.last_change_id
    → put x sequence v ≡ x
unfolding put set
put_stale sequence x v h = ground arith

pub in_range : (n i : ℕ) → i < n → leb n i ≡ false
in_range n i h = ground arith

module _ {A T : Type 0} (field : A → AtemState T) where
  pub read_at-update_self :
      (xs : List A) (i : ℕ) (f : A → A) (x : A)
      → get_elem? xs i ≡ some x
      → i < length xs
      → read_at field (update xs i f) i
        ≡ (if not (is_valid (field (f x))) then none else some (get (field (f x))))
  unfolding read_at
  read_at-update_self xs i f x e h =
      rw (length-update xs i f, in_range (length xs) i h, get_elem?-update_self xs i f x e) refl

  pub read_at-update_ne :
      (xs : List A) (i j : ℕ) (f : A → A)
      → i ≢ j
      → read_at field (update xs i f) j ≡ read_at field xs j
  unfolding read_at
  read_at-update_ne xs i j f h = rw (length-update xs i f, get_elem?-update_ne xs i j f h) refl

  elem_other :
      (xs : List A) (i j : ℕ) (f : A → A) (k : AtemState T → Option T)
      → ((x : A) → field (f x) ≡ field x)
      → (get_elem? (update xs i f) j >>= λ x. k (field x)) ≡ (get_elem? xs j >>= λ x. k (field x))
  unfolding update
  elem_other [] i j f k h = refl
  elem_other (x ∷ xs) zero zero f k h = ap k (h x)
  elem_other (x ∷ xs) zero (suc j) f k h = refl
  elem_other (x ∷ xs) (suc i) zero f k h = refl
  elem_other (x ∷ xs) (suc i) (suc j) f k h = elem_other xs i j f k h

  -- A write of another field is not seen.
  pub read_at-update_other :
      (xs : List A) (i j : ℕ) (f : A → A)
      → ((x : A) → field (f x) ≡ field x)
      → read_at field (update xs i f) j ≡ read_at field xs j
  unfolding read_at
  read_at-update_other xs i j f h = rw (length-update xs i f) (
      ap (λ (r : Option T). if leb (length xs) j then none else r)
        (elem_other xs i j f (λ y. if not (is_valid y) then none else some (get y)) h))

pub current_valid :
    {T : Type 0} (sequence : SequenceCheck) (x : AtemState T) (v : T)
    → IsCurrent sequence x
    → sequence.last_id < 32768
    → is_valid (put x sequence v) ≡ true
unfolding put set is_valid
current_valid sequence x v h fits = ground arith

pub current_get :
    {T : Type 0} (sequence : SequenceCheck) (x : AtemState T) (v : T)
    → IsCurrent sequence x
    → get (put x sequence v) ≡ v
current_get sequence x v h = ap get (put_current sequence x v h)

-- PrvI of a packet that is not older than the last change, on a mix effect that exists: the
-- preview source of that mix effect reads back, and neither the other mix effects' nor any program
-- source changes.
pub get_preview_input-on_prvi :
    (sequence : SequenceCheck) (m : Bytes) (base : ℕ) (s : Switcher) (me source : ℕ) (x : MixEffect)
    → get_data m base 0 ≡ some me
    → get_data_s m base 1 ≡ some source
    → get_elem? s.mix_effect me ≡ some x
    → me < length s.mix_effect
    → IsCurrent sequence x.preview
    → sequence.last_id < 32768
    → (s' : Switcher) × (on_prvi sequence m base s ≡ some (bit_of event_source, s'))
      × (get_preview_input s' me ≡ some source)
      × ((other : ℕ) → me ≢ other → get_preview_input s' other ≡ get_preview_input s other)
      × ((any : ℕ) → get_program_input s' any ≡ get_program_input s any)
unfolding on_prvi write_me get_preview_input get_program_input
get_preview_input-on_prvi sequence m base s me source x e0 e1 ex h current fits =
    let f : MixEffect → MixEffect = λ x. record x { preview = put x.preview sequence source } in
    (
      record s { mix_effect = update s.mix_effect me f },
      rw (e0, in_range (length s.mix_effect) me h, e1) refl,
      read_at-update_self (λ y. y.preview) s.mix_effect me f x ex h
          ∙ rw (current_valid sequence x.preview source current fits)
              (ap some (current_get sequence x.preview source current)),
      λ other ne. read_at-update_ne (λ y. y.preview) s.mix_effect me other f ne,
      λ any. read_at-update_other (λ y. y.program) s.mix_effect me any f (λ y. refl),
    )

-- PrgI of a packet that is not older than the last change, on a mix effect that exists: the
-- program source of that mix effect reads back, and neither the other mix effects' nor any preview
-- source changes.
pub get_program_input-on_prgi :
    (sequence : SequenceCheck) (m : Bytes) (base : ℕ) (s : Switcher) (me source : ℕ) (x : MixEffect)
    → get_data m base 0 ≡ some me
    → get_data_s m base 1 ≡ some source
    → get_elem? s.mix_effect me ≡ some x
    → me < length s.mix_effect
    → IsCurrent sequence x.program
    → sequence.last_id < 32768
    → (s' : Switcher) × (on_prgi sequence m base s ≡ some (bit_of event_source, s'))
      × (get_program_input s' me ≡ some source)
      × ((other : ℕ) → me ≢ other → get_program_input s' other ≡ get_program_input s other)
      × ((any : ℕ) → get_preview_input s' any ≡ get_preview_input s any)
unfolding on_prgi write_me get_program_input get_preview_input
get_program_input-on_prgi sequence m base s me source x e0 e1 ex h current fits =
    let f : MixEffect → MixEffect = λ x. record x { program = put x.program sequence source } in
    (
      record s { mix_effect = update s.mix_effect me f },
      rw (e0, in_range (length s.mix_effect) me h, e1) refl,
      read_at-update_self (λ y. y.program) s.mix_effect me f x ex h
          ∙ rw (current_valid sequence x.program source current fits)
              (ap some (current_get sequence x.program source current)),
      λ other ne. read_at-update_ne (λ y. y.program) s.mix_effect me other f ne,
      λ any. read_at-update_other (λ y. y.preview) s.mix_effect me any f (λ y. refl),
    )
