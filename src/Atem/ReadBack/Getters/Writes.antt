-- ===== src/Atem/ReadBack/Getters/Writes.antt =====
-- What is read after a write of a packet that is not older.
use atem_esp_idf.Prelude.{
  ℕ, ◌≡◌, ◌<◌, refl, ap, ◌∙◌, Option, none, some, List, length, leb, get_elem?, get_elem?_in, true,
  false,
}
use atem_esp_idf.Prelude.Returns.{Ensures}
use atem_esp_idf.Sequence.{SequenceCheck}
use atem_esp_idf.State.{AtemState, put}
use atem_esp_idf.Types.{MixEffect, Usk}
use atem_esp_idf.Atem.Object.{Switcher}
use atem_esp_idf.Atem.Vector.{update, read_at, length-update, get_elem?-update_self}
use atem_esp_idf.Atem.Getters.{read, read_keyer}
use atem_esp_idf.Atem.Handlers.Complete.{leb-lt}
use atem_esp_idf.Atem.ReadBack.{IsCurrent, current_valid, current_get, read_at-update_self}
use atem_esp_idf.Atem.Typed.{All}
use atem_esp_idf.Atem.Typed.Values.{get_elem?-All}

pub itself : {A : Type 0} (r : Option A) → Ensures (λ a. r ≡ some a) r
itself r a e = e

module _ (sequence : SequenceCheck) (fits : sequence.last_id < 32768) where
  pub read_current :
      {T : Type 0} (x : AtemState T) (v : T)
      → IsCurrent sequence x
      → read (put x sequence v) ≡ some v
  unfolding read
  read_current x v h = rw (current_valid sequence x v h fits) (ap some (current_get sequence x v h))

  module _ {A T : Type 0} (field : A → AtemState T) where
    pub read_at_current :
        (xs : List A) (i : ℕ) (f : A → A) (v : T)
        → All (λ x. IsCurrent sequence (field x)) xs
        → ((x : A) → field (f x) ≡ put (field x) sequence v)
        → leb (length xs) i ≡ false
        → read_at field (update xs i f) i ≡ some v
    read_at_current xs i f v h k lt =
        let (x, e) = get_elem?_in xs i (leb-lt (length xs) i lt) in
        let current = get_elem?-All (λ x. IsCurrent sequence (field x)) xs i h x e in
        read_at-update_self field xs i f x e (leb-lt (length xs) i lt)
        ∙ rw (k x, current_valid sequence (field x) v current fits)
            (ap some (current_get sequence (field x) v current))

    pub read_at_beyond :
        (xs : List A) (i : ℕ) → leb (length xs) i ≡ true → read_at field xs i ≡ none
    unfolding read_at
    read_at_beyond xs i e = rw e refl

  pub read_keyer_current :
      {T : Type 0} (field : Usk → AtemState T) (s : Switcher) (me keyer : ℕ) (f : Usk → Usk) (v : T)
      (x : MixEffect)
      → All (λ x. All (λ k. IsCurrent sequence (field k)) x.keyer) s.mix_effect
      → ((k : Usk) → field (f k) ≡ put (field k) sequence v)
      → leb (length s.mix_effect) me ≡ false
      → get_elem? s.mix_effect me ≡ some x
      → leb (length x.keyer) keyer ≡ false
      → read_keyer field
          (record s {
            mix_effect = update s.mix_effect me (λ y. record y { keyer = update y.keyer keyer f });
          })
          me
          keyer
        ≡ some v
  unfolding read_keyer
  read_keyer_current field s me keyer f v x h k lt e lt' =
      rw
        (
          length-update s.mix_effect me (λ y. record y { keyer = update y.keyer keyer f }),
          lt,
          get_elem?-update_self s.mix_effect me (λ y. record y { keyer = update y.keyer keyer f }) x
              e,
        )
        (read_at_current field x.keyer keyer f v
          (get_elem?-All (λ x. All (λ k. IsCurrent sequence (field k)) x.keyer) s.mix_effect me h x
            e)
          k lt')
