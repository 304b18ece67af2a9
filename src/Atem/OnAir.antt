-- ===== src/Atem/OnAir.antt =====
-- "KeOn" and `GetUskOnAir`: one bit of a word for each upstream keyer.
use native.Mathlib.Nat.{pow-le-pow_right}
use atem_esp_idf.Prelude.{
  ℕ, zero, suc, ◌-◌, ◌*◌, ◌/◌, ◌^◌, ◌≤◌, ◌<◌, ◌≡◌, ◌≢◌, refl, ap, sym, ◌∙◌, true, false, some,
  arith, bit_and, bit_or, ◌<<<◌, u16, ◌==◌, leb, ltb, length, get_elem?,
}
use atem_esp_idf.Prelude.Bits.{
  bit, bit-lt, bit-bit_or, bit-bit_and, bit-mod, bit-one_self, bit-one_ne, pow-suc_two, pow_pos,
  zero-bit,
}
use atem_esp_idf.Buffer.{Bytes}
use atem_esp_idf.Sequence.{SequenceCheck}
use atem_esp_idf.Sequence.Window.{nonzero-bit}
use atem_esp_idf.State.{is_valid, get, put}
use atem_esp_idf.Types.{MixEffect}
use atem_esp_idf.Command.{get_data}
use atem_esp_idf.Atem.Object.{Switcher}
use atem_esp_idf.Atem.Vector.{update, length-update, get_elem?-update_self}
use atem_esp_idf.Atem.Events.{bit_of, event_usk}
use atem_esp_idf.Atem.Getters.{get_usk_on_air}
use atem_esp_idf.Atem.Handlers.Keyers.{on_keon}
use atem_esp_idf.Atem.ReadBack.{IsCurrent, in_range, current_valid, current_get}

-- `~a` in `w` bits.
bit-complement : (w j a : ℕ) → a < 2 ^ w → j < w → bit (2 ^ w - 1 - a) j ≡ 1 - bit a j
bit-complement zero j a h k = absurd (omega arith)
bit-complement (suc w) zero a h k = omega (arith, pow-suc_two w, pow_pos w)
bit-complement (suc w) (suc j) a h k =
    let half : (2 ^ suc w - 1 - a) / 2 ≡ 2 ^ w - 1 - a / 2 =
      omega (arith, pow-suc_two w, pow_pos w) in
    rw half (bit-complement w j (a / 2) (omega (arith, pow-suc_two w)) (omega arith))

power_fits : (i : ℕ) → i < 16 → 1 <<< i < 2 ^ 16
power_fits i h =
    let up : 2 ^ i ≤ 2 ^ 15 =
      pow-le-pow_right {n = 2} (omega arith) {i = i} {j = 15} (omega arith) in
    omega arith

-- The word that "KeOn" stores.
abbrev on_air_word : ℕ → ℕ → ℕ → ℕ
on_air_word old keyer enabled =
    u16 (bit_or (bit_and old (0xFFFF - (0x1 <<< keyer))) (enabled <<< keyer))

bit-flag_self : (i e : ℕ) → e < 2 → bit (e * 2 ^ i) i ≡ e
bit-flag_self i zero h = let z : 0 * 2 ^ i ≡ 0 = omega arith in rw z (zero-bit i)
bit-flag_self i (suc zero) h = bit-one_self i
bit-flag_self i (suc (suc e)) h = absurd (omega arith)

bit-flag_ne : (i k e : ℕ) → i ≢ k → e < 2 → bit (e * 2 ^ i) k ≡ 0
bit-flag_ne i k zero ne h = let z : 0 * 2 ^ i ≡ 0 = omega arith in rw z (zero-bit k)
bit-flag_ne i k (suc zero) ne h = bit-one_ne i k ne
bit-flag_ne i k (suc (suc e)) ne h = absurd (omega arith)

bit-on_air_word_self : (old i e : ℕ) → i < 16 → e < 2 → bit (on_air_word old i e) i ≡ e
bit-on_air_word_self old i e h small =
    let high : bit (e * 2 ^ i) i ≡ e = bit-flag_self i e small in
    bit-mod 16 i (bit_or (bit_and old (0xFFFF - (0x1 <<< i))) (e <<< i)) h
    ∙ omega (
      arith,
      bit-bit_or i (bit_and old (0xFFFF - (0x1 <<< i))) (e <<< i),
      bit-bit_and i old (0xFFFF - (0x1 <<< i)),
      bit-complement 16 i (1 <<< i) (power_fits i h) h,
      bit-one_self i,
      high,
    )

bit-on_air_word_ne :
    (old i k e : ℕ) → i < 16 → k < 16 → i ≢ k → e < 2 → bit (on_air_word old i e) k ≡ bit old k
bit-on_air_word_ne old i k e h g ne small =
    let low : bit (e * 2 ^ i) k ≡ 0 = bit-flag_ne i k e ne small in
    bit-mod 16 k (bit_or (bit_and old (0xFFFF - (0x1 <<< i))) (e <<< i)) g
    ∙ omega (
      arith,
      bit-bit_or k (bit_and old (0xFFFF - (0x1 <<< i))) (e <<< i),
      bit-bit_and k old (0xFFFF - (0x1 <<< i)),
      bit-complement 16 k (1 <<< i) (power_fits i h) g,
      bit-one_ne i k ne,
      bit-lt k old,
      low,
    )

-- KeOn with the flag 0 or 1, of a packet that is not older than the last change, on a mix effect
-- that exists and a keyer up to 15: the keyer's flag reads back, and on this mix effect the flags of
-- the other keyers stay, if the word was valid.
pub get_usk_on_air-on_keon :
    (sequence : SequenceCheck) (m : Bytes) (base : ℕ) (s : Switcher) (me keyer enabled : ℕ)
    (x : MixEffect)
    → get_data m base 0 ≡ some me
    → get_data m base 1 ≡ some keyer
    → get_data m base 2 ≡ some enabled
    → enabled < 2
    → keyer < 16
    → get_elem? s.mix_effect me ≡ some x
    → me < length s.mix_effect
    → is_valid x.usk_on_air ≡ true
    → IsCurrent sequence x.usk_on_air
    → sequence.last_id < 32768
    → (s' : Switcher) × (on_keon sequence m base s ≡ some (bit_of event_usk, s'))
      × (get_usk_on_air s' me keyer ≡ some (enabled == 1))
      × ((other : ℕ)
          → keyer ≢ other
          → other < 16
          → get_usk_on_air s' me other ≡ get_usk_on_air s me other)
unfolding on_keon get_usk_on_air
get_usk_on_air-on_keon sequence m base s me keyer enabled x e0 e1 e2 small fits ex h valid current
      id_fits =
    let word : ℕ = on_air_word (get x.usk_on_air) keyer enabled in
    let f : MixEffect → MixEffect = λ y. record y { usk_on_air = put y.usk_on_air sequence word } in
    let up : get_elem? (update s.mix_effect me f) me ≡ some (f x) =
      get_elem?-update_self s.mix_effect me f x ex in
    let here : leb (length s.mix_effect) me ≡ false = in_range (length s.mix_effect) me h in
    let small_keyer : ltb 15 keyer ≡ false = ground arith in
    let now_valid = current_valid sequence x.usk_on_air word current id_fits in
    let now = current_get sequence x.usk_on_air word current in
    (
      record s { mix_effect = update s.mix_effect me f },
      rw (e0, e1, here, small_keyer, ex, e2, valid) refl,
      rw (length-update s.mix_effect me f, here, small_keyer, up, now_valid, now)
          (ap some (
            nonzero-bit keyer word
            ∙ ap (λ t. t == 1) (bit-on_air_word_self (get x.usk_on_air) keyer enabled fits small))),
      λ other ne other_fits.
          let small_other : ltb 15 other ≡ false = ground arith in
          rw (length-update s.mix_effect me f, here, small_other, up, ex, now_valid, now, valid)
            (ap some (
              nonzero-bit other word
              ∙ ap (λ t. t == 1)
                  (bit-on_air_word_ne (get x.usk_on_air) keyer other enabled fits other_fits ne
                    small)
              ∙ sym (nonzero-bit other (get x.usk_on_air)))),
    )
