-- ===== src/Atem/Handlers/Complete.antt =====
-- What each case of the switch reads, and reads that succeed.
pub mod Cases
use atem_esp_idf.Prelude.{
  ℕ, zero, suc, ◌+◌, ◌*◌, ◌≡◌, ◌≢◌, ◌≤◌, ◌<◌, refl, false, Option, some, arith, length,
  get_elem?_in, leb, ltb, not, ◌==◌, Bool-cases, inl, inr,
}
use atem_esp_idf.Prelude.Returns.{IsDefined, IsDefined-bind, IsDefined-if}
use atem_esp_idf.Buffer.{Bytes, load16}
use atem_esp_idf.Buffer.Text.{strlen, strnlen}
use atem_esp_idf.Buffer.Inside.{copy_from_inside}
use atem_esp_idf.Sequence.{SequenceCheck}
use atem_esp_idf.Types.{Dsk, Usk}
use atem_esp_idf.Command.{get_data, get_data_s, get_data_u32, get_length}
use atem_esp_idf.Atem.Object.{Switcher}
use atem_esp_idf.Atem.Dispatch.{
  Kind, mpl, mec, ver, pin, top, auxs, dskb, dskp, dsks, ftbs, inpr, kebp, kedv, kefs, keon, mpce,
  mpfe, prgi, prvi, strs, trps, trss, other, handle,
}
use atem_esp_idf.Atem.Handlers.Device.{on_mpl, on_mec, on_ver, on_pin, on_top, on_inpr, on_strs}
use atem_esp_idf.Atem.Handlers.Media.{on_mpce, on_mpfe}
use atem_esp_idf.Atem.Handlers.MixEffects.{on_auxs, on_ftbs, on_prgi, on_prvi, on_trps, on_trss}
use atem_esp_idf.Atem.Handlers.Keyers.{
  with_dsk, with_usk, on_dskb, on_dskp, on_dsks, on_kebp, on_kedv, on_kefs, on_keon,
}

-- The bytes of data that a case reads from fixed places.
abbrev pub needs : Kind → ℕ
needs mpl = 2
needs mec = 2
needs ver = 4
needs top = 19
needs auxs = 4
needs dskb = 6
needs dskp = 2
needs dsks = 4
needs ftbs = 3
needs inpr = 26
needs kebp = 20
needs kedv = 24
needs kefs = 7
needs keon = 3
needs mpce = 4
needs prgi = 4
needs prvi = 4
needs strs = 2
needs trps = 6
needs trss = 3
needs pin = 45
needs mpfe = 5
needs other = 0

-- For "_pin" also a text that ends, and for "MPfe" a type that is not a still's, so that no name is
-- freed.
abbrev pub ReadsMore : Kind → Bytes → ℕ → Type 0
ReadsMore pin m base = IsDefined (strlen m (base + 8))
ReadsMore mpfe m base = (type : ℕ) × (get_data m base 0 ≡ some type) × (type ≢ 0)
ReadsMore _ m base = Unit {0}

-- What a case needs of the block.
abbrev pub Reads : Kind → Bytes → ℕ → Type 0
Reads kind m base = (base + 8 + needs kind ≤ length m) × ReadsMore kind m base

pub load16-IsDefined : (m : Bytes) (i : ℕ) → suc i < length m → IsDefined (load16 m i)
load16-IsDefined m i h =
    IsDefined-bind _ _ (get_elem?_in m i (omega arith))
      λ hi. IsDefined-bind _ _ (get_elem?_in m (suc i) h) λ lo. (hi * 256 + lo, refl)

pub strnlen-IsDefined : (m : Bytes) (i n : ℕ) → i + n ≤ length m → IsDefined (strnlen m i n)
unfolding strnlen
strnlen-IsDefined m i zero h = (0, refl)
strnlen-IsDefined m i (suc n) h = IsDefined-bind _ _ (get_elem?_in m i (omega arith)) λ b.
    IsDefined-if (b == 0) _ _ (0, refl)
      (λ e. IsDefined-bind _ _ (strnlen-IsDefined m (suc i) n (omega arith)) λ k. (suc k, refl))

pub strnlen-le :
    (m : Bytes) (i n : ℕ) → i + n ≤ length m → (k : ℕ) × (strnlen m i n ≡ some k) × (k ≤ n)
unfolding strnlen
strnlen-le m i zero h = (0, refl, omega arith)
strnlen-le m i (suc n) h =
    let (b, e) = get_elem?_in m i (omega arith) in
    let (k, f, le) = strnlen-le m (suc i) n (omega arith) in
    elim (Bool-cases (b == 0)) [
      | inl t ↦ (0, rw (e, t) refl, omega arith)
      | inr u ↦ (suc k, rw (e, u, f) refl, omega arith)
    ]

module _ (m : Bytes) (base : ℕ) where
  pub data8 : (i : ℕ) → base + 8 + i < length m → IsDefined (get_data m base i)
  unfolding get_data
  data8 i h = get_elem?_in m (base + 8 + i) h

  pub data16 : (i : ℕ) → base + 9 + 2 * i < length m → IsDefined (get_data_s m base i)
  unfolding get_data_s
  data16 i h = load16-IsDefined m (base + 8 + 2 * i) (omega arith)

  pub data32 : (i : ℕ) → base + 11 + 4 * i < length m → IsDefined (get_data_u32 m base i)
  unfolding get_data_u32
  data32 i h = IsDefined-bind _ _ (load16-IsDefined m (base + 8 + 4 * i) (omega arith)) λ hi.
      IsDefined-bind _ _ (load16-IsDefined m (suc (suc (base + 8 + 4 * i))) (omega arith))
        λ lo. (_, refl)

pub with_dsk-IsDefined :
    (s : Switcher) (keyer : ℕ) (change : Option (Dsk → Dsk))
    → IsDefined change
    → IsDefined (with_dsk s keyer change)
unfolding with_dsk
with_dsk-IsDefined s keyer change h =
    IsDefined-if (leb (length s.dsk) keyer) _ _ (_, refl) (λ e. IsDefined-bind _ _ h λ f. (_, refl))

pub leb-lt : (n i : ℕ) → leb n i ≡ false → i < n
leb-lt n i e = ground arith

pub with_usk-IsDefined :
    (event : ℕ) (s : Switcher) (me keyer : ℕ) (change : Option (Usk → Usk))
    → IsDefined change
    → IsDefined (with_usk event s me keyer change)
unfolding with_usk
with_usk-IsDefined event s me keyer change h =
    IsDefined-if (leb (length s.mix_effect) me) _ _ (_, refl)
      λ e.
        IsDefined-bind _ _ (get_elem?_in s.mix_effect me (leb-lt (length s.mix_effect) me e)) λ x.
          IsDefined-if (leb (length x.keyer) keyer) _ _ (_, refl)
            (λ e. IsDefined-bind _ _ h λ f. (_, refl))
