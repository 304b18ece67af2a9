-- ===== src/Command/Stores.antt =====
-- The header of a command's block, and stores behind it.
use atem_esp_idf.Prelude.{
  ℕ, suc, ◌+◌, ◌*◌, ◌/◌, ◌%◌, ◌≤◌, ◌<◌, ◌≡◌, refl, ap, ◌∙◌, Option, some, [], ◌∷◌, ◌<<<◌, ◌>>>◌,
  ◌>>=◌, bit_or, arith, length, set, length-set, get_elem?-set_ne, u8,
}
use atem_esp_idf.Buffer.{Bytes, load8, store8, store16, store32}
use atem_esp_idf.Types.{UskDveProperty, size_x, size_y, pos_x, pos_y, rotation, property_value}
use atem_esp_idf.Buffer.Store.{store8-set}
use atem_esp_idf.Command
use atem_esp_idf.Command.Classes.{Properties, put_properties}

-- A block of `n` bytes whose header names that length and the command.
pub record HasHeader (n : ℕ) (name : ℕ × ℕ × ℕ × ℕ) (m : Bytes) : Type 0 where
  pub size : length m ≡ n
  pub length_high : load8 m 0 ≡ some (n / 256)
  pub length_low : load8 m 1 ≡ some (n % 256)
  pub name0 : load8 m 4 ≡ some name.0
  pub name1 : load8 m 5 ≡ some name.1
  pub name2 : load8 m 6 ≡ some name.2
  pub name3 : load8 m 7 ≡ some name.3

abbrev pub Yields : ℕ → ℕ × ℕ × ℕ × ℕ → Option Bytes → Type 0
Yields n name r = (m : Bytes) × (r ≡ some m) × HasHeader n name m

-- A store behind the header keeps it.
pub store8-Yields :
    (n : ℕ) (name : ℕ × ℕ × ℕ × ℕ) (m : Bytes) (i v : ℕ)
    → 8 ≤ i
    → i < n
    → HasHeader n name m
    → Yields n name (store8 m i v)
store8-Yields n name m i v low high h = (
  set m i (u8 v),
  store8-set m i v (omega (arith, h.size)),
  record {
    size = length-set m i (u8 v) ∙ h.size;
    length_high = same 0 (omega arith) ∙ h.length_high;
    length_low = same 1 (omega arith) ∙ h.length_low;
    name0 = same 4 (omega arith) ∙ h.name0;
    name1 = same 5 (omega arith) ∙ h.name1;
    name2 = same 6 (omega arith) ∙ h.name2;
    name3 = same 7 (omega arith) ∙ h.name3;
  },
)
  where
    same : (j : ℕ) → j < 8 → load8 (set m i (u8 v)) j ≡ load8 m j
    same j k = get_elem?-set_ne m i j (u8 v) (λ e. absurd (omega arith))

pub Yields-bind :
    (n : ℕ) (name : ℕ × ℕ × ℕ × ℕ) (r : Option Bytes) (f : Bytes → Option Bytes)
    → Yields n name r
    → ((m : Bytes) → HasHeader n name m → Yields n name (f m))
    → Yields n name (r >>= f)
Yields-bind n name r f (m, e, h) k = rw e (k m h)

pub store16-Yields :
    (n : ℕ) (name : ℕ × ℕ × ℕ × ℕ) (m : Bytes) (i v : ℕ)
    → 8 ≤ i
    → suc i < n
    → HasHeader n name m
    → Yields n name (store16 m i v)
store16-Yields n name m i v low high h =
    Yields-bind n name _ _ (store8-Yields n name m i (v >>> 8) low (omega arith) h)
      (λ m' h'. store8-Yields n name m' (suc i) v (omega arith) high h')

pub store32-Yields :
    (n : ℕ) (name : ℕ × ℕ × ℕ × ℕ) (m : Bytes) (i v : ℕ)
    → 8 ≤ i
    → suc (suc (suc i)) < n
    → HasHeader n name m
    → Yields n name (store32 m i v)
store32-Yields n name m i v low high h =
    Yields-bind n name _ _ (store16-Yields n name m i (v >>> 16) low (omega arith) h)
      (λ m' h'. store16-Yields n name m' (suc (suc i)) v (omega arith) high h')

pub create_block :
    (malloc : ℕ → Bytes) (a b c d n : ℕ) (m : Bytes)
    → malloc n ≡ m
    → length m ≡ n
    → 8 ≤ n
    → n < 65536
    → a < 256
    → b < 256
    → c < 256
    → d < 256
    → Yields n (a, b, c, d) (Command.create malloc (a ∷ b ∷ c ∷ d ∷ []) n)
unfolding Command.create
create_block malloc a b c d n (b0 ∷ b1 ∷ b2 ∷ b3 ∷ b4 ∷ b5 ∷ b6 ∷ b7 ∷ rest) e s big small ha hb hc
      hd =
    rw e (
      u8 (n >>> 8) ∷ u8 n ∷ b2 ∷ b3 ∷ u8 a ∷ u8 b ∷ u8 c ∷ u8 d ∷ rest,
      refl,
      record {
        size = s;
        length_high = ap some (omega arith);
        length_low = ap some (omega arith);
        name0 = ap some (omega arith);
        name1 = ap some (omega arith);
        name2 = ap some (omega arith);
        name3 = ap some (omega arith);
      },
    )
create_block malloc a b c d n m e s big small ha hb hc hd = absurd (omega arith)

property-lt : (p : UskDveProperty) → property_value p < 5
property-lt size_x = omega arith
property-lt size_y = omega arith
property-lt pos_x = omega arith
property-lt pos_y = omega arith
property-lt rotation = omega arith

-- The property loop writes within the first 36 bytes.
pub put_properties-Yields :
    (n : ℕ) (name : ℕ × ℕ × ℕ × ℕ) (p : Properties) (mask : ℕ) (m : Bytes)
    → 36 ≤ n
    → HasHeader n name m
    → (mask' : ℕ) × (m' : Bytes) × (put_properties p mask m ≡ some (mask', m'))
      × HasHeader n name m'
unfolding put_properties
put_properties-Yields n name [] mask m big h = (mask, m, refl, h)
put_properties-Yields n name ((property, value) ∷ rest) mask m big h =
    let q = property-lt property in
    let w =
      store32-Yields n name m (4 * (4 + property_value property)) value (omega arith) (omega arith)
        h in
    let r =
      put_properties-Yields n name rest (bit_or mask (1 <<< property_value property)) w.0 big w.2 in
    (r.0, r.1, rw w.1 r.2, r.3)
