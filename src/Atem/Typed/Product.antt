-- ===== src/Atem/Typed/Product.antt =====
-- src/atem.cpp, the case _pin, and `GetProductId`: the text in `product_id_`.
use atem_esp_idf.Prelude.{
  ℕ, zero, suc, ◌+◌, ◌-◌, ◌≡◌, ◌≤◌, refl, ap, ◌∙◌, Bool-cases, inl, inr, Option, some, [], ◌∷◌,
  ◌++◌, arith, get_elem?, take, drop, replicate, length, ltb, if◌then◌else◌, ◌==◌, >>=-eq-some,
  length-append, length-replicate, length-take,
}
use Prim.Native.Nat.{min}
use atem_esp_idf.Prelude.Returns.{Ensures, Ensures-bind, Ensures-some}
use atem_esp_idf.Atem.Typed.Values.{copy_from-sized}
use atem_esp_idf.Buffer.{Bytes, load8, copy_from, AreBytes}
use atem_esp_idf.Buffer.Text.{strlen, text_length}
use atem_esp_idf.Sequence.{SequenceCheck}
use atem_esp_idf.Atem.Object.{Switcher, Heap, cleared}
use atem_esp_idf.Atem.Getters.{get_product_id}
use atem_esp_idf.Atem.Dispatch.{pin, handle}
use atem_esp_idf.Atem.Handlers.Device.{on_pin}
use atem_esp_idf.Atem.Owned.Session.{Packets, parse_packets}
use atem_esp_idf.Atem.Typed.{of_product}
use atem_esp_idf.Atem.Typed.Packets.{ArePackets, session-IsTyped}

-- A NUL at `i` ends the text there or before.
text_length_nul :
    (x : Bytes) (i : ℕ) → get_elem? x i ≡ some 0 → (n : ℕ) × (text_length x ≡ some n) × (n ≤ i)
unfolding text_length
text_length_nul [] i e = cc
text_length_nul (b ∷ x) zero e = (0, (let z : b ≡ 0 = cc e in rw z refl), omega arith)
text_length_nul (b ∷ x) (suc i) e = elim (Bool-cases (b == 0)) [
  | inl t ↦ (0, rw t refl, omega arith)
  | inr f ↦ let (n, k, le) = text_length_nul x i e in (suc n, rw (f, k) refl, omega arith)
]

-- The first `k` bytes of a text, with a NUL behind them, are a text of that length.
text_length-take :
    (x zs : Bytes) (n k : ℕ)
    → text_length x ≡ some n
    → k ≤ n
    → text_length (take k x ++ 0 ∷ zs) ≡ some k
unfolding text_length
text_length-take x zs n zero e le = refl
text_length-take [] zs n (suc k) e le = cc
text_length-take (b ∷ x) zs n (suc k) e le = elim (Bool-cases (b == 0)) [
  | inl t ↦
      (let h : ◌≡◌ {A = Option ℕ} (some 0) (some n) = rw t at e in
        let z : 0 ≡ n = cc h in absurd (omega arith))
  | inr f ↦
      let (j, r, q) = >>=-eq-some (text_length x) (λ n. some (suc n)) (rw f at e) in
      rw (f, text_length-take x zs j k r (let z : suc j ≡ n = cc q in omega arith)) refl
]

-- What `copy_from` copies starts like the block from there.
take-copy_from :
    (m : Bytes) (i n k : ℕ) (bs : Bytes)
    → copy_from m i n ≡ some bs
    → k ≤ n
    → take k bs ≡ take k (drop i m)
take-copy_from m i n zero bs e le = refl
take-copy_from m i zero (suc k) bs e le = absurd (omega arith)
take-copy_from m i (suc n) (suc k) bs e le =
    let (b, e0, f) = >>=-eq-some (load8 m i) _ e in
    let (rest, e1, g) = >>=-eq-some (copy_from m (suc i) n) _ f in
    let z : b ∷ rest ≡ bs = cc g in
    rw (← z, drop_elem m i b e0)
      (ap (λ x. b ∷ x) (take-copy_from m (suc i) n k rest e1 (omega arith)))
  where
    drop_elem : (m : Bytes) (i b : ℕ) → get_elem? m i ≡ some b → drop i m ≡ b ∷ drop (suc i) m
    drop_elem [] i b e = cc
    drop_elem (c ∷ m) zero b e = cc
    drop_elem (c ∷ m) (suc i) b e = drop_elem m i b e

-- The text at `i` of the block, cut at 44 bytes, is the text of the array.
pub record ShowsText (m : Bytes) (i : ℕ) (x : Bytes) : Type 0 where
  pub text_size : ℕ
  pub text_read : strlen m i ≡ some text_size
  pub size : length x ≡ 45
  pub array_read : strlen x 0 ≡ some (min text_size 44)
  pub same : take (min text_size 44) x ≡ take (min text_size 44) (drop i m)

take_front : (k : ℕ) (xs ys : Bytes) → length xs ≡ k → take k (xs ++ ys) ≡ xs
take_front zero [] ys e = refl
take_front zero (x ∷ xs) ys e = absurd (omega arith)
take_front (suc k) [] ys e = absurd (omega arith)
take_front (suc k) (x ∷ xs) ys e = ap (λ z. x ∷ z) (take_front k xs ys (omega arith))

ShowsText-cut :
    (m bs : Bytes) (i n k : ℕ)
    → copy_from m i 45 ≡ some bs
    → length bs ≡ 45
    → strlen m i ≡ some n
    → k ≡ min n 44
    → ShowsText m i (take k bs ++ replicate (45 - k) 0)
unfolding strlen
ShowsText-cut m bs i n k copied sized text least =
    let cut = take-copy_from m i 45 k bs copied (omega arith) in
    let filled : length (take k bs) ≡ k = omega (arith, length-take k bs) in
    let more : 45 - k ≡ suc (44 - k) = omega arith in
    let zeros : ◌≡◌ {A = Bytes} (replicate (45 - k) 0) (0 ∷ replicate (44 - k) 0) =
      ap (λ z. replicate {A = ℕ} z 0) more in
    record {
      text_size = n;
      text_read = text;
      size =
          length-append (take k bs) (replicate (45 - k) 0)
          ∙ omega (arith, filled, length-replicate {A = ℕ} (45 - k) 0);
      array_read =
          rw (← least, zeros, cut)
            (text_length-take (drop i m) (replicate (44 - k) 0) n k text (omega arith));
      same = rw (← least) (take_front k (take k bs) (replicate (45 - k) 0) filled ∙ cut);
    }

on_pin-ShowsText :
    (sequence : SequenceCheck) (m : Bytes) (base : ℕ) (s : Switcher)
    → AreBytes m
    → Ensures (λ r. ShowsText m (base + 8) (get_product_id r.1)) (on_pin sequence m base s)
unfolding on_pin
on_pin-ShowsText sequence m base s bytes =
    Ensures-bind (λ bs. (copy_from m (base + 8) 45 ≡ some bs) × (length bs ≡ 45))
      (λ r. ShowsText m (base + 8) (get_product_id r.1)) _ _
      (λ bs e. (e, (copy_from-sized m (base + 8) 45 bytes bs e).0))
      λ bs copied.
        Ensures-bind (λ n. strlen m (base + 8) ≡ some n)
          (λ r. ShowsText m (base + 8) (get_product_id r.1)) _ _ (λ n e. e)
          λ n text.
            Ensures-some (λ r. ShowsText m (base + 8) (get_product_id r.1)) _
              (ShowsText-cut m bs (base + 8) n (if ltb 44 n then 44 else n) copied.0 copied.1 text
                (ground arith))

-- After any packets of bytes since a reset, whatever their commands are, if all are parsed, the
-- text of GetProductId ends inside its array of 45 bytes. A command _pin of a further packet then
-- makes it the text of the command, cut after 44 bytes, and again with its end inside the array.
pub session-ShowsText :
    (packets : Packets) (heap : Heap) (s : Switcher) (sequence : SequenceCheck) (m : Bytes)
    (base bits : ℕ) (s' : Switcher)
    → ArePackets packets
    → AreBytes m
    → parse_packets packets (cleared heap) ≡ some s
    → handle sequence m pin base s ≡ some (bits, s')
    → ((n : ℕ) × (strlen (get_product_id s) 0 ≡ some n) × (n ≤ 44))
      × ShowsText m (base + 8) (get_product_id s')
unfolding handle strlen
session-ShowsText packets heap s sequence m base bits s' are bytes parsed handled =
    let (size, b, nul) = session-IsTyped packets heap s are parsed of_product in
    (
      text_length_nul s.product_id 44 nul,
      on_pin-ShowsText sequence m base s bytes (bits, s') handled,
    )
