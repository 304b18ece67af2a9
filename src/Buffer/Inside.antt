-- ===== src/Buffer/Inside.antt =====
-- Stores and copies that succeed: they stay inside the block, and keep its size and that it holds
-- bytes.
use atem_esp_idf.Prelude.{
  get_elem?_in, refl, subst, ℕ, zero, suc, ◌+◌, ◌≡◌, ◌≤◌, ◌<◌, ap, sym, ◌∙◌, some, [], ◌∷◌, arith,
  >>=-eq-some, length, u8,
}
use atem_esp_idf.Buffer.{Bytes, load8, store8, copy_to, copy_from, AreBytes}

pub store8-length :
    (m : Bytes) (i v : ℕ) (m' : Bytes) → store8 m i v ≡ some m' → length m' ≡ length m
store8-length [] i v m' e = cc
store8-length (b ∷ m) zero v m' e = let same : u8 v ∷ m ≡ m' = cc in ap length (sym same)
store8-length (b ∷ m) (suc i) v m' e =
    let (r, p, q) = >>=-eq-some (store8 m i v) (λ m'. some (b ∷ m')) e in
    let same : b ∷ r ≡ m' = cc in ap length (sym same) ∙ ap suc (store8-length m i v r p)

pub copy_to-length :
    (bs m : Bytes) (i : ℕ) (m' : Bytes) → copy_to m i bs ≡ some m' → length m' ≡ length m
copy_to-length [] m i m' e = let same : m ≡ m' = cc in ap length (sym same)
copy_to-length (b ∷ bs) m i m' e =
    let (r, p, q) = >>=-eq-some (store8 m i b) (λ r. copy_to r (suc i) bs) e in
    copy_to-length bs r (suc i) m' q ∙ store8-length m i b r p

load8-lt : (m : Bytes) (i b : ℕ) → load8 m i ≡ some b → i < length m
load8-lt [] i b e = cc
load8-lt (c ∷ m) zero b e = omega arith
load8-lt (c ∷ m) (suc i) b e = let h = load8-lt m i b e in omega arith

-- A copy that succeeds stays inside.
pub copy_from-le :
    (m : Bytes) (i n : ℕ) (bs : Bytes) → i ≤ length m → copy_from m i n ≡ some bs → i + n ≤ length m
copy_from-le m i zero bs h e = omega arith
copy_from-le m i (suc n) bs h e =
    let (b, p, q) = >>=-eq-some (load8 m i) _ e in
    let (rest, r, _) = >>=-eq-some (copy_from m (suc i) n) _ q in
    let lt = load8-lt m i b p in
    let le = copy_from-le m (suc i) n rest (omega arith) r in omega arith

pub store8-AreBytes :
    (m : Bytes) (i v : ℕ) (m' : Bytes) → AreBytes m → store8 m i v ≡ some m' → AreBytes m'
store8-AreBytes [] i v m' h e = cc
store8-AreBytes (b ∷ m) zero v m' h e =
    let same : u8 v ∷ m ≡ m' = cc in subst AreBytes same (omega arith, h.1)
store8-AreBytes (b ∷ m) (suc i) v m' h e =
    let (r, p, q) = >>=-eq-some (store8 m i v) (λ m'. some (b ∷ m')) e in
    let same : b ∷ r ≡ m' = cc in subst AreBytes same (h.0, store8-AreBytes m i v r h.1 p)

pub copy_to-AreBytes :
    (bs m : Bytes) (i : ℕ) (m' : Bytes) → AreBytes m → copy_to m i bs ≡ some m' → AreBytes m'
copy_to-AreBytes [] m i m' h e = let same : m ≡ m' = cc in subst AreBytes same h
copy_to-AreBytes (b ∷ bs) m i m' h e =
    let (r, p, q) = >>=-eq-some (store8 m i b) (λ r. copy_to r (suc i) bs) e in
    copy_to-AreBytes bs r (suc i) m' (store8-AreBytes m i b r h p) q

pub copy_from_inside :
    (m : Bytes) (i n : ℕ) → i + n ≤ length m → (bytes : Bytes) × (copy_from m i n ≡ some bytes)
copy_from_inside m i zero h = ([], refl)
copy_from_inside m i (suc n) h =
    let (b, e) = get_elem?_in m i (omega arith) in
    let (bytes, f) = copy_from_inside m (suc i) n (omega arith) in (b ∷ bytes, rw (e, f) refl)
