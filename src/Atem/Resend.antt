-- ===== src/Atem/Resend.antt =====
-- src/atem.cpp: the stored packets between `SendCommands`, a resend request and an ACK.
pub mod Request
use atem_esp_idf.Prelude.{
  ℕ, zero, suc, ◌+◌, ◌-◌, ◌%◌, ◌≡◌, ◌≢◌, ◌≤◌, ◌<◌, refl, ap, ◌∙◌, Bool, true, false, some, List, [],
  ◌∷◌, ◌++◌, arith, length, take, length-take, ◌==◌, ==_self, Bool-cases, inl, inr, leb, ltb, ◌&&◌,
  ◌||◌, not, if◌then◌else◌, u16, subst,
}
use mathlib.Core.List.{append-nil}
use atem_esp_idf.Prelude.Bits.{bit_and-mask}
use atem_esp_idf.Buffer.{Bytes}
use atem_esp_idf.Packet
use atem_esp_idf.Atem.Connection.{store_packet, max_send_packets}
use atem_esp_idf.Atem.Task.{find_sent, acknowledge, max_loops, is_far}

-- The ids of the packets, in order.
abbrev pub HaveIds : List ℕ → List Bytes → Type 0
HaveIds [] ps = ps ≡ []
HaveIds (k ∷ ks) [] = ⊥
HaveIds (k ∷ ks) (p ∷ ps) = (Packet.get_id p ≡ some k) × HaveIds ks ps

-- The packets are readable, and none has the id.
abbrev pub NoneHas : ℕ → List Bytes → Type 0
NoneHas k [] = Unit {0}
NoneHas k (q ∷ qs) = ((j : ℕ) × (Packet.get_id q ≡ some j) × (j ≢ k)) × NoneHas k qs

-- At most 32 ids from `id`, before it or after it, on the circle of the 15-bit ids.
abbrev pub is_near : ℕ → ℕ → Bool
is_near id k = leb ((k + 32768 - id) % 32768) 32 || leb ((id + 32768 - k) % 32768) 32

-- The packets whose id is near.
abbrev pub near_packets : ℕ → List ℕ → List Bytes → List Bytes
near_packets id (k ∷ ks) (p ∷ ps) =
    let rest = near_packets id ks ps in if is_near id k then p ∷ rest else rest
near_packets id ks ps = []

-- Ids of 15 bits other than `id`.
abbrev pub AreOtherIds : ℕ → List ℕ → Type 0
AreOtherIds id [] = Unit {0}
AreOtherIds id (k ∷ ks) = (k < 32768) × (k ≢ id) × AreOtherIds id ks

not_same : (j k : ℕ) → j ≢ k → (j == k) ≡ false
not_same j k h = ground arith

NoneHas-take : (n k : ℕ) (ps : List Bytes) → NoneHas k ps → NoneHas k (take n ps)
NoneHas-take zero k ps h = tt
NoneHas-take (suc n) k [] h = tt
NoneHas-take (suc n) k (p ∷ ps) h = (h.0, NoneHas-take n k ps h.1)

find_sent-last :
    (left k : ℕ) (p : Bytes) (ps : List Bytes)
    → NoneHas k ps
    → Packet.get_id p ≡ some k
    → length ps < left
    → find_sent left k (ps ++ p ∷ []) ≡ some (some p)
unfolding find_sent
find_sent-last zero k p ps h e lt = absurd (omega arith)
find_sent-last (suc left) k p [] h e lt = rw (e, ==_self k) refl
find_sent-last (suc left) k p (q ∷ ps) h e lt =
    let (j, ej, ne) = h.0 in
    rw (ej, not_same j k ne) (find_sent-last left k p ps h.1 e (omega arith))

-- A packet that `SendCommands` stores among at most 32 others is found for a resend of its id, if
-- no other has that id.
pub find_sent-store_packet :
    (k : ℕ) (p : Bytes) (ps : List Bytes)
    → NoneHas k ps
    → Packet.get_id p ≡ some k
    → length ps ≤ 32
    → find_sent max_loops k (store_packet p ps) ≡ some (some p)
unfolding store_packet
find_sent-store_packet k p ps h e few = elim (Bool-cases (leb max_send_packets (length ps))) [
  | inl t ↦ rw t (
      find_sent-last max_loops k p (take (length ps - 1) ps) (NoneHas-take (length ps - 1) k ps h) e
        (omega (arith, length-take (length ps - 1) ps)))
  | inr t ↦ rw t (find_sent-last max_loops k p ps h e (omega arith))
]

is_far_lem : (a b : ℕ) → a < 32768 → b < 32768 → is_far a b ≡ ltb 32 ((a + 32768 - b) % 32768)
is_far_lem a b ha hb = rw (bit_and-mask 15 (u16 (a + 65536 - b))) (
    ap (ltb 32)
      (let e : (a + 65536 - b) % 65536 % 32768 ≡ (a + 32768 - b) % 32768 = omega arith in e))

far_near : (id k : ℕ) → id < 32768 → k < 32768 → (is_far k id && is_far id k) ≡ not (is_near id k)
far_near id k hi hk = rw (is_far_lem k id hk hi, is_far_lem id k hi hk) (ground arith)

acknowledge_front :
    (left id : ℕ) (ks : List ℕ) (ps rest out : List Bytes)
    → id < 32768
    → AreOtherIds id ks
    → HaveIds ks ps
    → length ps < left
    → ((n : ℕ) → acknowledge (suc n) id rest ≡ some out)
    → acknowledge left id (ps ++ rest) ≡ some (near_packets id ks ps ++ out)
unfolding acknowledge
acknowledge_front zero id ks ps rest out fits others ids few e = absurd (omega arith)
acknowledge_front (suc left) id [] [] rest out fits others ids few e = e left
acknowledge_front (suc left) id [] (p ∷ ps) rest out fits others ids few e = cc
acknowledge_front (suc left) id (k ∷ ks) [] rest out fits others ids few e = absurd ids
acknowledge_front (suc left) id (k ∷ ks) (p ∷ ps) rest out fits (hk, ne, others) (own, ids) few e =
    let later = acknowledge_front left id ks ps rest out fits others ids (omega arith) e in
    elim (Bool-cases (is_near id k)) [
      | inl near ↦ rw (own, far_near id k fits hk, near, not_same k id ne, later) refl
      | inr far ↦ rw (own, far_near id k fits hk, far, later) refl
    ]

acknowledge_own :
    (id n : ℕ) (p : Bytes) (qs : List Bytes)
    → id < 32768
    → Packet.get_id p ≡ some id
    → acknowledge (suc n) id (p ∷ qs) ≡ some qs
unfolding acknowledge
acknowledge_own id n p qs fits e =
    let near : is_near id id ≡ true = ground arith in
    rw (e, far_near id id fits fits, near, ==_self id) refl

acknowledge_none : (id n : ℕ) → acknowledge (suc n) id [] ≡ some []
unfolding acknowledge
acknowledge_none id n = refl

-- The ACK of an id of 15 bits, where at most 50 packets are stored before the first with this id,
-- all with 15-bit ids: of these, those stay, in order, whose id is at most 32 before or after it on
-- the circle of the ids; the first with this id goes, and all behind it stay. If no packet has the
-- id, and at most 50 are stored, those stay that are at most 32 from it.
pub acknowledge_lem :
    (id : ℕ) (ks : List ℕ) (ps qs : List Bytes) (p : Bytes)
    → id < 32768
    → AreOtherIds id ks
    → HaveIds ks ps
    → Packet.get_id p ≡ some id
    → length ps ≤ 50
    → (acknowledge max_loops id ps ≡ some (near_packets id ks ps))
      × (acknowledge max_loops id (ps ++ p ∷ qs) ≡ some (near_packets id ks ps ++ qs))
acknowledge_lem id ks ps qs p fits others ids e few = (
  subst (λ xs. acknowledge max_loops id xs ≡ some (near_packets id ks ps)) (append-nil ps)
      (subst (λ xs. acknowledge max_loops id (ps ++ []) ≡ some xs)
        (append-nil (near_packets id ks ps))
        (acknowledge_front max_loops id ks ps [] [] fits others ids (omega arith)
          (acknowledge_none id))),
  acknowledge_front max_loops id ks ps (p ∷ qs) qs fits others ids (omega arith)
      (λ n. acknowledge_own id n p qs fits e),
)
