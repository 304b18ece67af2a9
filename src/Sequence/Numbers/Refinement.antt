-- ===== src/Sequence/Numbers/Refinement.antt =====
-- `Add` on ids refines the specification on numbers: one packet ahead of the highest or behind it,
-- then a whole sequence of packets.
use atem_esp_idf.Prelude.{
  ℕ, zero, suc, ◌+◌, ◌-◌, ◌≤◌, ◌<◌, ◌≡◌, refl, ap, sym, ◌∙◌, inl, inr, true, not, Bool-cases, some,
  List, [], ◌∷◌, map, max, arith, ltb, ltb→lt, of_bool, subst,
}
use atem_esp_idf.Prelude.Bits.{bit}
use atem_esp_idf.Sequence.{SequenceCheck, init, add}
use atem_esp_idf.Sequence.Add.{AddsAhead, AddsBehind, add-ahead, add-behind}
use atem_esp_idf.Sequence.Stream.{add_all}
use atem_esp_idf.Sequence.Numbers.{
  id_of, has, first_times, IsNear, AreNear, highest, all_seen, Represents, AddsNumber, has_other,
  has_self, exclusive, above-cons, distance_lem, seen_at,
}

module _ (s : SequenceCheck) (h : ℕ) (seen : List ℕ) (n : ℕ) (r : Represents s h seen) (le : h ≤ n)
    (lt : n < h + 32) where
  ahead_fresh : (a : AddsAhead s (id_of n) (n - h) (add s (id_of n))) → a.fresh ≡ not (has n seen)
  ahead_fresh a = elim (Bool-cases (has n seen)) [
    | inl e ↦
        let same : n + 0 ≡ h = elim (Bool-cases (ltb h n)) [
          | inl above ↦ absurd (exclusive e (r.above n (ltb→lt h n above)))
          | inr not_above ↦ ground arith
        ] in
        rw e (a.fresh_iff.1 (omega arith, seen_at s h seen 0 n r (omega arith) same ∙ ap of_bool e))
    | inr e ↦ elim (Bool-cases a.fresh) [
      | inl f ↦ rw (e, f) refl
      | inr f ↦
          let (zero_d, one) = a.fresh_iff.0 f in
          absurd (omega (arith, seen_at s h seen 0 n r (omega arith) (omega arith) ∙ ap of_bool e))
    ]
  ]

  ahead_window :
      (a : AddsAhead s (id_of n) (n - h) (add s (id_of n))) (k m : ℕ)
      → k < 32
      → m + k ≡ n
      → bit a.after.received k ≡ of_bool (has m (n ∷ seen))
  ahead_window a zero m h32 e =
      let same : m ≡ n = omega arith in
      let here : has m (n ∷ seen) ≡ true = rw same (has_self n seen) in
      a.recorded ∙ sym (ap of_bool here)
  ahead_window a (suc k) m h32 e =
      let other : has m (n ∷ seen) ≡ has m seen = has_other m n seen (λ q. absurd (omega arith)) in
      elim (Bool-cases (ltb (suc k) (n - h))) [
        | inl below ↦
            let b : suc k < n - h = ltb→lt (suc k) (n - h) below in
            a.skipped (suc k) (omega arith) b ∙ sym (ap of_bool (other ∙ r.above m (omega arith)))
        | inr above ↦
            let b : n - h ≤ suc k = ground arith in
            let at : (n - h) + (suc k - (n - h)) ≡ suc k = omega arith in
            subst (λ i. bit a.after.received i ≡ bit s.received (suc k - (n - h))) at
              (a.kept (suc k - (n - h)) (omega arith) (omega arith))
            ∙ seen_at s h seen (suc k - (n - h)) m r (omega arith) (omega arith)
            ∙ sym (ap of_bool other)
      ]

  add_number_ahead : AddsNumber s h seen n
  add_number_ahead = record {
    after = a.after;
    returns = a.returns ∙ ap (λ b. some (b, a.after)) (ahead_fresh a);
    represents = record {
      valid = a.valid;
      head = a.head ∙ ap id_of top;
      window = λ k l q. ahead_window a k (max h n - k) l (omega arith);
      above = above-cons h n seen r.above;
    };
  }
    where
      top : n ≡ max h n
      top = omega arith

      a : AddsAhead s (id_of n) (n - h) (add s (id_of n))
      a =
          let d = distance_lem s h n r.head le lt in
          subst (λ d. AddsAhead s (id_of n) d (add s (id_of n))) d
            (add-ahead s (id_of n) r.valid (omega arith) (omega (arith, d)))

module _ (s : SequenceCheck) (h : ℕ) (seen : List ℕ) (n : ℕ) (r : Represents s h seen) (lt : n < h)
    (near : h < n + 32) where
  behind_fresh : (a : AddsBehind s (id_of n) (h - n) (add s (id_of n))) → a.fresh ≡ not (has n seen)
  behind_fresh a =
      let b : bit s.received (h - n) ≡ of_bool (has n seen) =
        seen_at s h seen (h - n) n r (omega arith) (omega arith) in
      elim (Bool-cases (has n seen)) [
        | inl e ↦ rw e (a.fresh_iff.1 (b ∙ ap of_bool e))
        | inr e ↦ elim (Bool-cases a.fresh) [
          | inl f ↦ rw (e, f) refl
          | inr f ↦ absurd (omega (arith, b ∙ ap of_bool e, a.fresh_iff.0 f))
        ]
      ]

  behind_window :
      (a : AddsBehind s (id_of n) (h - n) (add s (id_of n))) (k m : ℕ)
      → k < 32
      → m + k ≡ h
      → bit a.after.received k ≡ of_bool (has m (n ∷ seen))
  unfolding has
  behind_window a k m h32 e = ground (arith, a.recorded k, seen_at s h seen k m r h32 e)

  add_number_behind : id_of n < id_of h → AddsNumber s h seen n
  add_number_behind below = record {
    after = a.after;
    returns = a.returns ∙ ap (λ b. some (b, a.after)) (behind_fresh a);
    represents = record {
      valid = a.valid;
      head = a.head ∙ r.head ∙ ap id_of top;
      window = λ k l q. behind_window a k (max h n - k) l (omega arith);
      above = above-cons h n seen r.above;
    };
  }
    where
      top : h ≡ max h n
      top = omega arith

      a : AddsBehind s (id_of n) (h - n) (add s (id_of n))
      a =
          let d : s.offset - id_of n ≡ h - n = omega (arith, r.head) in
          subst (λ d. AddsBehind s (id_of n) d (add s (id_of n))) d
            (add-behind s (id_of n) r.valid (omega (arith, r.head)) (omega (arith, r.head)))

add_number :
    (s : SequenceCheck) (h : ℕ) (seen : List ℕ) (n : ℕ)
    → Represents s h seen
    → IsNear h n
    → AddsNumber s h seen n
add_number s h seen n r (inl p) = add_number_ahead s h seen n r p.0 p.1
add_number s h seen n r (inr p) = add_number_behind s h seen n r p.0 p.1 p.2

refines :
    (ns : List ℕ) (s : SequenceCheck) (h : ℕ) (seen : List ℕ)
    → Represents s h seen
    → AreNear h ns
    → (s' : SequenceCheck) × (add_all s (map id_of ns) ≡ some (first_times seen ns, s'))
      × Represents s' (highest h ns) (all_seen seen ns)
unfolding add_all first_times
refines [] s h seen r near = (s, refl, r)
refines (n ∷ ns) s h seen r near =
    let a = add_number s h seen n r near.0 in
    let rest = refines ns a.after (max h n) (n ∷ seen) a.represents near.1 in
    (rest.0, rw (a.returns, rest.1) refl, rest.2)

init-Represents : Represents init 1 (0 ∷ [])
unfolding has
init-Represents = record {
  valid = record { offset_fits = omega arith; received_fits = omega arith };
  head = refl;
  window = λ k l q. window k l q;
  above = λ n l. has_other n 0 [] (λ e. absurd (omega arith));
}
  where
    window : (k : ℕ) → k < 32 → k ≤ 1 → bit init.received k ≡ of_bool (has (1 - k) (0 ∷ []))
    window zero l q = refl
    window (suc zero) l q = refl
    window (suc (suc k)) l q = absurd (omega arith)

-- From a new connection, whatever the order in which the packets come, lost and repeated ones
-- included: if each is less than 32 after the highest number so far, or less than 32 before it with
-- no rollover of the ids between the two, then `Add` on their ids answers as the specification on
-- their numbers, over any number of rollovers, and the window at the end shows which numbers were
-- seen. The number 0 counts as seen at the start.
pub add_all-first_times :
    (ns : List ℕ)
    → AreNear 1 ns
    → (s : SequenceCheck) × (add_all init (map id_of ns) ≡ some (first_times (0 ∷ []) ns, s))
      × Represents s (highest 1 ns) (all_seen (0 ∷ []) ns)
add_all-first_times ns near = refines ns init 1 (0 ∷ []) init-Represents near
