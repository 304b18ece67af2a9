-- ===== src/State/Replay.antt =====
-- Many calls of `AtemState::Set` on one object: the order in which the packets come is forgotten.
use mathlib.Core.Logic.{∥∥₁_elim}
use native.Mathlib.Nat.{ℕ_set}
use mathlib.Core.List.{Perm, Permᴰ}
use atem_esp_idf.Prelude.{ℕ, ◌≡◌, ◌≢◌, ◌<◌, refl, ap, sym, subst, ◌∙◌, List, [], ◌∷◌}
use atem_esp_idf.Sequence.{SequenceCheck}
use atem_esp_idf.State.{AtemState, put}
use atem_esp_idf.State.Order.{put_comm}

module _ {T : Type 0} where
  -- The changes of one object, each with the sequence as it is after its packet.
  unfoldable pub put_all : AtemState T → List (SequenceCheck × T) → AtemState T
  put_all a [] = a
  put_all a ((sequence, v) ∷ changes) = put_all (put a sequence v) changes

  -- No change is by the packet `id`.
  abbrev pub AreOthers : ℕ → List (SequenceCheck × T) → Type 0
  AreOthers id [] = Unit {0}
  AreOthers id (c ∷ changes) = (c.0.last_id ≢ id) × AreOthers id changes

  -- The changes are by different packets.
  abbrev pub AreDistinct : List (SequenceCheck × T) → Type 0
  AreDistinct [] = Unit {0}
  AreDistinct (c ∷ changes) =
      (c.0.last_id < 65536) × AreOthers c.0.last_id changes × AreDistinct changes

  perm-AreOthers :
      (id : ℕ) {xs ys : List (SequenceCheck × T)} → Permᴰ xs ys → AreOthers id xs → AreOthers id ys
  perm-AreOthers id Permᴰ.nil h = tt
  perm-AreOthers id (Permᴰ.cons e p) h =
      (subst (λ c. c.0.last_id ≢ id) e h.0, perm-AreOthers id p h.1)
  perm-AreOthers id (Permᴰ.swap e f) h =
      (subst (λ c. c.0.last_id ≢ id) f h.1.0, (subst (λ c. c.0.last_id ≢ id) e h.0, h.1.1))
  perm-AreOthers id (Permᴰ.trans p q) h = perm-AreOthers id q (perm-AreOthers id p h)

  perm-AreDistinct :
      {xs ys : List (SequenceCheck × T)} → Permᴰ xs ys → AreDistinct xs → AreDistinct ys
  perm-AreDistinct Permᴰ.nil h = tt
  perm-AreDistinct (Permᴰ.cons {a} {b} {l₁} {l₂} e p) h =
      subst (λ c. AreDistinct (c ∷ l₂)) e
        (h.0, perm-AreOthers a.0.last_id p h.1, perm-AreDistinct p h.2)
  perm-AreDistinct (Permᴰ.swap {a} {b} {a'} {b'} {l} e f) h =
      subst (λ c. AreDistinct (a' ∷ c ∷ l)) e
        (subst (λ c. AreDistinct (c ∷ a ∷ l)) f
          (h.2.0, ((λ q. h.1.0 (sym q)), h.2.1), (h.0, h.1.1, h.2.2)))
  perm-AreDistinct (Permᴰ.trans p q) h = perm-AreDistinct q (perm-AreDistinct p h)

  put_all-permᴰ :
      {xs ys : List (SequenceCheck × T)} (s : AtemState T)
      → Permᴰ xs ys
      → AreDistinct xs
      → put_all s xs ≡ put_all s ys
  unfolding put_all
  put_all-permᴰ s Permᴰ.nil h = refl
  put_all-permᴰ s (Permᴰ.cons {a} {b} {l₁} {l₂} e p) h =
      put_all-permᴰ (put s a.0 a.1) p h.2 ∙ ap (λ c. put_all s (c ∷ l₂)) e
  put_all-permᴰ s (Permᴰ.swap {a} {b} {a'} {b'} {l} e f) h =
      ap (λ t. put_all t l) (put_comm s a.0 b.0 a.1 b.1 h.0 h.2.0 (λ q. h.1.0 (sym q)))
      ∙ ap (λ x. put_all s (x ∷ a ∷ l)) f
      ∙ ap (λ x. put_all s (a' ∷ x ∷ l)) e
  put_all-permᴰ s (Permᴰ.trans p q) h =
      put_all-permᴰ s p h ∙ put_all-permᴰ s q (perm-AreDistinct p h)

  AtemState-set : IsSet T → IsSet (AtemState T)
  AtemState-set t = hlevel (t, ℕ_set)

  -- Changes by different packets, of 16-bit ids, end in the same object, whatever the order in which
  -- they come. The values are of a type that is a set.
  pub put_all-perm :
      (s : AtemState T) (xs ys : List (SequenceCheck × T))
      → IsSet T
      → Perm xs ys
      → AreDistinct xs
      → put_all s xs ≡ put_all s ys
  put_all-perm s xs ys t p h = ∥∥₁_elim p (AtemState-set t _ _) (λ q. put_all-permᴰ s q h)
