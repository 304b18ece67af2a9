-- ===== src/Atem/Buffered.antt =====
-- The task's buffer after `recv`: what holds of the packet's commands holds of those in the buffer.
use atem_esp_idf.Prelude.{
  >>=-eq-some, ℕ, zero, suc, ◌+◌, ◌≡◌, ◌≤◌, ◌<◌, refl, sym, ◌∙◌, subst, some, List, [], ◌∷◌, arith,
  length, ◌==◌, Bool-cases, inl, inr, drop,
}
use atem_esp_idf.Prelude.Returns.{IsDefined, IsDefined-bind}
use atem_esp_idf.Buffer.{Bytes, AreBytes, copy_to, load8}
use atem_esp_idf.Buffer.Text.{strlen, text_length}
use atem_esp_idf.Buffer.Inside.{copy_to-AreBytes}
use atem_esp_idf.Buffer.Store.{copy_to-Copies}
use atem_esp_idf.Packet
use atem_esp_idf.Packet.Layout.{Laid, Laid-le}
use atem_esp_idf.Command.{get_cmd, get_data}
use atem_esp_idf.Atem.Dispatch.{Kind, pin, mpfe, kind_of}
use atem_esp_idf.Atem.Handlers.Complete.{ReadsMore, needs}
use atem_esp_idf.Atem.Parses.{AreComplete}

-- The buffer after a copy to its start.
pub record Buffered (m bytes : Bytes) : Type 0 where
  pub after : Bytes
  pub returns : copy_to m 0 bytes ≡ some after
  pub same_length : length after ≡ length m
  pub are_bytes : AreBytes after
  pub same : (j : ℕ) → j < length bytes → load8 after j ≡ load8 bytes j

pub buffered :
    (m bytes : Bytes) → length bytes ≤ length m → AreBytes m → AreBytes bytes → Buffered m bytes
buffered m bytes fits hm hb =
    let c = copy_to-Copies bytes m 0 (omega arith) hb in
    record {
      after = c.after;
      returns = c.returns;
      same_length = c.same_length;
      are_bytes = copy_to-AreBytes bytes m 0 c.after hm c.returns;
      same = λ j h.
          let e : 0 + j ≡ j = omega arith in
          subst (λ k. load8 c.after k ≡ load8 bytes j) e (c.inside j h);
    }

load8-drop : (m : Bytes) (i j : ℕ) → load8 (drop i m) j ≡ load8 m (i + j)
load8-drop m zero j = let e : 0 + j ≡ j = omega arith in rw e refl
load8-drop [] (suc i) j = refl
load8-drop (b ∷ m) (suc i) j =
    let e : suc i + j ≡ suc (i + j) = omega arith in rw e (load8-drop m i j)

length-drop_lt : (m : Bytes) (i j : ℕ) → j < length (drop i m) → i + j < length m
length-drop_lt m zero j h = omega arith
length-drop_lt [] (suc i) j h = omega arith
length-drop_lt (b ∷ m) (suc i) j h = let k = length-drop_lt m i j h in omega arith

text_length-same :
    (xs ys : Bytes)
    → ((j : ℕ) → j < length xs → load8 ys j ≡ load8 xs j)
    → IsDefined (text_length xs)
    → IsDefined (text_length ys)
unfolding text_length
text_length-same [] ys same (n, e) = cc
text_length-same (x ∷ xs) [] same h = let e = same 0 (omega arith) in cc
text_length-same (x ∷ xs) (y ∷ ys) same (n, e) =
    let first : y ≡ x = cc (same 0 (omega arith)) in
    elim (Bool-cases (x == 0)) [
      | inl t ↦ (0, rw (first, t) refl)
      | inr u ↦
          let (k, f, _) = >>=-eq-some (text_length xs) _ (rw u at e) in
          let rest = text_length-same xs ys (λ j h. same (suc j) (omega arith)) (k, f) in
          rw (first, u) (IsDefined-bind _ _ rest λ n. (suc n, refl))
    ]

module _ (bytes after : Bytes) (longer : length bytes ≤ length after)
    (same : (j : ℕ) → j < length bytes → load8 after j ≡ load8 bytes j) where
  strlen-same : (i : ℕ) → IsDefined (strlen bytes i) → IsDefined (strlen after i)
  unfolding strlen
  strlen-same i h =
      text_length-same (drop i bytes) (drop i after)
        (λ j k.
          load8-drop after i j
          ∙ same (i + j) (length-drop_lt bytes i j k)
          ∙ sym (load8-drop bytes i j))
        h

  ReadsMore-same :
      (kind : Kind) (base : ℕ)
      → base + 8 + needs kind ≤ length bytes
      → ReadsMore kind bytes base
      → ReadsMore kind after base
  unfolding get_data
  ReadsMore-same pin base h k = strlen-same (base + 8) k
  ReadsMore-same mpfe base h (type, e, clip) = (type, same (base + 8 + 0) (omega arith) ∙ e, clip)
  ReadsMore-same _ base h k = tt

  get_cmd-same : (i : ℕ) → i + 8 ≤ length bytes → get_cmd after i ≡ get_cmd bytes i
  unfolding get_cmd
  get_cmd-same i h =
      rw
        (
          same (i + 4) (omega arith),
          same (i + 5) (omega arith),
          same (i + 6) (omega arith),
          same (i + 7) (omega arith),
        )
        refl

  pub AreComplete-same : (i : ℕ) (cs : List Bytes) → AreComplete bytes i cs → AreComplete after i cs
  AreComplete-same i [] h = tt
  AreComplete-same i (c ∷ cs) ((cmd, e, (fits, more)), rest) = (
    (
      cmd,
      get_cmd-same i (omega arith) ∙ e,
      (omega arith, ReadsMore-same (kind_of cmd) i fits more),
    ),
    AreComplete-same (i + length c) cs rest,
  )

  pub Laid-same :
      (i : ℕ) (cs : List Bytes) (end : ℕ)
      → end ≤ length bytes
      → Laid bytes i cs end
      → Laid after i cs end
  Laid-same i [] end le h = h
  Laid-same i (c ∷ cs) end le h = (
    λ j k. same (i + j) (omega (arith, Laid-le bytes (i + length c) cs end h.1)) ∙ h.0 j k,
    Laid-same (i + length c) cs end le h.1,
  )

  pub get_id-same : 12 ≤ length bytes → Packet.get_id after ≡ Packet.get_id bytes
  unfolding Packet.get_id
  get_id-same h = rw (same 10 (omega arith), same 11 (omega arith)) refl
