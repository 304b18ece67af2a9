-- ===== src/Packet/Layout.antt =====
-- Commands laid out in a packet one behind the other, and the iterator over them.
use mathlib.Core.List.{append_assoc, append-nil}
use atem_esp_idf.Prelude.{
  ℕ, zero, suc, ◌+◌, ◌≤◌, ◌<◌, ◌≡◌, refl, ap, subst, ◌∙◌, Option, some, List, [], ◌∷◌, ◌++◌, arith,
  length, ◌==◌, ==_self, false, u16, ◌>>=◌,
}
use atem_esp_idf.Buffer.{Bytes, load8, load16, copy_from}
use atem_esp_idf.Command
use atem_esp_idf.Packet
use atem_esp_idf.Packet.Iterator.{walk, next, for_commands, begin, max_commands}

-- The block `c` stands at offset `i` of `m`.
abbrev pub At : Bytes → ℕ → Bytes → Type 0
At m i c = (j : ℕ) → j < length c → load8 m (i + j) ≡ load8 c j

-- The blocks stand one behind the other from `i` to `end`.
abbrev pub Laid : Bytes → ℕ → List Bytes → ℕ → Type 0
Laid m i [] end = i ≡ end
Laid m i (c ∷ cs) end = At m i c × Laid m (i + length c) cs end

-- A command's own length is the length of its block.
pub record IsCommand (c : Bytes) : Type 0 where
  pub has_length : 2 ≤ length c
  pub own_length : load16 c 0 ≡ some (length c)

abbrev pub AreCommands : List Bytes → Type 0
AreCommands [] = Unit {0}
AreCommands (c ∷ cs) = IsCommand c × AreCommands cs

At-tail : (m : Bytes) (i b : ℕ) (c : Bytes) → At m i (b ∷ c) → At m (suc i) c
At-tail m i b c h j lt =
    let e : i + suc j ≡ suc i + j = omega arith in
    subst (λ k. load8 m k ≡ load8 c j) e (h (suc j) (omega arith))

At-head : (m : Bytes) (i b : ℕ) (c : Bytes) → At m i (b ∷ c) → load8 m i ≡ some b
At-head m i b c h =
    let e : i + 0 ≡ i = omega arith in subst (λ k. load8 m k ≡ some b) e (h 0 (omega arith))

pub copy_from-At : (m : Bytes) (i : ℕ) (c : Bytes) → At m i c → copy_from m i (length c) ≡ some c
copy_from-At m i [] h = refl
copy_from-At m i (b ∷ c) h =
    rw (At-head m i b c h) (rw (copy_from-At m (suc i) c (At-tail m i b c h)) refl)

pub load16-At : (m : Bytes) (i : ℕ) (c : Bytes) → 2 ≤ length c → At m i c → load16 m i ≡ load16 c 0
load16-At m i [] two h = absurd (omega arith)
load16-At m i (a ∷ []) two h = absurd (omega arith)
load16-At m i (a ∷ b ∷ c) two h =
    rw (At-head m i a (b ∷ c) h, At-head m (suc i) b c (At-tail m i a (b ∷ c) h)) refl

-- The body of a loop that lists the commands' blocks.
abbrev pub collect : Bytes → ℕ → List Bytes → Option (List Bytes)
collect m i acc = do n ← Command.get_length m i; c ← copy_from m i n; some (acc ++ c ∷ [])

-- The blocks that the iterator visits.
unfoldable pub commands_of : Bytes → Option (List Bytes)
commands_of m = for_commands (collect m) m []

pub Laid-le : (m : Bytes) (i : ℕ) (cs : List Bytes) (end : ℕ) → Laid m i cs end → i ≤ end
Laid-le m i [] end h = omega arith
Laid-le m i (c ∷ cs) end h = omega (arith, Laid-le m (i + length c) cs end h.1)

walk-Laid :
    (m : Bytes) (end : ℕ) (cs : List Bytes) (left i : ℕ) (acc : List Bytes)
    → end < 65536
    → length cs ≤ left
    → AreCommands cs
    → Laid m i cs end
    → walk (collect m) m end left i acc ≡ some (acc ++ cs)
unfolding walk next Command.get_length
walk-Laid m end [] zero i acc fits enough are h = simp append-nil
walk-Laid m end [] (suc left) i acc fits enough are h = rw (h, ==_self end) (simp append-nil)
walk-Laid m end (c ∷ cs) zero i acc fits enough are h = absurd (omega arith)
walk-Laid m end (c ∷ cs) (suc left) i acc fits enough are h =
    rw (not_end, load16-At m i c are.0.has_length h.0, are.0.own_length)
      (rw (copy_from-At m i c h.0, step)
        (walk-Laid m end cs left (i + length c) (acc ++ c ∷ []) fits (omega arith) are.1 h.1
          ∙ ap some (append_assoc acc (c ∷ []) cs)))
  where
    step : u16 (i + length c) ≡ i + length c
    step = omega (arith, Laid-le m (i + length c) cs end h.1)

    not_end : (i == end) ≡ false
    not_end = ground (arith, Laid-le m (i + length c) cs end h.1, are.0.has_length)

-- The iterator visits the commands that are laid out from offset 12 to the packet's length, each
-- once and in order, if they are 512 at most.
pub commands_of-Laid :
    (m : Bytes) (cs : List Bytes) (end : ℕ)
    → Packet.get_length m ≡ some end
    → end < 65536
    → length cs ≤ max_commands
    → AreCommands cs
    → Laid m begin cs end
    → commands_of m ≡ some cs
unfolding commands_of for_commands
commands_of-Laid m cs end e fits enough are h =
    rw e (walk-Laid m end cs max_commands begin [] fits enough are h)
