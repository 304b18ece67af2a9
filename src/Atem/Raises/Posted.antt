-- ===== src/Atem/Raises/Posted.antt =====
-- The loop over the commands, and what `task_` posts after it.
use atem_esp_idf.Prelude.{
  ℕ, zero, suc, ◌+◌, ◌≡◌, ◌≤◌, ◌<◌, refl, ap, ◌∙◌, sym, Bool, true, false, some, none, List, [],
  ◌∷◌, arith, length, ◌==◌, ==_self, ==_iff, and_false, bit_or, bit_and, max, if◌then◌else◌, not,
  nonzero, ◌||◌, ◌&&◌, lt→ltb, >>=-eq-some, Bool-cases, inl, inr, ◌<<<◌,
}
use atem_esp_idf.Prelude.Bits.{bit, bit-lt, zero-bit, bit-bit_or}
use atem_esp_idf.Buffer.{Bytes}
use atem_esp_idf.Sequence.{SequenceCheck}
use atem_esp_idf.Sequence.Window.{nonzero-bit}
use atem_esp_idf.Packet
use atem_esp_idf.Packet.Iterator.{walk, for_commands, begin, max_commands}
use atem_esp_idf.Packet.Layout.{Laid, AreCommands, Laid-le}
use atem_esp_idf.Command.{get_cmd}
use atem_esp_idf.Atem.Object.{Atem, Switcher, Effect, posted}
use atem_esp_idf.Atem.Getters.{is_active}
use atem_esp_idf.Atem.Connection.{World}
use atem_esp_idf.Atem.Task.{post_from, post_events, on_payload}
use atem_esp_idf.Atem.Parses.{next-Laid}
use atem_esp_idf.Atem.Dispatch.{handle, kind_of, on_command, parse_packet}
use atem_esp_idf.Atem.Raises.{raises, handle-raises}

-- The command at `i` raises event `j`.
abbrev pub raises_at : ℕ → Bytes → ℕ → Bool
raises_at j m i = elim (get_cmd m i) [
  | none ↦ false
  | some cmd ↦ bit (raises (kind_of cmd) m i) j == 1
]

-- One of the commands from `i` on does.
abbrev pub is_raised : ℕ → Bytes → ℕ → List Bytes → Bool
is_raised j m i [] = false
is_raised j m i (c ∷ cs) = raises_at j m i || is_raised j m (i + length c) cs

-- The effect for each of the `left` events from `j` on that is raised.
unfoldable pub announce : ℕ → ℕ → Bytes → List Bytes → ℕ → List Effect → List Effect
announce zero j m cs id log = log
announce (suc left) j m cs id log =
    announce left (suc j) m cs id (if is_raised j m begin cs then posted j id ∷ log else log)

raises_at_lem :
    (j : ℕ) (m : Bytes) (i cmd : ℕ)
    → get_cmd m i ≡ some cmd
    → raises_at j m i ≡ (bit (raises (kind_of cmd) m i) j == 1)
raises_at_lem j m i cmd e = rw (raises_at, e) refl

or_false : (b : Bool) → b ≡ (b || false)
or_false true = refl
or_false false = refl

or_assoc : (a b c : Bool) → ((a || b) || c) ≡ (a || (b || c))
or_assoc true b c = refl
or_assoc false b c = refl

joined_bit : (j a b : ℕ) → (bit (bit_or a b) j == 1) ≡ ((bit a j == 1) || (bit b j == 1))
joined_bit j a b = rw (bit-bit_or j a b) (small (bit a j) (bit b j) (bit-lt j a) (bit-lt j b))
  where
    small : (x y : ℕ) → x < 2 → y < 2 → (max x y == 1) ≡ ((x == 1) || (y == 1))
    small zero zero p q = refl
    small zero (suc zero) p q = refl
    small (suc zero) zero p q = refl
    small (suc zero) (suc zero) p q = refl
    small (suc (suc x)) y p q = absurd (omega arith)
    small x (suc (suc y)) p q = absurd (omega arith)

before_end : (i n end : ℕ) → 2 ≤ n → i + n ≤ end → (i == end) ≡ false
before_end i n end two le = ground arith

module _ (sequence : SequenceCheck) (m : Bytes) (j : ℕ) where
  on_command_raises :
      (i event : ℕ) (s : Switcher) (event' : ℕ) (s' : Switcher)
      → on_command sequence m i (event, s) ≡ some (event', s')
      → (bit event' j == 1) ≡ ((bit event j == 1) || raises_at j m i)
  unfolding on_command
  on_command_raises i event s event' s' e =
      let (cmd, f, g) = >>=-eq-some (get_cmd m i) _ e in
      let ((bits, s1), h, k) = >>=-eq-some (handle sequence m (kind_of cmd) i s) _ g in
      let is : bits ≡ raises (kind_of cmd) m i =
        handle-raises sequence m i s bits s1 (kind_of cmd) h in
      let both : bit_or event bits ≡ event' = cc (k) in
      ap (λ b. bit b j == 1) (sym both)
      ∙ joined_bit j event bits
      ∙ ap (λ b. (bit event j == 1) || (bit b j == 1)) is
      ∙ ap (λ b. (bit event j == 1) || b) (sym (raises_at_lem j m i cmd f))

  walk_raises :
      (end : ℕ) (cs : List Bytes) (left i event : ℕ) (s : Switcher) (event' : ℕ) (s' : Switcher)
      → end < 65536
      → length cs ≤ left
      → AreCommands cs
      → Laid m i cs end
      → walk (on_command sequence m) m end left i (event, s) ≡ some (event', s')
      → (bit event' j == 1) ≡ ((bit event j == 1) || is_raised j m i cs)
  unfolding walk
  walk_raises end [] zero i event s event' s' fits few are h e =
      let same : event ≡ event' = cc (e) in rw same (or_false (bit event' j == 1))
  walk_raises end [] (suc left) i event s event' s' fits few are h e =
      let same : event ≡ event' = cc (rw (h, ==_self end) at e) in
      rw same (or_false (bit event' j == 1))
  walk_raises end (c ∷ cs) zero i event s event' s' fits few are h e = absurd (omega arith)
  walk_raises end (c ∷ cs) (suc left) i event s event' s' fits few are h e =
      let more : (i == end) ≡ false =
        before_end i (length c) end are.0.has_length (Laid-le m (i + length c) cs end h.1) in
      let ((event1, s1), f, g) =
        >>=-eq-some (on_command sequence m i (event, s)) _ (rw more at e) in
      let rest = rw (next-Laid sequence m i end c cs fits are h) at g in
      walk_raises end cs left (i + length c) event1 s1 event' s' fits (omega arith) are.1 h.1 rest
      ∙ ap (λ b. b || is_raised j m (i + length c) cs) (on_command_raises i event s event1 s1 f)
      ∙ or_assoc (bit event j == 1) (raises_at j m i) (is_raised j m (i + length c) cs)

  parse_packet_raises :
      (end : ℕ) (cs : List Bytes) (s : Switcher) (event : ℕ) (s' : Switcher)
      → Packet.get_length m ≡ some end
      → end < 65536
      → length cs ≤ max_commands
      → AreCommands cs
      → Laid m begin cs end
      → parse_packet sequence m s ≡ some (event, s')
      → (bit event j == 1) ≡ is_raised j m begin cs
  unfolding parse_packet for_commands
  parse_packet_raises end cs s event s' own fits few are h e =
      walk_raises end cs max_commands begin 0 s event s' fits few are h (rw own at e)
      ∙ ap (λ b. (b == 1) || is_raised j m begin cs) (zero-bit j)

post_from-announce :
    (left j event id : ℕ) (m : Bytes) (cs : List Bytes) (log : List Effect)
    → ((j : ℕ) → (bit event j == 1) ≡ is_raised j m begin cs)
    → post_from left j event id log ≡ announce left j m cs id log
unfolding post_from announce
post_from-announce zero j event id m cs log h = refl
post_from-announce (suc left) j event id m cs log h =
    rw (nonzero-bit j event ∙ h j) (post_from-announce left (suc j) event id m cs _ h)

post_none : (left j id : ℕ) (log : List Effect) → post_from left j 0 id log ≡ log
unfolding post_from
post_none zero j id log = refl
post_none (suc left) j id log =
    let no_bit : nonzero (bit_and 0 (1 <<< j)) ≡ false = nonzero-bit j 0 ∙ rw (zero-bit j) refl in
    rw no_bit (post_none left (suc j) id log)

-- What is posted and what is kept of `event`, for the members `b` after the packet.
outcome :
    (m : Bytes) (cs : List Bytes) (event boot id : ℕ) (b : Atem) (boot' : ℕ) (a' : Atem)
    (active : Bool)
    → ((j : ℕ) → (bit event j == 1) ≡ is_raised j m begin cs)
    → ◌≡◌ {A = ℕ × Atem}
        (if not (event == 0) && active
          then (boot, post_events event id b)
          else (bit_or boot event, b))
        (boot', a')
    → (a'.log ≡ (if active then announce 32 0 m cs id b.log else b.log))
      × ((j : ℕ)
          → (bit boot' j == 1) ≡ ((bit boot j == 1) || (not active && is_raised j m begin cs)))
unfolding post_events
outcome m cs event boot id b boot' a' false h e =
    let kept : ◌≡◌ {A = ℕ × Atem} (bit_or boot event, b) (boot', a') =
      rw (and_false (not (event == 0))) at e in
    let log : b.log ≡ a'.log = ap (λ r. r.1.log) kept in
    (
      sym log,
      λ j.
          ap (λ r. bit r.0 j == 1) (sym kept)
          ∙ joined_bit j boot event
          ∙ ap (λ b. (bit boot j == 1) || b) (h j),
    )
outcome m cs event boot id b boot' a' true h e = elim (Bool-cases (event == 0)) [
  | inl empty ↦
      let zero_event : event ≡ 0 = (==_iff event 0).0 empty in
      let kept : ◌≡◌ {A = ℕ × Atem} (bit_or boot event, b) (boot', a') = rw empty at e in
      (
        ap (λ r. r.1.log) (sym kept)
            ∙ sym (post_none 32 0 id b.log)
            ∙ ap (λ x. post_from 32 0 x id b.log) (sym zero_event)
            ∙ post_from-announce 32 0 event id m cs b.log h,
        λ j.
            ap (λ r. bit r.0 j == 1) (sym kept)
            ∙ joined_bit j boot event
            ∙ ap (λ x. (bit boot j == 1) || (bit x j == 1)) zero_event
            ∙ ap (λ x. (bit boot j == 1) || (x == 1)) (zero-bit j),
      )
  | inr some_event ↦
      let both : ◌≡◌ {A = ℕ × Atem} (boot, post_events event id b) (boot', a') =
        rw some_event at e in
      (
        ap (λ r. r.1.log) (sym both) ∙ post_from-announce 32 0 event id m cs b.log h,
        λ j. ap (λ r. bit r.0 j == 1) (sym both) ∙ or_false (bit boot j == 1),
      )
]

-- A packet that is longer than a header and no answer to the handshake, where the lock is taken and
-- the parsing succeeds, with at most 512 commands that lie one behind the other: with an active
-- session, each event that one of its commands raises is posted once, in the order of the events
-- and with the packet's id, and no other event is. Before the session is active, nothing is posted
-- and these events join those that are kept. Which events they are depends on the packet only: a
-- command raises the event that include/atem.h documents for it, except that KeFS raises event 0
-- (ATEM_EVENT_AUX), though include/atem.h documents it under ATEM_EVENT_USK, that _MeC raises
-- ATEM_EVENT_TOPOLOGY, documented for _top only, and that MPfe raises its event only for a still,
-- and StRS only with a length of 12.
pub on_payload-announce :
    (w : World) (m : Bytes) (len boot : ℕ) (a : Atem) (flags id end : ℕ) (cs : List Bytes)
    (boot' : ℕ) (a' : Atem)
    → 12 < len
    → Packet.get_flags m ≡ some flags
    → nonzero (bit_and flags 0x2) ≡ false
    → Packet.get_id m ≡ some id
    → Packet.get_length m ≡ some end
    → end < 65536
    → length cs ≤ max_commands
    → AreCommands cs
    → Laid m begin cs end
    → on_payload w m len true boot a ≡ some (boot', a')
    → (a'.log ≡ (if is_active a.state then announce 32 0 m cs id a.log else a.log))
      × ((j : ℕ)
          → (bit boot' j == 1)
            ≡ ((bit boot j == 1) || (not (is_active a.state) && is_raised j m begin cs)))
unfolding on_payload
on_payload-announce w m len boot a flags id end cs boot' a' long hf data' hi own fits few are laid
      e =
    let ((event, s), f, g) =
      >>=-eq-some (parse_packet a.sequence m a.switcher) _
        (rw (hf, lt→ltb 12 len long, data', hi) at e) in
    outcome m cs event boot id (record a { switcher = s }) boot' a' (is_active a.state)
      (λ j. parse_packet_raises a.sequence m j end cs a.switcher event s own fits few are laid f)
      (cc g)
