-- ===== src/Atem/Overflow.antt =====
-- `SendCommands` with more commands than its 16-bit length can count.
use native.Mathlib.Nat.{zero-add}
use atem_esp_idf.Prelude.{
  ℕ, zero, suc, ◌+◌, ◌%◌, ◌≡◌, ◌≢◌, ◌≤◌, ◌<◌, refl, ap, ◌∙◌, Bool, false, Option, none, some, List,
  [], ◌∷◌, arith, length, ◌==◌, Bool-cases, inl, inr, u8, u16, leb, set, length-set,
}
use atem_esp_idf.Buffer.{Bytes, load8, store8, copy_to, copy_from}
use atem_esp_idf.Buffer.Store.{copy_to-Copies, store8-set}
use atem_esp_idf.Types.{ProtocolVersion}
use atem_esp_idf.State.{get}
use atem_esp_idf.Command
use atem_esp_idf.Packet.Header.{capped, create-fields}
use atem_esp_idf.Packet.Layout.{copy_from-At}
use atem_esp_idf.Command.WellFormed.{size_of}
use atem_esp_idf.Atem.Object.{Atem}
use atem_esp_idf.Atem.Connection.{
  World, CommandObject, total_length, copy_commands, send_commands, next_local_id,
}
use atem_esp_idf.Atem.Assemble.{
  AreObjects, total_size, header-length, Prepares, prepare, size_of-le,
}
use atem_esp_idf.Atem.Send.{set_id-SetsId}

total_length-mod :
    (os : List (Option CommandObject)) (n : ℕ)
    → AreObjects os
    → n < 65536
    → total_length n os ≡ some ((n + total_size os) % 65536)
unfolding total_length Command.get_length
total_length-mod [] n h fits = ap some (omega arith)
total_length-mod (none ∷ os) n h fits = total_length-mod os n h fits
total_length-mod (some o ∷ os) n h fits =
    rw (header-length h.0.header)
      (total_length-mod os (u16 (n + size_of o.command)) h.1 (omega arith) ∙ ap some (omega arith))

store8_past : (m : Bytes) (i v : ℕ) → length m ≤ i → store8 m i v ≡ none
store8_past [] i v h = refl
store8_past (b ∷ m) zero v h = absurd (omega arith)
store8_past (b ∷ m) (suc i) v h = rw (store8_past m i v (omega arith)) refl

copy_to_past :
    (bs m : Bytes) (i : ℕ) → 0 < length bs → length m < i + length bs → copy_to m i bs ≡ none
copy_to_past [] m i some_byte h = absurd (omega arith)
copy_to_past (b ∷ []) m i some_byte h = rw (store8_past m i b (omega arith)) refl
copy_to_past (b ∷ c ∷ bs) m i some_byte h = elim (Bool-cases (leb (length m) i)) [
  | inl past ↦ rw (store8_past m i b (ground arith)) refl
  | inr inside ↦ rw (store8-set m i b (ground arith)) (
      copy_to_past (c ∷ bs) (set m i (u8 b)) (suc i) (omega arith)
        (omega (arith, length-set m i (u8 b))))
]

size_of-pos : {ver : ProtocolVersion} {o : CommandObject} (p : Prepares ver o) → 8 ≤ length p.block
size_of-pos {o = o} p = omega (arith, p.size, size_of-le o.command)

-- The second loop writes past the end of a packet that is too short for its commands.
copy_commands_past :
    (ver : ProtocolVersion) (os : List (Option CommandObject)) (i : ℕ) (packet : Bytes)
    → AreObjects os
    → i ≤ length packet
    → length packet < 65536
    → length packet < i + total_size os
    → copy_commands ver i packet os ≡ none
unfolding copy_commands Command.get_length
copy_commands_past ver [] i packet h inside small past = absurd (omega arith)
copy_commands_past ver (none ∷ os) i packet h inside small past =
    copy_commands_past ver os i packet h inside small past
copy_commands_past ver (some o ∷ os) i packet h inside small past =
    let p = prepare ver o h.0 in
    let copied : copy_from p.block 0 (size_of o.command) ≡ some p.block =
      rw (← p.size) (copy_from-At p.block 0 p.block (λ j h. ap (load8 p.block) (zero-add j))) in
    elim (Bool-cases (leb (i + size_of o.command) (length packet))) [
      | inl fits ↦
          let c = copy_to-Copies p.block packet i (ground (arith, p.size)) p.bytes in
          let step : u16 (i + size_of o.command) ≡ i + size_of o.command = ground arith in
          rw (p.returns, p.own_length, copied, c.returns, step)
            (copy_commands_past ver os (i + size_of o.command) c.after h.1
              (ground (arith, c.same_length)) (omega (arith, c.same_length))
              (omega (arith, c.same_length)))
      | inr over ↦
          rw
            (
              p.returns,
              p.own_length,
              copied,
              copy_to_past p.block packet i (omega (arith, size_of-pos p)) (ground (arith, p.size)),
            )
            refl
    ]

-- `SendCommands` with commands, as their constructors leave them, whose length and the header's do
-- not fit 16 bits writes past the end of its block, unless the length that is left of them is that
-- of an empty packet. `malloc` returns blocks of the size asked for, and the session id has 16 bits.
pub send_commands_overflow :
    (w : World) (locked : Bool) (a : Atem) (commands : List (Option CommandObject))
    → ((n : ℕ) → length (w.malloc n) ≡ n)
    → AreObjects commands
    → 65536 ≤ 12 + total_size commands
    → (12 + total_size commands) % 65536 ≢ 12
    → a.session_id < 65536
    → send_commands w locked commands a ≡ none
unfolding send_commands
send_commands_overflow w locked a commands sizes objects many not_twelve session =
    let n : ℕ = (12 + total_size commands) % 65536 in
    let c = create-fields w.malloc 0x1 a.session_id n sizes (omega arith) session (omega arith) in
    let cap : capped n < 65536 = ground arith in
    let least : 12 ≤ capped n = ground arith in
    let i = set_id-SetsId c.0 (next_local_id a) (omega (arith, c.2)) (omega arith) in
    let not_empty : (n == 12) ≡ false = ground arith in
    rw
      (
        total_length-mod commands 12 objects (omega arith),
        not_empty,
        c.1,
        i.returns,
        copy_commands_past (get a.switcher.version) commands 12 i.after objects
            (omega (arith, c.2, i.same_length)) (omega (arith, c.2, i.same_length))
            (omega (arith, c.2, i.same_length)),
      )
      refl
