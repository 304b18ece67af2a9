-- ===== src/Atem/Assemble.antt =====
-- The loops of `SendCommands`: the packet that they fill holds the prepared commands in order.
use native.Mathlib.Nat.{zero-add, add-zero}
use atem_esp_idf.Prelude.{
  ℕ, suc, ◌+◌, ◌≤◌, ◌<◌, ◌≡◌, refl, ap, sym, subst, ◌∙◌, Option, none, some, List, [], ◌∷◌, arith,
  length, leb, ◌&&◌, Bool-cases, u16, inl, inr,
}
use atem_esp_idf.Buffer.{Bytes, load8, load16, copy_to, copy_from, AreBytes}
use atem_esp_idf.Buffer.Inside.{store8-AreBytes}
use atem_esp_idf.Buffer.Store.{Copies, copy_to-Copies}
use atem_esp_idf.Types.{ProtocolVersion}
use atem_esp_idf.Command
use atem_esp_idf.Command.Classes.{Command, dsk_auto, prepair_command}
use atem_esp_idf.Command.Stores.{HasHeader}
use atem_esp_idf.Command.WellFormed.{size_of, name_of, prepair_command-HasHeader}
use atem_esp_idf.Packet.Layout.{At, Laid, AreCommands, copy_from-At}
use atem_esp_idf.Atem.Connection.{CommandObject, total_length, copy_commands}

-- A command object as its class's constructor leaves it.
pub record IsObject (o : CommandObject) : Type 0 where
  pub header : HasHeader (size_of o.command) (name_of o.command) o.block
  pub bytes : AreBytes o.block

abbrev pub AreObjects : List (Option CommandObject) → Type 0
AreObjects [] = Unit {0}
AreObjects (none ∷ os) = AreObjects os
AreObjects (some o ∷ os) = IsObject o × AreObjects os

-- The bytes of the commands that are not `nullptr`, and their number.
abbrev pub total_size : List (Option CommandObject) → ℕ
total_size [] = 0
total_size (none ∷ os) = total_size os
total_size (some o ∷ os) = size_of o.command + total_size os

abbrev pub count : List (Option CommandObject) → ℕ
count [] = 0
count (none ∷ os) = count os
count (some o ∷ os) = suc (count os)

-- The blocks are those of the commands that are not `nullptr`, prepared for the version.
abbrev pub Prepared : ProtocolVersion → List (Option CommandObject) → List Bytes → Type 0
Prepared ver [] bs = bs ≡ []
Prepared ver (none ∷ os) bs = Prepared ver os bs
Prepared ver (some o ∷ os) bs =
    (b : Bytes) × (rest : List Bytes) × (bs ≡ b ∷ rest)
    × (prepair_command o.command ver o.block ≡ some b)
    × Prepared ver os rest

prepair_command-AreBytes :
    (c : Command) (ver : ProtocolVersion) (m m' : Bytes)
    → AreBytes m
    → prepair_command c ver m ≡ some m'
    → AreBytes m'
unfolding prepair_command
prepair_command-AreBytes (dsk_auto keyer) ver m m' h e =
    elim (Bool-cases (leb ver.major 2 && leb ver.minor 27)) [
      | inl t ↦ store8-AreBytes m 8 keyer m' h (rw t at e)
      | inr t ↦ store8-AreBytes m 9 keyer m' h (rw t at e)
    ]
prepair_command-AreBytes _ ver m m' h e = let same : m ≡ m' = cc in subst AreBytes same h

pub header-length :
    {n : ℕ} {name : ℕ × ℕ × ℕ × ℕ} {m : Bytes} → HasHeader n name m → load16 m 0 ≡ some n
header-length {n} h = rw (h.length_high, h.length_low) (ap some (omega arith))

pub size_of-le : (c : Command) → 8 ≤ size_of c
size_of-le (dsk_auto _) = omega arith
size_of-le _ = omega arith

-- A prepared command.
pub record Prepares (ver : ProtocolVersion) (o : CommandObject) : Type 0 where
  pub block : Bytes
  pub returns : prepair_command o.command ver o.block ≡ some block
  pub bytes : AreBytes block
  pub size : length block ≡ size_of o.command
  pub own_length : load16 block 0 ≡ some (size_of o.command)

pub prepare : (ver : ProtocolVersion) (o : CommandObject) → IsObject o → Prepares ver o
prepare ver o h =
    let r = prepair_command-HasHeader o.command ver o.block h.header in
    record {
      block = r.0;
      returns = r.1;
      bytes = prepair_command-AreBytes o.command ver o.block r.0 h.bytes r.1;
      size = r.2.size;
      own_length = header-length r.2;
    }

pub total_length-eq :
    (os : List (Option CommandObject)) (n : ℕ)
    → AreObjects os
    → n + total_size os < 65536
    → total_length n os ≡ some (n + total_size os)
unfolding total_length Command.get_length
total_length-eq [] n h fits = ap some (omega arith)
total_length-eq (none ∷ os) n h fits = total_length-eq os n h fits
total_length-eq (some o ∷ os) n h fits =
    let step : u16 (n + size_of o.command) ≡ n + size_of o.command = omega arith in
    rw (header-length h.0.header, step)
      (total_length-eq os (n + size_of o.command) h.1 (omega arith) ∙ ap some (omega arith))

-- What the second loop leaves of a packet, from offset `i`.
pub record Assembles (ver : ProtocolVersion) (i : ℕ) (packet : Bytes)
    (os : List (Option CommandObject)) (r : Option (ℕ × Bytes)) : Type 0 where
  pub after : Bytes
  pub blocks : List Bytes
  pub returns : r ≡ some (i + total_size os, after)
  pub same_length : length after ≡ length packet
  pub prepared : Prepared ver os blocks
  pub laid : Laid after i blocks (i + total_size os)
  pub are_commands : AreCommands blocks
  pub as_many : length blocks ≡ count os
  pub before : (j : ℕ) → j < i → load8 after j ≡ load8 packet j

Assembles-some :
    (ver : ProtocolVersion) (i : ℕ) (packet : Bytes) (o : CommandObject)
    (os : List (Option CommandObject)) (p : Prepares ver o)
    → i + (size_of o.command + total_size os) ≤ length packet
    → length packet < 65536
    → (c : Copies packet i p.block (copy_to packet i p.block))
    → Assembles ver
        (i + size_of o.command)
        c.after
        os
        (copy_commands ver (i + size_of o.command) c.after os)
    → Assembles ver i packet (some o ∷ os) (copy_commands ver i packet (some o ∷ os))
unfolding copy_commands Command.get_length
Assembles-some ver i packet o os p fits small c r = record {
  after = r.after;
  blocks = p.block ∷ r.blocks;
  returns =
      rw (p.returns, p.own_length, copied, c.returns, step)
        (r.returns ∙ ap (λ k. some (k, r.after)) sum);
  same_length = r.same_length ∙ c.same_length;
  prepared = (p.block, r.blocks, refl, p.returns, r.prepared);
  laid = (here, rw (p.size, ← sum) r.laid);
  are_commands = (
    record {
      has_length = omega (arith, p.size, size_of-le o.command);
      own_length = rw p.size p.own_length;
    },
    r.are_commands,
  );
  as_many = ap suc r.as_many;
  before = λ j h. r.before j (omega arith) ∙ c.outside j (inl h);
}
  where
    sum : i + size_of o.command + total_size os ≡ i + (size_of o.command + total_size os)
    sum = omega arith

    step : u16 (i + size_of o.command) ≡ i + size_of o.command
    step = omega arith

    copied : copy_from p.block 0 (size_of o.command) ≡ some p.block
    copied = rw (← p.size) (copy_from-At p.block 0 p.block (λ j h. ap (load8 p.block) (zero-add j)))

    here : At r.after i p.block
    here j h = r.before (i + j) (omega (arith, p.size)) ∙ c.inside j h

-- The second loop of `SendCommands`, on commands as their constructors leave them and a packet
-- with room for them, succeeds: from the offset on the packet holds the prepared commands in order,
-- and the bytes before it and the packet's length stay.
pub copy_commands-Assembles :
    (ver : ProtocolVersion) (os : List (Option CommandObject)) (i : ℕ) (packet : Bytes)
    → AreObjects os
    → i + total_size os ≤ length packet
    → length packet < 65536
    → Assembles ver i packet os (copy_commands ver i packet os)
unfolding copy_commands
copy_commands-Assembles ver [] i packet h fits small = record {
  after = packet;
  blocks = [];
  returns = ap (λ k. some (k, packet)) (sym (add-zero i));
  same_length = refl;
  prepared = refl;
  laid = sym (add-zero i);
  are_commands = tt;
  as_many = refl;
  before = λ j h. refl;
}
copy_commands-Assembles ver (none ∷ os) i packet h fits small =
    let r = copy_commands-Assembles ver os i packet h fits small in
    record {
      after = r.after;
      blocks = r.blocks;
      returns = r.returns;
      same_length = r.same_length;
      prepared = r.prepared;
      laid = r.laid;
      are_commands = r.are_commands;
      as_many = r.as_many;
      before = r.before;
    }
copy_commands-Assembles ver (some o ∷ os) i packet h fits small =
    let p = prepare ver o h.0 in
    let c = copy_to-Copies p.block packet i (omega (arith, p.size)) p.bytes in
    Assembles-some ver i packet o os p fits small c (
      copy_commands-Assembles ver os (i + size_of o.command) c.after h.1
        (omega (arith, c.same_length)) (omega (arith, c.same_length)))
