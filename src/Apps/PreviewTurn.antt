-- ===== src/Apps/PreviewTurn.antt =====
-- What one round of the preview switcher's loop sends.
use atem_esp_idf.Prelude.{
  ℕ, ◌+◌, ◌≡◌, ◌⊎◌, ◌<◌, refl, ap, ◌∙◌, Bool, true, false, some, [], ◌∷◌, arith, length, u8, u16,
  ◌>>>◌, inl, inr, Bool-cases, subst,
}
use atem_esp_idf.Buffer.{Bytes, AreBytes}
use atem_esp_idf.Types.{Source}
use atem_esp_idf.Packet
use atem_esp_idf.Packet.Layout.{commands_of}
use atem_esp_idf.Command
use atem_esp_idf.Command.Classes.{preview_input, construct, prepair_command}
use atem_esp_idf.Command.Stores.{HasHeader}
use atem_esp_idf.Command.WellFormed.{construct-HasHeader}
use atem_esp_idf.Atem.Object.{Atem, find, sent}
use atem_esp_idf.Atem.Getters.{is_connected, get_preview_input}
use atem_esp_idf.Atem.Connection.{World, CommandObject, next_local_id}
use atem_esp_idf.Atem.Assemble.{IsObject}
use atem_esp_idf.Atem.Outcome.{takes, outcome, send_commands-outcome}
use atem_esp_idf.Apps.PreviewSwitcher.{black, is_some, next_source, turn}

-- "CPvI": the length, the name, the mix effect and the source.
abbrev pub preview_block : ℕ → ℕ → Source → ℕ → ℕ → Bytes
preview_block unused2 unused3 source me unused9 =
    0
    ∷ 12
    ∷ unused2
    ∷ unused3
    ∷ b'C'
    ∷ b'P'
    ∷ b'v'
    ∷ b'I'
    ∷ u8 me
    ∷ unused9
    ∷ u8 (source >>> 8)
    ∷ u8 source
    ∷ []

-- A block of `PreviewInput(source, me)`, whatever the bytes that are never written hold.
abbrev pub IsPreview : Source → ℕ → Bytes → Type 0
IsPreview source me block =
    (i : ℕ) × (j : ℕ) × (k : ℕ) × (block ≡ preview_block i j source me k) × AreBytes block

construct-IsPreview :
    (malloc : ℕ → Bytes) (source me : ℕ) (m : Bytes)
    → malloc 12 ≡ m
    → length m ≡ 12
    → AreBytes m
    → (block : Bytes) × (construct malloc (preview_input source me) ≡ some block)
      × IsPreview source me block
unfolding construct Command.create
construct-IsPreview malloc source me
      (b0 ∷ b1 ∷ b2 ∷ b3 ∷ b4 ∷ b5 ∷ b6 ∷ b7 ∷ b8 ∷ b9 ∷ b10 ∷ b11 ∷ []) e size bytes =
    rw e (preview_block b2 b3 source me b9, refl, (b2, b3, b9, refl, omega (arith, bytes)))
construct-IsPreview malloc source me m e size bytes = absurd (omega arith)

abbrev preview_object : Source → Bytes → CommandObject
preview_object source block = record { command = preview_input source 0; block = block }

-- The object that `new PreviewInput(source, 0)` leaves.
record Constructs (w : World) (source : Source) : Type 0 where
  block : Bytes
  returns : construct w.malloc (preview_input source 0) ≡ some block
  is_preview : IsPreview source 0 block
  is_object : IsObject (preview_object source block)

-- What a round does that sends: the packet's only command previews the next source on the first
-- mix effect.
pub record Previews (w : World) (send_locked : Bool) (source current : Source) (a : Atem)
    : Type 0 where
  pub packet : Bytes
  pub block : Bytes
  pub parses : commands_of packet ≡ some (block ∷ [])
  pub is_preview : IsPreview (next_source current a) 0 block
  pub flags : Packet.get_flags packet ≡ some 0x1
  pub session : Packet.get_session_id packet ≡ some a.session_id
  pub id : Packet.get_id packet ≡ some (next_local_id a)
  pub next_is :
      ((next_source current a ≡ u16 (current + 1))
        × (is_some (find (u16 (current + 1)) a.switcher.input_properties) ≡ true))
      ⊎ ((next_source current a ≡ black)
          × (is_some (find (u16 (current + 1)) a.switcher.input_properties) ≡ false))
  pub turns :
      turn w true send_locked source a
      ≡ some (
        next_source current a,
        (outcome
            (takes (w.send a.log packet) 24)
            send_locked
            packet
            (record a { local_id = next_local_id a; log = sent packet ∷ a.log })).1,
      )

next_source-cases :
    (current : Source) (a : Atem)
    → ((next_source current a ≡ u16 (current + 1))
        × (is_some (find (u16 (current + 1)) a.switcher.input_properties) ≡ true))
      ⊎ ((next_source current a ≡ black)
          × (is_some (find (u16 (current + 1)) a.switcher.input_properties) ≡ false))
unfolding next_source
next_source-cases current a =
    elim (Bool-cases (is_some (find (u16 (current + 1)) a.switcher.input_properties))) [
      | inl t ↦ inl (rw t refl, t)
      | inr f ↦ inr (rw f refl, f)
    ]

module _ (w : World) (sizes : (n : ℕ) → length (w.malloc n) ≡ n)
    (bytes : (n : ℕ) → AreBytes (w.malloc n)) where
  constructs : (source : Source) → Constructs w source
  constructs source =
      let (block, e, p) =
        construct-IsPreview w.malloc source 0 (w.malloc 12) refl (sizes 12) (bytes 12) in
      let (m, f, h) = construct-HasHeader w.malloc sizes (preview_input source 0) in
      let same : m ≡ block = cc in
      record {
        block = block;
        returns = e;
        is_preview = p;
        is_object = record {
          header = subst (HasHeader 12 (b'C', b'P', b'v', b'I')) same h;
          bytes = p.4;
        };
      }

  -- A round of the switcher's loop that is connected, gets the state's mutex and knows the current
  -- preview sends one packet, of the session, whose only command sets the preview of the first mix
  -- effect: to the source with the next number if the switcher has one, and else to black. The loop
  -- goes on with that source, and the members are those of `SendCommands`. Here `malloc` returns
  -- bytes, as many as it is asked for, and the session id has 16 bits.
  pub turn_lem :
      (send_locked : Bool) (source current : Source) (a : Atem)
      → is_connected a ≡ true
      → get_preview_input a.switcher 0 ≡ some current
      → a.session_id < 65536
      → Previews w send_locked source current a
  unfolding turn prepair_command
  turn_lem send_locked source current a connected known session =
      let c = constructs (next_source current a) in
      let object = preview_object (next_source current a) c.block in
      let (packet, sends, e) =
        send_commands-outcome w send_locked a (some object ∷ []) sizes (c.is_object, tt)
          (omega arith) (omega arith) (omega arith) session in
      let (b, rest, blocks, prepared, empty) = sends.prepared in
      let only : sends.blocks ≡ c.block ∷ [] = cc in
      record {
        packet = packet;
        block = c.block;
        parses = sends.parses ∙ ap some only;
        is_preview = c.is_preview;
        flags = sends.flags;
        session = sends.session;
        id = sends.id;
        next_is = next_source-cases current a;
        turns = rw (connected, known, c.returns, e) refl;
      }
