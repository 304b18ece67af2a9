-- ===== src/Atem/Send.antt =====
-- `SendCommands`: what goes out, and when nothing does.
use native.Mathlib.Nat.{zero-add}
use atem_esp_idf.Prelude.{
  ℕ, ◌+◌, ◌/◌, ◌%◌, ◌≤◌, ◌<◌, ◌≡◌, refl, ap, ◌∙◌, true, false, Option, some, List, ◌∷◌, arith,
  length, set, length-set, get_elem?-set_ne, get_elem?-set_self, u8, ◌>>>◌, bit_or, ◌==◌, ==_self,
}
use atem_esp_idf.Buffer.{Bytes, load8, copy_from}
use atem_esp_idf.Buffer.Store.{store8-set}
use atem_esp_idf.State.{get}
use atem_esp_idf.Packet
use atem_esp_idf.Packet.Header.{create-fields, capped}
use atem_esp_idf.Packet.Layout.{copy_from-At, commands_of, commands_of-Laid}
use atem_esp_idf.Atem.Object.{Atem, Effect, sent}
use atem_esp_idf.Atem.Connection.{
  World, esp_ok, CommandObject, copy_commands, send_packet, send_commands, store_packet,
  next_local_id,
}
use atem_esp_idf.Atem.Assemble.{
  AreObjects, total_size, count, Prepared, total_length-eq, copy_commands-Assembles,
}

-- `SetId` keeps the first ten bytes, and is read back.
pub record SetsId (m : Bytes) (id : ℕ) (r : Option Bytes) : Type 0 where
  pub after : Bytes
  pub returns : r ≡ some after
  pub same_length : length after ≡ length m
  pub same : (j : ℕ) → j < 10 → load8 after j ≡ load8 m j
  pub high : load8 after 10 ≡ some (id / 256)
  pub low : load8 after 11 ≡ some (id % 256)

pub set_id-SetsId :
    (m : Bytes) (id : ℕ) → 12 ≤ length m → id < 65536 → SetsId m id (Packet.set_id m id)
unfolding Packet.set_id
set_id-SetsId m id big fits = record {
  after = after;
  returns =
      rw (store8-set m 10 (id >>> 8) (omega arith))
        (store8-set mid 11 id (omega (arith, mid_length)));
  same_length = length-set mid 11 (u8 id) ∙ mid_length;
  same = λ j h.
      get_elem?-set_ne mid 11 j (u8 id) (λ e. absurd (omega arith))
      ∙ get_elem?-set_ne m 10 j (u8 (id >>> 8)) (λ e. absurd (omega arith));
  high =
      get_elem?-set_ne mid 11 10 (u8 id) (λ e. absurd (omega arith))
      ∙ get_elem?-set_self m 10 (u8 (id >>> 8)) (omega arith)
      ∙ ap some (omega arith);
  low = get_elem?-set_self mid 11 (u8 id) (omega (arith, mid_length));
}
  where
    mid : Bytes
    mid = set m 10 (u8 (id >>> 8))

    mid_length : length mid ≡ length m
    mid_length = length-set m 10 (u8 (id >>> 8))

    after : Bytes
    after = set mid 11 (u8 id)

-- What `SendCommands` sends.
pub record Sends (a : Atem) (commands : List (Option CommandObject)) (packet : Bytes) : Type 0 where
  pub blocks : List Bytes
  pub parses : commands_of packet ≡ some blocks
  pub prepared : Prepared (get a.switcher.version) commands blocks
  pub flags : Packet.get_flags packet ≡ some 0x1
  pub length_read : Packet.get_length packet ≡ some (12 + total_size commands)
  pub session : Packet.get_session_id packet ≡ some a.session_id
  pub id : Packet.get_id packet ≡ some (next_local_id a)
  pub size : length packet ≡ 12 + total_size commands

-- The packet that `SendCommands` has filled before it sends.
pub record Fills (w : World) (a : Atem) (commands : List (Option CommandObject)) : Type 0 where
  pub created : Bytes
  pub with_id : Bytes
  pub packet : Bytes
  pub creates : Packet.create w.malloc 0x1 a.session_id (12 + total_size commands) ≡ some created
  pub sets : Packet.set_id created (next_local_id a) ≡ some with_id
  pub copies :
      copy_commands (get a.switcher.version) 12 with_id commands
      ≡ some (12 + total_size commands, packet)
  pub sends : Sends a commands packet

pub capped-eq : (n : ℕ) → 12 ≤ n → capped n ≡ n
capped-eq n h = ground arith

pub not_empty : (n : ℕ) → 12 < n → (n == 12) ≡ false
not_empty n h = ground arith

module _ (m m' : Bytes) (head : (j : ℕ) → j < 10 → load8 m' j ≡ load8 m j) where
  same_flags : Packet.get_flags m' ≡ Packet.get_flags m
  unfolding Packet.get_flags
  same_flags = rw (head 0 (omega arith)) refl

  pub same_length_field : Packet.get_length m' ≡ Packet.get_length m
  unfolding Packet.get_length
  same_length_field = rw (head 0 (omega arith), head 1 (omega arith)) refl

  same_session : Packet.get_session_id m' ≡ Packet.get_session_id m
  unfolding Packet.get_session_id
  same_session = rw (head 2 (omega arith), head 3 (omega arith)) refl

read_id :
    (m : Bytes) (id : ℕ)
    → load8 m 10 ≡ some (id / 256)
    → load8 m 11 ≡ some (id % 256)
    → Packet.get_id m ≡ some id
unfolding Packet.get_id
read_id m id high low = rw (high, low) (ap some (omega arith))

pub fill :
    (w : World) (a : Atem) (commands : List (Option CommandObject))
    → ((n : ℕ) → length (w.malloc n) ≡ n)
    → AreObjects commands
    → 12 + total_size commands < 2048
    → count commands ≤ 512
    → a.session_id < 65536
    → Fills w a commands
fill w a commands sizes objects small few session =
    let n : ℕ = 12 + total_size commands in
    let cap : capped n ≡ n = capped-eq n (omega arith) in
    let no_overflow : capped n / 2048 ≡ 0 = omega (arith, cap) in
    let kept : capped n % 2048 ≡ n = omega (arith, cap) in
    let c = create-fields w.malloc 0x1 a.session_id n sizes (omega arith) session (omega arith) in
    let i = set_id-SetsId c.0 (next_local_id a) (omega (arith, c.2, cap)) (omega arith) in
    let f =
      copy_commands-Assembles (get a.switcher.version) commands 12 i.after objects
        (omega (arith, c.2, cap, i.same_length)) (omega (arith, c.2, cap, i.same_length)) in
    let head : (j : ℕ) → j < 10 → load8 f.after j ≡ load8 c.0 j =
      λ j h. f.before j (omega arith) ∙ i.same j h in
    let length_read : Packet.get_length f.after ≡ some n =
      same_length_field c.0 f.after head ∙ c.3.length_read ∙ ap some kept in
    record {
      created = c.0;
      with_id = i.after;
      packet = f.after;
      creates = c.1;
      sets = i.returns;
      copies = f.returns;
      sends = record {
        blocks = f.blocks;
        parses =
            commands_of-Laid f.after f.blocks n length_read (omega arith) (omega (arith, f.as_many))
              f.are_commands f.laid;
        prepared = f.prepared;
        flags =
            same_flags c.0 f.after head
            ∙ c.3.flags_read
            ∙ ap (λ k. some (bit_or 0x1 k)) no_overflow;
        length_read = length_read;
        session = same_session c.0 f.after head ∙ c.3.session_read;
        id =
            read_id f.after (next_local_id a) (f.before 10 (omega arith) ∙ i.high)
              (f.before 11 (omega arith) ∙ i.low);
        size = omega (arith, f.same_length, i.same_length, c.2, cap);
      };
    }

-- Where the block of a packet is read by `send`, all of it is.
send_all :
    (w : World) (packet : Bytes) (a : Atem) (n : ℕ)
    → Packet.get_length packet ≡ some n
    → length packet ≡ n
    → w.send a.log packet ≡ some n
    → send_packet w packet a ≡ some (true, record a { log = sent packet ∷ a.log })
unfolding send_packet
send_all w packet a n e size all = rw (e, copied, all, ==_self n) refl
  where
    copied : copy_from packet 0 n ≡ some packet
    copied = rw (← size) (copy_from-At packet 0 packet (λ j h. ap (load8 packet) (zero-add j)))

-- `SendCommands` with commands that fit in 2047 bytes: one packet goes out with flag 1, the
-- session's id, the next local id and its length, and the iterator finds in it exactly the given
-- commands (those that are not `nullptr`), prepared for the version, in order. It is also kept in
-- `send_packets_`. This takes blocks of the sizes that are asked for, a `send` that takes all of
-- the packet, and the mutex.
pub send_commands-Sends :
    (w : World) (a : Atem) (commands : List (Option CommandObject))
    → ((n : ℕ) → length (w.malloc n) ≡ n)
    → ((log : List Effect) (data' : Bytes) → w.send log data' ≡ some (length data'))
    → AreObjects commands
    → 0 < total_size commands
    → 12 + total_size commands < 2048
    → count commands ≤ 512
    → a.session_id < 65536
    → (packet : Bytes) × Sends a commands packet
      × (send_commands w true commands a
          ≡ some (
            esp_ok,
            record a {
              local_id = next_local_id a;
              log = sent packet ∷ a.log;
              send_packets = store_packet packet a.send_packets;
            },
          ))
unfolding send_commands
send_commands-Sends w a commands sizes sending objects some_command small few session =
    let f = fill w a commands sizes objects small few session in
    (
      f.packet,
      f.sends,
      rw
          (
            total_length-eq commands 12 objects (omega arith),
            not_empty (12 + total_size commands) (omega arith),
            f.creates,
            f.sets,
            f.copies,
            ==_self (12 + total_size commands),
            send_all w f.packet (record a { local_id = next_local_id a }) (12 + total_size commands)
                f.sends.length_read f.sends.size (sending a.log f.packet ∙ ap some f.sends.size),
          )
          refl,
    )
