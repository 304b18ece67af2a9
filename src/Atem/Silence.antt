-- ===== src/Atem/Silence.antt =====
-- src/atem.cpp: the rounds of `task_` in which no packet comes.
use atem_esp_idf.Prelude.{
  ℕ, zero, suc, ◌+◌, ◌≡◌, ◌≤◌, ◌<◌, refl, ap, subst, ◌∙◌, true, false, Option, some, List, [], ◌∷◌,
  arith, length, ltb, lt→ltb, u8, u16, ◌>>>◌, ◌>>=◌,
}
use atem_esp_idf.Buffer.{Bytes, load8}
use atem_esp_idf.Packet
use atem_esp_idf.Packet.Header.{create-fields}
use atem_esp_idf.Atem.Object.{Atem, Effect, sent, active, Heap}
use atem_esp_idf.Atem.Getters.{is_active, is_connected}
use atem_esp_idf.Atem.Connection.{World, free_files, next_local_id}
use atem_esp_idf.Atem.Task.{Input, again, Task, on_timeout, round, int_max}
use atem_esp_idf.Atem.Sendable.{send_dropped_whole}
use atem_esp_idf.Atem.Reset.{IsReset, reconnect-IsReset}

-- The packet of a silent second: a header that asks for an ACK and acknowledges.
pub record IsPing (session ack id : ℕ) (p : Bytes) : Type 0 where
  pub size : length p ≡ 12
  pub flags_read : Packet.get_flags p ≡ some 0x11
  pub length_read : Packet.get_length p ≡ some 12
  pub session_read : Packet.get_session_id p ≡ some session
  pub ack_read : Packet.get_ack_id p ≡ some ack
  pub id_read : Packet.get_id p ≡ some id

-- `n` pings go out, each with the next local id.
abbrev pub Pings : ℕ → ℕ → ℕ → ℕ → List Effect → List Effect → Type 0
Pings session ack id zero log log' = log' ≡ log
Pings session ack id (suc n) log log' =
    (p : Bytes) × IsPing session ack (u16 (id + 1)) p
    × Pings session ack (u16 (id + 1)) n (sent p ∷ log) log'

-- Of the task, only the id, the effects and the count are new.
pub record Waits (n : ℕ) (t t' : Task) : Type 0 where
  pub pings : Pings t.atem.session_id t.atem.remote_id t.atem.local_id n t.atem.log t'.atem.log
  pub same : t' ≡ record t {
    atem = record t.atem { local_id = t'.atem.local_id; log = t'.atem.log };
    ack_count = t.ack_count + n;
  }

-- The rounds of the loop, one after the other.
abbrev pub run : World → List Input → Task → Option Task
run w [] t = some t
run w (input ∷ inputs) t = do t' ← round w input t; run w inputs t'

abbrev pub AreSilent : List Input → Type 0
AreSilent [] = Unit {0}
AreSilent (input ∷ inputs) = (input.peeked ≡ again) × AreSilent inputs

-- The two ids of the ping.
ids_written :
    (p : Bytes) (session id ack : ℕ)
    → length p ≡ 12
    → Packet.get_flags p ≡ some 0x11
    → Packet.get_length p ≡ some 12
    → Packet.get_session_id p ≡ some session
    → id < 65536
    → ack < 65536
    → (q : Bytes) × (Packet.set_id p id ≡ some q)
      × (p' : Bytes) × (Packet.set_ack_id q ack ≡ some p')
      × IsPing session ack id p'
unfolding Packet.set_id Packet.set_ack_id Packet.get_flags Packet.get_length Packet.get_session_id
    Packet.get_ack_id Packet.get_id
ids_written (b0 ∷ b1 ∷ b2 ∷ b3 ∷ b4 ∷ b5 ∷ b6 ∷ b7 ∷ b8 ∷ b9 ∷ b10 ∷ b11 ∷ []) session id ack size
      flags own is id_fits ack_fits =
    (
      b0 ∷ b1 ∷ b2 ∷ b3 ∷ b4 ∷ b5 ∷ b6 ∷ b7 ∷ b8 ∷ b9 ∷ u8 (id >>> 8) ∷ u8 id ∷ [],
      refl,
      b0 ∷ b1 ∷ b2 ∷ b3 ∷ u8 (ack >>> 8) ∷ u8 ack ∷ b6 ∷ b7 ∷ b8 ∷ b9 ∷ u8 (id >>> 8) ∷ u8 id ∷ [],
      refl,
      record {
        size = refl;
        flags_read = flags;
        length_read = own;
        session_read = is;
        ack_read = ap some (omega arith);
        id_read = ap some (omega arith);
      },
    )
ids_written p session id ack size flags own is id_fits ack_fits = absurd (omega arith)

-- The task after this ping.
abbrev pinged : Bytes → Task → Task
pinged p t = record t {
  atem = record t.atem { local_id = next_local_id t.atem; log = sent p ∷ t.atem.log };
  ack_count = t.ack_count + 1;
}

active-is_connected : (a : Atem) → a.state ≡ active → is_connected a ≡ true
unfolding is_connected is_active
active-is_connected a e = rw e refl

on_timeout-sends :
    (w : World) (t : Task) (m q p : Bytes)
    → t.atem.state ≡ active
    → ltb 4 t.ack_count ≡ false
    → Packet.create w.malloc 0x11 t.atem.session_id 12 ≡ some m
    → Packet.set_id m (next_local_id t.atem) ≡ some q
    → Packet.set_ack_id q t.atem.remote_id ≡ some p
    → Packet.get_length p ≡ some (length p)
    → on_timeout w t ≡ some (pinged p t)
unfolding on_timeout
on_timeout-sends w t m q p is early em eq ep own =
    rw
      (
        early,
        active-is_connected t.atem is,
        em,
        eq,
        ep,
        send_dropped_whole w p (record t.atem { local_id = next_local_id t.atem }) own,
      )
      refl

module _ (w : World) (sizes : (n : ℕ) → length (w.malloc n) ≡ n) where
  on_timeout-pinged :
      (t : Task)
      → t.atem.state ≡ active
      → t.ack_count ≤ 4
      → t.atem.session_id < 65536
      → t.atem.remote_id < 65536
      → (p : Bytes) × IsPing t.atem.session_id t.atem.remote_id (next_local_id t.atem) p
        × (on_timeout w t ≡ some (pinged p t))
  on_timeout-pinged t is few session_fits remote_fits =
      let c =
        create-fields w.malloc 0x11 t.atem.session_id 12 sizes (omega arith) session_fits
          (omega arith) in
      let (q, eq, p, ep, ping) =
        ids_written c.0 t.atem.session_id (next_local_id t.atem) t.atem.remote_id c.2 c.3.flags_read
          c.3.length_read c.3.session_read (omega arith) remote_fits in
      (
        p,
        ping,
        on_timeout-sends w t c.0 q p is (ground arith) c.1 eq ep
            (ping.length_read ∙ ap some (omega (arith, ping.size))),
      )

  run-Waits :
      (inputs : List Input) (t : Task)
      → AreSilent inputs
      → t.atem.state ≡ active
      → t.ack_count + length inputs ≤ 5
      → t.atem.session_id < 65536
      → t.atem.remote_id < 65536
      → (t' : Task) × (run w inputs t ≡ some t') × Waits (length inputs) t t'
  unfolding round
  run-Waits [] t silent is few session_fits remote_fits =
      (t, refl, record { pings = refl; same = ap (λ n. record t { ack_count = n }) (omega arith) })
  run-Waits (input ∷ inputs) t (silent, rest) is few session_fits remote_fits =
      let (p, ping, e) = on_timeout-pinged t is (omega arith) session_fits remote_fits in
      let (t', f, more) =
        run-Waits inputs (pinged p t) rest is (omega arith) session_fits remote_fits in
      (
        t',
        rw (silent, e) f,
        record {
          pings = (p, ping, more.pings);
          same =
              more.same
              ∙ ap
                  (λ n. record t {
                    atem = record t.atem { local_id = t'.atem.local_id; log = t'.atem.log };
                    ack_count = n;
                  })
                  (omega arith);
        },
      )

  -- A task with an active session that has just got a packet and then hears nothing: each of five
  -- silent rounds sends one ping, which asks for an ACK, acknowledges the last id that came, and has
  -- the session's id and the next local id; nothing else changes but the count. The sixth silent
  -- round resets the client, which is then not connected, and sets the count to the largest `int`.
  -- Here `malloc` returns blocks of the size asked for, the ids have 16 bits, and the stills' names
  -- can be freed.
  pub silence-IsReset :
      (t : Task) (inputs : List Input) (last : Input) (first : ℕ) (heap : Heap)
      → t.atem.state ≡ active
      → t.ack_count ≡ 0
      → t.atem.session_id < 65536
      → t.atem.remote_id < 65536
      → AreSilent inputs
      → length inputs ≡ 5
      → last.peeked ≡ again
      → load8 t.atem.switcher.product_id 0 ≡ some first
      → free_files t.atem.switcher.media_player_file t.atem.switcher.heap ≡ some heap
      → (t5 t' : Task) × (run w inputs t ≡ some t5)
        × Waits 5 t t5
        × (round w last t5 ≡ some t')
        × IsReset t'.atem
        × (t'.ack_count ≡ int_max)
  unfolding round on_timeout
  silence-IsReset t inputs last first heap is quiet session_fits remote_fits silent five hush named
        freed =
      let (t5, e, waits) = run-Waits inputs t silent is (omega arith) session_fits remote_fits in
      let same : t5.atem.switcher ≡ t.atem.switcher = ap (λ t. t.atem.switcher) waits.same in
      let counted : t5.ack_count ≡ t.ack_count + length inputs = ap (λ t. t.ack_count) waits.same in
      let late : ltb 4 t5.ack_count ≡ true = lt→ltb 4 t5.ack_count (omega arith) in
      let (a, f, reset) =
        reconnect-IsReset w t5.atem first heap sizes (rw same named) (rw same freed) in
      (
        t5,
        record t5 { atem = a; ack_count = int_max },
        e,
        subst (λ n. Waits n t t5) five waits,
        rw (hush, late, f) refl,
        reset,
        refl,
      )
