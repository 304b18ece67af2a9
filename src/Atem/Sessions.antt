-- ===== src/Atem/Sessions.antt =====
-- The copy of the switcher's state over any number of sessions, each ended by `Reconnect_`.
use atem_esp_idf.Prelude.{
  ℕ, suc, ◌≡◌, refl, Option, some, List, [], ◌∷◌, arith, length, get_elem?_in, ◌>>=◌,
}
use atem_esp_idf.Sequence.{SequenceCheck}
use atem_esp_idf.Atem.Object.{Atem, Heap, cleared}
use atem_esp_idf.Atem.Connection.{World, free_files, reconnect}
use atem_esp_idf.Atem.Frame.{send_dropped-Keeps}
use atem_esp_idf.Atem.Reset.{IsReset, reconnect-IsReset}
use atem_esp_idf.Atem.Owned.{live}
use atem_esp_idf.Atem.Owned.Session.{Packets, parse_packets, AreInOrder, session-frees}
use atem_esp_idf.Atem.Typed.{of_product}
use atem_esp_idf.Atem.Typed.Packets.{ArePackets, session-IsTyped}

-- The state is empty, and no block of a name is live.
pub record IsEmpty (a : Atem) : Type 0 where
  pub heap : Heap
  pub empty : a.switcher ≡ cleared heap
  pub none_live : (k : ℕ) → live (suc k) heap ≡ 0

-- What a session does to the state, and `Reconnect_`.
abbrev pub session : World → Packets → Atem → Option Atem
session w packets a = do
  s ← parse_packets packets a.switcher
  reconnect w (record a { switcher = s })

abbrev pub sessions : World → List Packets → Atem → Option Atem
sessions w [] a = some a
sessions w (packets ∷ rest) a = do a' ← session w packets a; sessions w rest a'

-- Packets of bytes in the order of their ids, that have what their cases read.
pub record IsSession (packets : Packets) : Type 0 where
  pub before : SequenceCheck
  pub in_order : AreInOrder before packets
  pub of_bytes : ArePackets packets

abbrev pub AreSessions : List Packets → Type 0
AreSessions [] = Unit {0}
AreSessions (packets ∷ rest) = IsSession packets × AreSessions rest

module _ (w : World) (sizes : (n : ℕ) → length (w.malloc n) ≡ n) where
  reconnect_cleared :
      (a a' : Atem) (heap : Heap)
      → free_files a.switcher.media_player_file a.switcher.heap ≡ some heap
      → reconnect w a ≡ some a'
      → a'.switcher ≡ cleared heap
  unfolding reconnect
  reconnect_cleared a a' heap f e = grind (arith, send_dropped-Keeps)

  session_ends :
      (packets : Packets) (a : Atem)
      → IsSession packets
      → IsEmpty a
      → (a' : Atem) × (session w packets a ≡ some a') × IsReset a' × IsEmpty a'
  session_ends packets a h e =
      let (s, parsed, (heap', freed, gone)) =
        session-frees h.before packets e.heap e.none_live h.in_order in
      let typed = session-IsTyped packets e.heap s h.of_bytes parsed in
      let (first, named) = get_elem?_in s.product_id 0 (omega (arith, (typed of_product).0)) in
      let (a', connects, reset) =
        reconnect-IsReset w (record a { switcher = s }) first heap' sizes named freed in
      (
        a',
        rw (e.empty, parsed) connects,
        reset,
        record {
          heap = heap';
          empty = reconnect_cleared (record a { switcher = s }) a' heap' freed connects;
          none_live = gone;
        },
      )

  -- Any number of sessions, from an empty state: the packets of each are parsed without a fault, and
  -- each `Reconnect_` after them is defined and leaves an empty state. So no name of a still is
  -- freed twice, and no block of one is lost. In a session the packets hold bytes and come in the
  -- order of their ids, of 15 bits; each of their commands has the bytes that its case reads.
  -- `malloc` returns blocks of the size asked for.
  pub sessions-IsEmpty :
      (all : List Packets) (a : Atem)
      → AreSessions all
      → IsEmpty a
      → (a' : Atem) × (sessions w all a ≡ some a') × IsEmpty a'
  sessions-IsEmpty [] a h e = (a, refl, e)
  sessions-IsEmpty (packets ∷ rest) a h e =
      let (a1, ends, _, empty) = session_ends packets a h.0 e in
      let (a', go, last) = sessions-IsEmpty rest a1 h.1 empty in (a', rw ends go, last)
