-- ===== src/State/Order.antt =====
-- How `AtemState::Set` orders changes: by the `int16_t` order of packet ids.
use atem_esp_idf.Prelude.{◌≤◌, ◌<◌, ◌≡◌, ◌≢◌, ◌⊎◌, true, false, arith, bias}
use atem_esp_idf.Sequence.{SequenceCheck}
use atem_esp_idf.State.{AtemState, unset, set, put, is_valid}

module _ {T : Type 0} where
  -- Changes by packets of different ids end in the same object in whatever order they come.
  pub put_comm :
      (a : AtemState T) (p q : SequenceCheck) (v w : T)
      → p.last_id < 65536
      → q.last_id < 65536
      → p.last_id ≢ q.last_id
      → put (put a p v) q w ≡ put (put a q w) p v
  unfolding put set
  put_comm a p q v w hp hq ne = ground arith

  -- `Set` takes the value exactly if the packet's id is not below the id of the last change, as
  -- `int16_t` numbers; then the object holds the value and that id, and else it stays.
  pub set_lem :
      (a : AtemState T) (p : SequenceCheck) (v : T)
      → ((set a p v).0 ≡ true
          × (bias a.last_change_id ≤ bias p.last_id)
          × (set a p v).1.state ≡ v
          × (set a p v).1.last_change_id ≡ p.last_id)
        ⊎ ((set a p v).0 ≡ false × (bias p.last_id < bias a.last_change_id) × (set a p v).1 ≡ a)
  unfolding set
  set_lem a p v = ground arith

  -- An object that is not set yet takes any value, and is valid after a packet with a 15-bit id.
  pub set-unset :
      (d v : T) (p : SequenceCheck)
      → p.last_id < 32768
      → ((set (unset d) p v).0 ≡ true) × (is_valid (set (unset d) p v).1 ≡ true)
  unfolding set is_valid
  set-unset d v p h = ground arith
