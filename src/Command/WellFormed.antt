-- ===== src/Command/WellFormed.antt =====
-- Every command class builds a block with its declared length and name.
use atem_esp_idf.Prelude.{
  ℕ, ◌≤◌, ◌<◌, ◌≡◌, refl, some, [], ◌∷◌, of_bool, arith, length, leb, ◌&&◌, Bool-cases, inl, inr,
}
use atem_esp_idf.Buffer.{Bytes}
use atem_esp_idf.Types.{key_frame_value, ProtocolVersion}
use atem_esp_idf.Command
use atem_esp_idf.Command.Classes.{
  Command, auto, aux_input, capture_still, cut, dsk_auto, dsk_on_air, dsk_fill, dsk_key, dsk_tie,
  fade_to_black, media_player_source, usk_dve_key_frame_properties, usk_dve_run_flying_key,
  usk_dve_properties, usk_fill, usk_type, usk_on_air, preview_input, program_input,
  save_startup_state, stream, transition_position, transition_state, construct, prepair_command,
}
use atem_esp_idf.Command.Stores.{
  HasHeader, Yields, store8-Yields, store16-Yields, store32-Yields, Yields-bind, create_block,
  put_properties-Yields,
}

-- The wire size and name of each class.
abbrev pub size_of : Command → ℕ
size_of capture_still = 8
size_of (media_player_source _ _ _ _ _) = 16
size_of (usk_dve_key_frame_properties _ _ _ _) = 64
size_of (usk_dve_run_flying_key _ _ _ _) = 16
size_of (usk_dve_properties _ _ _) = 72
size_of (usk_type _ _ _) = 16
size_of _ = 12

abbrev pub name_of : Command → ℕ × ℕ × ℕ × ℕ
name_of (auto _) = (b'D', b'A', b'u', b't')
name_of (aux_input _ _) = (b'C', b'A', b'u', b'S')
name_of capture_still = (b'C', b'a', b'p', b't')
name_of (cut _) = (b'D', b'C', b'u', b't')
name_of (dsk_auto _) = (b'D', b'D', b's', b'A')
name_of (dsk_on_air _ _) = (b'C', b'D', b's', b'L')
name_of (dsk_fill _ _) = (b'C', b'D', b's', b'F')
name_of (dsk_key _ _) = (b'C', b'D', b's', b'C')
name_of (dsk_tie _ _) = (b'C', b'D', b's', b'T')
name_of (fade_to_black _) = (b'F', b't', b'b', b'A')
name_of (media_player_source _ _ _ _ _) = (b'M', b'P', b'S', b'S')
name_of (usk_dve_key_frame_properties _ _ _ _) = (b'C', b'K', b'F', b'P')
name_of (usk_dve_run_flying_key _ _ _ _) = (b'R', b'F', b'l', b'K')
name_of (usk_dve_properties _ _ _) = (b'C', b'K', b'D', b'V')
name_of (usk_fill _ _ _) = (b'C', b'K', b'e', b'F')
name_of (usk_type _ _ _) = (b'C', b'K', b'T', b'p')
name_of (usk_on_air _ _ _) = (b'C', b'K', b'O', b'n')
name_of (preview_input _ _) = (b'C', b'P', b'v', b'I')
name_of (program_input _ _) = (b'C', b'P', b'g', b'I')
name_of save_startup_state = (b'S', b'R', b's', b'v')
name_of (stream _) = (b'S', b't', b'r', b'R')
name_of (transition_position _ _) = (b'C', b'T', b'P', b's')
name_of (transition_state _ _) = (b'C', b'T', b'T', b'p')

module _ (malloc : ℕ → Bytes) (sizes : (n : ℕ) → length (malloc n) ≡ n) where
  start :
      (n a b c d : ℕ)
      → (8 ≤ n) × (n < 65536) × (a < 256) × (b < 256) × (c < 256) × (d < 256)
      → Yields n (a, b, c, d) (Command.create malloc (a ∷ b ∷ c ∷ d ∷ []) n)
  start n a b c d p =
      create_block malloc a b c d n (malloc n) refl (sizes n) p.0 p.1 p.2 p.3 p.4 p.5

  -- Every command class succeeds, whatever the fresh block holds, and builds a block of its wire
  -- size whose header names that size and the class's four characters.
  pub construct-HasHeader :
      (c : Command)
      → (m : Bytes) × (construct malloc c ≡ some m) × HasHeader (size_of c) (name_of c) m
  unfolding construct
  construct-HasHeader (auto me) =
      Yields-bind 12 _ _ _ (start 12 _ _ _ _ (omega arith))
        λ m h. store8-Yields 12 _ m 8 me (omega arith) (omega arith) h
  construct-HasHeader (aux_input source channel) =
      Yields-bind 12 _ _ _ (start 12 _ _ _ _ (omega arith)) λ m h.
        Yields-bind 12 _ _ _ (store8-Yields 12 _ m 8 1 (omega arith) (omega arith) h) λ m h.
          Yields-bind 12 _ _ _ (store8-Yields 12 _ m 9 channel (omega arith) (omega arith) h)
            λ m h. store16-Yields 12 _ m 10 source (omega arith) (omega arith) h
  construct-HasHeader capture_still = start 8 _ _ _ _ (omega arith)
  construct-HasHeader (cut me) =
      Yields-bind 12 _ _ _ (start 12 _ _ _ _ (omega arith))
        λ m h. store8-Yields 12 _ m 8 me (omega arith) (omega arith) h
  construct-HasHeader (dsk_auto keyer) = start 12 _ _ _ _ (omega arith)
  construct-HasHeader (dsk_on_air state keyer) =
      Yields-bind 12 _ _ _ (start 12 _ _ _ _ (omega arith)) λ m h.
        Yields-bind 12 _ _ _ (store8-Yields 12 _ m 8 keyer (omega arith) (omega arith) h)
          λ m h. store8-Yields 12 _ m 9 (of_bool state) (omega arith) (omega arith) h
  construct-HasHeader (dsk_fill source keyer) =
      Yields-bind 12 _ _ _ (start 12 _ _ _ _ (omega arith)) λ m h.
        Yields-bind 12 _ _ _ (store8-Yields 12 _ m 8 keyer (omega arith) (omega arith) h)
          λ m h. store16-Yields 12 _ m 10 source (omega arith) (omega arith) h
  construct-HasHeader (dsk_key source keyer) =
      Yields-bind 12 _ _ _ (start 12 _ _ _ _ (omega arith)) λ m h.
        Yields-bind 12 _ _ _ (store8-Yields 12 _ m 8 keyer (omega arith) (omega arith) h)
          λ m h. store16-Yields 12 _ m 10 source (omega arith) (omega arith) h
  construct-HasHeader (dsk_tie state keyer) =
      Yields-bind 12 _ _ _ (start 12 _ _ _ _ (omega arith)) λ m h.
        Yields-bind 12 _ _ _ (store8-Yields 12 _ m 8 keyer (omega arith) (omega arith) h)
          λ m h. store8-Yields 12 _ m 9 (of_bool state) (omega arith) (omega arith) h
  construct-HasHeader (fade_to_black me) =
      Yields-bind 12 _ _ _ (start 12 _ _ _ _ (omega arith))
        λ m h. store8-Yields 12 _ m 8 me (omega arith) (omega arith) h
  construct-HasHeader (media_player_source mediaplayer mask type still clip) =
      Yields-bind 16 _ _ _ (start 16 _ _ _ _ (omega arith)) λ m h.
        Yields-bind 16 _ _ _ (store8-Yields 16 _ m 8 mask (omega arith) (omega arith) h) λ m h.
          Yields-bind 16 _ _ _ (store8-Yields 16 _ m 9 mediaplayer (omega arith) (omega arith) h)
            λ m h.
              Yields-bind 16 _ _ _ (store8-Yields 16 _ m 10 type (omega arith) (omega arith) h)
                λ m h.
                  Yields-bind 16 _ _ _ (store8-Yields 16 _ m 11 still (omega arith) (omega arith) h)
                    λ m h. store8-Yields 16 _ m 12 clip (omega arith) (omega arith) h
  construct-HasHeader (usk_dve_run_flying_key key_frame run_to_inf_i keyer me) =
      Yields-bind 16 _ _ _ (start 16 _ _ _ _ (omega arith)) λ m h.
        Yields-bind 16 _ _ _ (store8-Yields 16 _ m 8 0 (omega arith) (omega arith) h) λ m h.
          Yields-bind 16 _ _ _ (store8-Yields 16 _ m 9 me (omega arith) (omega arith) h) λ m h.
            Yields-bind 16 _ _ _ (store8-Yields 16 _ m 10 keyer (omega arith) (omega arith) h)
              λ m h.
                Yields-bind 16 _ _ _
                  (store8-Yields 16 _ m 12 (key_frame_value key_frame) (omega arith) (omega arith)
                    h)
                  λ m h. store8-Yields 16 _ m 13 run_to_inf_i (omega arith) (omega arith) h
  construct-HasHeader (usk_fill source keyer me) =
      Yields-bind 12 _ _ _ (start 12 _ _ _ _ (omega arith)) λ m h.
        Yields-bind 12 _ _ _ (store8-Yields 12 _ m 8 me (omega arith) (omega arith) h) λ m h.
          Yields-bind 12 _ _ _ (store8-Yields 12 _ m 9 keyer (omega arith) (omega arith) h)
            λ m h. store16-Yields 12 _ m 10 source (omega arith) (omega arith) h
  construct-HasHeader (usk_type type keyer me) =
      Yields-bind 16 _ _ _ (start 16 _ _ _ _ (omega arith)) λ m h.
        Yields-bind 16 _ _ _ (store8-Yields 16 _ m 8 1 (omega arith) (omega arith) h) λ m h.
          Yields-bind 16 _ _ _ (store8-Yields 16 _ m 9 me (omega arith) (omega arith) h) λ m h.
            Yields-bind 16 _ _ _ (store8-Yields 16 _ m 10 keyer (omega arith) (omega arith) h)
              λ m h. store8-Yields 16 _ m 11 type (omega arith) (omega arith) h
  construct-HasHeader (usk_on_air enabled key me) =
      Yields-bind 12 _ _ _ (start 12 _ _ _ _ (omega arith)) λ m h.
        Yields-bind 12 _ _ _ (store8-Yields 12 _ m 8 me (omega arith) (omega arith) h) λ m h.
          Yields-bind 12 _ _ _ (store8-Yields 12 _ m 9 key (omega arith) (omega arith) h)
            λ m h. store8-Yields 12 _ m 10 (of_bool enabled) (omega arith) (omega arith) h
  construct-HasHeader (preview_input source me) =
      Yields-bind 12 _ _ _ (start 12 _ _ _ _ (omega arith)) λ m h.
        Yields-bind 12 _ _ _ (store8-Yields 12 _ m 8 me (omega arith) (omega arith) h)
          λ m h. store16-Yields 12 _ m 10 source (omega arith) (omega arith) h
  construct-HasHeader (program_input source me) =
      Yields-bind 12 _ _ _ (start 12 _ _ _ _ (omega arith)) λ m h.
        Yields-bind 12 _ _ _ (store8-Yields 12 _ m 8 me (omega arith) (omega arith) h)
          λ m h. store16-Yields 12 _ m 10 source (omega arith) (omega arith) h
  construct-HasHeader save_startup_state =
      Yields-bind 12 _ _ _ (start 12 _ _ _ _ (omega arith))
        λ m h. store32-Yields 12 _ m 8 0 (omega arith) (omega arith) h
  construct-HasHeader (stream state) =
      Yields-bind 12 _ _ _ (start 12 _ _ _ _ (omega arith))
        λ m h. store8-Yields 12 _ m 8 (of_bool state) (omega arith) (omega arith) h
  construct-HasHeader (transition_position position me) =
      Yields-bind 12 _ _ _ (start 12 _ _ _ _ (omega arith)) λ m h.
        Yields-bind 12 _ _ _ (store8-Yields 12 _ m 8 me (omega arith) (omega arith) h)
          λ m h. store16-Yields 12 _ m 10 position (omega arith) (omega arith) h
  construct-HasHeader (transition_state next me) =
      Yields-bind 12 _ _ _ (start 12 _ _ _ _ (omega arith)) λ m h.
        Yields-bind 12 _ _ _ (store8-Yields 12 _ m 8 2 (omega arith) (omega arith) h) λ m h.
          Yields-bind 12 _ _ _ (store8-Yields 12 _ m 9 me (omega arith) (omega arith) h)
            λ m h. store8-Yields 12 _ m 11 next (omega arith) (omega arith) h
  construct-HasHeader (usk_dve_key_frame_properties key_frame p keyer me) =
      Yields-bind 64 _ _ _ (start 64 _ _ _ _ (omega arith)) λ m h.
        let r = put_properties-Yields 64 _ p 0 m (omega arith) h in
        rw r.2 (
          Yields-bind 64 _ _ _ (store32-Yields 64 _ r.1 8 r.0 (omega arith) (omega arith) r.3)
            λ m h.
              Yields-bind 64 _ _ _ (store8-Yields 64 _ m 12 me (omega arith) (omega arith) h) λ m h.
                Yields-bind 64 _ _ _ (store8-Yields 64 _ m 13 keyer (omega arith) (omega arith) h)
                  λ m h.
                    store8-Yields 64 _ m 14 (key_frame_value key_frame) (omega arith) (omega arith)
                      h)
  construct-HasHeader (usk_dve_properties p keyer me) =
      Yields-bind 72 _ _ _ (start 72 _ _ _ _ (omega arith)) λ m h.
        let r = put_properties-Yields 72 _ p 0 m (omega arith) h in
        rw r.2 (
          Yields-bind 72 _ _ _ (store32-Yields 72 _ r.1 8 r.0 (omega arith) (omega arith) r.3)
            λ m h.
              Yields-bind 72 _ _ _ (store8-Yields 72 _ m 12 me (omega arith) (omega arith) h)
                λ m h. store8-Yields 72 _ m 13 keyer (omega arith) (omega arith) h)

-- `PrepairCommand` succeeds on a block that the command's constructor built, and keeps its header.
pub prepair_command-HasHeader :
    (c : Command) (ver : ProtocolVersion) (m : Bytes)
    → HasHeader (size_of c) (name_of c) m
    → (m' : Bytes) × (prepair_command c ver m ≡ some m') × HasHeader (size_of c) (name_of c) m'
unfolding prepair_command
prepair_command-HasHeader (dsk_auto keyer) ver m h =
    elim (Bool-cases (leb ver.major 2 && leb ver.minor 27)) [
      | inl e ↦ rw e (store8-Yields 12 _ m 8 keyer (omega arith) (omega arith) h)
      | inr e ↦ rw e (store8-Yields 12 _ m 9 keyer (omega arith) (omega arith) h)
    ]
prepair_command-HasHeader _ ver m h = (m, refl, h)
