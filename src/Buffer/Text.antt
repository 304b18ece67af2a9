-- ===== src/Buffer/Text.antt =====
-- The string functions of the C library over a block: a read outside the block is a fault.
use atem_esp_idf.Prelude.{
  ℕ, zero, suc, Option, none, some, [], ◌∷◌, ◌==◌, if◌then◌else◌, ◌>>=◌, drop,
}
use atem_esp_idf.Buffer.{Bytes, load8, copy_from}

unfoldable pub text_length : Bytes → Option ℕ
text_length [] = none
text_length (b ∷ m) =
    let rest : Option ℕ = (do n ← text_length m; some (suc n)) in if b == 0 then some 0 else rest

-- `strlen` of the text at `i`.
unfoldable pub strlen : Bytes → ℕ → Option ℕ
unfolding text_length
strlen m i = text_length (drop i m)

unfoldable pub strnlen : Bytes → ℕ → ℕ → Option ℕ
strnlen m i zero = some 0
strnlen m i (suc n) = do
  b ← load8 m i
  let rest : Option ℕ = (do k ← strnlen m (suc i) n; some (suc k))
  if b == 0 then some 0 else rest

-- The text that `strndup` copies, without its final NUL.
unfoldable pub strndup : Bytes → ℕ → ℕ → Option Bytes
unfolding strnlen
strndup m i n = do k ← strnlen m i n; copy_from m i k
