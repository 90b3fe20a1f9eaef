-- ===== src/Prelude/Texts.antt =====
-- Tests on the characters of a text.
use Prim.Native.Nat.{ℕ}
use Prim.Native.Char.{code}
use Prim.Native.String.{String, [], ◌∷◌}
use mathlib.Core.Bool.{Bool, true, ◌&&◌, ◌||◌}
use wppconnect_server_go.Prelude.Tests.{leb}

abbrev pub all_chars : (ℕ → Bool) → String → Bool
all_chars p [] = true
all_chars p (c ∷ s) = p (code c) && all_chars p s

abbrev pub is_between : ℕ → ℕ → ℕ → Bool
is_between a b n = leb a n && leb n b

abbrev pub is_digit : ℕ → Bool
is_digit n = is_between 48 57 n

-- [A-Za-z0-9]
abbrev pub is_alphanumeric : ℕ → Bool
is_alphanumeric n = is_digit n || is_between 65 90 n || is_between 97 122 n
