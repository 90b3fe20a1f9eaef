-- ===== src/Media/Texts.antt =====
-- internal/media/media.go, Filename; strings.HasPrefix and strings.HasSuffix.
use Prim.Native.Char.{code}
use Prim.Native.String.{String, [], ◌∷◌}
use mathlib.Core.Bool.{Bool, true, false, ◌&&◌, ◌||◌}
use text.Mathlib.Text.{◌==◌ as str_eq}
use mathlib.Core.Bool.{not}
use mathlib.Core.Path.{◌≡◌, refl}
use wppconnect_server_go.Prelude.{
  ℕ, zero, suc, ◌==◌, ltb, inl, inr, arith, if◌then◌else◌, all_chars, Bool-cases,
}

abbrev pub has_prefix : String → String → Bool
has_prefix s [] = true
has_prefix [] (c ∷ p) = false
has_prefix (d ∷ s) (c ∷ p) = code d == code c && has_prefix s p

abbrev pub has_suffix : String → String → Bool
has_suffix [] p = str_eq [] p
has_suffix (c ∷ s) p = str_eq (c ∷ s) p || has_suffix s p

abbrev pub is_separator : ℕ → Bool
is_separator c = c == 47 || c == 92

abbrev pub has_separator : String → Bool
has_separator [] = false
has_separator (c ∷ s) = is_separator (code c) || has_separator s

-- What stands after the last slash or backslash.
abbrev pub last_part : String → String
last_part [] = []
last_part (c ∷ s) =
    let rest = last_part s in
    if has_separator s then rest else if is_separator (code c) then s else c ∷ s

abbrev pub is_control : ℕ → Bool
is_control c = ltb c 32 || c == 127

abbrev pub drop_controls : String → String
drop_controls [] = []
drop_controls (c ∷ s) = let rest = drop_controls s in if is_control (code c) then rest else c ∷ rest

abbrev pub take_chars : ℕ → String → String
take_chars zero s = []
take_chars (suc n) [] = []
take_chars (suc n) (c ∷ s) = c ∷ take_chars n s

abbrev pub named : String → String
named s = if str_eq s "" || str_eq s "." || str_eq s ".." then "file" else take_chars 255 s

unfoldable pub filename : String → String
filename s = named (drop_controls (last_part s))

-- A character that a file's name may have.
abbrev pub is_safe : ℕ → Bool
is_safe c = not (is_separator c) && not (is_control c)

last_part-safe : (s : String) → has_separator (last_part s) ≡ false
last_part-safe [] = refl
last_part-safe (c ∷ s) = ground (arith, last_part-safe s)

drop_controls-safe :
    (s : String) → has_separator s ≡ false → all_chars is_safe (drop_controls s) ≡ true
drop_controls-safe [] h = refl
drop_controls-safe (c ∷ s) h = ground (arith, drop_controls-safe s, h)

take_chars-safe :
    (n : ℕ) (s : String) → all_chars is_safe s ≡ true → all_chars is_safe (take_chars n s) ≡ true
take_chars-safe zero s h = refl
take_chars-safe (suc n) [] h = refl
take_chars-safe (suc n) (c ∷ s) h = ground (arith, take_chars-safe n s, h)

-- Whatever name a sender gives, the name that is used has no slash, backslash or control character.
pub filename_safe : (s : String) → all_chars is_safe (filename s) ≡ true
unfolding filename
filename_safe s =
    let v = drop_controls (last_part s) in
    let h = drop_controls-safe (last_part s) (last_part-safe s) in
    elim (Bool-cases (str_eq v "" || str_eq v "." || str_eq v "..")) [
      | inl q ↦ rw q refl
      | inr q ↦ rw q (take_chars-safe 255 v h)
    ]
