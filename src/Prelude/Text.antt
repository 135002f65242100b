-- ===== src/Prelude/Text.antt =====
-- The functions of Go's package strings that the source calls, on native texts. Separators are
-- single ASCII characters, given by their code.
use Prim.Native.Nat.{ℕ, zero, suc, ◌-◌}
use Prim.Native.Char.{Char, code}
use Prim.Native.String.{String, ◌++◌, len}
use text.Mathlib.Text.{starts_with}
use mathlib.Core.Bool.{Bool, true, false, ◌&&◌, ◌||◌}
use mathlib.Core.Option.{Option, none, some}
use mathlib.Core.List.{List, [], ◌∷◌}
use operating_system_manager.Prelude.Tests.{leb, nat_eq, if◌then◌else◌}

-- unicode.IsSpace
unfoldable pub is_space : Char → Bool
is_space c =
    let n = code c in
    (leb 9 n && leb n 13)
    || nat_eq n 32
    || nat_eq n 0x85
    || nat_eq n 0xa0
    || nat_eq n 0x1680
    || (leb 0x2000 n && leb n 0x200a)
    || nat_eq n 0x2028
    || nat_eq n 0x2029
    || nat_eq n 0x202f
    || nat_eq n 0x205f
    || nat_eq n 0x3000

unfoldable pub trim_left : String → String
trim_left String.[] = String.[]
trim_left (String.◌∷◌ c s) = if is_space c then trim_left s else String.◌∷◌ c s

unfoldable pub is_empty : String → Bool
is_empty String.[] = true
is_empty (String.◌∷◌ c s) = false

-- Puts a character that is not trailing white space in front.
unfoldable pub keep_right : Char → String → String
unfolding is_empty
keep_right c rest = if is_empty rest && is_space c then String.[] else String.◌∷◌ c rest

unfoldable pub trim_right : String → String
trim_right String.[] = String.[]
trim_right (String.◌∷◌ c s) = keep_right c (trim_right s)

-- strings.TrimSpace
unfoldable pub trim_space : String → String
trim_space s = trim_right (trim_left s)

unfoldable pub cons_head : Char → List String → List String
cons_head c [] = String.◌∷◌ c String.[] ∷ []
cons_head c (p ∷ ps) = String.◌∷◌ c p ∷ ps

-- strings.Split and strings.SplitSeq
unfoldable pub split : ℕ → String → List String
unfolding cons_head
split sep String.[] = String.[] ∷ []
split sep (String.◌∷◌ c s) =
    let rest = split sep s in if nat_eq (code c) sep then String.[] ∷ rest else cons_head c rest

unfoldable pub cons_first : Char → Option (String × String) → Option (String × String)
cons_first c none = none
cons_first c (some (a, b)) = some (String.◌∷◌ c a, b)

-- strings.SplitN(s, sep, 2): the two parts, or none where the result has one part.
unfoldable pub split_2 : ℕ → String → Option (String × String)
unfolding cons_first
split_2 sep String.[] = none
split_2 sep (String.◌∷◌ c s) =
    let rest = split_2 sep s in
    if nat_eq (code c) sep then some (String.[], s) else cons_first c rest

-- A text with another in place of a pattern, of which the first `n` characters are still to be cut;
-- `more` is the length of the pattern less one.
unfoldable pub replace_from : String → String → ℕ → ℕ → String → String
replace_from pattern by more n String.[] = String.[]
replace_from pattern by more (suc n) (String.◌∷◌ c s) = replace_from pattern by more n s
replace_from pattern by more zero (String.◌∷◌ c s) =
    let kept = replace_from pattern by more zero s in
    let cut = replace_from pattern by more more s in
    if starts_with (String.◌∷◌ c s) pattern then by ++ cut else String.◌∷◌ c kept

-- strings.ReplaceAll, for a pattern that is not empty
unfoldable pub replace_all : String → String → String → String
unfolding replace_from
replace_all s pattern by = replace_from pattern by (len pattern - 1) 0 s

-- The text before the first separator, or the whole text.
unfoldable pub before : ℕ → String → String
before sep String.[] = String.[]
before sep (String.◌∷◌ c s) =
    let rest = before sep s in if nat_eq (code c) sep then String.[] else String.◌∷◌ c rest

-- The least code of a digit is 48.
unfoldable pub is_digit : Char → Bool
is_digit c = leb 48 (code c) && leb (code c) 57
