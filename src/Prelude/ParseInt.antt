-- ===== src/Prelude/ParseInt.antt =====
-- strconv.ParseInt at base 10 and 32 bits.
pub mod Laws
use Prim.Native.Char.{code}
use operating_system_manager.Prelude.Tests.{ltb, leb, nat_eq, if◌then◌else◌}
use Prim.Native.Nat.{ℕ, zero, suc, ◌+◌, ◌-◌, ◌*◌}
use Prim.Native.String.{String}
use mathlib.Core.Bool.{Bool, true, false, not}
use mathlib.Core.List.{[], ◌∷◌}
use operating_system_manager.Prelude.Text.{is_digit}
use operating_system_manager.Prelude.Result.{Result, ok, err, errorf, Error, ◌>>=◌}
use operating_system_manager.Prelude.Int.{ℤ, pos, negsuc}

unfoldable pub syntax_error : String → Error
syntax_error s = errorf "strconv.ParseInt: parsing %q: invalid syntax" (s ∷ [])

unfoldable pub range_error : String → Error
range_error s = errorf "strconv.ParseInt: parsing %q: value out of range" (s ∷ [])

-- The loop of ParseUint, which stops at the first character that is no digit, and at the first digit
-- that takes the value past 2^32 - 1; `whole` is the text that an error names.
unfoldable pub parse_digits : String → ℕ → String → Result ℕ
unfolding is_digit syntax_error range_error
parse_digits whole n String.[] = ok n
parse_digits whole n (String.◌∷◌ c s) =
    let more = n * 10 + (code c - 48) in
    let rest = parse_digits whole more s in
    if not (is_digit c)
    then err (syntax_error whole)
    else if ltb 4294967295 more
    then err (range_error whole)
    else rest

unfoldable pub parse_uint : String → String → Result ℕ
unfolding parse_digits syntax_error
parse_uint whole String.[] = err (syntax_error whole)
parse_uint whole (String.◌∷◌ c s) = parse_digits whole 0 (String.◌∷◌ c s)

unfoldable pub in_positive : String → ℕ → Result ℤ
unfolding range_error
in_positive whole n = if leb 2147483648 n then err (range_error whole) else ok (pos n)

-- -(n) as an integer
unfoldable pub negate : ℕ → ℤ
negate zero = pos 0
negate (suc n) = negsuc n

unfoldable pub in_negative : String → ℕ → Result ℤ
unfolding range_error negate
in_negative whole n = if ltb 2147483648 n then err (range_error whole) else ok (negate n)

-- Whether the first character is `n`
abbrev pub at_sign : ℕ → String → Bool
at_sign n String.[] = false
at_sign n (String.◌∷◌ c s) = nat_eq (code c) n

abbrev pub rest_of : String → String
rest_of String.[] = String.[]
rest_of (String.◌∷◌ c s) = s

-- 43 is "+", 45 is "-"
unfoldable pub parse_int32 : String → Result ℤ
unfolding parse_uint in_positive in_negative
parse_int32 s =
    if at_sign 43 s
    then parse_uint s (rest_of s) >>= in_positive s
    else if at_sign 45 s
    then parse_uint s (rest_of s) >>= in_negative s
    else parse_uint s s >>= in_positive s
