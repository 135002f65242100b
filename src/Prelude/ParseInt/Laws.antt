-- ===== src/Prelude/ParseInt/Laws.antt =====
-- The numbers that are parsed: those of 32 bits, from the decimal form that they are printed in.
use mathlib.Core.Path.{subst}
use Prim.Native.Char.{Char, code}
use text.Mathlib.TextLemmas.{nil-append, cons-append, append-nil, append_assoc}
use operating_system_manager.Prelude.{
  String, ◌<>◌, ℕ, zero, suc, ◌+◌, ◌-◌, ◌*◌, ◌/◌, ◌%◌, ◌≤◌, ◌<◌, true, false, Bool-cases, inl, inr,
  ◌≡◌, refl, sym, ap, ◌∙◌, arith, ltb, leb,
}
use operating_system_manager.Prelude.Text.{is_digit}
use operating_system_manager.Prelude.Int.{ℤ, pos, negsuc, digit, decimal, sprint}
use operating_system_manager.Prelude.ParseInt.{
  parse_int32, parse_uint, parse_digits, in_positive, in_negative, negate, at_sign, rest_of,
}
use operating_system_manager.Prelude.Result.{ok, ok-injective, bind-eq-ok}

-- The range of int32.
abbrev pub IsInt32 : ℤ → Type 0
IsInt32 (pos n) = n < 2147483648
IsInt32 (negsuc n) = n < 2147483648

in_positive-IsInt32 : (s : String) (n : ℕ) {z : ℤ} → in_positive s n ≡ ok z → IsInt32 z
unfolding in_positive
in_positive-IsInt32 s n h = elim (Bool-cases (leb 2147483648 n)) [
  | inl over ↦ absurd (cc (rw over at h))
  | inr within ↦ subst IsInt32 (ok-injective (pos n) _ (rw within at h)) (ground (arith, within))
]

negate-IsInt32 : (n : ℕ) → n ≤ 2147483648 → IsInt32 (negate n)
unfolding negate
negate-IsInt32 zero h = omega arith
negate-IsInt32 (suc n) h = omega arith

in_negative-IsInt32 : (s : String) (n : ℕ) {z : ℤ} → in_negative s n ≡ ok z → IsInt32 z
unfolding in_negative
in_negative-IsInt32 s n h = elim (Bool-cases (ltb 2147483648 n)) [
  | inl over ↦ absurd (cc (rw over at h))
  | inr within ↦
      subst IsInt32 (ok-injective (negate n) _ (rw within at h))
        (negate-IsInt32 n (ground (arith, within)))
]

-- A value that is parsed is one of 32 bits.
pub parse_int32-IsInt32 : (s : String) {z : ℤ} → parse_int32 s ≡ ok z → IsInt32 z
unfolding parse_int32
parse_int32-IsInt32 s h = elim (Bool-cases (at_sign 43 s)) [
  | inl plus ↦
      let chain = bind-eq-ok (parse_uint s (rest_of s)) _ (rw plus at h) in
      in_positive-IsInt32 s chain.0 chain.2
  | inr no_plus ↦ elim (Bool-cases (at_sign 45 s)) [
    | inl minus ↦
        let chain = bind-eq-ok (parse_uint s (rest_of s)) _ (rw minus at (rw no_plus at h)) in
        in_negative-IsInt32 s chain.0 chain.2
    | inr no_minus ↦
        let chain = bind-eq-ok (parse_uint s s) _ (rw no_minus at (rw no_plus at h)) in
        in_positive-IsInt32 s chain.0 chain.2
  ]
]

-- A digit is one character, with its value behind that of "0".
record TextOfDigit (d : ℕ) : Type 0 where
  character : Char
  text : digit d ≡ String.◌∷◌ character String.[]
  is : is_digit character ≡ true
  its_code : code character ≡ 48 + d

digit-TextOfDigit : (d : ℕ) → d < 10 → TextOfDigit d
unfolding is_digit
digit-TextOfDigit zero h = record { character = "0"; text = refl; is = refl; its_code = refl }
digit-TextOfDigit (suc zero) h = record { character = "1"; text = refl; is = refl; its_code = refl }
digit-TextOfDigit (suc (suc zero)) h = record {
  character = "2";
  text = refl;
  is = refl;
  its_code = refl;
}
digit-TextOfDigit (suc (suc (suc zero))) h = record {
  character = "3";
  text = refl;
  is = refl;
  its_code = refl;
}
digit-TextOfDigit (suc (suc (suc (suc zero)))) h = record {
  character = "4";
  text = refl;
  is = refl;
  its_code = refl;
}
digit-TextOfDigit (suc (suc (suc (suc (suc zero))))) h = record {
  character = "5";
  text = refl;
  is = refl;
  its_code = refl;
}
digit-TextOfDigit (suc (suc (suc (suc (suc (suc zero)))))) h = record {
  character = "6";
  text = refl;
  is = refl;
  its_code = refl;
}
digit-TextOfDigit (suc (suc (suc (suc (suc (suc (suc zero))))))) h = record {
  character = "7";
  text = refl;
  is = refl;
  its_code = refl;
}
digit-TextOfDigit (suc (suc (suc (suc (suc (suc (suc (suc zero)))))))) h = record {
  character = "8";
  text = refl;
  is = refl;
  its_code = refl;
}
digit-TextOfDigit (suc (suc (suc (suc (suc (suc (suc (suc (suc zero))))))))) h = record {
  character = "9";
  text = refl;
  is = refl;
  its_code = refl;
}
digit-TextOfDigit (suc (suc (suc (suc (suc (suc (suc (suc (suc (suc n)))))))))) h =
    absurd (omega (arith, h))

ltb-false : (a b : ℕ) → b ≤ a → ltb a b ≡ false
ltb-false a b h = ground arith

-- One digit is read.
parse_digits-digit :
    (whole : String) (a d b : ℕ) (s : String)
    → d < 10
    → a * 10 + d ≡ b
    → b ≤ 4294967295
    → parse_digits whole a (digit d <> s) ≡ parse_digits whole b s
unfolding parse_digits
parse_digits-digit whole a d b s small e fits =
    let x = digit-TextOfDigit d small in
    let value : a * 10 + (code x.character - 48) ≡ b = omega (arith, x.its_code, e) in
    rw x.text (
      rw (cons-append x.character String.[] s)
        (rw (nil-append s) (rw x.is (rw value (rw (ltb-false 4294967295 b fits) refl)))))

-- A number's digits are read to the number.
parse_digits-decimal :
    (whole : String) (f n : ℕ) (s : String)
    → n ≤ f
    → n ≤ 4294967295
    → parse_digits whole 0 (decimal f n <> s) ≡ parse_digits whole n s
unfolding decimal
parse_digits-decimal whole zero n s enough fits =
    parse_digits-digit whole 0 n n s (omega arith) (omega arith) fits
parse_digits-decimal whole (suc f) n s enough fits = elim (Bool-cases (ltb n 10)) [
  | inl small ↦
      rw small (parse_digits-digit whole 0 n n s (ground (arith, small)) (omega arith) fits)
  | inr large ↦ rw large (
      rw (append_assoc (decimal f (n / 10)) (digit (n % 10)) s) (
        parse_digits-decimal whole f (n / 10) (digit (n % 10) <> s) (ground (arith, large))
          (omega arith)
        ∙ parse_digits-digit whole (n / 10) (n % 10) n s (omega arith) (omega arith) fits))
]

-- A decimal form begins with a digit.
record BeginsWithDigit (s : String) : Type 0 where
  first : Char
  rest : String
  text : s ≡ String.◌∷◌ first rest
  is : is_digit first ≡ true

digit-BeginsWithDigit : (d : ℕ) → d < 10 → BeginsWithDigit (digit d)
digit-BeginsWithDigit d h =
    let x = digit-TextOfDigit d h in
    record { first = x.character; rest = String.[]; text = x.text; is = x.is }

decimal-BeginsWithDigit : (f n : ℕ) → n ≤ f → BeginsWithDigit (decimal f n)
unfolding decimal
decimal-BeginsWithDigit zero n h = digit-BeginsWithDigit n (omega arith)
decimal-BeginsWithDigit (suc f) n h = elim (Bool-cases (ltb n 10)) [
  | inl small ↦ rw small (digit-BeginsWithDigit n (ground (arith, small)))
  | inr large ↦
      let more = decimal-BeginsWithDigit f (n / 10) (ground (arith, large)) in
      rw large (record {
        first = more.first;
        rest = more.rest <> digit (n % 10);
        text =
            ap (λ t. t <> digit (n % 10)) more.text
            ∙ cons-append more.first more.rest (digit (n % 10));
        is = more.is;
      })
]

at_sign-BeginsWithDigit : (k : ℕ) (s : String) → k < 48 → BeginsWithDigit s → at_sign k s ≡ false
unfolding is_digit
at_sign-BeginsWithDigit k s h x = rw x.text (ground (arith, x.is, h))

parse_uint-BeginsWithDigit :
    (whole s : String) → BeginsWithDigit s → parse_uint whole s ≡ parse_digits whole 0 s
unfolding parse_uint
parse_uint-BeginsWithDigit whole s x = rw x.text refl

parse_uint-decimal :
    (whole : String) (n : ℕ) → n ≤ 4294967295 → parse_uint whole (decimal n n) ≡ ok n
unfolding parse_digits
parse_uint-decimal whole n h =
    parse_uint-BeginsWithDigit whole _ (decimal-BeginsWithDigit n n (omega arith))
    ∙ ap (parse_digits whole 0) (sym (append-nil (decimal n n)))
    ∙ parse_digits-decimal whole n n String.[] (omega arith) h

in_positive-within : (s : String) (n : ℕ) → n < 2147483648 → in_positive s n ≡ ok (pos n)
unfolding in_positive
in_positive-within s n h = ground arith

in_negative-within :
    (s : String) (m n : ℕ) → m ≡ suc n → n < 2147483648 → in_negative s m ≡ ok (negsuc n)
unfolding in_negative negate
in_negative-within s m n e h = rw e (rw (ltb-false 2147483648 (suc n) (omega arith)) refl)

parse_int32-negative :
    (s : String) (n : ℕ)
    → n < 2147483648
    → s ≡ decimal (n + 1) (n + 1)
    → parse_int32 (String.◌∷◌ "-" s) ≡ ok (negsuc n)
unfolding parse_int32
parse_int32-negative s n h e = rw e (
    rw (parse_uint-decimal (String.◌∷◌ "-" (decimal (n + 1) (n + 1))) (n + 1) (omega arith))
      (in_negative-within _ (n + 1) n (omega arith) h))

-- A number of 32 bits, printed in decimal, is parsed to itself.
pub parse_int32-sprint : (z : ℤ) → IsInt32 z → parse_int32 (sprint z) ≡ ok z
unfolding sprint parse_int32
parse_int32-sprint (pos n) h =
    let digits = decimal-BeginsWithDigit n n (omega arith) in
    rw (at_sign-BeginsWithDigit 43 (decimal n n) (omega arith) digits) (
      rw (at_sign-BeginsWithDigit 45 (decimal n n) (omega arith) digits)
        (rw (parse_uint-decimal (decimal n n) n (omega arith)) (in_positive-within _ n h)))
parse_int32-sprint (negsuc n) h =
    ap parse_int32 (
      cons-append "-" String.[] (decimal (n + 1) (n + 1))
      ∙ ap (String.◌∷◌ "-") (nil-append (decimal (n + 1) (n + 1))))
    ∙ parse_int32-negative (decimal (n + 1) (n + 1)) n h refl
