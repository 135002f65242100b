-- ===== src/CloudProvider/Ini/Laws.antt =====
-- Reading a text back that pkg/util/ini/escape.go has put in quotes.
use Prim.Native.Char.{code}
use text.Mathlib.TextLemmas.{nil-append, cons-append, append_assoc}
use operating_system_manager.Prelude.{
  String, ◌<>◌, Bool, true, false, not, Option, none, some, nat_eq, ◌&&◌, ◌||◌, if◌then◌else◌,
  Bool-cases, inl, inr, ◌≡◌, refl, arith,
}
use operating_system_manager.Prelude.Text.{cons_first}
use operating_system_manager.CloudProvider.Ini.{is_special, escape_chars, escape}

-- A quoted text, from behind its first quote: the text and what stands behind the last quote. A
-- backslash stands only before a quote (34) or a backslash (92), the two escapes that escape.go
-- names as allowed, and a line feed (10) stands in no quoted text.
unfoldable pub read_inside : Bool → String → Option (String × String)
read_inside escaped String.[] = none
read_inside true (String.◌∷◌ c s) =
    let more = cons_first c (read_inside false s) in
    if nat_eq (code c) 34 || nat_eq (code c) 92 then more else none
read_inside false (String.◌∷◌ c s) =
    let behind = read_inside true s in
    let more = cons_first c (read_inside false s) in
    if nat_eq (code c) 34
    then some ("", s)
    else if nat_eq (code c) 92
    then behind
    else if nat_eq (code c) 10
    then none
    else more

-- A quoted text.
unfoldable pub read_quoted : String → Option (String × String)
read_quoted String.[] = none
read_quoted (String.◌∷◌ c s) =
    let inside = read_inside false s in if nat_eq (code c) 34 then inside else none

-- A text of one line.
unfoldable pub is_one_line : String → Bool
is_one_line String.[] = true
is_one_line (String.◌∷◌ c s) = not (nat_eq (code c) 10) && is_one_line s

read_inside-escape_chars :
    (s rest : String)
    → is_one_line s ≡ true
    → read_inside false (escape_chars s <> ("\"" <> rest)) ≡ some (s, rest)
unfolding read_inside escape_chars is_special cons_first is_one_line
read_inside-escape_chars String.[] rest h =
    rw (nil-append ("\"" <> rest))
      (rw (cons-append "\"" String.[] rest) (rw (nil-append rest) refl))
read_inside-escape_chars (String.◌∷◌ c s) rest h =
    let line : is_one_line s ≡ true = ground arith in
    let in_line : nat_eq (code c) 10 ≡ false = ground arith in
    elim (Bool-cases (nat_eq (code c) 34)) [
      | inl quote ↦ rw quote (
          rw (cons-append "\\" (String.◌∷◌ c (escape_chars s)) ("\"" <> rest)) (
            rw (cons-append c (escape_chars s) ("\"" <> rest))
              (rw quote (rw (read_inside-escape_chars s rest line) refl))))
      | inr no_quote ↦ elim (Bool-cases (nat_eq (code c) 92)) [
        | inl backslash ↦ rw no_quote (
            rw backslash (
              rw (cons-append "\\" (String.◌∷◌ c (escape_chars s)) ("\"" <> rest)) (
                rw (cons-append c (escape_chars s) ("\"" <> rest))
                  (rw no_quote (rw backslash (rw (read_inside-escape_chars s rest line) refl))))))
        | inr other ↦ rw no_quote (
            rw other (
              rw (cons-append c (escape_chars s) ("\"" <> rest)) (
                rw no_quote
                  (rw other (rw in_line (rw (read_inside-escape_chars s rest line) refl))))))
      ]
    ]

-- A text of one line that Escape has put in quotes is read back as it was, and the reader stands
-- behind it: it is quoted, and with the two allowed escapes only.
pub read_quoted-escape :
    (s rest : String) → is_one_line s ≡ true → read_quoted (escape s <> rest) ≡ some (s, rest)
unfolding read_quoted escape
read_quoted-escape s rest h = rw (append_assoc "\"" (escape_chars s <> "\"") rest) (
    rw (cons-append "\"" String.[] ((escape_chars s <> "\"") <> rest)) (
      rw (nil-append ((escape_chars s <> "\"") <> rest))
        (rw (append_assoc (escape_chars s) "\"" rest) (read_inside-escape_chars s rest h))))
