-- ===== src/CloudProvider/Ini.antt =====
-- pkg/util/ini/escape.go: a text in quotes.
pub mod Laws
use Prim.Native.Char.{Char, code}
use operating_system_manager.Prelude.{String, ◌<>◌, Bool, true, false, nat_eq, ◌||◌, if◌then◌else◌}

-- The characters that are escaped: 34 is the quote, 92 the backslash.
unfoldable pub is_special : Char → Bool
is_special c = nat_eq (code c) 34 || nat_eq (code c) 92

-- escaper.Replace
unfoldable pub escape_chars : String → String
unfolding is_special
escape_chars String.[] = String.[]
escape_chars (String.◌∷◌ c s) =
    let rest = escape_chars s in
    if is_special c then String.◌∷◌ "\\" (String.◌∷◌ c rest) else String.◌∷◌ c rest

-- Escape
unfoldable pub escape : String → String
unfolding escape_chars
escape s = "\"" <> (escape_chars s <> "\"")

-- A Boolean in a template
unfoldable pub show_bool : Bool → String
show_bool true = "true"
show_bool false = "false"
