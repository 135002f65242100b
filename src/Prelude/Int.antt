-- ===== src/Prelude/Int.antt =====
-- Go's int32 values, and their decimal form.
use operating_system_manager.Prelude.{
  ℕ, zero, suc, ◌+◌, ◌/◌, ◌%◌, String, ◌<>◌, ltb, Bool, true, false, if◌then◌else◌,
}

-- `negsuc n` is -(n + 1).
pub data ℤ : Type 0 where
  pos : ℕ → ℤ
  negsuc : ℕ → ℤ

abbrev pub digit : ℕ → String
digit zero = "0"
digit (suc zero) = "1"
digit (suc (suc zero)) = "2"
digit (suc (suc (suc zero))) = "3"
digit (suc (suc (suc (suc zero)))) = "4"
digit (suc (suc (suc (suc (suc zero))))) = "5"
digit (suc (suc (suc (suc (suc (suc zero)))))) = "6"
digit (suc (suc (suc (suc (suc (suc (suc zero))))))) = "7"
digit (suc (suc (suc (suc (suc (suc (suc (suc zero)))))))) = "8"
digit _ = "9"

-- The fuel is at least the number of digits.
unfoldable pub decimal : ℕ → ℕ → String
decimal zero n = digit n
decimal (suc f) n =
    let more = decimal f (n / 10) in if ltb n 10 then digit n else more <> digit (n % 10)

-- fmt.Sprintf("%v", n)
unfoldable pub sprint : ℤ → String
unfolding decimal
sprint (pos n) = decimal n n
sprint (negsuc n) = "-" <> decimal (n + 1) (n + 1)

unfoldable pub is_zero : ℤ → Bool
is_zero (pos zero) = true
is_zero (pos (suc n)) = false
is_zero (negsuc n) = false
