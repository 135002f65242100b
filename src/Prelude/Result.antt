-- ===== src/Prelude/Result.antt =====
-- Errors as values. A Go error keeps the format of its message and the arguments, unformatted.
use operating_system_manager.Prelude.{String, Bool, true, false, List, ◌≡◌, refl, ◌⊎◌, inl, inr}

pub data ApiError : Type 0 where
  not_found already_exists : ApiError
  other : String → ApiError

pub data Error : Type 0 where
  -- an answer of the API server
  api : ApiError → Error
  -- fmt.Errorf without %w, and errors.New
  errorf : String → List String → Error
  -- fmt.Errorf with %w
  wrapped : String → List String → Error → Error
  -- a nil dereference
  panicked : Error

-- kerrors.IsNotFound, which looks through wrapping
unfoldable pub is_not_found : Error → Bool
is_not_found (api not_found) = true
is_not_found (api already_exists) = false
is_not_found (api (other m)) = false
is_not_found (errorf f a) = false
is_not_found (wrapped f a e) = is_not_found e
is_not_found panicked = false

pub data Result {ℓ} (A : Type ℓ) : Type ℓ where
  ok : A → Result A
  err : Error → Result A

infixl 5 ◌>>=◌
abbrev pub ◌>>=◌ {ℓ κ} : {A : Type ℓ} {B : Type κ} → Result A → (A → Result B) → Result B
ok a >>= f = f a
err e >>= f = err e

-- `if err != nil { return fmt.Errorf(format, args..., err) }`
abbrev pub wrap {ℓ} : {A : Type ℓ} → String → List String → Result A → Result A
wrap f a (ok x) = ok x
wrap f a (err e) = err (wrapped f a e)

pub Result-cases {ℓ} :
    {A : Type ℓ} (r : Result A) → ((a : A) × (r ≡ ok a)) ⊎ ((e : Error) × (r ≡ err e))
Result-cases (ok a) = inl (a, refl)
Result-cases (err e) = inr (e, refl)

pub wrap-eq-ok {ℓ} :
    {A : Type ℓ} (f : String) (a : List String) (r : Result A) {x : A}
    → wrap f a r ≡ ok x
    → r ≡ ok x
wrap-eq-ok f a (ok y) h = h
wrap-eq-ok f a (err e) h = cc

pub ok-injective {ℓ} : {A : Type ℓ} (a b : A) → ◌≡◌ {A = Result A} (ok a) (ok b) → a ≡ b
ok-injective a b h = cc

-- A chain that succeeds has two parts that do.
pub bind-eq-ok {ℓ κ} :
    {A : Type ℓ} {B : Type κ} (r : Result A) (f : A → Result B) {b : B}
    → (r >>= f) ≡ ok b
    → (a : A) × (r ≡ ok a) × (f a ≡ ok b)
bind-eq-ok (ok a) f h = (a, refl, h)
bind-eq-ok (err e) f h = cc
