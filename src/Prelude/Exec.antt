-- ===== src/Prelude/Exec.antt =====
-- Code that calls the API server: a state goes in, and comes back beside the result, so what was
-- done before an error stays done.
pub mod Laws
use operating_system_manager.Prelude.{String, List}
use operating_system_manager.Prelude.Result.{Error, Result, ok, err, wrapped}

abbrev pub Exec {ℓ} : Type ℓ → Type ℓ → Type ℓ
Exec S A = S → Result A × S

module _ {ℓ} {S A : Type ℓ} where
  abbrev pub pure : A → Exec S A
  pure a s = (ok a, s)

  abbrev pub raise : Error → Exec S A
  raise e s = (err e, s)

  abbrev pub lift : Result A → Exec S A
  lift r s = (r, s)

  abbrev pub wrap_pair : String → List String → Result A × S → Result A × S
  wrap_pair f a (ok x, s) = (ok x, s)
  wrap_pair f a (err e, s) = (err (wrapped f a e), s)

  -- An error is wrapped with a message.
  unfoldable pub wrap : String → List String → Exec S A → Exec S A
  wrap f a m s = wrap_pair f a (m s)

module _ {ℓ} {S A B : Type ℓ} where
  abbrev pub continue : Result A × S → (A → Exec S B) → Result B × S
  continue (ok a, s) f = f a s
  continue (err e, s) f = (err e, s)

  infixl 5 ◌>>=◌ ◌>>◌
  unfoldable pub ◌>>=◌ : Exec S A → (A → Exec S B) → Exec S B
  ◌>>=◌ m f s = continue (m s) f

  abbrev pub ◌>>◌ : Exec S A → Exec S B → Exec S B
  m >> n = m >>= λ _. n

  -- A call whose error the code looks at itself.
  unfoldable pub attempt : Exec S A → (Result A → Exec S B) → Exec S B
  attempt m f s = let (r, s') = m s in f r s'
