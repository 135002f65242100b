-- ===== src/Prelude/Exec/Laws.antt =====
-- How a call that is built from others comes to its outcome.
use operating_system_manager.Prelude.{String, List, ◌≡◌, refl}
use operating_system_manager.Prelude.Result.{Error, Result, ok, err}
use operating_system_manager.Prelude.Exec.{Exec, wrap, wrap_pair, continue, ◌>>=◌}

module _ {S A : Type 0} where
  wrap_pair-ok :
      (f : String) (a : List String) (p : Result A × S) {x : A}
      → (wrap_pair f a p).0 ≡ ok x
      → (p.0 ≡ ok x) × ((wrap_pair f a p).1 ≡ p.1)
  wrap_pair-ok f a (ok x, s) h = (h, refl)
  wrap_pair-ok f a (err e, s) h = cc

  pub wrap-ok :
      (f : String) (a : List String) (m : Exec S A) (s : S) {x : A}
      → (wrap f a m s).0 ≡ ok x
      → ((m s).0 ≡ ok x) × ((wrap f a m s).1 ≡ (m s).1)
  unfolding wrap
  wrap-ok f a m s h = wrap_pair-ok f a (m s) h

  wrap_pair-state : (f : String) (a : List String) (p : Result A × S) → (wrap_pair f a p).1 ≡ p.1
  wrap_pair-state f a (ok x, s) = refl
  wrap_pair-state f a (err e, s) = refl

  pub wrap-state :
      (f : String) (a : List String) (m : Exec S A) (s : S) → (wrap f a m s).1 ≡ (m s).1
  unfolding wrap
  wrap-state f a m s = wrap_pair-state f a (m s)

module _ {S A : Type 0} where
  wrap_pair-err :
      (f : String) (a : List String) (p : Result A × S) {e : Error}
      → (wrap_pair f a p).0 ≡ err e
      → (e' : Error) × (p.0 ≡ err e')
  wrap_pair-err f a (ok x, s) h = cc
  wrap_pair-err f a (err e, s) h = (e, refl)

  pub wrap-err :
      (f : String) (a : List String) (m : Exec S A) (s : S) {e : Error}
      → (wrap f a m s).0 ≡ err e
      → (e' : Error) × ((m s).0 ≡ err e')
  unfolding wrap
  wrap-err f a m s h = wrap_pair-err f a (m s) h

-- A block that succeeds has run both of its parts.
pub record BindOk {S A B : Type 0} (m : Exec S A) (f : A → Exec S B) (s : S) (b : B) : Type 0 where
  pub value : A
  pub first : (m s).0 ≡ ok value
  pub then_ok : (f value (m s).1).0 ≡ ok b
  pub state : ((m >>= f) s).1 ≡ (f value (m s).1).1

module _ {S A B : Type 0} where
  continue-ok :
      (r : Result A) (s : S) (f : A → Exec S B) {b : B}
      → (continue (r, s) f).0 ≡ ok b
      → (a : A) × (r ≡ ok a) × ((f a s).0 ≡ ok b) × ((continue (r, s) f).1 ≡ (f a s).1)
  continue-ok (ok a) s f h = (a, refl, h, refl)
  continue-ok (err e) s f h = cc

  pub bind-ok :
      (m : Exec S A) (f : A → Exec S B) (s : S) {b : B} → ((m >>= f) s).0 ≡ ok b → BindOk m f s b
  unfolding ◌>>=◌
  bind-ok m f s h =
      let c = continue-ok (m s).0 (m s).1 f h in
      record { value = c.0; first = c.1; then_ok = c.2; state = c.3 }

  continue-outcome :
      (J : S → Type 0) (r : Result A) (s : S) (f : A → Exec S B)
      → ((a : A) → r ≡ ok a → J (f a s).1)
      → ((e : Error) → r ≡ err e → J s)
      → J (continue (r, s) f).1
  continue-outcome J (ok a) s f k h = k a refl
  continue-outcome J (err e) s f k h = h e refl

  -- What holds after a block, from what holds after its first part in each of its two outcomes.
  pub bind-outcome :
      (J : S → Type 0) (m : Exec S A) (f : A → Exec S B) (s : S)
      → ((a : A) → (m s).0 ≡ ok a → J (f a (m s).1).1)
      → ((e : Error) → (m s).0 ≡ err e → J (m s).1)
      → J ((m >>= f) s).1
  unfolding ◌>>=◌
  bind-outcome J m f s k h = continue-outcome J (m s).0 (m s).1 f k h

  continue-err :
      (J : S → Type 0) (r : Result A) (s : S) (f : A → Exec S B) {e : Error}
      → (continue (r, s) f).0 ≡ err e
      → J s
      → ((a : A) → (f a s).0 ≡ err e → J (f a s).1)
      → J (continue (r, s) f).1
  continue-err J (ok a) s f h first rest = rest a h
  continue-err J (err e) s f h first rest = first

  -- What holds after a block that fails: its first part failed, or the rest did.
  pub bind-err :
      (J : S → Type 0) (m : Exec S A) (f : A → Exec S B) (s : S) {e : Error}
      → ((m >>= f) s).0 ≡ err e
      → J (m s).1
      → ((a : A) → (f a (m s).1).0 ≡ err e → J (f a (m s).1).1)
      → J ((m >>= f) s).1
  unfolding ◌>>=◌
  bind-err J m f s h first rest = continue-err J (m s).0 (m s).1 f h first rest
