-- ===== src/Osc/Api/Keeps.antt =====
-- Invariants of the stored objects, one rule for each way to build a call.
use operating_system_manager.Prelude.{
  String, List, Bool, true, false, ◌≡◌, sym, refl, if◌then◌else◌,
}
use operating_system_manager.Prelude.Result.{Error, Result, ok, err}
use mathlib.Core.Path.{subst}
use operating_system_manager.Prelude.Exec.{
  Exec, pure, raise, lift, wrap, wrap_pair, continue, attempt, ◌>>=◌,
}
use operating_system_manager.Machine.{Key}
use operating_system_manager.Osc.Api.{Api}
use operating_system_manager.Osc.Api.Laws.{Content, IsLawful, Writes}

module _ {A : Api} (L : IsLawful A) (I : Content → Type 0) where
  -- Whatever the outcome, the invariant still holds.
  pub record Keeps {B : Type 0} (m : Exec A.State B) : Type 0 where
    pub at : (s : A.State) → I (L.content s) → I (L.content (m s).1)

wrap-state :
    {B S : Type 0} (f : String) (a : List String) (p : Result B × S) → (wrap_pair f a p).1 ≡ p.1
wrap-state f a (ok b, s) = refl
wrap-state f a (err e, s) = refl

-- A write keeps what both of its outcomes keep.
pub Writes_keeps :
    (I : Content → Type 0) {B : Type 0} (r : Result B) {c d after : Content}
    → Writes r c d after
    → I c
    → I d
    → I after
Writes_keeps I (ok b) w hc hd = subst I (sym w) hd
Writes_keeps I (err e) w hc hd = subst I (sym w) hc

-- The same, where a confirmed write says more of the objects before it.
pub Writes_keeps_if :
    (I : Content → Type 0) (r : Result (Unit {0})) {c d after : Content}
    → Writes r c d after
    → I c
    → (r ≡ ok tt → I d)
    → I after
Writes_keeps_if I (ok tt) w hc hd = subst I (sym w) (hd refl)
Writes_keeps_if I (err e) w hc hd = subst I (sym w) hc

module _ {A : Api} {L : IsLawful A} {I : Content → Type 0} where
  pub Keeps-lift : {B : Type 0} (r : Result B) → Keeps L I (lift r)
  Keeps-lift r = record { at = λ s h. h }

  pub Keeps-pure : {B : Type 0} (b : B) → Keeps L I (pure b)
  Keeps-pure b = record { at = λ s h. h }

  pub Keeps-raise : {B : Type 0} (e : Error) → Keeps L I (raise {A = B} e)
  Keeps-raise e = record { at = λ s h. h }

  pub Keeps-if :
      {B : Type 0} (b : Bool) (m n : Exec A.State B)
      → Keeps L I m
      → Keeps L I n
      → Keeps L I (if b then m else n)
  Keeps-if true m n km kn = km
  Keeps-if false m n km kn = kn

  pub Keeps-attempt :
      {B C : Type 0} (m : Exec A.State B) (f : Result B → Exec A.State C)
      → Keeps L I m
      → ((r : Result B) → Keeps L I (f r))
      → Keeps L I (attempt m f)
  unfolding attempt
  Keeps-attempt m f km kf = record { at = λ s h. let (r, s') = m s in (kf r).at s' (km.at s h) }

  continue-keeps :
      {B C : Type 0} (r : Result B) (s : A.State) (f : B → Exec A.State C)
      → ((b : B) → Keeps L I (f b))
      → I (L.content s)
      → I (L.content (continue (r, s) f).1)
  continue-keeps (ok b) s f kf h = (kf b).at s h
  continue-keeps (err e) s f kf h = h

  pub Keeps-bind :
      {B C : Type 0} (m : Exec A.State B) (f : B → Exec A.State C)
      → Keeps L I m
      → ((b : B) → Keeps L I (f b))
      → Keeps L I (m >>= f)
  unfolding ◌>>=◌
  Keeps-bind m f km kf = record {
    at = λ s h. let (r, s') = m s in continue-keeps r s' f kf (km.at s h);
  }

  pub Keeps-wrap :
      {B : Type 0} (f : String) (a : List String) (m : Exec A.State B)
      → Keeps L I m
      → Keeps L I (wrap f a m)
  unfolding wrap
  Keeps-wrap f a m km = record {
    at = λ s h. subst (λ t. I (L.content t)) (sym (wrap-state f a (m s))) (km.at s h);
  }

  -- The rest of a block may use that a pure step gave its value.
  pub Keeps-bind-lift :
      {B C : Type 0} (r : Result B) (f : B → Exec A.State C)
      → ((b : B) → r ≡ ok b → Keeps L I (f b))
      → Keeps L I (lift r >>= f)
  unfolding ◌>>=◌
  Keeps-bind-lift (ok b) f kf = kf b refl
  Keeps-bind-lift (err e) f kf = Keeps-raise e

  -- Reads
  pub Keeps-get_md : (k : Key) → Keeps L I (A.get_md k)
  Keeps-get_md k = record { at = λ s h. subst I (sym (L.get_md_content k s)) h }

  pub Keeps-get_osp : (k : Key) → Keeps L I (A.get_osp k)
  Keeps-get_osp k = record { at = λ s h. subst I (sym (L.get_osp_content k s)) h }

  pub Keeps-get_osc : (k : Key) → Keeps L I (A.get_osc k)
  Keeps-get_osc k = record { at = λ s h. subst I (sym (L.get_osc_content k s)) h }

  pub Keeps-get_secret : (k : Key) → Keeps L I (A.get_secret k)
  Keeps-get_secret k = record { at = λ s h. subst I (sym (L.get_secret_content k s)) h }

pub ruleset keeps_rules = (
  Keeps-lift, Keeps-pure, Keeps-raise, Keeps-if, Keeps-attempt, Keeps-bind, Keeps-wrap,
  Keeps-get_md, Keeps-get_osp, Keeps-get_osc, Keeps-get_secret,
)
