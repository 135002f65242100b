-- ===== src/Finalizers/Laws.antt =====
-- What the finalizer operations do to the set of finalizers.
use operating_system_manager.Prelude.{
  String, not, List, [], ◌∷◌, ◌++◌, ◌&&◌, ◌||◌, ◌==◌, ◌≡◌, refl, arith, eq_iff, ◌∙◌,
}
use operating_system_manager.Machine.{MachineDeployment}
use operating_system_manager.Finalizers.{
  Sets, KeepsElements, contains, without, without_all, add_finalizer, remove_finalizer,
}

contains-append :
    (xs ys : List String) (a : String) → contains (xs ++ ys) a ≡ (contains xs a || contains ys a)
unfolding contains
contains-append [] ys a = refl
contains-append (x ∷ xs) ys a = ground (arith, contains-append xs ys a)

contains-without :
    (n : String) (xs : List String) (a : String)
    → contains (without n xs) a ≡ (contains xs a && not (n == a))
unfolding contains without
contains-without n [] a = refl
contains-without n (x ∷ xs) a =
    ground (arith, contains-without n xs a, eq_iff x n, eq_iff x a, eq_iff n a)

-- Afterwards an object has a finalizer exactly if it had it before or it is among the added ones;
-- in particular it has every added one, and keeps all others.
pub contains-add_finalizer :
    (S : Sets)
    → KeepsElements S
    → (o : MachineDeployment) (names : List String) (a : String)
    → contains (add_finalizer S o names).finalizers a
      ≡ (contains names a || contains o.finalizers a)
unfolding add_finalizer
contains-add_finalizer S law o names a =
    law (names ++ o.finalizers) a ∙ contains-append names o.finalizers a

contains-without_all :
    (ns xs : List String) (a : String)
    → contains (without_all ns xs) a ≡ (contains xs a && not (contains ns a))
unfolding contains without_all
contains-without_all [] xs a = ground arith
contains-without_all (n ∷ ns) xs a =
    rw (contains-without_all ns (without n xs) a) (rw (contains-without n xs a) (ground arith))

-- Afterwards an object has a finalizer exactly if it had it before and it is not among the removed
-- ones.
pub contains-remove_finalizer :
    (S : Sets)
    → KeepsElements S
    → (o : MachineDeployment) (names : List String) (a : String)
    → contains (remove_finalizer S o names).finalizers a
      ≡ (contains o.finalizers a && not (contains names a))
unfolding remove_finalizer
contains-remove_finalizer S law o names a = law _ a ∙ contains-without_all names o.finalizers a
