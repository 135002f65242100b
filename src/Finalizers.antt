-- ===== src/Finalizers.antt =====
-- pkg/kubernetes/helper.go: finalizers as sets of texts. `sets.String` of apimachinery stands for
-- its documented operations: a set is a list, and `List` returns its elements sorted, each once.
pub mod Laws
pub mod Tests
use operating_system_manager.Prelude.{
  String, Bool, true, false, List, [], ◌∷◌, ◌++◌, ◌≡◌, ◌&&◌, ◌||◌, ◌==◌, if◌then◌else◌,
}
use operating_system_manager.Machine.{MachineDeployment}

unfoldable pub contains : List String → String → Bool
contains [] a = false
contains (x ∷ xs) a = x == a || contains xs a

-- The parameter: List of a set that was built from the texts.
pub record Sets : Type 0 where
  pub sorted : List String → List String

-- `List` keeps exactly the elements.
abbrev pub KeepsElements : Sets → Type 0
KeepsElements S = (xs : List String) (a : String) → contains (S.sorted xs) a ≡ contains xs a

unfoldable pub has_all : List String → List String → Bool
has_all xs [] = true
has_all xs (n ∷ ns) = contains xs n && has_all xs ns

-- Set.Delete of one element
unfoldable pub without : String → List String → List String
without a [] = []
without a (x ∷ xs) = let rest = without a xs in if x == a then rest else x ∷ rest

unfoldable pub without_all : List String → List String → List String
unfolding without
without_all [] xs = xs
without_all (n ∷ ns) xs = without_all ns (without n xs)

-- HasFinalizer
unfoldable pub has_finalizer : MachineDeployment → List String → Bool
unfolding contains has_all
has_finalizer o names = has_all o.finalizers names

module _ (S : Sets) where
  -- AddFinalizer
  unfoldable pub add_finalizer : MachineDeployment → List String → MachineDeployment
  add_finalizer o names = record o { finalizers = S.sorted (names ++ o.finalizers) }

  -- RemoveFinalizer
  unfoldable pub remove_finalizer : MachineDeployment → List String → MachineDeployment
  unfolding without_all
  remove_finalizer o names = record o { finalizers = S.sorted (without_all names o.finalizers) }
