-- ===== src/Finalizers/Tests.antt =====
-- Finalizers of one object.
use operating_system_manager.Prelude.{[], ◌∷◌, ◌≡◌, ◌||◌, ◌&&◌, not}
use operating_system_manager.Finalizers.{contains, add_finalizer, remove_finalizer}
use operating_system_manager.Finalizers.Laws.{contains-add_finalizer, contains-remove_finalizer}
use operating_system_manager.Osc.Tests.{sets, sets-KeepsElements}
use operating_system_manager.Osc.Tests.Objects.{workers}

contains-add_finalizer_example :
    contains (add_finalizer sets (workers "aws") ("a" ∷ [])).finalizers "other"
    ≡ (contains ("a" ∷ []) "other" || contains (workers "aws").finalizers "other")
contains-add_finalizer_example =
    contains-add_finalizer sets sets-KeepsElements (workers "aws") ("a" ∷ []) "other"

contains-remove_finalizer_example :
    contains (remove_finalizer sets (workers "aws") ("other" ∷ [])).finalizers "other"
    ≡ (contains (workers "aws").finalizers "other" && not (contains ("other" ∷ []) "other"))
contains-remove_finalizer_example =
    contains-remove_finalizer sets sets-KeepsElements (workers "aws") ("other" ∷ []) "other"
