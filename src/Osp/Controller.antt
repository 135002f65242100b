-- ===== src/Osp/Controller.antt =====
-- osp_controller.go: the reconciler, and zz_generated_reconcile.go, which it calls.
use operating_system_manager.Prelude.{
  String, Bool, Option, none, some, List, [], ◌∷◌, ◌==◌, ◌≡◌, false, if◌then◌else◌,
}
use operating_system_manager.Prelude.Dict.{Dict, lookup, keys}
use operating_system_manager.Prelude.Result.{Result, ok}
use operating_system_manager.Prelude.Result
use operating_system_manager.Prelude.Exec.{Exec, pure, wrap, ◌>>◌}
use operating_system_manager.Crd.{Osp, OspConfig}
use operating_system_manager.Machine.{Key, key_eq}
use operating_system_manager.Osp.Files.{Files, load_default_osps}

-- ObjectReconciler at this type: nil is no object.
abbrev pub ObjectReconciler : Type 0
ObjectReconciler = Option Osp → Result Osp

-- What the code calls of k8c.io/reconciler.
pub record Reconciling : Type 1 where
  pub State : Type 0
  pub create_with_namespace : ObjectReconciler → String → ObjectReconciler
  pub create_with_name : ObjectReconciler → String → ObjectReconciler
  pub ensure_named_object : Key → ObjectReconciler → Exec State (Unit {0})

-- Its documented behaviour: the two set a field of the result, and EnsureNamedObject, where it
-- succeeds, has stored what the reconciler makes of the stored object. It touches no other object.
pub record IsLawful (R : Reconciling) : Type 0 where
  pub stored : R.State → Key → Option Osp
  pub namespaced :
      (f : ObjectReconciler) (n : String) (o : Option Osp) (x : Osp)
      → R.create_with_namespace f n o ≡ ok x
      → (y : Osp) × (f o ≡ ok y) × (x ≡ record y { namespace = n })
  pub named :
      (f : ObjectReconciler) (n : String) (o : Option Osp) (x : Osp)
      → R.create_with_name f n o ≡ ok x
      → (y : Osp) × (f o ≡ ok y) × (x ≡ record y { name = n })
  pub ensured :
      (k : Key) (f : ObjectReconciler) (s : R.State)
      → (R.ensure_named_object k f s).0 ≡ ok tt
      → (x : Osp) × (f (stored s k) ≡ ok x) × (stored (R.ensure_named_object k f s).1 k ≡ some x)
  pub untouched :
      (k j : Key) (f : ObjectReconciler) (s : R.State)
      → key_eq k j ≡ false
      → stored (R.ensure_named_object k f s).1 j ≡ stored s j

abbrev empty_config : OspConfig
empty_config = record {
  supported_container_runtimes = [];
  templates = [];
  units = [];
  files = [];
  cloud_init_modules = none;
}

-- &OperatingSystemProfile{}
abbrev pub empty_osp : Osp
empty_osp = record {
  name = "";
  namespace = "";
  spec = record {
    os_name = "";
    os_version = "";
    version = "";
    supported_cloud_providers = [];
    bootstrap_config = empty_config;
    provisioning_config = empty_config;
    provisioning_utility = "";
  };
}

-- OperatingSystemProfileObjectWrapper
unfoldable pub object_wrapper : (Osp → Result Osp) → ObjectReconciler
object_wrapper reconciler (some existing) = reconciler existing
object_wrapper reconciler none = reconciler empty_osp

-- The loop over the object modifiers.
unfoldable pub modified :
    List (ObjectReconciler → ObjectReconciler) → ObjectReconciler → ObjectReconciler
modified [] f = f
modified (m ∷ ms) f = modified ms (m f)

-- The function that ospReconciler returns.
unfoldable pub osp_reconciler : Osp → Osp → Result Osp
osp_reconciler source osp =
    if osp.spec.version == source.spec.version
    then ok osp
    else ok (record osp { spec = source.spec })

module _ (R : Reconciling) where
  module _ (namespace : String) (modifiers : List (ObjectReconciler → ObjectReconciler)) where
    -- ReconcileOperatingSystemProfiles
    unfoldable pub reconcile_osps : List (String × (Osp → Result Osp)) → Exec R.State (Unit {0})
    reconcile_osps [] = pure tt
    reconcile_osps ((name, reconciler) ∷ factories) =
        wrap "failed to ensure OperatingSystemProfile %s/%s: %w" (namespace ∷ name ∷ []) (
          R.ensure_named_object (record { namespace = namespace; name = name })
            (modified modifiers (
              R.create_with_name (R.create_with_namespace (object_wrapper reconciler) namespace)
                name)))
        >> reconcile_osps factories

  module _ (defaults : Dict Osp) (namespace : String) where
    unfoldable pub reconcile_default : String → Option Osp → Exec R.State (Unit {0})
    reconcile_default name none = pure tt
    reconcile_default name (some osp) =
        wrap "failed to reconcile OSP: %w" []
          (reconcile_osps namespace [] ((name, osp_reconciler osp) ∷ []))

    -- reconcileOSP
    unfoldable pub reconcile_osp : String → Exec R.State (Unit {0})
    reconcile_osp name = reconcile_default name (lookup name defaults)

    -- Requests for the names, one after the other. The queue of controller-runtime, which makes the
    -- requests of the program, is not modelled.
    unfoldable pub reconcile_each : List String → Exec R.State (Unit {0})
    reconcile_each [] = pure tt
    reconcile_each (name ∷ names) = reconcile_osp name >> reconcile_each names

-- The predicate of the watch.
unfoldable pub in_namespace : String → Osp → Bool
in_namespace namespace osp = osp.namespace == namespace

-- Add: the default OSPs and the names that are put on the bootstrapping channel, or nothing.
unfoldable pub add_controller : Files → Bool → Result (Option (Dict Osp × List String))
add_controller F disable_default_osps =
    if disable_default_osps
    then ok none
    else Result.◌>>=◌ (Result.wrap "failed to load default OSPs: %w" [] (load_default_osps F))
        (λ osps. ok (some (osps, keys osps)))
