-- ===== src/Osp/Tests.antt =====
-- The OSP controller on a cluster that is a function of the keys, and one file of OSPs.
use operating_system_manager.Prelude.{
  String, true, Option, none, some, [], ◌∷◌, map, ◌≡◌, refl, sym, false, if◌then◌else◌,
}
use operating_system_manager.Prelude.Text.{replace_all, replace_from}
use operating_system_manager.Prelude.Dict.{Dict, lookup, insert}
use operating_system_manager.Prelude.Result.{Result, ok, err, ok-injective}
use operating_system_manager.Prelude.Exec.{wrap, ◌>>=◌}
use operating_system_manager.Crd.{Osp}
use operating_system_manager.Machine.{Key, key_eq, key_eq_iff}
use operating_system_manager.Finalizers.{contains}
use operating_system_manager.Osp.Files.{
  Files, osp_name, parse_osp_file, load_files, load_default_osps,
}
use operating_system_manager.Osp.Controller.{
  Reconciling, IsLawful, empty_osp, object_wrapper, modified, osp_reconciler, reconcile_osps,
  reconcile_default, reconcile_osp, reconcile_each,
}
use operating_system_manager.Osp.Installed.{
  IsInstalled, IsAtVersion, reconcile_osp-IsInstalled, reconcile_each-IsAtVersion,
}
use operating_system_manager.Osp.Loaded.{FromFile, load_default_osps-exact}

abbrev Cluster : Type 0
Cluster = Key → Option Osp

abbrev store : Key → Result Osp → Cluster → Result (Unit {0}) × Cluster
store k (ok x) c = (ok tt, λ j. if key_eq k j then some x else c j)
store k (err e) c = (err e, c)

abbrev with_field : (Osp → Osp) → Result Osp → Result Osp
with_field f (ok x) = ok (f x)
with_field f (err e) = err e

abbrev cluster : Reconciling
cluster = record {
  State = Cluster;
  create_with_namespace = λ f n o. with_field (λ x. record x { namespace = n }) (f o);
  create_with_name = λ f n o. with_field (λ x. record x { name = n }) (f o);
  ensure_named_object = λ k f c. store k (f (c k)) c;
}

with_field-ok :
    (f : Osp → Osp) (r : Result Osp) (x : Osp)
    → with_field f r ≡ ok x
    → (y : Osp) × (r ≡ ok y) × (x ≡ f y)
with_field-ok f (ok y) x h = (y, refl, sym (ok-injective _ _ h))
with_field-ok f (err e) x h = cc

store-ok :
    (k : Key) (r : Result Osp) (c : Cluster)
    → (store k r c).0 ≡ ok tt
    → (x : Osp) × (r ≡ ok x) × ((store k r c).1 k ≡ some x)
store-ok k (ok x) c h = (x, refl, rw ((key_eq_iff k k).1 refl) refl)
store-ok k (err e) c h = cc

store-other :
    (k j : Key) (r : Result Osp) (c : Cluster) → key_eq k j ≡ false → (store k r c).1 j ≡ c j
store-other k j (ok x) c ne = rw ne refl
store-other k j (err e) c ne = refl

cluster-IsLawful : IsLawful cluster
cluster-IsLawful = record {
  stored = λ c. c;
  namespaced = λ f n o x h. with_field-ok _ (f o) x h;
  named = λ f n o x h. with_field-ok _ (f o) x h;
  ensured = λ k f c h. store-ok k (f (c k)) c h;
  untouched = λ k j f c ne. store-other k j (f (c k)) c ne;
}

abbrev source : Osp
source = record empty_osp {
  spec = record empty_osp.spec { os_name = "ubuntu"; version = "v1.7.0" };
}

abbrev defaults : Dict Osp
defaults = ("osp-ubuntu", source) ∷ []

abbrev empty_cluster : Cluster
empty_cluster k = none

default-found : lookup "osp-ubuntu" defaults ≡ some source
unfolding lookup
default-found = refl

run-ok : (reconcile_osp cluster defaults "kube-system" "osp-ubuntu" empty_cluster).0 ≡ ok tt
unfolding reconcile_osp reconcile_default reconcile_osps modified object_wrapper osp_reconciler
    lookup wrap ◌>>=◌
run-ok = refl

reconcile_osp-IsInstalled_example :
    (x : Osp) × (cluster-IsLawful.stored
        (reconcile_osp cluster defaults "kube-system" "osp-ubuntu" empty_cluster).1
        (record { namespace = "kube-system"; name = "osp-ubuntu" })
      ≡ some x)
    × IsInstalled source
        (record { namespace = "kube-system"; name = "osp-ubuntu" })
        (cluster-IsLawful.stored empty_cluster
          (record { namespace = "kube-system"; name = "osp-ubuntu" }))
        x
reconcile_osp-IsInstalled_example =
    reconcile_osp-IsInstalled cluster cluster-IsLawful "kube-system" defaults "osp-ubuntu" source
      empty_cluster default-found run-ok

each-ok :
    (reconcile_each cluster defaults "kube-system" ("unknown" ∷ "osp-ubuntu" ∷ []) empty_cluster).0
    ≡ ok tt
unfolding reconcile_each reconcile_osp reconcile_default reconcile_osps modified object_wrapper
    osp_reconciler lookup wrap ◌>>=◌
each-ok = refl

listed : contains ("unknown" ∷ "osp-ubuntu" ∷ []) "osp-ubuntu" ≡ true
unfolding contains
listed = refl

reconcile_each-IsAtVersion_example :
    IsAtVersion cluster cluster-IsLawful "kube-system" defaults "osp-ubuntu" source default-found
      (reconcile_each cluster defaults "kube-system"
        ("unknown" ∷ "osp-ubuntu" ∷ [])
        empty_cluster).1
reconcile_each-IsAtVersion_example =
    reconcile_each-IsAtVersion cluster cluster-IsLawful "kube-system" defaults "osp-ubuntu" source
      default-found ("unknown" ∷ "osp-ubuntu" ∷ []) empty_cluster listed each-ok

-- A file holds its own name.
abbrev one_file : Files
one_file = record {
  read_dir = λ dir. ok ("osp-ubuntu.yaml" ∷ []);
  read_file = λ path. ok path;
  unmarshal = λ content. ok (record source { name = content });
}

abbrev loaded : Dict Osp
loaded = ("osp-ubuntu", record source { name = "default/osp-ubuntu.yaml" }) ∷ []

load-ok : load_default_osps one_file ≡ ok loaded
unfolding load_default_osps load_files parse_osp_file osp_name replace_all replace_from insert
load-ok = refl

load_default_osps-exact_example :
    ((name : String) (osp : Osp)
      → lookup name loaded ≡ some osp
      → FromFile one_file ("osp-ubuntu.yaml" ∷ []) name osp)
    × ((name : String)
        → contains (map osp_name ("osp-ubuntu.yaml" ∷ [])) name ≡ true
        → (osp : Osp) × (lookup name loaded ≡ some osp))
load_default_osps-exact_example =
    load_default_osps-exact one_file ("osp-ubuntu.yaml" ∷ []) loaded refl load-ok

replaced_all : osp_name "a.yamlb.yaml.yml" ≡ "ab.yml"
unfolding osp_name replace_all replace_from
replaced_all = refl
