-- ===== src/Osp/Installed.antt =====
-- What the OSP controller makes of the OSPs in the cluster.
use mathlib.Core.Path.{subst}
use mathlib.Core.Option.{some-injective}
use operating_system_manager.Prelude.{
  String, true, false, Option, none, some, List, [], ◌∷◌, ◌==◌, ◌≡◌, ◌≢◌, refl, sym, ◌∙◌, ap, ◌⊎◌,
  Bool-cases, inl, inr, eq_refl, eq_iff, arith,
}
use operating_system_manager.Prelude.Dict.{Dict, lookup}
use operating_system_manager.Prelude.Result.{ok, ok-injective}
use operating_system_manager.Prelude.Exec.{wrap}
use operating_system_manager.Prelude.Exec.Laws.{bind-ok, bind-outcome, wrap-ok, wrap-state}
use operating_system_manager.Crd.{Osp}
use operating_system_manager.Machine.{Key, key_eq}
use operating_system_manager.Finalizers.{contains}
use operating_system_manager.Osp.Controller.{
  Reconciling, IsLawful, ObjectReconciler, empty_osp, object_wrapper, modified, osp_reconciler,
  reconcile_osps, reconcile_default, reconcile_osp, reconcile_each,
}

-- The OSP `x` is what becomes of a default OSP where `before` was stored.
pub record IsInstalled (source : Osp) (k : Key) (before : Option Osp) (x : Osp) : Type 0 where
  pub name : x.name ≡ k.name
  pub namespace : x.namespace ≡ k.namespace
  pub version : x.spec.version ≡ source.spec.version
  -- an OSP that is new, where the default has a version at all
  pub fresh : before ≡ none → source.spec.version ≢ "" → x.spec ≡ source.spec
  pub kept : (o : Osp) → before ≡ some o → o.spec.version ≡ source.spec.version → x.spec ≡ o.spec
  pub replaced :
      (o : Osp) → before ≡ some o → o.spec.version ≢ source.spec.version → x.spec ≡ source.spec

module _ (source : Osp) where
  osp_reconciler-cases :
      (o y : Osp)
      → osp_reconciler source o ≡ ok y
      → ((o.spec.version ≡ source.spec.version) × (o ≡ y))
        ⊎ ((o.spec.version ≢ source.spec.version) × (record o { spec = source.spec } ≡ y))
  unfolding osp_reconciler
  osp_reconciler-cases o y h = elim (Bool-cases (o.spec.version == source.spec.version)) [
    | inl same ↦
        inl ((eq_iff o.spec.version source.spec.version).0 same, ok-injective _ _ (rw same at h))
    | inr differs ↦ inr (
      λ e. ground (arith, (eq_iff o.spec.version source.spec.version).1 e),
      ok-injective _ _ (rw differs at h),
    )
  ]

  abbrev Updated : Osp → Osp → Type 0
  Updated o y =
      (y.spec.version ≡ source.spec.version)
      × (o.spec.version ≡ source.spec.version → y.spec ≡ o.spec)
      × (o.spec.version ≢ source.spec.version → y.spec ≡ source.spec)

  osp_reconciler-Updated : (o y : Osp) → osp_reconciler source o ≡ ok y → Updated o y
  osp_reconciler-Updated o y h = elim (osp_reconciler-cases o y h) [
    | inl kept ↦ subst (Updated o) kept.1 (kept.0, λ _. refl, λ d. absurd (d kept.0))
    | inr new ↦ subst (Updated o) new.1 (refl, λ e. absurd (new.0 e), λ _. refl)
  ]

  -- The OSP that was there, or an empty one.
  wrapped-Updated :
      (before : Option Osp) (y : Osp)
      → object_wrapper (osp_reconciler source) before ≡ ok y
      → (y.spec.version ≡ source.spec.version)
        × (before ≡ none → source.spec.version ≢ "" → y.spec ≡ source.spec)
        × ((o : Osp) → before ≡ some o → Updated o y)
  unfolding object_wrapper
  wrapped-Updated none y h = (
    (osp_reconciler-Updated empty_osp y h).0,
    λ _ versioned. (osp_reconciler-Updated empty_osp y h).2 (λ e. versioned (sym e)),
    λ o e. cc,
  )
  wrapped-Updated (some o) y h =
      let u = osp_reconciler-Updated o y h in
      (
        u.0,
        λ absent _. absurd (cc absent),
        λ o' e. subst (λ q. Updated q y) (some-injective _ _ e) u,
      )

module _ (R : Reconciling) (L : IsLawful R) (namespace : String) where
  abbrev pub key_in : String → Key
  key_in name = record { namespace = namespace; name = name }

  ensured-IsInstalled :
      (source : Osp) (name : String) (before : Option Osp) (x : Osp)
      → R.create_with_name
          (R.create_with_namespace (object_wrapper (osp_reconciler source)) namespace)
          name
          before
        ≡ ok x
      → IsInstalled source (key_in name) before x
  ensured-IsInstalled source name before x h =
      let n = L.named _ name before x h in
      let m = L.namespaced (object_wrapper (osp_reconciler source)) namespace before n.0 n.1 in
      let u = wrapped-Updated source before m.0 m.1 in
      subst (IsInstalled source (key_in name) before) (sym n.2) (
        subst (λ z. IsInstalled source (key_in name) before (record z { name = name })) (sym m.2)
          (record {
            name = refl;
            namespace = refl;
            version = u.0;
            fresh = u.1;
            kept = λ o e. (u.2 o e).1;
            replaced = λ o e. (u.2 o e).2;
          }))

  module _ (defaults : Dict Osp) where
    reconcile_default-IsInstalled :
        (name : String) (source : Osp) (s : R.State)
        → (reconcile_default R defaults namespace name (some source) s).0 ≡ ok tt
        → (x : Osp) × (L.stored
              (reconcile_default R defaults namespace name (some source) s).1
              (key_in name)
            ≡ some x)
          × IsInstalled source (key_in name) (L.stored s (key_in name)) x
    unfolding reconcile_default reconcile_osps modified
    reconcile_default-IsInstalled name source s h =
        let all = wrap-ok _ _ _ s h in
        let one = bind-ok _ _ s all.0 in
        let made = wrap-ok _ _ _ s one.first in
        let done = L.ensured (key_in name) _ s made.0 in
        (
          done.0,
          ap (λ t. L.stored t (key_in name)) (all.1 ∙ one.state ∙ made.1) ∙ done.2,
          ensured-IsInstalled source name _ _ done.1,
        )

    -- Where k8c.io/reconciler is lawful and reconcileOSP succeeds on the name of a default OSP, an OSP
    -- of that name and of the default's version is stored in the namespace: where none was stored and
    -- the default has a version, its spec is the default's; a spec that had this version before is
    -- kept, and any other is replaced by the default's.
    pub reconcile_osp-IsInstalled :
        (name : String) (source : Osp) (s : R.State)
        → lookup name defaults ≡ some source
        → (reconcile_osp R defaults namespace name s).0 ≡ ok tt
        → (x : Osp) × (L.stored (reconcile_osp R defaults namespace name s).1 (key_in name)
            ≡ some x)
          × IsInstalled source (key_in name) (L.stored s (key_in name)) x
    unfolding reconcile_osp
    reconcile_osp-IsInstalled name source s found h =
        rw found (reconcile_default-IsInstalled name source s (rw found at h))

    ensure-other :
        (name : String) (k : Key) (f : String) (a : List String) (g : ObjectReconciler)
        (s : R.State)
        → key_eq (key_in name) k ≡ false
        → L.stored (wrap f a (R.ensure_named_object (key_in name) g) s).1 k ≡ L.stored s k
    ensure-other name k f a g s ne =
        ap (λ t. L.stored t k) (wrap-state f a _ s) ∙ L.untouched (key_in name) k g s ne

    reconcile_default-other :
        (name : String) (o : Option Osp) (k : Key) (s : R.State)
        → key_eq (key_in name) k ≡ false
        → L.stored (reconcile_default R defaults namespace name o s).1 k ≡ L.stored s k
    unfolding reconcile_default reconcile_osps
    reconcile_default-other name none k s ne = refl
    reconcile_default-other name (some source) k s ne =
        ap (λ t. L.stored t k) (wrap-state _ _ _ s)
        ∙ bind-outcome (λ t. L.stored t k ≡ L.stored s k) _ _ s
            (λ _ _. ensure-other name k _ _ _ s ne) (λ _ _. ensure-other name k _ _ _ s ne)

    reconcile_osp-other :
        (name : String) (k : Key) (s : R.State)
        → key_eq (key_in name) k ≡ false
        → L.stored (reconcile_osp R defaults namespace name s).1 k ≡ L.stored s k
    unfolding reconcile_osp
    reconcile_osp-other name k s ne = reconcile_default-other name _ k s ne

    module _ (name : String) (source : Osp) (found : lookup name defaults ≡ some source) where
      -- An OSP of the default's version is stored.
      abbrev pub IsAtVersion : R.State → Type 0
      IsAtVersion s =
          (x : Osp) × (L.stored s (key_in name) ≡ some x) × (x.spec.version ≡ source.spec.version)

      differs : (n : String) → n == name ≡ false → key_eq (key_in n) (key_in name) ≡ false
      unfolding key_eq
      differs n h = ground (arith, eq_refl namespace)

      same-IsAtVersion :
          (n : String) (s : R.State)
          → (reconcile_osp R defaults namespace n s).0 ≡ ok tt
          → n ≡ name
          → IsAtVersion (reconcile_osp R defaults namespace n s).1
      same-IsAtVersion n s h same =
          subst (λ m. IsAtVersion (reconcile_osp R defaults namespace m s).1) (sym same)
            (let done =
                reconcile_osp-IsInstalled name source s found
                  (subst (λ m. (reconcile_osp R defaults namespace m s).0 ≡ ok tt) same h) in
              (done.0, done.1, done.2.version))

      -- A further run keeps the version.
      step-IsAtVersion :
          (n : String) (s : R.State)
          → (reconcile_osp R defaults namespace n s).0 ≡ ok tt
          → IsAtVersion s
          → IsAtVersion (reconcile_osp R defaults namespace n s).1
      step-IsAtVersion n s h at = elim (Bool-cases (n == name)) [
        | inl same ↦ same-IsAtVersion n s h ((eq_iff n name).0 same)
        | inr other ↦
            subst (λ o. (x : Osp) × (o ≡ some x) × (x.spec.version ≡ source.spec.version))
              (sym (reconcile_osp-other n (key_in name) s (differs n other))) at
      ]

      each-keeps :
          (names : List String) (s : R.State)
          → (reconcile_each R defaults namespace names s).0 ≡ ok tt
          → IsAtVersion s
          → IsAtVersion (reconcile_each R defaults namespace names s).1
      unfolding reconcile_each
      each-keeps [] s h at = at
      each-keeps (n ∷ ns) s h at =
          let one = bind-ok _ _ s h in
          subst IsAtVersion (sym one.state)
            (each-keeps ns _ one.then_ok (step-IsAtVersion n s one.first at))

      -- Where k8c.io/reconciler is lawful and the requests for a list of names all succeed, one after the
      -- other, each default OSP in the
      -- list ends up stored with the version of the default.
      pub reconcile_each-IsAtVersion :
          (names : List String) (s : R.State)
          → contains names name ≡ true
          → (reconcile_each R defaults namespace names s).0 ≡ ok tt
          → IsAtVersion (reconcile_each R defaults namespace names s).1
      unfolding reconcile_each contains
      reconcile_each-IsAtVersion [] s listed h = cc
      reconcile_each-IsAtVersion (n ∷ ns) s listed h =
          let one = bind-ok _ _ s h in
          subst IsAtVersion (sym one.state) (elim (Bool-cases (n == name)) [
            | inl same ↦
                each-keeps ns _ one.then_ok
                  (same-IsAtVersion n s one.first ((eq_iff n name).0 same))
            | inr other ↦ reconcile_each-IsAtVersion ns _ (rw other at listed) one.then_ok
          ])
