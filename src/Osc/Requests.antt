-- ===== src/Osc/Requests.antt =====
-- Reconcile as a whole: the requests of MachineDeployments that are absent, being deleted, or to be kept.
use mathlib.Core.Path.{subst}
use mathlib.Core.Option.{some-injective}
use operating_system_manager.Prelude.{
  Bool, true, false, Option, none, some, [], ◌∷◌, ◌≡◌, refl, sym, ◌∙◌, ap, arith, Bool-cases, inl,
  inr, if◌then◌else◌,
}
use operating_system_manager.Prelude.Result.{Error, Result, ok, err, is_not_found}
use operating_system_manager.Prelude.Exec.{attempt, wrap, ◌>>◌}
use operating_system_manager.Prelude.Exec.Laws.{bind-ok, wrap-ok}
use operating_system_manager.Crd.{Osc}
use operating_system_manager.Machine.{Key, MachineDeployment}
use operating_system_manager.Finalizers.{Sets, KeepsElements, has_finalizer, add_finalizer}
use operating_system_manager.Osc.Names.{cleanup_finalizer}
use operating_system_manager.Osc.Api.{Api, Sdk, Parts, Settings}
use operating_system_manager.Osc.Api.Laws.{IsLawful, Answers, md_key, set_at, stored_after, written}
use operating_system_manager.Osc.Invariants.{PartsKeep, NamesOsc}
use operating_system_manager.Osc.Frame.{OscAt}
use operating_system_manager.Osc.Current.{KeysDiffer}
use operating_system_manager.Osc.Settled.{IsSettled, reconcile-IsSettled}
use operating_system_manager.Osc.Configs.{osc_key_of}
use operating_system_manager.Osc.Cleanup.{AllGone, IsReleased, handle_cleanup-AllGone}
use operating_system_manager.Osc.Reconciler.{
  osp_key, reconcile, with_finalizer, finish_deletion, reconcile_found, reconcile_request,
}

if_true : {X : Type 0} (b : Bool) (x y : X) → b ≡ true → (if b then x else y) ≡ x
if_true true x y h = refl
if_true false x y h = cc

if_false : {X : Type 0} (b : Bool) (x y : X) → b ≡ false → (if b then x else y) ≡ y
if_false false x y h = refl
if_false true x y h = cc

module _ (A : Api) (L : IsLawful A) (K : Sdk) (S : Sets) (P : Parts A.State) (r : Settings)
    (k : Key) where
  reconcile_found-absent :
      (q : Result MachineDeployment) (s : A.State)
      → Answers none q
      → (reconcile_found A K S P r q s).1 ≡ s
  unfolding reconcile_found
  reconcile_found-absent (ok md) s found = cc
  reconcile_found-absent (err e) s found = ground arith

  unread_at :
      (e : Error) (s : A.State)
      → (reconcile_found A K S P r (err e) s).0 ≡ (if is_not_found e then ok tt else err e)
  unfolding reconcile_found
  unread_at e s = elim (Bool-cases (is_not_found e)) [
    | inl gone ↦ rw gone refl
    | inr fault ↦ rw fault refl
  ]

  unread :
      (q : Result MachineDeployment) (e : Error) (s : A.State)
      → q ≡ err e
      → (reconcile_found A K S P r q s).0 ≡ (if is_not_found e then ok tt else err e)
  unread q e s h = ap (λ q'. (reconcile_found A K S P r q' s).0) h ∙ unread_at e s

  -- Where the API servers are lawful, a request for a MachineDeployment that is not stored changes
  -- nothing, and it succeeds if the read finds nothing; if the read fails otherwise, it ends in that
  -- error.
  pub reconcile_request-absent :
      (s : A.State)
      → (L.content s).mds k ≡ none
      → (L.content (reconcile_request A K S P r k s).1 ≡ L.content s)
        × ((e : Error)
            → (A.get_md k s).0 ≡ err e
            → (reconcile_request A K S P r k s).0 ≡ (if is_not_found e then ok tt else err e))
  unfolding reconcile_request attempt
  reconcile_request-absent s h = (
    ap L.content (
          reconcile_found-absent (A.get_md k s).0 (A.get_md k s).1
            (subst (λ o. Answers o (A.get_md k s).0) h (L.get_md_answer k s)))
        ∙ L.get_md_content k s,
    λ e q. unread (A.get_md k s).0 e (A.get_md k s).1 q,
  )

  module _ (md : MachineDeployment) (deleting : md.deleting ≡ true)
      (pending : has_finalizer md (cleanup_finalizer ∷ []) ≡ true) (law : KeepsElements S) where
    -- The OSC and the Secrets of the MachineDeployment are gone, and so is its finalizer.
    abbrev pub IsCleaned : A.State → Type 0
    IsCleaned s = AllGone K r md (L.content s) × IsReleased md (L.content s)

    finish_deletion-IsCleaned :
        (s : A.State)
        → (finish_deletion A K S P r md s).0 ≡ ok tt
        → IsCleaned (finish_deletion A K S P r md s).1
    unfolding finish_deletion
    finish_deletion-IsCleaned s h =
        rw pending (handle_cleanup-AllGone A L K S P r md law s (rw pending at h))

    deletion_branch : reconcile_found A K S P r (ok md) ≡ finish_deletion A K S P r md
    unfolding reconcile_found
    deletion_branch = if_true md.deleting _ _ deleting

    reconcile_found-IsCleaned :
        (q : Result MachineDeployment) (s : A.State)
        → Answers (some md) q
        → (reconcile_found A K S P r q s).0 ≡ ok tt
        → IsCleaned (reconcile_found A K S P r q s).1
    unfolding reconcile_found
    reconcile_found-IsCleaned (ok m) s found h =
        let branch =
          ap (λ x. reconcile_found A K S P r (ok x)) (sym (some-injective _ _ found))
          ∙ deletion_branch in
        subst (λ f. (f s).0 ≡ ok tt → IsCleaned (f s).1) (sym branch) (finish_deletion-IsCleaned s)
          h
    reconcile_found-IsCleaned (err e) s found h = elim (Bool-cases (is_not_found e)) [
      | inl gone ↦ absurd (cc (found gone))
      | inr fault ↦ absurd (cc (rw fault at h))
    ]

    -- Where the API servers and the sets are lawful, a request that succeeds for a stored
    -- MachineDeployment that is marked for deletion and has the finalizer leaves neither its OSC nor
    -- its Secrets; the MachineDeployment has lost that finalizer and no other, and is stored so, or
    -- gone where it had no other.
    pub reconcile_request-IsCleaned :
        (s : A.State)
        → (L.content s).mds k ≡ some md
        → (reconcile_request A K S P r k s).0 ≡ ok tt
        → IsCleaned (reconcile_request A K S P r k s).1
    unfolding reconcile_request attempt
    reconcile_request-IsCleaned s stored h =
        reconcile_found-IsCleaned (A.get_md k s).0 (A.get_md k s).1
          (subst (λ o. Answers o (A.get_md k s).0) stored (L.get_md_answer k s)) h

-- A MachineDeployment with the finalizer.
abbrev pub prepared : Sets → MachineDeployment → MachineDeployment
prepared S md =
    if has_finalizer md (cleanup_finalizer ∷ [])
    then md
    else add_finalizer S md (cleanup_finalizer ∷ [])

module _ (A : Api) (L : IsLawful A) (K : Sdk) (S : Sets) (P : Parts A.State) (r : Settings)
    (differ : KeysDiffer K) (names : NamesOsc P)
    (parts : (k : Key) (o : Option Osc) → PartsKeep L P (OscAt k o)) where
  abbrev Settles : MachineDeployment → A.State → A.State → Type 0
  Settles md s t = IsSettled K r md (osp_key A K S P r md) (L.content s) (L.content t)

  reconcile-Settles :
      (md : MachineDeployment) (s : A.State)
      → (reconcile A K S P r md s).0 ≡ ok tt
      → Settles md s (reconcile A K S P r md s).1
  reconcile-Settles md s h =
      reconcile-IsSettled A L K S P r md differ names (parts (osc_key_of r md)) s h

  -- An update of MachineDeployments leaves the OSPs.
  earlier :
      (md m : MachineDeployment) (s t u : A.State)
      → L.content t
        ≡ record (L.content s) { mds = set_at (md_key m) (stored_after m) (L.content s).mds }
      → Settles md t u
      → Settles md s u
  earlier md m s t u e done = record {
    osp = done.osp;
    named = ap (λ c. c.osps (osp_key A K S P r md)) (sym e) ∙ done.named;
    valid = done.valid;
    osc = done.osc;
    stored = done.stored;
    current = done.current;
    provisioning = done.provisioning;
    bootstrap = done.bootstrap;
  }

  added-Settles :
      (m : MachineDeployment) (s : A.State)
      → ((wrap "failed to add finalizer: %w" [] (A.update_md m) >> reconcile A K S P r m) s).0
        ≡ ok tt
      → Settles m s
          ((wrap "failed to add finalizer: %w" [] (A.update_md m) >> reconcile A K S P r m) s).1
  added-Settles m s h =
      let one = bind-ok _ _ s h in
      let update = wrap-ok _ _ (A.update_md m) s one.first in
      subst (Settles m s) (sym one.state) (
        earlier m m s _ _
          (ap L.content update.1
            ∙ written (A.update_md m s).0 _ _ (L.update_md_writes m s) update.0)
          (reconcile-Settles m _ one.then_ok))

  with_finalizer-Settles :
      (md : MachineDeployment) (s : A.State)
      → (with_finalizer A K S P r md s).0 ≡ ok tt
      → Settles (prepared S md) s (with_finalizer A K S P r md s).1
  unfolding with_finalizer
  with_finalizer-Settles md s h = elim (Bool-cases (has_finalizer md (cleanup_finalizer ∷ []))) [
    | inl has ↦ rw has (reconcile-Settles md s (rw has at h))
    | inr lacks ↦
        rw lacks (added-Settles (add_finalizer S md (cleanup_finalizer ∷ [])) s (rw lacks at h))
  ]

  module _ (k : Key) (md : MachineDeployment) (staying : md.deleting ≡ false) where
    staying_branch : reconcile_found A K S P r (ok md) ≡ with_finalizer A K S P r md
    unfolding reconcile_found
    staying_branch = if_false md.deleting _ _ staying

    reconcile_found-Settles :
        (q : Result MachineDeployment) (s : A.State)
        → Answers (some md) q
        → (reconcile_found A K S P r q s).0 ≡ ok tt
        → Settles (prepared S md) s (reconcile_found A K S P r q s).1
    unfolding reconcile_found
    reconcile_found-Settles (ok m) s found h =
        let branch =
          ap (λ x. reconcile_found A K S P r (ok x)) (sym (some-injective _ _ found))
          ∙ staying_branch in
        subst (λ f. (f s).0 ≡ ok tt → Settles (prepared S md) s (f s).1) (sym branch)
          (with_finalizer-Settles md s) h
    reconcile_found-Settles (err e) s found h = elim (Bool-cases (is_not_found e)) [
      | inl gone ↦ absurd (cc (found gone))
      | inr fault ↦ absurd (cc (rw fault at h))
    ]

    -- Where the API servers are lawful, the parts write no OSC, a generated OSC has the name that was
    -- asked for and the annotation keys differ, a request that succeeds for a stored MachineDeployment
    -- that is not being deleted ends settled for it with the finalizer: the OSP that it names was
    -- there and supports it, and an up-to-date OSC and both Secrets are stored.
    pub reconcile_request-IsSettled :
        (s : A.State)
        → (L.content s).mds k ≡ some md
        → (reconcile_request A K S P r k s).0 ≡ ok tt
        → IsSettled K r
            (prepared S md)
            (osp_key A K S P r (prepared S md))
            (L.content s)
            (L.content (reconcile_request A K S P r k s).1)
    unfolding reconcile_request attempt
    reconcile_request-IsSettled s stored h =
        subst
          (λ c.
            IsSettled K r (prepared S md) (osp_key A K S P r (prepared S md)) c
              (L.content (reconcile_request A K S P r k s).1))
          (L.get_md_content k s)
          (reconcile_found-Settles (A.get_md k s).0 (A.get_md k s).1
            (subst (λ o. Answers o (A.get_md k s).0) stored (L.get_md_answer k s)) h)
