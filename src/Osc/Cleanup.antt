-- ===== src/Osc/Cleanup.antt =====
-- The cleanup of a MachineDeployment that is being deleted.
use mathlib.Core.Path.{subst}
use operating_system_manager.Prelude.{
  String, true, ◌&&◌, not, Option, none, List, [], ◌∷◌, ◌≡◌, refl, sym, ◌∙◌, ap, arith, Bool-cases,
  inl, inr,
}
use operating_system_manager.Prelude.Result.{Error, Result, ok, err, is_not_found}
use operating_system_manager.Prelude.Exec.{attempt}
use operating_system_manager.Prelude.Exec.Laws.{bind-ok, bind-err, wrap-state, wrap-ok, wrap-err}
use operating_system_manager.Machine.{Key, MachineDeployment}
use operating_system_manager.Finalizers.{Sets, KeepsElements, contains, remove_finalizer}
use operating_system_manager.Finalizers.Laws.{contains-remove_finalizer}
use operating_system_manager.Osc.Names.{cleanup_finalizer, provisioning_cloud_config}
use operating_system_manager.Osc.Api.{Api, Sdk, Parts, Settings}
use operating_system_manager.Osc.Api.Laws.{
  Content, IsLawful, Writes, set_self, set_at, stored_after, written, failed, md_key,
}
use operating_system_manager.Osc.Api.Keeps.{Keeps, Writes_keeps, Keeps-attempt}
use operating_system_manager.Osc.Invariants.{unless_gone-Keeps, delete_generated_secrets-Keeps}
use operating_system_manager.Osc.Secrets.{
  unless_gone, delete_generated_secrets, secret_key_of, bootstrap_config_key,
}
use operating_system_manager.Osc.Frame.{delete_generated_secrets-OscAt}
use operating_system_manager.Osc.Configs.{osc_key_of}
use operating_system_manager.Osc.Reconciler.{delete_operating_system_config, handle_cleanup}

-- A delete that is confirmed or finds nothing leaves nothing at its key.
gone_after :
    {B : Type 0} (field : Content → Key → Option B) (k : Key) (q : Result (Unit {0}))
    {c d after : Content}
    → Writes q c d after
    → field d k ≡ none
    → ((e : Error) → q ≡ err e → is_not_found e ≡ true)
    → ((e : Error) → q ≡ err e → is_not_found e ≡ true → field c k ≡ none)
    → field after k ≡ none
gone_after field k (ok _) w cleared g n = ap (λ c. field c k) w ∙ cleared
gone_after field k (err e) w cleared g n = ap (λ c. field c k) w ∙ n e refl (g e refl)

module _ (A : Api) (L : IsLawful A) (K : Sdk) where
  -- A tolerated delete that goes on leaves nothing at the key.
  unless_gone-ok :
      (f : String) (a : List String) (q : Result (Unit {0})) (s : A.State)
      → ((unless_gone A K f a q s).0 ≡ ok tt)
      → ((unless_gone A K f a q s).1 ≡ s) × ((e : Error) → q ≡ err e → is_not_found e ≡ true)
  unfolding unless_gone
  unless_gone-ok f a (ok _) s h = (refl, λ e p. cc)
  unless_gone-ok f a (err e) s h = elim (Bool-cases (is_not_found e)) [
    | inl gone ↦ (rw gone, λ e' p. ground arith)
    | inr other ↦ absurd (ground arith)
  ]

  deleted :
      (k : Key) (s : A.State)
      → ((e : Error) → (A.delete_secret k s).0 ≡ err e → is_not_found e ≡ true)
      → (L.content (A.delete_secret k s).1).secrets k ≡ none
  deleted k s gone =
      gone_after (λ c. c.secrets) k (A.delete_secret k s).0 (L.delete_secret_writes k s)
        (set_self k none (L.content s).secrets) gone (L.delete_secret_answer k s)

  tolerated :
      (k : Key) (f : String) (a : List String) (s : A.State)
      → (attempt (A.delete_secret k) (unless_gone A K f a) s).0 ≡ ok tt
      → (L.content (attempt (A.delete_secret k) (unless_gone A K f a) s).1).secrets k ≡ none
  unfolding attempt
  tolerated k f a s h =
      let done = unless_gone-ok f a (A.delete_secret k s).0 (A.delete_secret k s).1 h in
      ap (λ t. (L.content t).secrets k) done.0 ∙ deleted k s done.1

  -- What is gone stays gone.
  delete_secret-Gone : (k j : Key) → Keeps L (λ c. c.secrets k ≡ none) (A.delete_secret j)
  delete_secret-Gone k j = record {
    at = λ s h.
        Writes_keeps (λ c. c.secrets k ≡ none) (A.delete_secret j s).0 (L.delete_secret_writes j s)
          h (ground arith);
  }

  tolerated-Gone :
      (k j : Key) (f : String) (a : List String)
      → Keeps L (λ c. c.secrets k ≡ none) (attempt (A.delete_secret j) (unless_gone A K f a))
  tolerated-Gone k j f a =
      Keeps-attempt _ _ (delete_secret-Gone k j) (λ q. unless_gone-Keeps A L K _ f a q)

-- The three Secrets of a MachineDeployment are gone.
abbrev SecretsGone : Sdk → MachineDeployment → Content → Type 0
SecretsGone K md c =
    (c.secrets (secret_key_of K md provisioning_cloud_config) ≡ none)
    × (c.secrets (secret_key_of K md K.bootstrap_cloud_config) ≡ none)
    × (c.secrets (bootstrap_config_key K md) ≡ none)

module _ (A : Api) (L : IsLawful A) (K : Sdk) (md : MachineDeployment) where
  -- Where the API servers are lawful, deleteGeneratedSecrets, if it succeeds, leaves none of the
  -- three Secrets.
  delete_generated_secrets-SecretsGone :
      (s : A.State)
      → (delete_generated_secrets A K md s).0 ≡ ok tt
      → SecretsGone K md (L.content (delete_generated_secrets A K md s).1)
  unfolding delete_generated_secrets
  delete_generated_secrets-SecretsGone s h =
      let one = bind-ok _ _ s h in
      let two = bind-ok _ _ _ one.then_ok in
      rw one.state (
        rw two.state (
          (tolerated-Gone A L K _ _ _ _).at _
              ((tolerated-Gone A L K _ _ _ _).at _ (tolerated A L K _ _ _ s one.first)),
          (tolerated-Gone A L K _ _ _ _).at _ (tolerated A L K _ _ _ _ two.first),
          tolerated A L K _ _ _ _ two.then_ok,
        ))

-- The OSC and the Secrets of a MachineDeployment are gone.
abbrev pub AllGone : Sdk → Settings → MachineDeployment → Content → Type 0
AllGone K r md c = (c.oscs (osc_key_of r md) ≡ none) × SecretsGone K md c

-- The MachineDeployment has lost the finalizer of the controller and nothing else: it is stored so,
-- or it is gone where it was marked for deletion and has no finalizer left.
pub record IsReleased (md : MachineDeployment) (c : Content) : Type 0 where
  pub released : MachineDeployment
  pub same : released ≡ record md { finalizers = released.finalizers }
  pub finalizers :
      (a : String)
      → contains released.finalizers a
        ≡ (contains md.finalizers a && not (contains (cleanup_finalizer ∷ []) a))
  pub stored : c.mds (md_key md) ≡ stored_after released

module _ (A : Api) (L : IsLawful A) (K : Sdk) (S : Sets) (P : Parts A.State) (r : Settings)
    (md : MachineDeployment) where
  delete_osc-gone :
      (s : A.State)
      → (delete_operating_system_config A K S P r md s).0 ≡ ok tt
      → (L.content (delete_operating_system_config A K S P r md s).1).oscs (osc_key_of r md) ≡ none
  unfolding delete_operating_system_config attempt
  delete_osc-gone s h =
      let k = osc_key_of r md in
      let done = unless_gone-ok A L K _ _ (A.delete_osc k s).0 (A.delete_osc k s).1 h in
      ap (λ t. (L.content t).oscs k) done.0
      ∙ gone_after (λ c. c.oscs) k (A.delete_osc k s).0 (L.delete_osc_writes k s)
          (set_self k none (L.content s).oscs) done.1 (L.delete_osc_answer k s)

  update-IsReleased :
      (c : Content)
      → KeepsElements S
      → let md' = remove_finalizer S md (cleanup_finalizer ∷ []) in
        IsReleased md (record c { mds = set_at (md_key md') (stored_after md') c.mds })
  unfolding remove_finalizer
  update-IsReleased c law =
      let md' = remove_finalizer S md (cleanup_finalizer ∷ []) in
      record {
        released = md';
        same = refl;
        finalizers = contains-remove_finalizer S law md (cleanup_finalizer ∷ []);
        stored = set_self (md_key md) (stored_after md') c.mds;
      }

  -- The deletes keep the MachineDeployments.
  abbrev MdsAt : (Key → Option MachineDeployment) → Content → Type 0
  MdsAt m c = c.mds ≡ m

  module _ (m : Key → Option MachineDeployment) where
    delete_secret-MdsAt : (k : Key) → Keeps L (MdsAt m) (A.delete_secret k)
    delete_secret-MdsAt k = record {
      at = λ s h. Writes_keeps (MdsAt m) (A.delete_secret k s).0 (L.delete_secret_writes k s) h h;
    }

    delete_osc-MdsAt : Keeps L (MdsAt m) (delete_operating_system_config A K S P r md)
    unfolding delete_operating_system_config
    delete_osc-MdsAt =
        Keeps-attempt _ _
          (record {
            at = λ s h. Writes_keeps (MdsAt m) (A.delete_osc _ s).0 (L.delete_osc_writes _ s) h h;
          })
          (unless_gone-Keeps A L K (MdsAt m) _ _)

    delete_generated_secrets-MdsAt : Keeps L (MdsAt m) (delete_generated_secrets A K md)
    delete_generated_secrets-MdsAt =
        delete_generated_secrets-Keeps A L K (MdsAt m) r md (λ kind. delete_secret-MdsAt _)
          (delete_secret-MdsAt _)

  -- Where the API servers and the sets are lawful, a cleanup that succeeds leaves neither the OSC nor
  -- any of the three Secrets; the MachineDeployment has lost the finalizer of the controller and no
  -- other, and is stored so, or gone where it is marked for deletion and had no other finalizer.
  pub handle_cleanup-AllGone :
      KeepsElements S
      → (s : A.State) → (handle_cleanup A K S P r md s).0 ≡ ok tt
      → AllGone K r md (L.content (handle_cleanup A K S P r md s).1)
        × IsReleased md (L.content (handle_cleanup A K S P r md s).1)
  unfolding handle_cleanup
  handle_cleanup-AllGone law s h =
      let one = bind-ok _ _ s h in
      let two = bind-ok _ _ _ one.then_ok in
      let three = wrap-ok _ _ _ _ two.then_ok in
      let t =
        (delete_generated_secrets A K md (delete_operating_system_config A K S P r md s).1).1 in
      let md' = remove_finalizer S md (cleanup_finalizer ∷ []) in
      let stored = written (A.update_md md' t).0 _ _ (L.update_md_writes md' t) three.0 in
      subst (λ c. AllGone K r md c × IsReleased md c)
        (sym (ap L.content (one.state ∙ two.state ∙ three.1) ∙ stored))
        (
          (
            (delete_generated_secrets-OscAt A L K r md _ none).at _ (delete_osc-gone s one.first),
            delete_generated_secrets-SecretsGone A L K md _ two.first,
          ),
          update-IsReleased (L.content t) law,
        )

  -- Where the API servers are lawful, a cleanup that fails leaves every stored MachineDeployment as
  -- it was.
  pub handle_cleanup-failed :
      (s : A.State) (e : Error)
      → (handle_cleanup A K S P r md s).0 ≡ err e
      → (L.content (handle_cleanup A K S P r md s).1).mds ≡ (L.content s).mds
  unfolding handle_cleanup
  handle_cleanup-failed s e h =
      let start = (L.content s).mds in
      bind-err (λ t. MdsAt start (L.content t)) _ _ s h ((delete_osc-MdsAt start).at s refl)
        λ _ h₁.
          let t = (delete_operating_system_config A K S P r md s).1 in
          let kept = (delete_osc-MdsAt start).at s refl in
          bind-err (λ u. MdsAt start (L.content u)) _ _ t h₁
            ((delete_generated_secrets-MdsAt start).at t kept)
            λ _ h₂.
              let u = (delete_generated_secrets A K md t).1 in
              let md' = remove_finalizer S md (cleanup_finalizer ∷ []) in
              let fault = wrap-err _ _ (A.update_md md') u h₂ in
              ap (λ v. (L.content v).mds) (wrap-state _ _ (A.update_md md') u)
              ∙ ap (λ c. c.mds)
                  (failed (A.update_md md' u).0 _ _ (L.update_md_writes md' u) fault.1)
              ∙ (delete_generated_secrets-MdsAt start).at t kept
