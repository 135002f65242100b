-- ===== src/Osc/Settled.antt =====
-- A run that succeeds, from its OSP to the Secrets.
use mathlib.Core.Path.{subst}
use operating_system_manager.Prelude.{String, Option, some, ◌≡◌, refl, sym, ◌∙◌, ap}
use operating_system_manager.Prelude.Result.{Result, ok, err}
use operating_system_manager.Prelude.Exec.{attempt}
use operating_system_manager.Prelude.Exec.Laws.{bind-ok, wrap-ok}
use operating_system_manager.Crd.{Osp, Osc, OscConfig}
use operating_system_manager.Machine.{Key, MachineDeployment, Secret, Kubeconfig}
use operating_system_manager.Finalizers.{Sets}
use operating_system_manager.Osc.Names.{provisioning_cloud_config, machine_deployment_key}
use operating_system_manager.Osc.Api.{Api, Sdk, Parts, Settings}
use operating_system_manager.Osc.Api.Laws.{Content, IsLawful, Answers, osc_key, set_self, written}
use operating_system_manager.Osc.Api.Keeps.{Keeps, Keeps-wrap, Keeps-get_osc, Writes_keeps}
use operating_system_manager.Osc.Invariants.{
  PartsKeep, NamesOsc, fetch_osp-answer, annotated-named, ensure_cloud_config_secret-Keeps,
}
use operating_system_manager.Osc.Frame.{OscAt, SecretAt, create_secret-SecretAt}
use operating_system_manager.Osc.Current.{
  KeysDiffer, UpToDate, Fresh, handle_rotation-Fresh, annotated-UpToDate,
}
use operating_system_manager.Osc.Secrets.{
  secret_key_of, unless_found, ensure_cloud_config_secret, create_cloud_config_secret,
  generate_cloud_config_secret,
}
use operating_system_manager.Osc.Configs.{
  osc_key_of, annotated, create_osc, create_unless_found, reconcile_configs,
}
use operating_system_manager.Osc.Reconciler.{
  osp_key, validate_machine_deployment, check_osp, event_on_error, reconcile_secrets, finish,
  reconcile_with, reconcile,
}

-- The Secret of a kind is stored.
abbrev pub Stored : Sdk → MachineDeployment → String → Content → Type 0
Stored K md kind c = (x : Secret) × (c.secrets (secret_key_of K md kind) ≡ some x)

module _ (A : Api) (L : IsLawful A) (K : Sdk) (P : Parts A.State) (md : MachineDeployment)
    (v : String) (c : OscConfig) (u kind os p : String) where
  create_cloud_config_secret-Stored :
      (s : A.State)
      → (create_cloud_config_secret A K P md v c u kind os p s).0 ≡ ok tt
      → Stored K md kind (L.content (create_cloud_config_secret A K P md v c u kind os p s).1)
  unfolding create_cloud_config_secret secret_key_of generate_cloud_config_secret
  create_cloud_config_secret-Stored s h =
      let one = bind-ok _ _ s h in
      let two = bind-ok _ _ _ one.then_ok in
      let three = wrap-ok _ _ _ _ two.then_ok in
      subst (λ t. Stored K md kind (L.content t)) (sym (one.state ∙ two.state ∙ three.1))
        (subst (Stored K md kind) (sym (written _ _ _ (L.create_secret_writes _ _) three.0))
          (_, set_self _ _ (L.content _).secrets))

  unless_found-Stored :
      (q : Result Secret) (s : A.State)
      → Answers ((L.content s).secrets (secret_key_of K md kind)) q
      → (unless_found A K P md v (create_cloud_config_secret A K P md v c u kind os p) q s).0
        ≡ ok tt
      → Stored K md kind (
          L.content
            (unless_found A K P md v (create_cloud_config_secret A K P md v c u kind os p) q s).1)
  unless_found-Stored (ok x) s found h = (x, found)
  unless_found-Stored (err e) s found h = create_cloud_config_secret-Stored s h

  -- Where ensureCloudConfigSecret succeeds, the Secret is there.
  pub ensure_cloud_config_secret-Stored :
      (s : A.State)
      → (ensure_cloud_config_secret A K P md v c u kind os p s).0 ≡ ok tt
      → Stored K md kind (L.content (ensure_cloud_config_secret A K P md v c u kind os p s).1)
  unfolding ensure_cloud_config_secret attempt
  ensure_cloud_config_secret-Stored s h =
      let k = secret_key_of K md kind in
      unless_found-Stored (A.get_secret k s).0 (A.get_secret k s).1
        (subst (λ d. Answers (d.secrets k) (A.get_secret k s).0) (sym (L.get_secret_content k s))
          (L.get_secret_answer k s))
        h

module _ (A : Api) (L : IsLawful A) (K : Sdk) (P : Parts A.State) (r : Settings)
    (md : MachineDeployment) (osp : Osp) (differ : KeysDiffer K) (names : NamesOsc P) where
  -- An OSC is stored, and it is up to date.
  abbrev HasCurrent : Content → Type 0
  HasCurrent c = (osc : Osc) × (c.oscs (osc_key_of r md) ≡ some osc) × UpToDate K md osp osc

  created-HasCurrent :
      (osc : Osc)
      → osc_key osc ≡ osc_key_of r md
      → UpToDate K md osp osc
      → (s : A.State) → (A.create_osc osc s).0 ≡ ok tt
      → HasCurrent (L.content (A.create_osc osc s).1)
  created-HasCurrent osc key current s h =
      subst HasCurrent (sym (written (A.create_osc osc s).0 _ _ (L.create_osc_writes osc s) h))
        (osc, rw (← key) (set_self (osc_key osc) (some osc) (L.content s).oscs), current)

  create_osc-HasCurrent :
      (config : Kubeconfig) (name : String) (s : A.State)
      → (create_osc A K P r md osp config name s).0 ≡ ok tt
      → HasCurrent (L.content (create_osc A K P r md osp config name s).1)
  unfolding create_osc
  create_osc-HasCurrent config name s h =
      let one = bind-ok _ _ s h in
      let two = bind-ok _ _ _ one.then_ok in
      let three = bind-ok _ _ _ two.then_ok in
      let four = bind-ok _ _ _ three.then_ok in
      let five = bind-ok _ _ _ four.then_ok in
      let six = bind-ok _ _ _ five.then_ok in
      let seven = wrap-ok _ _ _ _ six.then_ok in
      let osc = annotated A K P r md osp six.value four.value in
      let key = annotated-named A K P r md osp names six.value four.value _ _ _ _ refl four.first in
      subst (λ t. HasCurrent (L.content t))
        (sym (one.state ∙ two.state ∙ three.state ∙ four.state ∙ five.state ∙ six.state ∙ seven.1))
        (created-HasCurrent osc key
          (annotated-UpToDate A L K P r md osp differ six.value four.value six.first) _ seven.0)

  create_unless_found-HasCurrent :
      (config : Kubeconfig) (name : String) (q : Result Osc) (s : A.State)
      → Answers ((L.content s).oscs (osc_key_of r md)) q
      → Fresh K r md osp (L.content s)
      → (create_unless_found A K P r md osp (create_osc A K P r md osp config name) q s).0 ≡ ok tt
      → HasCurrent (
          L.content
            (create_unless_found A K P r md osp (create_osc A K P r md osp config name) q s).1)
  create_unless_found-HasCurrent config name (ok osc) s found fresh h =
      (osc, found, fresh osc found)
  create_unless_found-HasCurrent config name (err e) s found fresh h =
      create_osc-HasCurrent config name s h

  module _ (parts : (o : Option Osc) → PartsKeep L P (OscAt (osc_key_of r md) o)) where
    reconcile_configs-HasCurrent :
        (s : A.State)
        → Fresh K r md osp (L.content s)
        → (reconcile_configs A K P r md osp s).0 ≡ ok tt
        → HasCurrent (L.content (reconcile_configs A K P r md osp s).1)
    unfolding reconcile_configs attempt
    reconcile_configs-HasCurrent s fresh h =
        let one = bind-ok _ _ s h in
        let booted = wrap-ok _ _ (P.create_bootstrap_kubeconfig _) s one.first in
        let k = osc_key_of r md in
        let t = (P.create_bootstrap_kubeconfig (machine_deployment_key md) s).1 in
        let kept : (L.content t).oscs k ≡ (L.content s).oscs k =
          ((parts ((L.content s).oscs k)).bootstrap _).at s refl in
        subst (λ u. HasCurrent (L.content u)) (sym one.state)
          (subst
            (λ u. HasCurrent (
              L.content
                (create_unless_found A K P r md osp
                  (create_osc A K P r md osp one.value.0 one.value.1) (A.get_osc k u).0
                  (A.get_osc k u).1).1))
            (sym booted.1)
            (create_unless_found-HasCurrent one.value.0 one.value.1 (A.get_osc k t).0
              (A.get_osc k t).1
              (subst (λ d. Answers (d.oscs k) (A.get_osc k t).0) (sym (L.get_osc_content k t))
                (L.get_osc_answer k t))
              (λ osc found.
                fresh osc (sym kept ∙ ap (λ d. d.oscs k) (sym (L.get_osc_content k t)) ∙ found))
              (subst
                (λ u.
                  (create_unless_found A K P r md osp
                    (create_osc A K P r md osp one.value.0 one.value.1) (A.get_osc k u).0
                    (A.get_osc k u).1).0
                  ≡ ok tt)
                booted.1 one.then_ok)))

  create_secret-HasCurrent : (x : Secret) → Keeps L HasCurrent (A.create_secret x)
  create_secret-HasCurrent x = record {
    at = λ s h. Writes_keeps HasCurrent (A.create_secret x s).0 (L.create_secret_writes x s) h h;
  }

  -- Both Secrets are stored.
  abbrev HasSecrets : Content → Type 0
  HasSecrets c = Stored K md provisioning_cloud_config c × Stored K md K.bootstrap_cloud_config c

  module _ (v : String) (c : OscConfig) (u kind os p : String) where
    ensure-HasCurrent : Keeps L HasCurrent (ensure_cloud_config_secret A K P md v c u kind os p)
    ensure-HasCurrent =
        ensure_cloud_config_secret-Keeps A L K HasCurrent r md P osp create_secret-HasCurrent v c u
          kind os p

    ensure-SecretAt :
        (j : Key) (x : Secret)
        → Keeps L (SecretAt j (some x)) (ensure_cloud_config_secret A K P md v c u kind os p)
    ensure-SecretAt j x =
        ensure_cloud_config_secret-Keeps A L K (SecretAt j (some x)) r md P osp
          (create_secret-SecretAt A L j x) v c u kind os p

  reconcile_secrets-HasSecrets :
      (S : Sets) (s : A.State)
      → HasCurrent (L.content s)
      → (reconcile_secrets A K S P r md osp s).0 ≡ ok tt
      → HasCurrent (L.content (reconcile_secrets A K S P r md osp s).1)
        × HasSecrets (L.content (reconcile_secrets A K S P r md osp s).1)
  unfolding reconcile_secrets
  reconcile_secrets-HasSecrets S s has h =
      let one = bind-ok _ _ s h in
      let two = bind-ok _ _ _ one.then_ok in
      let first = wrap-ok _ _ _ _ two.first in
      let second = wrap-ok _ _ _ _ two.then_ok in
      let has₁ = (Keeps-wrap _ _ _ (Keeps-get_osc {L = L} {I = HasCurrent} _)).at s has in
      let has₂ = (Keeps-wrap _ _ _ (ensure-HasCurrent _ _ _ _ _ _)).at _ has₁ in
      let stored₁ =
        subst (λ t. Stored K md provisioning_cloud_config (L.content t)) (sym first.1)
          (ensure_cloud_config_secret-Stored A L K P md _ _ _ _ _ _ _ first.0) in
      subst (λ t. HasCurrent (L.content t) × HasSecrets (L.content t))
        (sym (one.state ∙ two.state ∙ second.1))
        (
          (ensure-HasCurrent _ _ _ _ _ _).at _ has₂,
          (
            (stored₁.0, (ensure-SecretAt _ _ _ _ _ _ _ stored₁.0).at _ stored₁.1),
            ensure_cloud_config_secret-Stored A L K P md _ _ _ _ _ _ _ second.0,
          ),
        )

  module _ (S : Sets) (parts : (o : Option Osc) → PartsKeep L P (OscAt (osc_key_of r md) o)) where
    check_osp-ok :
        (q : Result (Unit {0})) (s : A.State)
        → (event_on_error A K S P r md q s).0 ≡ ok tt
        → q ≡ ok tt
    unfolding event_on_error
    check_osp-ok (ok tt) s h = refl
    check_osp-ok (err e) s h = cc

    -- reconcile, after the OSP is fetched
    reconcile_with-settled :
        (s : A.State)
        → (reconcile_with A K S P r md osp s).0 ≡ ok tt
        → (validate_machine_deployment K md osp ≡ ok tt)
          × HasCurrent (L.content (reconcile_with A K S P r md osp s).1)
          × HasSecrets (L.content (reconcile_with A K S P r md osp s).1)
    unfolding reconcile_with finish check_osp
    reconcile_with-settled s h =
        let one = bind-ok _ _ s h in
        let checked = wrap-ok _ _ _ s one.first in
        let two = bind-ok _ _ _ one.then_ok in
        let rotated = wrap-ok _ _ _ _ two.first in
        let three = bind-ok _ _ _ two.then_ok in
        let made = wrap-ok _ _ _ _ three.first in
        let last = wrap-ok _ _ _ _ three.then_ok in
        let fresh =
          subst (λ t. Fresh K r md osp (L.content t)) (sym rotated.1)
            (handle_rotation-Fresh A L K P r md osp differ _ rotated.0) in
        let has =
          subst (λ t. HasCurrent (L.content t)) (sym made.1)
            (reconcile_configs-HasCurrent parts _ fresh made.0) in
        let done = reconcile_secrets-HasSecrets S _ has last.0 in
        (
          check_osp-ok _ s checked.0,
          subst (λ t. HasCurrent (L.content t)) (sym (one.state ∙ two.state ∙ three.state ∙ last.1))
              done.0,
          subst (λ t. HasSecrets (L.content t)) (sym (one.state ∙ two.state ∙ three.state ∙ last.1))
              done.1,
        )

-- What a run that succeeds establishes, from the objects before it and those after it.
pub record IsSettled (K : Sdk) (r : Settings) (md : MachineDeployment) (osp_at : Key)
    (before after : Content) : Type 0 where
  pub osp : Osp
  pub named : before.osps osp_at ≡ some osp
  pub valid : validate_machine_deployment K md osp ≡ ok tt
  pub osc : Osc
  pub stored : after.oscs (osc_key_of r md) ≡ some osc
  pub current : UpToDate K md osp osc
  pub provisioning : Stored K md provisioning_cloud_config after
  pub bootstrap : Stored K md K.bootstrap_cloud_config after

module _ (A : Api) (L : IsLawful A) (K : Sdk) (S : Sets) (P : Parts A.State) (r : Settings)
    (md : MachineDeployment) (differ : KeysDiffer K) (names : NamesOsc P)
    (parts : (o : Option Osc) → PartsKeep L P (OscAt (osc_key_of r md) o)) where
  -- Where the API servers are lawful, the parts write no OSC, a generated OSC has the name that was
  -- asked for and the annotation keys differ, a run that succeeds has found the OSP that the
  -- MachineDeployment names, which supports its operating system and cloud provider; afterwards an
  -- OSC is stored that is up to date with both, and the provisioning and the bootstrap Secret are
  -- stored.
  pub reconcile-IsSettled :
      (s : A.State)
      → (reconcile A K S P r md s).0 ≡ ok tt
      → IsSettled K r md
          (osp_key A K S P r md)
          (L.content s)
          (L.content (reconcile A K S P r md s).1)
  unfolding reconcile
  reconcile-IsSettled s h =
      let one = bind-ok _ _ s h in
      let fetched = wrap-ok _ _ _ s one.first in
      let done = reconcile_with-settled A L K P r md one.value differ names S parts _ one.then_ok in
      subst (λ t. IsSettled K r md (osp_key A K S P r md) (L.content s) (L.content t))
        (sym one.state)
        (record {
          osp = one.value;
          named = fetch_osp-answer A L K S P r md s fetched.0;
          valid = done.0;
          osc = done.1.0;
          stored = done.1.1;
          current = done.1.2;
          provisioning = done.2.0;
          bootstrap = done.2.1;
        })
