-- ===== src/Osc/Invariants.antt =====
-- Which invariants of the stored objects the steps of a run keep, from the writes that each makes.
use mathlib.Core.Path.{subst}
use mathlib.Core.Option.{some-injective}
use operating_system_manager.Finalizers.{Sets}
use operating_system_manager.Prelude.Exec.Laws.{bind-outcome, wrap-ok, wrap-state}
use operating_system_manager.Prelude.{
  String, Bool, true, false, List, ◌≡◌, ap, ◌∙◌, refl, sym, some, arith,
}
use operating_system_manager.Prelude.Result.{Result, ok, err}
use operating_system_manager.Prelude.Result
use operating_system_manager.ContainerRuntime.Config.{Config}
use operating_system_manager.Prelude.Exec.{Exec, attempt, wrap}
use operating_system_manager.Crd.{Osp, Osc, OscConfig}
use operating_system_manager.Machine.{MachineDeployment, Secret, Kubeconfig}
use operating_system_manager.Osc.Names.{osc_name}
use operating_system_manager.Osc.Api.{Api, Sdk, Parts, Settings, OscRequest}
use operating_system_manager.Osc.Api.Laws.{Content, IsLawful, Answers, osc_key}
use operating_system_manager.Osc.Api.Keeps.{
  Keeps, keeps_rules, Keeps-bind-lift, Keeps-wrap, Keeps-bind, Keeps-attempt, Keeps-lift,
  Keeps-get_osc, Keeps-pure,
}
use operating_system_manager.Osc.Secrets.{
  unless_gone, delete_generated_secrets, ensure_cloud_config_secret, secret_key_of,
  create_cloud_config_secret, bootstrap_config_key, unless_found,
}
use operating_system_manager.Osc.Configs.{
  osc_key_of, rotate, rotate_unless_current, handle_rotation, store_script, generate_edge_script,
  with_credentials, annotated, edge_script_if, create_osc, create_unless_found, reconcile_configs,
}
use operating_system_manager.Osc.Reconciler.{
  osp_key, osp_or_error, fetch_osp, event_on_error, check_osp, reconcile_secrets, finish,
  reconcile_with, reconcile,
}

-- The parts that the reconciler calls keep an invariant of the stored objects.
pub record PartsKeep {A : Api} (L : IsLawful A) (P : Parts A.State) (I : Content → Type 0)
    : Type 0 where
  pub bootstrap : (name : String) → Keeps L I (P.create_bootstrap_kubeconfig name)
  pub token : Keeps L I P.extract_token
  pub auth : (secret : String) → Keeps L I (P.containerd_auth_config secret)

-- A generated OSC has the name that was asked for, in the reconciler's namespace.
abbrev pub NamesOsc : {S : Type 0} → Parts S → Type 0
NamesOsc P =
    (q : OscRequest) (settings : Settings) (osc : Osc)
    → P.generate_osc q settings ≡ ok osc
    → osc_key osc ≡ record { namespace = settings.namespace; name = q.osc_name }

module _ (A : Api) (L : IsLawful A) (K : Sdk) (I : Content → Type 0) where
  pub unless_gone-Keeps :
      (f : String) (a : List String) (q : Result (Unit {0})) → Keeps L I (unless_gone A K f a q)
  unfolding unless_gone
  unless_gone-Keeps f a (ok _) = search keeps_rules
  unless_gone-Keeps f a (err e) = search keeps_rules

module _ (A : Api) (L : IsLawful A) (K : Sdk) (I : Content → Type 0) (P : Parts A.State)
    (r : Settings) (md : MachineDeployment) (osp : Osp) (parts : PartsKeep L P I) where
  pub with_credentials-Keeps : Keeps L I (with_credentials A K P r md osp)
  unfolding with_credentials
  with_credentials-Keeps = search (keeps_rules, parts.auth)

module _ (A : Api) (K : Sdk) (P : Parts A.State) (r : Settings) (md : MachineDeployment) (osp : Osp)
    (names : NamesOsc P) where
  pub annotated-named :
      (mdhash : String) (osc : Osc) (q : OscRequest) (config : Config) (f : String)
      (a : List String)
      → q.osc_name ≡ osc_name md
      → Result.wrap f a (P.generate_osc q (record r { container_runtime_config = config })) ≡ ok osc
      → osc_key (annotated A K P r md osp mdhash osc) ≡ osc_key_of r md
  unfolding annotated osc_key_of
  annotated-named mdhash osc q config f a e made =
      names q _ osc (Result.wrap-eq-ok f a _ made)
      ∙ ap (λ n. record { namespace = r.namespace; name = n }) e

module _ (A : Api) (L : IsLawful A) (K : Sdk) (I : Content → Type 0) (r : Settings)
    (md : MachineDeployment) where
  module _ (del_secret : (kind : String) → Keeps L I (A.delete_secret (secret_key_of K md kind)))
      (del_config : Keeps L I (A.delete_secret (bootstrap_config_key K md))) where
    gone :
        {m : Exec A.State (Unit {0})} (f : String) (a : List String)
        → Keeps L I m
        → Keeps L I (attempt m (unless_gone A K f a))
    gone f a k = Keeps-attempt _ _ k (λ q. unless_gone-Keeps A L K I _ _ q)

    pub delete_generated_secrets-Keeps : Keeps L I (delete_generated_secrets A K md)
    unfolding delete_generated_secrets
    delete_generated_secrets-Keeps =
        Keeps-bind _ _ (gone _ _ (del_secret _))
          (λ _. Keeps-bind _ _ (gone _ _ (del_secret _)) (λ _. gone _ _ del_config))

    module _ (osp : Osp) (del_osc : Keeps L I (A.delete_osc (osc_key_of r md))) where
      rotate-Keeps : Keeps L I (rotate A K r md osp)
      unfolding rotate
      rotate-Keeps = Keeps-bind _ _ (Keeps-wrap _ _ _ del_osc) (λ _. delete_generated_secrets-Keeps)

      rotate_unless_current-Keeps :
          (q : Result Osc) → Keeps L I (rotate_unless_current A K r md osp q)
      unfolding rotate_unless_current
      rotate_unless_current-Keeps (ok osc) = search (keeps_rules, rotate-Keeps)
      rotate_unless_current-Keeps (err e) = search keeps_rules

      pub handle_rotation-Keeps : Keeps L I (handle_rotation A K r md osp)
      unfolding handle_rotation
      handle_rotation-Keeps = search (keeps_rules, rotate_unless_current-Keeps)

  module _ (P : Parts A.State) (osp : Osp)
      (create : (x : Secret) → Keeps L I (A.create_secret x)) where
    create_cloud_config_secret-Keeps :
        (v : String) (c : OscConfig) (u kind os p : String)
        → Keeps L I (create_cloud_config_secret A K P md v c u kind os p)
    unfolding create_cloud_config_secret
    create_cloud_config_secret-Keeps v c u kind os p = search (keeps_rules, create) depth 9

    unless_found-Keeps :
        {B : Type 0} (m : Exec A.State (Unit {0})) (v : String) (q : Result B)
        → Keeps L I m
        → Keeps L I (unless_found A K P md v m q)
    unless_found-Keeps m v (ok _) k = search keeps_rules
    unless_found-Keeps m v (err e) k = k

    pub ensure_cloud_config_secret-Keeps :
        (v : String) (c : OscConfig) (u kind os p : String)
        → Keeps L I (ensure_cloud_config_secret A K P md v c u kind os p)
    unfolding ensure_cloud_config_secret
    ensure_cloud_config_secret-Keeps v c u kind os p =
        search (keeps_rules, unless_found-Keeps, create_cloud_config_secret-Keeps)

    store_script-Keeps :
        (script : String) (q : Result Secret) → Keeps L I (store_script A md script q)
    unfolding store_script
    store_script-Keeps script (ok x) = search (keeps_rules, create)
    store_script-Keeps script (err e) = search (keeps_rules, create)

    generate_edge_script-Keeps :
        (token : String) (config : Kubeconfig) → Keeps L I (generate_edge_script A md token config)
    unfolding generate_edge_script
    generate_edge_script-Keeps token config = search (keeps_rules, store_script-Keeps)

    module _ (parts : PartsKeep L P I) (names : NamesOsc P)
        (create_at : (osc : Osc)
          → osc_key osc ≡ osc_key_of r md
          → Keeps L I (A.create_osc osc)) where
      edge_script_if-Keeps :
          (b : Bool) (token : String) (config : Kubeconfig)
          → Keeps L I (edge_script_if A K P r md osp b token config)
      unfolding edge_script_if
      edge_script_if-Keeps true token config = search (keeps_rules, generate_edge_script-Keeps)
      edge_script_if-Keeps false token config = search keeps_rules

      create_osc-Keeps :
          (config : Kubeconfig) (name : String) → Keeps L I (create_osc A K P r md osp config name)
      unfolding create_osc
      create_osc-Keeps config name = Keeps-bind _ _ (Keeps-lift _) λ _.
          Keeps-bind _ _ (with_credentials-Keeps A L K I P r md osp parts) λ _.
            Keeps-bind _ _ (Keeps-wrap _ _ _ parts.token) λ token. Keeps-bind-lift _ _ λ osc made.
              Keeps-bind _ _ (edge_script_if-Keeps _ token config) λ _.
                Keeps-bind _ _ (Keeps-lift _) λ mdhash. Keeps-wrap _ _ _ (
                  create_at (annotated A K P r md osp mdhash osc)
                    (annotated-named A K P r md osp names mdhash osc _ _ _ _ refl made))

      create_unless_found-Keeps :
          (config : Kubeconfig) (name : String) (q : Result Osc)
          → Keeps L I (create_unless_found A K P r md osp (create_osc A K P r md osp config name) q)
      create_unless_found-Keeps config name (ok _) = Keeps-pure tt
      create_unless_found-Keeps config name (err e) = create_osc-Keeps config name

      pub reconcile_configs-Keeps : Keeps L I (reconcile_configs A K P r md osp)
      unfolding reconcile_configs
      reconcile_configs-Keeps =
          Keeps-bind _ _ (Keeps-wrap _ _ _ (parts.bootstrap _)) λ (config, name).
            Keeps-attempt _ _ (Keeps-get_osc _) (create_unless_found-Keeps config name)

    pub reconcile_secrets-Keeps : (S : Sets) → Keeps L I (reconcile_secrets A K S P r md osp)
    unfolding reconcile_secrets
    reconcile_secrets-Keeps S = search (keeps_rules, ensure_cloud_config_secret-Keeps) depth 7

-- A rejected MachineDeployment is told by an event.
module _ (A : Api) (L : IsLawful A) (K : Sdk) (S : Sets) (P : Parts A.State) (r : Settings)
    (md : MachineDeployment) (I : Content → Type 0) where
  event_on_error-Keeps : (q : Result (Unit {0})) → Keeps L I (event_on_error A K S P r md q)
  unfolding event_on_error
  event_on_error-Keeps (ok _) = record { at = λ s h. h }
  event_on_error-Keeps (err e) = record { at = λ s h. subst I (sym (L.event_content md _ e s)) h }

  pub check_osp-Keeps : (osp : Osp) → Keeps L I (check_osp A K S P r md osp)
  unfolding check_osp
  check_osp-Keeps osp = event_on_error-Keeps _

-- A run with its OSP at hand keeps what its writes keep.
module _ (A : Api) (L : IsLawful A) (K : Sdk) (I : Content → Type 0) (r : Settings)
    (md : MachineDeployment) (S : Sets) (P : Parts A.State) (osp : Osp)
    (create : (x : Secret) → Keeps L I (A.create_secret x)) (parts : PartsKeep L P I)
    (names : NamesOsc P)
    (create_at : (osc : Osc) → osc_key osc ≡ osc_key_of r md → Keeps L I (A.create_osc osc)) where
  pub finish-Keeps : Keeps L I (finish A K S P r md osp)
  unfolding finish
  finish-Keeps =
      Keeps-bind _ _
        (Keeps-wrap _ _ _ (reconcile_configs-Keeps A L K I r md P osp create parts names create_at))
        λ _. Keeps-wrap _ _ _ (reconcile_secrets-Keeps A L K I r md P osp create S)

  pub reconcile_with-Keeps :
      Keeps L I (handle_rotation A K r md osp) → Keeps L I (reconcile_with A K S P r md osp)
  unfolding reconcile_with
  reconcile_with-Keeps rotation =
      Keeps-bind _ _ (Keeps-wrap _ _ _ (check_osp-Keeps A L K S P r md I osp))
        λ _. Keeps-bind _ _ (Keeps-wrap _ _ _ rotation) λ _. finish-Keeps

-- A run that has to fetch its OSP.
module _ (A : Api) (L : IsLawful A) (K : Sdk) (S : Sets) (P : Parts A.State) (r : Settings)
    (md : MachineDeployment) where
  osp_or_error-state : (q : Result Osp) (s : A.State) → (osp_or_error A K S P r md q s).1 ≡ s
  unfolding osp_or_error
  osp_or_error-state (ok o) s = refl
  osp_or_error-state (err e) s = ground arith

  osp_or_error-ok :
      (q : Result Osp) (s : A.State) {o : Osp} → (osp_or_error A K S P r md q s).0 ≡ ok o → q ≡ ok o
  unfolding osp_or_error
  osp_or_error-ok (ok o) s h = h
  osp_or_error-ok (err e) s h = ground arith

  pub fetch_osp-content : (s : A.State) → L.content (fetch_osp A K S P r md s).1 ≡ L.content s
  unfolding fetch_osp attempt
  fetch_osp-content s = ap L.content (osp_or_error-state _ _) ∙ L.get_osp_content _ s

  pub fetch_osp-answer :
      (s : A.State) {o : Osp}
      → (fetch_osp A K S P r md s).0 ≡ ok o
      → (L.content s).osps (osp_key A K S P r md) ≡ some o
  unfolding fetch_osp attempt
  fetch_osp-answer s h =
      subst (Answers _) (osp_or_error-ok _ _ h) (L.get_osp_answer (osp_key A K S P r md) s)

  pub wrap-fetch_osp :
      (f : String) (a : List String) (I : Content → Type 0) (s : A.State)
      → I (L.content s)
      → I (L.content (wrap f a (fetch_osp A K S P r md) s).1)
  wrap-fetch_osp f a I s h =
      subst I (sym (ap L.content (wrap-state f a _ s) ∙ fetch_osp-content s)) h

  -- A run keeps what it keeps with each OSP.
  pub reconcile-Keeps :
      (I : Content → Type 0)
      → ((osp : Osp) → Keeps L I (reconcile_with A K S P r md osp))
      → Keeps L I (reconcile A K S P r md)
  unfolding reconcile
  reconcile-Keeps I keeps = Keeps-bind _ _ (record { at = wrap-fetch_osp _ _ I }) keeps

  pub reconcile-outcome :
      (I : Content → Type 0) (s : A.State) (osp : Osp)
      → (L.content s).osps (osp_key A K S P r md) ≡ some osp
      → I (L.content s)
      → Keeps L I (reconcile_with A K S P r md osp)
      → I (L.content (reconcile A K S P r md s).1)
  unfolding reconcile
  reconcile-outcome I s osp named h keeps =
      bind-outcome (λ t. I (L.content t)) (wrap _ _ (fetch_osp A K S P r md)) _ s
        (λ o got.
          (subst (λ o'. Keeps L I (reconcile_with A K S P r md o'))
              (some-injective _ _ (sym named ∙ fetch_osp-answer s (wrap-ok _ _ _ s got).0))
              keeps).at
            _ (wrap-fetch_osp _ _ I s h))
        (λ e _. wrap-fetch_osp _ _ I s h)
