-- ===== src/Bootstrap/Run.antt =====
-- CreateBootstrapKubeconfig as a whole: what its kubeconfig leads to, when it is done.
use mathlib.Core.Path.{subst}
use operating_system_manager.Prelude.{
  String, Bool, true, false, Bool-cases, inl, inr, Option, none, some, ◌≡◌, refl, sym, ap, ◌∙◌, ℕ,
  ◌+◌, ◌*◌, eq_iff,
}
use operating_system_manager.Prelude.Result.{Result, ok, err, is_not_found, ok-injective}
use operating_system_manager.Prelude.Exec.{attempt}
use operating_system_manager.Prelude.Exec.Laws.{bind-ok, wrap-ok}
use operating_system_manager.Machine.{Key, key_eq, key_eq_iff, Secret, Kubeconfig, KubeCluster}
use operating_system_manager.Osc.Names.{cloud_init_namespace}
use operating_system_manager.Osc.Api.{Api}
use operating_system_manager.Osc.Api.Laws.{Content, IsLawful, secret_key, set_fresh}
use operating_system_manager.Osc.Api.Keeps.{
  Keeps, Writes_keeps, Writes_keeps_if, Keeps-raise, Keeps-pure,
}
use operating_system_manager.Bootstrap.Cluster.{Cluster, Options}
use operating_system_manager.Bootstrap.Token.{minute, kube_system}
use operating_system_manager.Bootstrap.Kubeconfig.{
  generate_kubeconfig, get_token, store_kubeconfig, kubeconfig_key, create_bootstrap_kubeconfig,
}
use operating_system_manager.Bootstrap.Laws.{IsLawfulCluster, generate_kubeconfig-Keeps}
use operating_system_manager.Bootstrap.Live.{IsLive, IsLive-moved, create_bootstrap_token-IsLive}
use operating_system_manager.Bootstrap.Context.{Resolves, kubeconfig_for-Resolves}

module _ {A : Api} (L : IsLawful A) (C : Cluster A.State) (M : IsLawfulCluster L C)
    (name token : String) (t : ℕ) where
  abbrev Live : Content → Type 0
  Live c = IsLive C name token t c

  -- A change that keeps the Secrets of kube-system keeps a token alive.
  Live-changed :
      (c d : Content)
      → ((x : Secret)
          → x.namespace ≡ kube_system
          → c.secrets (secret_key x) ≡ some x
          → d.secrets (secret_key x) ≡ some x)
      → Live c
      → Live d
  Live-changed c d keeps live = record {
    secret = live.secret;
    labelled = record {
      stored = keeps live.secret live.labelled.inside live.labelled.stored;
      inside = live.labelled.inside;
      labelled = live.labelled.labelled;
    };
    holds = live.holds;
    expiration = live.expiration;
    parsed = live.parsed;
    later = live.later;
  }

  create_secret-Live : (y : Secret) → Keeps L Live (A.create_secret y)
  create_secret-Live y = record {
    at = λ s live.
        Writes_keeps_if Live (A.create_secret y s).0 (L.create_secret_writes y s) live (λ done.
          Live-changed (L.content s) _
            (λ x inside stored.
              set_fresh (secret_key y) (secret_key x) (L.content s).secrets _
                (L.create_secret_fresh y s done) stored)
            live);
  }

  elsewhere :
      (x y : Secret)
      → x.namespace ≡ kube_system
      → y.namespace ≡ cloud_init_namespace
      → key_eq (secret_key y) (secret_key x) ≡ false
  elsewhere x y inside outside = elim (Bool-cases (key_eq (secret_key y) (secret_key x))) [
    | inl same ↦
        let meet = sym outside ∙ ap (λ k. k.namespace) ((key_eq_iff _ _).0 same) ∙ inside in
        absurd (cc ((eq_iff cloud_init_namespace kube_system).1 meet))
    | inr differ ↦ differ
  ]

  update_secret-Live :
      (y : Secret) → y.namespace ≡ cloud_init_namespace → Keeps L Live (A.update_secret y)
  update_secret-Live y outside = record {
    at = λ s live. Writes_keeps Live (A.update_secret y s).0 (L.update_secret_writes y s) live (
        Live-changed (L.content s) _ (λ x inside stored. rw (elsewhere x y inside outside) stored)
          live);
  }

  store_kubeconfig-Live :
      (text : String) (updated : Bool) (q : Result Secret)
      → ((x : Secret) → q ≡ ok x → x.namespace ≡ cloud_init_namespace)
      → Keeps L Live (store_kubeconfig A name text updated q)
  unfolding store_kubeconfig
  store_kubeconfig-Live text true (ok x) named = Keeps-pure tt
  store_kubeconfig-Live text false (ok x) named = update_secret-Live _ (named x refl)
  store_kubeconfig-Live text updated (err e) named = elim (Bool-cases (is_not_found e)) [
    | inl absent ↦ rw absent (create_secret-Live _)
    | inr fault ↦ rw fault (Keeps-raise e)
  ]

  -- The kubeconfig's Secret is written to a namespace of its own.
  stored-Live :
      (text : String) (updated : Bool)
      → Keeps L Live
          (attempt (A.get_secret (kubeconfig_key name)) (store_kubeconfig A name text updated))
  unfolding attempt kubeconfig_key
  stored-Live text updated = record {
    at = λ s live.
        (store_kubeconfig-Live text updated (A.get_secret (kubeconfig_key name) s).0
            (λ x got. ap (λ k. k.namespace) (M.get_secret_named (kubeconfig_key name) s x got))).at
          _ (subst Live (sym (L.get_secret_content (kubeconfig_key name) s)) live);
  }

-- A kubeconfig that generateKubeconfig makes leads to the token, and changes nothing.
module _ {A : Api} (L : IsLawful A) (C : Cluster A.State) (M : IsLawfulCluster L C)
    (o : Options) where
  generate_kubeconfig-Resolves :
      (token : String) (s : A.State) {config : Kubeconfig}
      → (generate_kubeconfig A C o token s).0 ≡ ok config
      → (cluster : KubeCluster) × Resolves config cluster token
  unfolding generate_kubeconfig
  generate_kubeconfig-Resolves token s h =
      let one = bind-ok _ _ s h in
      let made = kubeconfig_for-Resolves o.override_server token one.value one.then_ok in
      (_, made.3)

  get_token-IsLive :
      (key : Option Key) (name : String) (s : A.State) {p : String × Bool}
      → key ≡ none
      → (get_token A C o key name s).0 ≡ ok p
      → IsLive C name p.0 ((C.now s).0 + 30 * minute) (L.content (get_token A C o key name s).1)
  unfolding get_token
  get_token-IsLive none name s unset h =
      let created = wrap-ok _ _ _ s h in
      IsLive-moved refl (ap L.content created.1)
        (create_bootstrap_token-IsLive L C M name s created.0)
  get_token-IsLive (some key) name s unset h = cc

  -- Where the API server and the clock are lawful, a kubeconfig that CreateBootstrapKubeconfig
  -- answers with, where no service account is configured, leads from its current context to a
  -- cluster and to a token; the token is that of a Secret that is then stored for the given name, and
  -- expires no sooner than half an hour after the call began.
  pub create_bootstrap_kubeconfig-IsLive :
      o.service_account ≡ none
      → (name : String) (s : A.State) {config : Kubeconfig} {secret_name : String}
      → (create_bootstrap_kubeconfig A C o name s).0 ≡ ok (config, secret_name)
      → (cluster : KubeCluster) × (token : String) × Resolves config cluster token
        × IsLive C name token
            ((C.now s).0 + 30 * minute)
            (L.content (create_bootstrap_kubeconfig A C o name s).1)
  unfolding create_bootstrap_kubeconfig
  create_bootstrap_kubeconfig-IsLive unset name s h =
      let one = bind-ok _ _ s h in
      let token = one.value.0 in
      let two = bind-ok _ _ _ one.then_ok in
      let three = bind-ok _ _ _ two.then_ok in
      let four = bind-ok _ _ _ three.then_ok in
      let leads = generate_kubeconfig-Resolves token _ two.first in
      let begin = (C.now s).0 + 30 * minute in
      let live = get_token-IsLive o.service_account name s unset one.first in
      let kept =
        (generate_kubeconfig-Keeps M (λ c. IsLive C name token begin c) o token).at _ live in
      let stored = (stored-Live L C M name token begin three.value one.value.1).at _ kept in
      (
        leads.0,
        token,
        subst (λ c. Resolves c leads.0 token) (ap (λ p. p.0) (ok-injective _ _ four.then_ok))
            leads.1,
        IsLive-moved refl (ap L.content (one.state ∙ two.state ∙ three.state ∙ four.state)) stored,
      )
