-- ===== src/Program/Settled.antt =====
-- The whole program settles: the OSC controller with the packages that it calls.
use mathlib.Core.Path.{subst}
use operating_system_manager.Prelude.{String, Option, none, some, ◌≡◌, sym, ap, ◌∙◌, false}
use operating_system_manager.Prelude.Text.{split_2}
use operating_system_manager.Prelude.Result.{ok, ok-injective}
use operating_system_manager.Crd.{Osc}
use operating_system_manager.Machine.{Key, MachineDeployment, ProviderConfig, Secret}
use operating_system_manager.Osc.Edge.{ForEdge}
use operating_system_manager.Finalizers.{Sets}
use operating_system_manager.ContainerRuntime.Flags.{
  Credentials, credentials_at, get_containerd_auth_config,
}
use operating_system_manager.Generator.Generate
use operating_system_manager.Osc.Api.{Api, Sdk, Parts, Settings}
use operating_system_manager.Osc.Api.Laws.{Content, IsLawful}
use operating_system_manager.Osc.Api.Keeps.{
  Keeps, Writes_keeps, Keeps-bind, Keeps-wrap, Keeps-lift, Keeps-pure,
}
use operating_system_manager.Osc.Invariants.{PartsKeep, NamesOsc}
use operating_system_manager.Osc.Frame.{
  OscAt, SecretThere, create_secret-OscAt, create_secret-SecretThere, update_secret-SecretThere,
}
use operating_system_manager.Osc.Current.{KeysDiffer}
use operating_system_manager.Osc.Settled.{IsSettled}
use operating_system_manager.Osc.Reconciler.{osp_key, reconcile_request}
use operating_system_manager.Osc.Requests.{prepared, reconcile_request-IsSettled}
use operating_system_manager.Bootstrap.Cluster.{Cluster, Options}
use operating_system_manager.Bootstrap.Laws.{
  IsLawfulCluster, create_bootstrap_kubeconfig-Keeps, extract_api_server_token-Keeps,
}
use operating_system_manager.Resources.Generate.{Tools, parse_provider_config}
use operating_system_manager.Resources.Laws.{generate-named, generate-IsSupported}
use operating_system_manager.Program.{program_parts}

module _ (A : Api) (L : IsLawful A) where
  Keeps-get_local_secret : (I : Content → Type 0) (k : Key) → Keeps L I (A.get_local_secret k)
  Keeps-get_local_secret I k = record {
    at = λ s h. subst I (sym (L.get_local_secret_content k s)) h;
  }

  credentials_at-Keeps :
      (I : Content → Type 0) (J : Credentials) (ref : Option (String × String))
      → Keeps L I (credentials_at J A.get_local_secret ref)
  unfolding credentials_at
  credentials_at-Keeps I J none = Keeps-pure _
  credentials_at-Keeps I J (some (namespace, name)) =
      Keeps-bind _ _ (Keeps-wrap _ _ _ (Keeps-get_local_secret I _)) λ x. Keeps-lift _

  update_secret-OscAt :
      (k : Key) (o : Option Osc) (x : Secret) → Keeps L (OscAt k o) (A.update_secret x)
  update_secret-OscAt k o x = record {
    at = λ s h. Writes_keeps (OscAt k o) (A.update_secret x s).0 (L.update_secret_writes x s) h h;
  }

  module _ (C : Cluster A.State) (M : IsLawfulCluster L C) (o : Options) (J : Credentials)
      (T : Tools) (B : Generate.Library) where
    abbrev pub parts : Parts A.State
    parts = program_parts A C o J T B

    -- The other packages write to the API server by creates and updates of Secrets only.
    parts-PartsKeep_if :
        (I : Content → Type 0)
        → ((x : Secret) → Keeps L I (A.create_secret x))
        → ((x : Secret) → Keeps L I (A.update_secret x))
        → PartsKeep L parts I
    unfolding program_parts get_containerd_auth_config
    parts-PartsKeep_if I create update = record {
      bootstrap = create_bootstrap_kubeconfig-Keeps M I create update o;
      token = extract_api_server_token-Keeps L I;
      auth = λ ref. credentials_at-Keeps I J (split_2 47 ref);
    }

    parts-PartsKeep : (k : Key) (x : Option Osc) → PartsKeep L parts (OscAt k x)
    parts-PartsKeep k x =
        parts-PartsKeep_if (OscAt k x) (create_secret-OscAt A L k x) (update_secret-OscAt k x)

    -- They remove no Secret, and keep what an OSC and the presence of a Secret have in common.
    pub parts-PartsKeep_presence :
        (k : Key) (x : Option Osc) (j : Key)
        → PartsKeep L parts (λ c. OscAt k x c × SecretThere j c)
    parts-PartsKeep_presence k x j =
        parts-PartsKeep_if (λ c. OscAt k x c × SecretThere j c)
          (λ y. record {
            at = λ s h. (
              (create_secret-OscAt A L k x y).at s h.0,
              (create_secret-SecretThere A L j y).at s h.1,
            );
          })
          (λ y. record {
            at = λ s h. (
              (update_secret-OscAt k x y).at s h.0,
              (update_secret-SecretThere A L j y).at s h.1,
            );
          })

    pub parts-PartsKeep_secrets : (j : Key) → PartsKeep L parts (SecretThere j)
    parts-PartsKeep_secrets j =
        parts-PartsKeep_if (SecretThere j) (create_secret-SecretThere A L j)
          (update_secret-SecretThere A L j)

    pub parts-NamesOsc : NamesOsc parts
    unfolding program_parts
    parts-NamesOsc = generate-named T

    -- Where the provider configuration of the MachineDeployment is for the edge provider, so are its
    -- OSCs, and the packages keep what an earlier run has left behind.
    pub parts-ForEdge :
        (md : MachineDeployment) (config : ProviderConfig)
        → parse_provider_config T md ≡ ok config
        → config.cloud_provider ≡ "edge"
        → ForEdge parts md
    unfolding program_parts
    parts-ForEdge md config decoded edge q settings osc same made =
        let supported = generate-IsSupported T q settings made in
        let read =
          subst (λ m. parse_provider_config T m ≡ ok supported.config) same supported.decoded in
        supported.provider
        ∙ ap (λ c. c.cloud_provider) (ok-injective _ _ (sym read ∙ decoded))
        ∙ edge

    -- With the other packages as they are: where the API server, the clock and the encoders of times
    -- are lawful and the annotation keys of the SDK differ, a request that succeeds for a stored
    -- MachineDeployment that is not being deleted ends settled for it with the finalizer: the OSP
    -- that it names was there and supports it, and an up-to-date OSC and both Secrets are stored.
    pub program-IsSettled :
        (K : Sdk) (S : Sets) (r : Settings)
        → KeysDiffer K
        → (k : Key) (md : MachineDeployment) → md.deleting ≡ false
        → (s : A.State) → (L.content s).mds k ≡ some md
        → (reconcile_request A K S parts r k s).0 ≡ ok tt
        → IsSettled K r
            (prepared S md)
            (osp_key A K S parts r (prepared S md))
            (L.content s)
            (L.content (reconcile_request A K S parts r k s).1)
    program-IsSettled K S r differ k md staying s stored h =
        reconcile_request-IsSettled A L K S parts r differ parts-NamesOsc parts-PartsKeep k md
          staying s stored h
