-- ===== src/Resources/Laws.antt =====
-- An OSC that is generated: its name, and the files of its two configurations.
use operating_system_manager.Prelude.{
  String, Bool, true, false, Bool-cases, ◌⊎◌, inl, inr, Option, List, [], ◌∷◌, ◌≡◌, sym, ap, ◌==◌,
  ◌&&◌, not, eq_iff, arith,
}
use operating_system_manager.Prelude.Dict.{Dict}
use operating_system_manager.Prelude.Result.{ok, wrap, ok-injective, bind-eq-ok, wrap-eq-ok}
use operating_system_manager.Crd.{Osc, amzn2, flatcar, rhel, ubuntu, rockylinux}
use operating_system_manager.CloudProvider.{one_of}
use operating_system_manager.Machine.{ProviderConfig}
use operating_system_manager.Osc.Api.{Settings, OscRequest}
use operating_system_manager.Osc.Api.Laws.{osc_key}
use operating_system_manager.Resources.Data.{
  FilesData, BootstrapConfig, OperatingSystemConfig, zero_operating_system,
}
use operating_system_manager.Resources.Kubelet.{get_kubelet_configs}
use operating_system_manager.Resources.Files.{render_osp_files}
use operating_system_manager.Resources.Generate.{
  Tools, render_osc, generate_operating_system_config, configure_rhel_subscription, build_osc_spec,
  osc_config, parse_provider_config, prepare_container_runtime_config, prepare_bootstrap_config,
  prepare_cloud_provider_config, format_kubelet_version, build_files_data,
  set_operating_system_config,
}

module _ (T : Tools) where
  render_osc-named :
      (q : OscRequest) (r : Settings) (config : ProviderConfig) (hosts : Dict String)
      (d : FilesData) {osc : Osc}
      → render_osc T q r config hosts d ≡ ok osc
      → osc_key osc ≡ record { namespace = r.namespace; name = q.osc_name }
  unfolding render_osc
  render_osc-named q r config hosts d h =
      let osp = configure_rhel_subscription config q.osp d in
      let chain =
        bind-eq-ok (render_osp_files T.engine d T.hosts.sort_strings osp r.container_runtime hosts)
          _ h in
      ap osc_key (sym (ok-injective _ _ chain.2))

  -- The steps of a generation that succeeds, from its provider configuration on.
  pub record Generates (q : OscRequest) (r : Settings) (osc : Osc) : Type 0 where
    pub config : ProviderConfig
    pub decoded : parse_provider_config T q.md ≡ ok config
    pub runtime : String × String × Dict String
    pub prepared : prepare_container_runtime_config T q.md r.container_runtime_config ≡ ok runtime
    pub cloud : String × Bool × Bool
    pub kube_version : String
    pub bootstrap : BootstrapConfig × String
    pub files_data : FilesData
    pub built :
        build_files_data T kube_version r cloud config runtime bootstrap.1 bootstrap.0
          q.md.annotations
        ≡ ok files_data
    pub generated : render_osc T q r config runtime.2 files_data ≡ ok osc

  pub generate-Generates :
      (q : OscRequest) (r : Settings) {osc : Osc}
      → generate_operating_system_config T q r ≡ ok osc
      → Generates q r osc
  unfolding generate_operating_system_config
  generate-Generates q r h =
      let one = bind-eq-ok (parse_provider_config T q.md) _ h in
      let config = one.0 in
      let two =
        bind-eq-ok (prepare_container_runtime_config T q.md r.container_runtime_config) _ one.2 in
      let three =
        bind-eq-ok
          (prepare_bootstrap_config T q.md q.bootstrap_kubeconfig q.bootstrap_kubeconfig_name
            q.token)
          _ two.2 in
      let four =
        bind-eq-ok
          (prepare_cloud_provider_config T config q.md.kubelet_version r.external_cloud_provider) _
          three.2 in
      let five = bind-eq-ok (format_kubelet_version T q.md.kubelet_version) _ four.2 in
      let six =
        bind-eq-ok
          (build_files_data T five.0 r four.0 config two.0 three.0.1 three.0.0 q.md.annotations) _
          five.2 in
      record {
        config = one.0;
        decoded = one.1;
        runtime = two.0;
        prepared = two.1;
        cloud = four.0;
        kube_version = five.0;
        bootstrap = three.0;
        files_data = six.0;
        built = six.1;
        generated = six.2;
      }

  -- A generated OSC has the name that was asked for, in the reconciler's namespace.
  pub generate-named :
      (q : OscRequest) (r : Settings) (osc : Osc)
      → generate_operating_system_config T q r ≡ ok osc
      → osc_key osc ≡ record { namespace = r.namespace; name = q.osc_name }
  generate-named q r osc h =
      let g = generate-Generates q r h in
      render_osc-named q r g.config g.runtime.2 g.files_data g.generated

abbrev pub supported_systems : List String
supported_systems = amzn2 ∷ flatcar ∷ rhel ∷ ubuntu ∷ rockylinux ∷ []

-- What a generation relies on of a machine's provider configuration, and takes over from it.
pub record IsSupported (T : Tools) (q : OscRequest) (osc : Osc) : Type 0 where
  pub config : ProviderConfig
  pub decoded : parse_provider_config T q.md ≡ ok config
  pub known : one_of config.operating_system supported_systems ≡ true
  pub static_ip : (T.is_static_ip config.network ≡ false) ⊎ (config.operating_system ≡ flatcar)
  pub provider : osc.spec.cloud_provider.name ≡ config.cloud_provider
  pub keys : osc.spec.provisioning_config.user_ssh_keys ≡ config.ssh_public_keys

not_static-or-flatcar :
    (T : Tools) (config : ProviderConfig)
    → (T.is_static_ip config.network && not (config.operating_system == flatcar)) ≡ false
    → (T.is_static_ip config.network ≡ false) ⊎ (config.operating_system ≡ flatcar)
not_static-or-flatcar T config h = elim (Bool-cases (T.is_static_ip config.network)) [
  | inl is_static ↦ inr ((eq_iff config.operating_system flatcar).0 (ground (arith, h, is_static)))
  | inr dynamic ↦ inl dynamic
]

module _ (T : Tools) where
  set_operating_system_config-known :
      (os : String) (spec : Option String) (d : OperatingSystemConfig) {d' : OperatingSystemConfig}
      → set_operating_system_config T os spec d ≡ ok d'
      → one_of os supported_systems ≡ true
  unfolding set_operating_system_config one_of
  set_operating_system_config-known os spec d h = ground arith

  -- The two tests of buildFilesData.
  module _ (kube_version : String) (r : Settings) (cloud : String × Bool × Bool)
      (config : ProviderConfig) (cr : String × String × Dict String) (kubeconfig : String)
      (bc : BootstrapConfig) where
    build_files_data-tests :
        (annotations : Dict String) {d : FilesData}
        → build_files_data T kube_version r cloud config cr kubeconfig bc annotations ≡ ok d
        → (T.is_static_ip config.network && not (config.operating_system == flatcar) ≡ false)
          × (one_of config.operating_system supported_systems ≡ true)
    unfolding build_files_data
    build_files_data-tests annotations h =
        let one = bind-eq-ok (get_kubelet_configs T.keys annotations) _ h in
        elim (Bool-cases
          (T.is_static_ip config.network && not (config.operating_system == flatcar))) [
            | inl refused ↦ absurd (cc (rw refused at one.2))
            | inr allowed ↦
                let two =
                  bind-eq-ok
                    (wrap _ _ (
                      set_operating_system_config T config.operating_system
                        config.operating_system_spec zero_operating_system))
                    _ (rw allowed at one.2) in
                (
                  allowed,
                  set_operating_system_config-known config.operating_system _ _
                      (wrap-eq-ok _ _ (set_operating_system_config T _ _ _) two.1),
                )
          ]

  render_osc-provider :
      (q : OscRequest) (r : Settings) (config : ProviderConfig) (hosts : Dict String)
      (d : FilesData) {osc : Osc}
      → render_osc T q r config hosts d ≡ ok osc
      → (osc.spec.cloud_provider.name ≡ config.cloud_provider)
        × (osc.spec.provisioning_config.user_ssh_keys ≡ config.ssh_public_keys)
  unfolding render_osc build_osc_spec osc_config
  render_osc-provider q r config hosts d h =
      let osp = configure_rhel_subscription config q.osp d in
      let one =
        bind-eq-ok (render_osp_files T.engine d T.hosts.sort_strings osp r.container_runtime hosts)
          _ h in
      let made = sym (ok-injective _ _ one.2) in
      (
        ap (λ o. o.spec.cloud_provider.name) made,
        ap (λ o. o.spec.provisioning_config.user_ssh_keys) made,
      )

  -- An OSC is generated only for a provider configuration that decodes, of one of the five supported
  -- operating systems, and with a static IP configuration only for Flatcar; the OSC has its cloud
  -- provider and its SSH keys.
  pub generate-IsSupported :
      (q : OscRequest) (r : Settings) {osc : Osc}
      → generate_operating_system_config T q r ≡ ok osc
      → IsSupported T q osc
  generate-IsSupported q r h =
      let g = generate-Generates T q r h in
      let tests =
        build_files_data-tests g.kube_version r g.cloud g.config g.runtime g.bootstrap.1
          g.bootstrap.0 q.md.annotations g.built in
      let taken = render_osc-provider q r g.config g.runtime.2 g.files_data g.generated in
      record {
        config = g.config;
        decoded = g.decoded;
        known = tests.1;
        static_ip = not_static-or-flatcar T g.config tests.0;
        provider = taken.0;
        keys = taken.1;
      }
