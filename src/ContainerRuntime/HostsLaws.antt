-- ===== src/ContainerRuntime/HostsLaws.antt =====
-- What the hosts files are built from, and what they hold.
use mathlib.Core.Path.{subst}
use operating_system_manager.Prelude.{
  String, Bool, true, false, Option, none, some, List, [], ◌∷◌, map, ◌==◌, ◌||◌, ◌≡◌, ◌⊎◌, refl,
  ◌∙◌, ap, Bool-cases, Option-cases, inl, inr, eq_iff, eq_refl, arith, if◌then◌else◌,
}
use operating_system_manager.Prelude.Dict.{Dict, IsMap, lookup, insert, keys, lookup-insert}
use operating_system_manager.Prelude.Text.{replace_all}
use operating_system_manager.Prelude.Result.{Result, ok, err, wrap, ok-injective, ◌>>=◌}
use operating_system_manager.Finalizers.{contains}
use operating_system_manager.ContainerRuntime.Config.{Containerd}
use operating_system_manager.ContainerRuntime.Hosts.{
  Library, RegistryEndpoint, RegistryHostConfig, endpoint_of, config_or_new, add_mirrors,
  add_insecure, docker_default, build_registry_host_configs, is_skipped, hosts_config, hosts_path,
  write_hosts, registry_host_configs,
}

module _ (U : Library) where
  abbrev at : Dict RegistryHostConfig → String → RegistryHostConfig
  at d name = config_or_new U (lookup name d)

  at-insert :
      (k name : String) (c : RegistryHostConfig) (d : Dict RegistryHostConfig)
      → at (insert k c d) name ≡ (if k == name then c else at d name)
  unfolding config_or_new
  at-insert k name c d = rw lookup-insert (ground arith)

  -- What an update of the entry of `n` leaves at `name`.
  at-same :
      (f : RegistryHostConfig → RegistryHostConfig) (n name : String) (d : Dict RegistryHostConfig)
      → n == name ≡ true
      → at (insert n (f (at d n)) d) name ≡ f (at d name)
  at-same f n name d same =
      at-insert n name (f (at d n)) d ∙ rw same (ap (λ m. f (at d m)) ((eq_iff n name).0 same))

  at-other :
      (n name : String) (c : RegistryHostConfig) (d : Dict RegistryHostConfig)
      → n == name ≡ false
      → at (insert n c d) name ≡ at d name
  at-other n name c d other = at-insert n name c d ∙ rw other refl

  -- The endpoints of the mirrors, where there are some.
  abbrev pub mirrored : Option (List String) → List RegistryEndpoint → List RegistryEndpoint
  mirrored none other = other
  mirrored (some mirrors) other = map (endpoint_of U) mirrors

  abbrev Is : RegistryHostConfig → List RegistryEndpoint → Bool → Type 0
  Is c endpoints insecure = (c.endpoints ≡ endpoints) × (c.insecure ≡ insecure)

  add_insecure-at :
      (names : List String) (d : Dict RegistryHostConfig) (name : String)
      → Is
          (at (add_insecure U names d) name)
          (at d name).endpoints
          (contains names name || (at d name).insecure)
  unfolding add_insecure contains
  add_insecure-at [] d name = (refl, refl)
  add_insecure-at (n ∷ ns) d name =
      let rest = add_insecure-at ns (insert n (record (at d n) { insecure = true }) d) name in
      elim (Bool-cases (n == name)) [
        | inl same ↦
            let r =
              subst
                (λ c.
                  Is (at (add_insecure U (n ∷ ns) d) name) c.endpoints
                    (contains ns name || c.insecure))
                (at-same (λ c. record c { insecure = true }) n name d same) rest in
            (r.0, r.1 ∙ ground arith)
        | inr other ↦
            let r =
              subst
                (λ c.
                  Is (at (add_insecure U (n ∷ ns) d) name) c.endpoints
                    (contains ns name || c.insecure))
                (at-other n name _ d other) rest in
            (r.0, r.1 ∙ ground arith)
      ]

  add_mirrors-at :
      (mirrors : Dict (List String)) (d : Dict RegistryHostConfig) (name : String)
      → IsMap mirrors
      → Is
          (at (add_mirrors U mirrors d) name)
          (mirrored (lookup name mirrors) (at d name).endpoints)
          (at d name).insecure
  unfolding add_mirrors lookup
  add_mirrors-at [] d name unique = (refl, refl)
  add_mirrors-at ((n, ms) ∷ rest) d name unique =
      let ih =
        add_mirrors-at rest (insert n (record (at d n) { endpoints = map (endpoint_of U) ms }) d)
          name unique.1 in
      elim (Bool-cases (n == name)) [
        | inl same ↦
            let absent = subst (λ m. lookup m rest ≡ none) ((eq_iff n name).0 same) unique.0 in
            let r =
              subst
                (λ c.
                  Is (at (add_mirrors U ((n, ms) ∷ rest) d) name)
                    (mirrored (lookup name rest) c.endpoints) c.insecure)
                (at-same (λ c. record c { endpoints = map (endpoint_of U) ms }) n name d same) ih in
            rw same (rw absent at r)
        | inr other ↦
            let r =
              subst
                (λ c.
                  Is (at (add_mirrors U ((n, ms) ∷ rest) d) name)
                    (mirrored (lookup name rest) c.endpoints) c.insecure)
                (at-other n name _ d other) ih in
            rw other r
      ]

  start-at :
      (name : String)
      → Is
          (at (("docker.io", record { endpoints = docker_default U; insecure = false }) ∷ []) name)
          (if "docker.io" == name then docker_default U else [])
          false
  unfolding lookup config_or_new
  start-at name = (ground arith, ground arith)

  -- The configuration of a registry, by its name: the endpoints are those of its mirrors, or the
  -- default one for docker.io where it has no entry among the mirrors, or none; and it is insecure
  -- exactly if it is among the insecure registries. The mirrors are a map, each key stands once.
  pub build_registry_host_configs-at :
      (eng : Containerd) (name : String)
      → IsMap eng.registry_mirrors
      → ((config_or_new U (lookup name (build_registry_host_configs U eng))).endpoints
          ≡ mirrored
              (lookup name eng.registry_mirrors)
              (if "docker.io" == name then docker_default U else []))
        × ((config_or_new U (lookup name (build_registry_host_configs U eng))).insecure
            ≡ contains eng.insecure_registries name)
  unfolding build_registry_host_configs lookup config_or_new
  build_registry_host_configs-at eng name unique =
      let start = ("docker.io", record { endpoints = docker_default U; insecure = false }) ∷ [] in
      let i =
        add_insecure-at eng.insecure_registries (add_mirrors U eng.registry_mirrors start) name in
      let m = add_mirrors-at eng.registry_mirrors start name unique in
      let e = start-at name in
      (
        i.0 ∙ m.0 ∙ ap (mirrored (lookup name eng.registry_mirrors)) e.0,
        i.1 ∙ ap (λ b. contains eng.insecure_registries name || b) (m.1 ∙ e.1) ∙ ground arith,
      )

  lookup-keys :
      {V : Type 0} (d : Dict V) (name : String) (v : V)
      → lookup name d ≡ some v
      → contains (keys d) name ≡ true
  unfolding lookup keys contains
  lookup-keys [] name v h = cc
  lookup-keys ((k, w) ∷ d) name v h = elim (Bool-cases (k == name)) [
    | inl same ↦ rw same refl
    | inr other ↦ rw other (lookup-keys d name v (rw other at h))
  ]

  skipped-listed :
      (d : Dict RegistryHostConfig) (name : String)
      → is_skipped U (config_or_new U (lookup name d)) ≡ false
      → contains (keys d) name ≡ true
  unfolding is_skipped config_or_new
  skipped-listed d name h = elim (Option-cases (lookup name d)) [
    | inl absent ↦ absurd (cc (rw absent at h))
    | inr there ↦ lookup-keys d name there.0 there.1
  ]

  -- A file of the registry's path is among the results: the encoded configuration of a registry of
  -- that path, the registry itself or one of the same host.
  pub record IsWritten (configs : Dict RegistryHostConfig) (name : String) (result : Dict String)
      : Type 0 where
    pub registry : String
    pub same_path : hosts_path U registry ≡ hosts_path U name
    pub toml : String
    pub encoded :
        U.encode_hosts (hosts_config U registry (config_or_new U (lookup registry configs)))
        ≡ ok toml
    pub found : lookup (hosts_path U name) result ≡ some (replace_all toml "[host]\n" "")

  module _ (configs : Dict RegistryHostConfig) where
    encoded :
        (r : Result String) (f : String) (a : List String) (g : String → Result (Dict String))
        {all : Dict String}
        → (wrap f a r >>= g) ≡ ok all
        → (text : String) × (r ≡ ok text) × (g text ≡ ok all)
    encoded (ok text) f a g h = (text, refl, h)
    encoded (err e) f a g h = cc

    -- The encoded configuration of a registry.
    abbrev IsToml : String → String → Type 0
    IsToml n toml = U.encode_hosts (hosts_config U n (config_or_new U (lookup n configs))) ≡ ok toml

    abbrev file_of : String → String
    file_of toml = replace_all toml "[host]\n" ""

    abbrev Written : String → Dict String → Type 0
    Written = IsWritten configs

    inserted :
        (n toml : String) (result : Dict String) (name : String)
        → IsToml n toml
        → Written name result
        → Written name (insert (hosts_path U n) (file_of toml) result)
    inserted n toml result name made has =
        let after = lookup-insert (hosts_path U n) (hosts_path U name) (file_of toml) result in
        elim (Bool-cases (hosts_path U n == hosts_path U name)) [
          | inl same ↦ record {
            registry = n;
            same_path = (eq_iff (hosts_path U n) (hosts_path U name)).0 same;
            toml = toml;
            encoded = made;
            found = after ∙ rw same refl;
          }
          | inr other ↦ record {
            registry = has.registry;
            same_path = has.same_path;
            toml = has.toml;
            encoded = has.encoded;
            found = after ∙ rw other has.found;
          }
        ]

    own :
        (name toml : String) (result : Dict String)
        → IsToml name toml
        → Written name (insert (hosts_path U name) (file_of toml) result)
    own name toml result made = record {
      registry = name;
      same_path = refl;
      toml = toml;
      encoded = made;
      found =
          lookup-insert (hosts_path U name) (hosts_path U name) (file_of toml) result
          ∙ rw eq_refl refl;
    }

    -- A registry that is skipped is not the one that is looked for.
    without_skipped :
        (n : String) (ns : List String) (result : Dict String) (name : String)
        → is_skipped U (config_or_new U (lookup n configs)) ≡ true
        → is_skipped U (config_or_new U (lookup name configs)) ≡ false
        → Written name result ⊎ (contains (n ∷ ns) name ≡ true)
        → Written name result ⊎ (contains ns name ≡ true)
    unfolding contains
    without_skipped n ns result name skipped kept (inl has) = inl has
    without_skipped n ns result name skipped kept (inr listed) = elim (Bool-cases (n == name)) [
      | inl same ↦ absurd (cc ((eq_iff n name).0 same, skipped, kept))
      | inr other ↦ inr (rw other at listed)
    ]

    with_own :
        (n : String) (ns : List String) (toml : String) (result : Dict String) (name : String)
        → IsToml n toml
        → Written name result ⊎ (contains (n ∷ ns) name ≡ true)
        → Written name (insert (hosts_path U n) (file_of toml) result) ⊎ (contains ns name ≡ true)
    unfolding contains
    with_own n ns toml result name made (inl has) = inl (inserted n toml result name made has)
    with_own n ns toml result name made (inr listed) = elim (Bool-cases (n == name)) [
      | inl same ↦ inl (
          subst (λ m. Written m (insert (hosts_path U n) (file_of toml) result))
            ((eq_iff n name).0 same) (own n toml result made))
      | inr other ↦ inr (rw other at listed)
    ]

    write_hosts-IsWritten :
        (names : List String) (result all : Dict String) (name : String)
        → write_hosts U configs names result ≡ ok all
        → is_skipped U (config_or_new U (lookup name configs)) ≡ false
        → Written name result ⊎ (contains names name ≡ true)
        → Written name all
    unfolding write_hosts contains
    write_hosts-IsWritten [] result all name h kept (inl has) =
        subst (Written name) (ok-injective _ _ h) has
    write_hosts-IsWritten [] result all name h kept (inr listed) = cc
    write_hosts-IsWritten (n ∷ ns) result all name h kept has =
        elim (Bool-cases (is_skipped U (config_or_new U (lookup n configs)))) [
          | inl skipped ↦
              write_hosts-IsWritten ns result all name (rw skipped at h) kept
                (without_skipped n ns result name skipped kept has)
          | inr used ↦
              let e =
                encoded (U.encode_hosts (hosts_config U n (config_or_new U (lookup n configs)))) _ _
                  _ (rw used at h) in
              write_hosts-IsWritten ns _ all name e.2 kept (with_own n ns e.0 result name e.1 has)
        ]

  -- Where RegistryHostConfigs succeeds and the sort keeps the elements, every registry that has an
  -- endpoint or is insecure has a hosts file among the results, in the directory of its host: the
  -- encoded configuration of that registry or of another one with the same directory, which writes
  -- to the same file, without the heading "[host]".
  pub registry_host_configs-IsWritten :
      (eng : Containerd) (all : Dict String) (name : String)
      → ((xs : List String) (a : String) → contains (U.sort_strings xs) a ≡ contains xs a)
      → registry_host_configs U eng ≡ ok all
      → is_skipped U (config_or_new U (lookup name (build_registry_host_configs U eng))) ≡ false
      → IsWritten (build_registry_host_configs U eng) name all
  unfolding registry_host_configs
  registry_host_configs-IsWritten eng all name sorted h kept =
      write_hosts-IsWritten (build_registry_host_configs U eng) _ [] all name h kept
        (inr (sorted _ name ∙ skipped-listed (build_registry_host_configs U eng) name kept))
