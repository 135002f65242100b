-- ===== src/ContainerRuntime/Hosts.antt =====
-- pkg/containerruntime/containerd.go: the configuration file of containerd, and the hosts files of
-- its registries. URLs and TOML are parameters.
use operating_system_manager.Prelude.{
  String, ◌<>◌, Bool, true, false, Option, none, some, List, [], ◌∷◌, map, ◌==◌, ◌&&◌, ◌||◌, not,
  if◌then◌else◌, length, nat_eq,
}
use operating_system_manager.Prelude.Text.{replace_all, before}
use operating_system_manager.Prelude.Dict.{Dict, lookup, insert, keys}
use operating_system_manager.Prelude.Result.{Result, ok, wrap, ◌>>=◌}
use operating_system_manager.ContainerRuntime.Config.{Containerd, AuthConfig}

-- A parsed URL, of which the code uses the host and the query.
pub record Url : Type 0 where
  pub host : String
  pub query : Dict (List String)
  pub text : String

pub record RegistryEndpoint : Type 0 where
  pub url : String
  pub override_path : Bool

pub record RegistryHostConfig : Type 0 where
  pub endpoints : List RegistryEndpoint
  pub insecure : Bool

pub record HostEntryConfig : Type 0 where
  pub capabilities : List String
  pub skip_verify : Bool
  pub override_path : Bool

pub record HostsTomlConfig : Type 0 where
  pub server : String
  pub host : Dict HostEntryConfig

-- containerdConfigManifest with the fields that are not constants: the sandbox image of the images
-- plugin, its credentials by host, and the device ownership of the runtime plugin.
pub record ContainerdConfigManifest : Type 0 where
  pub version : String
  pub metrics_address : String
  pub config_path : String
  pub configs : Dict AuthConfig
  pub pinned_sandbox : Option String
  pub runtime_type : String
  pub systemd_cgroup : Bool
  pub bin_dirs : List String
  pub conf_dir : String
  pub device_ownership_from_security_context : Bool

-- net/url, strconv.ParseBool, sort.Strings and the TOML encoder
pub record Library : Type 0 where
  pub parse_url : String → Option Url
  pub query_has : Dict (List String) → String → Bool
  pub query_get : Dict (List String) → String → String
  pub query_unescape : String → Option String
  pub parse_query : String → Option (Dict (List String))
  -- the URL's text with another query
  pub with_query : Url → Dict (List String) → String
  pub query_del : Dict (List String) → String → Dict (List String)
  -- false for a text that is no Boolean
  pub parse_bool : String → Bool
  pub sort_strings : List String → List String
  pub encode_hosts : HostsTomlConfig → Result String
  pub encode_manifest : ContainerdConfigManifest → Result String

module _ (U : Library) where
  -- `host := registry`, replaced by the host of a URL that has one
  unfoldable pub credential_host : String → Option Url → String
  credential_host registry none = registry
  credential_host registry (some u) = if u.host == "" then registry else u.host

  -- The loop over the registry credentials.
  unfoldable pub credential_configs : Dict AuthConfig → Dict AuthConfig → Dict AuthConfig
  credential_configs [] configs = configs
  credential_configs ((registry, auth) ∷ rest) configs =
      credential_configs rest
        (insert (credential_host registry (U.parse_url registry)) auth configs)

  -- Config, before it is encoded
  unfoldable pub config_manifest : Containerd → ContainerdConfigManifest
  config_manifest eng = record {
    version = "3";
    metrics_address = "127.0.0.1:1338";
    config_path = "/etc/containerd/certs.d";
    configs = credential_configs eng.registry_credentials [];
    pinned_sandbox = if eng.sandbox_image == "" then none else some eng.sandbox_image;
    runtime_type = "io.containerd.runc.v2";
    systemd_cgroup = true;
    bin_dirs = "/opt/cni/bin" ∷ [];
    conf_dir = "/etc/cni/net.d";
    device_ownership_from_security_context = eng.device_ownership_from_security_context;
  }

  -- Config
  unfoldable pub containerd_config : Containerd → Result String
  containerd_config eng = U.encode_manifest (config_manifest eng)

  unfoldable pub strip_from : String → Option Url → String
  strip_from mirror none = mirror
  strip_from mirror (some u) =
      if U.query_has u.query "kubermatic"
      then U.with_query u (U.query_del u.query "kubermatic")
      else mirror

  -- stripKubermaticParam
  unfoldable pub strip_kubermatic_param : String → String
  strip_kubermatic_param mirror = strip_from mirror (U.parse_url mirror)

  unfoldable pub override_of_query : Option (Dict (List String)) → Bool
  override_of_query none = false
  override_of_query (some values) = U.parse_bool (U.query_get values "override_path")

  unfoldable pub override_of_params : Option String → Bool
  override_of_params none = false
  override_of_params (some params) = override_of_query (U.parse_query params)

  unfoldable pub override_of_url : Option Url → Bool
  override_of_url none = false
  override_of_url (some u) =
      if U.query_has u.query "kubermatic"
      then override_of_params (U.query_unescape (U.query_get u.query "kubermatic"))
      else false

  -- The endpoint of a mirror, with the path override that its parameter asks for.
  unfoldable pub endpoint_of : String → RegistryEndpoint
  endpoint_of mirror = record {
    url = strip_kubermatic_param mirror;
    override_path = override_of_url (U.parse_url mirror);
  }

  unfoldable pub config_or_new : Option RegistryHostConfig → RegistryHostConfig
  config_or_new none = record { endpoints = []; insecure = false }
  config_or_new (some c) = c

  -- The loop over the registry mirrors.
  unfoldable pub add_mirrors :
      Dict (List String) → Dict RegistryHostConfig → Dict RegistryHostConfig
  add_mirrors [] configs = configs
  add_mirrors ((name, mirrors) ∷ rest) configs = add_mirrors rest (
      insert name
        (record (config_or_new (lookup name configs)) { endpoints = map endpoint_of mirrors })
        configs)

  -- The loop over the insecure registries.
  unfoldable pub add_insecure : List String → Dict RegistryHostConfig → Dict RegistryHostConfig
  add_insecure [] configs = configs
  add_insecure (name ∷ names) configs =
      add_insecure names
        (insert name (record (config_or_new (lookup name configs)) { insecure = true }) configs)

  abbrev pub docker_default : List RegistryEndpoint
  docker_default = record { url = "https://registry-1.docker.io"; override_path = false } ∷ []

  -- buildRegistryHostConfigs
  unfoldable pub build_registry_host_configs : Containerd → Dict RegistryHostConfig
  build_registry_host_configs eng = add_insecure eng.insecure_registries (
      add_mirrors eng.registry_mirrors
        (("docker.io", record { endpoints = docker_default; insecure = false }) ∷ []))

  -- registryHost
  unfoldable pub registry_host : String → String
  registry_host registry = before 47 registry

  unfoldable pub is_wildcard : String → Bool
  is_wildcard dir = dir == "*" || dir == "_default"

  -- The directory under certs.d, and the server.
  unfoldable pub registry_dir : String → String
  registry_dir name = if is_wildcard (registry_host name) then "_default" else registry_host name

  unfoldable pub server_url : String → String
  server_url name =
      if registry_host name == "docker.io"
      then "https://registry-1.docker.io"
      else if is_wildcard (registry_host name)
      then ""
      else name

  -- The loop over the endpoints.
  unfoldable pub add_hosts :
      Bool → List RegistryEndpoint → Dict HostEntryConfig → Dict HostEntryConfig
  add_hosts insecure [] hosts = hosts
  add_hosts insecure (e ∷ es) hosts = add_hosts insecure es (
      insert e.url
        (record {
          capabilities = "pull" ∷ "resolve" ∷ [];
          skip_verify = insecure;
          override_path = e.override_path;
        })
        hosts)

  -- The contents of a hosts file.
  unfoldable pub hosts_config : String → RegistryHostConfig → HostsTomlConfig
  hosts_config name c = record {
    server = server_url name;
    host =
        (let hosts = add_hosts c.insecure c.endpoints [] in
          if nat_eq (length c.endpoints) 0 && c.insecure
          then insert (server_url name)
              (record {
                capabilities = "pull" ∷ "resolve" ∷ [];
                skip_verify = c.insecure;
                override_path = false;
              })
              hosts
          else hosts);
  }

  unfoldable pub hosts_path : String → String
  hosts_path name = "/etc/containerd/certs.d/" <> (registry_dir name <> "/hosts.toml")

  unfoldable pub is_skipped : RegistryHostConfig → Bool
  is_skipped c = nat_eq (length c.endpoints) 0 && not c.insecure

  -- The loop of RegistryHostConfigs over the sorted names.
  unfoldable pub write_hosts :
      Dict RegistryHostConfig → List String → Dict String → Result (Dict String)
  write_hosts configs [] result = ok result
  write_hosts configs (name ∷ names) result =
      let c = config_or_new (lookup name configs) in
      let skipped = write_hosts configs names result in
      if is_skipped c
      then skipped
      else wrap "encoding hosts.toml for %s: %w" (name ∷ []) (U.encode_hosts (hosts_config name c))
        >>= λ text.
            write_hosts configs names
              (insert (hosts_path name) (replace_all text "[host]\n" "") result)

  -- RegistryHostConfigs
  unfoldable pub registry_host_configs : Containerd → Result (Dict String)
  registry_host_configs eng =
      let configs = build_registry_host_configs eng in
      write_hosts configs (U.sort_strings (keys configs)) []
