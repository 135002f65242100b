-- ===== src/ContainerRuntime/Config.antt =====
-- pkg/containerruntime/containerruntime.go: the configuration record, its options and its engine.
use operating_system_manager.Prelude.{String, Bool, false, List, [], ◌∷◌}
use operating_system_manager.Prelude.Dict.{Dict}

pub record AuthConfig : Type 0 where
  pub username : String
  pub password : String
  pub auth : String
  pub identity_token : String

pub record Config : Type 0 where
  pub insecure_registries : List String
  pub registry_mirrors : Dict (List String)
  pub registry_credentials : Dict AuthConfig
  pub sandbox_image : String
  pub container_log_max_files : String
  pub container_log_max_size : String
  pub containerd_version : String
  pub device_ownership_from_security_context : Bool

-- Opt: a change of the configuration
abbrev pub Opt : Type 0
Opt = Config → Config

unfoldable pub with_insecure_registries : List String → Opt
with_insecure_registries registries cfg = record cfg { insecure_registries = registries }

unfoldable pub with_registry_mirrors : Dict (List String) → Opt
with_registry_mirrors mirrors cfg = record cfg { registry_mirrors = mirrors }

unfoldable pub with_sandbox_image : String → Opt
with_sandbox_image image cfg = record cfg { sandbox_image = image }

unfoldable pub with_containerd_version : String → Opt
with_containerd_version version cfg = record cfg { containerd_version = version }

unfoldable pub with_device_ownership : Bool → Opt
with_device_ownership b cfg = record cfg { device_ownership_from_security_context = b }

abbrev pub zero_config : Config
zero_config = record {
  insecure_registries = [];
  registry_mirrors = [];
  registry_credentials = [];
  sandbox_image = "";
  container_log_max_files = "";
  container_log_max_size = "";
  containerd_version = "";
  device_ownership_from_security_context = false;
}

unfoldable pub apply_opts : List Opt → Config → Config
apply_opts [] cfg = cfg
apply_opts (o ∷ os) cfg = apply_opts os (o cfg)

-- get; its first argument, the runtime's name, is not read
unfoldable pub get : String → List Opt → Config
unfolding apply_opts
get _ opts = apply_opts opts zero_config

-- Containerd, the engine
pub record Containerd : Type 0 where
  pub insecure_registries : List String
  pub registry_mirrors : Dict (List String)
  pub sandbox_image : String
  pub registry_credentials : Dict AuthConfig
  pub version : String
  pub device_ownership_from_security_context : Bool

-- Config.Engine
unfoldable pub engine : Config → Containerd
engine cfg = record {
  insecure_registries = cfg.insecure_registries;
  registry_mirrors = cfg.registry_mirrors;
  sandbox_image = cfg.sandbox_image;
  registry_credentials = cfg.registry_credentials;
  version = cfg.containerd_version;
  device_ownership_from_security_context = cfg.device_ownership_from_security_context;
}
