-- ===== src/CloudProvider/Resolver.antt =====
-- What the packages below pkg/cloudprovider are given: values that may stand in a Secret or in the
-- environment (pkg/providerconfig/config), encoders, and URLs.
use operating_system_manager.Prelude.{String, Bool, Option, none, some, []}
use operating_system_manager.Prelude.Dict.{Dict}
use operating_system_manager.Prelude.Result.{Result, err, errorf, wrap, ◌>>=◌}
use operating_system_manager.Machine.{ProviderConfig}

-- providerconfig.ConfigVarString: a text, or a reference to an object that holds it
pub record ConfigVarString : Type 0 where
  pub value : String
  pub reference : String

-- providerconfig.ConfigVarBool
pub record ConfigVarBool : Type 0 where
  pub value : Option Bool
  pub reference : String

-- The ConfigVarResolver of the SDK, and libraries. The Secrets and the environment that are read are
-- those of one moment.
pub record Resolver : Type 0 where
  pub get_string_value : ConfigVarString → Result String
  pub get_string_value_or_env : ConfigVarString → String → Result String
  -- the value, and whether it is set
  pub get_bool_value : ConfigVarBool → Result (Bool × Bool)
  pub get_bool_value_or_env : ConfigVarBool → String → Result Bool
  pub get_env : String → String
  pub decode_base64 : String → Result String
  -- json.Unmarshal into a map of texts
  pub unmarshal_map : String → Result (Dict String)
  -- url.Parse: the host name and the port
  pub parse_url : String → Result (String × String)
  -- sprig's semverCompare, at a constraint and a version
  pub semver_compare : String → String → Result Bool

unfoldable pub decode_raw_spec : {R : Type 0} → (String → Result R) → Option String → Result R
decode_raw_spec unmarshal none =
    err (errorf "CloudProviderSpec in the MachineDeployment cannot be empty" [])
decode_raw_spec unmarshal (some raw) =
    wrap "failed to unmarshal CloudProviderSpec: %w" [] (unmarshal raw)

-- The first steps of getConfig, the same text in each package
unfoldable pub decode_spec : {R : Type 0} → (String → Result R) → ProviderConfig → Result R
decode_spec unmarshal config = decode_raw_spec unmarshal config.cloud_provider_spec

-- GetCloudConfig, the same text in each package
unfoldable pub render_config : {C : Type 0} → (C → Result String) → Result C → Result String
render_config to_string config = wrap "failed to parse config: %w" [] config >>= λ c.
    wrap "failed to convert cloud-config to string: %w" [] (to_string c)
