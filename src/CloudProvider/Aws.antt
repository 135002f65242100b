-- ===== src/CloudProvider/Aws.antt =====
-- pkg/cloudprovider/aws.
use operating_system_manager.Prelude.{String, ◌<>◌}
use operating_system_manager.Prelude.Result.{Result, ok, ◌>>=◌}
use operating_system_manager.Machine.{ProviderConfig}
use operating_system_manager.CloudProvider.Ini.{escape}
use operating_system_manager.CloudProvider.Resolver.{
  ConfigVarString, Resolver, decode_spec, render_config,
}

pub record RawConfig : Type 0 where
  pub availability_zone : ConfigVarString
  pub vpc_id : ConfigVarString
  pub subnet_id : ConfigVarString

pub record CloudConfig : Type 0 where
  pub zone : String
  pub vpc : String
  pub subnet_id : String

-- ToString
unfoldable pub to_string : CloudConfig → String
to_string c =
    "[global]\nZone="
    <> (escape c.zone
        <> ("\nVPC=" <> (escape c.vpc <> ("\nSubnetID=" <> (escape c.subnet_id <> "\n")))))

module _ (V : Resolver) (unmarshal : String → Result RawConfig) where
  unfoldable pub get_config : ProviderConfig → Result CloudConfig
  get_config config = do
    raw ← decode_spec unmarshal config
    zone ← V.get_string_value raw.availability_zone
    vpc ← V.get_string_value raw.vpc_id
    subnet_id ← V.get_string_value raw.subnet_id
    ok (record { zone = zone; vpc = vpc; subnet_id = subnet_id })

  unfoldable pub get_cloud_config : ProviderConfig → Result String
  get_cloud_config config = render_config (λ c. ok (to_string c)) (get_config config)
