-- ===== src/CloudProvider/Gce.antt =====
-- pkg/cloudprovider/gce.
use operating_system_manager.Prelude.{String, ◌<>◌, Bool, List, [], ◌∷◌}
use operating_system_manager.Prelude.Dict.{value}
use operating_system_manager.Prelude.Result.{Result, ok, wrap, ◌>>=◌}
use operating_system_manager.Machine.{ProviderConfig}
use operating_system_manager.CloudProvider.Ini.{escape, show_bool}
use operating_system_manager.CloudProvider.Resolver.{
  ConfigVarString, ConfigVarBool, Resolver, decode_spec, render_config,
}

pub record RawConfig : Type 0 where
  pub service_account : ConfigVarString
  pub zone : ConfigVarString
  pub network : ConfigVarString
  pub subnetwork : ConfigVarString
  pub tags : List String
  pub multi_zone : ConfigVarBool
  pub regional : ConfigVarBool

pub record CloudConfig : Type 0 where
  pub project_id : String
  pub local_zone : String
  pub network_name : String
  pub subnetwork_name : String
  pub multi_zone : Bool
  pub regional : Bool
  pub node_tags : List String

unfoldable pub show_tags : List String → String
show_tags [] = ""
show_tags (tag ∷ tags) = "node-tags = " <> (escape tag <> ("\n" <> show_tags tags))

-- ToString
unfoldable pub to_string : CloudConfig → String
to_string c =
    "[global]\nproject-id = "
    <> (escape c.project_id
        <> ("\nlocal-zone = "
            <> (escape c.local_zone
                <> ("\nnetwork-name = "
                    <> (escape c.network_name
                        <> ("\nsubnetwork-name = "
                            <> (escape c.subnetwork_name
                                <> ("\nmultizone = "
                                    <> (show_bool c.multi_zone
                                        <> ("\nregional = "
                                            <> (show_bool c.regional
                                                <> ("\n" <> show_tags c.node_tags))))))))))))

module _ (V : Resolver) (unmarshal : String → Result RawConfig) where
  unfoldable pub get_project_id : RawConfig → Result String
  get_project_id raw = do
    service_account ←
        wrap "cannot retrieve service account: %w" []
          (V.get_string_value_or_env raw.service_account "GOOGLE_SERVICE_ACCOUNT")
    sa ← wrap "failed to decode base64 service account: %w" [] (V.decode_base64 service_account)
    sam ← wrap "failed unmarshalling service account: %w" [] (V.unmarshal_map sa)
    ok (value "project_id" sam)

  unfoldable pub get_config : ProviderConfig → Result CloudConfig
  get_config config = do
    raw ← decode_spec unmarshal config
    first_project_id ← get_project_id raw
    zone ← wrap "cannot retrieve zone: %w" [] (V.get_string_value raw.zone)
    multi_zone ← wrap "failed to retrieve multizone: %w" [] (V.get_bool_value raw.multi_zone)
    regional ← wrap "failed to retrieve regional: %w" [] (V.get_bool_value raw.regional)
    network ← wrap "cannot retrieve network: %w" [] (V.get_string_value raw.network)
    subnetwork ← wrap "cannot retrieve subnetwork: %w" [] (V.get_string_value raw.subnetwork)
    project_id ← get_project_id raw
    ok (record {
      project_id = project_id;
      local_zone = zone;
      network_name = network;
      subnetwork_name = subnetwork;
      multi_zone = multi_zone.0;
      regional = regional.0;
      node_tags = raw.tags;
    })

  unfoldable pub get_cloud_config : ProviderConfig → Result String
  get_cloud_config config = render_config (λ c. ok (to_string c)) (get_config config)
