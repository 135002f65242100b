-- ===== src/CloudProvider/Azure.antt =====
-- pkg/cloudprovider/azure.
use operating_system_manager.Prelude.{
  String, Bool, true, not, Option, none, some, [], ◌==◌, ◌&&◌, if◌then◌else◌,
}
use operating_system_manager.Prelude.Result.{Result, ok, wrap, ◌>>=◌}
use operating_system_manager.Machine.{ProviderConfig}
use operating_system_manager.CloudProvider.Resolver.{
  ConfigVarString, Resolver, decode_spec, render_config,
}

pub record RawConfig : Type 0 where
  pub subscription_id : ConfigVarString
  pub tenant_id : ConfigVarString
  pub client_id : ConfigVarString
  pub client_secret : ConfigVarString
  pub location : ConfigVarString
  pub resource_group : ConfigVarString
  pub vnet_resource_group : ConfigVarString
  pub vnet_name : ConfigVarString
  pub subnet_name : ConfigVarString
  pub load_balancer_sku : ConfigVarString
  pub route_table_name : ConfigVarString
  pub availability_set : ConfigVarString
  pub assign_availability_set : Option Bool
  pub security_group_name : ConfigVarString

pub record CloudConfig : Type 0 where
  pub cloud : String
  pub tenant_id : String
  pub subscription_id : String
  pub aad_client_id : String
  pub aad_client_secret : String
  pub resource_group : String
  pub location : String
  pub vnet_name : String
  pub subnet_name : String
  pub route_table_name : String
  pub security_group_name : String
  pub primary_availability_set_name : String
  pub vnet_resource_group : String
  pub use_instance_metadata : Bool
  pub load_balancer_sku : String

-- The primary availability set: the one that is named, where it is not ruled out.
unfoldable pub primary_set : Option Bool → String → String
primary_set none name = if not (name == "") then name else ""
primary_set (some assign) name = if assign && not (name == "") then name else ""

module _ (V : Resolver) (unmarshal : String → Result RawConfig)
    (marshal : CloudConfig → Result String) where
  unfoldable pub get_config : ProviderConfig → Result CloudConfig
  get_config config = do
    raw ← decode_spec unmarshal config
    tenant_id ←
        wrap "failed to get the value of \"tenantID\" field, error = %w" []
          (V.get_string_value_or_env raw.tenant_id "AZURE_TENANT_ID")
    subscription_id ←
        wrap "failed to get the value of \"subscriptionID\" field, error = %w" []
          (V.get_string_value_or_env raw.subscription_id "AZURE_SUBSCRIPTION_ID")
    client_id ←
        wrap "failed to get the value of \"clientID\" field, error = %w" []
          (V.get_string_value_or_env raw.client_id "AZURE_CLIENT_ID")
    client_secret ←
        wrap "failed to get the value of \"clientSecret\" field, error = %w" []
          (V.get_string_value_or_env raw.client_secret "AZURE_CLIENT_SECRET")
    resource_group ←
        wrap "failed to get the value of \"resourceGroup\" field, error = %w" []
          (V.get_string_value raw.resource_group)
    location ←
        wrap "failed to get the value of \"location\" field, error = %w" []
          (V.get_string_value raw.location)
    vnet_name ←
        wrap "failed to get the value of \"vnetName\" field, error = %w" []
          (V.get_string_value raw.vnet_name)
    subnet_name ←
        wrap "failed to get the value of \"subnetName\" field, error = %w" []
          (V.get_string_value raw.subnet_name)
    route_table_name ←
        wrap "failed to get the value of \"routeTableName\" field, error = %w" []
          (V.get_string_value raw.route_table_name)
    security_group_name ←
        wrap "failed to get the value of \"securityGroupName\" field, error = %w" []
          (V.get_string_value raw.security_group_name)
    vnet_resource_group ←
        wrap "failed to get the value of \"vnetResourceGroup\" field, error = %w" []
          (V.get_string_value raw.vnet_resource_group)
    load_balancer_sku ←
        wrap "failed to get the value of \"loadBalancerSku\" field, error = %w" []
          (V.get_string_value raw.load_balancer_sku)
    availability_set ←
        wrap "failed to get the value of \"availabilitySet\" field, error = %w" []
          (V.get_string_value raw.availability_set)
    ok (record {
      cloud = "AZUREPUBLICCLOUD";
      tenant_id = tenant_id;
      subscription_id = subscription_id;
      aad_client_id = client_id;
      aad_client_secret = client_secret;
      resource_group = resource_group;
      location = location;
      vnet_name = vnet_name;
      subnet_name = subnet_name;
      route_table_name = route_table_name;
      security_group_name = security_group_name;
      primary_availability_set_name = primary_set raw.assign_availability_set availability_set;
      vnet_resource_group = vnet_resource_group;
      use_instance_metadata = true;
      load_balancer_sku = load_balancer_sku;
    })

  -- ToString
  unfoldable pub to_string : CloudConfig → Result String
  to_string c = wrap "failed to unmarshal config: %w" [] (marshal c)

  unfoldable pub get_cloud_config : ProviderConfig → Result String
  get_cloud_config config = render_config to_string (get_config config)
