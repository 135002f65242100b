-- ===== src/Generator/Provisioner.antt =====
-- pkg/generator/provisioner.go
use operating_system_manager.Prelude.{String, [], ◌==◌, if◌then◌else◌}
use operating_system_manager.Prelude.Result.{Result, ok, wrap, ◌>>=◌}
use operating_system_manager.Crd.{
  OperatingSystem, ProvisioningUtility, flatcar, ignition, cloud_init,
}
use operating_system_manager.Machine.{MachineDeployment, ProviderConfig, raw_spec}
use operating_system_manager.ProviderConfig.{Json, FlatcarConfig, load_flatcar}

-- The decoders of the SDK: StrictUnmarshal into a provider configuration, and JSON for Flatcar.
pub record Decoders : Type 0 where
  pub strict_provider : String → Result ProviderConfig
  pub flatcar_json : Json FlatcarConfig

-- The utility of a decoded Flatcar configuration: Ignition where none is named.
unfoldable pub flatcar_utility : FlatcarConfig → ProvisioningUtility
flatcar_utility c = if c.provisioning_utility == "" then ignition else c.provisioning_utility

-- The Flatcar branch of GetProvisioningUtility.
unfoldable pub flatcar_provisioner : Decoders → MachineDeployment → Result ProvisioningUtility
unfolding raw_spec load_flatcar flatcar_utility
flatcar_provisioner d md = do
  raw ← raw_spec md.provider_spec
  config ← wrap "failed to decode provider configs: %w" [] (d.strict_provider raw)
  os ← load_flatcar d.flatcar_json config.operating_system_spec
  ok (flatcar_utility os)

-- GetProvisioningUtility
unfoldable pub get_provisioning_utility :
    Decoders → OperatingSystem → MachineDeployment → Result ProvisioningUtility
unfolding flatcar_provisioner
get_provisioning_utility d os_name md =
    let rest = flatcar_provisioner d md in if os_name == flatcar then rest else ok cloud_init
