-- ===== src/CloudProvider.antt =====
-- pkg/cloudprovider/cloudprovider.go: which cloud providers have a cloud configuration, which the
-- packages below make. Versions are a parameter.
pub mod Resolver
pub mod Ini
pub mod Aws
pub mod Azure
pub mod Gce
pub mod Kubevirt
pub mod Openstack
pub mod Vsphere
pub mod Tests
use operating_system_manager.Prelude.{
  String, Bool, false, not, List, [], ◌∷◌, ◌==◌, ◌||◌, if◌then◌else◌,
}
use operating_system_manager.Prelude.Result.{Result, ok, err, errorf, wrap, ◌>>=◌}
use operating_system_manager.Crd.{CloudProvider}
use operating_system_manager.Machine.{ProviderConfig}

-- The resolver, and the encoders of the packages below.
pub record Clouds : Type 0 where
  pub resolver : Resolver.Resolver
  pub aws_spec : String → Result Aws.RawConfig
  pub azure_spec : String → Result Azure.RawConfig
  pub gce_spec : String → Result Gce.RawConfig
  pub kubevirt_spec : String → Result Kubevirt.RawConfig
  pub openstack_spec : String → Result Openstack.RawConfig
  pub vsphere_spec : String → Result Vsphere.RawConfig
  -- json.Marshal and yaml.Marshal
  pub azure_json : Azure.CloudConfig → Result String
  pub kubevirt_yaml : Kubevirt.CloudConfig → Result String

-- github.com/Masterminds/semver
pub record Versions : Type 1 where
  pub Version : Type 0
  pub new_version : String → Result Version
  pub show : Version → String
  -- the constraint ">= 1.29"
  pub at_least_1_29 : Version → Bool
  pub clouds : Clouds

unfoldable pub one_of : String → List String → Bool
one_of s [] = false
one_of s (t ∷ ts) = s == t || one_of s ts

-- The cloud providers that need no cloud configuration.
abbrev pub without_config : List CloudProvider
without_config =
    "alibaba" ∷ "anexia" ∷ "digitalocean" ∷ "hetzner" ∷ "linode" ∷ "scaleway" ∷ "nutanix"
    ∷ "vmware-cloud-director" ∷ "opennebula" ∷ "edge" ∷ "baremetal" ∷ []

module _ (V : Versions) where
  -- The switch of GetCloudConfig.
  unfoldable pub provider_cloud_config : ProviderConfig → String → Result String
  provider_cloud_config config kubelet_version =
      if config.cloud_provider == "aws"
      then Aws.get_cloud_config V.clouds.resolver V.clouds.aws_spec config
      else if config.cloud_provider == "azure"
      then Azure.get_cloud_config V.clouds.resolver V.clouds.azure_spec V.clouds.azure_json config
      else if config.cloud_provider == "gce"
      then Gce.get_cloud_config V.clouds.resolver V.clouds.gce_spec config
      else if config.cloud_provider == "kubevirt"
      then Kubevirt.get_cloud_config V.clouds.resolver V.clouds.kubevirt_spec V.clouds.kubevirt_yaml
          config
      else if config.cloud_provider == "openstack"
      then Openstack.get_cloud_config V.clouds.resolver V.clouds.openstack_spec config
          kubelet_version
      else if config.cloud_provider == "vsphere"
      then Vsphere.get_cloud_config V.clouds.resolver V.clouds.vsphere_spec config
      else if one_of config.cloud_provider without_config
      then ok ""
      else err (errorf "unknown cloud provider" [])

  -- GetCloudConfig
  unfoldable pub get_cloud_config : Bool → ProviderConfig → String → Result String
  get_cloud_config external config kubelet_version =
      if external
      then ok ""
      else wrap "failed to parse kubelet version: %w" [] (V.new_version kubelet_version)
        >>= λ version.
            if V.at_least_1_29 version then ok "" else provider_cloud_config config kubelet_version

-- KubeletCloudProviderConfig: in-tree, and out of tree
unfoldable pub kubelet_cloud_provider_config : CloudProvider → Bool → Bool × Bool
kubelet_cloud_provider_config provider external =
    if one_of provider ("aws" ∷ "azure" ∷ "gce" ∷ "vsphere" ∷ [])
    then (not external, external)
    else (false, external)
