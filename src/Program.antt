-- ===== src/Program.antt =====
-- cmd/osm-controller/main.go gives the OSC controller its parts: the other packages of the program,
-- on the clients of the controller.
pub mod Flags
pub mod Kept
pub mod Settled
pub mod Tests
use operating_system_manager.ContainerRuntime.Flags.{Credentials, get_containerd_auth_config}
use operating_system_manager.Generator.Provisioner.{get_provisioning_utility}
use operating_system_manager.Generator.Generate
use operating_system_manager.Generator.Generate.{generate}
use operating_system_manager.Osc.Api.{Api, Parts}
use operating_system_manager.Bootstrap.Cluster.{Cluster, Options}
use operating_system_manager.Bootstrap.Kubeconfig.{
  create_bootstrap_kubeconfig, extract_api_server_token,
}
use operating_system_manager.Resources.Generate.{Tools, generate_operating_system_config}

-- The calls of the OSC controller, as the program makes them.
unfoldable pub program_parts :
    (A : Api) → Cluster A.State → Options → Credentials → Tools → Generate.Library → Parts A.State
program_parts A C o J T B = record {
  create_bootstrap_kubeconfig = create_bootstrap_kubeconfig A C o;
  extract_token = extract_api_server_token A;
  containerd_auth_config = get_containerd_auth_config J A.get_local_secret;
  provisioning_utility = get_provisioning_utility B.decoders;
  generate_osc = generate_operating_system_config T;
  generate = generate B;
}
