-- ===== src/Osc/Tests/Objects.antt =====
-- An OSP, MachineDeployments, OSCs and Secrets, and what the server of Osc/Tests holds of them.
use operating_system_manager.Prelude.{String, true, false, none, some, [], ◌∷◌}
use operating_system_manager.Crd.{Osp, Osc, OspConfig}
use operating_system_manager.Machine.{Key, MachineDeployment, Secret}
use operating_system_manager.Osc.Api.Laws.{Content, set_at}
use operating_system_manager.Osc.Tests.{osc_of}

abbrev no_osp_config : OspConfig
no_osp_config = record {
  supported_container_runtimes = [];
  templates = [];
  units = [];
  files = [];
  cloud_init_modules = none;
}

abbrev pub osp_ubuntu : Osp
osp_ubuntu = record {
  name = "osp-ubuntu";
  namespace = "kube-system";
  spec = record {
    os_name = "ubuntu";
    os_version = "22.04";
    version = "v1.7.0";
    supported_cloud_providers =
        record { name = "aws"; spec = none } ∷ record { name = "edge"; spec = none } ∷ [];
    bootstrap_config = no_osp_config;
    provisioning_config = no_osp_config;
    provisioning_utility = "";
  };
}

abbrev pub workers : String → MachineDeployment
workers provider = record {
  name = "workers";
  namespace = "kube-system";
  annotations =
      ("k8c.io/operating-system-profile", "osp-ubuntu")
      ∷ ("deployment.kubernetes.io/revision", "1")
      ∷ [];
  finalizers = "kubermatic.io/cleanup-operating-system-configs" ∷ "other" ∷ [];
  deleting = false;
  provider_spec = some provider;
  kubelet_version = "1.31.1";
}

-- The OSP is stored, and nothing else.
abbrev pub start : Content
start = record {
  mds = λ k. none;
  osps =
      set_at (record { namespace = "kube-system"; name = "osp-ubuntu" }) (some osp_ubuntu)
        (λ k. none);
  oscs = λ k. none;
  secrets = λ k. none;
}

abbrev pub osc_at : Key
osc_at = record { namespace = "kube-system"; name = "workers-kube-system-config" }

-- An OSC that is up to date.
abbrev pub osc_current : Osc
osc_current = record (osc_of "aws" "workers-kube-system-config" "kube-system") {
  annotations =
      ("k8c.io/machine-deployment-revision", "1")
      ∷ ("k8c.io/mdannotations-hash", "annotations")
      ∷ ("k8c.io/osp-version", "v1.7.0")
      ∷ [];
}

abbrev pub secret_at : Key
secret_at = record {
  namespace = "cloud-init-settings";
  name = "workers-kube-system-bootstrap-config";
}

-- A Secret that was made for an earlier OSC.
abbrev pub secret_old : Secret
secret_old = record {
  name = "workers-kube-system-bootstrap-config";
  namespace = "cloud-init-settings";
  annotations = [];
  labels = [];
  kind = "Opaque";
  immutable = true;
  entries = ("cloud-config", "old") ∷ [];
}

-- The Secret of the script is stored at the given key, beside the OSP.
abbrev pub with_secret : Key → Content
with_secret k = record start { secrets = set_at k (some secret_old) (λ j. none) }

-- The OSC and one Secret are stored, beside the OSP.
abbrev pub settled : Content
settled = record (with_secret secret_at) { oscs = set_at osc_at (some osc_current) (λ j. none) }

-- A MachineDeployment that is being deleted, stored beside its OSC and one Secret.
abbrev pub leaving : MachineDeployment
leaving = record (workers "aws") { deleting = true }

abbrev pub leaving_at : Key
leaving_at = record { namespace = "kube-system"; name = "workers" }

abbrev pub with_leaving : Content
with_leaving = record settled { mds = set_at leaving_at (some leaving) (λ k. none) }

-- A MachineDeployment without the finalizer, stored beside its OSP.
abbrev pub joining : MachineDeployment
joining = record (workers "aws") { finalizers = "other" ∷ [] }

abbrev pub with_joining : Content
with_joining = record start { mds = set_at leaving_at (some joining) (λ k. none) }
