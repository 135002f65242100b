-- ===== src/Osc/Tests.antt =====
-- A server that keeps its objects in memory, constants and parts, to run the controller on.
pub mod Objects
pub mod Examples
use mathlib.Core.Path.{subst}
use operating_system_manager.Prelude.{
  String, ◌<>◌, true, false, Option, none, some, List, [], ◌∷◌, ◌≡◌, refl,
}
use operating_system_manager.Prelude.Result.{
  Error, Result, ok, err, api, not_found, already_exists, other,
}
use operating_system_manager.Crd.{Osp, Osc, OspConfig, OscConfig, cloud_init}
use operating_system_manager.Machine.{Key, key_eq, MachineDeployment, Secret, Kubeconfig}
use operating_system_manager.ContainerRuntime.Config.{zero_config}
use operating_system_manager.Finalizers.{Sets, KeepsElements}
use operating_system_manager.Osc.Api.{Api, Sdk, Settings, OscRequest, Parts}
use operating_system_manager.Osc.Api.Laws.{
  Content, IsLawful, Answers, Writes, set_at, md_key, stored_after, osc_key, secret_key,
}
use operating_system_manager.Osc.Invariants.{PartsKeep, NamesOsc}
use operating_system_manager.Osc.Edge.{ForEdge}

abbrev pub answer : {A : Type 0} → Option A → Result A
answer none = err (api not_found)
answer (some a) = ok a

abbrev pub create_at : {A : Type 0} → Option A → Content → Content → Result (Unit {0}) × Content
create_at none c d = (ok tt, d)
create_at (some a) c d = (err (api already_exists), c)

abbrev pub delete_at : {A : Type 0} → Option A → Content → Content → Result (Unit {0}) × Content
delete_at none c d = (err (api not_found), c)
delete_at (some a) c d = (ok tt, d)

abbrev pub server : Api
server = record {
  State = Content;
  get_md = λ k c. (answer (c.mds k), c);
  update_md = λ md c. (ok tt, record c { mds = set_at (md_key md) (stored_after md) c.mds });
  get_osp = λ k c. (answer (c.osps k), c);
  get_osc = λ k c. (answer (c.oscs k), c);
  create_osc = λ o c.
      create_at (c.oscs (osc_key o)) c (record c { oscs = set_at (osc_key o) (some o) c.oscs });
  delete_osc = λ k c. delete_at (c.oscs k) c (record c { oscs = set_at k none c.oscs });
  get_secret = λ k c. (answer (c.secrets k), c);
  create_secret = λ x c.
      create_at (c.secrets (secret_key x)) c
        (record c { secrets = set_at (secret_key x) (some x) c.secrets });
  update_secret = λ x c. (ok tt, record c { secrets = set_at (secret_key x) (some x) c.secrets });
  delete_secret = λ k c. delete_at (c.secrets k) c (record c { secrets = set_at k none c.secrets });
  get_local_secret = λ k c. (answer (c.secrets k), c);
  event = λ md reason e c. c;
}

pub answer-Answers : {A : Type 0} (o : Option A) → Answers o (answer o)
answer-Answers none = λ _. refl
answer-Answers (some a) = refl

pub create_at-Writes :
    {A : Type 0} (o : Option A) (c d : Content) → Writes (create_at o c d).0 c d (create_at o c d).1
create_at-Writes none c d = refl
create_at-Writes (some a) c d = refl

pub create_at-fresh :
    {A : Type 0} (o : Option A) (c d : Content) → (create_at o c d).0 ≡ ok tt → o ≡ none
create_at-fresh none c d h = refl
create_at-fresh (some a) c d h = cc

pub delete_at-Writes :
    {A : Type 0} (o : Option A) (c d : Content) → Writes (delete_at o c d).0 c d (delete_at o c d).1
delete_at-Writes none c d = refl
delete_at-Writes (some a) c d = refl

pub delete_at-none :
    {A : Type 0} (o : Option A) (c d : Content) (e : Error) → (delete_at o c d).0 ≡ err e → o ≡ none
delete_at-none none c d e h = refl
delete_at-none (some a) c d e h = cc

abbrev pub server-IsLawful : IsLawful server
server-IsLawful = record {
  content = λ c. c;
  get_md_content = λ k c. refl;
  get_md_answer = λ k c. answer-Answers (c.mds k);
  get_osp_content = λ k c. refl;
  get_osp_answer = λ k c. answer-Answers (c.osps k);
  get_osc_content = λ k c. refl;
  get_osc_answer = λ k c. answer-Answers (c.oscs k);
  get_secret_content = λ k c. refl;
  get_secret_answer = λ k c. answer-Answers (c.secrets k);
  get_local_secret_content = λ k c. refl;
  update_md_writes = λ md c. refl;
  create_osc_writes = λ o c. create_at-Writes (c.oscs (osc_key o)) _ _;
  create_osc_fresh = λ o c h. create_at-fresh (c.oscs (osc_key o)) _ _ h;
  delete_osc_writes = λ k c. delete_at-Writes (c.oscs k) _ _;
  delete_osc_answer = λ k c e h _. delete_at-none (c.oscs k) _ _ e h;
  create_secret_writes = λ x c. create_at-Writes (c.secrets (secret_key x)) _ _;
  create_secret_fresh = λ x c h. create_at-fresh (c.secrets (secret_key x)) _ _ h;
  update_secret_writes = λ x c. refl;
  delete_secret_writes = λ k c. delete_at-Writes (c.secrets k) _ _;
  delete_secret_answer = λ k c e h _. delete_at-none (c.secrets k) _ _ e h;
  event_content = λ md reason e c. refl;
}

-- The same server, where updates of MachineDeployments are refused.
abbrev pub refusing : Api
refusing = record server { update_md = λ md c. (err (api (other "conflict")), c) }

abbrev pub refusing-IsLawful : IsLawful refusing
refusing-IsLawful = record {
  content = λ c. c;
  get_md_content = λ k c. refl;
  get_md_answer = λ k c. answer-Answers (c.mds k);
  get_osp_content = λ k c. refl;
  get_osp_answer = λ k c. answer-Answers (c.osps k);
  get_osc_content = λ k c. refl;
  get_osc_answer = λ k c. answer-Answers (c.oscs k);
  get_secret_content = λ k c. refl;
  get_secret_answer = λ k c. answer-Answers (c.secrets k);
  get_local_secret_content = λ k c. refl;
  update_md_writes = λ md c. refl;
  create_osc_writes = λ o c. create_at-Writes (c.oscs (osc_key o)) _ _;
  create_osc_fresh = λ o c h. create_at-fresh (c.oscs (osc_key o)) _ _ h;
  delete_osc_writes = λ k c. delete_at-Writes (c.oscs k) _ _;
  delete_osc_answer = λ k c e h _. delete_at-none (c.oscs k) _ _ e h;
  create_secret_writes = λ x c. create_at-Writes (c.secrets (secret_key x)) _ _;
  create_secret_fresh = λ x c h. create_at-fresh (c.secrets (secret_key x)) _ _ h;
  update_secret_writes = λ x c. refl;
  delete_secret_writes = λ k c. delete_at-Writes (c.secrets k) _ _;
  delete_secret_answer = λ k c e h _. delete_at-none (c.secrets k) _ _ e h;
  event_content = λ md reason e c. refl;
}

-- A provider configuration is the name of its cloud provider, and the hash of a text is the text.
abbrev pub sdk : Sdk
sdk = record {
  secret_name = λ name namespace kind. name <> ("-" <> (namespace <> ("-" <> (kind <> "-config"))));
  cloud_init_settings_namespace = "cloud-init-settings";
  bootstrap_cloud_config = "bootstrap";
  revision_annotation = "deployment.kubernetes.io/revision";
  machine_deployment_revision = "k8c.io/machine-deployment-revision";
  marshal_annotations = λ d. ok "annotations";
  sha256_hex = λ text. text;
  unmarshal_provider = λ raw. ok (record {
    operating_system = "ubuntu";
    operating_system_spec = none;
    cloud_provider = raw;
    cloud_provider_spec = none;
    ssh_public_keys = [];
    network = none;
    overwrite_cloud_config = none;
  });
}

abbrev pub sets : Sets
sets = record { sorted = λ xs. xs }

pub sets-KeepsElements : KeepsElements sets
sets-KeepsElements xs a = refl

abbrev pub settings : Settings
settings = record {
  namespace = "kube-system";
  container_runtime = "containerd";
  external_cloud_provider = false;
  initial_taints = "";
  cluster_dns_ips = [];
  ca_cert = "";
  host_ca_cert = "";
  node_http_proxy = "";
  node_no_proxy = "";
  node_registry_credentials_secret = "";
  container_runtime_config = zero_config;
  kubelet_feature_gates = [];
}

abbrev pub kubeconfig : Kubeconfig
kubeconfig = record {
  kind = "Config";
  api_version = "v1";
  clusters = ("", record { server = "https://10.0.0.1:6443"; ca_data = "" }) ∷ [];
  auth_infos = [];
  contexts = [];
  current_context = "";
}

abbrev no_config : OscConfig
no_config = record { units = []; files = []; user_ssh_keys = []; cloud_init_modules = none }

abbrev pub osc_of : String → String → String → Osc
osc_of provider name namespace = record {
  name = name;
  namespace = namespace;
  annotations = [];
  spec = record {
    os_name = "ubuntu";
    os_version = "22.04";
    cloud_provider = record { name = provider; spec = none };
    bootstrap_config = no_config;
    provisioning_config = no_config;
    provisioning_utility = "";
  };
}

-- Parts that leave the objects alone, for OSCs of one cloud provider.
abbrev pub parts_for : String → Parts Content
parts_for provider = record {
  create_bootstrap_kubeconfig = λ name c. (ok (kubeconfig, name), c);
  extract_token = λ c. (ok "token", c);
  containerd_auth_config = λ secret c. (ok [], c);
  provisioning_utility = λ os md. ok cloud_init;
  generate_osc = λ q r. ok (osc_of provider q.osc_name r.namespace);
  generate = λ config utility os p md kind. ok "#cloud-config";
}

pub parts-PartsKeep :
    (provider : String) (I : Content → Type 0) → PartsKeep server-IsLawful (parts_for provider) I
parts-PartsKeep provider I = record {
  bootstrap = λ name. record { at = λ s h. h };
  token = record { at = λ s h. h };
  auth = λ secret. record { at = λ s h. h };
}

abbrev Named : Key → Result Osc → Type 0
Named k (ok osc) = osc_key osc ≡ k
Named k (err e) = Unit

pub parts-NamesOsc : (provider : String) → NamesOsc (parts_for provider)
parts-NamesOsc provider q r osc h =
    subst (Named (record { namespace = r.namespace; name = q.osc_name })) h refl

abbrev Provided : String → Result Osc → Type 0
Provided p (ok osc) = osc.spec.cloud_provider.name ≡ p
Provided p (err e) = Unit

pub parts-ForEdge : (md : MachineDeployment) → ForEdge (parts_for "edge") md
parts-ForEdge md q r osc _ h = subst (Provided "edge") h refl
