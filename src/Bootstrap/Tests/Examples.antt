-- ===== src/Bootstrap/Tests/Examples.antt =====
-- Bootstrap tokens and kubeconfigs, on the server and the clock of Bootstrap/Tests.
use operating_system_manager.Prelude.{String, ◌+◌, ◌*◌, none, [], ◌∷◌, ◌≡◌, refl, true, false}
use operating_system_manager.Prelude.Dict.{lookup, insert, value, value_or_empty}
use operating_system_manager.Prelude.Result.{Result, ok, is_not_found}
use operating_system_manager.Prelude.Exec.{attempt, wrap, ◌>>=◌}
use operating_system_manager.Machine.{key_eq, Secret, KubeCluster, Kubeconfig}
use operating_system_manager.Osc.Api.Laws.{Content}
use operating_system_manager.ClusterInfo.{
  get_kubeconfig, get_kubeconfig_from_config_map, load_if_found, or_from_slices,
}
use operating_system_manager.Bootstrap.Cluster.{Options}
use operating_system_manager.Bootstrap.Token.{
  minute, format_token, token_of, at_most_one, get_secret_if_exists, renewed, expires_soon, renew,
  update_secret_expiration_and_get_token, token_at, create_bootstrap_token,
}
use operating_system_manager.Bootstrap.Kubeconfig.{
  last_key, remove, override_servers, override_if_set, rename_cluster, renamed_clusters,
  kubeconfig_for, kubeconfig_key, store_kubeconfig, generate_kubeconfig, get_token,
  create_bootstrap_kubeconfig,
}
use operating_system_manager.Bootstrap.Live.{IsLive}
use operating_system_manager.Bootstrap.Context.{Resolves}
use operating_system_manager.Bootstrap.Run.{create_bootstrap_kubeconfig-IsLive}
use operating_system_manager.Bootstrap.Tests.{
  World, filing, filing-IsLawful, cluster, cluster-IsLawful, info, tally, marks, with_secret,
}

abbrev empty : Content
empty = record { mds = λ k. none; osps = λ k. none; oscs = λ k. none; secrets = λ k. none }

-- A token that expires five minutes after the start of the clock.
abbrev old_token : Secret
old_token = record {
  name = "bootstrap-token-abcdef";
  namespace = "kube-system";
  annotations = [];
  labels = ("machinedeployment.k8s.io/name", "workers") ∷ [];
  kind = "bootstrap.kubernetes.io/token";
  immutable = false;
  entries =
      ("token-id", "abcdef")
      ∷ ("token-secret", "0123456789abcdef")
      ∷ ("expiration", marks 300)
      ∷ [];
}

abbrev world : World
world = with_secret old_token (empty, λ k x h. cc)

abbrev options : Options
options = record { service_account = none; override_server = ""; ca_cert = "ca" }

token_ok :
    (create_bootstrap_token filing cluster "workers" world).0 ≡ ok ("abcdef.0123456789abcdef", true)
unfolding create_bootstrap_token get_secret_if_exists at_most_one token_at
    update_secret_expiration_and_get_token expires_soon renew renewed token_of format_token tally
    marks key_eq value value_or_empty lookup insert attempt wrap ◌>>=◌
token_ok = refl

abbrev made : Result (Kubeconfig × String)
made = (create_bootstrap_kubeconfig filing cluster options "workers" world).0

abbrev expected : Kubeconfig
expected = record info {
  clusters = ("c", record { server = "https://10.0.0.1:6443"; ca_data = "ca" }) ∷ [];
  auth_infos = ("c", "abcdef.0123456789abcdef") ∷ [];
  contexts = ("c", record { cluster = "c"; auth_info = "c" }) ∷ [];
  current_context = "c";
}

kubeconfig_ok : made ≡ ok (expected, "workers-kubelet-bootstrap-config")
unfolding create_bootstrap_kubeconfig get_token generate_kubeconfig get_kubeconfig
    get_kubeconfig_from_config_map load_if_found or_from_slices kubeconfig_for renamed_clusters
    rename_cluster last_key remove override_if_set override_servers kubeconfig_key store_kubeconfig
    create_bootstrap_token get_secret_if_exists at_most_one token_at
    update_secret_expiration_and_get_token expires_soon renew renewed token_of format_token tally
    marks key_eq value value_or_empty lookup insert attempt wrap is_not_found ◌>>=◌
kubeconfig_ok = refl

create_bootstrap_kubeconfig-IsLive_example :
    (c : KubeCluster) × (token : String) × Resolves expected c token
    × IsLive cluster "workers" token
        (0 + 30 * minute)
        (create_bootstrap_kubeconfig filing cluster options "workers" world).1.0
create_bootstrap_kubeconfig-IsLive_example =
    create_bootstrap_kubeconfig-IsLive filing-IsLawful cluster cluster-IsLawful options refl
      "workers" world kubeconfig_ok

moved_ok :
    kubeconfig_for "https://kind:6443" "token" info
    ≡ ok (record info {
      clusters = ("c", record { server = "https://kind:6443"; ca_data = "ca" }) ∷ [];
      auth_infos = ("c", "token") ∷ [];
      contexts = ("c", record { cluster = "c"; auth_info = "c" }) ∷ [];
      current_context = "c";
    })
unfolding kubeconfig_for renamed_clusters rename_cluster last_key remove override_if_set
    override_servers lookup insert
moved_ok = refl
