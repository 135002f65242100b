-- ===== src/ClusterInfo.antt =====
-- pkg/clusterinfo/configmap.go: the kubeconfig of the cluster, from the ConfigMap cluster-info, or
-- else from the endpoints of the kubernetes service.
pub mod Laws
pub mod Tests
use operating_system_manager.Prelude.{
  String, ◌<>◌, Bool, false, Option, none, some, List, [], ◌∷◌, ◌==◌, if◌then◌else◌,
}
use operating_system_manager.Prelude.Int.{ℤ, sprint}
use operating_system_manager.Prelude.Dict.{Dict, lookup}
use operating_system_manager.Prelude.Result.{Result, ok, err, errorf}
use operating_system_manager.Prelude.Exec.{Exec, lift, wrap, attempt, ◌>>=◌}
use operating_system_manager.Machine.{Key, Kubeconfig}

-- discoveryv1.EndpointPort
pub record EndpointPort : Type 0 where
  pub name : Option String
  pub port : Option ℤ

pub record Endpoint : Type 0 where
  pub ready : Option Bool
  pub addresses : List String

pub record EndpointSlice : Type 0 where
  pub ports : List EndpointPort
  pub endpoints : List Endpoint

-- The requests of the provider, clientcmd.Load, and net. The list is of the slices of the
-- kubernetes service in the namespace default; an address is parsed and printed again.
pub record Source (S : Type 0) : Type 0 where
  -- the data of a ConfigMap
  pub get_config_map : Key → Exec S (Dict String)
  pub list_endpoint_slices : Exec S (List EndpointSlice)
  pub load : String → Result Kubeconfig
  pub parse_ip : String → Option String
  pub join_host_port : String → String → String

unfoldable pub is_https : Option String → Bool
is_https none = false
is_https (some name) = name == "https"

unfoldable pub or_else : {A : Type 0} → Option A → Option A → Option A
or_else none rest = rest
or_else (some a) rest = some a

-- getSecurePortFromSlice: the number of the port that it finds
unfoldable pub get_secure_port : List EndpointPort → Option ℤ
get_secure_port [] = none
get_secure_port (p ∷ ps) =
    let rest = get_secure_port ps in if is_https p.name then or_else p.port rest else rest

unfoldable pub is_ready : Option Bool → Bool
is_ready none = false
is_ready (some ready) = ready

module _ {S : Type 0} (C : Source S) where
  unfoldable pub first_ip : List String → Option String
  first_ip [] = none
  first_ip (address ∷ addresses) = C.parse_ip address

  -- The inner loop of buildKubeconfigFromEndpointSlice: the address of the first endpoint that serves
  unfoldable pub ready_ip : List Endpoint → Option String
  ready_ip [] = none
  ready_ip (e ∷ es) =
      let rest = ready_ip es in
      if is_ready e.ready then or_else (first_ip e.addresses) rest else rest

  unfoldable pub url_of : Option ℤ → Option String → Option String
  url_of none ip = none
  url_of (some port) none = none
  url_of (some port) (some ip) = some ("https://" <> C.join_host_port ip (sprint port))

  -- The outer loop: the URL of the first slice that has one
  unfoldable pub slices_url : List EndpointSlice → Option String
  slices_url [] = none
  slices_url (slice ∷ slices) =
      or_else (url_of (get_secure_port slice.ports) (ready_ip slice.endpoints)) (slices_url slices)

  module _ (ca_cert : String) where
    unfoldable pub config_at : String → Kubeconfig
    config_at url = record {
      kind = "Config";
      api_version = "v1";
      clusters = ("", record { server = url; ca_data = ca_cert }) ∷ [];
      auth_infos = [];
      contexts = [];
      current_context = "";
    }

    unfoldable pub config_of_url : Option String → Result Kubeconfig
    config_of_url none = err (errorf "no ready endpoint found in kubernetes endpointslices" [])
    config_of_url (some url) = ok (config_at url)

    unfoldable pub config_of_slices : List EndpointSlice → Result Kubeconfig
    config_of_slices [] = err (errorf "no endpointslices found for kubernetes service" [])
    config_of_slices (slice ∷ slices) = config_of_url (slices_url (slice ∷ slices))

    -- buildKubeconfigFromEndpointSlice
    unfoldable pub build_kubeconfig_from_endpoint_slice : Exec S Kubeconfig
    build_kubeconfig_from_endpoint_slice = do
      slices ← wrap "failed to list endpointslices: %w" [] C.list_endpoint_slices
      lift (config_of_slices slices)

    unfoldable pub load_if_found : Option String → Result Kubeconfig
    load_if_found none = err (errorf "no kubeconfig found in cluster-info configmap" [])
    load_if_found (some text) = C.load text

    -- getKubeconfigFromConfigMap
    unfoldable pub get_kubeconfig_from_config_map : Exec S Kubeconfig
    get_kubeconfig_from_config_map = do
      entries ← C.get_config_map (record { namespace = "kube-public"; name = "cluster-info" })
      lift (load_if_found (lookup "kubeconfig" entries))

    -- Any error of the first way leads to the second.
    unfoldable pub or_from_slices : Result Kubeconfig → Exec S Kubeconfig
    or_from_slices (ok config) = lift (ok config)
    or_from_slices (err e) = build_kubeconfig_from_endpoint_slice

    -- GetKubeconfig
    unfoldable pub get_kubeconfig : Exec S Kubeconfig
    get_kubeconfig = attempt get_kubeconfig_from_config_map or_from_slices
