-- ===== src/ClusterInfo/Tests.antt =====
-- Endpoint slices of which the second one serves, at the second of its endpoints.
use operating_system_manager.Prelude.{
  String, ◌<>◌, true, false, none, some, List, [], ◌∷◌, ◌≡◌, refl,
}
use operating_system_manager.Prelude.Int.{pos, sprint}
use operating_system_manager.Prelude.Result.{ok, err, api, not_found}
use operating_system_manager.Prelude.Exec.{attempt, wrap, ◌>>=◌}
use operating_system_manager.Machine.{Kubeconfig}
use operating_system_manager.ClusterInfo.{
  EndpointSlice, Source, config_at, config_of_slices, get_kubeconfig,
  get_kubeconfig_from_config_map, or_from_slices, build_kubeconfig_from_endpoint_slice,
  config_of_url, slices_url, url_of, ready_ip, first_ip, is_ready, get_secure_port, or_else,
  is_https,
}
use operating_system_manager.ClusterInfo.Laws.{In, here, there, Serves, config_of_slices-Serves}

abbrev second : EndpointSlice
second = record {
  ports =
      record { name = none; port = none }
      ∷ record { name = some "https"; port = some (pos 6443) }
      ∷ [];
  endpoints =
      record { ready = some false; addresses = "10.0.0.1" ∷ [] }
      ∷ record { ready = some true; addresses = "10.0.0.2" ∷ [] }
      ∷ [];
}

abbrev slices : List EndpointSlice
slices =
    record { ports = record { name = some "http"; port = some (pos 80) } ∷ []; endpoints = [] }
    ∷ second
    ∷ []

abbrev source : Source (Unit {0})
source = record {
  get_config_map = λ k s. (err (api not_found), s);
  list_endpoint_slices = λ s. (ok slices, s);
  load = λ text. err (api not_found);
  parse_ip = λ address. some address;
  join_host_port = λ host port. host <> (":" <> port);
}

serves : Serves source second "https://10.0.0.2:6443"
unfolding sprint
serves = record {
  port = record { name = some "https"; port = some (pos 6443) };
  number = pos 6443;
  in_ports = there here;
  secure = record { named = refl; numbered = refl };
  endpoint = record { ready = some true; addresses = "10.0.0.2" ∷ [] };
  ip = "10.0.0.2";
  in_endpoints = there here;
  up = record { ready = refl; address = "10.0.0.2"; others = []; addresses = refl; parsed = refl };
  same = refl;
}

config_of_slices-Serves_example :
    (config : Kubeconfig) × (config_of_slices source "ca" slices ≡ ok config)
    × (chosen : EndpointSlice) × (server : String) × In chosen slices
    × Serves source chosen server
    × (config ≡ config_at source "ca" server)
config_of_slices-Serves_example =
    config_of_slices-Serves source "ca" slices second "https://10.0.0.2:6443" (there here) serves

falls_back :
    (get_kubeconfig source "ca" tt).0 ≡ ok (config_at source "ca" ("https://10.0.0.2:" <> "6443"))
unfolding get_kubeconfig get_kubeconfig_from_config_map or_from_slices
    build_kubeconfig_from_endpoint_slice config_of_slices config_of_url slices_url url_of ready_ip
    first_ip is_ready get_secure_port or_else is_https attempt ◌>>=◌ wrap sprint
falls_back = refl
