-- ===== src/Program/Flags/Tests.antt =====
-- Flags of cmd/osm-controller/main.go, read.
use operating_system_manager.Prelude.{String, map, true, false, none, some, [], ◌∷◌, ◌≡◌, refl}
use operating_system_manager.Prelude.Text.{
  split, trim_space, trim_left, trim_right, keep_right, is_space, is_empty,
}
use operating_system_manager.Prelude.Dict.{lookup, insert}
use operating_system_manager.Prelude.Result.{ok, err, errorf}
use operating_system_manager.CloudProvider.{one_of}
use operating_system_manager.Program.Flags.{
  ip_or_error, parse_ips, parse_cluster_dns_ips, parse_bool, enabled_or_error, gate_of, add_gates,
  rotate_certificate, enforce_rotation, parse_kubelet_feature_gates,
}
use operating_system_manager.Program.Flags.Laws.{
  last_given, or_rotation, lookup-parse_kubelet_feature_gates, parse_cluster_dns_ips-map,
}

dns_ips :
    parse_cluster_dns_ips (λ sip. some sip) "10.0.0.1, 10.0.0.2" ≡ ok ("10.0.0.1" ∷ "10.0.0.2" ∷ [])
unfolding parse_cluster_dns_ips parse_ips ip_or_error split trim_space trim_left trim_right
    keep_right is_space is_empty
dns_ips = refl

gates_read :
    parse_kubelet_feature_gates "A=true,B=0,A=F"
    ≡ ok (("A", false) ∷ ("B", false) ∷ (rotate_certificate, true) ∷ [])
unfolding parse_kubelet_feature_gates add_gates gate_of enabled_or_error parse_bool one_of
    enforce_rotation lookup insert split
gates_read = refl

gates_refused :
    parse_kubelet_feature_gates "A=b=c"
    ≡ err (errorf "invalid kubelet feature gate: %q" ("A=b=c" ∷ []))
unfolding parse_kubelet_feature_gates add_gates gate_of split
gates_refused = refl

lookup-parse_kubelet_feature_gates_example :
    lookup "A" (("A", false) ∷ ("B", false) ∷ (rotate_certificate, true) ∷ [])
    ≡ or_rotation "A" (last_given "A" (split 44 "A=true,B=0,A=F") none)
lookup-parse_kubelet_feature_gates_example =
    lookup-parse_kubelet_feature_gates "A" "A=true,B=0,A=F" _ gates_read

parse_cluster_dns_ips-map_example :
    map {A = String} (λ sip. some (trim_space sip)) (split 44 "10.0.0.1, 10.0.0.2")
    ≡ map some ("10.0.0.1" ∷ "10.0.0.2" ∷ [])
parse_cluster_dns_ips-map_example =
    parse_cluster_dns_ips-map (λ sip. some sip) "10.0.0.1, 10.0.0.2" ("10.0.0.1" ∷ "10.0.0.2" ∷ [])
      dns_ips
