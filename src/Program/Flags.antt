-- ===== src/Program/Flags.antt =====
-- cmd/osm-controller/main.go: two flags, read from texts.
pub mod Laws
pub mod Tests
use operating_system_manager.Prelude.{
  String, Bool, true, false, Option, none, some, List, [], ◌∷◌, if◌then◌else◌,
}
use operating_system_manager.Prelude.Text.{split, trim_space}
use operating_system_manager.Prelude.Dict.{Dict, lookup, insert}
use operating_system_manager.Prelude.Result.{Result, ok, err, errorf, ◌>>=◌}
use operating_system_manager.CloudProvider.{one_of}

-- net.ParseIP, which returns nil where a text is no address
unfoldable pub ip_or_error : {Ip : Type 0} → String → Option Ip → Result Ip
ip_or_error sip none = err (errorf "unable to parse ip %s" (sip ∷ []))
ip_or_error sip (some ip) = ok ip

module _ {Ip : Type 0} (parse_ip : String → Option Ip) where
  -- The loop of parseClusterDNSIPs.
  unfoldable pub parse_ips : List String → Result (List Ip)
  parse_ips [] = ok []
  parse_ips (sip ∷ sips) =
      let rest = parse_ips sips in
      ip_or_error sip (parse_ip (trim_space sip)) >>= λ ip. rest >>= λ ips. ok (ip ∷ ips)

  -- parseClusterDNSIPs; 44 is ","
  unfoldable pub parse_cluster_dns_ips : String → Result (List Ip)
  parse_cluster_dns_ips s = parse_ips (split 44 s)

-- strconv.ParseBool, without the text of its error
unfoldable pub parse_bool : String → Option Bool
parse_bool s =
    if one_of s ("1" ∷ "t" ∷ "T" ∷ "TRUE" ∷ "true" ∷ "True" ∷ [])
    then some true
    else if one_of s ("0" ∷ "f" ∷ "F" ∷ "FALSE" ∷ "false" ∷ "False" ∷ [])
    then some false
    else none

unfoldable pub enabled_or_error : String → Option Bool → Result Bool
enabled_or_error gate none = err (errorf "failed to parse kubelet feature gate: %q" (gate ∷ []))
enabled_or_error gate (some b) = ok b

-- The name and the value of one feature gate, of which there are exactly two parts.
unfoldable pub gate_of : String → List String → Result (String × Bool)
gate_of gate (name ∷ value ∷ []) = enabled_or_error gate (parse_bool value) >>= λ b. ok (name, b)
gate_of gate parts = err (errorf "invalid kubelet feature gate: %q" (gate ∷ []))

-- The loop of parseKubeletFeatureGates; 61 is "=".
unfoldable pub add_gates : List String → Dict Bool → Result (Dict Bool)
add_gates [] gates = ok gates
add_gates (gate ∷ rest) gates =
    gate_of gate (split 61 gate) >>= λ g. add_gates rest (insert g.0 g.1 gates)

abbrev pub rotate_certificate : String
rotate_certificate = "RotateKubeletServerCertificate"

unfoldable pub enforce_rotation : Option Bool → Dict Bool → Dict Bool
enforce_rotation none gates = insert rotate_certificate true gates
enforce_rotation (some b) gates = gates

-- parseKubeletFeatureGates
unfoldable pub parse_kubelet_feature_gates : String → Result (Dict Bool)
parse_kubelet_feature_gates s = add_gates (split 44 s) [] >>= λ gates.
    ok (enforce_rotation (lookup rotate_certificate gates) gates)
