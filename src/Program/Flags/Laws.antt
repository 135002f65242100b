-- ===== src/Program/Flags/Laws.antt =====
-- What the flags of cmd/osm-controller/main.go are read as.
use operating_system_manager.Prelude.{
  String, Bool, true, Option, none, some, List, [], ◌∷◌, map, ◌≡◌, refl, sym, ap, ◌∙◌, ◌==◌, eq_iff,
  if◌then◌else◌, Bool-cases, inl, inr,
}
use operating_system_manager.Prelude.Text.{split, trim_space}
use operating_system_manager.Prelude.Dict.{Dict, lookup, insert, lookup-insert}
use operating_system_manager.Prelude.Result.{ok, ok-injective, bind-eq-ok}
use operating_system_manager.Program.Flags.{
  ip_or_error, parse_ips, parse_cluster_dns_ips, parse_bool, enabled_or_error, gate_of, add_gates,
  rotate_certificate, enforce_rotation, parse_kubelet_feature_gates,
}

ip_or_error-eq-ok :
    {Ip : Type 0} (sip : String) (found : Option Ip) (ip : Ip)
    → ip_or_error sip found ≡ ok ip
    → found ≡ some ip
unfolding ip_or_error
ip_or_error-eq-ok sip none ip h = absurd (cc h)
ip_or_error-eq-ok sip (some other) ip h = ap some (ok-injective other ip h)

module _ {Ip : Type 0} (parse_ip : String → Option Ip) where
  parse_ips-map :
      (sips : List String) (ips : List Ip)
      → parse_ips parse_ip sips ≡ ok ips
      → map (λ sip. parse_ip (trim_space sip)) sips ≡ map some ips
  unfolding parse_ips
  parse_ips-map [] ips h = ap (map some) (ok-injective [] ips h)
  parse_ips-map (sip ∷ sips) ips h =
      let first = bind-eq-ok (ip_or_error sip (parse_ip (trim_space sip))) _ h in
      let rest = bind-eq-ok (parse_ips parse_ip sips) _ first.2 in
      rw (sym (ok-injective (first.0 ∷ rest.0) ips rest.2)) (
        rw (ip_or_error-eq-ok sip (parse_ip (trim_space sip)) first.0 first.1)
          (rw (parse_ips-map sips rest.0 rest.1) refl))

  -- Where the addresses are read, they are those of all parts between the commas, trimmed and in
  -- their order, each of which is an address.
  pub parse_cluster_dns_ips-map :
      (s : String) (ips : List Ip)
      → parse_cluster_dns_ips parse_ip s ≡ ok ips
      → map (λ sip. parse_ip (trim_space sip)) (split 44 s) ≡ map some ips
  unfolding parse_cluster_dns_ips
  parse_cluster_dns_ips-map s ips h = parse_ips-map (split 44 s) ips h

-- What the parts of a gate give a name, where it has that name, and else what it had before.
unfoldable pub given_by : String → List String → Option Bool → Option Bool
given_by k (name ∷ value ∷ []) before = if name == k then parse_bool value else before
given_by k parts before = before

-- The value that the last gate of a name has.
unfoldable pub last_given : String → List String → Option Bool → Option Bool
last_given k [] before = before
last_given k (gate ∷ rest) before = last_given k rest (given_by k (split 61 gate) before)

enabled_or_error-eq-ok :
    (gate : String) (found : Option Bool) (b : Bool)
    → enabled_or_error gate found ≡ ok b
    → found ≡ some b
unfolding enabled_or_error
enabled_or_error-eq-ok gate none b h = absurd (cc h)
enabled_or_error-eq-ok gate (some other) b h = ap some (ok-injective other b h)

given_by-gate_of :
    (k gate : String) (parts : List String) (g : String × Bool) (before : Option Bool)
    → gate_of gate parts ≡ ok g
    → given_by k parts before ≡ (if g.0 == k then some g.1 else before)
unfolding given_by gate_of
given_by-gate_of k gate [] g before h = absurd (cc h)
given_by-gate_of k gate (name ∷ []) g before h = absurd (cc h)
given_by-gate_of k gate (name ∷ value ∷ []) g before h =
    let chain = bind-eq-ok (enabled_or_error gate (parse_bool value)) _ h in
    rw (sym (ok-injective (name, chain.0) g chain.2))
      (rw (enabled_or_error-eq-ok gate (parse_bool value) chain.0 chain.1) refl)
given_by-gate_of k gate (name ∷ value ∷ more ∷ rest) g before h = absurd (cc h)

lookup-add_gates :
    (k : String) (gates : List String) (d result : Dict Bool)
    → add_gates gates d ≡ ok result
    → lookup k result ≡ last_given k gates (lookup k d)
unfolding add_gates last_given
lookup-add_gates k [] d result h = ap (lookup k) (sym (ok-injective d result h))
lookup-add_gates k (gate ∷ rest) d result h =
    let chain = bind-eq-ok (gate_of gate (split 61 gate)) _ h in
    lookup-add_gates k rest (insert chain.0.0 chain.0.1 d) result chain.2
    ∙ ap (last_given k rest) (
        lookup-insert chain.0.0 k chain.0.1 d
        ∙ sym (given_by-gate_of k gate (split 61 gate) chain.0 (lookup k d) chain.1))

-- The rotation of certificates is on where nothing is given.
unfoldable pub or_rotation : String → Option Bool → Option Bool
or_rotation k none = if rotate_certificate == k then some true else none
or_rotation k (some b) = some b

or_rotation-absent :
    (k : String) (before : Option Bool)
    → ((rotate_certificate == k) ≡ true → before ≡ none)
    → (if rotate_certificate == k then some true else before) ≡ or_rotation k before
unfolding or_rotation
or_rotation-absent k none h = refl
or_rotation-absent k (some b) h = elim (Bool-cases (rotate_certificate == k)) [
  | inl same ↦ absurd (cc (h same))
  | inr other ↦ rw other refl
]

or_rotation-present :
    (k : String) (before : Option Bool) (b : Bool)
    → ((rotate_certificate == k) ≡ true → before ≡ some b)
    → before ≡ or_rotation k before
unfolding or_rotation
or_rotation-present k none b h = elim (Bool-cases (rotate_certificate == k)) [
  | inl same ↦ absurd (cc (h same))
  | inr other ↦ rw other refl
]
or_rotation-present k (some c) b h = refl

lookup-enforce_rotation :
    (k : String) (found : Option Bool) (d : Dict Bool)
    → lookup rotate_certificate d ≡ found
    → lookup k (enforce_rotation found d) ≡ or_rotation k (lookup k d)
unfolding enforce_rotation
lookup-enforce_rotation k none d h =
    lookup-insert rotate_certificate k true d
    ∙ or_rotation-absent k (lookup k d)
        (λ same. ap (λ i. lookup i d) (sym ((eq_iff rotate_certificate k).0 same)) ∙ h)
lookup-enforce_rotation k (some b) d h =
    or_rotation-present k (lookup k d) b
      (λ same. ap (λ i. lookup i d) (sym ((eq_iff rotate_certificate k).0 same)) ∙ h)

-- The gates that are read give every name the value of its last gate; the rotation of the server
-- certificates is on, unless it is given.
pub lookup-parse_kubelet_feature_gates :
    (k s : String) (gates : Dict Bool)
    → parse_kubelet_feature_gates s ≡ ok gates
    → lookup k gates ≡ or_rotation k (last_given k (split 44 s) none)
unfolding parse_kubelet_feature_gates lookup
lookup-parse_kubelet_feature_gates k s gates h =
    let chain = bind-eq-ok (add_gates (split 44 s) []) _ h in
    ap (lookup k) (sym (ok-injective _ gates chain.2))
    ∙ lookup-enforce_rotation k (lookup rotate_certificate chain.0) chain.0 refl
    ∙ ap (or_rotation k) (lookup-add_gates k (split 44 s) [] chain.0 chain.1)
