-- ===== src/Generator/Laws.antt =====
-- What the generator makes of SSH keys and of the utility that an OSC asks for.
use operating_system_manager.Prelude.{
  String, false, List, [], ◌∷◌, map, ◌==◌, ◌&&◌, not, ◌≡◌, refl, sym, ◌∙◌, arith, eq_iff, eq_refl,
  Bool-cases, inl, inr, ◌⊎◌,
}
use operating_system_manager.Prelude.Text.{trim_space}
use operating_system_manager.Prelude.Result.{ok, wrap, bind-eq-ok, wrap-eq-ok}
use operating_system_manager.Crd.{OscConfig, OperatingSystem, CloudProvider, ProvisioningUtility}
use operating_system_manager.Machine.{MachineDeployment}
use operating_system_manager.Finalizers.{contains}
use operating_system_manager.Generator.Provisioner.{get_provisioning_utility}
use operating_system_manager.Generator.Generate.{
  Library, dedup_from, deduplicate_ssh_keys, generate_with, generate,
}

-- No text stands twice.
abbrev pub Distinct : List String → Type 0
Distinct [] = Unit
Distinct (x ∷ xs) = (contains xs x ≡ false) × Distinct xs

-- What is kept: the trimmed keys that are not empty and not seen.
dedup_from-contains :
    (seen keys : List String) (a : String)
    → contains (dedup_from seen keys) a
      ≡ (contains (map trim_space keys) a && not (a == "") && not (contains seen a))
unfolding dedup_from contains
dedup_from-contains seen [] a = refl
dedup_from-contains seen (key ∷ keys) a =
    let t = trim_space key in
    let skipped = dedup_from-contains seen keys a in
    let rest = dedup_from-contains (t ∷ seen) keys a in
    elim (Bool-cases (t == "")) [
      | inl empty ↦ rw empty (ground (arith, skipped, eq_iff t "", eq_iff t a, eq_iff a ""))
      | inr full ↦ elim (Bool-cases (contains seen t)) [
        | inl old ↦ rw full (rw old (ground (arith, skipped, eq_iff t a)))
        | inr new ↦ rw full (rw new (ground (arith, rest, eq_iff t "", eq_iff t a, eq_iff a "")))
      ]
    ]

own_key :
    (keys seen : List String) (t : String)
    → (contains (map trim_space keys) t && not (t == "") && not (contains (t ∷ seen) t)) ≡ false
unfolding contains
own_key keys seen t = ground (arith, eq_refl t)

dedup_from-Distinct : (seen keys : List String) → Distinct (dedup_from seen keys)
unfolding dedup_from
dedup_from-Distinct seen [] = tt
dedup_from-Distinct seen (key ∷ keys) =
    let t = trim_space key in
    elim (Bool-cases (t == "")) [
      | inl empty ↦ rw empty (dedup_from-Distinct seen keys)
      | inr full ↦ elim (Bool-cases (contains seen t)) [
        | inl old ↦ rw full (rw old (dedup_from-Distinct seen keys))
        | inr new ↦ rw full (
            rw new (
              dedup_from-contains (t ∷ seen) keys t ∙ own_key keys seen t,
              dedup_from-Distinct (t ∷ seen) keys,
            ))
      ]
    ]

-- deduplicateSSHKeys keeps exactly the trimmed keys that are not empty, each once.
pub deduplicate_ssh_keys-Distinct :
    (keys : List String)
    → Distinct (deduplicate_ssh_keys keys)
      × ((a : String)
          → contains (deduplicate_ssh_keys keys) a
            ≡ (contains (map trim_space keys) a && not (a == "")))
unfolding deduplicate_ssh_keys contains
deduplicate_ssh_keys-Distinct keys =
    (dedup_from-Distinct [] keys, λ a. dedup_from-contains [] keys a ∙ ground arith)

-- Where Generate succeeds, the machine gets a provisioning utility, it is the one that was asked for
-- if any was, and the user data is what the rest of Generate makes with it.
pub generate-matches :
    (B : Library) (config : OscConfig) (utility : ProvisioningUtility) (os : OperatingSystem)
    (provider : CloudProvider) (md : MachineDeployment) (kind user_data : String)
    → generate B config utility os provider md kind ≡ ok user_data
    → (p : ProvisioningUtility) × (get_provisioning_utility B.decoders os md ≡ ok p)
      × ((utility ≡ "") ⊎ (utility ≡ p))
      × (generate_with B config utility os provider md kind p ≡ ok user_data)
unfolding generate
generate-matches B config utility os provider md kind user_data h =
    let one = bind-eq-ok (wrap _ _ (get_provisioning_utility B.decoders os md)) _ h in
    let got = wrap-eq-ok _ _ (get_provisioning_utility B.decoders os md) one.1 in
    elim (Bool-cases (utility == "")) [
      | inl unset ↦ (one.0, got, inl ((eq_iff utility "").0 unset), (rw unset at one.2))
      | inr set ↦ elim (Bool-cases (one.0 == utility)) [
        | inl same ↦
            (one.0, got, inr (sym ((eq_iff one.0 utility).0 same)), (rw same at (rw set at one.2)))
        | inr other ↦ absurd (cc (rw other at (rw set at one.2)))
      ]
    ]
