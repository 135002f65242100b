-- ===== src/Osc/Names/Laws.antt =====
-- Which MachineDeployments have different OSC names, and which share one.
use text.Mathlib.TextLemmas.{append_assoc, append_cancel_right}
use operating_system_manager.Prelude.{String, ◌<>◌, ◌<◌, len, ◌≡◌, sym, ◌∙◌, ap, arith}
use operating_system_manager.Machine.{MachineDeployment}
use operating_system_manager.Osc.Names.{osc_name, machine_deployment_key}

-- Two MachineDeployments of one namespace have the same OSC name only if they have the same name.
pub osc_name-injective :
    (a b : MachineDeployment)
    → a.namespace ≡ b.namespace
    → osc_name a ≡ osc_name b
    → a.name ≡ b.name
unfolding osc_name
osc_name-injective a b same h =
    append_cancel_right a.name b.name ("-" <> (b.namespace <> "-config"))
      (ap (λ n. a.name <> ("-" <> (n <> "-config"))) (sym same) ∙ h)

-- Across namespaces names run together: what stands left of a dash may belong to either part.
pub osc_name-collides :
    (md : MachineDeployment) (a b c : String)
    → osc_name (record md { name = a; namespace = b <> ("-" <> c) })
      ≡ osc_name (record md { name = a <> ("-" <> b); namespace = c })
unfolding osc_name
osc_name-collides md a b c = simp append_assoc

-- The bootstrap key is shorter than 63 bytes if the name of the MachineDeployment is.
pub machine_deployment_key-lt :
    (md : MachineDeployment) → len md.name < 63 → len (machine_deployment_key md) < 63
unfolding machine_deployment_key
machine_deployment_key-lt md h = ground arith
