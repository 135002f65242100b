-- ===== src/Admission/Tests.antt =====
-- The webhooks on an update of an OSC, an update of an OSP and a MachineDeployment without an OSP.
use operating_system_manager.Prelude.{
  String, true, none, [], ◌∷◌, ◌≡◌, ◌↔◌, refl, sym, ap, arith, ◌==◌, if◌then◌else◌,
}
use operating_system_manager.Prelude.Dict.{value, value_or_empty, lookup, insert}
use operating_system_manager.Prelude.Result.{Result, ok, err, errorf}
use operating_system_manager.Crd.{Osp, Osc}
use operating_system_manager.Machine.{MachineDeployment}
use operating_system_manager.ProviderConfig.{zero_flatcar}
use operating_system_manager.Osc.Tests.Objects.{osp_ubuntu, osc_current, workers}
use operating_system_manager.Admission.Review.{Request, update, is_allowed}
use operating_system_manager.Admission.OscValidation.{OscCodec, OscCompares, handle_osc}
use operating_system_manager.Admission.OspValidation.{OspCodec, OspCompares, handle_osp}
use operating_system_manager.Admission.Mutation.{
  Codec, has_default_osp, annotate, with_default_osp, mutate_machine_deployment,
}
use operating_system_manager.Admission.Laws.{
  handle_osc-update, OspUpdateAllowed, handle_osp-update, Annotated,
  mutate_machine_deployment-Annotated, mutate_machine_deployment-idempotent,
}

abbrev request : Request
request = record { uid = "1"; operation = update; object = "new"; old_object = "old" }

abbrev osc_new : Osc
osc_new = record osc_current { spec = record osc_current.spec { os_version = "24.04" } }

abbrev osc_old_or_new : String → Result Osc
osc_old_or_new raw = if raw == "new" then ok osc_new else ok osc_current

-- The specs differ in the version of the operating system.
abbrev osc_codec : OscCodec
osc_codec = record { decode = osc_old_or_new; deep_equal = λ a b. a.os_version == b.os_version }

oscs-differ : OscCompares osc_codec osc_current.spec osc_new.spec
oscs-differ = (λ h. ground arith, λ h. ap (λ s. osc_codec.deep_equal osc_current.spec s) (sym h))

handle_osc-update_example :
    (is_allowed (handle_osc osc_codec request) ≡ true) ↔ (osc_current.spec ≡ osc_new.spec)
handle_osc-update_example =
    handle_osc-update osc_codec request osc_new osc_current oscs-differ refl refl refl

abbrev osp_new : Osp
osp_new = record osp_ubuntu { spec = record osp_ubuntu.spec { version = "v1.8.0" } }

abbrev osp_old_or_new : String → Result Osp
osp_old_or_new raw = if raw == "new" then ok osp_new else ok osp_ubuntu

abbrev osp_codec : OspCodec
osp_codec = record { decode = osp_old_or_new; deep_equal = λ a b. a.version == b.version }

osps-differ : OspCompares osp_codec osp_ubuntu.spec osp_new.spec
osps-differ = (λ h. ground arith, λ h. ap (λ s. osp_codec.deep_equal osp_ubuntu.spec s) (sym h))

handle_osp-update_example :
    (is_allowed (handle_osp osp_codec request) ≡ true) ↔ OspUpdateAllowed osp_new osp_ubuntu
handle_osp-update_example =
    handle_osp-update osp_codec request osp_new osp_ubuntu osps-differ refl refl refl

abbrev unnamed : MachineDeployment
unnamed = record (workers "aws") { annotations = ("a", "b") ∷ [] }

abbrev codec : Codec
codec = record {
  decode = λ raw. ok unnamed;
  marshal = λ md. ok "marshaled";
  get_config = λ raw. ok (record {
    operating_system = "ubuntu";
    operating_system_spec = none;
    cloud_provider = "aws";
    cloud_provider_spec = none;
    ssh_public_keys = [];
    network = none;
    overwrite_cloud_config = none;
  });
  decoders = record {
    strict_provider = λ raw. err (errorf "unused" []);
    flatcar_json = record { marshal = λ c. ""; unmarshal = λ raw. ok zero_flatcar };
  };
}

abbrev named : MachineDeployment
named = record unnamed {
  annotations = ("a", "b") ∷ ("k8c.io/operating-system-profile", "osp-ubuntu") ∷ [];
}

mutated : mutate_machine_deployment codec unnamed ≡ ok named
unfolding mutate_machine_deployment with_default_osp has_default_osp annotate value value_or_empty
    lookup insert
mutated = refl

mutate_machine_deployment-Annotated_example : Annotated codec unnamed named
mutate_machine_deployment-Annotated_example =
    mutate_machine_deployment-Annotated codec unnamed named mutated

mutate_machine_deployment-idempotent_example : mutate_machine_deployment codec named ≡ ok named
mutate_machine_deployment-idempotent_example =
    mutate_machine_deployment-idempotent codec unnamed named mutated
