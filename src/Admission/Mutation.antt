-- ===== src/Admission/Mutation.antt =====
-- pkg/admission/machinedeployment/mutation/mutation.go
use operating_system_manager.Prelude.{
  String, ◌<>◌, Bool, false, Option, [], ◌∷◌, ◌==◌, ◌&&◌, ◌||◌, if◌then◌else◌,
}
use operating_system_manager.Prelude.Dict.{insert, value}
use operating_system_manager.Prelude.Result.{Result, ok, err, errorf, wrapped, wrap, ◌>>=◌}
use operating_system_manager.Crd.{
  ProvisioningUtility, cloud_init, flatcar, ubuntu, amzn2, rockylinux, rhel,
}
use operating_system_manager.Machine.{MachineDeployment, ProviderConfig}
use operating_system_manager.Generator.Provisioner.{Decoders, get_provisioning_utility}
use operating_system_manager.Osc.Names.{osp_annotation}
use operating_system_manager.Admission.Review.{
  Operation, create, update, delete, connect, Request, Response, allowed, errored, patched,
  bad_request, internal_server_error,
}

-- The decoder, json.Marshal, and GetConfig of the SDK.
pub record Codec : Type 0 where
  pub decode : String → Result MachineDeployment
  pub marshal : MachineDeployment → Result String
  pub get_config : Option String → Result ProviderConfig
  pub decoders : Decoders

unfoldable pub is_cloud_init : Result ProvisioningUtility → Bool
is_cloud_init (ok utility) = utility == cloud_init
is_cloud_init (err e) = false

-- The operating systems of the switch.
unfoldable pub has_default_osp : String → Bool
has_default_osp os = os == ubuntu || os == flatcar || os == amzn2 || os == rockylinux || os == rhel

unfoldable pub annotate : String → MachineDeployment → MachineDeployment
annotate osp md = record md { annotations = insert osp_annotation osp md.annotations }

module _ (C : Codec) where
  -- The MachineDeployment with the default OSP of its operating system.
  unfoldable pub with_default_osp : MachineDeployment → ProviderConfig → Result MachineDeployment
  with_default_osp md config =
      if config.cloud_provider == "anexia"
        && (config.operating_system == flatcar
            && is_cloud_init (get_provisioning_utility C.decoders config.operating_system md))
      then ok (annotate "osp-flatcar-cloud-init" md)
      else if has_default_osp config.operating_system
      then ok (annotate ("osp-" <> config.operating_system) md)
      else err (
          errorf
            "failed to populate OSP annotation for machinedeployment with unsupported Operating System %s"
            (config.operating_system ∷ []))

  -- MutateMachineDeployment
  unfoldable pub mutate_machine_deployment : MachineDeployment → Result MachineDeployment
  mutate_machine_deployment md =
      wrap "failed to read MachineDeployment.Spec.Template.Spec.ProviderSpec: %w" []
        (C.get_config md.provider_spec)
      >>= λ config.
          if value osp_annotation md.annotations == "" then with_default_osp md config else ok md

  -- The end of Handle.
  unfoldable pub respond : Request → Result String → Response
  respond req (ok marshaled) = patched req.object marshaled
  respond req (err e) =
      errored internal_server_error
        (wrapped "error occurred while marshalling mutated machinedeployment: %w" [] e)

  unfoldable pub md_mutated : Request → Result MachineDeployment → Response
  md_mutated req (ok md) = respond req (C.marshal md)
  md_mutated req (err e) =
      errored internal_server_error
        (wrapped "error occurred while mutating machinedeployment: %w" [] e)

  unfoldable pub md_decoded : Request → Result MachineDeployment → Response
  md_decoded req (ok md) = md_mutated req (mutate_machine_deployment md)
  md_decoded req (err e) =
      errored bad_request (wrapped "error occurred while decoding reqquest: %w" [] e)

  -- Handle, at an operation
  unfoldable pub handle_md_at : Operation → Request → Response
  handle_md_at create req = md_decoded req (C.decode req.object)
  handle_md_at update req = md_decoded req (C.decode req.object)
  handle_md_at delete req =
      allowed
        "machinedeployment mutation request %s allowed; mutation is not required for delete request"
        req.uid
  handle_md_at connect req =
      errored bad_request
        (errorf "%s not supported on machinedeployment resources" ("CONNECT" ∷ []))

  -- Handle
  unfoldable pub handle_md : Request → Response
  handle_md req = handle_md_at req.operation req
