-- ===== src/Admission/OspValidation.antt =====
-- pkg/admission/operatingsystemprofile/validation/validation.go
use operating_system_manager.Prelude.{
  String, Bool, [], ◌∷◌, ◌≡◌, ◌↔◌, ◌==◌, ◌||◌, true, if◌then◌else◌, length, ltb,
}
use operating_system_manager.Prelude.Result.{Result, ok, err, errorf, wrapped, ◌>>=◌}
use operating_system_manager.Crd.{Osp, OspSpec, flatcar}
use operating_system_manager.Admission.Review.{
  Operation, create, update, delete, connect, Request, Response, allowed, denied, errored,
  bad_request,
}

-- The decoder, and apiequality.Semantic.DeepEqual on specs.
pub record OspCodec : Type 0 where
  pub decode : String → Result Osp
  pub deep_equal : OspSpec → OspSpec → Bool

abbrev pub OspCompares : OspCodec → OspSpec → OspSpec → Type 0
OspCompares C a b = (C.deep_equal a b ≡ true) ↔ (a ≡ b)

-- validateOperatingSystemProfile
unfoldable pub validate_osp : Osp → Result (Unit {0})
validate_osp osp =
    if osp.spec.os_name == flatcar
    then ok tt
    else if ltb 0 (length osp.spec.bootstrap_config.units)
        || ltb 0 (length osp.spec.provisioning_config.units)
    then err (errorf "OperatingSystemProfile for %s does not support units" (osp.spec.os_name ∷ []))
    else ok tt

module _ (C : OspCodec) where
  -- validateUpdate
  unfoldable pub validate_osp_update : Osp → Osp → Result (Unit {0})
  validate_osp_update osp old = validate_osp osp >>= λ _.
      if C.deep_equal old.spec osp.spec
      then ok tt
      else if osp.spec.version == old.spec.version
      then err (
          errorf
            "OperatingSystemProfile is immutable. For updates .spec.version needs to be updated" [])
      else ok tt

  -- The answer to a validated request.
  unfoldable pub osp_verdict : String → Result (Unit {0}) → Response
  osp_verdict uid (ok _) = allowed "operatingSystemProfile validation request %s allowed" uid
  osp_verdict uid (err e) = denied "operatingSystemProfile validation request %s denied: %v" uid e

  unfoldable pub osp_updated : String → Result Osp → Result Osp → Response
  osp_updated uid (err e) old =
      errored bad_request (wrapped "error occurred while decoding osp: %w" [] e)
  osp_updated uid (ok osp) (err e) =
      errored bad_request (wrapped "error occurred while decoding old osp: %w" [] e)
  osp_updated uid (ok osp) (ok old) = osp_verdict uid (validate_osp_update osp old)

  unfoldable pub osp_created : String → Result Osp → Response
  osp_created uid (err e) =
      errored bad_request (wrapped "error occurred while decoding osp: %w" [] e)
  osp_created uid (ok osp) = osp_verdict uid (validate_osp osp)

  -- Handle, at an operation
  unfoldable pub handle_osp_at : Operation → Request → Response
  handle_osp_at update req = osp_updated req.uid (C.decode req.object) (C.decode req.old_object)
  handle_osp_at create req = osp_created req.uid (C.decode req.object)
  handle_osp_at delete req = osp_verdict req.uid (ok tt)
  handle_osp_at connect req =
      errored bad_request (errorf "%s not supported on osp resources" ("CONNECT" ∷ []))

  -- Handle
  unfoldable pub handle_osp : Request → Response
  handle_osp req = handle_osp_at req.operation req
