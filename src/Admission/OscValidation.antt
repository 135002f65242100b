-- ===== src/Admission/OscValidation.antt =====
-- pkg/admission/operatingsystemconfig/validation/validation.go
use operating_system_manager.Prelude.{String, Bool, [], ◌∷◌, ◌≡◌, ◌↔◌, true, if◌then◌else◌}
use operating_system_manager.Prelude.Result.{Result, ok, err, errorf, wrapped}
use operating_system_manager.Crd.{Osc, OscSpec}
use operating_system_manager.Admission.Review.{
  Operation, create, update, delete, connect, Request, Response, allowed, denied, errored,
  bad_request,
}

-- The decoder, and apiequality.Semantic.DeepEqual on specs.
pub record OscCodec : Type 0 where
  pub decode : String → Result Osc
  pub deep_equal : OscSpec → OscSpec → Bool

-- DeepEqual tells two equal specs apart from others; here a nil list and an empty one are the same.
abbrev pub OscCompares : OscCodec → OscSpec → OscSpec → Type 0
OscCompares C a b = (C.deep_equal a b ≡ true) ↔ (a ≡ b)

module _ (C : OscCodec) where
  -- validateUpdate
  unfoldable pub validate_osc_update : Osc → Osc → Result (Unit {0})
  validate_osc_update osc old =
      if C.deep_equal old.spec osc.spec
      then ok tt
      else err (errorf "OperatingSystemConfig is immutable and updates are not allowed" [])

  -- The answer to a validated update.
  unfoldable pub osc_verdict : String → Result (Unit {0}) → Response
  osc_verdict uid (ok _) = allowed "operatingSystemConfig validation request %s allowed" uid
  osc_verdict uid (err e) = denied "operatingSystemConfig validation request %s denied: %v" uid e

  unfoldable pub osc_updated : String → Result Osc → Result Osc → Response
  osc_updated uid (err e) old =
      errored bad_request (wrapped "error occurred while decoding osc: %w" [] e)
  osc_updated uid (ok osc) (err e) =
      errored bad_request (wrapped "error occurred while decoding old osc: %w" [] e)
  osc_updated uid (ok osc) (ok old) = osc_verdict uid (validate_osc_update osc old)

  -- Handle, at an operation
  unfoldable pub handle_osc_at : Operation → Request → Response
  handle_osc_at update req = osc_updated req.uid (C.decode req.object) (C.decode req.old_object)
  handle_osc_at create req = osc_verdict req.uid (ok tt)
  handle_osc_at delete req = osc_verdict req.uid (ok tt)
  handle_osc_at connect req =
      errored bad_request (errorf "%s not supported on osc resources" ("CONNECT" ∷ []))

  -- Handle
  unfoldable pub handle_osc : Request → Response
  handle_osc req = handle_osc_at req.operation req
