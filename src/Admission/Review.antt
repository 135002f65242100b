-- ===== src/Admission/Review.antt =====
-- admission.Request and admission.Response, as the three webhooks use them.
use operating_system_manager.Prelude.{String, Bool, true, false}
use operating_system_manager.Prelude.Result.{Error}

pub data Operation : Type 0 where
  create update delete connect : Operation

pub record Request : Type 0 where
  pub uid : String
  pub operation : Operation
  -- Object.Raw and OldObject.Raw
  pub object : String
  pub old_object : String

-- http.StatusBadRequest and http.StatusInternalServerError
pub data Status : Type 0 where
  bad_request internal_server_error : Status

pub data Response : Type 0 where
  -- Allowed, with the format of its message
  allowed : String → String → Response
  -- Denied, with the format of its message and the error that it prints
  denied : String → String → Error → Response
  errored : Status → Error → Response
  -- PatchResponseFromRaw: the patch from the first text to the second
  patched : String → String → Response

unfoldable pub is_allowed : Response → Bool
is_allowed (allowed format uid) = true
is_allowed (denied format uid e) = false
is_allowed (errored status e) = false
is_allowed (patched before after) = true
