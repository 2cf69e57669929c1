-- ===== src/Http/Message.antt =====
-- Requests and responses (common/http/include/HttpTypes.hpp), by the parts that the code reads and
-- sets, and JsonResponse and ErrorResponse of common/http/src/HttpHelpers.cpp.
pub mod Printing
use ecommerce_platform.Prelude.{ℕ, Bool, [], ◌∷◌, Text, text}
use ecommerce_platform.Http.Error.{Status, HttpError, Outcome, returns, ◌>>=◌}
use ecommerce_platform.Http.Json.{JsonLibrary, dump}
use ecommerce_platform.Http.Verb.{Verb}

pub record Request : Type 0 where
  pub method : Verb
  pub target : Text
  pub version : ℕ
  pub keep_alive : Bool
  pub body : Text

pub record Response : Type 0 where
  pub status : Status
  pub version : ℕ
  pub content_type : Text
  pub keep_alive : Bool
  pub body : Text

-- The response with a body that is printed already.
abbrev pub with_body : Request → Status → Text → Response
with_body req status body = record {
  status = status;
  version = req.version;
  content_type = text "application/json";
  keep_alive = req.keep_alive;
  body = body;
}

module _ (lib : JsonLibrary) where
  open lib use {Json, object, string}

  -- It throws what dump throws.
  unfoldable pub json_response : Request → Status → Json → Outcome Response
  unfolding dump
  json_response req status body = do printed ← dump lib body; returns (with_body req status printed)

  unfoldable pub error_body : HttpError → Json
  error_body error = object (
      (
        text "error",
        object ((text "code", string error.code) ∷ (text "message", string error.message) ∷ []),
      )
      ∷ [])

  unfoldable pub error_response : Request → HttpError → Outcome Response
  unfolding json_response error_body
  error_response req error = json_response req error.status (error_body error)
