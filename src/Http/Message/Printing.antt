-- ===== src/Http/Message/Printing.antt =====
-- Which responses are printed without an exception.
use ecommerce_platform.Prelude.{◌≡◌, refl, ◌∙◌, true, List, [], ◌∷◌, All, arith, Text}
use ecommerce_platform.Http.Error.{HttpError, returns}
use ecommerce_platform.Http.Json.{JsonLibrary, IsAscii, all_fields}
use ecommerce_platform.Http.Message.{
  Request, Response, Status, with_body, json_response, error_body, error_response,
}

module _ (lib : JsonLibrary) where
  open lib use {Json, object, string, print, is_utf8, printable}

  -- The response with a JSON value as its body.
  abbrev pub reply : Request → Status → Json → Response
  reply req status body = with_body req status (print body)

  abbrev pub error_reply : Request → HttpError → Response
  error_reply req error = reply req error.status (error_body lib error)

  all_fields-All :
      (fields : List (Text × Json))
      → All (λ (f : Text × Json). IsAscii (f.0) × (printable (f.1) ≡ true)) fields
      → all_fields is_utf8 printable fields ≡ true
  all_fields-All [] h = refl
  all_fields-All ((k, v) ∷ fields) ((a, p), h) =
      rw (lib.is_utf8-ascii k a, p) (all_fields-All fields h)

  -- An object is printed if its keys are ASCII and its values are printed.
  pub object-printable :
      (fields : List (Text × Json))
      → All (λ (f : Text × Json). IsAscii (f.0) × (printable (f.1) ≡ true)) fields
      → printable (object fields) ≡ true
  object-printable fields h = lib.printable-object fields (all_fields-All fields h)

  pub json_response-reply :
      (req : Request) (status : Status) (body : Json)
      → printable body ≡ true
      → json_response lib req status body ≡ returns (reply req status body)
  unfolding json_response
  json_response-reply req status body h = rw h

  -- The texts of the error are UTF-8.
  pub record IsPrintable (error : HttpError) : Type 0 where
    pub code_utf8 : is_utf8 error.code ≡ true
    pub message_utf8 : is_utf8 error.message ≡ true

  pub error_body-printable :
      (error : HttpError) → IsPrintable error → printable (error_body lib error) ≡ true
  unfolding error_body
  error_body-printable error p = object-printable _ (
    (
      omega arith,
      object-printable _ (
        (omega arith, lib.printable-string error.code ∙ p.code_utf8),
        ((omega arith, lib.printable-string error.message ∙ p.message_utf8), tt),
      ),
    ),
    tt,
  )

  pub error_response-error_reply :
      (req : Request) (error : HttpError)
      → IsPrintable error
      → error_response lib req error ≡ returns (error_reply req error)
  unfolding error_response
  error_response-error_reply req error p =
      json_response-reply req error.status (error_body lib error) (error_body-printable error p)
