-- ===== src/Handlers.antt =====
-- pkg/apihandler/apihandler.go: the handlers of operations; their answers, errors and validation.
pub mod Variables
pub mod Prepare
pub mod Samples
pub mod Query
pub mod Mutation
pub mod Subscription
pub mod Functions
pub mod FlushWriter
pub mod Stream
pub mod LiveQuery
pub mod Internal
pub mod Tests
use wundergraph.Prelude.{
  ℕ, Bool, true, false, Option, none, some, List, [], ◌∷◌, ◌++◌, Bytes, str, if◌then◌else◌,
  is_empty, map,
}
use wundergraph.Hooks.Client.{Written}
use wundergraph.Claims.{ClaimError, not_found, wrong_type, not_integral}

-- What a handler told its http.ResponseWriter. `http_error` is http.Error, and `hooks_wrote` what the
-- hooks wrote to it.
pub data Sent : Type 0 where
  set_header : Bytes → Bytes → Sent
  status : ℕ → Sent
  body : Bytes → Sent
  flush : Sent
  http_error : Bytes → ℕ → Sent
  hooks_wrote : Written → Sent

-- What errors.Is and errors.As find in an error, and its text: a ValidationError comes with its JSON,
-- or none if it cannot be encoded.
pub data Cause : Type 0 where
  canceled : Cause
  deadline_exceeded : Cause
  validation_error : Option Bytes → Cause
  other_error : Bytes → Cause

abbrev encoded : Option Bytes → List Sent
encoded none = []
encoded (some json) = body json ∷ []

-- handleOperationErr: what it tells the writer, or nothing and `false` where there is no error
unfoldable pub handle_operation_err : Option Cause → Bytes → Bool × List Sent
handle_operation_err none message = (false, [])
handle_operation_err (some canceled) message = (true, status 499 ∷ [])
handle_operation_err (some deadline_exceeded) message = (true, status 504 ∷ [])
handle_operation_err (some (validation_error json)) message = (true, status 400 ∷ encoded json)
handle_operation_err (some (other_error text)) message =
    (true, http_error (message ++ str ": " ++ text) 500 ∷ [])

-- Of the errors of injectClaims the first three are ValidationErrors; `text` and `json` are what
-- their Error and the encoder make of them.
abbrev pub claim_cause : (ClaimError → Bytes) → (ClaimError → Option Bytes) → ClaimError → Cause
claim_cause text json (not_found c) = validation_error (json (not_found c))
claim_cause text json (wrong_type c) = validation_error (json (wrong_type c))
claim_cause text json (not_integral c) = validation_error (json (not_integral c))
claim_cause text json e = other_error (text e)

-- What ValidateBytes of package jsonschema returns: errors of the schema, or that the variables are
-- no JSON, with the error's text after the unwrapping of a json.SyntaxError.
pub data Findings : Type 0 where
  key_errors : List Bytes → Findings
  no_json : Bytes → Findings

-- inputvariables.Validator
pub record Validator : Type 0 where
  pub schema : Bytes → Findings
  pub disable_verbose_errors : Bool

-- inputvariables.ValidationError
pub record ValidationError : Type 0 where
  pub message : Bytes
  pub input : Bytes
  pub errors : List Bytes

-- Validate's result: it is valid, or not and this was written, or the encoder failed
pub data Verdict : Type 0 where
  valid : Verdict
  invalid : Bytes → Verdict
  not_encoded : Verdict

abbrev pub invalid_input : Bytes
invalid_input = str "Bad Request: Invalid input"

abbrev written_errors : Option Bytes → Verdict
written_errors none = not_encoded
written_errors (some json) = invalid json

-- `encode` is Encode of package json on a ValidationError, with `jsonError`s for its errors.
module _ (encode : ValidationError → Option Bytes) where
  refuse : Validator → ValidationError → Verdict
  refuse v e = if v.disable_verbose_errors then invalid invalid_input else written_errors (encode e)

  -- Validator.Validate
  unfoldable pub validate : Validator → Bytes → Verdict
  unfolding refuse
  validate v variables = elim (v.schema variables) [
    | key_errors [] ↦ valid
    | key_errors (e ∷ es) ↦
        refuse v (record { message = invalid_input; input = variables; errors = e ∷ es })
    | no_json text ↦ refuse v (record { message = invalid_input; input = []; errors = text ∷ [] })
  ]

  -- validateInputVariables: nothing where the variables are valid, else what the client is told
  unfoldable pub validate_input_variables : Validator → Bytes → Option (List Sent)
  unfolding validate
  validate_input_variables v variables = elim (validate v variables) [
    | valid ↦ none
    | invalid text ↦ some (status 400 ∷ body text ∷ [])
    | not_encoded ↦ some (status 500 ∷ [])
  ]
