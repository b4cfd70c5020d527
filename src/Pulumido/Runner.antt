-- ===== src/Pulumido/Runner.antt =====
-- internal/pulumido/runner.go: the errors of runner operations, as the reconcilers tell them apart.
use doplane.Common.{Text, Bool, true, false, Option, none, some}
use doplane.Runnerops.Spec.{
  Result, Code, not_found, read_not_supported, replacement_required, already_exists,
  secret_input_in_id,
}

-- `CodedError`, alone or wrapped with its sentinel; the sentinel of classifyInfraFailure, which has
-- no code; any other error. An empty code is `none`.
pub data RunError : Type 0 where
  coded : Option Code → Text → RunError
  infra_read_not_supported : RunError
  other : Text → RunError

-- `errors.As(err, &coded)`, the code.
abbrev pub code_of : RunError → Option Code
code_of (coded c message) = c
code_of infra_read_not_supported = none
code_of (other message) = none

abbrev pub is_code_not_found : Option Code → Bool
is_code_not_found (some not_found) = true
is_code_not_found c = false

abbrev pub is_code_read_not_supported : Option Code → Bool
is_code_read_not_supported (some read_not_supported) = true
is_code_read_not_supported c = false

abbrev pub is_code_replacement_required : Option Code → Bool
is_code_replacement_required (some replacement_required) = true
is_code_replacement_required c = false

abbrev pub is_code_already_exists : Option Code → Bool
is_code_already_exists (some already_exists) = true
is_code_already_exists c = false

abbrev pub is_code_secret_input_in_id : Option Code → Bool
is_code_secret_input_in_id (some secret_input_in_id) = true
is_code_secret_input_in_id c = false

-- `errors.Is(err, ErrNotFound)`
abbrev pub is_not_found : RunError → Bool
is_not_found e = is_code_not_found (code_of e)

-- `errors.Is(err, ErrReadNotSupported)`
abbrev pub is_read_not_supported : RunError → Bool
is_read_not_supported infra_read_not_supported = true
is_read_not_supported e = is_code_read_not_supported (code_of e)

-- `IsReplacementRequired`, `IsAlreadyExists`, `IsSecretInputInID`
abbrev pub is_replacement_required : RunError → Bool
is_replacement_required e = is_code_replacement_required (code_of e)

abbrev pub is_already_exists : RunError → Bool
is_already_exists e = is_code_already_exists (code_of e)

abbrev pub is_secret_input_in_id : RunError → Bool
is_secret_input_in_id e = is_code_secret_input_in_id (code_of e)

-- `resultErr`
unfoldable pub result_err : Result → Option RunError
result_err res = if_ok res.is_ok res
  where
    if_ok : Bool → Result → Option RunError
    if_ok true r = none
    if_ok false r = some (coded r.code r.message)
