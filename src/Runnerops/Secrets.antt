-- ===== src/Runnerops/Secrets.antt =====
-- internal/runnerops/secretinput.go: redaction of secret input values, and the guard on ids.
pub mod Redaction
pub mod Guard
pub mod Inputs
pub mod Stream
pub mod Tests
use doplane.Common.{
  ℕ, ◌≤◌, Text, bytes, text_eq, Bool, true, false, Option, none, some, List, [], ◌∷◌, ◌++◌, ◌||◌,
  length, leb, if◌then◌else◌, replace_all,
}
use doplane.Runnerops.Path.{is_empty}
use doplane.Runnerops.Spec.{Result, Code, secret_input_in_id, failure}

-- `redactedMark`
abbrev pub redacted_mark : Text
redacted_mark = bytes "(redacted)"

-- `redactString`
unfoldable pub redact_string : Text → List Text → Text
redact_string s [] = s
redact_string s (v ∷ values) = redact_string (replace_all v redacted_mark s) values

-- `redactResult`
unfoldable pub redact_result : Result → List Text → Result
redact_result res [] = res
redact_result res (v ∷ values) = record res { message = redact_string res.message (v ∷ values) }

-- `minGuardedSecretLen`
abbrev pub min_guarded_secret_len : ℕ
min_guarded_secret_len = 6

-- The values that `guardSecretID` looks for.
unfoldable pub guarded : List Text → List Text
guarded [] = []
guarded (v ∷ values) =
    if leb min_guarded_secret_len (length v) then v ∷ guarded values else guarded values

abbrev pub no_values : List Text → Bool
no_values [] = true
no_values (v ∷ values) = false

abbrev pub id_embeds_secret : Result
id_embeds_secret = failure secret_input_in_id (
    bytes
      "the provider-assigned id embeds a secret input value and cannot be recorded; identity-forming properties (names, prefixes) must not come from valuesFrom. The external resource may have been created and can need manual cleanup")

-- `guardSecretID`
unfoldable pub guard_secret_id : Result → List Text → Result
guard_secret_id res values =
    if is_empty res.id
    then res
    else if no_values (guarded values) || text_eq (redact_string res.id (guarded values)) res.id
    then res
    else id_embeds_secret
