-- ===== src/Runnerops/Failures.antt =====
-- internal/runnerops/shared.go, execute.go and deletefallback.go: what the text of a failed command
-- says about the failure.
pub mod Lines
use doplane.Common.{
  ℕ, zero, suc, Text, bytes, Bool, true, false, List, [], ◌∷◌, ◌++◌, ◌||◌, if◌then◌else◌, leb,
  length, lower, has_prefix, contains, split_lines, join, trim_space,
}
use doplane.Runnerops.Path.{is_empty}
use doplane.Runnerops.Spec.{
  Code, operation_failed, not_found, read_not_supported, replacement_required, already_exists,
}

-- `s[:n]`, for `n` at most the length
unfoldable pub take : ℕ → Text → Text
take zero s = []
take (suc n) [] = []
take (suc n) (c ∷ s) = c ∷ take n s

-- "…(truncated)" in UTF-8
abbrev pub truncated_mark : Text
truncated_mark = 226 ∷ 128 ∷ 166 ∷ bytes "(truncated)"

-- `Truncate`
unfoldable pub truncate : Text → ℕ → Text
truncate s n = if leb (length s) n then s else take n s ++ truncated_mark

unfoldable pub is_error_line : Text → Bool
is_error_line line =
    has_prefix (bytes "error:") line
    || has_prefix (bytes "error ") line
    || has_prefix (bytes "[error]") line

-- The lines of an output that are errors, trimmed and in lower case.
unfoldable pub error_lines : List Text → List Text
error_lines [] = []
error_lines (line ∷ lines) =
    let trimmed = trim_space (lower line) in
    if is_error_line trimmed then trimmed ∷ error_lines lines else error_lines lines

abbrev pub with_extra : List Text → Text → List Text
with_extra lines extra = if is_empty extra then lines else lines ++ lower extra ∷ []

-- `ProviderErrorText`
unfoldable pub provider_error_text : Text → Text → Text
provider_error_text output extra =
    join (10 ∷ []) (with_extra (error_lines (split_lines output)) extra)

-- One of the phrases occurs in the text.
unfoldable pub mentions : List Text → Text → Bool
mentions [] text = false
mentions (p ∷ phrases) text = contains p text || mentions phrases text

abbrev pub import_phrases : List Text
import_phrases = bytes "not support import" ∷ bytes "import not implemented" ∷ []

abbrev pub missing_phrases : List Text
missing_phrases =
    bytes "not found"
    ∷ bytes "notfound"
    ∷ bytes "nosuchbucket"
    ∷ bytes "does not exist"
    ∷ bytes "status code: 404"
    ∷ bytes "statuscode: 404"
    ∷ []

abbrev pub replacement_phrases : List Text
replacement_phrases =
    bytes "immutable"
    ∷ bytes "force new"
    ∷ bytes "forcenew"
    ∷ bytes "cannot be updated"
    ∷ bytes "cannot update"
    ∷ bytes "requires replacement"
    ∷ bytes "must be replaced"
    ∷ bytes "cannot be changed"
    ∷ []

abbrev pub existing_phrases : List Text
existing_phrases =
    bytes "already exists"
    ∷ bytes "alreadyexists"
    ∷ bytes "status code: 409"
    ∷ bytes "statuscode: 409"
    ∷ bytes "entity already exists"
    ∷ bytes "duplicate"
    ∷ []

-- The cases of `classifyDoFailure`, on the text of the error lines.
unfoldable pub code_of_text : Text → Code
code_of_text text =
    if mentions import_phrases text
    then read_not_supported
    else if mentions missing_phrases text
    then not_found
    else if mentions replacement_phrases text
    then replacement_required
    else if mentions existing_phrases text
    then already_exists
    else operation_failed

-- The code that `classifyDoFailure` gives the failure `run_err` with the output `stdout`.
unfoldable pub code_of_failure : Text → Text → Code
code_of_failure run_err stdout = code_of_text (provider_error_text (run_err ++ 10 ∷ stdout) [])
