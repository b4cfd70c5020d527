-- ===== src/Runnerops/Output.antt =====
-- internal/runnerops/shared.go and execute.go: what a command's output says of the resource.
pub mod Last
use doplane.Common.{
  ℕ, zero, suc, ◌-◌, Text, bytes, Bool, true, false, Option, none, some, [], ◌∷◌, ◌++◌, ◌&&◌, ◌==◌,
  if◌then◌else◌,
}
use doplane.Json.{Json, string, Fields, lookup}
use doplane.Runnerops.Path.{is_empty}
use doplane.Runnerops.Spec.{
  Verb, create, patch, read, delete, schema, engine_up, engine_destroy, unknown, Op, Result,
  failure, output_parse,
}
use doplane.Runnerops.Failures.{truncate}

-- A result without outputs of an operation that succeeded.
abbrev pub succeeded : Text → Option Fields → Result
succeeded id state = record {
  is_ok = true;
  code = none;
  message = [];
  id = id;
  outputs = none;
  state = state;
  engine_state = [];
  schema = [];
}

-- `op.Verb` as it is written in commands.
abbrev pub verb_text : Verb → Text
verb_text create = bytes "create"
verb_text patch = bytes "patch"
verb_text read = bytes "read"
verb_text delete = bytes "delete"
verb_text schema = bytes "schema"
verb_text engine_up = bytes "engine-up"
verb_text engine_destroy = bytes "engine-destroy"
verb_text (unknown s) = s

abbrev pub is_read : Verb → Bool
is_read read = true
is_read verb = false

abbrev pub is_delete : Verb → Bool
is_delete delete = true
is_delete verb = false

abbrev pub is_create : Verb → Bool
is_create create = true
is_create verb = false

-- The round of `LastJSONObject` at one byte: what is decoded there, if anything may be.
abbrev pub decoded_at : (Text → Option (Fields × ℕ)) → Bool → ℕ → ℕ → Text → Option (Fields × ℕ)
decoded_at decode at_start (suc skip) c s = none
decoded_at decode at_start zero c s = if c == b'{' && at_start then decode (c ∷ s) else none

abbrev pub last_of : Option Fields → Option (Fields × ℕ) → Option Fields
last_of last none = last
last_of last (some (fs, n)) = some fs

abbrev pub skip_of : ℕ → Option (Fields × ℕ) → ℕ
skip_of skip none = skip - 1
skip_of skip (some (fs, n)) = n - 1

module _ (decode : Text → Option (Fields × ℕ)) where
  -- The loop, from a byte at the start of a line or not, with `skip` bytes of the last object left.
  unfoldable pub last_object_from : Bool → ℕ → Option Fields → Text → Option Fields
  last_object_from at_start skip last [] = last
  last_object_from at_start skip last (c ∷ s) =
      let found = decoded_at decode at_start skip c s in
      last_object_from (c == 10) (skip_of skip found) (last_of last found) s

  -- `LastJSONObject`
  unfoldable pub last_json_object : Text → Option Fields
  last_json_object out = last_object_from true 0 none out

-- `id, _ := state["id"].(string)`
abbrev pub string_of : Option Json → Text
string_of (some (string s)) = s
string_of other = []

abbrev pub no_id : Text → Result
no_id stdout =
    failure output_parse
      (bytes "create output contains no id (output: " ++ truncate stdout 1500 ++ bytes ")")

-- The end of `executeDo`, with the id that the state shows.
unfoldable pub recorded : Op → Text → Fields → Text → Result
recorded op stdout state id =
    if is_empty id && is_create op.verb
    then no_id stdout
    else if is_empty id
    then succeeded op.id (some state)
    else succeeded id (some state)

abbrev pub unparsed : Verb → Text → Result
unparsed verb stdout = failure output_parse (
    bytes "parsing "
    ++ verb_text verb
    ++ bytes " output: no JSON object found in output (output: "
    ++ truncate stdout 1500
    ++ bytes ")")

abbrev pub from_state : Op → Text → Option Fields → Result
from_state op stdout none = unparsed op.verb stdout
from_state op stdout (some state) = recorded op stdout state (string_of (lookup (bytes "id") state))
