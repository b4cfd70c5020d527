-- ===== src/Runnerops/Spec.antt =====
-- internal/runnerops/spec.go: the document that describes an operation and the envelope that
-- carries its outcome. A nil map, and an empty document, is `none`.
use doplane.Common.{Text, Bool, true, false, Option, none, some, List}
use doplane.Json.{Fields}

-- The verbs that Execute accepts, and any other text.
pub data Verb : Type 0 where
  create patch read delete schema engine_up engine_destroy : Verb
  unknown : Text → Verb

-- Failure codes.
pub data Code : Type 0 where
  invalid_spec not_found read_not_supported registry_auth_missing registry_resolve : Code
  schema_fetch operation_failed engine_failed output_parse plugin_install : Code
  plugin_cache_not_writable secret_input_missing replacement_required already_exists : Code
  secret_input_in_id : Code

-- `VerbTakesSecretInputs`
unfoldable pub takes_secret_inputs : Verb → Bool
takes_secret_inputs create = true
takes_secret_inputs patch = true
takes_secret_inputs engine_up = true
takes_secret_inputs engine_destroy = true
takes_secret_inputs verb = false

-- `SecretInputs` is a Go map, here its entries.
pub record Op : Type 0 where
  pub verb : Verb
  pub token : Text
  pub package_ref : Text
  pub id : Text
  pub properties : Option Fields
  pub engine_state : Text
  pub state : Option Fields
  pub secret_inputs : List (Text × Text)

pub record Result : Type 0 where
  pub is_ok : Bool
  pub code : Option Code
  pub message : Text
  pub id : Text
  pub outputs : Option Fields
  pub state : Option Fields
  pub engine_state : Text
  pub schema : Text

-- `failure`, from the message that its format gives.
abbrev pub failure : Code → Text → Result
failure code message = record {
  is_ok = false;
  code = some code;
  message = message;
  id = List.[];
  outputs = none;
  state = none;
  engine_state = List.[];
  schema = List.[];
}
