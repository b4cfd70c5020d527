-- ===== src/Pulumido/Methods.antt =====
-- internal/pulumido: the methods of the Runner interface, which job.go and exec.go write alike over
-- their executeOp and execute; and deleteState and engineStateJSON of runner.go.
pub mod Exec
pub mod Jobs
pub mod Checkpoint
mod Tests
use doplane.Common.{
  ℕ, ◌*◌, Text, bytes, Bool, true, false, Option, none, some, List, [], ◌++◌, ◌||◌, ltb, length,
  decimal, if◌then◌else◌,
}
use doplane.Json.{Fields, end}
use doplane.Runnerops.Path.{is_empty}
use doplane.Runnerops.Spec.{
  Verb, create, patch, read, delete, schema, engine_up, engine_destroy, Op, Result,
}
use doplane.Runnerops.Machine.{Try, ok, err}
use doplane.Runnerops.Engine.{max_engine_state_bytes}

-- `MaxDeleteStateBytes`
abbrev pub max_delete_state_bytes : ℕ
max_delete_state_bytes = 64 * 1024

abbrev pub if_small : Option Fields → Try Text → Option Fields
if_small state (err e) = none
if_small state (ok raw) = if ltb max_delete_state_bytes (length raw) then none else state

-- `deleteState`, with `json.Marshal`
unfoldable pub delete_state_of : (Fields → Try Text) → Option Fields → Option Fields
delete_state_of marshal none = none
delete_state_of marshal (some end) = none
delete_state_of marshal (some fs) = if_small (some fs) (marshal fs)

-- `engineStateJSON`
unfoldable pub engine_state_json : Text → Try Text
engine_state_json state =
    if is_empty state
    then ok []
    else if ltb max_engine_state_bytes (length state)
    then err (
        bytes "engine state is "
        ++ decimal (length state)
        ++ bytes " bytes, exceeding the "
        ++ decimal max_engine_state_bytes
        ++ bytes " byte limit")
    else ok state

-- A value, or an error.
pub data Returned (E A : Type 0) : Type 0 where
  value : A → Returned E A
  error : E → Returned E A

-- An operation with a verb, a token and a package.
abbrev pub op_of : Verb → Text → Text → Op
op_of verb token pkg = record {
  verb = verb;
  token = token;
  package_ref = pkg;
  id = [];
  properties = none;
  engine_state = [];
  state = none;
  secret_inputs = [];
}

module _ {E A B S : Type 0} (f : A → B) where
  abbrev pub returning : Returned E A × S → Returned E B × S
  returning (value a, s) = (value (f a), s)
  returning (error e, s) = (error e, s)

module _ {E S : Type 0} (execute : Op → S → Returned E Result × S) (marshal : Fields → Try Text)
    (error_of : Text → E) where
  -- `Create`
  unfoldable pub create_resource :
      Text → Text → Option Fields → S → Returned E (Text × Option Fields) × S
  create_resource token pkg props s =
      returning (λ (res : Result). (res.id, res.state))
        (execute (record (op_of create token pkg) { properties = props }) s)

  -- `Patch`
  unfoldable pub patch_resource :
      Text → Text → Text → Option Fields → S → Returned E (Option Fields) × S
  patch_resource token pkg id props s =
      returning (λ (res : Result). res.state)
        (execute (record (op_of patch token pkg) { id = id; properties = props }) s)

  -- `Read`
  unfoldable pub read_resource : Text → Text → Text → S → Returned E (Option Fields) × S
  read_resource token pkg id s =
      returning (λ (res : Result). res.state)
        (execute (record (op_of read token pkg) { id = id }) s)

  -- `Delete`
  unfoldable pub delete_resource :
      Text → Text → Text → Option Fields → S → Returned E (Unit {0}) × S
  delete_resource token pkg id state s =
      returning (λ (res : Result). tt)
        (execute
          (record (op_of delete token pkg) { id = id; state = delete_state_of marshal state }) s)

  module _ {Schema : Type 0} (decode_schema : Text → Try Schema) where
    abbrev pub decoded_schema : Returned E Result × S → Returned E Schema × S
    decoded_schema (error e, s) = (error e, s)
    decoded_schema (value res, s) = (of_try (decode_schema res.schema), s)
      where
        of_try : Try Schema → Returned E Schema
        of_try (ok decoded) = value decoded
        of_try (err e) = error (error_of e)

    -- `FetchSchema`
    unfoldable pub fetch_schema : Text → Text → S → Returned E Schema × S
    fetch_schema pkg token s = decoded_schema (execute (op_of schema token pkg) s)

  -- `CreateComponent`
  unfoldable pub create_component :
      Text → Text → Option Fields → S → Returned E (Text × Option Fields × Text) × S
  create_component token pkg props s =
      returning (λ (res : Result). (res.id, res.outputs, res.engine_state))
        (execute (record (op_of engine_up token pkg) { properties = props }) s)

  abbrev pub with_state :
      {B : Type 0} → (Text → S → Returned E B × S) → Try Text → S → Returned E B × S
  with_state next (err e) s = (error (error_of e), s)
  with_state next (ok state) s = next state s

  -- `UpdateComponent`
  unfoldable pub update_component :
      Text → Text → Option Fields → Text → S → Returned E (Option Fields × Text) × S
  update_component token pkg props engine_state =
      with_state
        (λ state s.
          returning (λ (res : Result). (res.outputs, res.engine_state))
            (execute
              (record (op_of engine_up token pkg) { properties = props; engine_state = state }) s))
        (engine_state_json engine_state)

  -- `DeleteComponent`
  unfoldable pub delete_component : Text → Text → Text → S → Returned E (Unit {0}) × S
  delete_component token pkg engine_state =
      with_state
        (λ state s.
          returning (λ (res : Result). tt)
            (execute (record (op_of engine_destroy token pkg) { engine_state = state }) s))
        (engine_state_json engine_state)
