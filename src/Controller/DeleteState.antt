-- ===== src/Controller/DeleteState.antt =====
-- internal/controller/delete_state.go: the state that a Delete gets, without its secret inputs.
pub mod Stripped
use doplane.Common.{Option, none, some, List, [], ◌∷◌}
use doplane.Json.{Fields, end, field}
use doplane.Runnerops.Path.Access.{delete_path}
use doplane.Controller.Resource.{DoResource, Document, absent, object, malformed, ValueFrom}

-- The loop over `res.Spec.ValuesFrom`; a path that does not parse changes nothing.
unfoldable pub strip_secrets : List ValueFrom → Fields → Fields
strip_secrets [] state = state
strip_secrets (v ∷ rest) state = strip_secrets rest (delete_path state v.to_path).0

unfoldable pub state_of : List ValueFrom → Document → Option Fields
state_of values absent = none
state_of values malformed = none
state_of values (object end) = none
state_of values (object (field k v fs)) = some (strip_secrets values (field k v fs))

-- `deleteState`
unfoldable pub delete_state : DoResource → Option Fields
delete_state res = state_of res.spec.values_from res.status.outputs
