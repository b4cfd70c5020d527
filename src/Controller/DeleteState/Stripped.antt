-- ===== src/Controller/DeleteState/Stripped.antt =====
-- No value of a Secret is left in what deleteState hands on (internal/controller/delete_state.go).
use doplane.Common.{◌≡◌, some, List, [], ◌∷◌, All}
use mathlib.Core.Path.{subst}
use mathlib.Core.Option.{some-injective}
use doplane.Json.{Fields, end, field}
use doplane.Runnerops.Path.Access.{delete_path}
use doplane.Runnerops.Path.Access.Paths.{IsGoneAt, delete_path-IsGoneAt, delete_path_keeps_gone}
use doplane.Controller.Resource.{DoResource, Document, absent, object, malformed, ValueFrom}
use doplane.Controller.DeleteState.{strip_secrets, state_of, delete_state}

IsStripped : List ValueFrom → Fields → Type 0
IsStripped values state = All (λ (v : ValueFrom). IsGoneAt v.to_path state) values

strip_secrets_keeps_gone :
    (values : List ValueFrom) (v : ValueFrom) (state : Fields)
    → IsGoneAt v.to_path state
    → IsGoneAt v.to_path (strip_secrets values state)
unfolding strip_secrets
strip_secrets_keeps_gone [] v state h = h
strip_secrets_keeps_gone (u ∷ rest) v state h =
    strip_secrets_keeps_gone rest v (delete_path state u.to_path).0
      (delete_path_keeps_gone state u.to_path v.to_path h)

strip_secrets-IsStripped :
    (values : List ValueFrom) (state : Fields) → IsStripped values (strip_secrets values state)
unfolding strip_secrets IsStripped
strip_secrets-IsStripped [] state = tt
strip_secrets-IsStripped (v ∷ rest) state = (
  strip_secrets_keeps_gone rest v (delete_path state v.to_path).0
      (delete_path-IsGoneAt state v.to_path).0,
  strip_secrets-IsStripped rest (delete_path state v.to_path).0,
)

state_of-IsStripped :
    (values : List ValueFrom) (outputs : Document) (state : Fields)
    → state_of values outputs ≡ some state
    → IsStripped values state
unfolding state_of
state_of-IsStripped values absent state h = cc
state_of-IsStripped values malformed state h = cc
state_of-IsStripped values (object end) state h = cc
state_of-IsStripped values (object (field k v fs)) state h =
    subst (IsStripped values) (some-injective _ _ h)
      (strip_secrets-IsStripped values (field k v fs))

-- Whatever the recorded outputs are: in the state that deleteState gives, nothing but null can be
-- read at the path of any spec.valuesFrom entry, in whatever order and however they overlap.
pub delete_state-IsStripped :
    (res : DoResource) (state : Fields)
    → delete_state res ≡ some state
    → All (λ (v : ValueFrom). IsGoneAt v.to_path state) res.spec.values_from
unfolding delete_state IsStripped
delete_state-IsStripped res state h =
    state_of-IsStripped res.spec.values_from res.status.outputs state h
