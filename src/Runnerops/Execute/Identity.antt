-- ===== src/Runnerops/Execute/Identity.antt =====
-- Which id a successful operation records (execute.go).
use doplane.Common.{
  Bool, if◌then◌else◌, ◌≡◌, refl, ◌∙◌, ap, sym, Text, bytes, text_eq, text_eq_iff, true, false,
  Option, none, some, List, [], ◌∷◌, Any, ltb, length, Bool-cases, inl, inr,
}
use mathlib.Core.Path.{subst}
use doplane.Json.{Json, Fields, null, bool, number, string, arr, obj, lookup}
use doplane.Runnerops.Path.{is_empty}
use doplane.Runnerops.Spec.{create, engine_up, Op, Result}
use doplane.Runnerops.Secrets.{redact_result}
use doplane.Runnerops.Machine.{root, Trace, Machine, Try, ok, err, CheckpointResource}
use doplane.Runnerops.Output.Last.{IsLast, last_json_object-IsLast}
use doplane.Runnerops.Stateless.{do_args}
use doplane.Runnerops.Output.{last_json_object, is_create, string_of, recorded, from_state}
use doplane.Runnerops.Engine.{
  max_engine_state_bytes, find_component, component_of, with_component, engine_result,
}
use doplane.Runnerops.Execute.{dispatch, execute}
use doplane.Runnerops.Execute.Endings.{Gives, execute_do-Gives, execute_engine-Gives}
use doplane.Runnerops.Execute.Results.{Alike, execute-Meets}
use doplane.Runnerops.Execute.Outputs.{seal-Meets}

-- A result that succeeded shows the state, and the id in it.
abbrev Records : Fields → Result → Type 0
Records state res =
    res.is_ok ≡ true
    → (res.state ≡ some state)
      × (lookup (bytes "id") state ≡ some (string res.id))
      × (is_empty res.id ≡ false)

-- A result that succeeded shows what a command of the operation printed, which did not fail: the last
-- JSON object of its output, and the id in it.
abbrev pub ShowsId : Machine → Op → Result → Type 0
ShowsId m op res =
    res.is_ok ≡ true
    → (op' : Op) × Alike op' op
      × (t : Trace) × (input : List Text) × ((m.process t root (do_args op' input)).failed ≡ none)
      × (state : Fields) × IsLast m.decode_object (m.process t root (do_args op' input)).stdout
          state
      × (res.state ≡ some state)
      × (lookup (bytes "id") state ≡ some (string res.id))
      × (is_empty res.id ≡ false)

string_of_lem :
    (o : Option Json) (b : _) (s : Text) → string_of o ≡ b ∷ s → o ≡ some (string (b ∷ s))
string_of_lem (some (string t)) b s h = ap (λ (u : Text). some (string u)) h
string_of_lem none b s h = cc
string_of_lem (some null) b s h = cc
string_of_lem (some (bool c)) b s h = cc
string_of_lem (some (number t)) b s h = cc
string_of_lem (some (arr vs)) b s h = cc
string_of_lem (some (obj fs)) b s h = cc

recorded-Records :
    (op : Op) (stdout : Text) (state : Fields) (id : Text)
    → op.verb ≡ create
    → string_of (lookup (bytes "id") state) ≡ id
    → Records state (recorded op stdout state id)
unfolding recorded
recorded-Records op stdout state [] c e =
    let is_c : is_create op.verb ≡ true = rw c refl in rw is_c (λ h. cc)
recorded-Records op stdout state (b ∷ id) c e =
    λ h. (refl, string_of_lem (lookup (bytes "id") state) b id e, refl)

from_state-ShowsId :
    (m : Machine) (op op' : Op) (t : Trace) (input : List Text) (o : Option Fields)
    → Alike op' op
    → op'.verb ≡ create
    → (m.process t root (do_args op' input)).failed ≡ none
    → last_json_object m.decode_object (m.process t root (do_args op' input)).stdout ≡ o
    → ShowsId m op (from_state op' (m.process t root (do_args op' input)).stdout o)
from_state-ShowsId m op op' t input none same c f l = λ h. cc
from_state-ShowsId m op op' t input (some state) same c f l = λ h.
    let stdout = (m.process t root (do_args op' input)).stdout in
    let (kept, id, full) = recorded-Records op' stdout state _ c refl h in
    (
      op',
      same,
      t,
      input,
      f,
      state,
      last_json_object-IsLast m.decode_object stdout state l,
      kept,
      id,
      full,
    )

redact_result-ShowsId :
    (m : Machine) (op : Op) (values : List Text) (res : Result)
    → ShowsId m op res
    → ShowsId m op (redact_result res values)
unfolding redact_result
redact_result-ShowsId m op [] res h = h
redact_result-ShowsId m op (v ∷ values) res h = h

dispatch-ShowsId :
    (m : Machine) (ws : Text) (op op' : Op) (t : Trace)
    → Alike op' op
    → op'.verb ≡ create
    → Gives (ShowsId m op) (dispatch m ws op' op'.verb t)
dispatch-ShowsId m ws op op' t same c =
    subst (λ v. Gives (ShowsId m op) (dispatch m ws op' v t)) (sym c)
      (execute_do-Gives (ShowsId m op) (λ code message h. cc) m op' ws t
        (λ e. let f = rw c at e in cc)
        (λ t' input f. from_state-ShowsId m op op' t' input _ same c f refl))

-- A creation that succeeds records an id that is not empty: the string under "id" in the last JSON
-- object that a `pulumi do` command of the operation printed, which did not fail. That object is the
-- recorded state.
pub execute-ShowsId : (m : Machine) (op : Op) → op.verb ≡ create → ShowsId m op (execute m op).0
execute-ShowsId m op c =
    execute-Meets (ShowsId m op) (λ code message h. cc)
      (λ values res h.
        seal-Meets (ShowsId m op) values res (redact_result-ShowsId m op values res h) (λ g. cc))
      m op (λ ws op' t same. dispatch-ShowsId m ws op op' t same (same.0 ∙ c))

-- A result that succeeded shows a resource of the type `token` in the checkpoint that it records.
abbrev pub ShowsComponent : Machine → Text → Result → Type 0
ShowsComponent m token res =
    res.is_ok ≡ true
    → (rs : List CheckpointResource) × (m.decode_checkpoint res.engine_state ≡ ok rs)
      × Any (λ r. (r.token ≡ token) × (r.urn ≡ res.id) × (r.outputs ≡ res.outputs)) rs

-- One of the resources is the component of the result.
abbrev Found : Text → Text → List CheckpointResource → Result → Type 0
Found raw token rs res =
    res.is_ok ≡ true
    → (res.engine_state ≡ raw)
      × Any (λ r. (r.token ≡ token) × (r.urn ≡ res.id) × (r.outputs ≡ res.outputs)) rs

Found-cons :
    (raw token : Text) (r : CheckpointResource) (rs : List CheckpointResource) (b : Bool)
    (res : Result)
    → (b ≡ true → r.token ≡ token)
    → Found raw token rs res
    → Found raw token (r ∷ rs) (if b then with_component raw r else res)
Found-cons raw token r rs true res e f = λ h. (refl, inl (e refl, refl, refl))
Found-cons raw token r rs false res e f = λ h. let g = f h in (g.0, inr g.1)

find_component-Found :
    (raw token : Text) (rs : List CheckpointResource)
    → Found raw token rs (find_component raw token rs)
unfolding find_component
find_component-Found raw token [] = λ h. cc
find_component-Found raw token (r ∷ rs) =
    Found-cons raw token r rs (text_eq r.token token) (find_component raw token rs)
      (λ e. (text_eq_iff r.token token).0 e) (find_component-Found raw token rs)

component_of-Shows :
    (m : Machine) (raw token : Text) (o : Try (List CheckpointResource))
    → m.decode_checkpoint raw ≡ o
    → ShowsComponent m token (component_of raw token o)
component_of-Shows m raw token (err e) d = λ h. cc
component_of-Shows m raw token (ok rs) d =
    λ h. let f = find_component-Found raw token rs h in (rs, ap m.decode_checkpoint f.0 ∙ d, f.1)

engine_result-Shows :
    (m : Machine) (token raw : Text) → ShowsComponent m token (engine_result m token raw)
unfolding engine_result
engine_result-Shows m token raw = elim (Bool-cases (ltb max_engine_state_bytes (length raw))) [
  | inl e ↦ rw e (λ h. cc)
  | inr e ↦ rw e (component_of-Shows m raw token (m.decode_checkpoint raw) refl)
]

redact_result-Shows :
    (m : Machine) (token : Text) (values : List Text) (res : Result)
    → ShowsComponent m token res
    → ShowsComponent m token (redact_result res values)
unfolding redact_result
redact_result-Shows m token [] res h = h
redact_result-Shows m token (v ∷ values) res h = h

dispatch-Shows :
    (m : Machine) (ws : Text) (op : Op) (token : Text) (t : Trace)
    → op.verb ≡ engine_up
    → op.token ≡ token
    → Gives (ShowsComponent m token) (dispatch m ws op op.verb t)
dispatch-Shows m ws op token t c e =
    subst (λ v. Gives (ShowsComponent m token) (dispatch m ws op v t)) (sym c)
      (execute_engine-Gives (ShowsComponent m token) (λ code text h. cc) m op ws t
        (λ f. let g = rw c at f in cc)
        (λ f raw.
          subst (λ k. ShowsComponent m token (engine_result m k raw)) (sym e)
            (engine_result-Shows m token raw)))

-- An engine-up operation that succeeds records a checkpoint, as it was exported, and the URN and
-- the outputs of a resource in it that has the type of the operation.
pub execute-ShowsComponent :
    (m : Machine) (op : Op) → op.verb ≡ engine_up → ShowsComponent m op.token (execute m op).0
execute-ShowsComponent m op c =
    execute-Meets (ShowsComponent m op.token) (λ code e h. cc)
      (λ values res h.
        seal-Meets (ShowsComponent m op.token) values res
          (redact_result-Shows m op.token values res h) (λ g. cc))
      m op (λ ws op' t same. dispatch-Shows m ws op' op.token t (same.0 ∙ c) same.1)
