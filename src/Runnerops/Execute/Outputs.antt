-- ===== src/Runnerops/Execute/Outputs.antt =====
-- What the results of `Execute` hold (execute.go).
use doplane.Common.{
  ◌≡◌, refl, ◌≤◌, Text, Option, none, some, List, [], ◌∷◌, arith, length, ltb, Bool-cases, text_eq,
  inl, inr,
}
use doplane.Json.{Fields}
use doplane.Runnerops.Spec.{Verb, schema, engine_up, engine_destroy, unknown, Op, Result}
use doplane.Runnerops.Secrets.{redact_result, id_embeds_secret}
use doplane.Runnerops.Machine.{Trace, Machine, Try, ok, err, CheckpointResource}
use doplane.Runnerops.Output.{is_create, recorded, from_state}
use doplane.Runnerops.Engine.{max_engine_state_bytes, find_component, component_of, engine_result}
use doplane.Runnerops.Execute.{seal, dispatch, execute}
use doplane.Runnerops.Execute.Results.{execute-Meets}
use doplane.Runnerops.Execute.Endings.{
  Gives, execute_do-Gives, execute_engine-Gives, execute_schema-Gives,
}
use doplane.Runnerops.Execute.Sealed.{guard_secret_id-Meets}

-- The seal keeps what it leaves, and what the guard's refusal has.
pub seal-Meets :
    (P : Result → Type 0) (values : List Text) (res : Result)
    → P (redact_result res values)
    → P id_embeds_secret
    → P (seal values res)
unfolding seal
seal-Meets P values res p q = guard_secret_id-Meets P (redact_result res values) values p q

redact_result-engine_state :
    (values : List Text) (res : Result) → (redact_result res values).engine_state ≡ res.engine_state
unfolding redact_result
redact_result-engine_state [] res = refl
redact_result-engine_state (v ∷ values) res = refl

-- A result's recorded engine state fits.
abbrev Fits : Result → Type 0
Fits res = length res.engine_state ≤ max_engine_state_bytes

find_component-Fits :
    (raw token : Text) (rs : List CheckpointResource)
    → length raw ≤ max_engine_state_bytes
    → Fits (find_component raw token rs)
unfolding find_component
find_component-Fits raw token [] h = omega arith
find_component-Fits raw token (r ∷ rs) h = elim (Bool-cases (text_eq r.token token)) [
  | inl e ↦ rw e h
  | inr e ↦ rw e (find_component-Fits raw token rs h)
]

component_of-Fits :
    (raw token : Text) (o : Try (List CheckpointResource))
    → length raw ≤ max_engine_state_bytes
    → Fits (component_of raw token o)
component_of-Fits raw token (err e) h = omega arith
component_of-Fits raw token (ok rs) h = find_component-Fits raw token rs h

engine_result-Fits : (m : Machine) (token raw : Text) → Fits (engine_result m token raw)
unfolding engine_result
engine_result-Fits m token raw = elim (Bool-cases (ltb max_engine_state_bytes (length raw))) [
  | inl e ↦ rw e (omega arith)
  | inr e ↦ rw e (component_of-Fits raw token (m.decode_checkpoint raw) (ground arith))
]

recorded-Fits :
    (op : Op) (stdout : Text) (state : Fields) (id : Text) → Fits (recorded op stdout state id)
unfolding recorded
recorded-Fits op stdout state [] = elim (Bool-cases (is_create op.verb)) [
  | inl e ↦ rw e (omega arith)
  | inr e ↦ rw e (omega arith)
]
recorded-Fits op stdout state (b ∷ id) = omega arith

from_state-Fits : (op : Op) (stdout : Text) (o : Option Fields) → Fits (from_state op stdout o)
from_state-Fits op stdout none = omega arith
from_state-Fits op stdout (some state) = recorded-Fits op stdout state _

dispatch-Fits :
    (m : Machine) (ws : Text) (op : Op) (verb : Verb) (t : Trace)
    → Gives Fits (dispatch m ws op verb t)
dispatch-Fits m ws op schema t =
    execute_schema-Gives Fits (λ c e. omega arith) m op t (λ small. omega arith)
dispatch-Fits m ws op engine_up t =
    execute_engine-Gives Fits (λ c e. omega arith) m op ws t (λ e. omega arith)
      (λ e raw. engine_result-Fits m op.token raw)
dispatch-Fits m ws op engine_destroy t =
    execute_engine-Gives Fits (λ c e. omega arith) m op ws t (λ e. omega arith)
      (λ e raw. engine_result-Fits m op.token raw)
dispatch-Fits m ws op (unknown verb) t = omega arith
dispatch-Fits m ws op verb t =
    execute_do-Gives Fits (λ c e. omega arith) m op ws t (λ e. omega arith)
      (λ t' input e. from_state-Fits op _ _)

-- The engine state of a result never exceeds MaxEngineStateBytes, whatever the operation and its
-- commands leave.
pub execute-Fits :
    (m : Machine) (op : Op) → length (execute m op).0.engine_state ≤ max_engine_state_bytes
execute-Fits m op =
    execute-Meets Fits (λ c e. omega arith)
      (λ values res h.
        seal-Meets Fits values res (rw (redact_result-engine_state values res) h) (omega arith))
      m op (λ ws op' t same. dispatch-Fits m ws op' op'.verb t)
