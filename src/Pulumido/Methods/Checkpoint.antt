-- ===== src/Pulumido/Methods/Checkpoint.antt =====
-- internal/pulumido and internal/runnerops: the checkpoint of a component on its way from the operation
-- that made it into the operations that take it.
use doplane.Common.{
  ◌≡◌, refl, ◌≤◌, Text, Bool-cases, Option, none, some, inl, inr, List, [], ◌∷◌, length, arith,
}
use mathlib.Core.Path.{subst}
use doplane.Json.{Fields}
use doplane.Runnerops.Spec.{Op, Result, engine_up, engine_destroy, takes_secret_inputs}
use doplane.Runnerops.Machine.{Machine, Trace, Try, ok}
use doplane.Runnerops.Engine.{max_engine_state_bytes}
use doplane.Runnerops.Execute.{execute}
use doplane.Runnerops.Execute.Outputs.{execute-Fits}
use doplane.Pulumido.Runner.{RunError, result_err}
use doplane.Pulumido.Inputs.{SecretInput, ordered_inputs}
use doplane.Pulumido.Job.{Tags}
use doplane.Pulumido.Methods.{
  update_component, Returned, value, error, engine_state_json, op_of, returning, create_component,
  delete_component,
}
use doplane.Pulumido.Methods.Exec

engine_state_json_fits :
    (state : Text) → length state ≤ max_engine_state_bytes → engine_state_json state ≡ ok state
unfolding engine_state_json
engine_state_json_fits [] h = refl
engine_state_json_fits (b ∷ state) h = ground (arith, h)

-- A returned result that carries a checkpoint within the limit.
abbrev Holds : Returned RunError Result → Type 0
Holds (error e) = Unit
Holds (value res) = length res.engine_state ≤ max_engine_state_bytes

module _ (r : Exec.ExecRunner) (tags : Tags) where
  run_on-Holds : (m : Machine) (op : Op) (t : Trace) → Holds (Exec.run_on r tags m op t).0
  run_on-Holds m op t = of_error (result_err (execute m op).0)
    where
      of_error : (o : Option RunError) → Holds (Exec.result_or_error o (execute m op).0)
      of_error none = execute-Fits m op
      of_error (some e) = tt

  run_with-Holds : (op : Op) (vs : Exec.Values) (t : Trace) → Holds (Exec.run_with r tags op vs t).0
  run_with-Holds op (Exec.unresolved e) t = tt
  run_with-Holds op (Exec.values_at vs) t = run_on-Holds _ op t

  run_resolved-Holds :
      (op : Op) (inputs : List SecretInput) (o : Option (Text → Text → Text → Try Text)) (t : Trace)
      → Holds (Exec.run_resolved r tags op inputs o t).0
  run_resolved-Holds op inputs none t = tt
  run_resolved-Holds op inputs (some resolve) t =
      run_with-Holds _ (Exec.resolve_from r tags resolve 0 (ordered_inputs inputs)) t

  run_tagged-Holds :
      (inputs : List SecretInput) (op : Op) (t : Trace)
      → Holds (Exec.run_tagged r tags inputs op t).0
  run_tagged-Holds [] op t = run_on-Holds r.machine op t
  run_tagged-Holds (input ∷ inputs) op t = elim (Bool-cases (takes_secret_inputs op.verb)) [
    | inl h ↦ rw h (run_resolved-Holds op (input ∷ inputs) r.resolve_secret t)
    | inr h ↦ rw h (run_on-Holds r.machine op t)
  ]

  exec_op-Holds : (op : Op) (t : Trace) → Holds (Exec.exec_op r tags op t).0
  unfolding Exec.exec_op
  exec_op-Holds op t = run_tagged-Holds tags.secret_inputs op t

-- A created component carries a checkpoint within the limit.
abbrev Carries : Returned RunError (Text × Option Fields × Text) → Type 0
Carries (error e) = Unit
Carries (value (urn, outputs, state)) = length state ≤ max_engine_state_bytes

returning-Carries :
    (e : Returned RunError Result × Trace)
    → Holds e.0
    → Carries (returning (λ (res : Result). (res.id, res.outputs, res.engine_state)) e).0
returning-Carries (error e, t) h = tt
returning-Carries (value res, t) h = h

module _ (r : Exec.ExecRunner) (tags : Tags) (marshal : Fields → Try Text)
    (error_of : Text → RunError) (token pkg : Text) where
  create_component-Carries :
      (props : Option Fields) (t : Trace)
      → Carries (create_component (Exec.exec_op r tags) marshal error_of token pkg props t).0
  unfolding create_component
  create_component-Carries props t = returning-Carries _ (exec_op-Holds r tags _ t)

-- A checkpoint that CreateComponent of the in-process runner returns is never refused for its size:
-- given back to UpdateComponent or DeleteComponent, of any runner, it goes whole into the operation
-- that is executed.
pub delete_component-create_component :
    (r : Exec.ExecRunner) (tags : Tags) (marshal : Fields → Try Text) (error_of : Text → RunError)
    (token pkg : Text) (props : Option Fields) (t : Trace) (urn : Text) (outputs : Option Fields)
    (state : Text) {E S : Type 0} (run : Op → S → Returned E Result × S) (error_of' : Text → E)
    (props' : Option Fields) (s : S)
    → (create_component (Exec.exec_op r tags) marshal error_of token pkg props t).0
      ≡ value (urn, outputs, state)
    → (update_component run marshal error_of' token pkg props' state s
        ≡ returning
            (λ (res : Result). (res.outputs, res.engine_state))
            (run
              (record (op_of engine_up token pkg) { properties = props'; engine_state = state })
              s))
      × (delete_component run marshal error_of' token pkg state s
          ≡ returning
              (λ (res : Result). tt)
              (run (record (op_of engine_destroy token pkg) { engine_state = state }) s))
unfolding update_component delete_component
delete_component-create_component r tags marshal error_of token pkg props t urn outputs state run
      error_of' props' s made =
    let accepted =
      engine_state_json_fits state
        (subst Carries made (create_component-Carries r tags marshal error_of token pkg props t)) in
    rw accepted (refl, refl)
