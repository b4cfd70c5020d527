-- ===== src/Pulumido/Methods/Exec.antt =====
-- internal/pulumido/exec.go: execute, which runs an operation in the process. The resolver of secrets
-- is a parameter.
use doplane.Common.{
  ℕ, suc, Text, bytes, text_eq, Option, none, some, List, [], ◌∷◌, ◌++◌, if◌then◌else◌,
}
use doplane.Runnerops.Spec.{Op, Result, secret_input_missing, takes_secret_inputs}
use doplane.Runnerops.Machine.{Machine, Trace, Try, ok, err}
use doplane.Runnerops.Execute.{execute}
use doplane.Pulumido.Runner.{RunError, coded, result_err}
use doplane.Pulumido.Inputs.{SecretInput, secret_env_name, ordered_inputs, secret_inputs_plan}
use doplane.Pulumido.Job.{Tags}
use doplane.Pulumido.Methods.{Returned, value, error}

-- The values under the names of their variables, or the error.
pub data Values : Type 0 where
  values_at : List (Text × Text) → Values
  unresolved : RunError → Values

abbrev pub with_named : Text → Text → Values → Values
with_named name v (unresolved e) = unresolved e
with_named name v (values_at vs) = values_at ((name, v) ∷ vs)

-- `ops.LookupEnv`
unfoldable pub value_at : List (Text × Text) → Text → Option Text
value_at [] name = none
value_at ((k, v) ∷ vs) name = if text_eq k name then some v else value_at vs name

abbrev pub result_or_error : Option RunError → Result → Returned RunError Result
result_or_error none res = value res
result_or_error (some e) res = error e

-- `ExecRunner`: the machine of its operations, and `ResolveSecret`, which may be nil.
pub record ExecRunner : Type 0 where
  pub machine : Machine
  pub resolve_secret : Option (Text → Text → Text → Try Text)

module _ (r : ExecRunner) (tags : Tags) where
  abbrev pub on_resolved : Text → SecretInput → Try Text → Values → Values
  on_resolved name input (ok v) rest = with_named name v rest
  on_resolved name input (err e) rest = unresolved (
      coded (some secret_input_missing)
        (bytes "resolving secret input for " ++ r.machine.quote input.to_path ++ bytes ": " ++ e))

  -- The loop over the ordered inputs.
  unfoldable pub resolve_from :
      (Text → Text → Text → Try Text) → ℕ → List (Text × SecretInput) → Values
  resolve_from resolve i [] = values_at []
  resolve_from resolve i ((path, input) ∷ inputs) =
      on_resolved (secret_env_name i) input
        (resolve tags.namespace input.secret_name input.secret_key)
        (resolve_from resolve (suc i) inputs)

  abbrev pub run_on : Machine → Op → Trace → Returned RunError Result × Trace
  run_on m op t = let (res, t') = execute m op in (result_or_error (result_err res) res, t' ++ t)

  abbrev pub run_with : Op → Values → Trace → Returned RunError Result × Trace
  run_with op (unresolved e) t = (error e, t)
  run_with op (values_at vs) t = run_on (record r.machine { lookup_env = value_at vs }) op t

  abbrev pub run_resolved :
      Op
      → List SecretInput
      → Option (Text → Text → Text → Try Text)
      → Trace
      → Returned RunError Result × Trace
  run_resolved op inputs none t = (
    error
        (coded (some secret_input_missing) (bytes "exec runner has no secret resolver configured")),
    t,
  )
  run_resolved op inputs (some resolve) t =
      run_with (record op { secret_inputs = secret_inputs_plan inputs })
        (resolve_from resolve 0 (ordered_inputs inputs)) t

  abbrev pub run_tagged : List SecretInput → Op → Trace → Returned RunError Result × Trace
  run_tagged [] op t = run_on r.machine op t
  run_tagged (input ∷ inputs) op t =
      if takes_secret_inputs op.verb
      then run_resolved op (input ∷ inputs) r.resolve_secret t
      else run_on r.machine op t

  -- `execute`, with the actions of the operations before it.
  unfoldable pub exec_op : Op → Trace → Returned RunError Result × Trace
  exec_op op t = run_tagged tags.secret_inputs op t
