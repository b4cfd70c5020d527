-- ===== src/Runnerops/Commands.antt =====
-- internal/runnerops/execute.go: how the commands of an operation run.
use doplane.Common.{Text, bytes, Option, none, some, List, [], ◌∷◌, ◌++◌, trim_space}
use doplane.Runnerops.Spec.{Result}
use doplane.Runnerops.Failures.{truncate}
use doplane.Runnerops.Machine.{
  Place, project, run, write_file, Process, Machine, M, ◌>>=◌, return, exit, act, unless_failed,
}

abbrev pub error_of : Process → Option Text → Option Text
error_of p none = none
error_of p (some e) =
    some (e ++ bytes ":" ++ 10 ∷ truncate (trim_space (p.stderr ++ 10 ∷ p.stdout)) 4000)

-- The end of `runEnv`: the output, and the error with both outputs of a failed command.
abbrev pub outcome_of : Process → Text × Option Text
outcome_of p = (p.stdout, error_of p p.failed)

-- `strings.Join(step[:min(2, len(step))], " ")`
abbrev pub step_name : List Text → Text
step_name [] = []
step_name (a ∷ []) = a
step_name (a ∷ b ∷ rest) = a ++ bytes " " ++ b

unfoldable pub go_on_unless : Option Text → (Text → Result) → M (Unit {0}) → M (Unit {0})
go_on_unless none fail rest = rest
go_on_unless (some e) fail rest = exit (fail e)

module _ (m : Machine) where
  -- `runIn`
  abbrev pub run_in : Place → List Text → M (Text × Option Text)
  run_in place args = act (run place args) (λ t. outcome_of (m.process t place args))

  -- The loops over `steps`: the first one that fails ends the operation.
  unfoldable pub run_steps : (List Text → Text → Result) → List (List Text) → M (Unit {0})
  run_steps fail [] = return tt
  run_steps fail (step ∷ steps) =
      run_in project step >>= λ r. go_on_unless r.1 (fail step) (run_steps fail steps)

  -- `os.WriteFile`, of which an error ends the operation
  abbrev pub write_in : Place → Text → Text → (Text → Result) → M (Unit {0})
  write_in place name content fail = do
    failed ← act (write_file place name content) (λ t. m.write_file t place name content)
    unless_failed fail failed
