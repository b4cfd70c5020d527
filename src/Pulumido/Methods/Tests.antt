-- ===== src/Pulumido/Methods/Tests.antt =====
-- internal/pulumido: the methods of runners on concrete operations.
use doplane.Common.{◌≡◌, refl, Text, bytes, none, some, []}
use doplane.Json.{Fields, end, field, null}
use doplane.Runnerops.Spec.{Result, engine_up, engine_destroy}
use doplane.Runnerops.Machine.{Try, ok}
use doplane.Runnerops.Execute.Tests.{runs, token, creates}
use doplane.Pulumido.Runner.{other, result_err}
use doplane.Pulumido.Job.{Tags}
use doplane.Pulumido.Methods.{
  value, create_component, update_component, delete_component, delete_state_of, returning, op_of,
}
use doplane.Pulumido.Methods.Exec.{ExecRunner, exec_op}
use doplane.Pulumido.Methods.Checkpoint.{delete_component-create_component}

abbrev runner : ExecRunner
runner = record { machine = creates; resolve_secret = none }

abbrev tags : Tags
tags = record {
  owner = [];
  credentials = [];
  namespace = bytes "team";
  secret_version_salt = [];
  secret_inputs = [];
}

abbrev marshal : Fields → Try Text
marshal fs = ok (bytes "{}")

made :
    (create_component (exec_op runner tags) marshal other token [] none []).0
    ≡ value (bytes "urn:pet", none, bytes "{}")
unfolding runs create_component exec_op result_err
made = refl

delete_component-create_component_example :
    (update_component (exec_op runner tags) marshal other token [] none (bytes "{}") []
      ≡ returning
          (λ (res : Result). (res.outputs, res.engine_state))
          (exec_op runner tags
            (record (op_of engine_up token []) { properties = none; engine_state = bytes "{}" })
            []))
    × (delete_component (exec_op runner tags) marshal other token [] (bytes "{}") []
        ≡ returning
            (λ (res : Result). tt)
            (exec_op runner tags
              (record (op_of engine_destroy token []) { engine_state = bytes "{}" })
              []))
delete_component-create_component_example =
    delete_component-create_component runner tags marshal other token [] none [] (bytes "urn:pet")
      none (bytes "{}") (exec_op runner tags) other none [] made

-- A state that is empty is not sent, one that is small is.
state_tests :
    (delete_state_of marshal (some end) ≡ none)
    × (delete_state_of marshal (some (field [] null end)) ≡ some (field [] null end))
unfolding delete_state_of
state_tests = (refl, refl)
