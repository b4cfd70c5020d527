-- ===== src/Runnerops/Execute/Tests.antt =====
-- Operations at concrete machines (internal/runnerops/runnerops_test.go, deletefallback_test.go),
-- and instances of the theorems.
use doplane.Common.{
  ◌≡◌, refl, Text, bytes, true, false, none, some, List, [], ◌∷◌, ◌++◌, All, Any, inl, length,
  text_eq, lower, split_lines, join, trim_left, trim_right, trim_space, if◌then◌else◌,
}
use doplane.Json.{end, field, string}
use doplane.Runnerops.Spec.{delete, engine_up, takes_secret_inputs, Op}
use doplane.Runnerops.Secrets.{redact_result}
use doplane.Runnerops.Secrets.Tests.{secrets, password, env, creation, password-IsDistinct}
use doplane.Runnerops.Packages.{
  package_for_token, looks_like_git_source, span_word, has_newline, match_registry_ref, behind,
  registry, classify_package_ref, parse_plugin_ref,
}
use doplane.Runnerops.Path.{cut_at}
use doplane.Runnerops.Failures.{
  take, truncate, is_error_line, error_lines, provider_error_text, mentions, code_of_text,
  code_of_failure,
}
use doplane.Runnerops.Machine.{Process, ok, err, Machine, and_then, or_exit, unless_failed}
use doplane.Runnerops.Commands.{go_on_unless, run_steps}
use doplane.Runnerops.Engine.{find_component, engine_result, execute_engine}
use doplane.Runnerops.Fallback.{
  delete_fallback_applies, delete_plugin_ref, delete_checkpoint, execute_state_delete,
}
use doplane.Runnerops.Output.{last_object_from, last_json_object, recorded}
use doplane.Runnerops.Stateless.{do_args, execute_do}
use doplane.Runnerops.Execute.{unless_coded, seal, refuse_secrets, set_up, execute_schema, execute}
use doplane.Runnerops.Execute.Rules.{IsCommand, NotCommand}
use doplane.Runnerops.Execute.Sealed.{Hides, execute-Hides}
use doplane.Runnerops.Execute.Identity.{ShowsId, execute-ShowsId}
use doplane.Runnerops.Execute.Verbs.{execute_refuses_inputs}
use doplane.Runnerops.Execute.Deletion.{IsEngineCommand, NeedsEngine, execute-NeedsEngine}

-- Everything that a run of an operation goes through.
unfoldable pub runs : Unit {0}
unfolding secrets package_for_token looks_like_git_source span_word has_newline match_registry_ref
    behind classify_package_ref parse_plugin_ref cut_at take truncate is_error_line error_lines
    provider_error_text mentions code_of_text code_of_failure and_then or_exit unless_failed
    go_on_unless run_steps find_component engine_result execute_engine delete_fallback_applies
    delete_plugin_ref delete_checkpoint execute_state_delete last_object_from last_json_object
    recorded do_args execute_do unless_coded seal refuse_secrets set_up execute_schema execute lower
    split_lines join trim_left trim_right trim_space takes_secret_inputs redact_result
runs = tt

abbrev pub token : Text
token = bytes "random:index/randomPet:RandomPet"

-- A machine on which nothing fails but the commands, of which `process` decides.
abbrev machine : (List Text → Process) → Machine
machine process = record {
  plugin_cache = [];
  lookup_env = env;
  make_workspace = λ t. ok (bytes "/tmp/op");
  ensure_plugin = λ t name version. none;
  prepare = λ t ws plugins. none;
  write_file = λ t place name content. none;
  process = λ t place args. process args;
  read_file = λ t path. ok (bytes "{}");
  new_client = none;
  resolve = λ t path. err [];
  fetch_schema = λ t pkg. err [];
  marshal = λ v. ok (bytes "{}");
  decode_object = λ s. some (field (bytes "id") (string (bytes "pet-1")) end, length s);
  decode_checkpoint =
      λ s. ok (record { urn = bytes "urn:pet"; token = token; outputs = none } ∷ []);
  decode_schema = λ s. err [];
  encode_schema = λ full. ok [];
  quote = λ s. s;
  access_error_text = λ e. [];
}

abbrev printing : Text → List Text → Process
printing out args = record { stdout = out; stderr = []; failed = none }

abbrev failing : Text → List Text → Process
failing text args = record { stdout = []; stderr = text; failed = some (bytes "exit status 1") }

abbrev pub creates : Machine
creates = machine (printing (bytes "{\"id\":\"pet-1\"}"))

abbrev leaks : Machine
leaks = machine (failing (bytes "error: hunter22 is too short"))

execute_tests :
    ((execute creates creation).0.id ≡ bytes "pet-1")
    × ((execute leaks creation).0.message
        ≡ bytes "exit status 1:" ++ 10 ∷ bytes "error: (redacted) is too short")
unfolding runs
execute_tests = (refl, refl)

-- A command has been run.
leaks_ran : Any IsCommand (execute leaks creation).1
unfolding runs
leaks_ran = inl tt

execute-Hides_example : Hides password (execute leaks creation).0
execute-Hides_example =
    execute-Hides leaks creation (bytes "DOPLANE_SECRET_0") password (unfold runs in refl)
      (unfold runs in refl) (inl refl) password-IsDistinct (unfold runs in refl) leaks_ran

execute-ShowsId_example : ShowsId creates creation (execute creates creation).0
execute-ShowsId_example = execute-ShowsId creates creation refl

abbrev construction : Op
construction = record creation { verb = engine_up; secret_inputs = [] }

component_test : (execute creates construction).0.id ≡ bytes "urn:pet"
unfolding runs
component_test = refl

abbrev deletion : Op
deletion = record creation {
  verb = delete;
  id = bytes "pet-1";
  state = some (field (bytes "id") (string (bytes "pet-1")) end);
}

execute_refuses_inputs_example :
    ((execute creates (record creation { verb = engine_up })).0.is_ok ≡ false)
    × All NotCommand (execute creates (record creation { verb = engine_up })).1
execute_refuses_inputs_example =
    execute_refuses_inputs creates (record creation { verb = engine_up }) refl refl

-- A provider that cannot read: only the engine can delete.
abbrev unreadable : List Text → Process
unreadable [] = printing [] []
unreadable (c ∷ args) =
    if text_eq c (bytes "do")
    then failing (bytes "error: resource does not support import") args
    else printing [] args

abbrev recorded_only : Machine
recorded_only = machine unreadable

fell_back : Any IsEngineCommand (execute recorded_only deletion).1
unfolding runs
fell_back = inl tt

execute-NeedsEngine_example : NeedsEngine recorded_only deletion
execute-NeedsEngine_example = execute-NeedsEngine recorded_only deletion refl fell_back

fallback_test : (execute recorded_only deletion).0.is_ok ≡ true
unfolding runs
fallback_test = refl

plugin_tests :
    (parse_plugin_ref (bytes "aws@7.1.0") ≡ some (bytes "aws", bytes "7.1.0"))
    × (parse_plugin_ref (bytes "private/acme/net@1.0.0") ≡ none)
    × (classify_package_ref (bytes "private/acme/net@1.0.0")
        ≡ registry (bytes "private/acme/net/versions/1.0.0"))
    × (classify_package_ref (bytes "acme/net")
        ≡ registry (bytes "private/acme/net/versions/latest"))
unfolding runs
plugin_tests = (refl, refl, refl, refl)
