-- ===== src/Runnerops/Execute.antt =====
-- internal/runnerops/execute.go: `Execute`, which runs one operation.
pub mod Rules
pub mod Endings
pub mod Sealed
pub mod Results
pub mod Outputs
pub mod Verbs
pub mod Deletion
pub mod Tests
pub mod Identity
use doplane.Common.{
  Text, bytes, Bool, true, false, Option, none, some, List, [], ◌∷◌, ◌++◌, ◌&&◌, if◌then◌else◌,
  text_eq,
}
use doplane.Runnerops.Path.{is_empty}
use doplane.Runnerops.Spec.{
  Verb, create, patch, read, delete, schema, engine_up, engine_destroy, unknown,
  takes_secret_inputs, Op, Result, Code, failure, invalid_spec, operation_failed, schema_fetch,
  secret_input_missing,
}
use doplane.Runnerops.Secrets.{redact_result, guard_secret_id}
use doplane.Runnerops.Secrets.Inputs.{
  InputError, env_not_set, bad_target, Applied, values_of, refused, apply_secret_inputs,
}
use doplane.Runnerops.Packages.{
  package_for_token, PackageKind, plain, git, registry, classify_package_ref, parse_plugin_ref,
}
use doplane.Runnerops.Machine.{
  root, make_workspace, ensure_plugin, prepare, fetch_schema, Trace, Try, ok, err, FullSchema,
  Machine, Outcome, go_on, stop, M, ◌>>=◌, ◌>>◌, return, exit, act, or_exit, unless_failed,
}
use doplane.Runnerops.Commands.{run_in}
use doplane.Runnerops.Engine.{or_else_text, new_client, resolve_ref, execute_engine}
use doplane.Runnerops.Output.{succeeded}
use doplane.Runnerops.Stateless.{execute_do}

-- The message of a refusal of `applySecretInputs`.
abbrev pub input_error_text : Machine → InputError → Text
input_error_text m (env_not_set path name) =
    bytes "secret input for property "
    ++ m.quote path
    ++ bytes ": environment variable "
    ++ name
    ++ bytes " is not set (Secret missing in the runner Job's namespace?)"
input_error_text m (bad_target path e) =
    bytes "secret input for property " ++ m.quote path ++ bytes ": " ++ m.access_error_text e

abbrev pub only_resource : Text → List (Text × Text) → List (Text × Text)
only_resource token [] = []
only_resource token ((name, body) ∷ rest) =
    if text_eq name token then (name, body) ∷ [] else only_resource token rest

-- The schema that `trimSchema` marshals.
abbrev pub trimmed : Text → FullSchema → FullSchema
trimmed token full = record full { resources = only_resource token full.resources }

-- `op.SecretInputs = nil` for the verbs that take none.
abbrev pub own_inputs : Op → Op
own_inputs op = if takes_secret_inputs op.verb then op else record op { secret_inputs = [] }

abbrev pub is_engine : Verb → Bool
is_engine engine_up = true
is_engine engine_destroy = true
is_engine verb = false

abbrev pub has_inputs : List (Text × Text) → Bool
has_inputs [] = false
has_inputs (e ∷ es) = true

-- The end of `Execute`.
unfoldable pub seal : List Text → Result → Result
seal values res = guard_secret_id (redact_result res values) values

abbrev pub result_of : Outcome Result → Result
result_of (go_on res) = res
result_of (stop res) = res

abbrev pub sealed : List Text → M Result → M Result
sealed values program t = (go_on (seal values (result_of (program t).0)), (program t).1)

unfoldable pub unless_coded : Option (Code × Text) → M (Unit {0})
unless_coded none = return tt
unless_coded (some (code, e)) = exit (failure code e)

abbrev pub secrets_unsupported : Result
secrets_unsupported =
    failure invalid_spec (bytes "secret inputs are not supported for component resources")

-- Engine verbs with secret inputs are refused.
unfoldable pub refuse_secrets : Op → M (Unit {0})
refuse_secrets op =
    if has_inputs op.secret_inputs && is_engine op.verb then exit secrets_unsupported else return tt

module _ (m : Machine) where
  abbrev pub trim_schema : Text → Try FullSchema → Try Text
  trim_schema token (err e) = err (bytes "parsing provider schema: " ++ e)
  trim_schema token (ok full) = m.encode_schema (trimmed token full)

  abbrev pub schema_failed : Text → Text → Result
  schema_failed ref e =
      failure schema_fetch (bytes "pulumi package get-schema " ++ ref ++ bytes ": " ++ e)

  abbrev pub get_schema : Text → M Text
  get_schema ref = do
    r ← run_in m root (bytes "package" ∷ bytes "get-schema" ∷ ref ∷ [])
    unless_failed (schema_failed ref) r.1
    return r.0

  abbrev pub raw_schema : Op → PackageKind → M Text
  raw_schema op plain = get_schema (or_else_text op.package_ref (package_for_token op.token))
  raw_schema op git = get_schema (or_else_text op.package_ref (package_for_token op.token))
  raw_schema op (registry path) = do
    new_client m
    pkg ← resolve_ref m path
    answer ← act (fetch_schema pkg) (λ t. m.fetch_schema t pkg)
    or_exit (failure schema_fetch) answer

  -- `executeSchema`
  unfoldable pub execute_schema : Op → M Result
  execute_schema op = do
    raw ← raw_schema op (classify_package_ref op.package_ref)
    small ← or_exit (failure schema_fetch) (trim_schema op.token (m.decode_schema raw))
    return (record (succeeded [] none) { schema = small })

  -- The verbs of `Execute`.
  abbrev pub dispatch : Text → Op → Verb → M Result
  dispatch ws op schema = execute_schema op
  dispatch ws op engine_up = execute_engine m ws op
  dispatch ws op engine_destroy = execute_engine m ws op
  dispatch ws op (unknown verb) =
      return (failure invalid_spec (bytes "unknown verb " ++ m.quote verb))
  dispatch ws op create = execute_do m ws op
  dispatch ws op patch = execute_do m ws op
  dispatch ws op read = execute_do m ws op
  dispatch ws op delete = execute_do m ws op

  abbrev pub ensure_cached : Option (Text × Text) → M (Option Text)
  ensure_cached none = return (some (m.plugin_cache ++ bytes "/plugins"))
  ensure_cached (some (name, version)) = do
    failed ← act (ensure_plugin name version) (λ t. m.ensure_plugin t name version)
    unless_coded failed
    return (some (m.plugin_cache ++ bytes "/plugins"))

  -- `cachePlugins`
  abbrev pub cache_plugins : Op → M (Option Text)
  cache_plugins op =
      if is_empty m.plugin_cache
      then return none
      else ensure_cached (parse_plugin_ref op.package_ref)

  -- `Execute` up to the secret inputs.
  unfoldable pub set_up : Op → M Text
  set_up op = do
    made ← act make_workspace m.make_workspace
    ws ← or_exit (λ e. failure operation_failed (bytes "creating workspace: " ++ e)) made
    plugins ← cache_plugins op
    unprepared ← act (prepare plugins) (λ t. m.prepare t ws plugins)
    unless_failed (failure operation_failed) unprepared
    refuse_secrets op
    return ws

  -- `Execute` from the secret inputs on.
  abbrev pub perform : Text → Op × Applied → M Result
  perform ws (op, refused e) = exit (failure secret_input_missing (input_error_text m e))
  perform ws (op, values_of values) = sealed values (dispatch ws op op.verb)

  -- `Execute`: the result, and what was done.
  unfoldable pub execute : Op → Result × Trace
  execute op =
      let end_of =
        (set_up op >>= λ ws. perform ws (apply_secret_inputs m.lookup_env (own_inputs op))) [] in
      (result_of end_of.0, end_of.1)
