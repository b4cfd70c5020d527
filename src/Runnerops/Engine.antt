-- ===== src/Runnerops/Engine.antt =====
-- internal/runnerops/execute.go and shared.go: the operations of the ephemeral engine.
use doplane.Common.{
  ℕ, ◌*◌, Text, bytes, Bool, true, false, Option, none, some, List, [], ◌∷◌, ◌++◌, if◌then◌else◌,
  ltb, text_eq, length, decimal,
}
use doplane.Json.{Fields, end, field, obj, string}
use doplane.Runnerops.Spec.{
  Op, Result, failure, Verb, engine_destroy, invalid_spec, engine_failed, output_parse,
  registry_auth_missing, registry_resolve,
}
use doplane.Runnerops.Secrets.Inputs.{properties_or_empty}
use doplane.Runnerops.Packages.{
  package_for_token, PackageKind, plain, git, registry, classify_package_ref, RegistryPackage,
  git_source,
}
use doplane.Runnerops.Machine.{
  root, project, read_file, resolve, Try, ok, err, CheckpointResource, Machine, M, ◌>>=◌, ◌>>◌,
  return, act, or_exit, unless_failed,
}
use doplane.Runnerops.Output.{succeeded}
use doplane.Runnerops.Commands.{step_name, run_in, run_steps, write_in}

-- `MaxEngineStateBytes`
abbrev pub max_engine_state_bytes : ℕ
max_engine_state_bytes = 900 * 1024

abbrev pub or_else_text : Text → Text → Text
or_else_text [] other = other
or_else_text (b ∷ s) other = b ∷ s

-- The document that `engineProgram` marshals.
abbrev pub engine_program : Text → Option Fields → Fields
engine_program token props = field (bytes "name") (string (bytes "doplane")) (
    field (bytes "runtime") (string (bytes "yaml")) (
      field (bytes "resources")
        (obj (
          field (bytes "res")
            (obj (
              field (bytes "type") (string token)
                (field (bytes "properties") (obj (properties_or_empty props)) end)))
            end))
        end))

abbrev pub git_error : RegistryPackage → Text
git_error pkg =
    bytes "registry package "
    ++ pkg.name
    ++ bytes "@"
    ++ pkg.version
    ++ bytes " has no resolvable source"

abbrev pub source_of : RegistryPackage → Option Text → Try Text
source_of pkg none = err (git_error pkg)
source_of pkg (some source) = ok source

abbrev pub is_destroy : Verb → Bool
is_destroy engine_destroy = true
is_destroy verb = false

-- The last of the steps.
abbrev pub engine_step : Bool → List Text
engine_step true = bytes "destroy" ∷ bytes "--yes" ∷ bytes "--non-interactive" ∷ []
engine_step false =
    bytes "up" ∷ bytes "--yes" ∷ bytes "--non-interactive" ∷ bytes "--skip-preview" ∷ []

abbrev pub engine_step_failed : List Text → Text → Result
engine_step_failed step e =
    failure engine_failed (bytes "pulumi " ++ step_name step ++ bytes ": " ++ e)

abbrev pub with_component : Text → CheckpointResource → Result
with_component raw r = record {
  is_ok = true;
  code = none;
  message = [];
  id = r.urn;
  outputs = r.outputs;
  state = none;
  engine_state = raw;
  schema = [];
}

-- The loop of `engineResultFromCheckpoint`
unfoldable pub find_component : Text → Text → List CheckpointResource → Result
find_component raw token [] =
    failure output_parse (bytes "component " ++ token ++ bytes " not found in checkpoint")
find_component raw token (r ∷ rs) =
    if text_eq r.token token then with_component raw r else find_component raw token rs

abbrev pub component_of : Text → Text → Try (List CheckpointResource) → Result
component_of raw token (err e) = failure output_parse (bytes "parsing checkpoint: " ++ e)
component_of raw token (ok rs) = find_component raw token rs

abbrev pub too_large : ℕ → Result
too_large n = failure engine_failed (
    bytes "engine state is "
    ++ decimal n
    ++ bytes " bytes, exceeding the "
    ++ decimal max_engine_state_bytes
    ++ bytes " byte limit supported for component resources")

module _ (m : Machine) where
  -- `engineResultFromCheckpoint`, after the file is read
  unfoldable pub engine_result : Text → Text → Result
  engine_result token raw =
      if ltb max_engine_state_bytes (length raw)
      then too_large (length raw)
      else component_of raw token (m.decode_checkpoint raw)

  abbrev pub new_client : M (Unit {0})
  new_client = unless_failed (failure registry_auth_missing) m.new_client

  abbrev pub resolve_ref : Text → M RegistryPackage
  resolve_ref path = do
    answer ← act (resolve path) (λ t. m.resolve t path)
    or_exit (failure registry_resolve) answer

  -- `pkgSrc`
  abbrev pub package_source : Op → PackageKind → M Text
  package_source op plain = return (or_else_text op.package_ref (package_for_token op.token))
  package_source op git = return (or_else_text op.package_ref (package_for_token op.token))
  package_source op (registry path) = do
    new_client
    pkg ← resolve_ref path
    or_exit (failure registry_resolve) (source_of pkg (git_source pkg))

  -- The steps that import the state recorded before, if there is any.
  abbrev pub import_state : Text → Text → M (List (List Text))
  import_state ws [] = return []
  import_state ws (b ∷ state) = do
    write_in m root (bytes "prev-state.json") (b ∷ state)
        (λ e. failure engine_failed (bytes "writing prior state: " ++ e))
    return (
        (bytes "stack" ∷ bytes "import" ∷ bytes "--file" ∷ (ws ++ bytes "/prev-state.json") ∷ [])
        ∷ [])

  -- The end of `executeEngine`, for a checkpoint that the export has written.
  abbrev pub read_checkpoint : Text → Text → M Result
  read_checkpoint token path = do
    answer ← act (read_file path) (λ t. m.read_file t path)
    raw ← or_exit (λ e. failure engine_failed (bytes "reading checkpoint: " ++ e)) answer
    return (engine_result token raw)

  abbrev pub export_state : Text → Op → M Result
  export_state ws op = do
    r ←
        run_in m project
          (bytes "stack" ∷ bytes "export" ∷ bytes "--file" ∷ (ws ++ bytes "/checkpoint.json") ∷ [])
    unless_failed (λ e. failure engine_failed (bytes "pulumi stack export: " ++ e)) r.1
    read_checkpoint op.token (ws ++ bytes "/checkpoint.json")

  -- What follows the last step.
  abbrev pub after_steps : Text → Op → Bool → M Result
  after_steps ws op true = return (succeeded op.id none)
  after_steps ws op false = export_state ws op

  -- `executeEngine`
  unfoldable pub execute_engine : Text → Op → M Result
  execute_engine ws op = do
    source ← package_source op (classify_package_ref op.package_ref)
    program ←
        or_exit (λ e. failure invalid_spec (bytes "rendering program: " ++ e))
          (m.marshal (obj (engine_program op.token op.properties)))
    write_in m project (bytes "Pulumi.yaml") program
        (λ e. failure engine_failed (bytes "writing project: " ++ e))
    imports ← import_state ws op.engine_state
    run_steps m engine_step_failed (
        (bytes "package" ∷ bytes "add" ∷ source ∷ [])
        ∷ (bytes "stack" ∷ bytes "init" ∷ bytes "dev" ∷ bytes "--non-interactive" ∷ [])
        ∷ (imports ++ engine_step (is_destroy op.verb) ∷ []))
    after_steps ws op (is_destroy op.verb)
