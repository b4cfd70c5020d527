-- ===== src/Runnerops/Fallback.antt =====
-- internal/runnerops/deletefallback.go: deletion through the engine, from the recorded state.
use doplane.Common.{
  Text, bytes, Bool, true, false, Option, none, some, List, [], ◌∷◌, ◌++◌, if◌then◌else◌, contains,
}
use doplane.Json.{Fields, end, field, obj, string, number, bool, arr, nil, cons, erase}
use doplane.Runnerops.Path.{is_empty}
use doplane.Runnerops.Spec.{
  Op, Result, Code, failure, invalid_spec, not_found, read_not_supported, registry_auth_missing,
  registry_resolve, schema_fetch, operation_failed, engine_failed, output_parse, plugin_install,
  plugin_cache_not_writable, secret_input_missing, replacement_required, already_exists,
  secret_input_in_id,
}
use doplane.Runnerops.Packages.{
  package_for_token, PackageKind, plain, git, registry, classify_package_ref, parse_plugin_ref,
}
use doplane.Runnerops.Failures.{truncate, provider_error_text, code_of_failure}
use doplane.Runnerops.Machine.{root, project, Machine, M, ◌>>=◌, ◌>>◌, return, or_exit}
use doplane.Runnerops.Commands.{step_name, run_steps, write_in}
use doplane.Runnerops.Output.{succeeded}

abbrev pub code_applies : Text → Option Code → Bool
code_applies message (some read_not_supported) = true
code_applies message (some operation_failed) =
    contains (bytes "import") (provider_error_text message [])
code_applies message other = false

-- `deleteFallbackApplies`
unfoldable pub delete_fallback_applies : Result → Bool
delete_fallback_applies res = code_applies res.message res.code

abbrev pub plain_ref : Text → PackageKind → Option (Text × Text)
plain_ref pkg plain = some (pkg, [])
plain_ref pkg git = none
plain_ref pkg (registry path) = none

abbrev pub or_plain : Text → Option (Text × Text) → Option (Text × Text)
or_plain pkg (some ref) = some ref
or_plain pkg none = plain_ref pkg (classify_package_ref pkg)

-- `deletePluginRef`
unfoldable pub delete_plugin_ref : Text → Text → Option (Text × Text)
delete_plugin_ref token pkg =
    if is_empty pkg then some (package_for_token token, []) else or_plain pkg (parse_plugin_ref pkg)

abbrev pub provider_id : Text
provider_id = bytes "00000000-0000-4000-8000-000000000001"

abbrev pub provider_urn : Text → Text
provider_urn plugin =
    bytes "urn:pulumi:dev::doplane::pulumi:providers:" ++ plugin ++ bytes "::default"

abbrev pub provider_props : Text → Fields
provider_props [] = end
provider_props (b ∷ version) = field (bytes "version") (string (b ∷ version)) end

-- `checkpointResource`, without its last field
abbrev pub resource_fields : Text → Text → Text → Fields → Fields → Fields → Fields
resource_fields urn token id inputs outputs rest = field (bytes "urn") (string urn) (
    field (bytes "custom") (bool true) (
      field (bytes "type") (string token) (
        field (bytes "id") (string id)
          (field (bytes "inputs") (obj inputs) (field (bytes "outputs") (obj outputs) rest)))))

abbrev pub manifest : Fields
manifest =
    field (bytes "time") (string (bytes "0001-01-01T00:00:00Z"))
      (field (bytes "magic") (string []) (field (bytes "version") (string []) end))

-- The document that `deleteCheckpoint` marshals.
unfoldable pub delete_checkpoint : Text → Text → Text → Text → Fields → Fields
delete_checkpoint plugin version token id state =
    let provider =
      resource_fields (provider_urn plugin) (bytes "pulumi:providers:" ++ plugin) provider_id
        (provider_props version) (provider_props version) end in
    let target =
      resource_fields (bytes "urn:pulumi:dev::doplane::" ++ token ++ bytes "::target") token id
        (erase (bytes "id") state) state
        (field (bytes "provider") (string (provider_urn plugin ++ bytes "::" ++ provider_id))
          end) in
    field (bytes "version") (number (bytes "3")) (
      field (bytes "deployment")
        (obj (
          field (bytes "manifest") (obj manifest)
            (field (bytes "resources") (arr (cons (obj provider) (cons (obj target) nil))) end)))
        end)

-- The text of a code.
unfoldable pub text_of_code : Code → Text
text_of_code invalid_spec = bytes "InvalidSpec"
text_of_code not_found = bytes "NotFound"
text_of_code read_not_supported = bytes "ReadNotSupported"
text_of_code registry_auth_missing = bytes "RegistryAuthMissing"
text_of_code registry_resolve = bytes "RegistryResolveFailed"
text_of_code schema_fetch = bytes "SchemaFetchFailed"
text_of_code operation_failed = bytes "OperationFailed"
text_of_code engine_failed = bytes "EngineFailed"
text_of_code output_parse = bytes "OutputParseFailed"
text_of_code plugin_install = bytes "PluginInstallFailed"
text_of_code plugin_cache_not_writable = bytes "PluginCacheNotWritable"
text_of_code secret_input_missing = bytes "SecretInputMissing"
text_of_code replacement_required = bytes "ReplacementRequired"
text_of_code already_exists = bytes "AlreadyExists"
text_of_code secret_input_in_id = bytes "SecretInputInID"

abbrev pub code_text : Option Code → Text
code_text none = []
code_text (some code) = text_of_code code

abbrev pub or_fallback_failed : Result → List Text → Text → Code → Result
or_fallback_failed primary step e not_found = failure not_found e
or_fallback_failed primary step e other = failure operation_failed (
    bytes "stateless delete failed ("
    ++ code_text primary.code
    ++ bytes ": "
    ++ truncate primary.message 1500
    ++ bytes "); engine destroy fallback failed: pulumi "
    ++ step_name step
    ++ bytes ": "
    ++ e)

-- A step of the fallback failed.
abbrev pub delete_step_failed : Result → List Text → Text → Result
delete_step_failed primary step e = or_fallback_failed primary step e (code_of_failure e [])

abbrev pub project_file : Text
project_file = bytes "{\"name\": \"doplane\", \"runtime\": \"yaml\"}" ++ 10 ∷ []

module _ (m : Machine) where
  abbrev pub delete_by_engine : Text → Op → Fields → Result → Option (Text × Text) → M Result
  delete_by_engine ws op state primary none = return primary
  delete_by_engine ws op state primary (some (plugin, version)) = do
    checkpoint ←
        or_exit (λ e. failure invalid_spec (bytes "rendering delete checkpoint: " ++ e))
          (m.marshal (obj (delete_checkpoint plugin version op.token op.id state)))
    write_in m project (bytes "Pulumi.yaml") project_file
        (λ e. failure operation_failed (bytes "writing project: " ++ e))
    write_in m root (bytes "delete-state.json") checkpoint
        (λ e. failure operation_failed (bytes "writing delete checkpoint: " ++ e))
    run_steps m (delete_step_failed primary) (
        (bytes "stack" ∷ bytes "init" ∷ bytes "dev" ∷ bytes "--non-interactive" ∷ [])
        ∷ (bytes "stack"
            ∷ bytes "import"
            ∷ bytes "--file"
            ∷ (ws ++ bytes "/delete-state.json")
            ∷ [])
        ∷ (bytes "destroy" ∷ bytes "--yes" ∷ bytes "--non-interactive" ∷ [])
        ∷ [])
    return (succeeded op.id none)

  -- `executeStateDelete`
  unfoldable pub execute_state_delete : Text → Op → Fields → Result → M Result
  execute_state_delete ws op state primary =
      delete_by_engine ws op state primary (delete_plugin_ref op.token op.package_ref)
