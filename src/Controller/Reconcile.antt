-- ===== src/Controller/Reconcile.antt =====
-- internal/controller/doresource_controller.go and secret_inputs.go: Reconcile as a whole.
pub mod Stored
pub mod Suspended
pub mod Tests
use doplane.Common.{
  Text, bytes, Bool, true, false, not, Option, none, some, List, [], ◌∷◌, if◌then◌else◌,
}
use doplane.Json.{Json, string, Fields, end}
use doplane.Runnerops.Path.Access.{AccessError, set_path}
use doplane.Controller.Resource.{
  DoResource, Document, absent, object, malformed, ProviderKind, ValueFrom, synced_type,
  reconcile_paused, invalid_properties, invalid_values_from, schema_unavailable,
  unknown_resource_type, validation_failed,
}
use doplane.Controller.World.{World, update_finalizer, event, provider_not_pinned}
use doplane.Controller.Sync.{
  Session, Step, OpError, op_failed, plain, api_failed, call, settle, fail, set_condition, paused,
  persisting, mark_sync_failed,
}
use doplane.Controller.Settled.{reconcile_resolved}
use doplane.Controller.Deletion.{Blocking, unknown, dependents, reconcile_delete}
use doplane.Controller.Teardown.{DoUsage, blocking_dependents}
use doplane.Controller.References.{SourceRead, apply_references}
use doplane.Controller.Provider.{ProfileRead, resolve_provider}

-- The outcome of fetching the schema of a type and of validating the inputs against it.
pub data Validation : Type 0 where
  no_schema : OpError → Validation
  unknown_type : Validation
  violations : Validation
  valid : (is_component : Bool) → Validation

-- What a reconcile reads of the cluster, the registry and the libraries it calls.
pub record Surroundings : Type 0 where
  pub read_profile : ProviderKind → Text → ProfileRead
  pub is_pinned : Text → Bool
  pub store : List DoResource
  pub read_source : Text → SourceRead
  pub output_exists : DoResource → Text → Bool
  pub marshal : Json → Text
  pub validate : Text → Text → Fields → Validation
  -- hashProps and mixSecretVersions; `none` is an error of the first.
  pub hash_props : DoResource → Fields → Option Text
  -- The resources and usages that blockingDependents lists; `none` is an error.
  pub listed : Option (List DoResource × List DoUsage)

-- `blockingDependents`
abbrev pub blocking_of : Option (List DoResource × List DoUsage) → DoResource → Blocking
blocking_of none res = unknown
blocking_of (some (store, usages)) res = dependents (blocking_dependents store usages res)

abbrev pub secret_input_placeholder : Text
secret_input_placeholder = bytes "doplane:secret-input"

-- The loop of `stageSecretInputs`; `none` is a path that cannot be set.
abbrev pub staged_or_error : (Fields → Option Fields) → Fields × Option AccessError → Option Fields
staged_or_error next (props, none) = next props
staged_or_error next (props, some e) = none

unfoldable pub stage_from : List ValueFrom → Fields → Option Fields
stage_from [] props = some props
stage_from (v ∷ rest) props =
    staged_or_error (stage_from rest) (set_path props v.to_path (string secret_input_placeholder))

module _ (w : World) (env : Surroundings) where
  -- The hash and what follows it.
  abbrev pub with_hash : Bool → Fields → Option Text → Step
  with_hash is_component props none s = fail (op_failed plain) s
  with_hash is_component props (some hash) s = reconcile_resolved w is_component props hash s

  -- The schema and what follows it. The error of an unreadable schema may carry the runner's code.
  abbrev pub with_validation : Fields → Validation → Step
  with_validation props (no_schema e) s = mark_sync_failed w schema_unavailable e true s
  with_validation props unknown_type s = mark_sync_failed w unknown_resource_type plain false s
  with_validation props violations s = mark_sync_failed w validation_failed plain false s
  with_validation props (valid is_component) s =
      with_hash is_component props (env.hash_props s.res props) s

  -- `stageSecretInputs` and what follows it.
  abbrev pub with_staged : Text → Option Fields → Step
  with_staged pkg none s = mark_sync_failed w invalid_values_from plain false s
  with_staged pkg (some props) s = with_validation props (env.validate pkg s.res.spec.token props) s

  unfoldable pub stage_secret_inputs : Text → Fields → Step
  stage_secret_inputs pkg props s = with_staged pkg (stage_from s.res.spec.values_from props) s

  abbrev pub with_properties_of : Text → Document → Step
  with_properties_of pkg malformed s = mark_sync_failed w invalid_properties plain false s
  with_properties_of pkg absent s =
      apply_references env.marshal env.output_exists env.read_source w env.store
        (stage_secret_inputs pkg) end s
  with_properties_of pkg (object props) s =
      apply_references env.marshal env.output_exists env.read_source w env.store
        (stage_secret_inputs pkg) props s

  -- The event for a package without a version, and the decoded properties.
  unfoldable pub reconcile_inputs : Text → Step
  reconcile_inputs pkg s =
      let t = if env.is_pinned pkg then s else call (event provider_not_pinned) s in
      with_properties_of pkg s.res.spec.properties t

  -- The finalizer.
  unfoldable pub add_finalizer : Step → Step
  add_finalizer next s =
      if s.res.has_finalizer
      then next s
      else let marked : DoResource = record (s.res) { has_finalizer = true } in
        let t = call (update_finalizer true) (record s { res = marked }) in
        if w.api_fails t.trace then fail api_failed t else next t

  -- What follows resolveProvider. The credentials Secret goes to the runner only.
  unfoldable pub reconcile_with : Option Text → Text → Step
  reconcile_with credentials pkg s =
      if s.res.is_deleting
      then reconcile_delete w (blocking_of env.listed s.res) s
      else add_finalizer (reconcile_inputs pkg) s

  unfoldable pub record_pause : Step
  record_pause s =
      persisting w settle
        (record s { res = set_condition w s.res synced_type false reconcile_paused })

  -- `Reconcile`, once the object is read.
  unfoldable pub reconcile : Step
  reconcile s =
      if paused s.res then record_pause s else resolve_provider w reconcile_with env.read_profile s
