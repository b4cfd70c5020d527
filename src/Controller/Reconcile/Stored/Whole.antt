-- ===== src/Controller/Reconcile/Stored/Whole.antt =====
-- A whole reconcile leaves the API server with the status in hand (internal/controller).
use doplane.Common.{
  ◌≡◌, Bool, Text, true, false, not, Option, none, some, List, [], ◌∷◌, text_eq, Bool-cases, inl,
  inr,
}
use doplane.Json.{Fields, end}
use doplane.Controller.Resource.{
  DoResource, DoResourceStatus, Document, absent, object, malformed, Reference, invalid_properties,
  invalid_values_from, schema_unavailable, unknown_resource_type, validation_failed,
  invalid_references, cyclic_reference, provider_not_found, provider_package_mismatch,
  resource_not_allowed,
}
use doplane.Controller.World.{World, update_finalizer, event, provider_not_pinned}
use doplane.Controller.Sync.{Session, Step, plain, call, settle, after, paused}
use doplane.Controller.Graph.{detect_cycle}
use doplane.Controller.References.{
  References, resolved, invalid, after_resolving, unless_cyclic, with_references, apply_references,
  waiting_retry,
}
use doplane.Controller.Provider.{
  DoProviderSpec, Profile, no_profile, profile, vanished, unreadable, get_provider, checked,
  with_profile, resolve_provider, effective_package, token_allowed,
}
use doplane.Controller.Stored.{
  stored, is_api_failure, InStep, EndsInStep, persisting-EndsInStep, mark_sync_failed-EndsInStep,
  settle-Meets,
}
use doplane.Controller.Stored.Resolved.{reconcile_resolved-Meets}
use doplane.Controller.Reconcile.{
  Surroundings, Validation, no_schema, unknown_type, violations, valid, with_validation, with_hash,
  blocking_of, with_staged, stage_from, stage_secret_inputs, with_properties_of, reconcile_inputs,
  add_finalizer, reconcile_with, record_pause, reconcile,
}
use doplane.Controller.Reconcile.Stored.{
  if_Meets, Well, fail-Well, requeue-Well, reconcile_delete-Well,
}

module _ (w : World) (st : DoResourceStatus) (env : Surroundings) where
  with_hash-Well :
      (is_component : Bool) (props : Fields) (hash : Option Text)
      → Well w st (with_hash w env is_component props hash)
  unfolding Well InStep EndsInStep
  with_hash-Well is_component props none s h = λ f. h
  with_hash-Well is_component props (some hash) s h =
      unfold Well in reconcile_resolved-Meets w st is_component props hash s h

  with_validation-Well :
      (props : Fields) (v : Validation) → Well w st (with_validation w env props v)
  unfolding Well
  with_validation-Well props (no_schema e) s h =
      mark_sync_failed-EndsInStep w st schema_unavailable e true s
  with_validation-Well props unknown_type s h =
      mark_sync_failed-EndsInStep w st unknown_resource_type plain false s
  with_validation-Well props violations s h =
      mark_sync_failed-EndsInStep w st validation_failed plain false s
  with_validation-Well props (valid is_component) s h =
      with_hash-Well is_component props (env.hash_props s.res props) s h

  with_staged-Well : (pkg : Text) (o : Option Fields) → Well w st (with_staged w env pkg o)
  unfolding Well
  with_staged-Well pkg none s h = mark_sync_failed-EndsInStep w st invalid_values_from plain false s
  with_staged-Well pkg (some props) s h =
      with_validation-Well props (env.validate pkg s.res.spec.token props) s h

  stage_secret_inputs-Well :
      (pkg : Text) (props : Fields) → Well w st (stage_secret_inputs w env pkg props)
  unfolding Well stage_secret_inputs
  stage_secret_inputs-Well pkg props s h =
      with_staged-Well pkg (stage_from s.res.spec.values_from props) s h

  after_resolving-Well :
      (next : Fields → Step)
      → ((props : Fields) → Well w st (next props))
      → (r : Fields × References)
      → Well w st (after_resolving env.marshal env.output_exists env.read_source w next r)
  unfolding Well after_resolving
  after_resolving-Well next q (props, invalid e) s h =
      mark_sync_failed-EndsInStep w st invalid_references plain false s
  after_resolving-Well next q (props, resolved []) s h = q props s h
  after_resolving-Well next q (props, resolved (item ∷ waiting)) s h =
      persisting-EndsInStep w st _
        (unfold Well in
          requeue-Well w st (after (waiting_retry env.marshal env.output_exists env.read_source)))
        _

  unless_cyclic-Well :
      (next : Step)
      → Well w st next
      → (cycle : Option (List Text))
      → Well w st (unless_cyclic env.marshal env.output_exists env.read_source w next cycle)
  unfolding Well
  unless_cyclic-Well next q none s h = q s h
  unless_cyclic-Well next q (some cycle) s h =
      mark_sync_failed-EndsInStep w st cyclic_reference plain false s

  with_references-Well :
      (next : Fields → Step)
      → ((props : Fields) → Well w st (next props))
      → (props : Fields) (refs : List Reference)
      → Well w st (
          with_references env.marshal env.output_exists env.read_source w env.store next props refs)
  unfolding Well
  with_references-Well next q props [] s h = q props s h
  with_references-Well next q props (ref ∷ refs) s h =
      unless_cyclic-Well _ (after_resolving-Well next q _) (detect_cycle env.store s.res) s h

  apply_references-Well :
      (next : Fields → Step)
      → ((props : Fields) → Well w st (next props))
      → (props : Fields)
      → Well w st
          (apply_references env.marshal env.output_exists env.read_source w env.store next props)
  unfolding Well apply_references
  apply_references-Well next q props s h =
      with_references-Well next q props s.res.spec.references s h

  with_properties_of-Well :
      (pkg : Text) (properties : Document) → Well w st (with_properties_of w env pkg properties)
  unfolding Well
  with_properties_of-Well pkg malformed s h =
      mark_sync_failed-EndsInStep w st invalid_properties plain false s
  with_properties_of-Well pkg absent s h =
      apply_references-Well (stage_secret_inputs w env pkg) (stage_secret_inputs-Well pkg) end s h
  with_properties_of-Well pkg (object props) s h =
      apply_references-Well (stage_secret_inputs w env pkg) (stage_secret_inputs-Well pkg) props s h

  reconcile_inputs-Well : (pkg : Text) → Well w st (reconcile_inputs w env pkg)
  unfolding Well reconcile_inputs InStep stored
  reconcile_inputs-Well pkg s h = elim (Bool-cases (env.is_pinned pkg)) [
    | inl e ↦ rw e (with_properties_of-Well pkg s.res.spec.properties s h)
    | inr e ↦
        rw e
          (with_properties_of-Well pkg s.res.spec.properties (call (event provider_not_pinned) s) h)
  ]

  finalizer_added-Well :
      (next : Step) (s : Session)
      → Well w st next
      → InStep w st s
      → EndsInStep w st (add_finalizer w env next s)
  unfolding Well add_finalizer InStep stored
  finalizer_added-Well next s q h =
      let marked : DoResource = record (s.res) { has_finalizer = true } in
      let t = call (update_finalizer true) (record s { res = marked }) in
      if_Meets (EndsInStep w st) s.res.has_finalizer _ _ (q s h)
        (if_Meets (EndsInStep w st) (w.api_fails t.trace) _ _ (fail-Well w st t) (q t h))

  reconcile_with-Well :
      (credentials : Option Text) (pkg : Text) → Well w st (reconcile_with w env credentials pkg)
  unfolding Well reconcile_with
  reconcile_with-Well credentials pkg s h =
      if_Meets (EndsInStep w st) s.res.is_deleting _ _
        (reconcile_delete-Well w st (blocking_of env.listed s.res) s h)
        (finalizer_added-Well (reconcile_inputs w env pkg) s (reconcile_inputs-Well pkg) h)

  checked-Well :
      (spec : DoProviderSpec) (pkg : Text) → Well w st (checked w (reconcile_with w env) spec pkg)
  unfolding Well checked
  checked-Well spec pkg s h =
      if_Meets (EndsInStep w st) (not (text_eq pkg spec.package_ref)) _ _
        (mark_sync_failed-EndsInStep w st provider_package_mismatch plain false s)
        (if_Meets (EndsInStep w st) (not (token_allowed spec.allowed_resources s.res.spec.token)) _
          _ (mark_sync_failed-EndsInStep w st resource_not_allowed plain false s)
          (reconcile_with-Well spec.credentials_secret pkg s h))

  with_profile-Well : (p : Profile) → Well w st (with_profile w (reconcile_with w env) p)
  unfolding Well with_profile
  with_profile-Well unreadable s h = fail-Well w st s
  with_profile-Well no_profile s h = reconcile_with-Well none s.res.spec.package_ref s h
  with_profile-Well vanished s h =
      if_Meets (EndsInStep w st) s.res.is_deleting _ _
        (reconcile_with-Well none s.res.spec.package_ref s h)
        (mark_sync_failed-EndsInStep w st provider_not_found plain false s)
  with_profile-Well (profile spec) s h =
      if_Meets (EndsInStep w st) s.res.is_deleting _ _
        (reconcile_with-Well spec.credentials_secret (effective_package s.res spec) s h)
        (checked-Well spec (effective_package s.res spec) s h)

  record_pause-EndsInStep : (s : Session) → EndsInStep w st (record_pause w env s)
  unfolding record_pause
  record_pause-EndsInStep s = persisting-EndsInStep w st settle (settle-Meets w st) _

  reconcile-Well : Well w st (reconcile w env)
  unfolding Well reconcile resolve_provider
  reconcile-Well s h =
      if_Meets (EndsInStep w st) (paused s.res) _ _ (record_pause-EndsInStep s)
        (with_profile-Well (get_provider env.read_profile s.res.spec.provider_ref) s h)

-- No status is lost: if the API server had the status in hand before, then it has the status in hand
-- after a whole reconcile, on every branch of it, unless the reconcile ends with the error of a call
-- to the API server.
pub reconcile-stores :
    (w : World) (env : Surroundings) (st : DoResourceStatus) (s : Session)
    → stored w st s.trace ≡ s.res.status
    → is_api_failure (reconcile w env s).0.error ≡ false
    → stored w st (reconcile w env s).1.trace ≡ (reconcile w env s).1.res.status
unfolding Well InStep EndsInStep
reconcile-stores w env st s h = reconcile-Well w st env s h
