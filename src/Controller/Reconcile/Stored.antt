-- ===== src/Controller/Reconcile/Stored.antt =====
-- A deletion leaves the API server with the status in hand (internal/controller).
pub mod Whole
use doplane.Common.{
  ◌≡◌, refl, Text, Bool, true, false, not, ◌&&◌, Option, none, some, List, [], ◌∷◌, if◌then◌else◌,
  text_eq, Bool-cases, inl, inr,
}
use doplane.Json.{Json, Fields, end}
use doplane.Runnerops.Path.{is_empty}
use doplane.Pulumido.Runner.{RunError, is_not_found}
use doplane.Controller.Resource.{
  DoResource, DoResourceStatus, Document, absent, object, malformed, Reference, ready, synced_type,
  invalid_properties, invalid_values_from, schema_unavailable, unknown_resource_type,
  validation_failed, reconcile_paused, invalid_references, cyclic_reference, waiting_for_dependency,
  provider_not_found, provider_package_mismatch, resource_not_allowed, blocked_by_dependents,
}
use doplane.Controller.World.{
  World, Call, update_finalizer, event, provider_not_pinned, deleted, delete_failed, delete,
  delete_component,
}
use doplane.Controller.World as WorldNames
use doplane.Controller.Sync.{
  Requeue, Session, Outcome, Step, plain, api_failed, op_failed, of_run, call, settle, fail,
  requeue_with, after, set_condition, paused, persisting, mark_sync_failed,
}
use doplane.Controller.Graph.{detect_cycle}
use doplane.Controller.DeleteState.{delete_state}
use doplane.Controller.Deletion.{
  Blocking, unknown, dependents, blocked_retry, release, after_delete, delete_external_resource,
  tear_down, after_blocking, reconcile_delete, is_orphan,
}
use doplane.Controller.References.{
  References, resolved, invalid, after_resolving, unless_cyclic, with_references, apply_references,
  resolve_references, waiting_retry,
}
use doplane.Controller.Provider.{
  DoProviderSpec, Profile, no_profile, profile, vanished, unreadable, get_provider, checked,
  with_profile, resolve_provider, effective_package, token_allowed,
}
use doplane.Controller.Branches.{Meets}
use doplane.Controller.Stored.{
  stored, is_api_failure, InStep, EndsInStep, persisting-EndsInStep, mark_sync_failed-EndsInStep,
  settle-Meets,
}
use doplane.Controller.Stored.Resolved.{reconcile_resolved-Meets}
use doplane.Controller.Reconcile.{
  Surroundings, Validation, no_schema, unknown_type, violations, valid, with_validation,
  with_staged, stage_from, stage_secret_inputs, with_properties_of, reconcile_inputs, add_finalizer,
  reconcile_with, record_pause, reconcile,
}

-- An `if` ends well when both of its branches do.
pub if_Meets :
    {A : Type 0} (Q : A → Type 0) (b : Bool) (x y : A) → Q x → Q y → Q (if b then x else y)
if_Meets Q true x y p q = p
if_Meets Q false x y p q = q

module _ (w : World) (st : DoResourceStatus) where
  unfoldable pub Well : Step → Type 0
  Well step = Meets (InStep w st) (EndsInStep w st) step

  pub fail-Well : (s : Session) → EndsInStep w st (fail api_failed s)
  unfolding EndsInStep
  fail-Well s = λ h. cc

  release-Well : Well (release w)
  unfolding Well release InStep EndsInStep stored
  release-Well s h = elim (Bool-cases (w.api_fails (update_finalizer false ∷ s.trace))) [
    | inl e ↦ rw e (λ f. cc)
    | inr e ↦ rw e (λ f. h)
  ]

  after_delete-Well : (o : Option RunError) → Well (after_delete w o)
  unfolding Well after_delete InStep EndsInStep stored
  after_delete-Well none s h = release-Well (call (event deleted) s) h
  after_delete-Well (some e) s h = elim (Bool-cases (is_not_found e)) [
    | inl f ↦ rw f (release-Well s h)
    | inr f ↦ rw f (λ g. h)
  ]

  delete_external_resource-Well : (state : Option Text) → Well (delete_external_resource w state)
  unfolding Well delete_external_resource InStep stored
  delete_external_resource-Well none s h =
      after_delete-Well _ (call (delete s.res.status.id (delete_state s.res)) s) h
  delete_external_resource-Well (some state) s h =
      after_delete-Well _ (call (delete_component state) s) h

  tear_down-Well : Well (tear_down w)
  unfolding Well tear_down
  tear_down-Well s h =
      if_Meets (EndsInStep w st)
        (not (is_orphan s.res.spec.deletion_policy) && not (is_empty s.res.status.id)) _ _
        (delete_external_resource-Well s.res.status.engine_state s h) (release-Well s h)

  pub requeue-Well : (r : Requeue) → Well (requeue_with r)
  unfolding Well InStep EndsInStep
  requeue-Well r s h = λ _. h

  after_blocking-Well : (b : Blocking) → Well (after_blocking w b)
  unfolding Well after_blocking
  after_blocking-Well unknown s h = fail-Well s
  after_blocking-Well (dependents []) s h = tear_down-Well s h
  after_blocking-Well (dependents (d ∷ ds)) s h =
      persisting-EndsInStep w st (requeue_with (after blocked_retry))
        (requeue-Well (after blocked_retry)) _

  pub reconcile_delete-Well : (b : Blocking) → Well (reconcile_delete w b)
  unfolding Well reconcile_delete
  reconcile_delete-Well b s h =
      if_Meets (EndsInStep w st) s.res.has_finalizer _ _ (after_blocking-Well b s h)
        (settle-Meets w st s h)
