-- ===== src/Controller/Stored.antt =====
-- The status in hand and the one that the API server has after a reconcile (internal/controller).
pub mod Resolved
use doplane.Common.{
  ◌≡◌, refl, sym, ap, ◌∙◌, Text, text_eq, Bool, true, false, not, ◌&&◌, Option, none, some, List,
  [], ◌∷◌, if◌then◌else◌, Bool-cases, inl, inr, arith,
}
use doplane.Json.{Fields}
use doplane.Runnerops.Path.{is_empty}
use doplane.Runnerops.Spec.{secret_input_in_id, replacement_required}
use doplane.Pulumido.Runner.{RunError, is_not_found, is_already_exists, is_secret_input_in_id}
use doplane.Controller.Resource.{
  DoResource, DoResourceStatus, Reason, failure_code, create_failed, replace_failed, update_failed,
  values_from_unsupported,
}
use doplane.Controller.World.{
  Publication, published, unpublished, refused, World, Trace, Answer, done, failed, Call, create,
  delete, event, created, replaced, updated, orphaned_old_resource, drifted, persist_status,
  persist_external_name, publish_connection_secret, create_component, update_component,
}
use doplane.Controller.Sync.{
  Session, Outcome, Failure, api_failed, op_failed, Step, OpError, of_run, plain, call, settle,
  fail, persisting, publishing, after_publication, schedule_poll, secret_id_terminal, requeue_with,
  at_once, poll_interval, resync_interval, external_name, synced_resource, failed_resource,
  failure_reason, mark_synced, mark_sync_failed, persisting_external_name,
}
use doplane.Controller.Create.{after_create, create_external, reconcile_create}
use doplane.Controller.Replacement.{
  reconcile_replacement, after_first_create, replace_after_delete, after_conflict_delete,
  after_swap, delete_old, delete_error, note_orphan, protected, replacement_approved,
}
use doplane.Controller.DeleteState.{delete_state}
use doplane.Controller.Settled.{
  reconcile_external, recreate, drifted_resource, reconcile_resolved, reconcile_component,
  component_by_state, construct_component, after_create_component, after_update_component,
  has_values, with_engine_state,
}
use doplane.Controller.Branches.{Contract, Meets, reconcile_create-Meets, reconcile_external-Meets}

-- The status that the API server has after the calls, when it had `st` before them.
unfoldable pub stored : World → DoResourceStatus → Trace → DoResourceStatus
stored w st [] = st
stored w st (persist_status x ∷ t) =
    let before = stored w st t in if w.api_fails (persist_status x ∷ t) then before else x
stored w st (c ∷ t) = stored w st t

abbrev pub is_api_failure : Option Failure → Bool
is_api_failure (some api_failed) = true
is_api_failure f = false

module _ (w : World) (st : DoResourceStatus) where
  unfoldable pub InStep : Session → Type 0
  InStep s = stored w st s.trace ≡ s.res.status

  unfoldable pub EndsInStep : Outcome × Session → Type 0
  EndsInStep r = is_api_failure r.0.error ≡ false → stored w st r.1.trace ≡ r.1.res.status

  -- Behind a status write the two agree, whatever was there before.
  pub persisting-EndsInStep :
      (next : Step)
      → Meets InStep EndsInStep next
      → (s : Session) → EndsInStep (persisting w next s)
  unfolding InStep EndsInStep stored
  persisting-EndsInStep next q s =
      elim (Bool-cases (w.api_fails (persist_status s.res.status ∷ s.trace))) [
        | inl e ↦ rw e (λ h. cc)
        | inr e ↦ rw e (q (call (persist_status s.res.status) s) (rw e refl))
      ]

  schedule_poll-Meets : Meets InStep EndsInStep (schedule_poll w)
  unfolding InStep EndsInStep stored
  schedule_poll-Meets s h = elim (Bool-cases (poll_interval w s.res resync_interval).1) [
    | inl e ↦ rw e (λ _. h)
    | inr e ↦ rw e (λ _. h)
  ]

  publishing-Meets : Meets InStep EndsInStep (publishing w (schedule_poll w))
  unfolding InStep EndsInStep stored
  publishing-Meets s h = ended (w.publication (publish_connection_secret ∷ s.trace))
    where
      ended :
          (p : Publication)
          → EndsInStep (after_publication w (schedule_poll w) p (call publish_connection_secret s))
      ended published = schedule_poll-Meets (call publish_connection_secret s) h
      ended unpublished = λ f. cc
      ended refused = λ f. h

  pub mark_synced-EndsInStep :
      (id : Text) (state : Option Fields) (hash : Text) (s : Session)
      → EndsInStep (mark_synced w id state hash s)
  unfolding mark_synced
  mark_synced-EndsInStep id state hash s =
      persisting-EndsInStep (publishing w (schedule_poll w)) publishing-Meets
        (record s { res = synced_resource w id state hash s.res })

  retrying-Meets :
      (e : OpError) (retry : Bool)
      → Meets InStep EndsInStep (if retry then fail (op_failed e) else settle)
  unfolding InStep EndsInStep
  retrying-Meets e true s h = λ _. h
  retrying-Meets e false s h = λ _. h

  pub mark_sync_failed-EndsInStep :
      (reason : Reason) (e : OpError) (retry : Bool) (s : Session)
      → EndsInStep (mark_sync_failed w reason e retry s)
  unfolding mark_sync_failed
  mark_sync_failed-EndsInStep reason e retry s =
      persisting-EndsInStep (if retry then fail (op_failed e) else settle) (retrying-Meets e retry)
        _

  recreate-EndsInStep : (s : Session) → EndsInStep (recreate w s)
  unfolding recreate
  recreate-EndsInStep s =
      persisting-EndsInStep (requeue_with at_once) (unfold InStep EndsInStep in λ t h _. h) _

  pub persisting_external_name-Meets :
      (name : Text) (next : Step)
      → ((s : Session) → EndsInStep (next s))
      → (s : Session) → EndsInStep (persisting_external_name w name next s)
  unfolding persisting_external_name EndsInStep
  persisting_external_name-Meets name next q s =
      elim (Bool-cases (text_eq (external_name s.res) name)) [
        | inl e ↦ rw e (q s)
        | inr e ↦ elim (Bool-cases (w.api_fails (persist_external_name name ∷ s.trace))) [
          | inl g ↦ rw (e, g) (λ f. cc)
          | inr g ↦ rw (e, g) (q _)
        ]
      ]

  pub storing_contract : Contract w InStep EndsInStep
  unfolding InStep stored
  storing_contract = record {
    stays_event = λ r s h. h;
    stays_read = λ id s h. h;
    stays_patch = λ id props s h. h;
    ends_synced = λ id state hash s h. mark_synced-EndsInStep id state hash s;
    ends_failed = λ reason e retry s h. mark_sync_failed-EndsInStep reason e retry s;
    ends_recreate = λ s h. recreate-EndsInStep s;
  }

  pub settle-Meets : Meets InStep EndsInStep settle
  unfolding InStep EndsInStep
  settle-Meets s h = λ _. h
