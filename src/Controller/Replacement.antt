-- ===== src/Controller/Replacement.antt =====
-- internal/controller/replacement.go: an update that cannot be applied in place.
use doplane.Common.{
  Text, bytes, text_eq, Bool, true, false, not, Option, none, some, ◌&&◌, if◌then◌else◌, decimal,
}
use doplane.Json.{Fields}
use doplane.Runnerops.Spec.{secret_input_in_id, replacement_required}
use doplane.Pulumido.Runner.{RunError, is_not_found, is_already_exists, is_secret_input_in_id}
use doplane.Controller.Resource.{DoResource, failure_code, replace_failed, annotation}
use doplane.Controller.World.{
  World, Answer, done, failed, create, delete, event, replaced, orphaned_old_resource,
}
use doplane.Controller.Sync.{
  Session, Step, of_run, call, settle, secret_id_terminal, mark_synced, mark_sync_failed,
  persisting_external_name,
}
use doplane.Controller.DeleteState.{delete_state}

abbrev pub ann_approve_replacement : Text
ann_approve_replacement = bytes "do.pulumi.com/approve-replacement"

-- `replacementApproved`; a generation is never negative.
unfoldable pub replacement_approved : DoResource → Bool
replacement_approved res =
    text_eq (annotation res.annotations ann_approve_replacement) (decimal res.generation)

abbrev pub protect_or_default : Option Bool → Bool
protect_or_default none = true
protect_or_default (some b) = b

-- `protected`
unfoldable pub protected : DoResource → Bool
protected res = protect_or_default res.spec.protect

-- A Delete's error, unless it says that there was nothing to delete.
unfoldable pub delete_error : Option RunError → Option RunError
delete_error none = none
delete_error (some e) = if is_not_found e then none else some e

module _ (w : World) where
  -- The old resource's Delete once the new one is recorded.
  abbrev pub note_orphan : Option RunError → Session → Session
  note_orphan none s = s
  note_orphan (some e) s = call (event orphaned_old_resource) s

  unfoldable pub delete_old : Text → Text → Option Fields → Session → Session
  delete_old id old_id old_state s =
      if text_eq id old_id
      then s
      else let t = call (delete old_id old_state) s in
        note_orphan (delete_error (w.run_delete t.trace)) t

  -- `reconcileReplacement` from the answer to its last Create on.
  unfoldable pub after_swap : Text → Text → Option Fields → Answer (Text × Option Fields) → Step
  after_swap hash old_id old_state (done (id, state)) s =
      persisting_external_name w id
        (λ t.
          mark_synced w id state hash (call (event replaced) (delete_old id old_id old_state t)))
        s
  after_swap hash old_id old_state (failed e) s =
      if is_secret_input_in_id e
      then mark_sync_failed w (failure_code secret_input_in_id) (of_run e) false s
      else mark_sync_failed w replace_failed (of_run e) true s

  -- The second Create, once the old resource is deleted.
  unfoldable pub after_conflict_delete :
      Fields → Text → Text → Option Fields → Option RunError → Step
  after_conflict_delete props hash old_id old_state (some e) s =
      mark_sync_failed w replace_failed (of_run e) true s
  after_conflict_delete props hash old_id old_state none s =
      let t = call (create props) s in after_swap hash old_id old_state (w.run_create t.trace) t

  -- Identity conflict: delete before create.
  unfoldable pub replace_after_delete : Fields → Text → Text → Option Fields → Step
  replace_after_delete props hash old_id old_state s =
      let t = call (delete old_id old_state) s in
      after_conflict_delete props hash old_id old_state (delete_error (w.run_delete t.trace)) t

  -- What the first Create's answer leads to.
  unfoldable pub after_first_create :
      Fields → Text → Text → Option Fields → Answer (Text × Option Fields) → Step
  after_first_create props hash old_id old_state (done r) s =
      after_swap hash old_id old_state (done r) s
  after_first_create props hash old_id old_state (failed e) s =
      if is_already_exists e
      then replace_after_delete props hash old_id old_state s
      else after_swap hash old_id old_state (failed e) s

  -- `reconcileReplacement` for a patch that failed with `e`.
  unfoldable pub reconcile_replacement : Fields → Text → RunError → Step
  reconcile_replacement props hash e s =
      if protected s.res && not (replacement_approved s.res)
      then mark_sync_failed w (failure_code replacement_required) (of_run e) false s
      else if secret_id_terminal w s.res
      then settle s
      else let t = call (create props) s in
        after_first_create props hash s.res.status.id (delete_state s.res) (w.run_create t.trace) t
