-- ===== src/Controller/Leaks.antt =====
-- What internal/controller records when a create put a secret input's value into an external id.
pub mod Recorded
use doplane.Common.{
  ℕ, ◌≡◌, refl, ap, ◌∙◌, if◌then◌else◌, Text, text_eq, Bool, true, false, not, ◌&&◌, Option, none,
  some, List, [], ◌∷◌, Bool-cases, Option-cases, inl, inr, arith, ◌==◌, ==_iff,
}
use doplane.Json.{Fields}
use doplane.Runnerops.Path.{is_empty}
use doplane.Runnerops.Spec.{Code, secret_input_in_id, replacement_required}
use doplane.Pulumido.Runner.{
  RunError, code_of, is_not_found, is_already_exists, is_secret_input_in_id,
  is_code_secret_input_in_id,
}
use doplane.Controller.Resource.{
  DoResource, Reason, failure_code, Condition, synced_type, ready, create_failed, replace_failed,
}
use doplane.Controller.World.{
  World, ConditionLaws, Trace, Answer, done, failed, Call, create, delete, persist_status, event,
  sync_failed, created, replaced, orphaned_old_resource,
}
use doplane.Controller.Sync.{
  Session, Step, OpError, of_run, plain, call, settle, fail, persisting, secret_id_terminal,
  failed_resource, mark_synced, mark_sync_failed, op_failed, failure_reason, coded_reason,
}
use doplane.Controller.Create.{after_create, create_external}
use doplane.Controller.Calls.{
  persisting-res, Ignores, Quiet, mark_synced-Quiet, mark_sync_failed-Quiet,
}

abbrev pub is_leak : Answer (Text × Option Fields) → Bool
is_leak (done r) = false
is_leak (failed e) = is_secret_input_in_id e

-- Whether the last Create was refused because of a secret in the id of what it made.
unfoldable pub leaked : World → Trace → Bool
leaked w [] = false
leaked w (create props ∷ t) = is_leak (w.run_create (create props ∷ t))
leaked w (c ∷ t) = leaked w t

coded_leak : (o : Option Code) → is_code_secret_input_in_id o ≡ true → o ≡ some secret_input_in_id
coded_leak none h = cc
coded_leak (some c) h = ap some (code c h)
  where
    code : (c : Code) → is_code_secret_input_in_id (some c) ≡ true → c ≡ secret_input_in_id
    code secret_input_in_id h = refl
    code c h = cc

module _ (w : World) (laws : ConditionLaws w) where
  -- The Synced condition is found behind the Ready condition that may follow it.
  found_failure :
      (res : DoResource) (reason : Reason)
      → w.find_status_condition (failed_resource w reason res).status.conditions synced_type
        ≡ some (record {
          type = synced_type;
          status = false;
          reason = reason;
          observed_generation = res.generation;
        })
  unfolding failed_resource
  found_failure res reason = elim (Bool-cases (is_empty res.status.id)) [
    | inl e ↦ rw e (laws.find-set_other _ _ synced_type refl ∙ laws.find-set_self _ _)
    | inr e ↦ rw e (laws.find-set_self _ _)
  ]

  failed_resource-generation :
      (res : DoResource) (reason : Reason)
      → (failed_resource w reason res).generation ≡ res.generation
  unfolding failed_resource
  failed_resource-generation res reason = elim (Bool-cases (is_empty res.status.id)) [
    | inl e ↦ rw e refl
    | inr e ↦ rw e refl
  ]

  failed_resource-terminal :
      (res : DoResource)
      → secret_id_terminal w (failed_resource w (failure_code secret_input_in_id) res) ≡ true
  unfolding secret_id_terminal
  failed_resource-terminal res =
      rw
        (
          found_failure res (failure_code secret_input_in_id),
          failed_resource-generation res (failure_code secret_input_in_id),
        )
        ((==_iff res.generation res.generation).1 refl)

  retrying-res :
      (e : OpError) (retry : Bool) (t : Session)
      → ((if retry then fail (op_failed e) else settle) t).1.res ≡ t.res
  retrying-res e true t = refl
  retrying-res e false t = refl

  pub mark_sync_failed-res :
      (reason : Reason) (e : OpError) (retry : Bool) (s : Session)
      → (mark_sync_failed w reason e retry s).1.res
        ≡ failed_resource w (failure_reason reason e) s.res
  unfolding mark_sync_failed
  mark_sync_failed-res reason e retry s =
      let r = failure_reason reason e in
      persisting-res w (if retry then fail (op_failed e) else settle)
        (record (call (event (sync_failed r)) s) { res = failed_resource w r s.res })
        (retrying-res e retry)

  -- Whatever reason the caller gives, the code of a leak is the one that is recorded.
  pub mark_sync_failed-terminal :
      (reason : Reason) (e : RunError) (retry : Bool) (s : Session)
      → is_secret_input_in_id e ≡ true
      → secret_id_terminal w (mark_sync_failed w reason (of_run e) retry s).1.res ≡ true
  mark_sync_failed-terminal reason e retry s h =
      rw (mark_sync_failed-res reason (of_run e) retry s, coded_leak (code_of e) h)
        (failed_resource-terminal s.res)

pub leaked-Ignores : (w : World) → Ignores (leaked w)
unfolding leaked
leaked-Ignores w = record {
  of_event = λ r t. refl;
  of_status = λ st t. refl;
  of_name = λ name t. refl;
  of_publication = λ t. refl;
}
