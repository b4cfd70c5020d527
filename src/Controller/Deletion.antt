-- ===== src/Controller/Deletion.antt =====
-- internal/controller/doresource_controller.go: reconcileDelete.
pub mod Released
pub mod Waiting
use doplane.Common.{
  ℕ, Text, Bool, true, false, not, Option, none, some, List, [], ◌∷◌, if◌then◌else◌, ◌&&◌,
}
use doplane.Runnerops.Path.{is_empty}
use doplane.Pulumido.Runner.{RunError, is_not_found}
use doplane.Controller.Resource.{
  DoResource, DeletionPolicy, delete_external, orphan, ready, blocked_by_dependents,
}
use doplane.Controller.World.{
  World, EventReason, delete, delete_component, update_finalizer, event, deleted, delete_failed,
}
use doplane.Controller.World as WorldNames
use doplane.Controller.Sync.{
  Step, settle, fail, requeue_with, after, api_failed, op_failed, of_run, call, set_condition,
  persisting,
}
use doplane.Controller.Teardown.{Blocker}
use doplane.Controller.DeleteState.{delete_state}

-- The answer of `blockingDependents`: the list, or an error of the API server.
pub data Blocking : Type 0 where
  unknown : Blocking
  dependents : List Blocker → Blocking

abbrev pub is_orphan : DeletionPolicy → Bool
is_orphan orphan = true
is_orphan delete_external = false

-- 15 seconds
abbrev pub blocked_retry : ℕ
blocked_retry = 15000000000

module _ (w : World) where
  -- RemoveFinalizer and the Update; an object that is gone is no error, which `api_fails` says.
  unfoldable pub release : Step
  release s =
      let released : DoResource = record (s.res) { has_finalizer = false } in
      let t = call (update_finalizer false) (record s { res = released }) in
      if w.api_fails t.trace then fail api_failed t else settle t

  -- From the answer of the runner on.
  unfoldable pub after_delete : Option RunError → Step
  after_delete none s = release (call (event deleted) s)
  after_delete (some e) s =
      if is_not_found e
      then release s
      else fail (op_failed (of_run e)) (call (event delete_failed) s)

  unfoldable pub delete_external_resource : Option Text → Step
  delete_external_resource (some state) s =
      let t = call (delete_component state) s in after_delete (w.run_delete_component t.trace) t
  delete_external_resource none s =
      let t = call (delete s.res.status.id (delete_state s.res)) s in
      after_delete (w.run_delete t.trace) t

  -- `reconcileDelete` once nothing blocks it.
  unfoldable pub tear_down : Step
  tear_down s =
      if not (is_orphan s.res.spec.deletion_policy) && not (is_empty s.res.status.id)
      then delete_external_resource s.res.status.engine_state s
      else release s

  unfoldable pub after_blocking : Blocking → Step
  after_blocking unknown s = fail api_failed s
  after_blocking (dependents []) s = tear_down s
  after_blocking (dependents (d ∷ ds)) s = persisting w (requeue_with (after blocked_retry)) (
      call (event WorldNames.blocked_by_dependents)
        (record s { res = set_condition w s.res ready false blocked_by_dependents }))

  -- `reconcileDelete`; `blocking` is what `blockingDependents` answers.
  unfoldable pub reconcile_delete : Blocking → Step
  reconcile_delete blocking s = if s.res.has_finalizer then after_blocking blocking s else settle s
