-- ===== src/Controller/Settled.antt =====
-- internal/controller/doresource_controller.go: the last part of Reconcile, once the inputs are
-- resolved and validated, and reconcileComponent.
use doplane.Common.{
  Text, text_eq, Bool, true, false, Option, none, some, List, [], ◌∷◌, if◌then◌else◌,
}
use doplane.Json.{Fields}
use doplane.Runnerops.Path.{is_empty}
use doplane.Pulumido.Runner.{is_not_found, is_read_not_supported, is_replacement_required}
use doplane.Controller.Resource.{
  DoResource, absent, ready, missing, update_not_supported, update_failed, read_failed,
  create_failed, values_from_unsupported, ValueFrom,
}
use doplane.Controller.World.{
  World, Answer, done, failed, patch, read, event, drifted, updated, created, create_component,
  update_component,
}
use doplane.Controller.Sync.{
  Session, Step, at_once, requeue_with, of_run, plain, call, set_condition, persisting, mark_synced,
  mark_sync_failed,
}
use doplane.Controller.Create.{reconcile_create}
use doplane.Controller.Replacement.{reconcile_replacement}

module _ (w : World) where
  -- The status without the external resource that is gone.
  unfoldable pub drifted_resource : DoResource → DoResource
  drifted_resource res =
      let cleared : DoResource = record res {
        status = record (res.status) { id = []; outputs = absent; applied_hash = [] };
      } in
      set_condition w cleared ready false missing

  -- The external resource vanished: the next reconcile creates it again.
  unfoldable pub recreate : Step
  recreate s =
      persisting w (requeue_with at_once)
        (record (call (event drifted) s) { res = drifted_resource s.res })

  -- Reconcile from the answer to its Patch on.
  unfoldable pub after_patch : Fields → Text → Answer (Option Fields) → Step
  after_patch props hash (done state) s =
      mark_synced w s.res.status.id state hash (call (event updated) s)
  after_patch props hash (failed e) s =
      if is_replacement_required e
      then reconcile_replacement w props hash e s
      else if is_read_not_supported e
      then mark_sync_failed w update_not_supported plain false s
      else if is_not_found e
      then recreate s
      else mark_sync_failed w update_failed (of_run e) true s

  -- Reconcile from the answer to its drift Read on.
  unfoldable pub after_read : Text → Answer (Option Fields) → Step
  after_read hash (done state) s = mark_synced w s.res.status.id state hash s
  after_read hash (failed e) s =
      if is_read_not_supported e
      then mark_synced w s.res.status.id none hash s
      else if is_not_found e
      then recreate s
      else mark_sync_failed w read_failed (of_run e) true s

  unfoldable pub read_external : Text → Step
  read_external hash s =
      let t = call (read s.res.status.id) s in after_read hash (w.run_read t.trace) t

  unfoldable pub update_external : Fields → Text → Step
  update_external props hash s =
      let t = call (patch s.res.status.id props) s in after_patch props hash (w.run_patch t.trace) t

  -- The last switch of `Reconcile`.
  unfoldable pub reconcile_external : Fields → Text → Step
  reconcile_external props hash s =
      if is_empty s.res.status.id
      then reconcile_create w props hash s
      else if text_eq s.res.status.applied_hash hash
      then read_external hash s
      else update_external props hash s

  abbrev pub with_engine_state : Text → Session → Session
  with_engine_state state s = record s {
    res = record (s.res) { status = record (s.res.status) { engine_state = some state } };
  }

  unfoldable pub after_create_component : Text → Answer (Text × Option Fields × Text) → Step
  after_create_component hash (done (id, outputs, state)) s =
      mark_synced w id outputs hash (with_engine_state state (call (event created) s))
  after_create_component hash (failed e) s = mark_sync_failed w create_failed (of_run e) true s

  unfoldable pub after_update_component : Text → Answer (Option Fields × Text) → Step
  after_update_component hash (done (outputs, state)) s =
      mark_synced w s.res.status.id outputs hash (with_engine_state state (call (event updated) s))
  after_update_component hash (failed e) s = mark_sync_failed w update_failed (of_run e) true s

  unfoldable pub construct_component : Fields → Text → Step
  construct_component props hash s =
      let t = call (create_component props) s in
      after_create_component hash (w.run_create_component t.trace) t

  -- `reconcileComponent` by the recorded checkpoint.
  unfoldable pub component_by_state : Fields → Text → Option Text → Step
  component_by_state props hash none s = construct_component props hash s
  component_by_state props hash (some state) s =
      if is_empty s.res.status.id
      then construct_component props hash s
      else if text_eq s.res.status.applied_hash hash
      then mark_synced w s.res.status.id none hash s
      else let t = call (update_component props state) s in
        after_update_component hash (w.run_update_component t.trace) t

  unfoldable pub reconcile_component : Fields → Text → Step
  reconcile_component props hash s = component_by_state props hash s.res.status.engine_state s

  abbrev pub has_values : List ValueFrom → Bool
  has_values [] = false
  has_values (v ∷ rest) = true

  -- `Reconcile` once the applied hash is known; the schema says whether the type is a component.
  unfoldable pub reconcile_resolved : Bool → Fields → Text → Step
  reconcile_resolved is_component props hash s =
      if is_component
      then (if has_values s.res.spec.values_from
          then mark_sync_failed w values_from_unsupported plain false s
          else reconcile_component props hash s)
      else reconcile_external props hash s
