-- ===== src/Controller/Stored/Resolved.antt =====
-- Every branch of a reconcile leaves the API server with the status in hand (internal/controller).
use doplane.Common.{
  Text, text_eq, Bool, true, false, not, ◌&&◌, Option, none, some, if◌then◌else◌, Bool-cases, inl,
  inr,
}
use doplane.Json.{Fields}
use doplane.Runnerops.Path.{is_empty}
use doplane.Runnerops.Spec.{secret_input_in_id, replacement_required}
use doplane.Pulumido.Runner.{RunError, is_already_exists, is_secret_input_in_id}
use doplane.Controller.Resource.{
  DoResourceStatus, Reason, failure_code, create_failed, replace_failed, update_failed,
  values_from_unsupported,
}
use doplane.Controller.World.{
  World, Answer, done, failed, create, delete, create_component, update_component,
}
use doplane.Controller.Sync.{Session, of_run, plain, call, secret_id_terminal, mark_sync_failed}
use doplane.Controller.Create.{after_create, create_external}
use doplane.Controller.Replacement.{
  reconcile_replacement, after_first_create, replace_after_delete, after_conflict_delete,
  after_swap, protected, replacement_approved,
}
use doplane.Controller.DeleteState.{delete_state}
use doplane.Controller.Settled.{
  reconcile_external, reconcile_resolved, reconcile_component, component_by_state,
  construct_component, after_create_component, after_update_component, has_values,
}
use doplane.Controller.Branches.{Meets, reconcile_create-Meets, reconcile_external-Meets}
use doplane.Controller.Stored.{
  InStep, EndsInStep, mark_synced-EndsInStep, mark_sync_failed-EndsInStep,
  persisting_external_name-Meets, storing_contract, settle-Meets,
}

module _ (w : World) (st : DoResourceStatus) where
  after_failure :
      (reason : Reason) (e : RunError) (s : Session)
      → EndsInStep w st (
          if is_secret_input_in_id e
          then mark_sync_failed w (failure_code secret_input_in_id) (of_run e) false s
          else mark_sync_failed w reason (of_run e) true s)
  after_failure reason e s = elim (Bool-cases (is_secret_input_in_id e)) [
    | inl f ↦
        rw f (mark_sync_failed-EndsInStep w st (failure_code secret_input_in_id) (of_run e) false s)
    | inr f ↦ rw f (mark_sync_failed-EndsInStep w st reason (of_run e) true s)
  ]

  after_create-EndsInStep :
      (hash : Text) (a : Answer (Text × Option Fields)) (s : Session)
      → EndsInStep w st (after_create w hash a s)
  unfolding after_create
  after_create-EndsInStep hash (done (id, state)) s =
      persisting_external_name-Meets w st id _ (λ t. mark_synced-EndsInStep w st id state hash _) s
  after_create-EndsInStep hash (failed e) s = after_failure create_failed e s

  create_external-Meets :
      (props : Fields) (hash : Text)
      → Meets (InStep w st) (EndsInStep w st) (create_external w props hash)
  unfolding create_external
  create_external-Meets props hash s h = elim (Bool-cases (secret_id_terminal w s.res)) [
    | inl e ↦ rw e (settle-Meets w st s h)
    | inr e ↦ rw e (after_create-EndsInStep hash _ (call (create props) s))
  ]

  after_swap-EndsInStep :
      (hash old_id : Text) (old_state : Option Fields) (a : Answer (Text × Option Fields))
      → (s : Session) → EndsInStep w st (after_swap w hash old_id old_state a s)
  unfolding after_swap
  after_swap-EndsInStep hash old_id old_state (done (id, state)) s =
      persisting_external_name-Meets w st id _ (λ t. mark_synced-EndsInStep w st id state hash _) s
  after_swap-EndsInStep hash old_id old_state (failed e) s = after_failure replace_failed e s

  after_conflict_delete-EndsInStep :
      (props : Fields) (hash old_id : Text) (old_state : Option Fields) (o : Option RunError)
      → (s : Session) → EndsInStep w st (after_conflict_delete w props hash old_id old_state o s)
  unfolding after_conflict_delete
  after_conflict_delete-EndsInStep props hash old_id old_state (some e) s =
      mark_sync_failed-EndsInStep w st replace_failed (of_run e) true s
  after_conflict_delete-EndsInStep props hash old_id old_state none s =
      after_swap-EndsInStep hash old_id old_state _ (call (create props) s)

  after_first_create-EndsInStep :
      (props : Fields) (hash old_id : Text) (old_state : Option Fields)
      → (a : Answer (Text × Option Fields)) (s : Session)
      → EndsInStep w st (after_first_create w props hash old_id old_state a s)
  unfolding after_first_create replace_after_delete
  after_first_create-EndsInStep props hash old_id old_state (done r) s =
      after_swap-EndsInStep hash old_id old_state (done r) s
  after_first_create-EndsInStep props hash old_id old_state (failed e) s =
      elim (Bool-cases (is_already_exists e)) [
        | inl f ↦ rw f (
            after_conflict_delete-EndsInStep props hash old_id old_state _
              (call (delete old_id old_state) s))
        | inr f ↦ rw f (after_swap-EndsInStep hash old_id old_state (failed e) s)
      ]

  reconcile_replacement-Meets :
      (props : Fields) (hash : Text) (e : RunError)
      → Meets (InStep w st) (EndsInStep w st) (reconcile_replacement w props hash e)
  unfolding reconcile_replacement
  reconcile_replacement-Meets props hash e s h =
      elim (Bool-cases (protected s.res && not (replacement_approved s.res))) [
        | inl f ↦ rw f (
            mark_sync_failed-EndsInStep w st (failure_code replacement_required) (of_run e) false s)
        | inr f ↦ elim (Bool-cases (secret_id_terminal w s.res)) [
          | inl g ↦ rw (f, g) (settle-Meets w st s h)
          | inr g ↦
              rw (f, g)
                (after_first_create-EndsInStep props hash s.res.status.id (delete_state s.res) _
                  (call (create props) s))
        ]
      ]

  reconcile_external-EndsInStep :
      (props : Fields) (hash : Text)
      → Meets (InStep w st) (EndsInStep w st) (reconcile_external w props hash)
  reconcile_external-EndsInStep props hash =
      reconcile_external-Meets (storing_contract w st) props hash
        (λ t _.
          reconcile_create-Meets (storing_contract w st) props hash
            (create_external-Meets props hash) t)
        (reconcile_replacement-Meets props hash)

  after_create_component-EndsInStep :
      (hash : Text) (a : Answer (Text × Option Fields × Text)) (s : Session)
      → EndsInStep w st (after_create_component w hash a s)
  unfolding after_create_component
  after_create_component-EndsInStep hash (done (id, outputs, state)) s =
      mark_synced-EndsInStep w st id outputs hash _
  after_create_component-EndsInStep hash (failed e) s =
      mark_sync_failed-EndsInStep w st create_failed (of_run e) true s

  after_update_component-EndsInStep :
      (hash : Text) (a : Answer (Option Fields × Text)) (s : Session)
      → EndsInStep w st (after_update_component w hash a s)
  unfolding after_update_component
  after_update_component-EndsInStep hash (done (outputs, state)) s =
      mark_synced-EndsInStep w st s.res.status.id outputs hash _
  after_update_component-EndsInStep hash (failed e) s =
      mark_sync_failed-EndsInStep w st update_failed (of_run e) true s

  component_by_state-EndsInStep :
      (props : Fields) (hash : Text) (o : Option Text) (s : Session)
      → EndsInStep w st (component_by_state w props hash o s)
  unfolding component_by_state construct_component
  component_by_state-EndsInStep props hash none s =
      after_create_component-EndsInStep hash _ (call (create_component props) s)
  component_by_state-EndsInStep props hash (some state) s =
      elim (Bool-cases (is_empty s.res.status.id)) [
        | inl e ↦ rw e (after_create_component-EndsInStep hash _ (call (create_component props) s))
        | inr e ↦ elim (Bool-cases (text_eq s.res.status.applied_hash hash)) [
          | inl f ↦ rw (e, f) (mark_synced-EndsInStep w st s.res.status.id none hash s)
          | inr f ↦
              rw (e, f)
                (after_update_component-EndsInStep hash _ (call (update_component props state) s))
        ]
      ]

  pub reconcile_resolved-Meets :
      (is_component : Bool) (props : Fields) (hash : Text)
      → Meets (InStep w st) (EndsInStep w st) (reconcile_resolved w is_component props hash)
  unfolding reconcile_resolved reconcile_component
  reconcile_resolved-Meets false props hash s h = reconcile_external-EndsInStep props hash s h
  reconcile_resolved-Meets true props hash s h =
      elim (Bool-cases (has_values w s.res.spec.values_from)) [
        | inl e ↦ rw e (mark_sync_failed-EndsInStep w st values_from_unsupported plain false s)
        | inr e ↦ rw e (component_by_state-EndsInStep props hash s.res.status.engine_state s)
      ]
