-- ===== src/Controller/Create.antt =====
-- internal/controller/annotations.go: how an external resource comes under the controller, by
-- adoption or by a create.
pub mod Adoption
use doplane.Common.{Text, true, false, Option, none, if◌then◌else◌}
use doplane.Json.{Fields}
use doplane.Runnerops.Path.{is_empty}
use doplane.Runnerops.Spec.{secret_input_in_id}
use doplane.Pulumido.Runner.{is_not_found, is_read_not_supported, is_secret_input_in_id}
use doplane.Controller.Resource.{failure_code, create_failed, adopt_failed}
use doplane.Controller.World.{World, Answer, done, failed, create, read, event, created, adopted}
use doplane.Controller.Sync.{
  Step, of_run, call, settle, external_name, secret_id_terminal, mark_synced, mark_sync_failed,
  persisting_external_name,
}

module _ (w : World) where
  -- `reconcileCreate` from the answer to its Create on.
  unfoldable pub after_create : Text → Answer (Text × Option Fields) → Step
  after_create hash (done (id, state)) s =
      persisting_external_name w id (λ t. mark_synced w id state hash (call (event created) t)) s
  after_create hash (failed e) s =
      if is_secret_input_in_id e
      then mark_sync_failed w (failure_code secret_input_in_id) (of_run e) false s
      else mark_sync_failed w create_failed (of_run e) true s

  -- `reconcileCreate` without the adoption.
  unfoldable pub create_external : Fields → Text → Step
  create_external props hash s =
      if secret_id_terminal w s.res
      then settle s
      else let t = call (create props) s in after_create hash (w.run_create t.trace) t

  -- `adoptExternal` from the answer to its Read on; `otherwise` is what the caller does where there
  -- is nothing to adopt.
  unfoldable pub after_adopting_read : Text → Text → Step → Answer (Option Fields) → Step
  after_adopting_read name hash otherwise (done state) s =
      mark_synced w name state hash (call (event adopted) s)
  after_adopting_read name hash otherwise (failed e) s =
      if is_not_found e
      then otherwise s
      else if is_read_not_supported e
      then mark_synced w name none hash (call (event adopted) s)
      else mark_sync_failed w adopt_failed (of_run e) true s

  unfoldable pub adopt_external : Text → Text → Step → Step
  adopt_external name hash otherwise s =
      let t = call (read name) s in after_adopting_read name hash otherwise (w.run_read t.trace) t

  -- `reconcileCreate`
  unfoldable pub reconcile_create : Fields → Text → Step
  reconcile_create props hash s =
      if is_empty (external_name s.res)
      then create_external props hash s
      else adopt_external (external_name s.res) hash (create_external props hash) s
