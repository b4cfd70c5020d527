-- ===== src/Controller/Sync.antt =====
-- internal/controller/doresource_controller.go and annotations.go: what a reconcile records. A
-- function takes the session and gives the outcome of the reconcile with the session after it.
use doplane.Common.{
  ℕ, zero, suc, Text, bytes, text_eq, Bool, true, false, not, Option, none, some, ◌∷◌,
  if◌then◌else◌, ◌==◌, ◌&&◌,
}
use doplane.Json.{Fields}
use doplane.Runnerops.Path.{ℤ, pos, negsuc, is_empty}
use doplane.Runnerops.Spec.{Code, secret_input_in_id}
use doplane.Pulumido.Runner.{RunError, code_of}
use doplane.Controller.Resource.{
  DoResource, DoResourceStatus, Document, object, Condition, ConditionType, ready, synced_type,
  Reason, failure_code, synced, available, annotation, annotate,
}
use doplane.Controller.World.{
  Publication, published, unpublished, refused, World, Trace, Call, persist_status,
  persist_external_name, publish_connection_secret, event, sync_failed, invalid_poll_interval,
  connection_secret_failed,
}

-- The object that the reconcile holds, and the calls that it has made.
pub record Session : Type 0 where
  pub res : DoResource
  pub trace : Trace

-- `ctrl.Result`, durations in nanoseconds.
pub data Requeue : Type 0 where
  settled : Requeue
  at_once : Requeue
  after : ℕ → Requeue

-- An error that the controller made itself, or that wraps one of the runner's.
pub data OpError : Type 0 where
  of_run : RunError → OpError
  plain : OpError

pub data Failure : Type 0 where
  api_failed : Failure
  op_failed : OpError → Failure

pub record Outcome : Type 0 where
  pub requeue : Requeue
  pub error : Option Failure

abbrev pub Step : Type 0
Step = Session → Outcome × Session

abbrev pub call : Call → Session → Session
call c s = record s { trace = c ∷ s.trace }

abbrev pub settle : Step
settle s = (record { requeue = settled; error = none }, s)

abbrev pub fail : Failure → Step
fail f s = (record { requeue = settled; error = some f }, s)

abbrev pub requeue_with : Requeue → Step
requeue_with r s = (record { requeue = r; error = none }, s)

abbrev pub with_status : DoResourceStatus → Session → Session
with_status st s = record s { res = record (s.res) { status = st } }

-- annotations.go: the annotations' names.
abbrev pub ann_external_name : Text
ann_external_name = bytes "crossplane.io/external-name"

abbrev pub ann_paused : Text
ann_paused = bytes "crossplane.io/paused"

abbrev pub ann_poll_interval : Text
ann_poll_interval = bytes "crossplane.io/poll-interval"

-- `resyncInterval`, ten minutes
abbrev pub resync_interval : ℕ
resync_interval = 600000000000

unfoldable pub paused : DoResource → Bool
paused res = text_eq (annotation res.annotations ann_paused) (bytes "true")

unfoldable pub external_name : DoResource → Text
external_name res = annotation res.annotations ann_external_name

abbrev pub is_secret_id_code : Code → Bool
is_secret_id_code secret_input_in_id = true
is_secret_id_code c = false

abbrev pub is_secret_id_reason : Reason → Bool
is_secret_id_reason (failure_code c) = is_secret_id_code c
is_secret_id_reason r = false

abbrev pub is_secret_id_condition : ℕ → Option Condition → Bool
is_secret_id_condition generation none = false
is_secret_id_condition generation (some c) =
    not c.status && is_secret_id_reason c.reason && c.observed_generation == generation

abbrev pub interval_of : ℕ → Option ℤ → ℕ × Bool
interval_of fallback none = (fallback, false)
interval_of fallback (some (negsuc d)) = (fallback, false)
interval_of fallback (some (pos zero)) = (fallback, false)
interval_of fallback (some (pos (suc d))) = (suc d, true)

-- The reason that `markSyncFailed` records: the runner's code where there is one.
abbrev pub coded_reason : Reason → Option Code → Reason
coded_reason reason none = reason
coded_reason reason (some c) = failure_code c

abbrev pub failure_reason : Reason → OpError → Reason
failure_reason reason (of_run e) = coded_reason reason (code_of e)
failure_reason reason plain = reason

abbrev pub new_outputs : Document → Option Fields → Document
new_outputs outputs none = outputs
new_outputs outputs (some fs) = object fs

module _ (w : World) where
  -- `setCondition`
  abbrev pub set_condition : DoResource → ConditionType → Bool → Reason → DoResource
  set_condition res t status reason = record res {
    status = record (res.status) {
      conditions = w.set_status_condition res.status.conditions (record {
        type = t;
        status = status;
        reason = reason;
        observed_generation = res.generation;
      });
    };
  }

  -- `secretIDTerminal`
  unfoldable pub secret_id_terminal : DoResource → Bool
  secret_id_terminal res =
      is_secret_id_condition res.generation
        (w.find_status_condition res.status.conditions synced_type)

  -- `pollInterval`; an empty annotation counts as none.
  unfoldable pub poll_interval : DoResource → ℕ → ℕ × Bool
  poll_interval res fallback =
      let raw = annotation res.annotations ann_poll_interval in
      if is_empty raw then (fallback, true) else interval_of fallback (w.parse_duration raw)

  -- `persistStatus`, then `next` unless the write failed for good.
  abbrev pub persisting : Step → Step
  persisting next s =
      let s' = call (persist_status s.res.status) s in
      if w.api_fails s'.trace then fail api_failed s' else next s'

  -- The end of `markSynced`: the next drift read.
  abbrev pub schedule_poll : Step
  schedule_poll s =
      let (interval, fine) = poll_interval s.res resync_interval in
      requeue_with (after interval) (if fine then s else call (event invalid_poll_interval) s)

  abbrev pub after_publication : Step → Publication → Step
  after_publication next published s = next s
  after_publication next unpublished s = fail api_failed (call (event connection_secret_failed) s)
  after_publication next refused s =
      fail (op_failed plain) (call (event connection_secret_failed) s)

  -- `publishConnectionSecret`, as markSynced calls it.
  abbrev pub publishing : Step → Step
  publishing next s =
      let s' = call publish_connection_secret s in
      after_publication next (w.publication s'.trace) s'

  -- The status that `markSynced` records.
  unfoldable pub synced_resource : Text → Option Fields → Text → DoResource → DoResource
  synced_resource id state applied_hash res =
      let recorded : DoResource = record res {
        status = record (res.status) {
          id = id;
          outputs = new_outputs res.status.outputs state;
          applied_hash = applied_hash;
          observed_generation = res.generation;
        };
      } in
      set_condition (set_condition recorded synced_type true synced) ready true available

  -- `markSynced`
  unfoldable pub mark_synced : Text → Option Fields → Text → Step
  mark_synced id state applied_hash s =
      persisting (publishing schedule_poll)
        (record s { res = synced_resource id state applied_hash s.res })

  -- The conditions that `markSyncFailed` records.
  unfoldable pub failed_resource : Reason → DoResource → DoResource
  failed_resource reason res =
      let unsynced = set_condition res synced_type false reason in
      if is_empty res.status.id then set_condition unsynced ready false reason else unsynced

  -- `markSyncFailed`
  unfoldable pub mark_sync_failed : Reason → OpError → Bool → Step
  mark_sync_failed reason e retry s =
      let r = failure_reason reason e in
      persisting (if retry then fail (op_failed e) else settle)
        (record (call (event (sync_failed r)) s) { res = failed_resource r s.res })

  -- `persistExternalName`, then `next` unless the write failed for good.
  unfoldable pub persisting_external_name : Text → Step → Step
  persisting_external_name name next s =
      if text_eq (external_name s.res) name
      then next s
      else let s' = call (persist_external_name name) s in
        if w.api_fails s'.trace
        then fail api_failed s'
        else next (record s' {
          res = record (s.res) { annotations = annotate s.res.annotations ann_external_name name };
        })
