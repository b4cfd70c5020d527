-- ===== src/Controller/World.antt =====
-- What the reconcilers call and do not implement: the runner's operations, the API server's answers
-- and the libraries' conditions. Each answer may depend on all calls made before.
use doplane.Common.{◌≡◌, Text, Bool, true, false, Option, some, List}
use doplane.Json.{Fields}
use doplane.Runnerops.Path.{ℤ}
use doplane.Pulumido.Runner.{RunError}
use doplane.Controller.Resource.{
  DoResourceStatus, Condition, ConditionType, ready, synced_type, Reason,
}

-- The reasons of the events that the recorder gets; an event's text is left out.
pub data EventReason : Type 0 where
  created adopted drifted updated replaced deleted delete_failed : EventReason
  orphaned_old_resource blocked_by_dependents invalid_poll_interval : EventReason
  connection_secret_failed provider_not_pinned : EventReason
  sync_failed : Reason → EventReason

-- The calls of a reconcile, as far as they reach beyond the process.
pub data Call : Type 0 where
  create : Fields → Call
  patch : Text → Fields → Call
  read : Text → Call
  delete : Text → Option Fields → Call
  create_component : Fields → Call
  update_component : Fields → Text → Call
  delete_component : Text → Call
  persist_status : DoResourceStatus → Call
  persist_external_name : Text → Call
  update_finalizer : Bool → Call
  publish_connection_secret : Call
  event : EventReason → Call

-- The calls so far, the last one first.
abbrev pub Trace : Type 0
Trace = List Call

-- The answer to a call that gives a value or fails.
pub data Answer {ℓ} (A : Type ℓ) : Type ℓ where
  done : A → Answer A
  failed : RunError → Answer A

-- How the publication of the connection Secret ends: with no error, with one of the API server, or
-- refused, where another object owns the Secret or a connection detail is malformed.
pub data Publication : Type 0 where
  published unpublished refused : Publication

pub record World : Type 0 where
  -- The runner (`pulumido.Runner`).
  pub run_create : Trace → Answer (Text × Option Fields)
  pub run_patch : Trace → Answer (Option Fields)
  pub run_read : Trace → Answer (Option Fields)
  pub run_delete : Trace → Option RunError
  pub run_create_component : Trace → Answer (Text × Option Fields × Text)
  pub run_update_component : Trace → Answer (Option Fields × Text)
  pub run_delete_component : Trace → Option RunError
  -- The API server: whether a write fails for good.
  pub api_fails : Trace → Bool
  -- `publishConnectionSecret`
  pub publication : Trace → Publication
  -- `time.ParseDuration`, in nanoseconds.
  pub parse_duration : Text → Option ℤ
  -- `meta.SetStatusCondition` and `meta.FindStatusCondition`.
  pub set_status_condition : List Condition → Condition → List Condition
  pub find_status_condition : List Condition → ConditionType → Option Condition

abbrev pub same_type : ConditionType → ConditionType → Bool
same_type ready ready = true
same_type synced_type synced_type = true
same_type a b = false

-- The documented behaviour of the two library functions: a condition that was set is the one that is
-- found under its type, and those of other types stay.
pub record ConditionLaws (w : World) : Type 0 where
  pub find-set_self :
      (cs : List Condition) (c : Condition)
      → w.find_status_condition (w.set_status_condition cs c) c.type ≡ some c
  pub find-set_other :
      (cs : List Condition) (c : Condition) (t : ConditionType)
      → same_type c.type t ≡ false
      → w.find_status_condition (w.set_status_condition cs c) t ≡ w.find_status_condition cs t
