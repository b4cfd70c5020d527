-- ===== src/Controller/Tests.antt =====
-- Concrete reconciles (internal/controller), and the conditions of the Kubernetes library as a list.
use doplane.Common.{
  ◌≡◌, refl, Text, bytes, true, false, Option, none, some, List, [], ◌∷◌, if◌then◌else◌, Bool-cases,
  inl, inr, ◌⊎◌, All,
}
use doplane.Json.{string, Fields, end, field}
use doplane.Runnerops.Spec.{secret_input_in_id, replacement_required, not_found}
use doplane.Pulumido.Runner.{coded}
use doplane.Controller.Resource.{
  absent, object, DoResource, DoResourceSpec, delete_external, Condition, ConditionType, ready,
  synced_type, ValueFrom, annotation, annotate, failure_code,
}
use doplane.Controller.World.{published, World, ConditionLaws, done, failed, same_type}
use doplane.Runnerops.Path.Tests.{paths}
use doplane.Runnerops.Path.Access.Paths.{IsGoneAt}
use doplane.Controller.Sync.{
  Session, external_name, secret_id_terminal, settle, poll_interval, synced_resource, mark_synced,
  failed_resource, mark_sync_failed, persisting_external_name,
}
use doplane.Controller.Create.{
  after_create, create_external, after_adopting_read, adopt_external, reconcile_create,
}
use doplane.Controller.Create.Adoption.{reconcile_create-recovers}
use doplane.Controller.DeleteState.{strip_secrets, state_of, delete_state}
use doplane.Controller.DeleteState.Stripped.{delete_state-IsStripped}
use doplane.Controller.Replacement.{
  replacement_approved, protected, delete_error, delete_old, after_swap, after_conflict_delete,
  replace_after_delete, after_first_create, reconcile_replacement,
}
use doplane.Controller.Settled.{
  drifted_resource, recreate, after_patch, after_read, read_external, update_external,
  reconcile_external, reconcile_resolved,
}
use doplane.Controller.Deletion.{
  dependents, release, after_delete, delete_external_resource, tear_down, after_blocking,
  reconcile_delete,
}
use doplane.Controller.Deletion.Released.{
  may_leave, last_deletion_gone, reconcile_delete-IsReleased,
}
use doplane.Controller.Calls.{count, is_creation, is_deletion}
use doplane.Controller.Restraint.{reconcile_external-terminal, reconcile_external-protected}
use doplane.Controller.Leaks.{leaked}
use doplane.Controller.Leaks.Recorded.{
  reconcile_external-records_leak, reconcile_external-leaks_once,
}
use doplane.Controller.Stored.{stored}

same_type_refl : (t : ConditionType) → same_type t t ≡ true
same_type_refl ready = refl
same_type_refl synced_type = refl

unfoldable pub set_listed : List Condition → Condition → List Condition
set_listed [] c = c ∷ []
set_listed (d ∷ ds) c =
    let rest = set_listed ds c in if same_type d.type c.type then c ∷ ds else d ∷ rest

unfoldable pub find_listed : List Condition → ConditionType → Option Condition
find_listed [] t = none
find_listed (d ∷ ds) t = let rest = find_listed ds t in if same_type d.type t then some d else rest

find_set_self :
    (cs : List Condition) (c : Condition) → find_listed (set_listed cs c) c.type ≡ some c
unfolding find_listed set_listed
find_set_self [] c = rw (same_type_refl c.type) refl
find_set_self (d ∷ ds) c = elim (Bool-cases (same_type d.type c.type)) [
  | inl e ↦ rw (e, same_type_refl c.type) refl
  | inr e ↦ rw (e, e) (find_set_self ds c)
]

differ :
    (a b t : ConditionType) → same_type a b ≡ true → same_type b t ≡ false → same_type a t ≡ false
differ ready ready t e f = f
differ synced_type synced_type t e f = f
differ ready synced_type t e f = cc
differ synced_type ready t e f = cc

find_set_other :
    (cs : List Condition) (c : Condition) (t : ConditionType)
    → same_type c.type t ≡ false
    → find_listed (set_listed cs c) t ≡ find_listed cs t
unfolding find_listed set_listed
find_set_other [] c t h = rw h refl
find_set_other (d ∷ ds) c t h = elim (Bool-cases (same_type d.type c.type)) [
  | inl e ↦ rw (e, h, differ d.type c.type t e h) refl
  | inr e ↦ elim (Bool-cases (same_type d.type t)) [
    | inl f ↦ rw (e, f) refl
    | inr f ↦ rw (e, f) (find_set_other ds c t h)
  ]
]

-- A world in which every Create leaks, every Delete and every write works, and a Read finds nothing
-- but the id.
abbrev pub world : World
world = record {
  run_create = λ t. failed (coded (some secret_input_in_id) []);
  run_patch = λ t. failed (coded (some replacement_required) []);
  run_read = λ t. done (some (field (bytes "id") (string (bytes "pet-1")) end));
  run_delete = λ t. some (coded (some not_found) []);
  run_create_component = λ t. done ([], none, []);
  run_update_component = λ t. done (none, []);
  run_delete_component = λ t. none;
  api_fails = λ t. false;
  publication = λ t. published;
  parse_duration = λ d. none;
  set_status_condition = set_listed;
  find_status_condition = find_listed;
}

world_laws : ConditionLaws world
world_laws = record { find-set_self = find_set_self; find-set_other = find_set_other }

abbrev pub spec : DoResourceSpec
spec = record {
  token = bytes "random:index/randomPet:RandomPet";
  package_ref = [];
  provider_ref = none;
  properties = absent;
  deletion_policy = delete_external;
  protect = none;
  references = [];
  values_from =
      record { to_path = bytes "password"; secret_name = bytes "db"; secret_key = bytes "password" }
      ∷ [];
}

abbrev pub with_conditions : Text → List Condition → DoResource
with_conditions id conditions = record {
  name = bytes "pet";
  namespace = bytes "default";
  generation = 3;
  annotations = [];
  is_deleting = false;
  has_finalizer = true;
  spec = spec;
  status = record {
    id = id;
    outputs = object (
        field (bytes "password") (string (bytes "hunter22"))
          (field (bytes "size") (string (bytes "2")) end));
    observed_generation = 2;
    applied_hash = bytes "old";
    engine_state = none;
    conditions = conditions;
  };
}

abbrev session : Text → List Condition → Session
session id conditions = record { res = with_conditions id conditions; trace = [] }

abbrev leak : Condition
leak = record {
  type = synced_type;
  status = false;
  reason = failure_code secret_input_in_id;
  observed_generation = 3;
}

-- Everything that a run of a reconcile goes through.
unfoldable pub reconciles : Unit {0}
unfolding paths set_listed find_listed annotation annotate external_name secret_id_terminal
    poll_interval synced_resource mark_synced failed_resource mark_sync_failed
    persisting_external_name after_create create_external after_adopting_read adopt_external
    reconcile_create strip_secrets state_of delete_state replacement_approved protected delete_error
    delete_old after_swap after_conflict_delete replace_after_delete after_first_create
    reconcile_replacement drifted_resource recreate after_patch after_read read_external
    update_external reconcile_external reconcile_resolved release after_delete
    delete_external_resource tear_down after_blocking reconcile_delete leaked stored count
reconciles = tt

abbrev no_props : Fields
no_props = end

reconcile_external-terminal_example :
    (count is_creation
        (reconcile_external world no_props (bytes "new") (session [] (leak ∷ []))).1.trace
      ≡ 0)
    × (count is_deletion
          (reconcile_external world no_props (bytes "new") (session [] (leak ∷ []))).1.trace
        ≡ 0)
unfolding count
reconcile_external-terminal_example =
    reconcile_external-terminal world no_props (bytes "new") (session [] (leak ∷ []))
      (unfold reconciles in refl)

reconcile_external-protected_example :
    (count is_creation
        (reconcile_external world no_props (bytes "new") (session (bytes "pet-1") [])).1.trace
      ≡ 0)
    × (count is_deletion
          (reconcile_external world no_props (bytes "new") (session (bytes "pet-1") [])).1.trace
        ≡ 0)
unfolding count
reconcile_external-protected_example =
    reconcile_external-protected world no_props (bytes "new") (session (bytes "pet-1") []) refl
      (unfold reconciles in refl) (unfold reconciles in refl)

reconcile_external-records_leak_example :
    secret_id_terminal world (reconcile_external world no_props (bytes "new") (session [] [])).1.res
    ≡ true
reconcile_external-records_leak_example =
    reconcile_external-records_leak world world_laws no_props (bytes "new") (session [] [])
      (unfold reconciles in refl) (unfold reconciles in refl)

reconcile_external-leaks_once_example :
    count is_creation
      (reconcile_external world no_props
        (bytes "newer")
        (reconcile_external world no_props (bytes "new") (session [] [])).1).1.trace
    ≡ count is_creation (reconcile_external world no_props (bytes "new") (session [] [])).1.trace
reconcile_external-leaks_once_example =
    reconcile_external-leaks_once world world_laws no_props no_props (bytes "new") (bytes "newer")
      (session [] []) (unfold reconciles in refl) (unfold reconciles in refl)

-- The first of the two does create.
leak_test :
    count is_creation (reconcile_external world no_props (bytes "new") (session [] [])).1.trace ≡ 1
unfolding reconciles
leak_test = refl

delete_state-IsStripped_example :
    All
      (λ (v : ValueFrom). IsGoneAt v.to_path (field (bytes "size") (string (bytes "2")) end))
      spec.values_from
delete_state-IsStripped_example =
    delete_state-IsStripped (with_conditions (bytes "pet-1") [])
      (field (bytes "size") (string (bytes "2")) end) (unfold reconciles in refl)

reconcile_delete-IsReleased_example :
    (dependents [] ≡ dependents [])
    × ((may_leave (with_conditions (bytes "pet-1") []) ≡ true)
        ⊎ (last_deletion_gone world
              (reconcile_delete world (dependents []) (session (bytes "pet-1") [])).1.trace
            ≡ true))
reconcile_delete-IsReleased_example =
    reconcile_delete-IsReleased world (dependents []) (session (bytes "pet-1") []) refl
      (unfold reconciles in refl)

reconcile_create-recovers_example :
    (count is_creation
        (reconcile_create world no_props (bytes "new") (record {
          res = (persisting_external_name world (bytes "pet-1") settle (session [] [])).1.res;
          trace = [];
        })).1.trace
      ≡ count is_creation [])
    × ((reconcile_create world no_props (bytes "new") (record {
      res = (persisting_external_name world (bytes "pet-1") settle (session [] [])).1.res;
      trace = [];
    })).1.res.status.id
        ≡ bytes "pet-1")
reconcile_create-recovers_example =
    reconcile_create-recovers world no_props (bytes "pet-1") (bytes "new")
      (some (field (bytes "id") (string (bytes "pet-1")) end)) (session [] []) [] refl refl refl
