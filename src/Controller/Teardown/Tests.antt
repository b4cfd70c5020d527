-- ===== src/Controller/Teardown/Tests.antt =====
-- Concrete graphs of references (internal/controller/references.go).
use doplane.Common.{
  ◌≡◌, refl, Text, bytes, true, false, List, [], ◌∷◌, Bool, Any, All, text_leb, not,
}
use doplane.Controller.Resource.{DoResource}
use doplane.Runnerops.Path.Tests.{paths}
use doplane.Controller.Deletion.{dependents, reconcile_delete}
use doplane.Controller.Deletion.Waiting.{reconcile_delete-awaits_dependents}
use doplane.Controller.Graph.{
  find_resource, contains_name, dependents_of, take_next, search_from, reaches, walk_sources,
  walk_from, detect_cycle,
}
use doplane.Controller.Graph.Cycle.{IsCycle, detect_cycle-IsCycle}
use doplane.Controller.Teardown.{
  blocks, blocking_among, blocking_usages, blocking_dependents, by_dependent,
}
use doplane.Controller.Teardown.Blocked.{blocks-exclusive}
use doplane.Controller.Calls.{count, is_deletion}
use doplane.Controller.Watch.{other_sources, map_graph_neighbors}
use doplane.Controller.Watch.Neighbors.{
  IsReader, map_graph_neighbors-IsReader, map_graph_neighbors-Any,
}
use doplane.Controller.Tests.{world, spec, with_conditions}

-- Two resources that read from each other, and a third that reads from the first.
abbrev linked : Text → Text → Bool → DoResource
linked name source is_deleting = record (with_conditions (bytes "id") []) {
  name = name;
  is_deleting = is_deleting;
  spec = record spec {
    references =
        record {
          to_path = bytes "bucket";
          from = record { name = source; field_path = bytes "status.id" };
          template = [];
        }
        ∷ [];
  };
}

abbrev first : DoResource
first = linked (bytes "a") (bytes "b") true

abbrev second : DoResource
second = linked (bytes "b") (bytes "a") true

abbrev third : DoResource
third = linked (bytes "c") (bytes "a") false

abbrev store : List DoResource
store = first ∷ second ∷ third ∷ []

-- Everything that a search of the graph goes through.
searches : Unit {0}
unfolding paths find_resource contains_name dependents_of take_next search_from reaches walk_sources
    walk_from detect_cycle text_leb blocks blocking_among blocking_usages blocking_dependents
searches = tt

blocking_tests :
    (blocking_dependents store [] first ≡ by_dependent (bytes "b") ∷ by_dependent (bytes "c") ∷ [])
    × (blocking_dependents store [] second ≡ [])
unfolding searches
blocking_tests = (refl, refl)

detect_cycle-IsCycle_example : IsCycle store (bytes "a") (bytes "a" ∷ bytes "b" ∷ bytes "a" ∷ [])
detect_cycle-IsCycle_example =
    detect_cycle-IsCycle store first (bytes "a" ∷ bytes "b" ∷ bytes "a" ∷ [])
      (unfold searches in refl)

blocks-exclusive_example : blocks store first second ≡ not (blocks store second first)
blocks-exclusive_example =
    blocks-exclusive store first second (unfold searches in refl) refl refl refl refl
      (unfold searches in refl) (unfold searches in refl)

reconcile_delete-awaits_dependents_example :
    ((reconcile_delete world
        (dependents (blocking_dependents store [] first))
        (record { res = first; trace = [] })).1.res.has_finalizer
      ≡ true)
    × (count is_deletion
          (reconcile_delete world
            (dependents (blocking_dependents store [] first))
            (record { res = first; trace = [] })).1.trace
        ≡ count is_deletion [])
reconcile_delete-awaits_dependents_example =
    reconcile_delete-awaits_dependents world store [] third (record { res = first; trace = [] })
      (unfold searches in refl) (unfold searches in refl) (unfold searches in refl) refl

map_graph_neighbors-IsReader_example : All (IsReader store third) (map_graph_neighbors store third)
map_graph_neighbors-IsReader_example = map_graph_neighbors-IsReader store third refl

map_graph_neighbors-Any_example : Any (λ n. n ≡ bytes "b") (map_graph_neighbors store first)
map_graph_neighbors-Any_example =
    map_graph_neighbors-Any store first (bytes "b") refl (unfold searches in refl)
      (unfold searches in refl)

wake_tests :
    (map_graph_neighbors store third ≡ [])
    × (map_graph_neighbors store first ≡ bytes "b" ∷ bytes "c" ∷ bytes "b" ∷ [])
unfolding searches map_graph_neighbors other_sources
wake_tests = (refl, refl)
