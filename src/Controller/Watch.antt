-- ===== src/Controller/Watch.antt =====
-- internal/controller/doresource_controller.go: which objects the event of a DoResource wakes.
pub mod Neighbors
use doplane.Common.{Text, text_eq, Bool, true, false, List, [], ◌∷◌, ◌++◌, if◌then◌else◌}
use doplane.Controller.Resource.{DoResource}
use doplane.Controller.Graph.{sources, dependents_of}

-- The loop over the references, without the object itself.
unfoldable pub other_sources : Text → List Text → List Text
other_sources name [] = []
other_sources name (n ∷ names) =
    let rest = other_sources name names in if text_eq n name then rest else n ∷ rest

-- `mapGraphNeighbors`, the names in the namespace.
unfoldable pub map_graph_neighbors : List DoResource → DoResource → List Text
map_graph_neighbors store res =
    dependents_of store res
    ++ (if res.is_deleting then other_sources res.name (sources res) else [])
