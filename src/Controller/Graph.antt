-- ===== src/Controller/Graph.antt =====
-- internal/controller/references.go: the graph of references among the DoResources of a namespace,
-- as the informer cache shows it: the list of its objects.
pub mod Sound
pub mod Cycle
use doplane.Common.{
  ℕ, zero, suc, Text, text_eq, Bool, true, false, Option, none, some, List, [], ◌∷◌, ◌++◌, map,
  if◌then◌else◌, ◌||◌,
}
use doplane.Controller.Resource.{DoResource, Reference}

-- `r.Get` by the name in the namespace.
unfoldable pub find_resource : List DoResource → Text → Option DoResource
find_resource [] name = none
find_resource (res ∷ rest) name =
    if text_eq res.name name then some res else find_resource rest name

abbrev pub source_name : Reference → Text
source_name ref = ref.from.name

-- The names that `res.Spec.References` reads from.
abbrev pub sources : DoResource → List Text
sources res = map source_name res.spec.references

abbrev pub sources_of : Option DoResource → List Text
sources_of none = []
sources_of (some res) = sources res

unfoldable pub contains_name : Text → List Text → Bool
contains_name name [] = false
contains_name name (n ∷ names) = text_eq n name || contains_name name names

-- `dependentsOf`
unfoldable pub dependents_of : List DoResource → DoResource → List Text
dependents_of [] res = []
dependents_of (item ∷ items) res =
    let rest = dependents_of items res in
    if text_eq item.name res.name
    then rest
    else if contains_name res.name (sources item)
    then item.name ∷ rest
    else rest

module _ (store : List DoResource) where
  -- The rounds of `reaches` that take a name from the queue, up to the next one that is not visited;
  -- `more` goes on from there.
  unfoldable pub take_next : Text → (List Text → List Text → Bool) → List Text → List Text → Bool
  take_next target more visited [] = false
  take_next target more visited (name ∷ queue) =
      let rest = take_next target more visited queue in
      if text_eq name target
      then true
      else if contains_name name visited
      then rest
      else more (name ∷ visited) (queue ++ sources_of (find_resource store name))

  -- The loop of `reaches`, for the number of names that may still be visited.
  unfoldable pub search_from : ℕ → Text → List Text → List Text → Bool
  search_from zero target visited queue = false
  search_from (suc n) target visited queue = take_next target (search_from n target) visited queue

  -- `reaches`: at most 64 names are visited, the first one is that of `res`.
  unfoldable pub reaches : DoResource → Text → Bool
  reaches res target = search_from 63 target (res.name ∷ []) (sources res)

  -- What a walk gives: the names visited so far, and the cycle if it found one.
  abbrev pub Walked : Type 0
  Walked = List Text × Option (List Text)

  abbrev pub or_else : Walked → (List Text → Walked) → Walked
  or_else (visited, some cycle) next = (visited, some cycle)
  or_else (visited, none) next = next visited

  -- The loop of `walk` over the references of one object; `walk` is the call that it makes.
  unfoldable pub walk_sources :
      Text → (Text → List Text → Walked) → List Text → List Text → List Text → Walked
  walk_sources start walk path [] visited = (visited, none)
  walk_sources start walk path (next ∷ names) visited =
      let rest = walk_sources start walk path names in
      if text_eq next start
      then (visited, some (path ++ next ∷ []))
      else if contains_name next visited
      then rest visited
      else or_else (walk next (next ∷ visited)) rest

  -- `walk`, for the depth that is left; `path` ends before the name.
  unfoldable pub walk_from : ℕ → Text → List Text → Text → List Text → Walked
  walk_from zero start path name visited = (visited, none)
  walk_from (suc n) start path name visited =
      walk_sources start (walk_from n start (path ++ name ∷ [])) (path ++ name ∷ [])
        (sources_of (find_resource store name)) visited

  -- `detectCycle`: a path of more than 32 names is not followed. The names of the cycle, or none.
  unfoldable pub detect_cycle : DoResource → Option (List Text)
  detect_cycle res = (walk_from 33 res.name [] res.name []).1
