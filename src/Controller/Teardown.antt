-- ===== src/Controller/Teardown.antt =====
-- internal/controller/references.go and api/v1alpha1/dousage_types.go: what blocks the deletion of a
-- DoResource.
pub mod Blocked
pub mod Tests
use doplane.Common.{
  Text, text_eq, text_leb, Bool, true, false, not, Option, none, some, List, [], ◌∷◌, ◌++◌,
  if◌then◌else◌, ◌||◌, ◌&&◌,
}
use doplane.Runnerops.Path.{is_empty}
use doplane.Controller.Resource.{DoResource}
use doplane.Controller.Graph.{find_resource, dependents_of, reaches}

pub record DoUsage : Type 0 where
  pub name : Text
  pub of_name : Text
  pub reason : Text
  pub is_deleting : Bool

-- An entry of the list that the message shows.
pub data Blocker : Type 0 where
  by_usage : Text → Text → Blocker
  by_dependent : Text → Blocker

-- `blockingUsages`
unfoldable pub blocking_usages : List DoUsage → DoResource → List Blocker
blocking_usages [] res = []
blocking_usages (usage ∷ usages) res =
    let rest = blocking_usages usages res in
    if not (text_eq usage.of_name res.name) || usage.is_deleting
    then rest
    else by_usage usage.name usage.reason ∷ rest

module _ (store : List DoResource) where
  -- Whether a dependent blocks: not when it is being deleted and has nothing external left, or is on
  -- a cycle with `res` and has the smaller name.
  unfoldable pub blocks : DoResource → DoResource → Bool
  blocks res dep =
      if dep.is_deleting
      then not (is_empty dep.status.id)
        && not (reaches store res dep.name && not (text_leb res.name dep.name))
      else true

  abbrev pub dependent_blocks : DoResource → Option DoResource → Bool
  dependent_blocks res none = false
  dependent_blocks res (some dep) = blocks res dep

  -- The loop over the dependents; one that cannot be read is gone.
  unfoldable pub blocking_among : DoResource → List Text → List Blocker
  blocking_among res [] = []
  blocking_among res (name ∷ names) =
      let rest = blocking_among res names in
      if dependent_blocks res (find_resource store name) then by_dependent name ∷ rest else rest

  -- `blockingDependents`
  unfoldable pub blocking_dependents : List DoUsage → DoResource → List Blocker
  blocking_dependents usages res =
      blocking_usages usages res ++ blocking_among res (dependents_of store res)
