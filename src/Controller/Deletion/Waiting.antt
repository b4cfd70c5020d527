-- ===== src/Controller/Deletion/Waiting.antt =====
-- A deletion waits for those that still read from the resource (internal/controller).
use doplane.Common.{
  ◌≡◌, refl, ◌∙◌, text_eq, Bool, true, false, some, List, [], ◌∷◌, Any, if◌then◌else◌,
}
use doplane.Controller.Resource.{DoResource, ready, blocked_by_dependents}
use doplane.Controller.World.{World, event}
use doplane.Controller.World as WorldNames
use doplane.Controller.Sync.{Session, Outcome, call, settle, requeue_with, after, set_condition}
use doplane.Controller.Graph.{find_resource, sources, contains_name}
use doplane.Controller.Teardown.{DoUsage, Blocker, by_dependent, blocking_dependents}
use doplane.Controller.Teardown.Blocked.{blocking_dependents-IsListed}
use doplane.Controller.Calls.{count, is_deletion, is_deletion-Ignores, persisting-Quiet}
use doplane.Controller.Deletion.{dependents, blocked_retry, after_blocking, reconcile_delete}
use doplane.Controller.Deletion.Released.{blocked-keeps}

-- The finalizer stays, and nothing is deleted.
Waits : Session → Outcome × Session → Type 0
Waits s r =
    (r.1.res.has_finalizer ≡ s.res.has_finalizer)
    × (count is_deletion r.1.trace ≡ count is_deletion s.trace)

in_both_branches :
    {A : Type 0} (P : A → Type 0) (b : Bool) (x y : A) → P x → P y → P (if b then x else y)
in_both_branches P true x y p q = p
in_both_branches P false x y p q = q

module _ (w : World) where
  after_blocking-Waits :
      (d : Blocker) (ds : List Blocker) (s : Session)
      → Waits s (after_blocking w (dependents (d ∷ ds)) s)
  unfolding after_blocking Waits
  after_blocking-Waits d ds s = (
    blocked-keeps w d ds s,
    persisting-Quiet w (count is_deletion) is_deletion-Ignores (requeue_with (after blocked_retry))
          (λ t. refl)
          (call (event WorldNames.blocked_by_dependents)
            (record s { res = set_condition w s.res ready false blocked_by_dependents }))
        ∙ is_deletion-Ignores.of_event WorldNames.blocked_by_dependents s.trace,
  )

  reconcile_delete-Waits :
      (bs : List Blocker) (b : Blocker) (s : Session)
      → Any (λ c. c ≡ b) bs
      → Waits s (reconcile_delete w (dependents bs) s)
  unfolding reconcile_delete Waits
  reconcile_delete-Waits [] b s m = absurd m
  reconcile_delete-Waits (d ∷ ds) b s m =
      in_both_branches (Waits s) s.res.has_finalizer (after_blocking w (dependents (d ∷ ds)) s)
        (settle s) (after_blocking-Waits d ds s) (refl, refl)

-- As long as another resource of the namespace references the object and is not being deleted itself,
-- reconcileDelete with what blockingDependents lists neither deletes the external resource nor takes
-- the finalizer off.
pub reconcile_delete-awaits_dependents :
    (w : World) (store : List DoResource) (usages : List DoUsage) (dep : DoResource) (s : Session)
    → find_resource store dep.name ≡ some dep
    → text_eq dep.name s.res.name ≡ false
    → contains_name s.res.name (sources dep) ≡ true
    → dep.is_deleting ≡ false
    → ((reconcile_delete w
          (dependents (blocking_dependents store usages s.res))
          s).1.res.has_finalizer
        ≡ s.res.has_finalizer)
      × (count is_deletion
            (reconcile_delete w (dependents (blocking_dependents store usages s.res)) s).1.trace
          ≡ count is_deletion s.trace)
unfolding Waits
reconcile_delete-awaits_dependents w store usages dep s f n c d =
    reconcile_delete-Waits w (blocking_dependents store usages s.res) (by_dependent dep.name) s
      (blocking_dependents-IsListed store usages s.res dep f n c d)
