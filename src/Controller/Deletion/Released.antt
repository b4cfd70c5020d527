-- ===== src/Controller/Deletion/Released.antt =====
-- When the finalizer of a deleted object is released (reconcileDelete of internal/controller).
use doplane.Common.{
  ◌≡◌, refl, sym, ◌∙◌, ap, if◌then◌else◌, Text, Bool, true, false, not, Option, none, some, List,
  [], ◌∷◌, ◌&&◌, ◌||◌, Bool-cases, ◌⊎◌, inl, inr, arith,
}
use mathlib.Core.Path.{subst}
use doplane.Controller.Calls.{persisting-res}
use doplane.Controller.World as WorldNames
use doplane.Runnerops.Path.{is_empty}
use doplane.Pulumido.Runner.{RunError, is_not_found}
use doplane.Controller.Resource.{DoResource, ready, blocked_by_dependents}
use doplane.Controller.World.{
  World, Trace, Call, delete, delete_component, event, deleted, update_finalizer,
}
use doplane.Controller.Sync.{Session, Outcome, call, requeue_with, after, set_condition}
use doplane.Controller.Teardown.{Blocker}
use doplane.Controller.DeleteState.{delete_state}
use doplane.Controller.Deletion.{
  Blocking, unknown, dependents, is_orphan, blocked_retry, release, after_delete,
  delete_external_resource, tear_down, after_blocking, reconcile_delete,
}

abbrev pub gone_by : Option RunError → Bool
gone_by none = true
gone_by (some e) = is_not_found e

-- Whether the last deletion's answer says that the external resource is no longer there.
abbrev pub last_deletion_gone : World → Trace → Bool
last_deletion_gone w [] = false
last_deletion_gone w (delete id state ∷ t) = gone_by (w.run_delete (delete id state ∷ t))
last_deletion_gone w (delete_component state ∷ t) =
    gone_by (w.run_delete_component (delete_component state ∷ t))
last_deletion_gone w (c ∷ t) = last_deletion_gone w t

-- Nothing was provisioned, or the policy leaves it.
abbrev pub may_leave : DoResource → Bool
may_leave res = is_orphan res.spec.deletion_policy || is_empty res.status.id

IsReleased : Outcome × Session → Type 0
IsReleased r = r.1.res.has_finalizer ≡ false

module _ (w : World) where
  release-trace :
      (s : Session) → last_deletion_gone w (release w s).1.trace ≡ last_deletion_gone w s.trace
  unfolding release
  release-trace s = elim (Bool-cases (w.api_fails (update_finalizer false ∷ s.trace))) [
    | inl e ↦ rw e refl
    | inr e ↦ rw e refl
  ]

  after_delete-IsReleased :
      (o : Option RunError) (s : Session)
      → s.res.has_finalizer ≡ true
      → last_deletion_gone w s.trace ≡ gone_by o
      → IsReleased (after_delete w o s)
      → last_deletion_gone w (after_delete w o s).1.trace ≡ true
  unfolding after_delete IsReleased
  after_delete-IsReleased none s f h r = rw (release-trace (call (event deleted) s)) h
  after_delete-IsReleased (some e) s f h r = elim (Bool-cases (is_not_found e)) [
    | inl g ↦ rw (g, release-trace s) (h ∙ g)
    | inr g ↦ let kept = rw g at r in cc
  ]

  delete_external_resource-IsReleased :
      (state : Option Text) (s : Session)
      → s.res.has_finalizer ≡ true
      → IsReleased (delete_external_resource w state s)
      → last_deletion_gone w (delete_external_resource w state s).1.trace ≡ true
  unfolding delete_external_resource
  delete_external_resource-IsReleased none s f r =
      after_delete-IsReleased _ (call (delete s.res.status.id (delete_state s.res)) s) f refl r
  delete_external_resource-IsReleased (some state) s f r =
      after_delete-IsReleased _ (call (delete_component state) s) f refl r

  tear_down-IsReleased :
      (s : Session)
      → s.res.has_finalizer ≡ true
      → IsReleased (tear_down w s)
      → (may_leave s.res ≡ true) ⊎ (last_deletion_gone w (tear_down w s).1.trace ≡ true)
  unfolding tear_down
  tear_down-IsReleased s f r = elim (Bool-cases (may_leave s.res)) [
    | inl e ↦ inl e
    | inr e ↦
        let deletes : not (is_orphan s.res.spec.deletion_policy) && not (is_empty s.res.status.id)
            ≡ true =
          ground arith in
        inr (
          rw deletes
            (delete_external_resource-IsReleased s.res.status.engine_state s f (rw deletes at r)))
  ]

  pub blocked-keeps :
      (d : Blocker) (ds : List Blocker) (s : Session)
      → (after_blocking w (dependents (d ∷ ds)) s).1.res.has_finalizer ≡ s.res.has_finalizer
  unfolding after_blocking
  blocked-keeps d ds s =
      ap (λ (res : DoResource). res.has_finalizer)
        (persisting-res w (requeue_with (after blocked_retry))
          (call (event WorldNames.blocked_by_dependents)
            (record s { res = set_condition w s.res ready false blocked_by_dependents }))
          (λ t. refl))

  after_blocking-IsReleased :
      (blocking : Blocking) (s : Session)
      → s.res.has_finalizer ≡ true
      → IsReleased (after_blocking w blocking s)
      → (blocking ≡ dependents [])
        × ((may_leave s.res ≡ true)
            ⊎ (last_deletion_gone w (after_blocking w blocking s).1.trace ≡ true))
  unfolding after_blocking IsReleased
  after_blocking-IsReleased unknown s f r = cc
  after_blocking-IsReleased (dependents []) s f r = (refl, tear_down-IsReleased s f r)
  after_blocking-IsReleased (dependents (d ∷ ds)) s f r = let kept = blocked-keeps d ds s in cc

then_branch : {A : Type 0} (b : Bool) (x y : A) → b ≡ true → (if b then x else y) ≡ x
then_branch true x y h = refl
then_branch false x y h = cc

reconcile_delete-eq :
    (w : World) (blocking : Blocking) (s : Session)
    → s.res.has_finalizer ≡ true
    → reconcile_delete w blocking s ≡ after_blocking w blocking s
unfolding reconcile_delete
reconcile_delete-eq w blocking s f = then_branch s.res.has_finalizer _ _ f

-- When reconcileDelete takes the finalizer off, then no dependent blocks the deletion, and either
-- the policy or an empty id leaves nothing to delete, or the last deletion's answer says that the
-- external resource is gone.
pub reconcile_delete-IsReleased :
    (w : World) (blocking : Blocking) (s : Session)
    → s.res.has_finalizer ≡ true
    → (reconcile_delete w blocking s).1.res.has_finalizer ≡ false
    → (blocking ≡ dependents [])
      × ((may_leave s.res ≡ true)
          ⊎ (last_deletion_gone w (reconcile_delete w blocking s).1.trace ≡ true))
reconcile_delete-IsReleased w blocking s f r =
    let same = reconcile_delete-eq w blocking s f in
    subst
      (λ (q : Outcome × Session).
        q.1.res.has_finalizer ≡ false
        → (blocking ≡ dependents [])
          × ((may_leave s.res ≡ true) ⊎ (last_deletion_gone w q.1.trace ≡ true)))
      (sym same) (unfold IsReleased in after_blocking-IsReleased w blocking s f) r
