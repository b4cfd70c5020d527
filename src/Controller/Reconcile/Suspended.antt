-- ===== src/Controller/Reconcile/Suspended.antt =====
-- What a paused reconcile leaves alone (internal/controller/doresource_controller.go).
use doplane.Common.{◌≡◌, refl, Bool, true, false, if◌then◌else◌}
use doplane.Controller.Resource.{synced_type, reconcile_paused}
use doplane.Controller.World.{World}
use doplane.Controller.Sync.{Session, Outcome, paused, settle, set_condition}
use doplane.Controller.Calls.{
  count, is_cloud_call, is_cloud_call-Ignores, persisting-Quiet, persisting-res,
}
use doplane.Controller.Reconcile.{Surroundings, record_pause, reconcile}

-- No call of the runner, and the object but for its conditions as it was.
IsSuspended : Session → Outcome × Session → Type 0
IsSuspended s r =
    (count is_cloud_call r.1.trace ≡ count is_cloud_call s.trace)
    × (r.1.res.has_finalizer ≡ s.res.has_finalizer)
    × (r.1.res.status.id ≡ s.res.status.id)

first_branch :
    {A : Type 0} (P : A → Type 0) (b : Bool) (x y : A) → b ≡ true → P x → P (if b then x else y)
first_branch P true x y h p = p
first_branch P false x y h p = cc

record_pause-IsSuspended :
    (w : World) (env : Surroundings) (s : Session) → IsSuspended s (record_pause w env s)
unfolding record_pause IsSuspended
record_pause-IsSuspended w env s =
    let t : Session = record s { res = set_condition w s.res synced_type false reconcile_paused } in
    let same = persisting-res w settle t (λ u. refl) in
    (
      persisting-Quiet w (count is_cloud_call) is_cloud_call-Ignores settle (λ u. refl) t,
      rw same refl,
      rw same refl,
    )

-- While the pause annotation is set, a reconcile makes no call of the runner, keeps the finalizer as
-- it is and keeps the recorded id, also of an object that is being deleted.
pub reconcile-suspends :
    (w : World) (env : Surroundings) (s : Session)
    → paused s.res ≡ true
    → (count is_cloud_call (reconcile w env s).1.trace ≡ count is_cloud_call s.trace)
      × ((reconcile w env s).1.res.has_finalizer ≡ s.res.has_finalizer)
      × ((reconcile w env s).1.res.status.id ≡ s.res.status.id)
unfolding reconcile IsSuspended
reconcile-suspends w env s h =
    first_branch (IsSuspended s) (paused s.res) _ _ h (record_pause-IsSuspended w env s)
