-- ===== src/Controller/Branches.antt =====
-- The branches of the last switch of Reconcile (internal/controller), for a predicate on the
-- session that the calls on the way keep and one on the result that each way to end gives.
use doplane.Common.{◌≡◌, Text, text_eq, Bool, true, false, Option, none, Bool-cases, inl, inr}
use doplane.Json.{Fields}
use doplane.Runnerops.Path.{is_empty}
use doplane.Pulumido.Runner.{RunError, is_not_found, is_read_not_supported, is_replacement_required}
use doplane.Controller.Resource.{
  Reason, update_not_supported, update_failed, read_failed, adopt_failed,
}
use doplane.Controller.World.{
  World, Answer, done, failed, patch, read, event, adopted, updated, EventReason,
}
use doplane.Controller.Sync.{
  Session, Step, Outcome, of_run, plain, call, OpError, external_name, mark_synced,
  mark_sync_failed,
}
use doplane.Controller.Create.{
  create_external, adopt_external, after_adopting_read, reconcile_create,
}
use doplane.Controller.Replacement.{reconcile_replacement}
use doplane.Controller.Settled.{
  recreate, after_patch, after_read, read_external, update_external, reconcile_external,
}

pub record Contract (w : World) (P : Session → Type 0) (Q : Outcome × Session → Type 0)
    : Type 0 where
  pub stays_event : (r : EventReason) (s : Session) → P s → P (call (event r) s)
  pub stays_read : (id : Text) (s : Session) → P s → P (call (read id) s)
  pub stays_patch : (id : Text) (props : Fields) (s : Session) → P s → P (call (patch id props) s)
  pub ends_synced :
      (id : Text) (state : Option Fields) (hash : Text) (s : Session)
      → P s
      → Q (mark_synced w id state hash s)
  pub ends_failed :
      (reason : Reason) (e : OpError) (retry : Bool) (s : Session)
      → P s
      → Q (mark_sync_failed w reason e retry s)
  pub ends_recreate : (s : Session) → P s → Q (recreate w s)

-- A step that ends well from every session that the contract starts at.
abbrev pub Meets : (Session → Type 0) → (Outcome × Session → Type 0) → Step → Type 0
Meets P Q step = (s : Session) → P s → Q (step s)

module _ {w : World} {P : Session → Type 0} {Q : Outcome × Session → Type 0}
    (c : Contract w P Q) where
  after_read-Meets : (hash : Text) (a : Answer (Option Fields)) → Meets P Q (after_read w hash a)
  unfolding after_read
  after_read-Meets hash (done state) s h = c.ends_synced s.res.status.id state hash s h
  after_read-Meets hash (failed e) s h = elim (Bool-cases (is_read_not_supported e)) [
    | inl f ↦ rw f (c.ends_synced s.res.status.id none hash s h)
    | inr f ↦ elim (Bool-cases (is_not_found e)) [
      | inl g ↦ rw (f, g) (c.ends_recreate s h)
      | inr g ↦ rw (f, g) (c.ends_failed read_failed (of_run e) true s h)
    ]
  ]

  read_external-Meets : (hash : Text) → Meets P Q (read_external w hash)
  unfolding read_external
  read_external-Meets hash s h =
      let t = call (read s.res.status.id) s in
      after_read-Meets hash (w.run_read t.trace) t (c.stays_read s.res.status.id s h)

  after_patch-Meets :
      (props : Fields) (hash : Text)
      → ((e : RunError) → Meets P Q (reconcile_replacement w props hash e))
      → (a : Answer (Option Fields)) → Meets P Q (after_patch w props hash a)
  unfolding after_patch
  after_patch-Meets props hash q (done state) s h =
      c.ends_synced s.res.status.id state hash (call (event updated) s) (c.stays_event updated s h)
  after_patch-Meets props hash q (failed e) s h = elim (Bool-cases (is_replacement_required e)) [
    | inl f ↦ rw f (q e s h)
    | inr f ↦ elim (Bool-cases (is_read_not_supported e)) [
      | inl g ↦ rw (f, g) (c.ends_failed update_not_supported plain false s h)
      | inr g ↦ elim (Bool-cases (is_not_found e)) [
        | inl i ↦ rw (f, g, i) (c.ends_recreate s h)
        | inr i ↦ rw (f, g, i) (c.ends_failed update_failed (of_run e) true s h)
      ]
    ]
  ]

  update_external-Meets :
      (props : Fields) (hash : Text)
      → ((e : RunError) → Meets P Q (reconcile_replacement w props hash e))
      → Meets P Q (update_external w props hash)
  unfolding update_external
  update_external-Meets props hash q s h =
      let t = call (patch s.res.status.id props) s in
      after_patch-Meets props hash q (w.run_patch t.trace) t
        (c.stays_patch s.res.status.id props s h)

  after_adopting_read-Meets :
      (name hash : Text) (otherwise : Step)
      → Meets P Q otherwise
      → (a : Answer (Option Fields)) → Meets P Q (after_adopting_read w name hash otherwise a)
  unfolding after_adopting_read
  after_adopting_read-Meets name hash otherwise q (done state) s h =
      c.ends_synced name state hash (call (event adopted) s) (c.stays_event adopted s h)
  after_adopting_read-Meets name hash otherwise q (failed e) s h =
      elim (Bool-cases (is_not_found e)) [
        | inl f ↦ rw f (q s h)
        | inr f ↦ elim (Bool-cases (is_read_not_supported e)) [
          | inl g ↦
              rw (f, g)
                (c.ends_synced name none hash (call (event adopted) s) (c.stays_event adopted s h))
          | inr g ↦ rw (f, g) (c.ends_failed adopt_failed (of_run e) true s h)
        ]
      ]

  pub reconcile_create-Meets :
      (props : Fields) (hash : Text)
      → Meets P Q (create_external w props hash)
      → Meets P Q (reconcile_create w props hash)
  unfolding reconcile_create adopt_external
  reconcile_create-Meets props hash q s h = elim (Bool-cases (is_empty (external_name s.res))) [
    | inl e ↦ rw e (q s h)
    | inr e ↦
        let name = external_name s.res in
        let t = call (read name) s in
        rw e (
          after_adopting_read-Meets name hash (create_external w props hash) q (w.run_read t.trace)
            t (c.stays_read name s h))
  ]

  -- The create branch is asked for only where no id is recorded.
  pub reconcile_external-Meets :
      (props : Fields) (hash : Text)
      → ((s : Session)
          → is_empty s.res.status.id ≡ true
          → P s
          → Q (reconcile_create w props hash s))
      → ((e : RunError) → Meets P Q (reconcile_replacement w props hash e))
      → Meets P Q (reconcile_external w props hash)
  unfolding reconcile_external
  reconcile_external-Meets props hash r q s h = elim (Bool-cases (is_empty s.res.status.id)) [
    | inl e ↦ rw e (r s e h)
    | inr e ↦ elim (Bool-cases (text_eq s.res.status.applied_hash hash)) [
      | inl f ↦ rw (e, f) (read_external-Meets hash s h)
      | inr f ↦ rw (e, f) (update_external-Meets props hash q s h)
    ]
  ]
