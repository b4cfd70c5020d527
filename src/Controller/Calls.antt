-- ===== src/Controller/Calls.antt =====
-- Counts of the calls of a reconcile (internal/controller), and what recording an outcome adds.
use doplane.Common.{
  ℕ, zero, suc, ◌≡◌, ◌∙◌, refl, Text, text_eq, Bool, true, false, Option, [], ◌∷◌, if◌then◌else◌,
  Bool-cases, inl, inr,
}
use doplane.Json.{Fields}
use doplane.Controller.Resource.{DoResourceStatus, Reason}
use doplane.Controller.World.{
  Publication, published, unpublished, refused, World, Call, Trace, create, patch, read,
  create_component, update_component, delete_component, delete, event, EventReason, sync_failed,
  invalid_poll_interval, connection_secret_failed, persist_status, persist_external_name,
  publish_connection_secret,
}
use doplane.Controller.Sync.{
  Session, Step, OpError, call, settle, fail, persisting, after_publication, publishing,
  schedule_poll, mark_synced, mark_sync_failed, persisting_external_name, external_name,
  poll_interval, resync_interval, synced_resource, failed_resource, failure_reason, op_failed,
}

unfoldable pub count : (Call → Bool) → Trace → ℕ
count p [] = zero
count p (c ∷ t) = let n = count p t in if p c then suc n else n

abbrev pub is_creation : Call → Bool
is_creation (create props) = true
is_creation c = false

-- A deletion of the external resource, a component or not.
abbrev pub is_deletion : Call → Bool
is_deletion (delete id state) = true
is_deletion (delete_component state) = true
is_deletion c = false

-- The calls of the runner.
abbrev pub is_cloud_call : Call → Bool
is_cloud_call (create props) = true
is_cloud_call (patch id props) = true
is_cloud_call (read id) = true
is_cloud_call (delete id state) = true
is_cloud_call (create_component props) = true
is_cloud_call (update_component props state) = true
is_cloud_call (delete_component state) = true
is_cloud_call c = false

-- A measure of the calls that no call counts for which only records an outcome.
pub record Ignores {A : Type 0} (f : Trace → A) : Type 0 where
  pub of_event : (r : EventReason) (t : Trace) → f (event r ∷ t) ≡ f t
  pub of_status : (st : DoResourceStatus) (t : Trace) → f (persist_status st ∷ t) ≡ f t
  pub of_name : (name : Text) (t : Trace) → f (persist_external_name name ∷ t) ≡ f t
  pub of_publication : (t : Trace) → f (publish_connection_secret ∷ t) ≡ f t

pub is_creation-Ignores : Ignores (count is_creation)
unfolding count
is_creation-Ignores = record {
  of_event = λ r t. refl;
  of_status = λ st t. refl;
  of_name = λ name t. refl;
  of_publication = λ t. refl;
}

pub is_deletion-Ignores : Ignores (count is_deletion)
unfolding count
is_deletion-Ignores = record {
  of_event = λ r t. refl;
  of_status = λ st t. refl;
  of_name = λ name t. refl;
  of_publication = λ t. refl;
}

pub is_cloud_call-Ignores : Ignores (count is_cloud_call)
unfolding count
is_cloud_call-Ignores = record {
  of_event = λ r t. refl;
  of_status = λ st t. refl;
  of_name = λ name t. refl;
  of_publication = λ t. refl;
}

-- A step that does not change the measure.
abbrev pub Quiet : {A : Type 0} → (Trace → A) → Step → Type 0
Quiet f step = (s : Session) → f (step s).1.trace ≡ f s.trace

-- Recording a status leaves the object in hand as it is.
module _ (w : World) where
  pub persisting-res :
      (next : Step) (s : Session)
      → ((t : Session) → (next t).1.res ≡ t.res)
      → (persisting w next s).1.res ≡ s.res
  persisting-res next s h =
      elim (Bool-cases (w.api_fails (persist_status s.res.status ∷ s.trace))) [
        | inl e ↦ rw e refl
        | inr e ↦ rw e (h (call (persist_status s.res.status) s))
      ]

module _ (w : World) {A : Type 0} (f : Trace → A) (ig : Ignores f) where
  schedule_poll-Quiet : Quiet f (schedule_poll w)
  schedule_poll-Quiet s = elim (Bool-cases (poll_interval w s.res resync_interval).1) [
    | inl e ↦ rw e refl
    | inr e ↦ rw e (ig.of_event invalid_poll_interval s.trace)
  ]

  publishing-Quiet : (next : Step) → Quiet f next → Quiet f (publishing w next)
  publishing-Quiet next q s =
      ended (w.publication (publish_connection_secret ∷ s.trace)) ∙ ig.of_publication s.trace
    where
      ended :
          (p : Publication)
          → f (after_publication w next p (call publish_connection_secret s)).1.trace
            ≡ f (publish_connection_secret ∷ s.trace)
      ended published = q (call publish_connection_secret s)
      ended unpublished = ig.of_event connection_secret_failed (publish_connection_secret ∷ s.trace)
      ended refused = ig.of_event connection_secret_failed (publish_connection_secret ∷ s.trace)

  pub persisting-Quiet : (next : Step) → Quiet f next → Quiet f (persisting w next)
  persisting-Quiet next q s =
      elim (Bool-cases (w.api_fails (persist_status s.res.status ∷ s.trace))) [
        | inl e ↦ rw e (ig.of_status s.res.status s.trace)
        | inr e ↦
            rw (e, q (call (persist_status s.res.status) s)) (ig.of_status s.res.status s.trace)
      ]

  pub mark_synced-Quiet :
      (id : Text) (state : Option Fields) (hash : Text) → Quiet f (mark_synced w id state hash)
  unfolding mark_synced
  mark_synced-Quiet id state hash s =
      persisting-Quiet (publishing w (schedule_poll w))
        (publishing-Quiet (schedule_poll w) schedule_poll-Quiet)
        (record s { res = synced_resource w id state hash s.res })

  after_event :
      (r : EventReason) (step : Step) → Quiet f step → Quiet f (λ s. step (call (event r) s))
  after_event r step q s = rw (q (call (event r) s)) (ig.of_event r s.trace)

  retrying-Quiet :
      (e : OpError) (retry : Bool) → Quiet f (if retry then fail (op_failed e) else settle)
  retrying-Quiet e true s = refl
  retrying-Quiet e false s = refl

  pub mark_sync_failed-Quiet :
      (reason : Reason) (e : OpError) (retry : Bool) → Quiet f (mark_sync_failed w reason e retry)
  unfolding mark_sync_failed
  mark_sync_failed-Quiet reason e retry s =
      let r = failure_reason reason e in
      rw
        (persisting-Quiet (if retry then fail (op_failed e) else settle) (retrying-Quiet e retry)
          (record (call (event (sync_failed r)) s) { res = failed_resource w r s.res }))
        (ig.of_event (sync_failed r) s.trace)

  pub persisting_external_name-Quiet :
      (name : Text) (next : Step) → Quiet f next → Quiet f (persisting_external_name w name next)
  unfolding persisting_external_name
  persisting_external_name-Quiet name next q s =
      elim (Bool-cases (text_eq (external_name s.res) name)) [
        | inl e ↦ rw e (q s)
        | inr e ↦ elim (Bool-cases (w.api_fails (persist_external_name name ∷ s.trace))) [
          | inl g ↦ rw (e, g) (ig.of_name name s.trace)
          | inr g ↦ rw (e, g, q _) (ig.of_name name s.trace)
        ]
      ]
