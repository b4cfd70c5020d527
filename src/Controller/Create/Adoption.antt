-- ===== src/Controller/Create/Adoption.antt =====
-- Recovery from a crash between a Create and the status write (internal/controller/annotations.go).
use doplane.Common.{
  ◌≡◌, refl, ap, ◌∙◌, Text, text_eq, text_eq_refl, text_eq_iff, false, Option, List, [], ◌∷◌,
  Bool-cases, inl, inr,
}
use doplane.Json.{Fields}
use doplane.Runnerops.Path.{is_empty}
use doplane.Controller.Resource.{DoResource, annotation, annotate}
use doplane.Controller.World.{
  Publication, published, unpublished, refused, World, Trace, done, read, event, adopted,
  persist_external_name, publish_connection_secret,
}
use doplane.Controller.Sync.{
  Session, call, external_name, ann_external_name, mark_synced, settle, persisting_external_name,
  publishing, after_publication, schedule_poll, synced_resource, poll_interval, resync_interval,
}
use doplane.Controller.Create.{reconcile_create, adopt_external, after_adopting_read}
use doplane.Controller.Calls.{
  count, is_creation, is_creation-Ignores, mark_synced-Quiet, persisting-res,
}

-- What was recorded under a name is what is read there.
annotation-annotate :
    (anns : List (Text × Text)) (name value : Text)
    → annotation (annotate anns name value) name ≡ value
unfolding annotation annotate
annotation-annotate [] name value = rw (text_eq_refl name) refl
annotation-annotate ((k, v) ∷ rest) name value = elim (Bool-cases (text_eq k name)) [
  | inl e ↦ rw (e, e) refl
  | inr e ↦ rw (e, e) (annotation-annotate rest name value)
]

module _ (w : World) where
  schedule_poll-res : (s : Session) → (schedule_poll w s).1.res ≡ s.res
  schedule_poll-res s = elim (Bool-cases (poll_interval w s.res resync_interval).1) [
    | inl e ↦ rw e refl
    | inr e ↦ rw e refl
  ]

  publishing-res : (s : Session) → (publishing w (schedule_poll w) s).1.res ≡ s.res
  publishing-res s = ended (w.publication (publish_connection_secret ∷ s.trace))
    where
      ended :
          (p : Publication)
          → (after_publication w (schedule_poll w) p (call publish_connection_secret s)).1.res
            ≡ s.res
      ended published = schedule_poll-res (call publish_connection_secret s)
      ended unpublished = refl
      ended refused = refl

  pub mark_synced-res :
      (id : Text) (state : Option Fields) (hash : Text) (s : Session)
      → (mark_synced w id state hash s).1.res ≡ synced_resource w id state hash s.res
  unfolding mark_synced
  mark_synced-res id state hash s =
      persisting-res w (publishing w (schedule_poll w))
        (record s { res = synced_resource w id state hash s.res }) publishing-res

  adopts :
      (props : Fields) (name hash : Text) (state : Option Fields) (s : Session)
      → external_name s.res ≡ name
      → is_empty name ≡ false
      → w.run_read (read name ∷ s.trace) ≡ done state
      → reconcile_create w props hash s
        ≡ mark_synced w name state hash (call (event adopted) (call (read name) s))
  unfolding reconcile_create adopt_external after_adopting_read
  adopts props name hash state s n h a = rw (n, h, a) refl

-- What the object is after its external name was recorded and nothing else was.
crashed : World → Text → Session → DoResource
crashed w id s = (persisting_external_name w id settle s).1.res

external_name-crashed :
    (w : World) (id : Text) (s : Session)
    → w.api_fails (persist_external_name id ∷ s.trace) ≡ false
    → external_name (crashed w id s) ≡ id
unfolding crashed persisting_external_name
external_name-crashed w id s h = elim (Bool-cases (text_eq (external_name s.res) id)) [
  | inl e ↦ rw (crashed, e) ((text_eq_iff (external_name s.res) id).0 e)
  | inr e ↦
      rw (crashed, e, h)
        (unfold external_name in annotation-annotate s.res.annotations ann_external_name id)
]

-- When the process stops after persistExternalName recorded the id of a created resource and before
-- the status was written, then the next reconcileCreate, if the provider can read the id, creates
-- nothing and records that id; the id is not empty, and the write of the name did not fail.
pub reconcile_create-recovers :
    (w : World) (props : Fields) (id hash : Text) (state : Option Fields) (s : Session) (t : Trace)
    → is_empty id ≡ false
    → w.api_fails (persist_external_name id ∷ s.trace) ≡ false
    → w.run_read (read id ∷ t) ≡ done state
    → (count is_creation
          (reconcile_create w props hash
            (record { res = (persisting_external_name w id settle s).1.res; trace = t })).1.trace
        ≡ count is_creation t)
      × ((reconcile_create w props hash (record {
        res = (persisting_external_name w id settle s).1.res;
        trace = t;
      })).1.res.status.id
          ≡ id)
unfolding crashed
reconcile_create-recovers w props id hash state s t n f a =
    let start : Session = record { res = crashed w id s; trace = t } in
    let same = adopts w props id hash state start (external_name-crashed w id s f) n a in
    let recorded = call (event adopted) (call (read id) start) in
    (
      ap (λ r. count is_creation r.1.trace) same
          ∙ mark_synced-Quiet w (count is_creation) is_creation-Ignores id state hash recorded
          ∙ unfold count in refl,
      ap (λ r. r.1.res.status.id) same
          ∙ ap (λ (res : DoResource). res.status.id) (mark_synced-res w id state hash recorded)
          ∙ unfold synced_resource in refl,
    )
