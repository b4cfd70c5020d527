-- ===== src/Controller/Leaks/Recorded.antt =====
-- A Create that was refused for a secret in its id is recorded by every branch of a reconcile
-- (internal/controller), and is not tried again.
use doplane.Common.{
  ◌≡◌, refl, ◌∙◌, if◌then◌else◌, Text, text_eq, true, false, not, ◌&&◌, Option, none, some,
  Bool-cases, inl, inr,
}
use doplane.Json.{Fields}
use doplane.Runnerops.Spec.{Code, secret_input_in_id, replacement_required}
use doplane.Pulumido.Runner.{
  RunError, code_of, is_code_already_exists, is_code_secret_input_in_id, is_already_exists,
  is_secret_input_in_id,
}
use doplane.Controller.Resource.{Reason, failure_code, create_failed, replace_failed}
use doplane.Controller.World.{
  World, ConditionLaws, Answer, done, failed, create, delete, event, created, replaced,
  orphaned_old_resource, drifted,
}
use doplane.Controller.Sync.{
  Session, Outcome, Step, of_run, call, settle, secret_id_terminal, requeue_with, at_once,
  mark_synced, persisting_external_name, mark_sync_failed,
}
use doplane.Controller.Create.{after_create, create_external}
use doplane.Controller.Replacement.{
  reconcile_replacement, after_first_create, replace_after_delete, after_conflict_delete,
  after_swap, delete_old, note_orphan, protected, replacement_approved,
}
use doplane.Controller.DeleteState.{delete_state}
use doplane.Controller.Settled.{reconcile_external, recreate, drifted_resource}
use doplane.Controller.Calls.{
  Quiet, persisting-Quiet, mark_synced-Quiet, mark_sync_failed-Quiet,
  persisting_external_name-Quiet, count, is_creation,
}
use doplane.Controller.Branches.{Contract, Meets, reconcile_create-Meets, reconcile_external-Meets}
use doplane.Controller.Restraint.{reconcile_external-terminal}
use doplane.Controller.Leaks.{leaked, leaked-Ignores, is_leak, mark_sync_failed-terminal}

-- No Create has leaked yet.
NoLeak : World → Session → Type 0
NoLeak w s = leaked w s.trace ≡ false

-- If the last Create leaked, the object says so.
Recorded : World → Outcome × Session → Type 0
Recorded w r = leaked w r.1.trace ≡ true → secret_id_terminal w r.1.res ≡ true

-- A conflict of identities is no leak.
conflict_code :
    (o : Option Code) → is_code_already_exists o ≡ true → is_code_secret_input_in_id o ≡ false
conflict_code none h = refl
conflict_code (some secret_input_in_id) h = cc
conflict_code (some c) h = refl

module _ (w : World) (laws : ConditionLaws w) where
  Quiet-Recorded : (step : Step) → Quiet (leaked w) step → Meets (NoLeak w) (Recorded w) step
  unfolding NoLeak Recorded
  Quiet-Recorded step q s h l = let same = q s in cc

  naming-Recorded :
      (name : Text) (next : Step)
      → Quiet (leaked w) next
      → Meets (NoLeak w) (Recorded w) (persisting_external_name w name next)
  naming-Recorded name next q =
      Quiet-Recorded (persisting_external_name w name next)
        (persisting_external_name-Quiet w (leaked w) (leaked-Ignores w) name next q)

  recreate-Quiet : Quiet (leaked w) (recreate w)
  unfolding recreate
  recreate-Quiet s =
      persisting-Quiet w (leaked w) (leaked-Ignores w) (requeue_with at_once) (λ t. refl)
        (record (call (event drifted) s) { res = drifted_resource w s.res })
      ∙ (leaked-Ignores w).of_event drifted s.trace

  recording_contract : Contract w (NoLeak w) (Recorded w)
  unfolding NoLeak leaked
  recording_contract = record {
    stays_event = λ r s h. h;
    stays_read = λ id s h. h;
    stays_patch = λ id props s h. h;
    ends_synced = λ id state hash.
        Quiet-Recorded (mark_synced w id state hash)
          (mark_synced-Quiet w (leaked w) (leaked-Ignores w) id state hash);
    ends_failed = λ reason e retry.
        Quiet-Recorded (mark_sync_failed w reason e retry)
          (mark_sync_failed-Quiet w (leaked w) (leaked-Ignores w) reason e retry);
    ends_recreate = Quiet-Recorded (recreate w) recreate-Quiet;
  }

  -- The outcome of the Create that was made last.
  Answered : Answer (Text × Option Fields) → Session → Type 0
  Answered a s = leaked w s.trace ≡ is_leak a

  after_failure :
      (reason : Reason) (e : RunError)
      → (s : Session) → Answered (failed e) s
      → Recorded w (
          if is_secret_input_in_id e
          then mark_sync_failed w (failure_code secret_input_in_id) (of_run e) false s
          else mark_sync_failed w reason (of_run e) true s)
  unfolding Answered Recorded NoLeak
  after_failure reason e s h = elim (Bool-cases (is_secret_input_in_id e)) [
    | inl f ↦
        rw f (λ _. mark_sync_failed-terminal w laws (failure_code secret_input_in_id) e false s f)
    | inr f ↦ rw f (recording_contract.ends_failed reason (of_run e) true s (h ∙ f))
  ]

  after_create-Recorded :
      (hash : Text) (a : Answer (Text × Option Fields)) (s : Session)
      → Answered a s
      → Recorded w (after_create w hash a s)
  unfolding after_create Answered NoLeak
  after_create-Recorded hash (done (id, state)) s h =
      naming-Recorded id _
        (λ t.
          mark_synced-Quiet w (leaked w) (leaked-Ignores w) id state hash (call (event created) t)
          ∙ (leaked-Ignores w).of_event created t.trace)
        s h
  after_create-Recorded hash (failed e) s h = after_failure create_failed e s h

  create_external-Recorded :
      (props : Fields) (hash : Text) → Meets (NoLeak w) (Recorded w) (create_external w props hash)
  unfolding create_external Answered leaked
  create_external-Recorded props hash s h = elim (Bool-cases (secret_id_terminal w s.res)) [
    | inl e ↦ rw e (Quiet-Recorded settle (λ t. refl) s h)
    | inr e ↦
        let t = call (create props) s in
        rw e (after_create-Recorded hash (w.run_create t.trace) t refl)
  ]

  delete_old-Quiet :
      (id old_id : Text) (old_state : Option Fields) (s : Session)
      → leaked w (delete_old w id old_id old_state s).trace ≡ leaked w s.trace
  unfolding delete_old leaked
  delete_old-Quiet id old_id old_state s = elim (Bool-cases (text_eq id old_id)) [
    | inl e ↦ rw e refl
    | inr e ↦ rw e (noted _ (call (delete old_id old_state) s))
  ]
    where
      noted :
          (o : Option RunError) (t : Session)
          → leaked w (note_orphan w o t).trace ≡ leaked w t.trace
      noted none t = refl
      noted (some e) t = (leaked-Ignores w).of_event orphaned_old_resource t.trace

  after_swap-Recorded :
      (hash old_id : Text) (old_state : Option Fields) (a : Answer (Text × Option Fields))
      → (s : Session) → Answered a s
      → Recorded w (after_swap w hash old_id old_state a s)
  unfolding after_swap Answered NoLeak
  after_swap-Recorded hash old_id old_state (done (id, state)) s h =
      naming-Recorded id _
        (λ t.
          mark_synced-Quiet w (leaked w) (leaked-Ignores w) id state hash
            (call (event replaced) (delete_old w id old_id old_state t))
          ∙ (leaked-Ignores w).of_event replaced (delete_old w id old_id old_state t).trace
          ∙ delete_old-Quiet id old_id old_state t)
        s h
  after_swap-Recorded hash old_id old_state (failed e) s h = after_failure replace_failed e s h

  after_conflict_delete-Recorded :
      (props : Fields) (hash old_id : Text) (old_state : Option Fields) (o : Option RunError)
      → Meets (NoLeak w) (Recorded w) (after_conflict_delete w props hash old_id old_state o)
  unfolding after_conflict_delete Answered leaked
  after_conflict_delete-Recorded props hash old_id old_state (some e) s h =
      recording_contract.ends_failed replace_failed (of_run e) true s h
  after_conflict_delete-Recorded props hash old_id old_state none s h =
      let t = call (create props) s in
      after_swap-Recorded hash old_id old_state (w.run_create t.trace) t refl

  after_first_create-Recorded :
      (props : Fields) (hash old_id : Text) (old_state : Option Fields)
      → (a : Answer (Text × Option Fields)) (s : Session) → Answered a s
      → Recorded w (after_first_create w props hash old_id old_state a s)
  unfolding after_first_create replace_after_delete Answered NoLeak leaked
  after_first_create-Recorded props hash old_id old_state (done r) s h =
      after_swap-Recorded hash old_id old_state (done r) s h
  after_first_create-Recorded props hash old_id old_state (failed e) s h =
      elim (Bool-cases (is_already_exists e)) [
        | inl f ↦ rw f (
            after_conflict_delete-Recorded props hash old_id old_state _
              (call (delete old_id old_state) s) (h ∙ conflict_code (code_of e) f))
        | inr f ↦ rw f (after_swap-Recorded hash old_id old_state (failed e) s h)
      ]

  reconcile_replacement-Recorded :
      (props : Fields) (hash : Text) (e : RunError)
      → Meets (NoLeak w) (Recorded w) (reconcile_replacement w props hash e)
  unfolding reconcile_replacement Answered leaked
  reconcile_replacement-Recorded props hash e s h =
      elim (Bool-cases (protected s.res && not (replacement_approved s.res))) [
        | inl f ↦ rw f (
            recording_contract.ends_failed (failure_code replacement_required) (of_run e) false s h)
        | inr f ↦ elim (Bool-cases (secret_id_terminal w s.res)) [
          | inl g ↦ rw (f, g) (Quiet-Recorded settle (λ t. refl) s h)
          | inr g ↦
              let t = call (create props) s in
              rw (f, g)
                (after_first_create-Recorded props hash s.res.status.id (delete_state s.res)
                  (w.run_create t.trace) t refl)
        ]
      ]

-- If the last Create of the last switch of Reconcile was refused because of a secret in the id,
-- whichever branch made it, then the object is terminal for its generation afterwards; this
-- supposes that the library finds the conditions that it set, and that the last Create in the
-- trace before, if any, was not refused in this way.
pub reconcile_external-records_leak :
    (w : World)
    → ConditionLaws w
    → (props : Fields) (hash : Text) (s : Session) → leaked w s.trace ≡ false
    → leaked w (reconcile_external w props hash s).1.trace ≡ true
    → secret_id_terminal w (reconcile_external w props hash s).1.res ≡ true
unfolding NoLeak Recorded
reconcile_external-records_leak w laws props hash s h =
    reconcile_external-Meets (recording_contract w laws) props hash
      (λ t _.
        reconcile_create-Meets (recording_contract w laws) props hash
          (create_external-Recorded w laws props hash) t)
      (reconcile_replacement-Recorded w laws props hash) s h

-- After a run of the last switch of Reconcile whose last Create was refused because of a secret
-- in the id, a further run for the object in hand, with any inputs, creates nothing; this
-- supposes that the library finds the conditions that it set, and that the last Create in the
-- trace before, if any, was not refused in this way.
pub reconcile_external-leaks_once :
    (w : World)
    → ConditionLaws w
    → (props props' : Fields) (hash hash' : Text) (s : Session) → leaked w s.trace ≡ false
    → leaked w (reconcile_external w props hash s).1.trace ≡ true
    → count is_creation
        (reconcile_external w props' hash' (reconcile_external w props hash s).1).1.trace
      ≡ count is_creation (reconcile_external w props hash s).1.trace
reconcile_external-leaks_once w laws props props' hash hash' s h l =
    (reconcile_external-terminal w props' hash' (reconcile_external w props hash s).1
      (reconcile_external-records_leak w laws props hash s h l)).0
