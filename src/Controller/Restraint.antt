-- ===== src/Controller/Restraint.antt =====
-- When a reconcile of internal/controller must not create or delete an external resource.
use doplane.Common.{◌≡◌, refl, ap, Text, true, false, not, ◌&&◌, ◌∷◌, ◌∙◌, Bool-cases, inl, inr}
use doplane.Json.{Fields}
use doplane.Runnerops.Path.{is_empty}
use doplane.Runnerops.Spec.{replacement_required}
use doplane.Pulumido.Runner.{RunError}
use doplane.Controller.Resource.{DoResource, failure_code}
use doplane.Controller.World.{World, Trace, patch, read, event, drifted}
use doplane.Controller.Sync.{
  Session, Outcome, of_run, call, requeue_with, at_once, secret_id_terminal,
}
use doplane.Controller.Create.{create_external}
use doplane.Controller.Replacement.{reconcile_replacement, protected, replacement_approved}
use doplane.Controller.Settled.{recreate, drifted_resource, reconcile_external}
use doplane.Controller.Branches.{Contract, Meets, reconcile_create-Meets, reconcile_external-Meets}
use doplane.Controller.Calls.{
  count, is_creation, is_deletion, Ignores, is_creation-Ignores, is_deletion-Ignores, Quiet,
  persisting-Quiet, mark_synced-Quiet, mark_sync_failed-Quiet,
}

-- A measure of the calls that no read, patch or record of an outcome counts for.
record IsDrastic {A : Type 0} (f : Trace → A) : Type 0 where
  ignores : Ignores f
  of_read : (id : Text) (t : Trace) → f (read id ∷ t) ≡ f t
  of_patch : (id : Text) (props : Fields) (t : Trace) → f (patch id props ∷ t) ≡ f t

is_creation-IsDrastic : IsDrastic (count is_creation)
unfolding count
is_creation-IsDrastic = record {
  ignores = is_creation-Ignores;
  of_read = λ id t. refl;
  of_patch = λ id props t. refl;
}

is_deletion-IsDrastic : IsDrastic (count is_deletion)
unfolding count
is_deletion-IsDrastic = record {
  ignores = is_deletion-Ignores;
  of_read = λ id t. refl;
  of_patch = λ id props t. refl;
}

-- The measure has the value, and the object is the one given.
AtValue : {A : Type 0} → (Trace → A) → A → DoResource → Session → Type 0
AtValue m n res s = (m s.trace ≡ n) × (s.res ≡ res)

EndsAt : {A : Type 0} → (Trace → A) → A → Outcome × Session → Type 0
EndsAt m n r = m r.1.trace ≡ n

module _ (w : World) {A : Type 0} (m : Trace → A) (d : IsDrastic m) where
  recreate-Quiet : Quiet m (recreate w)
  unfolding recreate
  recreate-Quiet s =
      rw
        (persisting-Quiet w m d.ignores (requeue_with at_once) (λ t. refl)
          (record (call (event drifted) s) { res = drifted_resource w s.res }))
        (d.ignores.of_event drifted s.trace)

  quiet_contract : (n : A) (res : DoResource) → Contract w (AtValue m n res) (EndsAt m n)
  unfolding AtValue EndsAt
  quiet_contract n res = record {
    stays_event = λ r s h. (d.ignores.of_event r s.trace ∙ h.0, h.1);
    stays_read = λ id s h. (d.of_read id s.trace ∙ h.0, h.1);
    stays_patch = λ id props s h. (d.of_patch id props s.trace ∙ h.0, h.1);
    ends_synced = λ id state hash s h. mark_synced-Quiet w m d.ignores id state hash s ∙ h.0;
    ends_failed = λ reason e retry s h. mark_sync_failed-Quiet w m d.ignores reason e retry s ∙ h.0;
    ends_recreate = λ s h. recreate-Quiet s ∙ h.0;
  }

  -- Without an approval a protected resource is not replaced.
  replacement_protected :
      (n : A) (res : DoResource)
      → protected res ≡ true
      → replacement_approved res ≡ false
      → (props : Fields) (hash : Text) (e : RunError)
      → Meets (AtValue m n res) (EndsAt m n) (reconcile_replacement w props hash e)
  unfolding reconcile_replacement AtValue EndsAt
  replacement_protected n res f g props hash e s (h, same) =
      let is_protected : protected s.res ≡ true = ap protected same ∙ f in
      let unapproved : replacement_approved s.res ≡ false = ap replacement_approved same ∙ g in
      rw (is_protected, unapproved)
        (mark_sync_failed-Quiet w m d.ignores (failure_code replacement_required) (of_run e) false s
          ∙ h)

  -- After a leak the generation is not tried again.
  replacement_terminal :
      (n : A) (res : DoResource)
      → secret_id_terminal w res ≡ true
      → (props : Fields) (hash : Text) (e : RunError)
      → Meets (AtValue m n res) (EndsAt m n) (reconcile_replacement w props hash e)
  unfolding reconcile_replacement AtValue EndsAt
  replacement_terminal n res f props hash e s (h, same) =
      elim (Bool-cases (protected s.res && not (replacement_approved s.res))) [
        | inl g ↦ rw g (
            mark_sync_failed-Quiet w m d.ignores (failure_code replacement_required) (of_run e)
              false s
            ∙ h)
        | inr g ↦ rw (g, same, f) h
      ]

  create_terminal :
      (n : A) (res : DoResource)
      → secret_id_terminal w res ≡ true
      → (props : Fields) (hash : Text)
      → Meets (AtValue m n res) (EndsAt m n) (create_external w props hash)
  unfolding create_external AtValue EndsAt
  create_terminal n res f props hash s (h, same) = rw (same, f) h

  terminal_lem :
      (props : Fields) (hash : Text) (s : Session)
      → secret_id_terminal w s.res ≡ true
      → m (reconcile_external w props hash s).1.trace ≡ m s.trace
  unfolding AtValue EndsAt
  terminal_lem props hash s f =
      let c = quiet_contract (m s.trace) s.res in
      reconcile_external-Meets c props hash
        (λ t _.
          reconcile_create-Meets c props hash (create_terminal (m s.trace) s.res f props hash) t)
        (replacement_terminal (m s.trace) s.res f props hash) s (refl, refl)

  protected_lem :
      (props : Fields) (hash : Text) (s : Session)
      → is_empty s.res.status.id ≡ false
      → protected s.res ≡ true
      → replacement_approved s.res ≡ false
      → m (reconcile_external w props hash s).1.trace ≡ m s.trace
  unfolding AtValue EndsAt
  protected_lem props hash s n f g =
      reconcile_external-Meets (quiet_contract (m s.trace) s.res) props hash
        (λ t e h. let same = h.1 in cc) (replacement_protected (m s.trace) s.res f g props hash) s
        (refl, refl)

-- Once a generation is known to leak a secret into an id, the last switch of Reconcile creates
-- nothing and deletes nothing for it, whatever the provider answers.
pub reconcile_external-terminal :
    (w : World) (props : Fields) (hash : Text) (s : Session)
    → secret_id_terminal w s.res ≡ true
    → (count is_creation (reconcile_external w props hash s).1.trace ≡ count is_creation s.trace)
      × (count is_deletion (reconcile_external w props hash s).1.trace ≡ count is_deletion s.trace)
reconcile_external-terminal w props hash s f = (
  terminal_lem w (count is_creation) is_creation-IsDrastic props hash s f,
  terminal_lem w (count is_deletion) is_deletion-IsDrastic props hash s f,
)

-- For a protected resource whose id is recorded, and whose generation nobody approved for
-- replacement, the last switch of Reconcile, which creates, updates or reads the external
-- resource, neither creates nor deletes one, whatever the provider answers.
pub reconcile_external-protected :
    (w : World) (props : Fields) (hash : Text) (s : Session)
    → is_empty s.res.status.id ≡ false
    → protected s.res ≡ true
    → replacement_approved s.res ≡ false
    → (count is_creation (reconcile_external w props hash s).1.trace ≡ count is_creation s.trace)
      × (count is_deletion (reconcile_external w props hash s).1.trace ≡ count is_deletion s.trace)
reconcile_external-protected w props hash s n f g = (
  protected_lem w (count is_creation) is_creation-IsDrastic props hash s n f g,
  protected_lem w (count is_deletion) is_deletion-IsDrastic props hash s n f g,
)
