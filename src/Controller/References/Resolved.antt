-- ===== src/Controller/References/Resolved.antt =====
-- What is known once the references of an object are resolved (internal/controller/references.go).
use doplane.Common.{
  ◌≡◌, refl, ◌⊎◌, Text, Bool, true, false, Option, none, some, List, [], ◌∷◌, All, Bool-cases, inl,
  inr,
}
use doplane.Json.{Json, Fields}
use doplane.Runnerops.Path.Access.{AccessError}
use doplane.Controller.Resource.{
  DoResource, Reference, invalid_references, cyclic_reference, waiting_for_dependency, ready,
}
use doplane.Controller.World.{World}
use doplane.Controller.Sync.{Session, Outcome, Step, plain, requeue_with, after, set_condition}
use doplane.Controller.Calls.{
  count, is_cloud_call, is_cloud_call-Ignores, persisting-Quiet, mark_sync_failed-Quiet,
}
use doplane.Controller.Graph.{detect_cycle}
use doplane.Controller.References.{
  FieldValue, populated, unpopulated, bad_outputs, bad_field_path, resolve_field_path, SourceRead,
  ReferenceError, source_is, source_missing, source_unreadable, References, resolved, invalid,
  Waiting, also_waiting, for_object, for_field, after_write, with_field, with_source,
  resolve_references, after_resolving, unless_cyclic, with_references, apply_references,
  waiting_retry,
}

-- The source exists, and its field has a value.
pub record IsAvailable (read_source : Text → SourceRead) (ref : Reference) : Type 0 where
  pub source : DoResource
  pub value : Json
  pub found : read_source ref.from.name ≡ source_is source
  pub field : resolve_field_path source ref.from.field_path ≡ populated value

nothing_waits : References → Bool
nothing_waits (resolved []) = true
nothing_waits r = false

also_waiting-waits :
    (item : Waiting) (r : References) → nothing_waits (also_waiting item r) ≡ true → ⊥
unfolding nothing_waits
also_waiting-waits item (resolved ws) h = cc
also_waiting-waits item (invalid e) h = cc

refused : (e : ReferenceError) → nothing_waits (invalid e) ≡ true → ⊥
unfolding nothing_waits
refused e h = cc

-- One reference was written and nothing after it waits.
record IsDone (ref : Reference) (next : Fields → Fields × References) (answer : SourceRead)
    : Type 0 where
  source : DoResource
  value : Json
  found : answer ≡ source_is source
  field : resolve_field_path source ref.from.field_path ≡ populated value
  later : Fields
  rest : nothing_waits (next later).1 ≡ true

module _ (marshal : Json → Text) (output_exists : DoResource → Text → Bool)
    (read_source : Text → SourceRead) where
  after_write-done :
      (path : Text) (next : Fields → Fields × References) (r : Fields × Option AccessError)
      → nothing_waits (after_write marshal path next r).1 ≡ true
      → (props : Fields) × (nothing_waits (next props).1 ≡ true)
  unfolding nothing_waits
  after_write-done path next (props, none) h = (props, h)
  after_write-done path next (props, some e) h = cc

  with_field-IsDone :
      (ref : Reference) (src : DoResource) (next : Fields → Fields × References) (props : Fields)
      → (v : FieldValue) → resolve_field_path src ref.from.field_path ≡ v
      → nothing_waits (with_field marshal output_exists read_source ref src next props v).1 ≡ true
      → IsDone ref next (source_is src)
  unfolding with_field
  with_field-IsDone ref src next props (populated value) e h =
      let written = after_write-done ref.to_path next _ h in
      record {
        source = src;
        value = value;
        found = refl;
        field = e;
        later = written.0;
        rest = written.1;
      }
  with_field-IsDone ref src next props unpopulated e h =
      elim (Bool-cases (output_exists src ref.from.field_path)) [
        | inl f ↦ absurd (
            also_waiting-waits (for_field ref.from.name ref.from.field_path) (next props).1
              (rw f at h))
        | inr f ↦ absurd (refused _ (rw f at h))
      ]
  with_field-IsDone ref src next props bad_outputs e h = unfold nothing_waits in cc h
  with_field-IsDone ref src next props bad_field_path e h = unfold nothing_waits in cc h

  with_source-IsDone :
      (ref : Reference) (next : Fields → Fields × References) (props : Fields) (answer : SourceRead)
      → nothing_waits (with_source marshal output_exists read_source ref next props answer).1 ≡ true
      → IsDone ref next answer
  unfolding with_source
  with_source-IsDone ref next props source_missing h =
      absurd (also_waiting-waits (for_object ref.from.name) (next props).1 h)
  with_source-IsDone ref next props source_unreadable h = unfold nothing_waits in cc h
  with_source-IsDone ref next props (source_is src) h =
      with_field-IsDone ref src next props _ refl h

  resolve_references-All :
      (refs : List Reference) (props : Fields)
      → nothing_waits (resolve_references marshal output_exists read_source refs props).1 ≡ true
      → All (IsAvailable read_source) refs
  unfolding resolve_references
  resolve_references-All [] props h = tt
  resolve_references-All (ref ∷ refs) props h =
      let resolving = with_source-IsDone ref _ props (read_source ref.from.name) h in
      (
        record {
          source = resolving.source;
          value = resolving.value;
          found = resolving.found;
          field = resolving.field;
        },
        resolve_references-All refs resolving.later resolving.rest,
      )

  -- The sources are there, or no call goes to the provider.
  Gated : List Reference → Session → Outcome × Session → Type 0
  Gated refs s r =
      All (IsAvailable read_source) refs
      ⊎ (count is_cloud_call r.1.trace ≡ count is_cloud_call s.trace)

  after_resolving-Gated :
      (w : World) (next : Fields → Step) (refs : List Reference) (r : Fields × References)
      → (nothing_waits r.1 ≡ true → All (IsAvailable read_source) refs)
      → (s : Session) → Gated refs s (after_resolving marshal output_exists read_source w next r s)
  unfolding after_resolving nothing_waits Gated
  after_resolving-Gated w next refs (props, invalid e) a s = inr (
      mark_sync_failed-Quiet w (count is_cloud_call) is_cloud_call-Ignores invalid_references plain
        false s)
  after_resolving-Gated w next refs (props, resolved []) a s = inl (a refl)
  after_resolving-Gated w next refs (props, resolved (item ∷ waiting)) a s = inr (
      persisting-Quiet w (count is_cloud_call) is_cloud_call-Ignores
        (requeue_with (after (waiting_retry marshal output_exists read_source))) (λ t. refl)
        (record s { res = set_condition w s.res ready false waiting_for_dependency }))

  unless_cyclic-Gated :
      (w : World) (next : Step) (refs : List Reference) (cycle : Option (List Text)) (s : Session)
      → Gated refs s (next s)
      → Gated refs s (unless_cyclic marshal output_exists read_source w next cycle s)
  unfolding Gated
  unless_cyclic-Gated w next refs none s h = h
  unless_cyclic-Gated w next refs (some cycle) s h = inr (
      mark_sync_failed-Quiet w (count is_cloud_call) is_cloud_call-Ignores cyclic_reference plain
        false s)

  with_references-Gated :
      (w : World) (store : List DoResource) (next : Fields → Step) (props : Fields)
      → (refs : List Reference) (s : Session)
      → Gated refs s (with_references marshal output_exists read_source w store next props refs s)
  with_references-Gated w store next props [] s = unfold Gated in inl tt
  with_references-Gated w store next props (ref ∷ refs) s =
      unless_cyclic-Gated w _ (ref ∷ refs) (detect_cycle store s.res) s
        (after_resolving-Gated w next (ref ∷ refs) _ (resolve_references-All (ref ∷ refs) props) s)

-- A reconcile does not reach the provider before its references are available: whatever follows
-- applyReferences, either every reference's source exists and has a value at the field path, or no
-- call of the runner is made.
pub apply_references-gates :
    (marshal : Json → Text) (output_exists : DoResource → Text → Bool)
    → (read_source : Text → SourceRead) (w : World) (store : List DoResource)
    → (next : Fields → Step) (props : Fields) (s : Session)
    → All (IsAvailable read_source) s.res.spec.references
      ⊎ (count is_cloud_call
            (apply_references marshal output_exists read_source w store next props s).1.trace
          ≡ count is_cloud_call s.trace)
unfolding apply_references Gated
apply_references-gates marshal output_exists read_source w store next props s =
    with_references-Gated marshal output_exists read_source w store next props s.res.spec.references
      s
