-- ===== src/Controller/References.antt =====
-- internal/controller/references.go: the reference phase of a reconcile. Rendering a JSON number or
-- document as text is left to `encoding/json`, the parameter `marshal`; the schema of a source's
-- outputs comes from the registry, the parameter `output_exists`.
pub mod Resolved
pub mod Tests
use doplane.Common.{
  ℕ, Text, bytes, text_eq, has_prefix, replace_all, Bool, true, false, not, Option, none, some,
  List, [], ◌∷◌, ◌++◌, if◌then◌else◌, ◌||◌, length,
}
use doplane.Json.{Json, null, bool, number, string, arr, obj, Fields}
use doplane.Runnerops.Path.{is_empty}
use doplane.Runnerops.Path.Access.{AccessError, set_path, get_path}
use doplane.Controller.Resource.{
  DoResource, Document, absent, object, malformed, Reference, ready, cyclic_reference,
  invalid_references, waiting_for_dependency,
}
use doplane.Controller.World.{World}
use doplane.Controller.Sync.{
  Session, Outcome, Step, plain, after, requeue_with, set_condition, persisting, mark_sync_failed,
}
use doplane.Controller.Graph.{detect_cycle}

-- Go's `strings.TrimPrefix`, where the text has the prefix.
unfoldable pub drop_bytes : Text → Text → Text
drop_bytes [] s = s
drop_bytes (b ∷ prefix) [] = []
drop_bytes (b ∷ prefix) (c ∷ s) = drop_bytes prefix s

abbrev pub field_path_id : Text
field_path_id = bytes "status.id"

abbrev pub field_path_outputs : Text
field_path_outputs = bytes "status.outputs"

abbrev pub output_prefix : Text
output_prefix = bytes "status.outputs."

-- The value that a field path gives, if it is populated, or an error.
pub data FieldValue : Type 0 where
  populated : Json → FieldValue
  unpopulated : FieldValue
  bad_outputs : FieldValue
  bad_field_path : FieldValue

abbrev pub found_value : Option Json → FieldValue
found_value none = unpopulated
found_value (some v) = populated v

abbrev pub value_in_outputs : Text → Document → FieldValue
value_in_outputs field_path absent = unpopulated
value_in_outputs field_path malformed = bad_outputs
value_in_outputs field_path (object fs) =
    if text_eq field_path field_path_outputs
    then populated (obj fs)
    else found_value (get_path (obj fs) (drop_bytes output_prefix field_path))

-- `resolveFieldPath`
unfoldable pub resolve_field_path : DoResource → Text → FieldValue
resolve_field_path src field_path =
    if text_eq field_path field_path_id
    then (if is_empty src.status.id then unpopulated else populated (string src.status.id))
    else if text_eq field_path field_path_outputs || has_prefix output_prefix field_path
    then value_in_outputs field_path src.status.outputs
    else bad_field_path

-- `literalMark`, between two NUL bytes
abbrev pub literal_mark : Text
literal_mark = 0 ∷ (bytes "DOPLANE_LITERAL" ++ 0 ∷ [])

-- `expandTemplate`
unfoldable pub expand_template : Text → Text → Text
expand_template tpl rendered =
    replace_all literal_mark (bytes "${value}")
      (replace_all (bytes "${value}") rendered (replace_all (bytes "$${value}") literal_mark tpl))

-- The answer of the API server for a source.
pub data SourceRead : Type 0 where
  source_is : DoResource → SourceRead
  source_missing : SourceRead
  source_unreadable : SourceRead

-- The reasons that the references cannot be resolved.
pub data ReferenceError : Type 0 where
  unreadable_source : Text → ReferenceError
  unparseable_outputs : Text → ReferenceError
  unknown_field_path : Text → ReferenceError
  unknown_output : Text → Text → ReferenceError
  bad_target : Text → AccessError → ReferenceError

pub data Waiting : Type 0 where
  for_object : Text → Waiting
  for_field : Text → Text → Waiting

-- What resolveReferences returns.
pub data References : Type 0 where
  resolved : List Waiting → References
  invalid : ReferenceError → References

abbrev pub also_waiting : Waiting → References → References
also_waiting item (resolved waiting) = resolved (item ∷ waiting)
also_waiting item (invalid e) = invalid e

-- `append(waiting, ...)` and `continue`, with the properties that the rest leaves.
abbrev pub wait_and : Waiting → Fields × References → Fields × References
wait_and item r = (r.0, also_waiting item r.1)

module _ (marshal : Json → Text) where
  -- `RenderScalar` on decoded JSON
  unfoldable pub render_scalar : Json → Text
  render_scalar null = []
  render_scalar (string s) = s
  render_scalar (number n) = n
  render_scalar (bool true) = bytes "true"
  render_scalar (bool false) = bytes "false"
  render_scalar (arr vs) = marshal (arr vs)
  render_scalar (obj fs) = marshal (obj fs)

  -- The value that is written: the source's, or the template around it.
  unfoldable pub reference_value : Text → Json → Json
  reference_value template value =
      if is_empty template then value else string (expand_template template (render_scalar value))

  abbrev pub after_write :
      Text → (Fields → Fields × References) → Fields × Option AccessError → Fields × References
  after_write path next (props, none) = next props
  after_write path next (props, some e) = (props, invalid (bad_target path e))

  module _ (output_exists : DoResource → Text → Bool) (read_source : Text → SourceRead) where
    -- What one reference's source gives, and then the rest.
    unfoldable pub with_field :
        Reference
        → DoResource
        → (Fields → Fields × References)
        → Fields
        → FieldValue
        → Fields × References
    with_field ref src next props (populated value) =
        after_write ref.to_path next
          (set_path props ref.to_path (reference_value ref.template value))
    with_field ref src next props unpopulated =
        if output_exists src ref.from.field_path
        then wait_and (for_field ref.from.name ref.from.field_path) (next props)
        else (props, invalid (unknown_output ref.from.name ref.from.field_path))
    with_field ref src next props bad_outputs = (props, invalid (unparseable_outputs src.name))
    with_field ref src next props bad_field_path =
        (props, invalid (unknown_field_path ref.from.field_path))

    unfoldable pub with_source :
        Reference → (Fields → Fields × References) → Fields → SourceRead → Fields × References
    with_source ref next props source_missing = wait_and (for_object ref.from.name) (next props)
    with_source ref next props source_unreadable =
        (props, invalid (unreadable_source ref.from.name))
    with_source ref next props (source_is src) =
        with_field ref src next props (resolve_field_path src ref.from.field_path)

    -- The loop of `resolveReferences`
    unfoldable pub resolve_references : List Reference → Fields → Fields × References
    resolve_references [] props = (props, resolved [])
    resolve_references (ref ∷ refs) props =
        with_source ref (resolve_references refs) props (read_source ref.from.name)

    -- One minute
    abbrev pub waiting_retry : ℕ
    waiting_retry = 60000000000

    -- What applyReferences does with the outcome; `next` goes on where it returns no halt.
    unfoldable pub after_resolving : World → (Fields → Step) → Fields × References → Step
    after_resolving w next (props, invalid e) s =
        mark_sync_failed w invalid_references plain false s
    after_resolving w next (props, resolved []) s = next props s
    after_resolving w next (props, resolved (item ∷ waiting)) s =
        persisting w (requeue_with (after waiting_retry))
          (record s { res = set_condition w s.res ready false waiting_for_dependency })

    abbrev pub unless_cyclic : World → Step → Option (List Text) → Step
    unless_cyclic w next none s = next s
    unless_cyclic w next (some cycle) s = mark_sync_failed w cyclic_reference plain false s

    abbrev pub with_references :
        World → List DoResource → (Fields → Step) → Fields → List Reference → Step
    with_references w store next props [] s = next props s
    with_references w store next props (ref ∷ refs) s =
        unless_cyclic w (after_resolving w next (resolve_references (ref ∷ refs) props))
          (detect_cycle store s.res) s

    -- `applyReferences`; `store` is what the cache shows of the namespace.
    unfoldable pub apply_references : World → List DoResource → (Fields → Step) → Fields → Step
    apply_references w store next props s =
        with_references w store next props s.res.spec.references s
