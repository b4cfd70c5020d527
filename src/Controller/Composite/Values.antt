-- ===== src/Controller/Composite/Values.antt =====
-- internal/controller/composite_render.go: renderValue and renderExternalName.
use doplane.Common.{ℕ, suc, Text, bytes, Option, none, some, List, [], ◌∷◌, ◌++◌, sort_by_key}
use doplane.Json.{Json, null, bool, number, string, arr, obj, Items, nil, cons, Fields, end, field}
use doplane.Runnerops.Path.{append_key_segment, append_index_segment}
use doplane.Controller.Resource.{Reference}
use doplane.Controller.References.{render_scalar}
use doplane.Controller.Composite.Expressions.{
  RenderContext, RenderError, Rendered, literal, reference, invalid, render_string,
}

-- A rendered value, `none` for `removedValue`, with the references that it has appended.
pub data Walked (A : Type 0) : Type 0 where
  walked : A → List Reference → Walked A
  stopped : RenderError → Walked A

abbrev pub of_string : Rendered → Walked (Option Json)
of_string (literal v) = walked (some v) []
of_string (reference ref) = walked none (ref ∷ [])
of_string (invalid e) = stopped e

abbrev pub add_field : Text → Option Json → Fields → Fields
add_field k none fs = fs
add_field k (some v) fs = field k v fs

-- `out[k] = rv`, unless the value was removed.
abbrev pub with_entry : Text → Walked (Option Json) → Walked Fields → Walked Fields
with_entry k (stopped e) rest = stopped e
with_entry k (walked v refs) (stopped e) = stopped e
with_entry k (walked v refs) (walked fs more) = walked (add_field k v fs) (refs ++ more)

-- The loop over the sorted keys.
abbrev pub in_order : List (Text × Walked (Option Json)) → Walked Fields
in_order [] = walked end []
in_order ((k, w) ∷ rest) = with_entry k w (in_order rest)

abbrev pub as_object : Walked Fields → Walked (Option Json)
as_object (walked fs refs) = walked (some (obj fs)) refs
as_object (stopped e) = stopped e

abbrev pub as_array : Walked Items → Walked (Option Json)
as_array (walked vs refs) = walked (some (arr vs)) refs
as_array (stopped e) = stopped e

-- An element, or the placeholder that a reference overwrites.
abbrev pub element : Option Json → Json
element none = string []
element (some v) = v

-- `out[i] = rv`
abbrev pub with_element : Walked (Option Json) → Walked Items → Walked Items
with_element (stopped e) rest = stopped e
with_element (walked v refs) (stopped e) = stopped e
with_element (walked v refs) (walked vs more) = walked (cons (element v) vs) (refs ++ more)

module _ (marshal : Json → Text) (rc : RenderContext) where
  unfoldable mutual
    -- `renderValue`
    pub render_value : Text → Json → Walked (Option Json)
    render_value path (string s) = of_string (render_string marshal rc path s)
    render_value path (obj fs) = as_object (in_order (sort_by_key (render_fields path fs)))
    render_value path (arr vs) = as_array (render_items path 0 vs)
    render_value path null = walked (some null) []
    render_value path (bool b) = walked (some (bool b)) []
    render_value path (number n) = walked (some (number n)) []

    pub render_fields : Text → Fields → List (Text × Walked (Option Json))
    render_fields path end = []
    render_fields path (field k v fs) =
        (k, render_value (append_key_segment path k) v) ∷ render_fields path fs

    pub render_items : Text → ℕ → Items → Walked Items
    render_items path i nil = walked nil []
    render_items path i (cons v vs) =
        with_element (render_value (append_index_segment path i) v) (render_items path (suc i) vs)

  abbrev pub scalar_only : Rendered → Option Text
  scalar_only (literal v) = some (render_scalar marshal v)
  scalar_only (reference ref) = none
  scalar_only (invalid e) = none

  -- `renderExternalName`; `none` is its error.
  unfoldable pub render_external_name : Text → Option Text
  render_external_name e = scalar_only (render_string marshal rc (bytes "externalName") e)
