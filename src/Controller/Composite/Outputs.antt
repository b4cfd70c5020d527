-- ===== src/Controller/Composite/Outputs.antt =====
-- internal/controller/composite_outputs.go: the outputs of a composite, from its parameters and the
-- children as they were last read, under their templates' names.
use doplane.Common.{
  ℕ, suc, Text, bytes, text_eq, Option, none, some, List, [], ◌∷◌, ◌++◌, if◌then◌else◌, replace_all,
  trim_space, sort_by_key,
}
use doplane.Json.{Json, null, bool, number, string, arr, obj, Items, nil, cons, Fields, end, field}
use doplane.Runnerops.Path.{is_empty, append_key_segment, append_index_segment}
use doplane.Controller.Resource.{Document, absent, object, malformed, DoResource}
use doplane.Controller.References.{
  FieldValue, populated, unpopulated, bad_outputs, bad_field_path, resolve_field_path,
  render_scalar,
}
use doplane.Controller.Composite.Names.{Naming, child_resource_name}
use doplane.Controller.Composite.Children.{Template}
use doplane.Controller.Composite.Expressions.{
  RenderContext, RenderError, unterminated, no_parameter, unsupported, Part, byte, expr, Kind,
  parameter, self_name, self_namespace, resource, other, kind_of, esc_marker, parts_from,
  is_unterminated, has_expr, is_whole, parameter_of, Source, at_field, no_source,
  parse_resource_expr,
}

-- The source that an output waits for: a child that is not applied, or a field that it does not have.
pub data Awaited : Type 0 where
  not_applied : Text → Awaited
  not_available : Text → Text → Awaited

pub data OutputError : Type 0 where
  not_an_object parameters_not_an_object empty_key : OutputError
  invalid_expression : RenderError → OutputError
  unreadable_field : Text → FieldValue → OutputError

-- A value, what it waits for, or an error.
pub data Output (A : Type 0) : Type 0 where
  ready : A → Output A
  waits : Awaited → Output A
  broken : OutputError → Output A

-- `observed[source]`
unfoldable pub observed_child : List (Text × DoResource) → Text → Option DoResource
observed_child [] name = none
observed_child ((k, child) ∷ rest) name =
    if text_eq k name then some child else observed_child rest name

abbrev pub output_parameter : Text → Option Json → Output Json
output_parameter e none = broken (invalid_expression (no_parameter e))
output_parameter e (some v) = ready v

abbrev pub of_field : Text → Text → Text → FieldValue → Output Json
of_field e source field_path (populated v) = ready v
of_field e source field_path unpopulated = waits (not_available source field_path)
of_field e source field_path bad_outputs = broken (unreadable_field e bad_outputs)
of_field e source field_path bad_field_path = broken (unreadable_field e bad_field_path)

abbrev pub of_child : Text → Text → Text → Option DoResource → Output Json
of_child e source field_path none = waits (not_applied source)
of_child e source field_path (some child) =
    of_field e source field_path (resolve_field_path child field_path)

abbrev pub of_source : List (Text × DoResource) → Text → Source → Output Json
of_source observed e (no_source err) = broken (invalid_expression err)
of_source observed e (at_field source field_path) =
    of_child e source field_path (observed_child observed source)

-- What the text of a string continues with.
abbrev pub with_text : Text → Output Text → Output Text
with_text s (ready t) = ready (s ++ t)
with_text s (waits w) = waits w
with_text s (broken e) = broken e

abbrev pub with_output : Text → Output Json → Output Fields → Output Fields
with_output k (ready v) (ready fs) = ready (field k v fs)
with_output k (ready v) (waits w) = waits w
with_output k (ready v) (broken e) = broken e
with_output k (waits w) rest = waits w
with_output k (broken e) rest = broken e

abbrev pub outputs_in_order : List (Text × Output Json) → Output Fields
outputs_in_order [] = ready end
outputs_in_order ((k, o) ∷ rest) = with_output k o (outputs_in_order rest)

abbrev pub with_item : Output Json → Output Items → Output Items
with_item (ready v) (ready vs) = ready (cons v vs)
with_item (ready v) (waits w) = waits w
with_item (ready v) (broken e) = broken e
with_item (waits w) rest = waits w
with_item (broken e) rest = broken e

module _ {A : Type 0} (f : A → Json) where
  abbrev pub as_output : Output A → Output Json
  as_output (ready a) = ready (f a)
  as_output (waits w) = waits w
  as_output (broken e) = broken e

-- What renderOutputs gives: the outputs that are resolved, and the pending ones, or an error.
pub data Outputs : Type 0 where
  outputs : Fields → List (Text × Awaited) → Outputs
  not_rendered : OutputError → Outputs

abbrev pub collect : Text → Output Json → Outputs → Outputs
collect key (broken e) rest = not_rendered e
collect key (ready v) (outputs fs pending) = outputs (field key v fs) pending
collect key (waits w) (outputs fs pending) = outputs fs ((key, w) ∷ pending)
collect key (ready v) (not_rendered e) = not_rendered e
collect key (waits w) (not_rendered e) = not_rendered e

-- The loop over the sorted keys.
unfoldable pub collect_all : List (Text × Output Json) → Outputs
collect_all [] = outputs end []
collect_all ((key, o) ∷ rest) =
    let more = collect_all rest in
    if is_empty key then not_rendered empty_key else collect key o more

-- `rc.childName`
abbrev pub output_names : Naming → Text → List Template → List (Text × Text)
output_names n composite [] = []
output_names n composite (tpl ∷ tpls) =
    (tpl.name, child_resource_name n composite tpl.name) ∷ output_names n composite tpls

module _ (marshal : Json → Text) (rc : RenderContext) (observed : List (Text × DoResource)) where
  abbrev pub resolve_kind : Kind → Text → Output Json
  resolve_kind parameter e = output_parameter e (parameter_of rc e)
  resolve_kind self_name e = ready (string rc.name)
  resolve_kind self_namespace e = ready (string rc.namespace)
  resolve_kind resource e = of_source observed e (parse_resource_expr rc e)
  resolve_kind other e = broken (invalid_expression (unsupported e))

  -- `resolveOutputExpr`
  unfoldable pub resolve_output_expr : Text → Output Json
  resolve_output_expr e = resolve_kind (kind_of e) e

  abbrev pub then_text : Output Json → Output Text → Output Text
  then_text (ready v) rest = with_text (render_scalar marshal v) rest
  then_text (waits w) rest = waits w
  then_text (broken e) rest = broken e

  -- The loop over the matches of a string that is more than one expression.
  unfoldable pub output_text : List Part → Output Text
  output_text [] = ready []
  output_text (byte c ∷ parts) = with_text (c ∷ []) (output_text parts)
  output_text (expr body ∷ parts) =
      then_text (resolve_output_expr (trim_space body)) (output_text parts)

  abbrev pub output_parts : List Part → Option Text → Output Json
  output_parts parts none =
      as_output (λ s. string (replace_all esc_marker (bytes "${") s)) (output_text parts)
  output_parts parts (some body) = resolve_output_expr (trim_space body)

  abbrev pub output_escaped : Text → Text → List Part → Output Json
  output_escaped path escaped parts =
      if is_unterminated parts
      then broken (invalid_expression (unterminated path))
      else if has_expr parts
      then output_parts parts (is_whole parts)
      else ready (string (replace_all esc_marker (bytes "${") escaped))

  -- `renderOutputString`
  unfoldable pub render_output_string : Text → Text → Output Json
  render_output_string path s =
      let escaped = replace_all (bytes "$${") esc_marker s in
      output_escaped path escaped (parts_from 0 escaped)

  unfoldable mutual
    -- `renderOutputValue`
    pub render_output_value : Text → Json → Output Json
    render_output_value path (string s) = render_output_string path s
    render_output_value path (obj fs) =
        as_output obj (outputs_in_order (sort_by_key (render_output_fields path fs)))
    render_output_value path (arr vs) = as_output arr (render_output_items path 0 vs)
    render_output_value path null = ready null
    render_output_value path (bool b) = ready (bool b)
    render_output_value path (number n) = ready (number n)

    pub render_output_fields : Text → Fields → List (Text × Output Json)
    render_output_fields path end = []
    render_output_fields path (field k v fs) =
        (k, render_output_value (append_key_segment path k) v) ∷ render_output_fields path fs

    pub render_output_items : Text → ℕ → Items → Output Items
    render_output_items path i nil = ready nil
    render_output_items path i (cons v vs) =
        with_item (render_output_value (append_index_segment path i) v)
          (render_output_items path (suc i) vs)

  -- The values of all outputs.
  abbrev pub output_values : Fields → List (Text × Output Json)
  output_values end = []
  output_values (field k v fs) =
      (k, render_output_value (bytes "outputs." ++ k) v) ∷ output_values fs

module _ (n : Naming) (marshal : Json → Text) (observed : List (Text × DoResource)) where
  abbrev pub outputs_with : Text → Text → List Template → Fields → Document → Outputs
  outputs_with name namespace tpls outs malformed = not_rendered parameters_not_an_object
  outputs_with name namespace tpls outs absent = collect_all (
      sort_by_key (
        output_values marshal
          (record {
            name = name;
            namespace = namespace;
            params = end;
            child_name = output_names n name tpls;
          })
          observed outs))
  outputs_with name namespace tpls outs (object params) = collect_all (
      sort_by_key (
        output_values marshal
          (record {
            name = name;
            namespace = namespace;
            params = params;
            child_name = output_names n name tpls;
          })
          observed outs))

  -- `renderOutputs` of a composite's name, namespace and parameters, and its definition.
  unfoldable pub render_outputs : Text → Text → Document → List Template → Document → Outputs
  render_outputs name namespace params tpls absent = outputs end []
  render_outputs name namespace params tpls malformed = not_rendered not_an_object
  render_outputs name namespace params tpls (object outs) =
      outputs_with name namespace tpls outs params
