-- ===== src/Controller/Composite/Expressions.antt =====
-- internal/controller/composite_render.go: renderString, and what it reads of an expression.
use doplane.Common.{
  ℕ, zero, suc, Text, bytes, text_eq, Bool, true, false, not, Option, none, some, List, [], ◌∷◌,
  ◌++◌, ◌&&◌, ◌||◌, ◌==◌, if◌then◌else◌, length, has_prefix, replace_all, trim_space,
}
use doplane.Json.{Json, string, obj, Fields, end, field}
use doplane.Runnerops.Path.{cut_at}
use doplane.Runnerops.Path.Access.{get_path}
use doplane.Controller.Resource.{Reference}
use doplane.Controller.References.{drop_bytes, field_path_id, render_scalar}

-- `escMarker`
abbrev pub esc_marker : Text
esc_marker = 0 ∷ (bytes "DOPLANE_ESC" ++ 0 ∷ [])

-- `valueMarker`
abbrev pub value_marker : Text
value_marker = 0 ∷ (bytes "DOPLANE_VALUE" ++ 0 ∷ [])

-- `renderContext`: the composite's name and namespace, the parameters, and the child names.
pub record RenderContext : Type 0 where
  pub name : Text
  pub namespace : Text
  pub params : Fields
  pub child_name : List (Text × Text)

pub data RenderError : Type 0 where
  unterminated : Text → RenderError
  no_parameter : Text → RenderError
  two_sources : Text → RenderError
  unsupported : Text → RenderError
  unknown_resource : Text → RenderError
  no_field : Text → RenderError
  bad_field : Text → RenderError

-- A byte outside the matches of `exprRe`, or what a match captures.
pub data Part : Type 0 where
  byte : ℕ → Part
  expr : Text → Part

abbrev pub body_of : Option (Text × Text) → Option Text
body_of none = none
body_of (some (body, rest)) = some body

-- The match of `\$\{([^}]*)\}` that starts at a '$' with the text behind it.
abbrev pub body_after : Text → Option Text
body_after [] = none
body_after (c ∷ s) = if c == b'{' then body_of (cut_at b'}' s) else none

abbrev pub match_at : ℕ → Text → Option Text
match_at c s = if c == b'$' then body_after s else none

-- How many bytes of a match follow its first.
abbrev pub skip_after : Option Text → ℕ
skip_after none = 0
skip_after (some body) = suc (suc (length body))

abbrev pub part_of : ℕ → Option Text → Part
part_of c none = byte c
part_of c (some body) = expr body

-- `exprRe.FindAllStringSubmatchIndex`, with what stands between the matches; `skip` counts the bytes
-- of a match that are still to be passed over.
unfoldable pub parts_from : ℕ → Text → List Part
parts_from skip [] = []
parts_from (suc skip) (c ∷ s) = parts_from skip s
parts_from zero (c ∷ s) = part_of c (match_at c s) ∷ parts_from (skip_after (match_at c s)) s

-- `checkUnterminated`: a "${" outside the matches is two bytes of them in a row.
unfoldable pub is_unterminated : List Part → Bool
is_unterminated [] = false
is_unterminated (expr body ∷ parts) = is_unterminated parts
is_unterminated (byte c ∷ []) = false
is_unterminated (byte c ∷ expr body ∷ parts) = is_unterminated parts
is_unterminated (byte c ∷ byte d ∷ parts) =
    (c == b'$' && d == b'{') || is_unterminated (byte d ∷ parts)

-- The cases of the `switch` on an expression.
pub data Kind : Type 0 where
  parameter self_name self_namespace resource other : Kind

unfoldable pub kind_of : Text → Kind
kind_of e =
    if has_prefix (bytes "params.") e || text_eq e (bytes "params")
    then parameter
    else if text_eq e (bytes "self.name")
    then self_name
    else if text_eq e (bytes "self.namespace")
    then self_namespace
    else if has_prefix (bytes "resources.") e
    then resource
    else other

-- The text that the loop has written, with `resourceExpr`, or its error.
pub data Filling : Type 0 where
  filled : Text → Option Text → Filling
  failed : RenderError → Filling

abbrev pub write_text : Text → Filling → Filling
write_text s (filled t source) = filled (s ++ t) source
write_text s (failed e) = failed e

-- `resourceExpr` after an expression.
abbrev pub source_after : Kind → Text → Option Text → Option Text
source_after resource e source = some e
source_after kind e source = source

abbrev pub is_other_source : Text → Option Text → Bool
is_other_source e none = false
is_other_source e (some f) = not (text_eq f e)

abbrev pub parameter_of : RenderContext → Text → Option Json
parameter_of rc e = get_path (obj (field (bytes "params") (obj rc.params) end)) e

-- What renderString gives: a literal value, a reference, or an error.
pub data Rendered : Type 0 where
  literal : Json → Rendered
  reference : Reference → Rendered
  invalid : RenderError → Rendered

abbrev pub is_whole : List Part → Option Text
is_whole (expr body ∷ []) = some body
is_whole parts = none

unfoldable pub has_expr : List Part → Bool
has_expr [] = false
has_expr (byte c ∷ parts) = has_expr parts
has_expr (expr body ∷ parts) = true

-- `rc.childName[name]`
unfoldable pub child_of : List (Text × Text) → Text → Option Text
child_of [] name = none
child_of ((k, child) ∷ rest) name = if text_eq k name then some child else child_of rest name

-- `strings.SplitN(rest, ".", 2)`: its first part, and the second one if there is a dot.
abbrev pub halves : Text → Option (Text × Text) → Text × Option Text
halves s none = (s, none)
halves s (some (first, rest)) = (first, some rest)

-- What `parseResourceExpr` gives: the resource's name and the field path, or an error.
pub data Source : Type 0 where
  at_field : Text → Text → Source
  no_source : RenderError → Source

abbrev pub field_source : Text → Text → Option Text → Source
field_source e source none = no_source (no_field e)
field_source e source (some f) =
    if text_eq f (bytes "id")
    then at_field source field_path_id
    else if text_eq f (bytes "outputs") || has_prefix (bytes "outputs.") f
    then at_field source (bytes "status." ++ f)
    else no_source (bad_field e)

abbrev pub child_source : Text → Text → Option Text → Option Text → Source
child_source e source none f = no_source (unknown_resource e)
child_source e source (some child) f = field_source e source f

-- `parseResourceExpr`
unfoldable pub parse_resource_expr : RenderContext → Text → Source
parse_resource_expr rc e =
    let (source, f) =
      halves (drop_bytes (bytes "resources.") e)
        (cut_at b'.' (drop_bytes (bytes "resources.") e)) in
    child_source e source (child_of rc.child_name source) f

-- `ref.Template`, for `result`
abbrev pub template_of : Text → Text
template_of result = if text_eq result (bytes "${value}") then [] else result

abbrev pub or_empty : Option Text → Text
or_empty none = []
or_empty (some s) = s

-- `rc.childName[source]`, where a missing entry is empty.
abbrev pub name_of : RenderContext → Text → Text
name_of rc source = or_empty (child_of rc.child_name source)

abbrev pub refer_to : RenderContext → Text → Text → Source → Rendered
refer_to rc path result (no_source e) = invalid e
refer_to rc path result (at_field source field_path) = reference (record {
  to_path = path;
  from = record { name = name_of rc source; field_path = field_path };
  template = template_of result;
})

-- The end of renderString.
abbrev pub finish : RenderContext → Text → Filling → Rendered
finish rc path (failed e) = invalid e
finish rc path (filled s none) =
    literal
      (string (replace_all value_marker (bytes "${value}") (replace_all esc_marker (bytes "${") s)))
finish rc path (filled s (some e)) =
    refer_to rc path
      (replace_all value_marker (bytes "${value}") (
        replace_all (bytes "${value}") (bytes "$${value}") (replace_all esc_marker (bytes "${") s)))
      (parse_resource_expr rc e)

abbrev pub parameter_or : Text → Option Json → Rendered
parameter_or e none = invalid (no_parameter e)
parameter_or e (some v) = literal v

module _ (marshal : Json → Text) (rc : RenderContext) (path : Text) where
  abbrev pub write_parameter : Text → Option Json → Filling → Filling
  write_parameter e none rest = failed (no_parameter e)
  write_parameter e (some v) rest = write_text (render_scalar marshal v) rest

  -- The round of the loop for one expression, with what the later rounds write_text.
  abbrev pub write_expr : Kind → Text → Option Text → Filling → Filling
  write_expr parameter e source rest = write_parameter e (parameter_of rc e) rest
  write_expr self_name e source rest = write_text rc.name rest
  write_expr self_namespace e source rest = write_text rc.namespace rest
  write_expr resource e source rest =
      if is_other_source e source then failed (two_sources path) else write_text value_marker rest
  write_expr other e source rest = failed (unsupported e)

  unfoldable pub fill : Option Text → List Part → Filling
  fill source [] = filled [] source
  fill source (byte c ∷ parts) = write_text (c ∷ []) (fill source parts)
  fill source (expr body ∷ parts) =
      let e = trim_space body in
      let rest = fill (source_after (kind_of e) e source) parts in
      write_expr (kind_of e) e source rest

  abbrev pub render_whole : List Part → Kind → Text → Rendered
  render_whole parts parameter e = parameter_or e (parameter_of rc e)
  render_whole parts kind e = finish rc path (fill none parts)

  -- A string with an expression: one that is a parameter and nothing else keeps its type.
  abbrev pub render_parts : List Part → Option Text → Rendered
  render_parts parts none = finish rc path (fill none parts)
  render_parts parts (some body) = render_whole parts (kind_of (trim_space body)) (trim_space body)

  abbrev pub render_escaped : Text → List Part → Rendered
  render_escaped escaped parts =
      if is_unterminated parts
      then invalid (unterminated path)
      else if has_expr parts
      then render_parts parts (is_whole parts)
      else literal (string (replace_all esc_marker (bytes "${") escaped))

  -- `renderString`
  unfoldable pub render_string : Text → Rendered
  render_string s =
      let escaped = replace_all (bytes "$${") esc_marker s in
      render_escaped escaped (parts_from 0 escaped)
