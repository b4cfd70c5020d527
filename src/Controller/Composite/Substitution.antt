-- ===== src/Controller/Composite/Substitution.antt =====
-- What the reference that a template string leaves writes later (composite_render.go, references.go).
use doplane.Common.{
  ◌≡◌, refl, ap, ◌∙◌, Text, bytes, text_eq, none, some, [], ◌∷◌, ◌++◌, has_prefix, replace_from,
  replace_all, trim_space, append_assoc,
}
use doplane.Json.{Json, string}
use doplane.Runnerops.Secrets.Redaction.{Lacks}
use doplane.Controller.Resource.{Reference}
use doplane.Controller.References.{reference_value, render_scalar}
use doplane.Controller.Composite.Expressions.{
  literal, esc_marker, value_marker, RenderContext, expr, parts_from, is_unterminated, has_expr,
  resource, parameter, kind_of, filled, fill, reference, at_field, parse_resource_expr, name_of,
  template_of, finish, render_string, parameter_of,
}
use doplane.Controller.Composite.Plain.{differs, replace_from-append, parts_from_expr}
use doplane.Controller.Composite.Filled.{placeholder, expand_template-fills, expand_template-keeps}
use doplane.Controller.Composite.Mixed.{one_expr, mixed_escaped, left_over, render_mixed}

-- The value that the author of a template means: the source's, with the text around it.
abbrev pub substituted : (Json → Text) → Text → Text → Json → Json
substituted marshal [] [] v = v
substituted marshal [] (c ∷ q) v = string (render_scalar marshal v ++ c ∷ q)
substituted marshal (c ∷ p) q v = string (c ∷ (p ++ (render_scalar marshal v ++ q)))

template_value :
    (marshal : Json → Text) (p q : Text) (v : Json)
    → Lacks b'$' p
    → Lacks b'$' q
    → Lacks 0 p
    → Lacks 0 q
    → Lacks 0 (render_scalar marshal v)
    → reference_value marshal (template_of (p ++ (placeholder ++ q))) v ≡ substituted marshal p q v
unfolding reference_value text_eq
template_value marshal [] [] v pp qp pc qc vc = refl
template_value marshal [] (c ∷ q) v pp qp pc qc vc =
    ap string (expand_template-fills [] (c ∷ q) pp qp pc qc (render_scalar marshal v) vc)
template_value marshal (c ∷ p) q v pp qp pc qc vc =
    rw (differs c b'$' pp.0)
      (ap string (expand_template-fills (c ∷ p) q pp qp pc qc (render_scalar marshal v) vc))

-- A string with one expression of a sibling's output, between plain texts, becomes a reference to
-- that sibling's field, and the value that the reference writes later is the field's value in place
-- of the expression: the value itself, with its type, where the expression is the whole string, and
-- otherwise the text. The texts hold no '$' and, like the value, no NUL.
pub render_string-substitutes :
    (marshal : Json → Text) (rc : RenderContext) (path p q e source field_path : Text) (v : Json)
    → Lacks b'$' p
    → Lacks b'$' q
    → Lacks 0 p
    → Lacks 0 q
    → Lacks 0 (render_scalar marshal v)
    → Lacks b'$' e
    → Lacks b'}' e
    → kind_of (trim_space e) ≡ resource
    → parse_resource_expr rc (trim_space e) ≡ at_field source field_path
    → (ref : Reference) × (render_string marshal rc path (one_expr p e q) ≡ reference ref)
      × (ref.to_path ≡ path)
      × (ref.from.name ≡ name_of rc source)
      × (ref.from.field_path ≡ field_path)
      × (reference_value marshal ref.template v ≡ substituted marshal p q v)
render_string-substitutes marshal rc path p q e source field_path v pp qp pc qc vc ep closed kind
      parsed =
    (
      left_over p q e pp qp pc qc marshal rc path source field_path kind parsed,
      render_mixed p q e pp qp pc qc marshal rc path source field_path kind parsed ep closed,
      refl,
      refl,
      refl,
      template_value marshal p q v pp qp pc qc vc,
    )

-- Two expressions in a row.
abbrev pub in_a_row : Text → Text → Text
in_a_row e f = b'$' ∷ b'{' ∷ (e ++ b'}' ∷ one_expr [] f [])

in_a_row_escaped :
    (e f : Text)
    → Lacks b'$' e
    → Lacks b'$' f
    → replace_all (bytes "$${") esc_marker (in_a_row e f) ≡ in_a_row e f
unfolding replace_all replace_from has_prefix
in_a_row_escaped e f e_plain f_plain =
    ap (λ t. b'$' ∷ b'{' ∷ t)
      (replace_from-append b'$' (bytes "${") esc_marker e (b'}' ∷ one_expr [] f []) e_plain
        ∙ ap (λ t. e ++ b'}' ∷ t) (mixed_escaped [] [] f tt tt f_plain))

in_a_row_parts :
    (e f : Text) → Lacks b'}' e → Lacks b'}' f → parts_from 0 (in_a_row e f) ≡ expr e ∷ expr f ∷ []
unfolding parts_from
in_a_row_parts e f e_closed f_closed =
    parts_from_expr e (one_expr [] f []) e_closed
    ∙ ap (λ ps. expr e ∷ ps) (parts_from_expr f [] f_closed)

-- After a text that ends in '$' the mark is found, and nothing else.
row_unescaped :
    (d : Text)
    → Lacks 0 d
    → replace_all esc_marker (bytes "${") (d ++ b'$' ∷ value_marker) ≡ d ++ b'$' ∷ value_marker
unfolding replace_all replace_from has_prefix
row_unescaped d h =
    replace_from-append 0 (bytes "DOPLANE_ESC" ++ 0 ∷ []) (bytes "${") d (b'$' ∷ value_marker) h

row_without_placeholder :
    (d : Text)
    → Lacks b'$' d
    → replace_all placeholder (bytes "$${value}") (d ++ b'$' ∷ value_marker)
      ≡ d ++ b'$' ∷ value_marker
unfolding replace_all replace_from has_prefix
row_without_placeholder d h =
    replace_from-append b'$' (bytes "{value}") (bytes "$${value}") d (b'$' ∷ value_marker) h

row_placed :
    (d : Text)
    → Lacks 0 d
    → replace_all value_marker placeholder (d ++ b'$' ∷ value_marker) ≡ d ++ b'$' ∷ placeholder
unfolding replace_all replace_from has_prefix
row_placed d h =
    replace_from-append 0 (bytes "DOPLANE_VALUE" ++ 0 ∷ []) placeholder d (b'$' ∷ value_marker) h

lost_value :
    (marshal : Json → Text) (d : Text) (v : Json)
    → Lacks b'$' d
    → Lacks 0 d
    → reference_value marshal (template_of (d ++ b'$' ∷ placeholder)) v ≡ string (d ++ placeholder)
unfolding reference_value text_eq
lost_value marshal [] v p c =
    ap string (expand_template-keeps [] [] tt tt tt tt (render_scalar marshal v))
lost_value marshal (a ∷ d) v p c =
    rw (differs a b'$' p.0)
      (ap string (expand_template-keeps (a ∷ d) [] p tt c tt (render_scalar marshal v)))

module _ (marshal : Json → Text) (rc : RenderContext) (path e f d source field_path : Text)
    (w : Json) (d_plain : Lacks b'$' d) (d_clean : Lacks 0 d)
    (first : kind_of (trim_space e) ≡ parameter) (value : parameter_of rc (trim_space e) ≡ some w)
    (shown : render_scalar marshal w ≡ d ++ b'$' ∷ []) (second : kind_of (trim_space f) ≡ resource)
    (parsed : parse_resource_expr rc (trim_space f) ≡ at_field source field_path) where
  abbrev pub lost : Reference
  lost = record {
    to_path = path;
    from = record { name = name_of rc source; field_path = field_path };
    template = template_of (d ++ b'$' ∷ placeholder);
  }

  -- The parameter's value and the mark.
  row_filled :
      fill marshal rc path none (expr e ∷ expr f ∷ [])
      ≡ filled (d ++ b'$' ∷ value_marker) (some (trim_space f))
  unfolding fill
  row_filled =
      rw (first, value, shown, second)
        (ap (λ t. filled t (some (trim_space f))) (append_assoc d (b'$' ∷ []) value_marker))

  row_finished :
      finish rc path (filled (d ++ b'$' ∷ value_marker) (some (trim_space f))) ≡ reference lost
  row_finished =
      rw (row_unescaped d d_clean, row_without_placeholder d d_plain, row_placed d d_clean, parsed)
        refl

  row_rendered :
      Lacks b'$' e
      → Lacks b'$' f
      → Lacks b'}' e
      → Lacks b'}' f
      → render_string marshal rc path (in_a_row e f) ≡ reference lost
  unfolding render_string is_unterminated has_expr
  row_rendered ep fp ec fc =
      rw (in_a_row_escaped e f ep fp, in_a_row_parts e f ec fc)
        (ap (finish rc path) row_filled ∙ row_finished)

-- Where a parameter whose text ends in '$' stands directly before a sibling's expression, the
-- reference never writes the sibling's value: whatever it is, the written text is the parameter's
-- without the '$', followed by a literal "${value}". The rest of the parameter's text holds no '$'
-- and no NUL.
pub render_string-loses :
    (marshal : Json → Text) (rc : RenderContext) (path e f d source field_path : Text) (w : Json)
    → Lacks b'$' d
    → Lacks 0 d
    → Lacks b'$' e
    → Lacks b'$' f
    → Lacks b'}' e
    → Lacks b'}' f
    → kind_of (trim_space e) ≡ parameter
    → parameter_of rc (trim_space e) ≡ some w
    → render_scalar marshal w ≡ d ++ b'$' ∷ []
    → kind_of (trim_space f) ≡ resource
    → parse_resource_expr rc (trim_space f) ≡ at_field source field_path
    → (ref : Reference) × (render_string marshal rc path (in_a_row e f) ≡ reference ref)
      × ((v : Json) → reference_value marshal ref.template v ≡ string (d ++ placeholder))
render_string-loses marshal rc path e f d source field_path w dp dc ep fp ec fc first value shown
      second parsed =
    (
      lost marshal rc path e f d source field_path w dp dc first value shown second parsed,
      row_rendered marshal rc path e f d source field_path w dp dc first value shown second parsed
          ep fp ec fc,
      λ v. lost_value marshal d v dp dc,
    )

-- A string that is one parameter expression and nothing else becomes the parameter's value as it is,
-- a number, list or object included.
pub render_string-keeps_type :
    (marshal : Json → Text) (rc : RenderContext) (path e : Text) (v : Json)
    → Lacks b'$' e
    → Lacks b'}' e
    → kind_of (trim_space e) ≡ parameter
    → parameter_of rc (trim_space e) ≡ some v
    → render_string marshal rc path (one_expr [] e []) ≡ literal v
unfolding render_string is_unterminated has_expr parts_from
render_string-keeps_type marshal rc path e v e_plain closed kind value =
    rw (mixed_escaped [] [] e tt tt e_plain, parts_from_expr e [] closed) (rw (kind, value) refl)
