-- ===== src/Controller/Composite/Mixed.antt =====
-- What becomes of a string with an expression in it (composite_render.go).
use doplane.Common.{
  true, ℕ, ◌≡◌, refl, sym, ap, ◌∙◌, Text, bytes, false, Option, none, some, List, [], ◌∷◌, ◌++◌,
  arith, has_prefix, replace_from, replace_all, append-nil, trim_space, inl, inr, ◌⊎◌,
}
use mathlib.Core.Path.{subst}
use doplane.Json.{Json}
use doplane.Runnerops.Secrets.Redaction.{Lacks}
use doplane.Controller.Resource.{Reference}
use doplane.Controller.Composite.Expressions.{
  esc_marker, value_marker, RenderContext, Part, expr, parts_from, is_unterminated, has_expr,
  is_whole, resource, kind_of, Filling, filled, failed, write_text, fill, reference, at_field,
  parse_resource_expr, name_of, template_of, finish, render_parts, render_string,
}
use doplane.Controller.Composite.Plain.{
  Lacks-append, replace_from-append, replace_from_plain, literals, parts_from-append,
  parts_from_plain, parts_from_expr, is_unterminated-literals, has_expr-literals,
}
use doplane.Controller.Composite.Filled.{placeholder, replace_all_plain, no_marker}

-- An expression with text on both sides.
abbrev pub one_expr : Text → Text → Text → Text
one_expr p e q = p ++ b'$' ∷ b'{' ∷ (e ++ b'}' ∷ q)

pub terminated_rest : (e q : Text) → Lacks b'$' q → is_unterminated (expr e ∷ literals q) ≡ false
unfolding is_unterminated
terminated_rest e q h =
    subst (λ ps. is_unterminated ps ≡ false) (append-nil (literals q))
      (is_unterminated-literals q [] h)

-- The expression is all there is, or not.
is_whole-cases :
    (p e q : Text)
    → (is_whole (literals p ++ expr e ∷ literals q) ≡ none)
      ⊎ (is_whole (literals p ++ expr e ∷ literals q) ≡ some e)
is_whole-cases [] e [] = inr refl
is_whole-cases [] e (c ∷ q) = inl refl
is_whole-cases (c ∷ p) e q = inl refl

module _ (marshal : Json → Text) (rc : RenderContext) (path : Text) where
  write_text_nil : (f : Filling) → write_text [] f ≡ f
  write_text_nil (filled t source) = refl
  write_text_nil (failed e) = refl

  write_text-write_text :
      (c : ℕ) (p : Text) (f : Filling) → write_text (c ∷ []) (write_text p f) ≡ write_text (c ∷ p) f
  write_text-write_text c p (filled t source) = refl
  write_text-write_text c p (failed e) = refl

  fill-literals :
      (source : Option Text) (p : Text) (rest : List Part)
      → fill marshal rc path source (literals p ++ rest)
        ≡ write_text p (fill marshal rc path source rest)
  unfolding fill
  fill-literals source [] rest = sym (write_text_nil _)
  fill-literals source (c ∷ p) rest =
      ap (write_text (c ∷ [])) (fill-literals source p rest) ∙ write_text-write_text c p _

  fill_plain :
      (source : Option Text) (q : Text) → fill marshal rc path source (literals q) ≡ filled q source
  unfolding fill
  fill_plain source [] = refl
  fill_plain source (c ∷ q) = ap (write_text (c ∷ [])) (fill_plain source q)

  pub fill_resource :
      (e q : Text)
      → kind_of (trim_space e) ≡ resource
      → fill marshal rc path none (expr e ∷ literals q)
        ≡ filled (value_marker ++ q) (some (trim_space e))
  unfolding fill
  fill_resource e q kind =
      rw kind (ap (write_text value_marker) (fill_plain (some (trim_space e)) q))

module _ (p q e : Text) (p_plain : Lacks b'$' p) (q_plain : Lacks b'$' q) where
  abbrev around : Text → Text
  around t = p ++ (t ++ q)

  abbrev mixed : Text
  mixed = one_expr p e q

  abbrev mixed_parts : List Part
  mixed_parts = literals p ++ expr e ∷ literals q

  -- The string has no escape.
  pub mixed_escaped : Lacks b'$' e → replace_all (bytes "$${") esc_marker mixed ≡ mixed
  unfolding replace_all replace_from has_prefix
  mixed_escaped e_plain =
      rw
        (replace_from-append b'$' (bytes "${") esc_marker p (b'$' ∷ b'{' ∷ (e ++ b'}' ∷ q)) p_plain)
        (ap (λ t. p ++ b'$' ∷ b'{' ∷ t)
          (replace_from_plain b'$' (bytes "${") esc_marker (e ++ b'}' ∷ q)
            (Lacks-append b'$' e (b'}' ∷ q) e_plain (ground arith, q_plain))))

  mixed_in_parts : Lacks b'}' e → parts_from 0 mixed ≡ mixed_parts
  mixed_in_parts closed =
      rw
        (
          parts_from-append p (b'$' ∷ b'{' ∷ (e ++ b'}' ∷ q)) p_plain,
          parts_from_expr e q closed,
          parts_from_plain q q_plain,
        )
        refl

  mixed_terminated : is_unterminated mixed_parts ≡ false
  mixed_terminated =
      is_unterminated-literals p (expr e ∷ literals q) p_plain ∙ terminated_rest e q q_plain

  has_mixed : has_expr mixed_parts ≡ true
  unfolding has_expr
  has_mixed = has_expr-literals p (expr e ∷ literals q)

  -- The value's mark stands where the expression was.
  mixed_filled :
      (marshal : Json → Text) (rc : RenderContext) (path : Text)
      → kind_of (trim_space e) ≡ resource
      → fill marshal rc path none mixed_parts ≡ filled (around value_marker) (some (trim_space e))
  mixed_filled marshal rc path kind =
      fill-literals marshal rc path none p (expr e ∷ literals q)
      ∙ ap (write_text p) (fill_resource marshal rc path e q kind)

  module _ (p_clean : Lacks 0 p) (q_clean : Lacks 0 q) where
    no_esc_marker : replace_all esc_marker (bytes "${") (around value_marker) ≡ around value_marker
    unfolding replace_all
    no_esc_marker =
        replace_from-append 0 (bytes "DOPLANE_ESC" ++ 0 ∷ []) (bytes "${") p (value_marker ++ q)
          p_clean
        ∙ ap (λ t. p ++ t) (no_marker q q_clean)

    no_placeholder :
        replace_all placeholder (bytes "$${value}") (around value_marker) ≡ around value_marker
    no_placeholder =
        replace_all_plain b'$' (bytes "{value}") (bytes "$${value}") (around value_marker) (
          Lacks-append b'$' p (value_marker ++ q) p_plain
            (Lacks-append b'$' value_marker q (ground arith) q_plain))

    places : replace_all value_marker placeholder (around value_marker) ≡ around placeholder
    unfolding replace_all replace_from has_prefix
    places =
        rw
          (replace_from-append 0 (bytes "DOPLANE_VALUE" ++ 0 ∷ []) placeholder p (value_marker ++ q)
            p_clean)
          (ap (λ t. p ++ (placeholder ++ t))
            (replace_from_plain 0 (bytes "DOPLANE_VALUE" ++ 0 ∷ []) placeholder q q_clean))

    module _ (marshal : Json → Text) (rc : RenderContext) (path source field_path : Text)
        (kind : kind_of (trim_space e) ≡ resource)
        (parsed : parse_resource_expr rc (trim_space e) ≡ at_field source field_path) where
      abbrev pub left_over : Reference
      left_over = record {
        to_path = path;
        from = record { name = name_of rc source; field_path = field_path };
        template = template_of (around placeholder);
      }

      mixed_finished :
          finish rc path (filled (around value_marker) (some (trim_space e))) ≡ reference left_over
      mixed_finished = rw (no_esc_marker, no_placeholder, places, parsed) refl

      to_finish :
          (w : Option Text)
          → (w ≡ none) ⊎ (w ≡ some e)
          → render_parts marshal rc path mixed_parts w
            ≡ finish rc path (fill marshal rc path none mixed_parts)
      to_finish w (inl f) = rw f refl
      to_finish w (inr f) = rw (f, kind) refl

      -- The string becomes a reference, whose template has the placeholder for the expression.
      pub render_mixed :
          Lacks b'$' e → Lacks b'}' e → render_string marshal rc path mixed ≡ reference left_over
      unfolding render_string
      render_mixed e_plain closed =
          rw (mixed_escaped e_plain, mixed_in_parts closed, mixed_terminated, has_mixed)
            (to_finish (is_whole mixed_parts) (is_whole-cases p e q)
              ∙ ap (finish rc path) (mixed_filled marshal rc path kind)
              ∙ mixed_finished)
