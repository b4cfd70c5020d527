-- ===== src/Controller/Composite/Filled.antt =====
-- What becomes of a string with an expression in it (composite_render.go), and of the template that
-- it leaves when the reference is resolved (references.go).
use doplane.Common.{
  ℕ, ◌≡◌, refl, ap, Text, bytes, [], ◌∷◌, ◌++◌, arith, has_prefix, replace_from, replace_all,
}
use doplane.Runnerops.Secrets.Redaction.{Lacks}
use doplane.Controller.References.{literal_mark, expand_template}
use doplane.Controller.Composite.Expressions.{esc_marker, value_marker}
use doplane.Controller.Composite.Plain.{
  Lacks-append, replace_from-append, replace_from_plain, has_prefix-Lacks,
}

abbrev pub placeholder : Text
placeholder = bytes "${value}"

pub replace_all_plain : (b : ℕ) (o new p : Text) → Lacks b p → replace_all (b ∷ o) new p ≡ p
unfolding replace_all
replace_all_plain b o new p h = replace_from_plain b o new p h

unmarks :
    (p q : Text)
    → Lacks 0 p
    → Lacks 0 q
    → replace_all literal_mark placeholder (p ++ (literal_mark ++ q)) ≡ p ++ (placeholder ++ q)
unfolding replace_all replace_from has_prefix
unmarks p q p_clean q_clean =
    rw
      (replace_from-append 0 (bytes "DOPLANE_LITERAL" ++ 0 ∷ []) placeholder p (literal_mark ++ q)
        p_clean)
      (ap (λ t. p ++ (placeholder ++ t))
        (replace_from_plain 0 (bytes "DOPLANE_LITERAL" ++ 0 ∷ []) placeholder q q_clean))

-- The value mark holds no byte of the escape's beyond its first ones.
pub no_marker :
    (q : Text)
    → Lacks 0 q
    → replace_from esc_marker (bytes "${") 0 (value_marker ++ q) ≡ value_marker ++ q
unfolding replace_from has_prefix
no_marker q h =
    rw
      (
        has_prefix-Lacks (bytes "DOPLANE_ESC") 0 [] q h,
        replace_from_plain 0 (bytes "DOPLANE_ESC" ++ 0 ∷ []) (bytes "${") q h,
      )
      refl

module _ (p q : Text) (p_plain : Lacks b'$' p) (q_plain : Lacks b'$' q) where
  -- Around the placeholder no escape is found.
  no_escape :
      (new : Text)
      → replace_all (bytes "$${value}") new (p ++ (placeholder ++ q)) ≡ p ++ (placeholder ++ q)
  unfolding replace_all replace_from has_prefix
  no_escape new =
      rw (replace_from-append b'$' (bytes "${value}") new p (placeholder ++ q) p_plain) (
        ap (λ t. p ++ (placeholder ++ t))
          (replace_from_plain b'$' (bytes "${value}") new q q_plain))

  -- The placeholder is replaced.
  fills_in : (new : Text) → replace_all placeholder new (p ++ (placeholder ++ q)) ≡ p ++ (new ++ q)
  unfolding replace_all replace_from has_prefix
  fills_in new =
      rw (replace_from-append b'$' (bytes "{value}") new p (placeholder ++ q) p_plain)
        (ap (λ t. p ++ (new ++ t)) (replace_from_plain b'$' (bytes "{value}") new q q_plain))

  -- An escape becomes the mark.
  marks :
      replace_all (bytes "$${value}") literal_mark (p ++ (bytes "$${value}" ++ q))
      ≡ p ++ (literal_mark ++ q)
  unfolding replace_all replace_from has_prefix
  marks =
      rw
        (replace_from-append b'$' (bytes "${value}") literal_mark p (bytes "$${value}" ++ q)
          p_plain)
        (ap (λ t. p ++ (literal_mark ++ t))
          (replace_from_plain b'$' (bytes "${value}") literal_mark q q_plain))

  module _ (p_clean : Lacks 0 p) (q_clean : Lacks 0 q) where
    pub expand_template-fills :
        (r : Text) → Lacks 0 r → expand_template (p ++ (placeholder ++ q)) r ≡ p ++ (r ++ q)
    unfolding expand_template
    expand_template-fills r r_clean =
        rw (no_escape literal_mark, fills_in r)
          (replace_all_plain 0 _ _ (p ++ (r ++ q))
            (Lacks-append 0 p (r ++ q) p_clean (Lacks-append 0 r q r_clean q_clean)))

    pub expand_template-keeps :
        (r : Text) → expand_template (p ++ (bytes "$${value}" ++ q)) r ≡ p ++ (placeholder ++ q)
    unfolding expand_template
    expand_template-keeps r =
        rw
          (
            marks,
            replace_all_plain b'$' (bytes "{value}") r (p ++ (literal_mark ++ q)) (
                Lacks-append b'$' p (literal_mark ++ q) p_plain
                  (Lacks-append b'$' literal_mark q (ground arith) q_plain)),
          )
          (unmarks p q p_clean q_clean)
