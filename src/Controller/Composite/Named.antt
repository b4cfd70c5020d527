-- ===== src/Controller/Composite/Named.antt =====
-- Which objects a composite is expanded into (composite_render.go).
use doplane.Common.{
  ◌≡◌, refl, sym, ap, ◌∙◌, Text, text_eq, text_eq_iff, text_eq_refl, Bool, Option, none, some, List,
  [], ◌∷◌, All, Bool-cases, inl, inr,
}
use mathlib.Core.Path.{subst}
use mathlib.Core.Option.{some-injective}
use doplane.Json.{Json, Fields, end}
use doplane.Runnerops.Path.{is_empty}
use doplane.Controller.Resource.{Document, absent, object, malformed}
use doplane.Controller.Composite.Expressions.{RenderContext, child_of, or_empty}
use doplane.Controller.Composite.Values.{Walked, walked, stopped}
use doplane.Controller.Composite.Names.{Naming, child_resource_name}
use doplane.Controller.Composite.Children.{
  Template, Child, Rendering, done, failed, with_annotations, also, child_from, named_child,
  child_of_value, child_of_document, render_child, render_children, is_taken, in_context,
  child_names, render_with, render_composite,
}

abbrev pub child_names_of : List Child → List Text
child_names_of [] = []
child_names_of (c ∷ cs) = c.name ∷ child_names_of cs

done-injective : {A : Type 0} (x y : A) → ◌≡◌ {A = Rendering A} (done x) (done y) → x ≡ y
done-injective x y h = cc

module _ (n : Naming) (marshal : Json → Text) (rc : RenderContext) (tpl : Template) where
  abbrev own_name : Text
  own_name = or_empty (child_of rc.child_name tpl.name)

  with_annotations-name :
      (child c : Child) (r : Rendering (List (Text × Text)))
      → with_annotations child r ≡ done c
      → c.name ≡ child.name
  with_annotations-name child c (done anns) h =
      sym (ap (λ (x : Child). x.name) (done-injective _ c h))
  with_annotations-name child c (failed e) h = cc

  named_child-name :
      (child c : Child) → named_child n marshal rc tpl child ≡ done c → c.name ≡ child.name
  named_child-name child c h = elim (Bool-cases (is_empty tpl.external_name)) [
    | inl e ↦ sym (ap (λ (x : Child). x.name) (done-injective _ c (rw e at h)))
    | inr e ↦ with_annotations-name child c _ (rw e at h)
  ]

  child_of_value-name :
      (w : Walked (Option Json)) (c : Child)
      → child_of_value n marshal rc tpl w ≡ done c
      → c.name ≡ own_name
  child_of_value-name (stopped e) c h = cc
  child_of_value-name (walked none refs) c h = cc
  child_of_value-name (walked (some v) refs) c h =
      named_child-name (child_from n marshal rc tpl v refs) c h

  child_of_document-name :
      (doc : Document) (c : Child)
      → child_of_document n marshal rc tpl doc ≡ done c
      → c.name ≡ own_name
  child_of_document-name absent c h = child_of_value-name _ c h
  child_of_document-name (object fs) c h = child_of_value-name _ c h
  child_of_document-name malformed c h = cc

  render_child-name : (c : Child) → render_child n marshal rc tpl ≡ done c → c.name ≡ own_name
  unfolding render_child
  render_child-name c h = child_of_document-name tpl.properties c h

-- The names under which the templates are listed.
abbrev listed_names : List (Text × Text) → List Template → List Text
listed_names names [] = []
listed_names names (tpl ∷ tpls) = or_empty (child_of names tpl.name) ∷ listed_names names tpls

module _ (n : Naming) (marshal : Json → Text) (rc : RenderContext) where
  also-names :
      (tpl : Template) (r : Rendering Child) (rest : Rendering (List Child)) (ns : List Text)
      (cs : List Child)
      → ((c : Child) → r ≡ done c → c.name ≡ or_empty (child_of rc.child_name tpl.name))
      → ((ds : List Child) → rest ≡ done ds → child_names_of ds ≡ ns)
      → also r rest ≡ done cs
      → child_names_of cs ≡ or_empty (child_of rc.child_name tpl.name) ∷ ns
  also-names tpl (failed e) rest ns cs f g h = cc
  also-names tpl (done c) (failed e) ns cs f g h = cc
  also-names tpl (done c) (done ds) ns cs f g h =
      sym (ap child_names_of (done-injective _ cs h)) ∙ rw (f c refl, g ds refl) refl

  render_children-names :
      (tpls : List Template) (cs : List Child)
      → render_children n marshal rc tpls ≡ done cs
      → child_names_of cs ≡ listed_names rc.child_name tpls
  unfolding render_children
  render_children-names [] cs h = sym (ap child_names_of (done-injective _ cs h))
  render_children-names (tpl ∷ tpls) cs h =
      also-names tpl (render_child n marshal rc tpl) (render_children n marshal rc tpls) _ cs
        (λ c e. render_child-name n marshal rc tpl c e) (λ ds e. render_children-names tpls ds e) h

-- The names that the templates are to get.
abbrev pub wanted_names : Naming → Text → List Template → List Text
wanted_names n composite [] = []
wanted_names n composite (tpl ∷ tpls) =
    child_resource_name n composite tpl.name ∷ wanted_names n composite tpls

module _ (n : Naming) (composite : Text) where
  -- Each entry has the name that is made for its key.
  abbrev IsMade : List (Text × Text) → Type 0
  IsMade = All (λ (e : Text × Text). e.1 ≡ child_resource_name n composite e.0)

  abbrev Has : List (Text × Text) → Text → Type 0
  Has names k = (c : Text) × (child_of names k ≡ some c)

  IsMade-child_of :
      (names : List (Text × Text)) (k c : Text)
      → IsMade names
      → child_of names k ≡ some c
      → c ≡ child_resource_name n composite k
  unfolding child_of
  IsMade-child_of [] k c m h = cc
  IsMade-child_of ((j, d) ∷ names) k c m h = elim (Bool-cases (text_eq j k)) [
    | inl e ↦
        sym (some-injective _ _ (rw e at h))
        ∙ m.0
        ∙ ap (child_resource_name n composite) ((text_eq_iff j k).0 e)
    | inr e ↦ IsMade-child_of names k c m.1 (rw e at h)
  ]

  Has-cons :
      (j d : Text) (names : List (Text × Text)) (k : Text) → Has names k → Has ((j, d) ∷ names) k
  unfolding child_of
  Has-cons j d names k (c, h) = elim (Bool-cases (text_eq j k)) [
    | inl e ↦ (d, rw e refl)
    | inr e ↦ (c, rw e h)
  ]

  Has-first : (j d : Text) (names : List (Text × Text)) → Has ((j, d) ∷ names) j
  unfolding child_of
  Has-first j d names = (d, rw (text_eq_refl j) refl)

  -- What the loop over the templates leaves.
  record Filled (names names' : List (Text × Text)) (tpls : List Template) : Type 0 where
    is_made : IsMade names'
    keeps : (k : Text) → Has names k → Has names' k
    listed : All (λ (tpl : Template). Has names' tpl.name) tpls

  with_first :
      (names names' : List (Text × Text)) (tpl : Template) (tpls : List Template)
      → Filled ((tpl.name, child_resource_name n composite tpl.name) ∷ names) names' tpls
      → Filled names names' (tpl ∷ tpls)
  with_first names names' tpl tpls g = record {
    is_made = g.is_made;
    keeps = λ k x. g.keeps k (Has-cons tpl.name _ names k x);
    listed = (g.keeps tpl.name (Has-first tpl.name _ names), g.listed);
  }

  child_names-Filled :
      (names names' : List (Text × Text)) (tpls : List Template)
      → IsMade names
      → child_names n composite names tpls ≡ done names'
      → Filled names names' tpls
  unfolding child_names
  child_names-Filled names names' [] m h =
      let e = done-injective names names' h in
      record { is_made = subst IsMade e m; keeps = λ k x. subst (λ t. Has t k) e x; listed = tt }
  child_names-Filled names names' (tpl ∷ tpls) m h =
      elim (Bool-cases (is_taken (child_of names tpl.name))) [
        | inl taken ↦ let f = rw taken at h in cc
        | inr free ↦ elim (Bool-cases (n.is_label tpl.name)) [
          | inr bad ↦ let f = rw (free, bad) at h in cc
          | inl good ↦ with_first names names' tpl tpls (
              child_names-Filled ((tpl.name, child_resource_name n composite tpl.name) ∷ names)
                names' tpls (refl, m) (rw (free, good) at h))
        ]
      ]

  listed_names-made :
      (names : List (Text × Text)) (tpls : List Template)
      → IsMade names
      → All (λ (tpl : Template). Has names tpl.name) tpls
      → listed_names names tpls ≡ wanted_names n composite tpls
  listed_names-made names [] m l = refl
  listed_names-made names (tpl ∷ tpls) m ((c, e), l) =
      rw (e, IsMade-child_of names tpl.name c m e, listed_names-made names tpls m l) refl

  render_with-names :
      (marshal : Json → Text) (namespace : Text) (params : Fields) (tpls : List Template)
      (r : Rendering (List (Text × Text))) (cs : List Child)
      → child_names n composite [] tpls ≡ r
      → in_context
          (λ names.
            render_children n marshal
              (record {
                name = composite;
                namespace = namespace;
                params = params;
                child_name = names;
              })
              tpls)
          r
        ≡ done cs
      → child_names_of cs ≡ wanted_names n composite tpls
  render_with-names marshal namespace params tpls (failed e) cs f h = cc
  render_with-names marshal namespace params tpls (done names) cs f h =
      let g = child_names-Filled [] names tpls tt f in
      render_children-names n marshal _ tpls cs h ∙ listed_names-made names tpls g.is_made g.listed

-- A composite that renders has one child for each template of its definition, in order, each under
-- the name that childResourceName makes of the composite's and the template's names, whatever
-- validates the parameters.
pub render_composite-names :
    (n : Naming) (marshal : Json → Text) (is_valid : Fields → Bool) (composite namespace : Text)
    (params : Document) (tpls : List Template) (cs : List Child)
    → render_composite n marshal is_valid composite namespace params tpls ≡ done cs
    → child_names_of cs ≡ wanted_names n composite tpls
unfolding render_composite render_with
render_composite-names n marshal is_valid composite namespace malformed tpls cs h = cc
render_composite-names n marshal is_valid composite namespace absent tpls cs h =
    elim (Bool-cases (is_valid end)) [
      | inl e ↦ render_with-names n composite marshal namespace end tpls _ cs refl (rw e at h)
      | inr e ↦ let f = rw e at h in cc
    ]
render_composite-names n marshal is_valid composite namespace (object params) tpls cs h =
    elim (Bool-cases (is_valid params)) [
      | inl e ↦ render_with-names n composite marshal namespace params tpls _ cs refl (rw e at h)
      | inr e ↦ let f = rw e at h in cc
    ]
