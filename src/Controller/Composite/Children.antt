-- ===== src/Controller/Composite/Children.antt =====
-- internal/controller/composite_render.go: renderComposite, and the children. The validation of
-- parameters is a parameter.
use doplane.Common.{
  Text, bytes, Bool, true, false, Option, none, some, List, [], ◌∷◌, if◌then◌else◌, sort_by_key,
}
use doplane.Json.{Json, Fields, end, obj}
use doplane.Runnerops.Path.{is_empty}
use doplane.Controller.Resource.{
  Document, absent, object, malformed, DeletionPolicy, ProviderReference, Reference,
}
use doplane.Controller.Sync.{ann_external_name}
use doplane.Controller.Composite.Names.{Naming, child_resource_name, composite_label_value}
use doplane.Controller.Composite.Expressions.{RenderContext, RenderError, child_of, or_empty}
use doplane.Controller.Composite.Values.{
  Walked, walked, stopped, render_value, render_external_name,
}

-- `CompositeResourceTemplate`
pub record Template : Type 0 where
  pub name : Text
  pub token : Text
  pub package_ref : Text
  pub provider_ref : Option ProviderReference
  pub deletion_policy : DeletionPolicy
  pub properties : Document
  pub external_name : Text

-- The child that renderChild builds, as far as it sets the object.
pub record Child : Type 0 where
  pub name : Text
  pub namespace : Text
  pub labels : List (Text × Text)
  pub annotations : List (Text × Text)
  pub token : Text
  pub package_ref : Text
  pub provider_ref : Option ProviderReference
  pub deletion_policy : DeletionPolicy
  pub properties : Json
  pub references : List Reference

pub data CompositeError : Type 0 where
  bad_parameters invalid_parameters : CompositeError
  duplicate_name bad_name bad_properties bad_external_name : Text → CompositeError
  bad_value : Text → RenderError → CompositeError

abbrev pub keyed : List Reference → List (Text × Reference)
keyed [] = []
keyed (ref ∷ refs) = (ref.to_path, ref) ∷ keyed refs

abbrev pub values : List (Text × Reference) → List Reference
values [] = []
values ((k, ref) ∷ rest) = ref ∷ values rest

-- `sort.Slice` by the paths.
unfoldable pub sort_references : List Reference → List Reference
sort_references refs = values (sort_by_key (keyed refs))

-- A list of children, or the error of the first that fails.
pub data Rendering (A : Type 0) : Type 0 where
  done : A → Rendering A
  failed : CompositeError → Rendering A

abbrev pub name_annotation : Text → List (Text × Text)
name_annotation [] = []
name_annotation (b ∷ name) = (ann_external_name, b ∷ name) ∷ []

abbrev pub annotations_or : Text → Option Text → Rendering (List (Text × Text))
annotations_or tpl none = failed (bad_external_name tpl)
annotations_or tpl (some name) = done (name_annotation name)

abbrev pub with_annotations : Child → Rendering (List (Text × Text)) → Rendering Child
with_annotations child (done anns) = done (record child { annotations = anns })
with_annotations child (failed e) = failed e

abbrev pub also : Rendering Child → Rendering (List Child) → Rendering (List Child)
also (failed e) rest = failed e
also (done child) (failed e) = failed e
also (done child) (done children) = done (child ∷ children)

abbrev pub is_taken : Option Text → Bool
is_taken none = false
is_taken (some child) = true

abbrev pub in_context :
    (List (Text × Text) → Rendering (List Child))
    → Rendering (List (Text × Text))
    → Rendering (List Child)
in_context render (failed e) = failed e
in_context render (done names) = render names

module _ (n : Naming) where
  -- The loop that fills `rc.childName`, over the names so far.
  unfoldable pub child_names :
      Text → List (Text × Text) → List Template → Rendering (List (Text × Text))
  child_names composite names [] = done names
  child_names composite names (tpl ∷ tpls) =
      let rest =
        child_names composite ((tpl.name, child_resource_name n composite tpl.name) ∷ names) tpls in
      if is_taken (child_of names tpl.name)
      then failed (duplicate_name tpl.name)
      else if n.is_label tpl.name
      then rest
      else failed (bad_name tpl.name)

module _ (n : Naming) (marshal : Json → Text) where
  abbrev pub labels_of : Text → Text → List (Text × Text)
  labels_of composite item =
      (bytes "do.pulumi.com/composite", composite_label_value n composite)
      ∷ (bytes "do.pulumi.com/composite-resource", item)
      ∷ (bytes "app.kubernetes.io/managed-by", bytes "doplane")
      ∷ []

  abbrev pub child_from : RenderContext → Template → Json → List Reference → Child
  child_from rc tpl props refs = record {
    name = or_empty (child_of rc.child_name tpl.name);
    namespace = rc.namespace;
    labels = labels_of rc.name tpl.name;
    annotations = [];
    token = tpl.token;
    package_ref = tpl.package_ref;
    provider_ref = tpl.provider_ref;
    deletion_policy = tpl.deletion_policy;
    properties = props;
    references = sort_references refs;
  }

  abbrev pub named_child : RenderContext → Template → Child → Rendering Child
  named_child rc tpl child =
      if is_empty tpl.external_name
      then done child
      else with_annotations child
          (annotations_or tpl.name (render_external_name marshal rc tpl.external_name))

  abbrev pub child_of_value : RenderContext → Template → Walked (Option Json) → Rendering Child
  child_of_value rc tpl (stopped e) = failed (bad_value tpl.name e)
  child_of_value rc tpl (walked none refs) = failed (bad_properties tpl.name)
  child_of_value rc tpl (walked (some v) refs) = named_child rc tpl (child_from rc tpl v refs)

  abbrev pub child_of_document : RenderContext → Template → Document → Rendering Child
  child_of_document rc tpl absent = child_of_value rc tpl (render_value marshal rc [] (obj end))
  child_of_document rc tpl (object fs) = child_of_value rc tpl (render_value marshal rc [] (obj fs))
  child_of_document rc tpl malformed = failed (bad_properties tpl.name)

  -- `renderChild`
  unfoldable pub render_child : RenderContext → Template → Rendering Child
  render_child rc tpl = child_of_document rc tpl tpl.properties

  unfoldable pub render_children : RenderContext → List Template → Rendering (List Child)
  render_children rc [] = done []
  render_children rc (tpl ∷ tpls) = also (render_child rc tpl) (render_children rc tpls)

  -- renderComposite with decoded parameters that are valid.
  unfoldable pub render_with : Text → Text → Fields → List Template → Rendering (List Child)
  render_with name namespace params tpls =
      in_context
        (λ names.
          render_children
            (record { name = name; namespace = namespace; params = params; child_name = names })
            tpls)
        (child_names n name [] tpls)

  -- `renderComposite`; `is_valid` is the validation against the definition's schema, if it has one.
  unfoldable pub render_composite :
      (Fields → Bool) → Text → Text → Document → List Template → Rendering (List Child)
  render_composite is_valid name namespace malformed tpls = failed bad_parameters
  render_composite is_valid name namespace absent tpls =
      if is_valid end then render_with name namespace end tpls else failed invalid_parameters
  render_composite is_valid name namespace (object params) tpls =
      if is_valid params then render_with name namespace params tpls else failed invalid_parameters
