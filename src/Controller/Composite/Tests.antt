-- ===== src/Controller/Composite/Tests.antt =====
-- Templates at concrete values (internal/controller/composite_render_test.go), and instances of the
-- theorems.
use doplane.Common.{
  ◌≡◌, ◌≤◌, refl, Text, bytes, text_eq, true, none, [], ◌∷◌, ◌++◌, arith, length, has_prefix,
  replace_from, replace_all, trim_left, trim_right, trim_space, text_leb, insert_sorted,
  sort_by_key,
}
use doplane.Json.{Json, string, number, obj, Fields, end, field}
use doplane.Runnerops.Path.Tests.{paths}
use doplane.Runnerops.Path.{cut_at}
use doplane.Runnerops.Path.Access.{get_path}
use doplane.Runnerops.Failures.{take}
use doplane.Controller.Resource.{Reference, object, absent, delete_external}
use doplane.Controller.References.{drop_bytes, expand_template, render_scalar, reference_value}
use doplane.Controller.Composite.Expressions.{
  RenderContext, parts_from, is_unterminated, kind_of, has_expr, child_of, parse_resource_expr,
  fill, render_string, reference, literal, invalid, unterminated,
}
use doplane.Controller.Composite.Values.{render_value, render_external_name}
use doplane.Controller.Composite.Names.{
  Naming, trim_right_of, cut_prefix, child_resource_name, composite_label_value,
}
use doplane.Controller.Composite.Children.{
  Template, Child, done, failed, duplicate_name, sort_references, render_child, render_children,
  child_names, render_with, render_composite,
}
use doplane.Controller.Composite.Bounds.{length-child_resource_name}
use doplane.Controller.Composite.Named.{wanted_names, render_composite-names}
use doplane.Controller.Composite.Filled.{placeholder}
use doplane.Controller.Composite.Mixed.{one_expr}
use doplane.Controller.Composite.Substitution.{
  substituted, render_string-substitutes, in_a_row, render_string-loses,
}

-- Everything that a rendering goes through.
renders : Unit {0}
unfolding paths text_eq has_prefix replace_from replace_all trim_left trim_right trim_space text_leb
    insert_sorted sort_by_key cut_at get_path take drop_bytes expand_template render_scalar
    reference_value parts_from is_unterminated kind_of has_expr child_of parse_resource_expr fill
    render_string render_value render_external_name trim_right_of cut_prefix child_resource_name
    composite_label_value sort_references render_child render_children child_names render_with
    render_composite
renders = tt

abbrev marshal : Json → Text
marshal v = []

abbrev rc : RenderContext
rc = record {
  name = bytes "shop";
  namespace = bytes "prod";
  params =
      field (bytes "size") (number (bytes "3")) (field (bytes "price") (string (bytes "5$")) end);
  child_name = (bytes "db", bytes "shop-db") ∷ [];
}

string_tests :
    (render_string marshal rc (bytes "p") (bytes "a ${self.name} $${x}")
      ≡ literal (string (bytes "a shop ${x}")))
    × (render_string marshal rc (bytes "p") (bytes "${ params.size }")
        ≡ literal (number (bytes "3")))
    × (render_string marshal rc (bytes "p") (bytes "a ${params.size")
        ≡ invalid (unterminated (bytes "p")))
    × (render_string marshal rc (bytes "p") (bytes "db=${resources.db.id}:${params.size}")
        ≡ reference (record {
          to_path = bytes "p";
          from = record { name = bytes "shop-db"; field_path = bytes "status.id" };
          template = bytes "db=${value}:3";
        }))
unfolding renders
string_tests = (refl, refl, refl, refl)

abbrev db_reference : Reference
db_reference = record {
  to_path = bytes "p";
  from = record { name = bytes "shop-db"; field_path = bytes "status.id" };
  template = bytes "db=${value}!";
}

render_string-substitutes_example :
    (ref : Reference) × (render_string marshal rc
        (bytes "p")
        (one_expr (bytes "db=") (bytes "resources.db.id") (bytes "!"))
      ≡ reference ref)
    × (ref.to_path ≡ bytes "p")
    × (ref.from.name ≡ bytes "shop-db")
    × (ref.from.field_path ≡ bytes "status.id")
    × (reference_value marshal ref.template (string (bytes "i-7"))
        ≡ substituted marshal (bytes "db=") (bytes "!") (string (bytes "i-7")))
unfolding child_of text_eq
render_string-substitutes_example =
    render_string-substitutes marshal rc (bytes "p") (bytes "db=") (bytes "!")
      (bytes "resources.db.id") (bytes "db") (bytes "status.id") (string (bytes "i-7"))
      (omega arith) (omega arith) (omega arith) (omega arith) (unfold renders in omega arith)
      (omega arith) (omega arith) (unfold renders in refl) (unfold renders in refl)

render_string-loses_example :
    (ref : Reference) × (render_string marshal rc
        (bytes "p")
        (in_a_row (bytes "params.price") (bytes "resources.db.id"))
      ≡ reference ref)
    × ((v : Json) → reference_value marshal ref.template v ≡ string (bytes "5" ++ placeholder))
render_string-loses_example =
    render_string-loses marshal rc (bytes "p") (bytes "params.price") (bytes "resources.db.id")
      (bytes "5") (bytes "db") (bytes "status.id") (string (bytes "5$")) (omega arith) (omega arith)
      (omega arith) (omega arith) (omega arith) (omega arith) (unfold renders in refl)
      (unfold renders in refl) (unfold renders in refl) (unfold renders in refl)
      (unfold renders in refl)

-- Names and digests, where every name is allowed.
abbrev naming : Naming
naming = record {
  is_label = λ s. true;
  is_subdomain = λ s. true;
  is_label_value = λ s. true;
  sha256_hex = λ s. bytes "0123456789abcdef";
}

length-child_resource_name_example :
    length (child_resource_name naming (bytes "shop") (bytes "db")) ≤ 253
length-child_resource_name_example =
    length-child_resource_name naming (bytes "shop") (bytes "db") (omega arith)

abbrev template : Text → Fields → Template
template name props = record {
  name = name;
  token = bytes "random:index/randomPet:RandomPet";
  package_ref = [];
  provider_ref = none;
  deletion_policy = delete_external;
  properties = object props;
  external_name = [];
}

-- The child of a template whose property reads another one's output.
abbrev web : Template
web = template (bytes "web") (
    field (bytes "db") (string (bytes "${resources.db.outputs.host}"))
      (field (bytes "n") (string (bytes "${params.size}")) end))

abbrev web_child : Child
web_child = record {
  name = bytes "shop-web";
  namespace = bytes "prod";
  labels =
      (bytes "do.pulumi.com/composite", bytes "shop")
      ∷ (bytes "do.pulumi.com/composite-resource", bytes "web")
      ∷ (bytes "app.kubernetes.io/managed-by", bytes "doplane")
      ∷ [];
  annotations = [];
  token = bytes "random:index/randomPet:RandomPet";
  package_ref = [];
  provider_ref = none;
  deletion_policy = delete_external;
  properties = obj (field (bytes "n") (number (bytes "3")) end);
  references =
      record {
        to_path = bytes "db";
        from = record { name = bytes "shop-db"; field_path = bytes "status.outputs.host" };
        template = [];
      }
      ∷ [];
}

composite_tests :
    (render_child naming marshal
        (record rc {
          child_name = (bytes "web", bytes "shop-web") ∷ (bytes "db", bytes "shop-db") ∷ [];
        })
        web
      ≡ done web_child)
    × (render_composite naming marshal
          (λ params. true)
          (bytes "shop")
          (bytes "prod")
          absent
          (template (bytes "db") end ∷ template (bytes "db") end ∷ [])
        ≡ failed (duplicate_name (bytes "db")))
unfolding renders
composite_tests = (refl, refl)

abbrev db_child : Child
db_child = record {
  name = bytes "shop-db";
  namespace = bytes "prod";
  labels =
      (bytes "do.pulumi.com/composite", bytes "shop")
      ∷ (bytes "do.pulumi.com/composite-resource", bytes "db")
      ∷ (bytes "app.kubernetes.io/managed-by", bytes "doplane")
      ∷ [];
  annotations = [];
  token = bytes "random:index/randomPet:RandomPet";
  package_ref = [];
  provider_ref = none;
  deletion_policy = delete_external;
  properties = obj end;
  references = [];
}

render_composite-names_example :
    bytes "shop-db" ∷ [] ≡ wanted_names naming (bytes "shop") (template (bytes "db") end ∷ [])
render_composite-names_example =
    render_composite-names naming marshal (λ params. true) (bytes "shop") (bytes "prod") absent
      (template (bytes "db") end ∷ []) (db_child ∷ []) (unfold renders in refl)
