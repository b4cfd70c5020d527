-- ===== src/Controller/References/Tests.antt =====
-- Concrete references (internal/controller/references_test.go).
use doplane.Common.{
  ◌≡◌, refl, ◌⊎◌, Text, bytes, true, [], ◌∷◌, All, has_prefix, replace_from, replace_all,
}
use doplane.Json.{string, end}
use doplane.Runnerops.Path.Tests.{paths}
use doplane.Controller.Resource.{DoResource}
use doplane.Controller.Sync.{settle}
use doplane.Controller.Calls.{count, is_cloud_call}
use doplane.Controller.References.{
  expand_template, resolve_field_path, drop_bytes, populated, unpopulated, bad_field_path,
  SourceRead, source_missing, apply_references,
}
use doplane.Controller.References.Resolved.{IsAvailable, apply_references-gates}
use doplane.Controller.Tests.{world, spec, with_conditions}

-- Everything that a resolution goes through.
references : Unit {0}
unfolding paths has_prefix replace_from replace_all expand_template resolve_field_path drop_bytes
references = tt

template_tests :
    (expand_template (bytes "arn:${value}/*") (bytes "b1") ≡ bytes "arn:b1/*")
    × (expand_template (bytes "$${value} is ${value}") (bytes "b1") ≡ bytes "${value} is b1")
unfolding references
template_tests = (refl, refl)

field_path_tests :
    (resolve_field_path (with_conditions (bytes "pet-1") []) (bytes "status.id")
      ≡ populated (string (bytes "pet-1")))
    × (resolve_field_path (with_conditions (bytes "pet-1") []) (bytes "status.outputs.size")
        ≡ populated (string (bytes "2")))
    × (resolve_field_path (with_conditions (bytes "pet-1") []) (bytes "status.outputs.zone")
        ≡ unpopulated)
    × (resolve_field_path (with_conditions (bytes "pet-1") []) (bytes "spec.size") ≡ bad_field_path)
unfolding references
field_path_tests = (refl, refl, refl, refl)

abbrev reader : DoResource
reader = record (with_conditions [] []) {
  spec = record spec {
    references =
        record {
          to_path = bytes "bucket";
          from = record { name = bytes "gone"; field_path = bytes "status.id" };
          template = [];
        }
        ∷ [];
  };
}

abbrev no_source : Text → SourceRead
no_source name = source_missing

apply_references-gates_example :
    All (IsAvailable no_source) reader.spec.references
    ⊎ (count is_cloud_call
          (apply_references
            (λ v. [])
            (λ src p. true)
            no_source
            world
            (reader ∷ [])
            (λ fs. settle)
            end
            (record { res = reader; trace = [] })).1.trace
        ≡ count is_cloud_call [])
apply_references-gates_example =
    apply_references-gates (λ v. []) (λ src p. true) no_source world (reader ∷ []) (λ fs. settle)
      end (record { res = reader; trace = [] })
