-- ===== src/Controller/Resource.antt =====
-- api/v1alpha1/doresource_types.go: the DoResource object, with what the controller reads and
-- writes of its metadata. A raw JSON field is what the decoder makes of it.
use doplane.Common.{ℕ, Text, text_eq, Bool, Option, List, [], ◌∷◌, if◌then◌else◌}
use doplane.Json.{Fields}
use doplane.Runnerops.Spec.{Code}

-- A raw JSON field: missing or empty, a JSON object, or neither.
pub data Document : Type 0 where
  absent : Document
  object : Fields → Document
  malformed : Document

pub data DeletionPolicy : Type 0 where
  delete_external orphan : DeletionPolicy

pub data ProviderKind : Type 0 where
  cluster config : ProviderKind

pub record ProviderReference : Type 0 where
  pub name : Text
  pub kind : ProviderKind

pub record ValueFrom : Type 0 where
  pub to_path : Text
  pub secret_name : Text
  pub secret_key : Text

pub record ReferenceSource : Type 0 where
  pub name : Text
  pub field_path : Text

pub record Reference : Type 0 where
  pub to_path : Text
  pub from : ReferenceSource
  pub template : Text

pub record DoResourceSpec : Type 0 where
  pub token : Text
  pub package_ref : Text
  pub provider_ref : Option ProviderReference
  pub properties : Document
  pub deletion_policy : DeletionPolicy
  pub protect : Option Bool
  pub references : List Reference
  pub values_from : List ValueFrom

-- The reasons of conditions; the runner's failure codes are reasons too.
pub data Reason : Type 0 where
  reconcile_paused provider_not_found provider_package_mismatch resource_not_allowed : Reason
  invalid_properties cyclic_reference invalid_references waiting_for_dependency : Reason
  invalid_values_from schema_unavailable unknown_resource_type validation_failed : Reason
  values_from_unsupported create_failed adopt_failed update_not_supported update_failed : Reason
  read_failed replace_failed missing blocked_by_dependents synced available : Reason
  failure_code : Code → Reason

pub data ConditionType : Type 0 where
  ready synced_type : ConditionType

-- `metav1.Condition`, without its message and transition time.
pub record Condition : Type 0 where
  pub type : ConditionType
  pub status : Bool
  pub reason : Reason
  pub observed_generation : ℕ

pub record DoResourceStatus : Type 0 where
  pub id : Text
  pub outputs : Document
  pub observed_generation : ℕ
  pub applied_hash : Text
  pub engine_state : Option Text
  pub conditions : List Condition

pub record DoResource : Type 0 where
  pub name : Text
  pub namespace : Text
  pub generation : ℕ
  pub annotations : List (Text × Text)
  pub is_deleting : Bool
  pub has_finalizer : Bool
  pub spec : DoResourceSpec
  pub status : DoResourceStatus

-- `res.Annotations[name]`, "" where it is not set.
unfoldable pub annotation : List (Text × Text) → Text → Text
annotation [] name = []
annotation ((k, v) ∷ rest) name = if text_eq k name then v else annotation rest name

-- `res.Annotations[name] = value`
unfoldable pub annotate : List (Text × Text) → Text → Text → List (Text × Text)
annotate [] name value = (name, value) ∷ []
annotate ((k, v) ∷ rest) name value =
    if text_eq k name then (k, value) ∷ rest else (k, v) ∷ annotate rest name value
