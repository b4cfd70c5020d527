-- ===== src/Runnerops/Secrets/Inputs.antt =====
-- internal/runnerops/secretinput.go: applySecretInputs, which writes the secret values into the
-- properties just before the provider call. The environment is the argument `env`.
use doplane.Common.{
  ◌≡◌, refl, ◌≢◌, Text, Option, none, some, List, [], ◌∷◌, Any, if◌then◌else◌, sort_by_key,
  Any-sort_by_key, inl, inr,
}
use mathlib.Core.Path.{subst}
use doplane.Json.{Fields, end, string}
use doplane.Runnerops.Path.{is_empty}
use doplane.Runnerops.Path.Access.{AccessError, set_path}
use doplane.Runnerops.Spec.{Op}

pub data InputError : Type 0 where
  env_not_set : Text → Text → InputError
  bad_target : Text → AccessError → InputError

-- The values to redact, or the error.
pub data Applied : Type 0 where
  values_of : List Text → Applied
  refused : InputError → Applied

-- `values = append(values, value)` unless the value is empty.
abbrev pub with_value : Text → Applied → Applied
with_value v (refused e) = refused e
with_value v (values_of vs) = if is_empty v then values_of vs else values_of (v ∷ vs)

-- What follows the write of one value.
abbrev pub after_set :
    Text → Text → (Fields → Fields × Applied) → Fields × Option AccessError → Fields × Applied
after_set path value next (props, some e) = (props, refused (bad_target path e))
after_set path value next (props, none) = let r = next props in (r.0, with_value value r.1)

-- What follows the look-up of one environment variable.
abbrev pub after_lookup :
    Text → Text → (Fields → Fields × Applied) → Fields → Option Text → Fields × Applied
after_lookup path name next props none = (props, refused (env_not_set path name))
after_lookup path name next props (some value) =
    after_set path value next (set_path props path (string value))

abbrev pub properties_or_empty : Option Fields → Fields
properties_or_empty none = end
properties_or_empty (some fs) = fs

abbrev pub with_properties : Op → Fields × Applied → Op × Applied
with_properties op r = (record op { properties = some r.0 }, r.1)

module _ (env : Text → Option Text) where
  -- The loop over the sorted paths.
  unfoldable pub apply_from : List (Text × Text) → Fields → Fields × Applied
  apply_from [] props = (props, values_of [])
  apply_from ((path, name) ∷ inputs) props =
      after_lookup path name (apply_from inputs) props (env name)

  unfoldable pub apply_inputs : List (Text × Text) → Op → Op × Applied
  apply_inputs [] op = (op, values_of [])
  apply_inputs (e ∷ es) op =
      with_properties op (apply_from (sort_by_key (e ∷ es)) (properties_or_empty op.properties))

  -- `applySecretInputs`
  unfoldable pub apply_secret_inputs : Op → Op × Applied
  apply_secret_inputs op = apply_inputs op.secret_inputs op

-- A value among those that are to be redacted.
abbrev Holds : Text → Applied → Type 0
Holds v (values_of vs) = Any (λ u. u ≡ v) vs
Holds v (refused e) = Unit

with_value-Holds_self : (v : Text) (r : Applied) → v ≢ [] → Holds v (with_value v r)
with_value-Holds_self v (refused e) n = tt
with_value-Holds_self [] (values_of vs) n = absurd (n refl)
with_value-Holds_self (b ∷ v) (values_of vs) n = inl refl

with_value-Holds : (u v : Text) (r : Applied) → Holds v r → Holds v (with_value u r)
with_value-Holds u v (refused e) h = tt
with_value-Holds [] v (values_of vs) h = h
with_value-Holds (b ∷ u) v (values_of vs) h = inr h

module _ (env : Text → Option Text) where
  after_set-Holds :
      (path value v : Text) (next : Fields → Fields × Applied) (w : Fields × Option AccessError)
      → ((props : Fields) → Holds v (next props).1)
      → Holds v (after_set path value next w).1
  after_set-Holds path value v next (props, some e) h = tt
  after_set-Holds path value v next (props, none) h =
      with_value-Holds value v (next props).1 (h props)

  after_lookup-Holds :
      (path name v : Text) (next : Fields → Fields × Applied) (props : Fields) (o : Option Text)
      → ((props' : Fields) → Holds v (next props').1)
      → Holds v (after_lookup path name next props o).1
  after_lookup-Holds path name v next props none h = tt
  after_lookup-Holds path name v next props (some value) h =
      after_set-Holds path value v next (set_path props path (string value)) h

  after_set-Holds_self :
      (path v : Text) (next : Fields → Fields × Applied) (w : Fields × Option AccessError)
      → v ≢ []
      → Holds v (after_set path v next w).1
  after_set-Holds_self path v next (props, some e) n = tt
  after_set-Holds_self path v next (props, none) n = with_value-Holds_self v (next props).1 n

  apply_from-Holds :
      (inputs : List (Text × Text)) (props : Fields) (name v : Text)
      → env name ≡ some v
      → v ≢ []
      → Any (λ (e : Text × Text). e.1 ≡ name) inputs
      → Holds v (apply_from env inputs props).1
  unfolding apply_from
  apply_from-Holds [] props name v e n m = absurd m
  apply_from-Holds ((path, name') ∷ inputs) props name v e n (inl same) =
      rw (same, e) (after_set-Holds_self path v (apply_from env inputs) _ n)
  apply_from-Holds ((path, name') ∷ inputs) props name v e n (inr m) =
      after_lookup-Holds path name' v (apply_from env inputs) props (env name')
        (λ props'. apply_from-Holds inputs props' name v e n m)

  apply_inputs-Holds :
      (inputs : List (Text × Text)) (op : Op) (name v : Text)
      → env name ≡ some v
      → v ≢ []
      → Any (λ (e : Text × Text). e.1 ≡ name) inputs
      → Holds v (apply_inputs env inputs op).1
  unfolding apply_inputs
  apply_inputs-Holds [] op name v e n m = absurd m
  apply_inputs-Holds (d ∷ es) op name v e n m =
      apply_from-Holds (sort_by_key (d ∷ es)) _ name v e n
        (Any-sort_by_key (λ (e : Text × Text). e.1 ≡ name) (d ∷ es) m)

-- When applySecretInputs succeeds, the value of every environment variable that the operation names
-- is among the values that it hands on for redaction, unless the value is empty.
pub apply_secret_inputs_covers :
    (env : Text → Option Text) (op : Op) (name v : Text) (values : List Text)
    → (apply_secret_inputs env op).1 ≡ values_of values
    → env name ≡ some v
    → v ≢ []
    → Any (λ (e : Text × Text). e.1 ≡ name) op.secret_inputs
    → Any (λ u. u ≡ v) values
unfolding apply_secret_inputs
apply_secret_inputs_covers env op name v values h e n m =
    subst (Holds v) h (apply_inputs-Holds env op.secret_inputs op name v e n m)
