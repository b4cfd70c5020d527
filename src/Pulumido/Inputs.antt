-- ===== src/Pulumido/Inputs.antt =====
-- internal/pulumido/secretinput.go: the secret inputs of an operation, and the variables they travel in.
use doplane.Common.{
  ℕ, suc, Text, bytes, text_eq, if◌then◌else◌, List, [], ◌∷◌, ◌++◌, decimal, sort_by_key,
}

pub record SecretInput : Type 0 where
  pub to_path : Text
  pub secret_name : Text
  pub secret_key : Text

-- `secretEnvName`
abbrev pub secret_env_name : ℕ → Text
secret_env_name i = bytes "DOPLANE_SECRET_" ++ decimal i

-- The inputs under their paths.
unfoldable pub by_path : List SecretInput → List (Text × SecretInput)
by_path [] = []
by_path (input ∷ inputs) = (input.to_path, input) ∷ by_path inputs

-- `ordered`
abbrev pub ordered_inputs : List SecretInput → List (Text × SecretInput)
ordered_inputs inputs = sort_by_key (by_path inputs)

-- `mapping[path] = name` on the entries of the map.
unfoldable pub put : Text → Text → List (Text × Text) → List (Text × Text)
put path name [] = (path, name) ∷ []
put path name ((k, v) ∷ entries) =
    let rest = put path name entries in
    if text_eq k path then (path, name) ∷ entries else (k, v) ∷ rest

unfoldable pub mapping_from :
    ℕ → List (Text × SecretInput) → List (Text × Text) → List (Text × Text)
mapping_from i [] mapping = mapping
mapping_from i ((path, input) ∷ inputs) mapping =
    mapping_from (suc i) inputs (put path (secret_env_name i) mapping)

-- The mapping that `secretInputsPlan` gives beside the ordered inputs.
abbrev pub secret_inputs_plan : List SecretInput → List (Text × Text)
secret_inputs_plan inputs = mapping_from 0 (ordered_inputs inputs) []
