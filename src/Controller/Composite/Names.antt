-- ===== src/Controller/Composite/Names.antt =====
-- internal/controller/composite_render.go: the names of children and the labels of composites. What
-- k8s.io/apimachinery says of a name and the digest of crypto/sha256 are parameters.
use doplane.Common.{ℕ, ◌-◌, Text, Bool, [], ◌∷◌, ◌++◌, ◌&&◌, ◌||◌, ◌==◌, if◌then◌else◌, leb, length}
use doplane.Runnerops.Failures.{take}

-- `len(validation.IsDNS1123Label(s)) == 0` and the like, and the hexadecimal digest.
pub record Naming : Type 0 where
  pub is_label : Text → Bool
  pub is_subdomain : Text → Bool
  pub is_label_value : Text → Bool
  pub sha256_hex : Text → Text

abbrev pub cut_byte : (ℕ → Bool) → ℕ → Text → Text
cut_byte cutset c [] = if cutset c then [] else c ∷ []
cut_byte cutset c (d ∷ s) = c ∷ d ∷ s

-- `strings.TrimRight`, with the test for the bytes of the cutset.
unfoldable pub trim_right_of : (ℕ → Bool) → Text → Text
trim_right_of cutset [] = []
trim_right_of cutset (c ∷ s) = cut_byte cutset c (trim_right_of cutset s)

abbrev pub dash_or_dot : ℕ → Bool
dash_or_dot c = c == b'-' || c == b'.'

abbrev pub dash_dot_or_line : ℕ → Bool
dash_dot_or_line c = c == b'-' || c == b'.' || c == b'_'

module _ (n : Naming) where
  abbrev pub short_hash : Text → Text
  short_hash name = take 8 (n.sha256_hex name)

  -- `prefix` of childResourceName
  unfoldable pub cut_prefix : Text → ℕ → Text
  cut_prefix composite max =
      if leb (length composite) max
      then composite
      else trim_right_of dash_or_dot (take max composite)

  abbrev pub hashed_name : Text → Text → Text → Text
  hashed_name composite resource hash =
      cut_prefix composite (253 - length resource - length hash - 2)
      ++ b'-' ∷ (hash ++ b'-' ∷ resource)

  -- `childResourceName`
  unfoldable pub child_resource_name : Text → Text → Text
  child_resource_name composite resource =
      let name = composite ++ b'-' ∷ resource in
      if leb (length name) 253 && n.is_subdomain name
      then name
      else hashed_name composite resource (short_hash name)

  abbrev pub min : ℕ → ℕ → ℕ
  min a b = if leb a b then a else b

  -- `compositeLabelValue`
  unfoldable pub composite_label_value : Text → Text
  composite_label_value name =
      if n.is_label_value name
      then name
      else (trim_right_of dash_dot_or_line
            (take (min (length name) (63 - length (short_hash name) - 1)) name)
          ++ b'-' ∷ short_hash name)
