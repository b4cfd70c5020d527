-- ===== src/Controller/Composite/Bounds.antt =====
-- How long the names of children and the labels of composites get (composite_render.go).
use doplane.Common.{
  ℕ, suc, ◌≤◌, ◌-◌, Text, Bool, [], ◌∷◌, ◌++◌, ◌&&◌, leb, length, length-append, arith, Bool-cases,
  inl, inr,
}
use doplane.Runnerops.Failures.{take}
use doplane.Runnerops.Failures.Lines.{length-take}
use doplane.Controller.Composite.Names.{
  Naming, cut_byte, trim_right_of, short_hash, cut_prefix, hashed_name, child_resource_name,
}

length-cut_byte :
    (cutset : ℕ → Bool) (c : ℕ) (s : Text) → length (cut_byte cutset c s) ≤ suc (length s)
length-cut_byte cutset c [] = elim (Bool-cases (cutset c)) [
  | inl e ↦ rw e (omega arith)
  | inr e ↦ rw e (omega arith)
]
length-cut_byte cutset c (d ∷ s) = omega arith

length-trim_right_of : (cutset : ℕ → Bool) (s : Text) → length (trim_right_of cutset s) ≤ length s
unfolding trim_right_of
length-trim_right_of cutset [] = omega arith
length-trim_right_of cutset (c ∷ s) =
    omega (arith, length-cut_byte cutset c (trim_right_of cutset s), length-trim_right_of cutset s)

length-cut_prefix :
    (n : Naming) (composite : Text) (max : ℕ) → length (cut_prefix n composite max) ≤ max
unfolding cut_prefix
length-cut_prefix n composite max = elim (Bool-cases (leb (length composite) max)) [
  | inl e ↦ rw e (ground arith)
  | inr e ↦
      rw e (omega (arith, length-trim_right_of _ (take max composite), length-take max composite))
]

length-hashed_name :
    (n : Naming) (composite resource hash : Text)
    → length hash ≤ 8
    → length resource ≤ 243
    → length (hashed_name n composite resource hash) ≤ 253
length-hashed_name n composite resource hash h r =
    let max = 253 - length resource - length hash - 2 in
    rw (length-append (cut_prefix n composite max), length-append hash)
      (omega (arith, length-cut_prefix n composite max))

-- The name of a child object is at most 253 bytes long, as the API server wants it, however long
-- the composite's name is, for a resource name of at most 243 bytes; a DNS label has at most 63.
pub length-child_resource_name :
    (n : Naming) (composite resource : Text)
    → length resource ≤ 243
    → length (child_resource_name n composite resource) ≤ 253
unfolding child_resource_name
length-child_resource_name n composite resource r =
    elim (Bool-cases (
      leb (length (composite ++ b'-' ∷ resource)) 253
      && n.is_subdomain (composite ++ b'-' ∷ resource))) [
        | inl e ↦ rw e (ground arith)
        | inr e ↦ rw e (
            length-hashed_name n composite resource (short_hash n (composite ++ b'-' ∷ resource))
              (length-take 8 (n.sha256_hex (composite ++ b'-' ∷ resource))) r)
      ]
