-- ===== src/Runnerops/Path/Access/Laws.antt =====
-- Reads after writes at dot paths (path.go).
use doplane.Common.{
  ℕ, ◌≡◌, refl, ◌≢◌, ◌∙◌, Text, true, none, some, List, [], ◌∷◌, ltb, if◌then◌else◌, arith,
  Bool-cases, inl, inr,
}
use doplane.Json.{Json, arr, obj, Items, Fields, end, lookup, insert, len, get_elem?, set}
use doplane.Json.Laws.{lookup-insert_self, get_elem?-set_self, len-set}
use doplane.Runnerops.Path.{Segment, key, index}
use doplane.Runnerops.Path.Access.{set_from, get_from, value_or_null, is_absent}

-- A read through an entry, or an element, that was just written.
pub get_from-key_self :
    (k : Text) (segs : List Segment) (v : Json) (fs : Fields)
    → get_from (key k ∷ segs) (obj (insert k v fs)) ≡ get_from segs v
unfolding get_from
get_from-key_self k segs v fs = rw (lookup-insert_self k v fs)

pub get_from-index_self :
    (i : ℕ) (segs : List Segment) (v : Json) (vs : Items)
    → ltb i (len vs) ≡ true
    → get_from (index i ∷ segs) (arr (set vs i v)) ≡ get_from segs v
unfolding get_from
get_from-index_self i segs v vs h =
    rw (len-set vs i v, h) (rw (get_elem?-set_self vs i v (ground arith)))

get_from_nil : (v : Json) → get_from [] v ≡ some v
unfolding get_from
get_from_nil v = refl

module _ (value : Json) where
  -- The value that was set is the value that is read.
  pub get_from-set_from :
      (segs : List Segment) (node : Json)
      → segs ≢ []
      → (set_from segs value node).1 ≡ none
      → get_from segs (set_from segs value node).0 ≡ some value
  unfolding set_from
  get_from-set_from [] node n h = absurd (n refl)
  get_from-set_from (key k ∷ []) (obj fs) n h = get_from-key_self k [] value fs ∙ get_from_nil value
  get_from-set_from (key k ∷ index i ∷ segs) (obj fs) n h =
      elim (Bool-cases (is_absent (lookup k fs))) [
        | inl e ↦ ground arith
        | inr e ↦ rw e (
            get_from-key_self k (index i ∷ segs) _ fs
            ∙ get_from-set_from (index i ∷ segs) (value_or_null (lookup k fs)) (λ c. cc)
                (rw e at h))
      ]
  get_from-set_from (key k ∷ key j ∷ segs) (obj fs) n h =
      get_from-key_self k (key j ∷ segs) _ fs
      ∙ get_from-set_from (key j ∷ segs)
          (if is_absent (lookup k fs) then obj end else value_or_null (lookup k fs)) (λ c. cc) h
  get_from-set_from (index i ∷ segs) (obj fs) n h = cc
  get_from-set_from (key k ∷ segs) (arr vs) n h = cc
  get_from-set_from (index i ∷ []) (arr vs) n h = elim (Bool-cases (ltb i (len vs))) [
    | inl e ↦ rw e (get_from-index_self i [] value vs e ∙ get_from_nil value)
    | inr e ↦ ground arith
  ]
  get_from-set_from (index i ∷ seg ∷ segs) (arr vs) n h = elim (Bool-cases (ltb i (len vs))) [
    | inl e ↦ rw e (
        get_from-index_self i (seg ∷ segs) _ vs e
        ∙ get_from-set_from (seg ∷ segs) (value_or_null (get_elem? vs i)) (λ c. cc) (rw e at h))
    | inr e ↦ ground arith
  ]
  get_from-set_from (seg ∷ segs) node n h = cc
