-- ===== src/Runnerops/Path/Access/Deletion.antt =====
-- What DeletePath removes (path.go), and that no later deletion brings it back.
use doplane.Common.{
  ℕ, ◌<◌, ◌≡◌, refl, ◌≢◌, Text, text_eq, text_eq_iff, text_eq_refl, false, Option, none, some, List,
  [], ◌∷◌, ◌==◌, ==_iff, ltb, arith, Bool-cases, Option-cases, inl, inr,
}
use doplane.Json.{Json, null, arr, obj, Items, Fields, lookup, insert, erase, len, get_elem?, set}
use doplane.Json.Laws.{
  lookup-insert, lookup-erase, get_elem?-set_self, get_elem?-set_ne, get_elem?-none,
}
use doplane.Runnerops.Path.{Segment, key, index}
use doplane.Runnerops.Path.Access.{get_from, delete_from, value_or_null, is_some}
use doplane.Runnerops.Path.Access.Laws.{get_from-key_self, get_from-index_self}

-- The report of a deletion is whether the path led anywhere.
pub delete_from-eq-get_from :
    (p : List Segment) (node : Json) → p ≢ [] → (delete_from p node).1 ≡ is_some (get_from p node)
unfolding delete_from get_from
delete_from-eq-get_from [] node n = absurd (n refl)
delete_from-eq-get_from (key k ∷ []) (obj fs) n = ground arith
delete_from-eq-get_from (key k ∷ s ∷ p) (obj fs) n =
    ground (arith, delete_from-eq-get_from (s ∷ p) (value_or_null (lookup k fs)) (λ e. cc))
delete_from-eq-get_from (index i ∷ p) (obj fs) n = refl
delete_from-eq-get_from (key k ∷ p) (arr vs) n = refl
delete_from-eq-get_from (index i ∷ []) (arr vs) n = ground arith
delete_from-eq-get_from (index i ∷ s ∷ p) (arr vs) n =
    ground (arith, delete_from-eq-get_from (s ∷ p) (value_or_null (get_elem? vs i)) (λ e. cc))
delete_from-eq-get_from (s ∷ p) node n = refl

-- Nothing can be read at the path, or null.
abbrev pub IsGone : List Segment → Json → Type 0
IsGone q v = value_or_null (get_from q v) ≡ null

IsGone-null : (q : List Segment) → IsGone q null
unfolding get_from
IsGone-null [] = refl
IsGone-null (key k ∷ q) = refl
IsGone-null (index i ∷ q) = refl

gone_nil : (v : Json) → IsGone [] v → v ≡ null
unfolding get_from
gone_nil v h = h

pub IsGone-in_object : (j : ℕ) (q : List Segment) (fs : Fields) → IsGone (index j ∷ q) (obj fs)
unfolding get_from
IsGone-in_object j q fs = refl

IsGone-in_array : (k : Text) (q : List Segment) (vs : Items) → IsGone (key k ∷ q) (arr vs)
unfolding get_from
IsGone-in_array k q vs = refl

delete_from_null : (s : Segment) (p : List Segment) → (delete_from (s ∷ p) null).0 ≡ null
unfolding delete_from
delete_from_null (key k) [] = refl
delete_from_null (key k) (s ∷ p) = refl
delete_from_null (index i) [] = refl
delete_from_null (index i) (s ∷ p) = refl

-- Reads through one step, by the cases of what the step finds.
pub IsGone-key :
    (j : Text) (q : List Segment) (fs : Fields)
    → IsGone q (value_or_null (lookup j fs))
    → IsGone (key j ∷ q) (obj fs)
unfolding get_from
IsGone-key j q fs h = ground arith

of_IsGone_key :
    (j : Text) (q : List Segment) (fs : Fields)
    → IsGone (key j ∷ q) (obj fs)
    → IsGone q (value_or_null (lookup j fs))
unfolding get_from
of_IsGone_key j q fs h = elim (Option-cases (lookup j fs)) [
  | inl e ↦ rw e (IsGone-null q)
  | inr (v, e) ↦ rw e (rw e at h)
]

IsGone-index :
    (j : ℕ) (q : List Segment) (vs : Items)
    → IsGone q (value_or_null (get_elem? vs j))
    → IsGone (index j ∷ q) (arr vs)
unfolding get_from
IsGone-index j q vs h = ground arith

of_IsGone_index :
    (j : ℕ) (q : List Segment) (vs : Items)
    → IsGone (index j ∷ q) (arr vs)
    → IsGone q (value_or_null (get_elem? vs j))
unfolding get_from
of_IsGone_index j q vs h = elim (Bool-cases (ltb j (len vs))) [
  | inl e ↦ rw e at h
  | inr e ↦ rw (get_elem?-none vs j e) (IsGone-null q)
]

lookup_erased :
    (j k : Text) (fs : Fields) (q : List Segment)
    → IsGone q (value_or_null (lookup j fs))
    → IsGone q (value_or_null (lookup j (erase k fs)))
lookup_erased j k fs q h =
    rw (lookup-erase j k fs)
      (elim (Bool-cases (text_eq k j)) [ inl e ↦ rw e (IsGone-null q) | inr e ↦ rw e h ])

lookup_erased_self : (k : Text) (fs : Fields) → IsGone [] (value_or_null (lookup k (erase k fs)))
lookup_erased_self k fs = rw (lookup-erase k k fs, text_eq_refl k) (IsGone-null [])

missing-IsGone :
    (o : Option Json) (q : List Segment) → is_some o ≡ false → IsGone q (value_or_null o)
missing-IsGone none q h = IsGone-null q
missing-IsGone (some v) q h = cc

lookup_inserted :
    (j k : Text) (v : Json) (fs : Fields) (q : List Segment)
    → (IsGone q (value_or_null (lookup k fs)) → IsGone q v)
    → IsGone q (value_or_null (lookup j fs))
    → IsGone q (value_or_null (lookup j (insert k v fs)))
lookup_inserted j k v fs q ih h = rw (lookup-insert j k v fs) (elim (Bool-cases (text_eq k j)) [
  | inl e ↦ rw e (ih (rw ((text_eq_iff k j).0 e) h))
  | inr e ↦ rw e h
])

element_set :
    (i j : ℕ) (v : Json) (vs : Items) (q : List Segment)
    → i < len vs
    → (IsGone q (value_or_null (get_elem? vs i)) → IsGone q v)
    → IsGone q (value_or_null (get_elem? vs j))
    → IsGone q (value_or_null (get_elem? (set vs i v) j))
element_set i j v vs q r ih h = elim (Bool-cases (i == j)) [
  | inl e ↦
      let same : i ≡ j = (==_iff i j).0 e in
      rw (← same, get_elem?-set_self vs i v r) (ih (rw same h))
  | inr e ↦ rw (get_elem?-set_ne vs i j v (ground arith)) h
]

-- Deleting at one path never brings a value back at another.
pub delete_from-IsGone :
    (p q : List Segment) (node : Json) → IsGone q node → IsGone q (delete_from p node).0
unfolding delete_from
delete_from-IsGone [] q node h = h
delete_from-IsGone (s ∷ p) [] node h = rw (gone_nil node h, delete_from_null s p) (IsGone-null [])
delete_from-IsGone (key k ∷ []) (key j ∷ q) (obj fs) h = elim (Bool-cases (is_some (lookup k fs))) [
  | inl e ↦ rw e (IsGone-key j q (erase k fs) (lookup_erased j k fs q (of_IsGone_key j q fs h)))
  | inr e ↦ rw e h
]
delete_from-IsGone (key k ∷ s ∷ p) (key j ∷ q) (obj fs) h =
    elim (Bool-cases (is_some (lookup k fs))) [
      | inl e ↦ rw e (
          IsGone-key j q (insert k _ fs) (
            lookup_inserted j k _ fs q (delete_from-IsGone (s ∷ p) q (value_or_null (lookup k fs)))
              (of_IsGone_key j q fs h)))
      | inr e ↦ rw e h
    ]
delete_from-IsGone (index i ∷ p) (t ∷ q) (obj fs) h = h
delete_from-IsGone (key k ∷ p) (t ∷ q) (arr vs) h = h
delete_from-IsGone (index i ∷ []) (index j ∷ q) (arr vs) h = elim (Bool-cases (ltb i (len vs))) [
  | inl e ↦ rw e (
      IsGone-index j q (set vs i null)
        (element_set i j null vs q (ground arith) (λ _. IsGone-null q) (of_IsGone_index j q vs h)))
  | inr e ↦ rw e h
]
delete_from-IsGone (index i ∷ s ∷ p) (index j ∷ q) (arr vs) h = elim (Bool-cases (ltb i (len vs))) [
  | inl e ↦ rw e (
      IsGone-index j q (set vs i _) (
        element_set i j _ vs q (ground arith)
          (delete_from-IsGone (s ∷ p) q (value_or_null (get_elem? vs i)))
          (of_IsGone_index j q vs h)))
  | inr e ↦ rw e h
]
delete_from-IsGone (key k ∷ []) (index j ∷ q) (obj fs) h =
    elim (Bool-cases (is_some (lookup k fs))) [
      | inl e ↦ rw e (IsGone-in_object j q (erase k fs))
      | inr e ↦ rw e h
    ]
delete_from-IsGone (key k ∷ s ∷ p) (index j ∷ q) (obj fs) h =
    elim (Bool-cases (is_some (lookup k fs))) [
      | inl e ↦ rw e (IsGone-in_object j q (insert k _ fs))
      | inr e ↦ rw e h
    ]
delete_from-IsGone (index i ∷ []) (key j ∷ q) (arr vs) h = elim (Bool-cases (ltb i (len vs))) [
  | inl e ↦ rw e (IsGone-in_array j q (set vs i null))
  | inr e ↦ rw e h
]
delete_from-IsGone (index i ∷ s ∷ p) (key j ∷ q) (arr vs) h = elim (Bool-cases (ltb i (len vs))) [
  | inl e ↦ rw e (IsGone-in_array j q (set vs i _))
  | inr e ↦ rw e h
]
delete_from-IsGone (s ∷ p) (t ∷ q) node h = h

-- What a deletion was asked to remove is gone.
pub delete_from-IsGone_self :
    (p : List Segment) (node : Json) → p ≢ [] → IsGone p (delete_from p node).0
unfolding delete_from
delete_from-IsGone_self [] node n = absurd (n refl)
delete_from-IsGone_self (key k ∷ []) (obj fs) n = elim (Bool-cases (is_some (lookup k fs))) [
  | inl e ↦ rw e (IsGone-key k [] (erase k fs) (lookup_erased_self k fs))
  | inr e ↦ rw e (IsGone-key k [] fs (missing-IsGone (lookup k fs) [] e))
]
delete_from-IsGone_self (key k ∷ s ∷ p) (obj fs) n = elim (Bool-cases (is_some (lookup k fs))) [
  | inl e ↦ rw e (
      rw (get_from-key_self k (s ∷ p) _ fs)
        (delete_from-IsGone_self (s ∷ p) (value_or_null (lookup k fs)) (λ c. cc)))
  | inr e ↦ rw e (IsGone-key k (s ∷ p) fs (missing-IsGone (lookup k fs) (s ∷ p) e))
]
delete_from-IsGone_self (index i ∷ p) (obj fs) n = IsGone-in_object i p fs
delete_from-IsGone_self (key k ∷ p) (arr vs) n = IsGone-in_array k p vs
delete_from-IsGone_self (index i ∷ []) (arr vs) n = elim (Bool-cases (ltb i (len vs))) [
  | inl e ↦ rw e (rw (get_from-index_self i [] null vs e) (IsGone-null []))
  | inr e ↦ rw e (IsGone-index i [] vs (rw (get_elem?-none vs i e) (IsGone-null [])))
]
delete_from-IsGone_self (index i ∷ s ∷ p) (arr vs) n = elim (Bool-cases (ltb i (len vs))) [
  | inl e ↦ rw e (
      rw (get_from-index_self i (s ∷ p) _ vs e)
        (delete_from-IsGone_self (s ∷ p) (value_or_null (get_elem? vs i)) (λ c. cc)))
  | inr e ↦ rw e (IsGone-index i (s ∷ p) vs (rw (get_elem?-none vs i e) (IsGone-null (s ∷ p))))
]
delete_from-IsGone_self (s ∷ p) node n = unfold get_from in refl
