-- ===== src/Runnerops/Path/Access/Frame.antt =====
-- What SetPath and DeletePath leave alone (path.go).
use doplane.Common.{
  ℕ, ◌≡◌, refl, sym, ap, ◌≢◌, ◌∙◌, Text, text_eq_iff, true, false, Option, none, some, List, [],
  ◌∷◌, ltb, arith, Bool-cases, Option-cases, inl, inr, ◌⊎◌,
}
use doplane.Json.{
  Json, null, arr, obj, Items, Fields, end, lookup, insert, erase, len, get_elem?, set,
}
use doplane.Json.Laws.{lookup-insert, lookup-erase, get_elem?-set_ne, len-set, lookup-end}
use doplane.Runnerops.Path.{Segment, key, index}
use doplane.Runnerops.Path.Access.{
  set_from, get_from, delete_from, value_or_null, is_absent, is_some,
}
use doplane.Runnerops.Path.Access.Laws.{get_from-key_self, get_from-index_self}

-- Two paths that take different steps somewhere.
abbrev pub Diverges : List Segment → List Segment → Type 0
Diverges (s ∷ p) (t ∷ q) = (s ≢ t) ⊎ ((s ≡ t) × Diverges p q)
Diverges p q = ⊥

get_from-key_other :
    (k : Text) (t : Segment) (q : List Segment) (v : Json) (fs : Fields)
    → key k ≢ t
    → get_from (t ∷ q) (obj (insert k v fs)) ≡ get_from (t ∷ q) (obj fs)
unfolding get_from
get_from-key_other k (index i) q v fs h = refl
get_from-key_other k (key j) q v fs h =
    let e : lookup j (insert k v fs) ≡ lookup j fs =
      ground (arith, lookup-insert j k v fs, text_eq_iff k j, λ (e : k ≡ j). h (ap key e)) in
    rw e

get_from-key_erased :
    (k : Text) (t : Segment) (q : List Segment) (fs : Fields)
    → key k ≢ t
    → get_from (t ∷ q) (obj (erase k fs)) ≡ get_from (t ∷ q) (obj fs)
unfolding get_from
get_from-key_erased k (index i) q fs h = refl
get_from-key_erased k (key j) q fs h =
    let e : lookup j (erase k fs) ≡ lookup j fs =
      ground (arith, lookup-erase j k fs, text_eq_iff k j, λ (e : k ≡ j). h (ap key e)) in
    rw e

get_from-index_other :
    (i : ℕ) (t : Segment) (q : List Segment) (v : Json) (vs : Items)
    → index i ≢ t
    → get_from (t ∷ q) (arr (set vs i v)) ≡ get_from (t ∷ q) (arr vs)
unfolding get_from
get_from-index_other i (key j) q v vs h = refl
get_from-index_other i (index j) q v vs h =
    rw (len-set vs i v, get_elem?-set_ne vs i j v (λ e. h (ap index e)))

-- A read through an entry that is there, and through one that is not or is null.
get_from-present :
    (k : Text) (q : List Segment) (fs : Fields)
    → is_some (lookup k fs) ≡ true
    → get_from (key k ∷ q) (obj fs) ≡ get_from q (value_or_null (lookup k fs))
unfolding get_from
get_from-present k q fs h = rw h

get_from-in_range :
    (i : ℕ) (q : List Segment) (vs : Items)
    → ltb i (len vs) ≡ true
    → get_from (index i ∷ q) (arr vs) ≡ get_from q (value_or_null (get_elem? vs i))
unfolding get_from
get_from-in_range i q vs h = rw h

get_from_null : (t : Segment) (q : List Segment) → get_from (t ∷ q) null ≡ none
unfolding get_from
get_from_null (key k) q = refl
get_from_null (index i) q = refl

null_of : (v : Json) → is_absent (some v) ≡ true → v ≡ null
null_of null h = refl
null_of v h = cc

get_from-absent :
    (k : Text) (t : Segment) (q : List Segment) (fs : Fields)
    → is_absent (lookup k fs) ≡ true
    → get_from (key k ∷ t ∷ q) (obj fs) ≡ none
unfolding get_from
get_from-absent k t q fs h = elim (Option-cases (lookup k fs)) [
  | inl e ↦ rw e
  | inr (v, e) ↦ rw e (rw (null_of v (rw e at h)) (get_from_null t q))
]

get_from_empty : (t : Segment) (q : List Segment) → get_from (t ∷ q) (obj end) ≡ none
unfolding get_from
get_from_empty (key k) q = rw (lookup-end k)
get_from_empty (index i) q = refl

is_some_of : (o : Option Json) → is_absent o ≡ false → is_some o ≡ true
is_some_of none h = cc
is_some_of (some v) h = refl

abbrev Kept : List Segment → Json → Json → Type 0
Kept q after before = get_from q after ≡ get_from q before

-- A write below an entry, or an element, that is there.
module _ (k : Text) (fs : Fields) (v : Json) where
  below_key :
      (t : Segment) (p q : List Segment)
      → Diverges (key k ∷ p) (t ∷ q)
      → is_some (lookup k fs) ≡ true
      → (Diverges p q → Kept q v (value_or_null (lookup k fs)))
      → Kept (t ∷ q) (obj (insert k v fs)) (obj fs)
  below_key t p q (inl d) s ih = get_from-key_other k t q v fs d
  below_key t p q (inr (e, d)) s ih =
      rw (← e) (get_from-key_self k q v fs ∙ ih d ∙ sym (get_from-present k q fs s))

module _ (i : ℕ) (vs : Items) (v : Json) (r : ltb i (len vs) ≡ true) where
  below_index :
      (t : Segment) (p q : List Segment)
      → Diverges (index i ∷ p) (t ∷ q)
      → (Diverges p q → Kept q v (value_or_null (get_elem? vs i)))
      → Kept (t ∷ q) (arr (set vs i v)) (arr vs)
  below_index t p q (inl d) ih = get_from-index_other i t q v vs d
  below_index t p q (inr (e, d)) ih =
      rw (← e) (get_from-index_self i q v vs r ∙ ih d ∙ sym (get_from-in_range i q vs r))

-- Below a key that was missing or null there was nothing, and only the new path is there now.
below_new_key :
    (k : Text) (fs : Fields) (v : Json) (t : Segment) (p q : List Segment)
    → Diverges (key k ∷ p) (t ∷ q)
    → is_absent (lookup k fs) ≡ true
    → (Diverges p q → Kept q v (obj end))
    → Kept (t ∷ q) (obj (insert k v fs)) (obj fs)
below_new_key k fs v t p q (inl d) a ih = get_from-key_other k t q v fs d
below_new_key k fs v t [] [] (inr (e, d)) a ih = absurd d
below_new_key k fs v t [] (u ∷ q) (inr (e, d)) a ih = absurd d
below_new_key k fs v t (s ∷ p) [] (inr (e, d)) a ih = absurd d
below_new_key k fs v t (s ∷ p) (u ∷ q) (inr (e, d)) a ih = rw (← e) (
    get_from-key_self k (u ∷ q) v fs ∙ ih d ∙ get_from_empty u q ∙ sym (get_from-absent k u q fs a))

-- A write leaves every diverging path as it was, and also where it stops with an error.
pub get_from-set_from_ne :
    (p q : List Segment) (value node : Json) → Diverges p q → Kept q (set_from p value node).0 node
unfolding set_from
get_from-set_from_ne [] q value node d = absurd d
get_from-set_from_ne (s ∷ p) [] value node d = absurd d
get_from-set_from_ne (key k ∷ []) (t ∷ q) value (obj fs) (inl d) =
    get_from-key_other k t q value fs d
get_from-set_from_ne (key k ∷ []) (t ∷ q) value (obj fs) (inr d) = absurd d.1
get_from-set_from_ne (key k ∷ index i ∷ p) (t ∷ q) value (obj fs) d =
    elim (Bool-cases (is_absent (lookup k fs))) [
      | inl e ↦ rw e
      | inr e ↦ rw e (
          below_key k fs _ t (index i ∷ p) q d (is_some_of _ e)
            (get_from-set_from_ne (index i ∷ p) q value (value_or_null (lookup k fs))))
    ]
get_from-set_from_ne (key k ∷ key j ∷ p) (t ∷ q) value (obj fs) d =
    elim (Bool-cases (is_absent (lookup k fs))) [
      | inl e ↦ rw e (
          below_new_key k fs _ t (key j ∷ p) q d e
            (get_from-set_from_ne (key j ∷ p) q value (obj end)))
      | inr e ↦ rw e (
          below_key k fs _ t (key j ∷ p) q d (is_some_of _ e)
            (get_from-set_from_ne (key j ∷ p) q value (value_or_null (lookup k fs))))
    ]
get_from-set_from_ne (index i ∷ p) (t ∷ q) value (obj fs) d = refl
get_from-set_from_ne (key k ∷ p) (t ∷ q) value (arr vs) d = refl
get_from-set_from_ne (index i ∷ []) (t ∷ q) value (arr vs) (inl d) =
    elim (Bool-cases (ltb i (len vs))) [
      | inl e ↦ rw e (get_from-index_other i t q value vs d)
      | inr e ↦ rw e
    ]
get_from-set_from_ne (index i ∷ []) (t ∷ q) value (arr vs) (inr d) = absurd d.1
get_from-set_from_ne (index i ∷ s ∷ p) (t ∷ q) value (arr vs) d =
    elim (Bool-cases (ltb i (len vs))) [
      | inl e ↦ rw e (
          below_index i vs _ e t (s ∷ p) q d
            (get_from-set_from_ne (s ∷ p) q value (value_or_null (get_elem? vs i))))
      | inr e ↦ rw e
    ]
get_from-set_from_ne (s ∷ p) (t ∷ q) value node d = refl

-- So does a deletion.
pub get_from-delete_from_ne :
    (p q : List Segment) (node : Json) → Diverges p q → Kept q (delete_from p node).0 node
unfolding delete_from
get_from-delete_from_ne [] q node d = absurd d
get_from-delete_from_ne (s ∷ p) [] node d = absurd d
get_from-delete_from_ne (key k ∷ []) (t ∷ q) (obj fs) (inl d) =
    elim (Bool-cases (is_some (lookup k fs))) [
      | inl e ↦ rw e (get_from-key_erased k t q fs d)
      | inr e ↦ rw e
    ]
get_from-delete_from_ne (key k ∷ []) (t ∷ q) (obj fs) (inr d) = absurd d.1
get_from-delete_from_ne (key k ∷ s ∷ p) (t ∷ q) (obj fs) d =
    elim (Bool-cases (is_some (lookup k fs))) [
      | inl e ↦ rw e (
          below_key k fs _ t (s ∷ p) q d e
            (get_from-delete_from_ne (s ∷ p) q (value_or_null (lookup k fs))))
      | inr e ↦ rw e
    ]
get_from-delete_from_ne (index i ∷ p) (t ∷ q) (obj fs) d = refl
get_from-delete_from_ne (key k ∷ p) (t ∷ q) (arr vs) d = refl
get_from-delete_from_ne (index i ∷ []) (t ∷ q) (arr vs) (inl d) =
    elim (Bool-cases (ltb i (len vs))) [
      | inl e ↦ rw e (get_from-index_other i t q null vs d)
      | inr e ↦ rw e
    ]
get_from-delete_from_ne (index i ∷ []) (t ∷ q) (arr vs) (inr d) = absurd d.1
get_from-delete_from_ne (index i ∷ s ∷ p) (t ∷ q) (arr vs) d = elim (Bool-cases (ltb i (len vs))) [
  | inl e ↦ rw e (
      below_index i vs _ e t (s ∷ p) q d
        (get_from-delete_from_ne (s ∷ p) q (value_or_null (get_elem? vs i))))
  | inr e ↦ rw e
]
get_from-delete_from_ne (s ∷ p) (t ∷ q) node d = refl
