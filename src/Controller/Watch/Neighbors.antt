-- ===== src/Controller/Watch/Neighbors.antt =====
-- Who is woken by whose event (internal/controller/doresource_controller.go).
use doplane.Common.{
  ◌≡◌, refl, inl, inr, Text, text_eq, text_eq_iff, Bool, true, false, List, [], ◌∷◌, ◌++◌,
  append-nil, if◌then◌else◌, Any, All, Bool-cases,
}
use doplane.Controller.Resource.{DoResource}
use doplane.Controller.Graph.{sources, contains_name, dependents_of}
use doplane.Controller.Watch.{other_sources, map_graph_neighbors}

-- The name is one of an object that references the resource, and not its own.
pub IsReader : List DoResource → DoResource → Text → Type 0
IsReader store res name =
    Any
      (λ (item : DoResource).
        (item.name ≡ name)
        × (text_eq name res.name ≡ false)
        × (contains_name res.name (sources item) ≡ true))
      store

All-map :
    {P Q : Text → Type 0} (names : List Text) → ((n : Text) → P n → Q n) → All P names → All Q names
All-map [] f a = tt
All-map (n ∷ names) f (p, a) = (f n p, All-map names f a)

dependents_of-IsReader :
    (store : List DoResource) (res : DoResource)
    → All (IsReader store res) (dependents_of store res)
unfolding dependents_of IsReader
dependents_of-IsReader [] res = tt
dependents_of-IsReader (item ∷ items) res =
    let ih = All-map (dependents_of items res) (λ n a. inr a) (dependents_of-IsReader items res) in
    elim (Bool-cases (text_eq item.name res.name)) [
      | inl e ↦ rw e ih
      | inr e ↦ elim (Bool-cases (contains_name res.name (sources item))) [
        | inl f ↦ rw (e, f) (inl (refl, e, f), ih)
        | inr f ↦ rw (e, f) ih
      ]
    ]

-- The event of a resource that is not being deleted wakes only other objects that reference it.
pub map_graph_neighbors-IsReader :
    (store : List DoResource) (res : DoResource)
    → res.is_deleting ≡ false
    → All (IsReader store res) (map_graph_neighbors store res)
unfolding map_graph_neighbors
map_graph_neighbors-IsReader store res d = settled_case res.is_deleting _ d
  where
    settled_case :
        (b : Bool) (names : List Text)
        → b ≡ false
        → All (IsReader store res) (dependents_of store res ++ (if b then names else []))
    settled_case false names h =
        rw (append-nil (dependents_of store res)) (dependents_of-IsReader store res)
    settled_case true names h = cc

Any-append :
    (name : Text) (xs ys : List Text) → Any (λ n. n ≡ name) ys → Any (λ n. n ≡ name) (xs ++ ys)
Any-append name [] ys m = m
Any-append name (x ∷ xs) ys m = inr (Any-append name xs ys m)

other_sources-Any :
    (own name : Text) (names : List Text)
    → text_eq name own ≡ false
    → contains_name name names ≡ true
    → Any (λ n. n ≡ name) (other_sources own names)
unfolding other_sources contains_name
other_sources-Any own name [] n c = cc
other_sources-Any own name (m ∷ names) n c = elim (Bool-cases (text_eq m name)) [
  | inl e ↦ let same : m ≡ name = (text_eq_iff m name).0 e in rw (same, n) (inl refl)
  | inr e ↦
      let ih = other_sources-Any own name names n (rw e at c) in
      elim (Bool-cases (text_eq m own)) [ inl f ↦ rw f ih | inr f ↦ rw f (inr ih) ]
]

-- While a resource is being deleted, each of its events wakes every other resource that it
-- references, and so those whose deletion waits for it.
pub map_graph_neighbors-Any :
    (store : List DoResource) (res : DoResource) (name : Text)
    → res.is_deleting ≡ true
    → text_eq name res.name ≡ false
    → contains_name name (sources res) ≡ true
    → Any (λ n. n ≡ name) (map_graph_neighbors store res)
unfolding map_graph_neighbors
map_graph_neighbors-Any store res name d n c = Any-append name (dependents_of store res) _ (
    deleting_case res.is_deleting (other_sources res.name (sources res)) d
      (other_sources-Any res.name name (sources res) n c))
  where
    deleting_case :
        (b : Bool) (names : List Text)
        → b ≡ true
        → Any (λ n. n ≡ name) names
        → Any (λ n. n ≡ name) (if b then names else [])
    deleting_case true names h m = m
    deleting_case false names h m = cc
