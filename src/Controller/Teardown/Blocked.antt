-- ===== src/Controller/Teardown/Blocked.antt =====
-- Who blocks whom when DoResources are deleted (internal/controller/references.go).
use mathlib.Core.Path.{subst}
use mathlib.Core.Option.{some-injective}
use doplane.Common.{
  ◌≡◌, refl, sym, ap, Text, text_eq, text_leb, true, false, not, some, List, [], ◌∷◌, ◌++◌, Any,
  inl, inr, Bool-cases, ◌==◌, arith,
}
use doplane.Runnerops.Path.{is_empty}
use doplane.Controller.Resource.{DoResource}
use doplane.Controller.Graph.{find_resource, sources, contains_name, dependents_of, reaches}
use doplane.Controller.Teardown.{
  DoUsage, Blocker, by_dependent, blocking_usages, blocks, dependent_blocks, blocking_among,
  blocking_dependents,
}

-- Of two names that differ, exactly one comes first.
text_leb_total : (s t : Text) → text_eq s t ≡ false → text_leb t s ≡ not (text_leb s t)
unfolding text_leb text_eq
text_leb_total [] [] h = cc
text_leb_total [] (b ∷ t) h = refl
text_leb_total (a ∷ s) [] h = refl
text_leb_total (a ∷ s) (b ∷ t) h = elim (Bool-cases (a == b)) [
  | inl e ↦ let f : b == a ≡ true = ground arith in rw (e, f) (text_leb_total s t (rw e at h))
  | inr e ↦ let f : b == a ≡ false = ground arith in rw (e, f) (ground arith)
]

-- Two resources on one cycle that are both being deleted do not wait for each other: exactly one of
-- them blocks the other, where both still have an external resource and each reaches the other.
pub blocks-exclusive :
    (store : List DoResource) (a b : DoResource)
    → text_eq a.name b.name ≡ false
    → a.is_deleting ≡ true
    → b.is_deleting ≡ true
    → is_empty a.status.id ≡ false
    → is_empty b.status.id ≡ false
    → reaches store a b.name ≡ true
    → reaches store b a.name ≡ true
    → blocks store a b ≡ not (blocks store b a)
unfolding blocks
blocks-exclusive store a b n da db ia ib ra rb =
    let t = text_leb_total a.name b.name n in
    rw (ra, rb, t, da, db, ia, ib)
      (elim (Bool-cases (text_leb a.name b.name)) [ inl e ↦ rw e refl | inr e ↦ rw e refl ])

IsListed : Text → List Blocker → Type 0
IsListed name bs = Any (λ b. b ≡ by_dependent name) bs

IsListed-append : (name : Text) (xs ys : List Blocker) → IsListed name ys → IsListed name (xs ++ ys)
unfolding IsListed
IsListed-append name [] ys h = h
IsListed-append name (x ∷ xs) ys h = inr (IsListed-append name xs ys h)

blocking_among-IsListed :
    (store : List DoResource) (res dep : DoResource) (names : List Text)
    → find_resource store dep.name ≡ some dep
    → blocks store res dep ≡ true
    → Any (λ n. n ≡ dep.name) names
    → IsListed dep.name (blocking_among store res names)
unfolding blocking_among IsListed
blocking_among-IsListed store res dep [] f b m = absurd m
blocking_among-IsListed store res dep (name ∷ names) f b (inl e) = rw (e, f, b) (inl refl)
blocking_among-IsListed store res dep (name ∷ names) f b (inr m) =
    let ih = blocking_among-IsListed store res dep names f b m in
    elim (Bool-cases (dependent_blocks store res (find_resource store name))) [
      | inl e ↦ rw e (inr ih)
      | inr e ↦ rw e ih
    ]

dependents_of-Any :
    (items : List DoResource) (res dep : DoResource)
    → find_resource items dep.name ≡ some dep
    → text_eq dep.name res.name ≡ false
    → contains_name res.name (sources dep) ≡ true
    → Any (λ n. n ≡ dep.name) (dependents_of items res)
unfolding dependents_of find_resource
dependents_of-Any [] res dep f n c = cc
dependents_of-Any (item ∷ items) res dep f n c = elim (Bool-cases (text_eq item.name dep.name)) [
  | inl e ↦
      let same : item ≡ dep = some-injective _ _ (rw e at f) in
      let other : text_eq item.name res.name ≡ false =
        subst (λ (x : DoResource). text_eq x.name res.name ≡ false) (sym same) n in
      let reads : contains_name res.name (sources item) ≡ true =
        subst (λ x. contains_name res.name (sources x) ≡ true) (sym same) c in
      rw (other, reads) (inl (ap (λ (x : DoResource). x.name) same))
  | inr e ↦
      let ih = dependents_of-Any items res dep (rw e at f) n c in
      elim (Bool-cases (text_eq item.name res.name)) [
        | inl g ↦ rw g ih
        | inr g ↦ elim (Bool-cases (contains_name res.name (sources item))) [
          | inl i ↦ rw (g, i) (inr ih)
          | inr i ↦ rw (g, i) ih
        ]
      ]
]

-- A resource of the namespace that is not being deleted and references another one is among those
-- that block the other's deletion, whatever the usages are.
pub blocking_dependents-IsListed :
    (store : List DoResource) (usages : List DoUsage) (res dep : DoResource)
    → find_resource store dep.name ≡ some dep
    → text_eq dep.name res.name ≡ false
    → contains_name res.name (sources dep) ≡ true
    → dep.is_deleting ≡ false
    → Any (λ b. b ≡ by_dependent dep.name) (blocking_dependents store usages res)
unfolding blocking_dependents IsListed blocks
blocking_dependents-IsListed store usages res dep f n c d =
    IsListed-append dep.name (blocking_usages usages res) _ (
      blocking_among-IsListed store res dep (dependents_of store res) f (rw d refl)
        (dependents_of-Any store res dep f n c))
