-- ===== src/Controller/Graph/Cycle.antt =====
-- What detectCycle reports is a cycle of references (internal/controller/references.go).
use mathlib.Core.Option.{some-injective}
use doplane.Common.{
  ℕ, zero, suc, ◌≡◌, refl, Text, text_eq, text_eq_iff, none, some, List, [], ◌∷◌, ◌++◌, Any, All,
  inl, inr, Bool-cases,
}
use doplane.Controller.Resource.{DoResource}
use doplane.Controller.Graph.{
  find_resource, sources_of, contains_name, Walked, or_else, walk_sources, walk_from, detect_cycle,
}
use doplane.Controller.Graph.Sound.{Reads}

-- Each name in the list references the next one.
abbrev pub IsChain : List DoResource → List Text → Type 0
IsChain store [] = Unit
IsChain store (a ∷ []) = Unit
IsChain store (a ∷ b ∷ names) = Reads store a b × IsChain store (b ∷ names)

-- A chain from the name back to itself.
pub record IsCycle (store : List DoResource) (start : Text) (names : List Text) : Type 0 where
  pub middle : List Text
  pub shape : names ≡ start ∷ (middle ++ start ∷ [])
  pub linked : IsChain store names

IsChain-extend :
    (store : List DoResource) (path : List Text) (a b : Text)
    → IsChain store (path ++ a ∷ [])
    → Reads store a b
    → IsChain store ((path ++ a ∷ []) ++ b ∷ [])
IsChain-extend store [] a b h r = (r, tt)
IsChain-extend store (x ∷ []) a b h r = (h.0, (r, tt))
IsChain-extend store (x ∷ y ∷ path) a b h r = (h.0, IsChain-extend store (y ∷ path) a b h.1 r)

module _ (store : List DoResource) (start : Text) where
  -- The way from the start to a name, which ends the list.
  record IsWay (path : List Text) (name : Text) : Type 0 where
    behind : List Text
    begins : path ++ name ∷ [] ≡ start ∷ behind
    linked : IsChain store (path ++ name ∷ [])

  IsWay-extend :
      (path : List Text) (name next : Text)
      → IsWay path name
      → Reads store name next
      → IsWay (path ++ name ∷ []) next
  IsWay-extend path name next way r = record {
    behind = way.behind ++ next ∷ [];
    begins = rw way.begins refl;
    linked = IsChain-extend store path name next way.linked r;
  }

  IsCycle-close :
      (path : List Text) (name : Text)
      → IsWay path name
      → Reads store name start
      → IsCycle store start ((path ++ name ∷ []) ++ start ∷ [])
  IsCycle-close path name way r = record {
    middle = way.behind;
    shape = rw way.begins refl;
    linked = IsChain-extend store path name start way.linked r;
  }

  -- A walk whose cycle, if it gives one, is one.
  IsSound : Walked store → Type 0
  IsSound r = (cycle : List Text) → r.1 ≡ some cycle → IsCycle store start cycle

  or_else-IsSound :
      (r : Walked store) (next : List Text → Walked store)
      → IsSound r
      → ((visited : List Text) → IsSound (next visited))
      → IsSound (or_else store r next)
  unfolding IsSound
  or_else-IsSound (visited, some c) next p q = p
  or_else-IsSound (visited, none) next p q = q visited

  walk_sources-IsSound :
      (walk : Text → List Text → Walked store) (path : List Text) (name : Text)
      → IsWay path name
      → ((next : Text) (visited : List Text) → Reads store name next → IsSound (walk next visited))
      → (names visited : List Text) → All (λ n. Reads store name n) names
      → IsSound (walk_sources store start walk (path ++ name ∷ []) names visited)
  unfolding walk_sources IsSound
  walk_sources-IsSound walk path name way w [] visited a cycle h = cc
  walk_sources-IsSound walk path name way w (next ∷ names) visited (r, a) cycle h =
      elim (Bool-cases (text_eq next start)) [
        | inl e ↦
            let same : next ≡ start = (text_eq_iff next start).0 e in
            let found = rw (e, same) at h in
            rw (← some-injective _ _ found) (IsCycle-close path name way (rw same at r))
        | inr e ↦ elim (Bool-cases (contains_name next visited)) [
          | inl f ↦ walk_sources-IsSound walk path name way w names visited a cycle (rw (e, f) at h)
          | inr f ↦
              or_else-IsSound (walk next (next ∷ visited)) _
                (unfold IsSound in w next (next ∷ visited) r)
                (λ v c g. walk_sources-IsSound walk path name way w names v a c g) cycle
                (rw (e, f) at h)
        ]
      ]

  All-Reads :
      (name : Text) (names : List Text)
      → ((n : Text) → Any (λ m. m ≡ n) names → Reads store name n)
      → All (λ n. Reads store name n) names
  All-Reads name [] f = tt
  All-Reads name (n ∷ names) f = (f n (inl refl), All-Reads name names (λ m a. f m (inr a)))

  walk_from-IsSound :
      (n : ℕ) (path : List Text) (name : Text) (visited : List Text)
      → IsWay path name
      → IsSound (walk_from store n start path name visited)
  unfolding walk_from IsSound
  walk_from-IsSound zero path name visited way cycle h = cc
  walk_from-IsSound (suc n) path name visited way cycle h =
      walk_sources-IsSound (walk_from store n start (path ++ name ∷ [])) path name way
        (λ next v r.
          walk_from-IsSound n (path ++ name ∷ []) next v (IsWay-extend path name next way r))
        (sources_of (find_resource store name)) visited
        (All-Reads name (sources_of (find_resource store name)) (λ m a. a)) cycle h

-- What detectCycle reports is a cycle: a list of names from the object's own name back to it, each of
-- which references the next one.
pub detect_cycle-IsCycle :
    (store : List DoResource) (res : DoResource) (cycle : List Text)
    → detect_cycle store res ≡ some cycle
    → IsCycle store res.name cycle
unfolding detect_cycle
detect_cycle-IsCycle store res cycle h =
    unfold IsSound in
    walk_from-IsSound store res.name 33 [] res.name []
      (record { behind = []; begins = refl; linked = tt }) cycle h
