-- ===== src/Controller/Graph/Sound.antt =====
-- What the searches of the reference graph find is there (internal/controller/references.go).
use doplane.Common.{
  ℕ, zero, suc, ◌≡◌, refl, Text, text_eq, text_eq_iff, Bool, true, some, List, [], ◌∷◌, ◌++◌, Any,
  All, inl, inr, Bool-cases,
}
use doplane.Controller.Resource.{DoResource}
use doplane.Controller.Graph.{
  find_resource, sources, sources_of, contains_name, take_next, search_from, reaches,
}

-- The object of the one name references the other name.
abbrev pub Reads : List DoResource → Text → Text → Type 0
Reads store a b = Any (λ n. n ≡ b) (sources_of (find_resource store a))

-- One name leads to the other along references, one at least.
pub data Leads (store : List DoResource) (a : Text) : Text → Type 0 where
  directly : (b : Text) → Reads store a b → Leads store a b
  onward : (b c : Text) → Leads store a b → Reads store b c → Leads store a c

module _ (store : List DoResource) (start : Text) where
  AllLead : List Text → Type 0
  AllLead names = All (λ n. Leads store start n) names

  all_append : (xs ys : List Text) → AllLead xs → AllLead ys → AllLead (xs ++ ys)
  unfolding AllLead
  all_append [] ys p q = q
  all_append (x ∷ xs) ys (h, p) q = (h, all_append xs ys p q)

  -- What holds of each element holds of those that a list of them names.
  all_of :
      (names : List Text)
      → ((n : Text) → Any (λ m. m ≡ n) names → Leads store start n)
      → AllLead names
  unfolding AllLead
  all_of [] f = tt
  all_of (n ∷ names) f = (f n (inl refl), all_of names (λ m a. f m (inr a)))

  sources-AllLead :
      (name : Text) → Leads store start name → AllLead (sources_of (find_resource store name))
  sources-AllLead name h = all_of (sources_of (find_resource store name)) (λ n a. onward name n h a)

  take_next-Leads :
      (target : Text) (more : List Text → List Text → Bool) (visited queue : List Text)
      → ((v q : List Text) → AllLead q → more v q ≡ true → Leads store start target)
      → AllLead queue
      → take_next store target more visited queue ≡ true
      → Leads store start target
  unfolding take_next AllLead
  take_next-Leads target more visited [] m a h = cc
  take_next-Leads target more visited (name ∷ queue) m (l, a) h =
      elim (Bool-cases (text_eq name target)) [
        | inl e ↦ rw (← (text_eq_iff name target).0 e) l
        | inr e ↦ elim (Bool-cases (contains_name name visited)) [
          | inl f ↦ take_next-Leads target more visited queue m a (rw (e, f) at h)
          | inr f ↦
              m (name ∷ visited) (queue ++ sources_of (find_resource store name))
                (all_append queue _ a (sources-AllLead name l)) (rw (e, f) at h)
        ]
      ]

  search_from-Leads :
      (n : ℕ) (target : Text) (visited queue : List Text)
      → AllLead queue
      → search_from store n target visited queue ≡ true
      → Leads store start target
  unfolding search_from
  search_from-Leads zero target visited queue a h = cc
  search_from-Leads (suc n) target visited queue a h =
      take_next-Leads target (search_from store n target) visited queue (search_from-Leads n target)
        a h

-- When reaches answers yes for an object of the namespace, then its name leads to the target along
-- references.
pub reaches-Leads :
    (store : List DoResource) (res : DoResource) (target : Text)
    → find_resource store res.name ≡ some res
    → reaches store res target ≡ true
    → Leads store res.name target
unfolding reaches
reaches-Leads store res target f h =
    search_from-Leads store res.name 63 target (res.name ∷ []) (sources res)
      (all_of store res.name (sources res) (λ n a. directly n (rw f a))) h
