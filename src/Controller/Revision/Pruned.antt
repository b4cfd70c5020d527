-- ===== src/Controller/Revision/Pruned.antt =====
-- internal/controller/composite_revision.go: what pruning spares, and what a pinned composite gets.
use doplane.Common.{
  ◌⊎◌, text_eq_refl, ◌≡◌, refl, sym, ap, ◌∙◌, ℕ, ◌+◌, Text, text_eq, text_eq_iff, Bool, true, false,
  not, ◌&&◌, ◌||◌, ltb, Bool-cases, Option, none, some, inl, inr, List, [], ◌∷◌, Any, All,
  if◌then◌else◌,
}
use mathlib.Core.Path.{subst}
use doplane.Runnerops.Path.{is_empty}
use doplane.Controller.Revision.{
  refers, Revision, Definition, Pinning, RevisionAnswers, Resolved, resolved, unresolved, api_error,
  revision_mismatch, revision_history_limit, is_referenced, revision_named, delete_revision,
  is_skipped, prune_from, prune_listed, prune_revisions, created_or_read, create_next, after_latest,
  after_list, ensure_latest_revision, pinned_by, of_definition, at_pinned, after_ensured,
  resolve_revision,
}

or_true : (b : Bool) → (b || true) ≡ true
or_true true = refl
or_true false = refl

module _ {D : Type 0} where
  -- The revision is in the list.
  abbrev pub IsIn : Revision D → List (Revision D) → Type 0
  IsIn rev revs = Any (λ (r : Revision D). r ≡ rev) revs

module _ {D : Type 0} (deep_equal : D → D → Bool) (def : Definition D) (a : RevisionAnswers D)
    (rev : Revision D) (comps : List Pinning)
    (pinned_rev : is_referenced rev.name comps ≡ true) where
  delete_revision-IsIn :
      (name uid : Text) (store : List (Revision D))
      → text_eq rev.name name ≡ false
      → IsIn rev store
      → IsIn rev (delete_revision deep_equal def name uid store)
  unfolding delete_revision
  delete_revision-IsIn name uid [] n m = m
  delete_revision-IsIn name uid (r ∷ store) n (inl e) =
      rw (ap (λ (x : Revision D). text_eq x.name name) e ∙ n) (inl e)
  delete_revision-IsIn name uid (r ∷ store) n (inr m) =
      elim (Bool-cases (text_eq r.name name && text_eq r.uid uid)) [
        | inl b ↦ rw b (delete_revision-IsIn name uid store n m)
        | inr b ↦ rw b (inr (delete_revision-IsIn name uid store n m))
      ]

  -- A revision of the same name is passed over.
  is_skipped-referenced :
      (newest : ℕ) (r : Revision D)
      → text_eq rev.name r.name ≡ true
      → is_skipped deep_equal def a comps newest r ≡ true
  is_skipped-referenced newest r e =
      let same : is_referenced r.name comps ≡ true =
        subst (λ n. is_referenced n comps ≡ true) ((text_eq_iff rev.name r.name).0 e) pinned_rev in
      rw same (elim (Bool-cases (not (text_eq r.definition_name def.name))) [
        | inl b ↦ rw b refl
        | inr b ↦ rw b (or_true (ltb newest (r.revision + revision_history_limit)))
      ])

  prune_from-IsIn :
      (newest : ℕ) (revs store : List (Revision D))
      → IsIn rev store
      → IsIn rev (prune_from deep_equal def a comps newest revs store)
  unfolding prune_from
  prune_from-IsIn newest [] store m = m
  prune_from-IsIn newest (r ∷ revs) store m =
      prune_from-IsIn newest revs _ (elim (Bool-cases (text_eq rev.name r.name)) [
        | inl e ↦ rw (is_skipped-referenced newest r e) m
        | inr n ↦
            elim (Bool-cases
              (is_skipped deep_equal def a comps newest r || a.delete_fails r.name)) [
                | inl b ↦ rw b m
                | inr b ↦ rw b (delete_revision-IsIn r.name r.uid store n m)
              ]
      ])

  prune_listed-IsIn :
      (listed : Option (List (Revision D))) (newest : ℕ) (store : List (Revision D))
      → IsIn rev store
      → IsIn rev (prune_listed deep_equal def a listed (some comps) newest store)
  prune_listed-IsIn none newest store m = m
  prune_listed-IsIn (some revs) newest store m = prune_from-IsIn newest revs store m

  module _ (listed_comps : a.composites ≡ some comps) where
    prune_revisions-IsIn :
        (newest : ℕ) (store : List (Revision D))
        → IsIn rev store
        → IsIn rev (prune_revisions deep_equal def a newest store)
    unfolding prune_revisions
    prune_revisions-IsIn newest store m =
        subst (λ o. IsIn rev (prune_listed deep_equal def a a.listed_later o newest store))
          (sym listed_comps) (prune_listed-IsIn a.listed_later newest store m)

    create_next-IsIn :
        (new : Revision D) (store : List (Revision D))
        → IsIn rev store
        → IsIn rev (create_next deep_equal def a new store).1
    create_next-IsIn new store m = by_failure a.create_fails
      where
        found :
            (o : Option (Revision D)) → IsIn rev (created_or_read deep_equal def a new o store).1
        found none = prune_revisions-IsIn new.revision (new ∷ store) (inr m)
        found (some r) = elim (Bool-cases (a.get_fails new.name)) [
          | inl h ↦ rw h m
          | inr h ↦ rw h (prune_revisions-IsIn r.revision store m)
        ]

        by_failure :
            (b : Bool)
            → IsIn rev
                (if b
                  then (unresolved api_error, store)
                  else created_or_read deep_equal def a new
                      (revision_named deep_equal def new.name store)
                      store).1
        by_failure true = m
        by_failure false = found (revision_named deep_equal def new.name store)

    after_latest-IsIn :
        (latest : Option (Revision D)) (store : List (Revision D))
        → IsIn rev store
        → IsIn rev (after_latest deep_equal def a latest store).1
    after_latest-IsIn none store m = create_next-IsIn _ store m
    after_latest-IsIn (some latest) store m =
        elim (Bool-cases (deep_equal latest.definition def.spec)) [
          | inl h ↦ rw h m
          | inr h ↦ rw h (create_next-IsIn _ store m)
        ]

    after_list-IsIn :
        (listed : Option (List (Revision D))) (store : List (Revision D))
        → IsIn rev store
        → IsIn rev (after_list deep_equal def a listed store).1
    after_list-IsIn none store m = m
    after_list-IsIn (some revs) store m = after_latest-IsIn _ store m

    after_ensured-IsIn :
        (comp : Pinning) (e : Resolved D × List (Revision D))
        → IsIn rev e.1
        → IsIn rev (after_ensured deep_equal def a comp e).1
    after_ensured-IsIn comp (unresolved e, store) m = m
    after_ensured-IsIn comp (resolved latest, store) m = m

-- The composite names the revision, in its revisionRef or its status.
abbrev pub Names : Text → Pinning → Type 0
Names name comp =
    (comp.revision_ref ≡ some name) ⊎ ((comp.status_revision ≡ name) × (is_empty name ≡ false))

Names-refers : (name : Text) (comp : Pinning) → Names name comp → refers name comp ≡ true
Names-refers name comp (inl e) =
    subst (λ (o : Option Text). refers name (record comp { revision_ref = o }) ≡ true) (sym e)
      (rw (text_eq_refl name) refl)
Names-refers name comp (inr (e, n)) =
    subst (λ s. refers name (record comp { status_revision = s }) ≡ true) (sym e)
      (rw (n, text_eq_refl name) (or_true _))

Any-is_referenced :
    (name : Text) (comps : List Pinning) → Any (Names name) comps → is_referenced name comps ≡ true
unfolding is_referenced
Any-is_referenced name [] m = absurd m
Any-is_referenced name (comp ∷ comps) (inl h) = rw (Names-refers name comp h) refl
Any-is_referenced name (comp ∷ comps) (inr m) =
    rw (Any-is_referenced name comps m) (or_true (refers name comp))

-- A revision that any composite names, in its revisionRef or its status, is never pruned: where the
-- composites can be listed and one of them names it, it is still there after resolveRevision, whatever
-- the cache holds and the API server answers.
pub resolve_revision_spares :
    {D : Type 0} (deep_equal : D → D → Bool) (def : Definition D) (a : RevisionAnswers D)
    (comp : Pinning) (rev : Revision D) (comps : List Pinning) (store : List (Revision D))
    → a.composites ≡ some comps
    → Any (Names rev.name) comps
    → IsIn rev store
    → IsIn rev (resolve_revision deep_equal def a comp store).1
unfolding resolve_revision ensure_latest_revision
resolve_revision_spares deep_equal def a comp rev comps store l p m =
    let q = Any-is_referenced rev.name comps p in
    after_ensured-IsIn deep_equal def a rev comps q l comp _
      (after_list-IsIn deep_equal def a rev comps q l a.listed store m)

-- Which revision a composite asks for: a revisionRef comes first, then the recorded revision of a
-- Manual policy; any other composite follows the newest.
abbrev pub Selects : Pinning → Option Text → Type 0
Selects comp (some name) =
    (comp.revision_ref ≡ some name)
    ⊎ ((comp.revision_ref ≡ none)
        × (comp.is_manual ≡ true)
        × (comp.status_revision ≡ name)
        × (is_empty name ≡ false))
Selects comp none =
    (comp.revision_ref ≡ none) × ((comp.is_manual ≡ false) ⊎ (is_empty comp.status_revision ≡ true))

-- Every place where a composite with the name pinned may end: the revision of that name, which is
-- the newest or one of the definition among those that are stored; an error where the newest is not
-- ensured, where the name cannot be read or is not stored, or where another definition has it.
abbrev pub EndsPinned :
    {D : Type 0}
    → RevisionAnswers D
    → Definition D
    → Text
    → Resolved D × List (Revision D)
    → Resolved D
    → Type 0
EndsPinned a def name latest (resolved rev) =
    (rev.name ≡ name)
    × ((latest.0 ≡ resolved rev) ⊎ (IsIn rev latest.1 × (rev.definition_name ≡ def.name)))
EndsPinned a def name latest (unresolved e) =
    (latest.0 ≡ unresolved e)
    ⊎ ((e ≡ api_error) × (a.get_fails name ≡ true))
    ⊎ ((e ≡ api_error) × All (λ r. text_eq r.name name ≡ false) latest.1)
    ⊎ ((e ≡ revision_mismatch)
        × Any (λ r. (r.name ≡ name) × (text_eq r.definition_name def.name ≡ false)) latest.1)

abbrev pub EndsSelected :
    {D : Type 0}
    → RevisionAnswers D
    → Definition D
    → Option Text
    → Resolved D × List (Revision D)
    → Resolved D
    → Type 0
EndsSelected a def none latest r = r ≡ latest.0
EndsSelected a def (some name) latest r = EndsPinned a def name latest r

module _ {D : Type 0} (deep_equal : D → D → Bool) (def : Definition D) (a : RevisionAnswers D) where
  pinned_by-Selects :
      (comp : Pinning) (choice : Option Text)
      → Selects comp choice
      → pinned_by deep_equal def a comp ≡ choice
  pinned_by-Selects comp (some name) (inl r) =
      subst (λ o. pinned_by deep_equal def a (record comp { revision_ref = o }) ≡ some name) (sym r)
        refl
  pinned_by-Selects comp (some name) (inr (r, m, s, n)) = rw (r, m, s, n) refl
  pinned_by-Selects comp none (r, inl m) = rw (r, m) refl
  pinned_by-Selects comp none (r, inr e) = elim (Bool-cases comp.is_manual) [
    | inl m ↦ rw (r, m, e) refl
    | inr m ↦ rw (r, m) refl
  ]

  -- What the look-up of the name gives: nothing, a revision of the definition, or one of another.
  of_definition-EndsPinned :
      (name : Text) (latest : Resolved D) (store : List (Revision D))
      → EndsPinned a def name
          (latest, store)
          (of_definition deep_equal def a (revision_named deep_equal def name store))
  unfolding revision_named
  of_definition-EndsPinned name latest [] = inr (inr (inl (refl, tt)))
  of_definition-EndsPinned name latest (r ∷ store) = elim (Bool-cases (text_eq r.name name)) [
    | inl h ↦ rw h (elim (Bool-cases (text_eq r.definition_name def.name)) [
      | inl d ↦ rw d (
        (text_eq_iff r.name name).0 h,
        inr (inl refl, (text_eq_iff r.definition_name def.name).0 d),
      )
      | inr d ↦ rw d (inr (inr (inr (refl, inl ((text_eq_iff r.name name).0 h, d)))))
    ])
    | inr h ↦ rw h (later h _ (of_definition-EndsPinned name latest store))
  ]
    where
      later :
          text_eq r.name name ≡ false
          → (e : Resolved D) → EndsPinned a def name (latest, store) e
          → EndsPinned a def name (latest, r ∷ store) e
      later h (resolved rev) (n, inl l) = (n, inl l)
      later h (resolved rev) (n, inr (m, d)) = (n, inr (inr m, d))
      later h (unresolved e) (inl l) = inl l
      later h (unresolved e) (inr (inl g)) = inr (inl g)
      later h (unresolved e) (inr (inr (inl (q, m)))) = inr (inr (inl (q, (h, m))))
      later h (unresolved e) (inr (inr (inr (q, m)))) = inr (inr (inr (q, inr m)))

  at_pinned-EndsPinned :
      (name : Text) (latest : Revision D) (store : List (Revision D))
      → EndsPinned a def name
          (resolved latest, store)
          (at_pinned deep_equal def a (some name) latest store)
  at_pinned-EndsPinned name latest store = elim (Bool-cases (text_eq name latest.name)) [
    | inl h ↦ rw h (sym ((text_eq_iff name latest.name).0 h), inl refl)
    | inr h ↦ elim (Bool-cases (a.get_fails name)) [
      | inl g ↦ rw (h, g) (inr (inl (refl, g)))
      | inr g ↦ rw (h, g) (of_definition-EndsPinned name (resolved latest) store)
    ]
  ]

  after_ensured-EndsSelected :
      (comp : Pinning) (choice : Option Text) (latest : Resolved D × List (Revision D))
      → pinned_by deep_equal def a comp ≡ choice
      → EndsSelected a def choice latest (after_ensured deep_equal def a comp latest).0
  after_ensured-EndsSelected comp none (unresolved e, store) p = refl
  after_ensured-EndsSelected comp (some name) (unresolved e, store) p = inl refl
  after_ensured-EndsSelected comp none (resolved latest, store) p = rw p refl
  after_ensured-EndsSelected comp (some name) (resolved latest, store) p =
      rw p (at_pinned-EndsPinned name latest store)

-- What a composite renders from. Without a revisionRef, and without a recorded revision under a Manual
-- policy, it gets what ensureLatestRevision gives. Pinned by either, the revisionRef first, it gets
-- the revision of that name, the newest or a stored one of the definition, or an error: that of
-- ensureLatestRevision, one because the name cannot be read or is not stored, or the mismatch, where a
-- stored revision of that name is of another definition.
pub resolve_revision-EndsSelected :
    {D : Type 0} (deep_equal : D → D → Bool) (def : Definition D) (a : RevisionAnswers D)
    (comp : Pinning) (choice : Option Text) (store : List (Revision D))
    → Selects comp choice
    → EndsSelected a def choice
        (ensure_latest_revision deep_equal def a store)
        (resolve_revision deep_equal def a comp store).0
unfolding resolve_revision
resolve_revision-EndsSelected deep_equal def a comp choice store p =
    after_ensured-EndsSelected deep_equal def a comp choice
      (ensure_latest_revision deep_equal def a store)
      (pinned_by-Selects deep_equal def a comp choice p)
