-- ===== src/Controller/Revision/Tests.antt =====
-- internal/controller/composite_revision.go: revisions of one definition.
use doplane.Common.{
  true, none, ◌≡◌, refl, inr, ℕ, ◌==◌, Text, bytes, false, some, List, [], ◌∷◌, inl, inr, text_eq,
}
use doplane.Controller.Revision.{
  ensure_latest_revision, Revision, Definition, Pinning, RevisionAnswers, is_referenced, prune_from,
  prune_revisions, delete_revision, resolve_revision,
}
use doplane.Controller.Revision.Pruned.{
  IsIn, EndsSelected, resolve_revision_spares, resolve_revision-EndsSelected,
}

abbrev old : Text → ℕ → Revision ℕ
old name n = record {
  name = name;
  uid = name;
  definition_name = bytes "db";
  revision = n;
  definition = 0;
}

abbrev store : List (Revision ℕ)
store = old (bytes "db-v1") 1 ∷ old (bytes "db-v2") 2 ∷ old (bytes "db-v20") 20 ∷ []

abbrev def : Definition ℕ
def = record { name = bytes "db"; spec = 1 }

abbrev rolled_back : Pinning
rolled_back = record {
  revision_ref = some (bytes "db-v1");
  is_manual = false;
  status_revision = [];
}

abbrev comps : List Pinning
comps = rolled_back ∷ []

abbrev answers : RevisionAnswers ℕ
answers = record {
  listed = some store;
  listed_later = some store;
  composites = some comps;
  create_fails = false;
  get_fails = λ name. false;
  delete_fails = λ name. false;
  new_uid = bytes "u";
}

resolve_revision_spares_example :
    IsIn
      (old (bytes "db-v1") 1)
      (resolve_revision (λ (a b : ℕ). a == b) def answers rolled_back store).1
resolve_revision_spares_example =
    resolve_revision_spares (λ (a b : ℕ). a == b) def answers rolled_back (old (bytes "db-v1") 1)
      comps store refl (inl (inl refl)) (inl refl)

-- A Manual policy keeps the recorded revision.
abbrev manual : Pinning
manual = record { revision_ref = none; is_manual = true; status_revision = bytes "db-v1" }

resolve_revision-EndsSelected_example :
    EndsSelected answers def
      (some (bytes "db-v1"))
      (ensure_latest_revision (λ (a b : ℕ). a == b) def answers store)
      (resolve_revision (λ (a b : ℕ). a == b) def answers manual store).0
resolve_revision-EndsSelected_example =
    resolve_revision-EndsSelected (λ (a b : ℕ). a == b) def answers manual (some (bytes "db-v1"))
      store (inr (refl, refl, refl, refl))

-- The second revision is not referenced, and is pruned.
prunes :
    prune_revisions (λ (a b : ℕ). a == b) def answers 20 store
    ≡ old (bytes "db-v1") 1 ∷ old (bytes "db-v20") 20 ∷ []
unfolding prune_revisions prune_from is_referenced delete_revision text_eq
prunes = refl
