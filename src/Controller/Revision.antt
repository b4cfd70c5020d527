-- ===== src/Controller/Revision.antt =====
-- internal/controller/composite_revision.go: which revision of its definition a composite renders from,
-- and the pruning of old ones. The answers of the API server are parameters, as is DeepEqual of specs.
pub mod Pruned
mod Tests
use doplane.Common.{
  ℕ, suc, ◌+◌, Text, bytes, text_eq, Bool, true, false, not, Option, none, some, List, [], ◌∷◌,
  ◌++◌, ◌&&◌, ◌||◌, ltb, leb, decimal, if◌then◌else◌,
}
use doplane.Runnerops.Path.{is_empty}

-- `DoCompositeDefinitionRevision`; its number stays below the end of int64.
pub record Revision (D : Type 0) : Type 0 where
  pub name : Text
  pub uid : Text
  pub definition_name : Text
  pub revision : ℕ
  pub definition : D

pub record Definition (D : Type 0) : Type 0 where
  pub name : Text
  pub spec : D

-- What a composite says of revisions: `spec.revisionRef`, whether its policy is Manual, and
-- `status.revision`.
pub record Pinning : Type 0 where
  pub revision_ref : Option Text
  pub is_manual : Bool
  pub status_revision : Text

-- An error of the API server, or the one of a revision of another definition.
pub data RevisionError : Type 0 where
  api_error revision_mismatch : RevisionError

-- A revision, or the error.
pub data Resolved (D : Type 0) : Type 0 where
  resolved : Revision D → Resolved D
  unresolved : RevisionError → Resolved D

-- The answers, `none` for an error: the cached revisions when they are listed for the newest and for
-- pruning, the composites as they are; whether
-- `SetControllerReference` fails, or `Create` other than by an existing name; whether `Get` and `Delete`
-- of a name fail; the uid of a new object.
pub record RevisionAnswers (D : Type 0) : Type 0 where
  pub listed : Option (List (Revision D))
  pub listed_later : Option (List (Revision D))
  pub composites : Option (List Pinning)
  pub create_fails : Bool
  pub get_fails : Text → Bool
  pub delete_fails : Text → Bool
  pub new_uid : Text

-- `revisionHistoryLimit`
abbrev pub revision_history_limit : ℕ
revision_history_limit = 10

-- `referenced[name]`
abbrev pub refers : Text → Pinning → Bool
refers name comp =
    names comp.revision_ref
    || (not (is_empty comp.status_revision) && text_eq comp.status_revision name)
  where
    names : Option Text → Bool
    names none = false
    names (some ref) = text_eq ref name

unfoldable pub is_referenced : Text → List Pinning → Bool
is_referenced name [] = false
is_referenced name (comp ∷ comps) = refers name comp || is_referenced name comps

module _ {D : Type 0} (deep_equal : D → D → Bool) (def : Definition D) where
  abbrev pub newer : Option (Revision D) → Revision D → Option (Revision D)
  newer none rev = some rev
  newer (some latest) rev = if ltb latest.revision rev.revision then some rev else some latest

  -- The loop of ensureLatestRevision.
  unfoldable pub latest_of : Option (Revision D) → List (Revision D) → Option (Revision D)
  latest_of latest [] = latest
  latest_of latest (rev ∷ revs) =
      latest_of (if text_eq rev.definition_name def.name then newer latest rev else latest) revs

  abbrev pub is_current : Option (Revision D) → Bool
  is_current none = false
  is_current (some latest) = deep_equal latest.definition def.spec

  abbrev pub next_of : Option (Revision D) → ℕ
  next_of none = 1
  next_of (some latest) = suc latest.revision

  abbrev pub new_revision : Text → ℕ → Revision D
  new_revision uid next = record {
    name = def.name ++ (bytes "-v" ++ decimal next);
    uid = uid;
    definition_name = def.name;
    revision = next;
    definition = def.spec;
  }

  -- `Get` of a name.
  unfoldable pub revision_named : Text → List (Revision D) → Option (Revision D)
  revision_named name [] = none
  revision_named name (rev ∷ revs) =
      if text_eq rev.name name then some rev else revision_named name revs

  -- `Delete` with the uid as a precondition.
  unfoldable pub delete_revision : Text → Text → List (Revision D) → List (Revision D)
  delete_revision name uid [] = []
  delete_revision name uid (rev ∷ revs) =
      let rest = delete_revision name uid revs in
      if text_eq rev.name name && text_eq rev.uid uid then rest else rev ∷ rest

  module _ (a : RevisionAnswers D) where
    -- Whether the loop of pruneRevisions passes a revision over.
    abbrev pub is_skipped : List Pinning → ℕ → Revision D → Bool
    is_skipped comps newest rev =
        not (text_eq rev.definition_name def.name)
        || ltb newest (rev.revision + revision_history_limit)
        || is_referenced rev.name comps

    unfoldable pub prune_from :
        List Pinning → ℕ → List (Revision D) → List (Revision D) → List (Revision D)
    prune_from comps newest [] store = store
    prune_from comps newest (rev ∷ revs) store = prune_from comps newest revs (
        if is_skipped comps newest rev || a.delete_fails rev.name
        then store
        else delete_revision rev.name rev.uid store)

    abbrev pub prune_listed :
        Option (List (Revision D))
        → Option (List Pinning)
        → ℕ
        → List (Revision D)
        → List (Revision D)
    prune_listed none comps newest store = store
    prune_listed (some revs) none newest store = store
    prune_listed (some revs) (some comps) newest store = prune_from comps newest revs store

    -- `pruneRevisions`, on the revisions of the cluster.
    unfoldable pub prune_revisions : ℕ → List (Revision D) → List (Revision D)
    prune_revisions newest store = prune_listed a.listed_later a.composites newest store

    abbrev pub pruned : Revision D → List (Revision D) → Resolved D × List (Revision D)
    pruned rev store = (resolved rev, prune_revisions rev.revision store)

    -- `Create`, and `Get` where the name is there.
    abbrev pub created_or_read :
        Revision D → Option (Revision D) → List (Revision D) → Resolved D × List (Revision D)
    created_or_read rev none store = pruned rev (rev ∷ store)
    created_or_read rev (some found) store =
        if a.get_fails rev.name then (unresolved api_error, store) else pruned found store

    abbrev pub create_next : Revision D → List (Revision D) → Resolved D × List (Revision D)
    create_next rev store =
        if a.create_fails
        then (unresolved api_error, store)
        else created_or_read rev (revision_named rev.name store) store

    abbrev pub after_latest :
        Option (Revision D) → List (Revision D) → Resolved D × List (Revision D)
    after_latest none store = create_next (new_revision a.new_uid 1) store
    after_latest (some latest) store =
        if is_current (some latest)
        then (resolved latest, store)
        else create_next (new_revision a.new_uid (next_of (some latest))) store

    abbrev pub after_list :
        Option (List (Revision D)) → List (Revision D) → Resolved D × List (Revision D)
    after_list none store = (unresolved api_error, store)
    after_list (some revs) store = after_latest (latest_of none revs) store

    -- `ensureLatestRevision`
    unfoldable pub ensure_latest_revision : List (Revision D) → Resolved D × List (Revision D)
    ensure_latest_revision store = after_list a.listed store

    -- The revision that a composite is pinned to.
    abbrev pub pinned_by : Pinning → Option Text
    pinned_by comp = by_ref comp.revision_ref
      where
        by_ref : Option Text → Option Text
        by_ref (some ref) = some ref
        by_ref none =
            if comp.is_manual && not (is_empty comp.status_revision)
            then some comp.status_revision
            else none

    abbrev pub of_definition : Option (Revision D) → Resolved D
    of_definition none = unresolved api_error
    of_definition (some rev) =
        if text_eq rev.definition_name def.name then resolved rev else unresolved revision_mismatch

    abbrev pub at_pinned : Option Text → Revision D → List (Revision D) → Resolved D
    at_pinned none latest store = resolved latest
    at_pinned (some pinned) latest store =
        if text_eq pinned latest.name
        then resolved latest
        else if a.get_fails pinned
        then unresolved api_error
        else of_definition (revision_named pinned store)

    abbrev pub after_ensured :
        Pinning → Resolved D × List (Revision D) → Resolved D × List (Revision D)
    after_ensured comp (unresolved e, store) = (unresolved e, store)
    after_ensured comp (resolved latest, store) = (at_pinned (pinned_by comp) latest store, store)

    -- `resolveRevision`
    unfoldable pub resolve_revision : Pinning → List (Revision D) → Resolved D × List (Revision D)
    resolve_revision comp store = after_ensured comp (ensure_latest_revision store)
