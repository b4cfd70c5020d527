-- ===== src/Runnerops/PluginCache/Exclusion.antt =====
-- One installation at a time (plugincache.go).
use doplane.Common.{
  ℕ, ◌≡◌, refl, sym, ◌∙◌, ◌≢◌, ◌⊎◌, Bool, true, false, none, some, ◌==◌, ==_iff, ==_refl,
  Bool-cases, inl, inr,
}
use mathlib.Core.Path.{subst}
use doplane.Runnerops.PluginCache.{
  Phase, start, trying, blocked, removing, waiting, owning, installing, releasing, returned, Cache,
  update, move, Step, tick, find_installed, find_missing, make_lock, lock_exists, make_lock_fails,
  see_stale, see_fresh, remove_stale, remove_fails, wake, cancel, find_finished, begin_install,
  end_install, install_fails, release, Steps, stay, then_step,
}

-- The runner has made the lock and not removed it yet.
abbrev pub Owns : Phase → Type 0
Owns owning = Unit
Owns installing = Unit
Owns (releasing b) = Unit
Owns phase = ⊥

-- The runner is about to remove a lock that it has seen stale.
abbrev pub Removes : Phase → Type 0
Removes removing = Unit
Removes phase = ⊥

-- The runner installs the plugin.
abbrev pub Installs : Phase → Type 0
Installs installing = Unit
Installs phase = ⊥

-- The lock is there while a runner owns it, one runner at most owns it, none is about to remove the
-- lock of another, and a runner installs only a plugin that is missing.
pub record IsExclusive (c : Cache) : Type 0 where
  pub locked : (i : ℕ) → Owns (c.phases i) → c.lock ≢ none
  pub alone : (i j : ℕ) → Owns (c.phases i) → Owns (c.phases j) → i ≡ j
  pub undisturbed : (i : ℕ) → Removes (c.phases i) → ⊥
  pub needed : (i : ℕ) → Installs (c.phases i) → c.is_installed ≡ false

-- A step that does not see a stale lock.
abbrev pub Unhurried : {a b : Cache} → Step a b → Type 0
Unhurried (see_stale c i p s) = ⊥
Unhurried step = Unit

update-cases :
    (phases : ℕ → Phase) (i : ℕ) (p : Phase) (j : ℕ)
    → ((i ≡ j) × (update phases i p j ≡ p)) ⊎ ((i ≢ j) × (update phases i p j ≡ phases j))
unfolding update
update-cases phases i p j = elim (Bool-cases (i == j)) [
  | inl e ↦ inl ((==_iff i j).0 e, rw e refl)
  | inr e ↦ inr (λ same. let f = rw (same, ==_refl j) at e in cc, rw e refl)
]

-- Who owns the lock after runner `i` has moved: it, or one who owned it before.
owner-cases :
    (phases : ℕ → Phase) (i : ℕ) (p : Phase) (j : ℕ)
    → Owns (update phases i p j)
    → ((i ≡ j) × Owns p) ⊎ ((i ≢ j) × Owns (phases j))
owner-cases phases i p j o = elim (update-cases phases i p j) [
  | inl (same, e) ↦ inl (same, subst Owns e o)
  | inr (other, e) ↦ inr (other, subst Owns e o)
]

Installs-Owns : (p : Phase) → Installs p → Owns p
Installs-Owns installing h = tt
Installs-Owns start h = h
Installs-Owns trying h = h
Installs-Owns blocked h = h
Installs-Owns removing h = h
Installs-Owns waiting h = h
Installs-Owns owning h = tt
Installs-Owns (releasing b) h = tt
Installs-Owns (returned b) h = h

module _ (c : Cache) (v : IsExclusive c) (i : ℕ) (p : Phase) where
  needed_move :
      (Installs p → c.is_installed ≡ false)
      → (j : ℕ) → Installs (update c.phases i p j)
      → c.is_installed ≡ false
  needed_move by_it j h = elim (update-cases c.phases i p j) [
    | inl (same, e) ↦ by_it (subst Installs e h)
    | inr (other, e) ↦ v.needed j (subst Installs e h)
  ]

  undisturbed_move : (Removes p → ⊥) → (j : ℕ) → Removes (update c.phases i p j) → ⊥
  undisturbed_move quiet j r = elim (update-cases c.phases i p j) [
    | inl (same, e) ↦ quiet (subst Removes e r)
    | inr (other, e) ↦ v.undisturbed j (subst Removes e r)
  ]

  owned_before :
      (Owns p → Owns (c.phases i)) → (j : ℕ) → Owns (update c.phases i p j) → Owns (c.phases j)
  owned_before keeps j o = elim (owner-cases c.phases i p j o) [
    | inl (same, q) ↦ subst (λ k. Owns (c.phases k)) same (keeps q)
    | inr (other, q) ↦ q
  ]

  -- A move that makes no owner.
  move-IsExclusive :
      (b : Bool) (n : ℕ)
      → (Owns p → Owns (c.phases i))
      → (Removes p → ⊥)
      → ((j : ℕ) → Installs (update c.phases i p j) → b ≡ false)
      → IsExclusive
          (record { lock = c.lock; is_installed = b; now = n; phases = update c.phases i p })
  move-IsExclusive b n keeps quiet needs = record {
    locked = λ j o. v.locked j (owned_before keeps j o);
    alone = λ j k o q. v.alone j k (owned_before keeps j o) (owned_before keeps k q);
    undisturbed = undisturbed_move quiet;
    needed = needs;
  }

  -- The lock is made where there is none.
  make_lock-IsExclusive :
      (t : ℕ)
      → c.lock ≡ none
      → (Removes p → ⊥)
      → (Installs p → ⊥)
      → IsExclusive (record (move c i p) { lock = some t })
  make_lock-IsExclusive t free quiet idle = record {
    locked = λ j o e. cc;
    alone = λ j k o q. sym (by_mover j o) ∙ by_mover k q;
    undisturbed = undisturbed_move quiet;
    needed = needed_move (λ h. absurd (idle h));
  }
    where
      by_mover : (j : ℕ) → Owns (update c.phases i p j) → i ≡ j
      by_mover j o = elim (owner-cases c.phases i p j o) [
        | inl (same, q) ↦ same
        | inr (other, q) ↦ absurd (v.locked j q free)
      ]

  -- The owner removes the lock.
  release-IsExclusive :
      Owns (c.phases i)
      → (Owns p → ⊥)
      → (Removes p → ⊥)
      → IsExclusive (record (move c i p) { lock = none })
  release-IsExclusive mine gone quiet = record {
    locked = λ j o e. nobody j o;
    alone = λ j k o q. absurd (nobody j o);
    undisturbed = undisturbed_move quiet;
    needed = λ j h. absurd (nobody j (Installs-Owns _ h));
  }
    where
      nobody : (j : ℕ) → Owns (update c.phases i p j) → ⊥
      nobody j o = elim (owner-cases c.phases i p j o) [
        | inl (same, q) ↦ gone q
        | inr (other, q) ↦ other (v.alone i j mine q)
      ]

  -- The owner ends its installation: nobody else installs.
  no_other : Owns (c.phases i) → (Installs p → ⊥) → (j : ℕ) → Installs (update c.phases i p j) → ⊥
  no_other mine idle j h = elim (update-cases c.phases i p j) [
    | inl (same, e) ↦ idle (subst Installs e h)
    | inr (other, e) ↦ other (v.alone i j mine (Installs-Owns _ (subst Installs e h)))
  ]

owns : {p q : Phase} → p ≡ q → Owns q → Owns p
owns e o = subst Owns (sym e) o

Step-IsExclusive : {a b : Cache} (s : Step a b) → Unhurried s → IsExclusive a → IsExclusive b
Step-IsExclusive (tick c) u v = record {
  locked = v.locked;
  alone = v.alone;
  undisturbed = v.undisturbed;
  needed = v.needed;
}
Step-IsExclusive (find_installed c i p e) u v =
    move-IsExclusive c v i _ _ _ absurd absurd (needed_move c v i _ absurd)
Step-IsExclusive (find_missing c i p e) u v =
    move-IsExclusive c v i _ _ _ absurd absurd (needed_move c v i _ absurd)
Step-IsExclusive (make_lock c i p e) u v = make_lock-IsExclusive c v i owning c.now e absurd absurd
Step-IsExclusive (lock_exists c i t p e) u v =
    move-IsExclusive c v i _ _ _ absurd absurd (needed_move c v i _ absurd)
Step-IsExclusive (make_lock_fails c i p) u v =
    move-IsExclusive c v i _ _ _ absurd absurd (needed_move c v i _ absurd)
Step-IsExclusive (see_stale c i p e) u v = absurd u
Step-IsExclusive (see_fresh c i p e) u v =
    move-IsExclusive c v i _ _ _ absurd absurd (needed_move c v i _ absurd)
Step-IsExclusive (remove_stale c i p) u v = absurd (v.undisturbed i (subst Removes (sym p) tt))
Step-IsExclusive (remove_fails c i p) u v =
    move-IsExclusive c v i _ _ _ absurd absurd (needed_move c v i _ absurd)
Step-IsExclusive (wake c i p) u v =
    move-IsExclusive c v i _ _ _ absurd absurd (needed_move c v i _ absurd)
Step-IsExclusive (cancel c i p) u v =
    move-IsExclusive c v i _ _ _ absurd absurd (needed_move c v i _ absurd)
Step-IsExclusive (find_finished c i p e) u v =
    move-IsExclusive c v i (releasing true) _ _ (λ o. owns p tt) absurd
      (needed_move c v i (releasing true) absurd)
Step-IsExclusive (begin_install c i p e) u v =
    move-IsExclusive c v i installing _ _ (λ o. owns p tt) absurd
      (needed_move c v i installing (λ h. e))
Step-IsExclusive (end_install c i p) u v =
    move-IsExclusive c v i (releasing true) _ _ (λ o. owns p tt) absurd
      (λ j h. absurd (no_other c v i (releasing true) (owns p tt) absurd j h))
Step-IsExclusive (install_fails c i p) u v =
    move-IsExclusive c v i (releasing false) _ _ (λ o. owns p tt) absurd
      (needed_move c v i (releasing false) absurd)
Step-IsExclusive (release c i b p) u v =
    release-IsExclusive c v i (returned b) (owns p tt) absurd absurd

-- No step of the run sees a stale lock.
abbrev pub AllUnhurried : {a b : Cache} → Steps a b → Type 0
AllUnhurried (stay c) = Unit
AllUnhurried (then_step a b c s t) = AllUnhurried s × Unhurried t

-- However the steps of any number of runners interleave, they install the plugin one at a time, and
-- only while it is missing, as long as no runner sees a lock older than the stale age.
pub Steps-IsExclusive :
    {a b : Cache} (s : Steps a b) → AllUnhurried s → IsExclusive a → IsExclusive b
Steps-IsExclusive (stay c) u v = v
Steps-IsExclusive (then_step a b c s t) u v = Step-IsExclusive t u.1 (Steps-IsExclusive s u.0 v)
