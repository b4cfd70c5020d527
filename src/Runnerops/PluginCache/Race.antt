-- ===== src/Runnerops/PluginCache/Race.antt =====
-- What breaking a stale lock allows (plugincache.go).
use doplane.Common.{
  ℕ, ◌≡◌, refl, sym, ◌≢◌, false, none, some, ◌==◌, ==_iff, ==_refl, Bool-cases, inl, inr,
}
use doplane.Runnerops.PluginCache.{
  Phase, trying, blocked, removing, owning, installing, Cache, update, move, IsStale, make_lock,
  see_stale, remove_stale, begin_install, Steps, stay, then_step,
}

update_same : (phases : ℕ → Phase) (i : ℕ) (p : Phase) → update phases i p i ≡ p
unfolding update
update_same phases i p = rw (==_refl i) refl

update_other :
    (phases : ℕ → Phase) (i j : ℕ) (q : Phase) (p : Phase)
    → i ≢ j
    → phases j ≡ p
    → update phases i q j ≡ p
unfolding update
update_other phases i j q p other e = elim (Bool-cases (i == j)) [
  | inl f ↦ absurd (other ((==_iff i j).0 f))
  | inr f ↦ rw f e
]

module _ (c : Cache) (i j : ℕ) (other : i ≢ j) (missing : c.is_installed ≡ false)
    (stale : IsStale c) (at_i : c.phases i ≡ blocked) (at_j : c.phases j ≡ blocked) where
  abbrev both_see : Cache
  both_see = move (move c i removing) j removing

  abbrev first_owns : Cache
  first_owns = record (move (record (move both_see i trying) { lock = none }) i owning) {
    lock = some c.now;
  }

  abbrev first_installs : Cache
  first_installs = move first_owns i installing

  abbrev second_owns : Cache
  second_owns = record (move (record (move first_installs j trying) { lock = none }) j owning) {
    lock = some c.now;
  }

  abbrev both_install : Cache
  both_install = move second_owns j installing

  sees_both : Steps c both_see
  sees_both =
      then_step _ _ _ (then_step _ _ _ (stay c) (see_stale c i at_i stale))
        (see_stale (move c i removing) j (update_other _ _ _ removing _ other at_j) stale)

  i_removes : both_see.phases i ≡ removing
  i_removes = update_other _ _ _ removing _ (λ e. other (sym e)) (update_same c.phases i removing)

  goes_first : Steps c first_installs
  goes_first =
      then_step _ _ _
        (then_step _ _ _ (then_step _ _ _ sees_both (remove_stale both_see i i_removes))
          (make_lock _ i (update_same _ i trying) refl))
        (begin_install first_owns i (update_same _ i owning) missing)

  j_removes : first_installs.phases j ≡ removing
  j_removes = update_other _ _ _ installing _ other (
      update_other _ _ _ owning _ other
        (update_other _ _ _ trying _ other (update_same _ j removing)))

  goes_second : Steps c both_install
  goes_second =
      then_step _ _ _
        (then_step _ _ _ (then_step _ _ _ goes_first (remove_stale first_installs j j_removes))
          (make_lock _ j (update_same _ j trying) refl))
        (begin_install second_owns j (update_same _ j owning) missing)

  i_installs : both_install.phases i ≡ installing
  i_installs =
      let back = λ (e : j ≡ i). other (sym e) in
      update_other _ _ _ installing _ back (
        update_other _ _ _ owning _ back
          (update_other _ _ _ trying _ back (update_same _ i installing)))

-- Once two runners have seen a stale lock, they can both come to install the plugin at a time: the
-- second one's removal takes the lock that the first has just made.
pub stale_race :
    (c : Cache) (i j : ℕ)
    → i ≢ j
    → c.is_installed ≡ false
    → IsStale c
    → c.phases i ≡ blocked
    → c.phases j ≡ blocked
    → (d : Cache) × Steps c d × (d.phases i ≡ installing) × (d.phases j ≡ installing)
stale_race c i j other missing stale at_i at_j = (
  both_install c i j other missing stale at_i at_j,
  goes_second c i j other missing stale at_i at_j,
  i_installs c i j other missing stale at_i at_j,
  update_same _ j installing,
)
