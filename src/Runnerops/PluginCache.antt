-- ===== src/Runnerops/PluginCache.antt =====
-- internal/runnerops/plugincache.go: ensurePlugin, as several runners do it over one cache volume
-- for one plugin. A step is one access to the volume by one runner.
pub mod Exclusion
pub mod Race
pub mod Tests
use doplane.Common.{
  ℕ, ◌+◌, ◌*◌, ◌<◌, ◌≡◌, Bool, true, false, Option, none, some, ◌==◌, if◌then◌else◌,
}

-- `staleLockAge`, in seconds
abbrev pub stale_lock_age : ℕ
stale_lock_age = 15 * 60

-- Where a runner stands in `ensurePlugin`.
pub data Phase : Type 0 where
  -- before the first look at the plugin's directory
  start : Phase
  -- before `os.Mkdir`
  trying : Phase
  -- `os.Mkdir` said that the lock exists
  blocked : Phase
  -- it has seen a stale lock, and is about to remove it
  removing : Phase
  -- in the `select`
  waiting : Phase
  -- it has made the lock
  owning : Phase
  -- `pulumi plugin install` runs
  installing : Phase
  -- before the deferred removal of the lock, with success or not
  releasing : Bool → Phase
  -- returned, with success or not
  returned : Bool → Phase

-- The lock directory with its modification time, whether the plugin is installed, the time, and the
-- runners by number.
pub record Cache : Type 0 where
  pub lock : Option ℕ
  pub is_installed : Bool
  pub now : ℕ
  pub phases : ℕ → Phase

unfoldable pub update : (ℕ → Phase) → ℕ → Phase → ℕ → Phase
update phases i p j = if i == j then p else phases j

abbrev pub move : Cache → ℕ → Phase → Cache
move c i p = record c { phases = update c.phases i p }

-- `time.Since(info.ModTime()) > staleLockAge`
abbrev pub IsStale : Cache → Type 0
IsStale c = (t : ℕ) × (c.lock ≡ some t) × (t + stale_lock_age < c.now)

pub data Step : Cache → Cache → Type 0 where
  tick : (c : Cache) → Step c (record c { now = c.now + 1 })
  find_installed :
      (c : Cache) (i : ℕ)
      → c.phases i ≡ start
      → c.is_installed ≡ true
      → Step c (move c i (returned true))
  find_missing :
      (c : Cache) (i : ℕ) → c.phases i ≡ start → c.is_installed ≡ false → Step c (move c i trying)
  make_lock :
      (c : Cache) (i : ℕ)
      → c.phases i ≡ trying
      → c.lock ≡ none
      → Step c (record (move c i owning) { lock = some c.now })
  lock_exists :
      (c : Cache) (i t : ℕ) → c.phases i ≡ trying → c.lock ≡ some t → Step c (move c i blocked)
  make_lock_fails : (c : Cache) (i : ℕ) → c.phases i ≡ trying → Step c (move c i (returned false))
  see_stale : (c : Cache) (i : ℕ) → c.phases i ≡ blocked → IsStale c → Step c (move c i removing)
  see_fresh : (c : Cache) (i : ℕ) → c.phases i ≡ blocked → ¬ IsStale c → Step c (move c i waiting)
  remove_stale :
      (c : Cache) (i : ℕ)
      → c.phases i ≡ removing
      → Step c (record (move c i trying) { lock = none })
  remove_fails : (c : Cache) (i : ℕ) → c.phases i ≡ removing → Step c (move c i trying)
  wake : (c : Cache) (i : ℕ) → c.phases i ≡ waiting → Step c (move c i trying)
  cancel : (c : Cache) (i : ℕ) → c.phases i ≡ waiting → Step c (move c i (returned false))
  find_finished :
      (c : Cache) (i : ℕ)
      → c.phases i ≡ owning
      → c.is_installed ≡ true
      → Step c (move c i (releasing true))
  begin_install :
      (c : Cache) (i : ℕ)
      → c.phases i ≡ owning
      → c.is_installed ≡ false
      → Step c (move c i installing)
  end_install :
      (c : Cache) (i : ℕ)
      → c.phases i ≡ installing
      → Step c (record (move c i (releasing true)) { is_installed = true })
  install_fails :
      (c : Cache) (i : ℕ) → c.phases i ≡ installing → Step c (move c i (releasing false))
  release :
      (c : Cache) (i : ℕ) (b : Bool)
      → c.phases i ≡ releasing b
      → Step c (record (move c i (returned b)) { lock = none })

-- Any number of steps.
pub data Steps : Cache → Cache → Type 0 where
  stay : (c : Cache) → Steps c c
  then_step : (a b c : Cache) → Steps a b → Step b c → Steps a c
