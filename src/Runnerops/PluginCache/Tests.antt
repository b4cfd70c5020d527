-- ===== src/Runnerops/PluginCache/Tests.antt =====
-- Runs of the plugin cache at concrete states (internal/runnerops/plugincache_test.go), and
-- instances of the theorems.
use doplane.Common.{◌≡◌, refl, false, none, some, arith}
use doplane.Runnerops.PluginCache.{
  start, trying, blocked, installing, Cache, move, find_missing, Steps, stay, then_step,
}
use doplane.Runnerops.PluginCache.Exclusion.{IsExclusive, Steps-IsExclusive}
use doplane.Runnerops.PluginCache.Race.{stale_race}

abbrev empty_cache : Cache
empty_cache = record { lock = none; is_installed = false; now = 0; phases = λ i. start }

empty_cache-IsExclusive : IsExclusive empty_cache
empty_cache-IsExclusive = record {
  locked = λ i o. absurd o;
  alone = λ i j o q. absurd o;
  undisturbed = λ i r. r;
  needed = λ i h. absurd h;
}

abbrev entered : Cache
entered = move empty_cache 0 trying

Steps-IsExclusive_example : IsExclusive entered
Steps-IsExclusive_example =
    Steps-IsExclusive
      (then_step empty_cache empty_cache entered (stay empty_cache)
        (find_missing empty_cache 0 refl refl))
      (tt, tt) empty_cache-IsExclusive

abbrev abandoned : Cache
abandoned = record { lock = some 0; is_installed = false; now = 1000; phases = λ i. blocked }

stale_race_example :
    (d : Cache) × Steps abandoned d × (d.phases 0 ≡ installing) × (d.phases 1 ≡ installing)
stale_race_example = stale_race abandoned 0 1 (omega arith) refl (0, refl, omega arith) refl refl
