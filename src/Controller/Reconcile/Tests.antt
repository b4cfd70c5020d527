-- ===== src/Controller/Reconcile/Tests.antt =====
-- Concrete whole reconciles (internal/controller/doresource_controller_test.go).
use doplane.Common.{◌≡◌, some, refl, bytes, true, false, [], ◌∷◌}
use doplane.Controller.Sync.{Session, paused}
use doplane.Controller.Calls.{count, is_cloud_call, is_creation}
use doplane.Controller.References.{source_missing, apply_references}
use doplane.Controller.Provider.{profile_missing, get_provider, with_profile, resolve_provider}
use doplane.Controller.Reconcile.{
  Surroundings, valid, stage_from, stage_secret_inputs, reconcile_inputs, add_finalizer,
  reconcile_with, record_pause, reconcile,
}
use doplane.Controller.Reconcile.Stored.Whole.{reconcile-stores}
use doplane.Controller.Reconcile.Suspended.{reconcile-suspends}
use doplane.Controller.Stored.{stored}
use doplane.Controller.Tests.{world, reconciles, with_conditions}

abbrev surroundings : Surroundings
surroundings = record {
  read_profile = λ k n. profile_missing;
  is_pinned = λ pkg. false;
  store = [];
  read_source = λ n. source_missing;
  output_exists = λ src p. true;
  marshal = λ v. [];
  validate = λ pkg token props. valid false;
  hash_props = λ res props. some (bytes "new");
  listed = some ([], []);
}

-- Everything that a whole reconcile goes through.
runs : Unit {0}
unfolding reconciles paused stage_from stage_secret_inputs apply_references reconcile_inputs
    add_finalizer reconcile_with record_pause get_provider with_profile resolve_provider reconcile
runs = tt

abbrev fresh : Session
fresh = record { res = with_conditions [] []; trace = [] }

-- A new resource is created once.
create_test : count is_creation (reconcile world surroundings fresh).1.trace ≡ 1
unfolding runs
create_test = refl

reconcile-stores_example :
    stored world fresh.res.status (reconcile world surroundings fresh).1.trace
    ≡ (reconcile world surroundings fresh).1.res.status
reconcile-stores_example =
    reconcile-stores world surroundings fresh.res.status fresh (unfold runs in refl)
      (unfold runs in refl)

abbrev halted : Session
halted = record {
  res = record (with_conditions (bytes "pet-1") []) {
    annotations = (bytes "crossplane.io/paused", bytes "true") ∷ [];
    is_deleting = true;
  };
  trace = [];
}

reconcile-suspends_example :
    (count is_cloud_call (reconcile world surroundings halted).1.trace ≡ count is_cloud_call [])
    × ((reconcile world surroundings halted).1.res.has_finalizer ≡ true)
    × ((reconcile world surroundings halted).1.res.status.id ≡ bytes "pet-1")
reconcile-suspends_example = reconcile-suspends world surroundings halted (unfold runs in refl)
