-- ===== src/Controller/Provider/Tests.antt =====
-- Concrete allow-lists and profiles (internal/controller/provider_resolution_test.go).
use doplane.Common.{
  ◌≡◌, refl, ◌⊎◌, ◌↔◌, Text, bytes, has_prefix, lower, true, false, none, some, [], ◌∷◌, Any,
}
use doplane.Json.{end}
use doplane.Runnerops.Path.Tests.{paths}
use doplane.Controller.Resource.{DoResource, cluster}
use doplane.Controller.Settled.{reconcile_external}
use doplane.Controller.Provider.{
  DoProviderSpec, profile_is, equal_fold, cut_glob, after_colon, before_colon, module_of,
  pattern_allows, any_allows, token_allowed, resolve_provider,
}
use doplane.Controller.Provider.Allowed.{Permits, token_allowed_iff}
use doplane.Controller.Provider.Gate.{Resolves, resolve_provider-Resolves}
use doplane.Controller.Tests.{world, spec, with_conditions}

-- Everything that a test of an allow-list goes through.
allows : Unit {0}
unfolding paths has_prefix lower equal_fold cut_glob after_colon before_colon module_of
    pattern_allows any_allows token_allowed
allows = tt

abbrev bucket : Text
bucket = bytes "aws:s3/bucketV2:BucketV2"

allowed_tests :
    (token_allowed (bytes "s3/*" ∷ []) bucket ≡ true)
    × (token_allowed (bytes "S3/BucketV2" ∷ []) bucket ≡ true)
    × (token_allowed (bytes "s/*" ∷ []) bucket ≡ false)
    × (token_allowed (bytes "ec2/*" ∷ bucket ∷ []) bucket ≡ true)
unfolding allows
allowed_tests = (refl, refl, refl, refl)

token_allowed_iff_example :
    (token_allowed (bytes "ec2/*" ∷ bucket ∷ []) bucket ≡ true)
    ↔ ((bytes "ec2/*" ∷ bucket ∷ [] ≡ []) ⊎ Any (Permits bucket) (bytes "ec2/*" ∷ bucket ∷ []))
token_allowed_iff_example = token_allowed_iff (bytes "ec2/*" ∷ bucket ∷ []) bucket

abbrev pinned : DoProviderSpec
pinned = record {
  package_ref = bytes "random@4.16.7";
  credentials_secret = none;
  allowed_resources = bytes "index/*" ∷ [];
}

abbrev user : DoResource
user = record (with_conditions [] []) {
  spec = record spec { provider_ref = some (record { name = bytes "random"; kind = cluster }) };
}

resolve_provider-Resolves_example :
    Resolves
      (λ secret pkg. reconcile_external world end [])
      (λ k n. profile_is pinned)
      (record { res = user; trace = [] })
      (resolve_provider world
        (λ secret pkg. reconcile_external world end [])
        (λ k n. profile_is pinned)
        (record { res = user; trace = [] }))
resolve_provider-Resolves_example =
    resolve_provider-Resolves world (λ secret pkg. reconcile_external world end [])
      (λ k n. profile_is pinned) (record { res = user; trace = [] }) refl
