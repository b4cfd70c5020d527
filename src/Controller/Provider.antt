-- ===== src/Controller/Provider.antt =====
-- internal/controller/provider_resolution.go: the provider profile of a DoResource, and what it
-- allows. Cases are folded for the letters of ASCII alone: a token of a provider's schema has no
-- others, and an entry of an allow-list that has others is compared byte by byte.
pub mod Allowed
pub mod Gate
pub mod Tests
use doplane.Common.{
  ℕ, ◌+◌, Text, bytes, text_eq, has_prefix, lower, Bool, true, false, not, ◌&&◌, ◌||◌, Option, none,
  some, List, [], ◌∷◌, ◌++◌, if◌then◌else◌, ◌==◌, leb,
}
use doplane.Runnerops.Path.{is_empty}
use doplane.Controller.Resource.{
  DoResource, ProviderKind, cluster, config, ProviderReference, provider_not_found,
  provider_package_mismatch, resource_not_allowed,
}
use doplane.Controller.World.{World}
use doplane.Controller.Sync.{Step, plain, api_failed, fail, mark_sync_failed}

-- `DoProviderSpec`, as far as a reconcile of a DoResource reads it.
pub record DoProviderSpec : Type 0 where
  pub package_ref : Text
  pub credentials_secret : Option Text
  pub allowed_resources : List Text

-- The answer of the API server for a profile.
pub data ProfileRead : Type 0 where
  profile_is : DoProviderSpec → ProfileRead
  profile_missing : ProfileRead
  profile_unreadable : ProfileRead

-- What `getProvider` returns.
pub data Profile : Type 0 where
  no_profile : Profile
  profile : DoProviderSpec → Profile
  vanished : Profile
  unreadable : Profile

-- `strings.EqualFold`
unfoldable pub equal_fold : Text → Text → Bool
equal_fold s t = text_eq (lower s) (lower t)

abbrev pub before : ℕ → Option Text → Option Text
before b none = none
before b (some s) = some (b ∷ s)

-- `strings.CutSuffix(s, "/*")`
unfoldable pub cut_glob : Text → Option Text
cut_glob [] = none
cut_glob (b ∷ s) =
    let rest = before b (cut_glob s) in if text_eq (b ∷ s) (bytes "/*") then some [] else rest

-- The text behind the first colon.
unfoldable pub after_colon : Text → Option Text
after_colon [] = none
after_colon (b ∷ s) = let rest = after_colon s in if b == b':' then some s else rest

-- The text before the first colon, if there is one.
unfoldable pub before_colon : Text → Option Text
before_colon [] = none
before_colon (b ∷ s) = let rest = before b (before_colon s) in if b == b':' then some [] else rest

abbrev pub or_text : Text → Option Text → Text
or_text token none = token
or_text token (some s) = s

abbrev pub module_behind : Text → Option Text → Text
module_behind token none = token
module_behind token (some s) = or_text token (before_colon s)

-- The second of three parts of the token, the whole token where it has fewer.
unfoldable pub module_of : Text → Text
module_of token = module_behind token (after_colon token)

abbrev pub glob_allows : Text → Option Text → Bool
glob_allows m none = false
glob_allows m (some prefix) =
    equal_fold prefix m || has_prefix (lower prefix ++ b'/' ∷ []) (lower m)

-- One round of the loop of `tokenAllowed`
unfoldable pub pattern_allows : Text → Text → Bool
pattern_allows token pattern =
    text_eq pattern (bytes "*")
    || (text_eq pattern token
        || (equal_fold pattern (module_of token)
            || glob_allows (module_of token) (cut_glob pattern)))

unfoldable pub any_allows : Text → List Text → Bool
any_allows token [] = false
any_allows token (pattern ∷ patterns) = pattern_allows token pattern || any_allows token patterns

-- `tokenAllowed`
unfoldable pub token_allowed : List Text → Text → Bool
token_allowed [] token = true
token_allowed (pattern ∷ patterns) token = any_allows token (pattern ∷ patterns)

abbrev pub profile_read : ProfileRead → Profile
profile_read (profile_is spec) = profile spec
profile_read profile_missing = vanished
profile_read profile_unreadable = unreadable

-- `getProvider`; `read_profile` reads a profile of the kind by name, a DoProviderConfig in the
-- namespace.
unfoldable pub get_provider :
    (ProviderKind → Text → ProfileRead) → Option ProviderReference → Profile
get_provider read_profile none = no_profile
get_provider read_profile (some ref) = profile_read (read_profile ref.kind ref.name)

-- The effective package.
unfoldable pub effective_package : DoResource → DoProviderSpec → Text
effective_package res spec =
    if is_empty res.spec.package_ref || res.is_deleting
    then spec.package_ref
    else res.spec.package_ref

module _ (w : World) (next : Option Text → Text → Step) where
  -- resolveProvider on the live path, for a profile.
  unfoldable pub checked : DoProviderSpec → Text → Step
  checked spec pkg s =
      if not (text_eq pkg spec.package_ref)
      then mark_sync_failed w provider_package_mismatch plain false s
      else if not (token_allowed spec.allowed_resources s.res.spec.token)
      then mark_sync_failed w resource_not_allowed plain false s
      else next spec.credentials_secret pkg s

  unfoldable pub with_profile : Profile → Step
  with_profile unreadable s = fail api_failed s
  with_profile no_profile s = next none s.res.spec.package_ref s
  with_profile vanished s =
      if s.res.is_deleting
      then next none s.res.spec.package_ref s
      else mark_sync_failed w provider_not_found plain false s
  with_profile (profile spec) s =
      let pkg = effective_package s.res spec in
      if s.res.is_deleting then next spec.credentials_secret pkg s else checked spec pkg s

  -- `resolveProvider`; `next` goes on with the credentials Secret and the package where it returns no
  -- halt.
  unfoldable pub resolve_provider : (ProviderKind → Text → ProfileRead) → Step
  resolve_provider read_profile s =
      with_profile (get_provider read_profile s.res.spec.provider_ref) s
