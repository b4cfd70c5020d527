-- ===== src/Controller/Provider/Gate.antt =====
-- A resource reaches the provider only with what its profile allows
-- (internal/controller/provider_resolution.go).
use doplane.Common.{
  ◌∙◌, ap, sym, ◌≡◌, ◌≢◌, none, some, refl, ◌⊎◌, inl, inr, Text, text_eq, text_eq_iff, Bool, true,
  false, Option, Bool-cases, if◌then◌else◌,
}
use doplane.Runnerops.Path.{is_empty}
use doplane.Controller.Resource.{
  DoResource, ProviderKind, provider_not_found, provider_package_mismatch, resource_not_allowed,
  Reason, ProviderReference,
}
use doplane.Controller.World.{World}
use doplane.Controller.Sync.{Session, Outcome, Step, plain, mark_sync_failed}
use doplane.Controller.Calls.{count, is_cloud_call, is_cloud_call-Ignores, mark_sync_failed-Quiet}
use doplane.Controller.Provider.{
  DoProviderSpec, ProfileRead, profile_is, profile_missing, profile_unreadable, profile_read,
  get_provider, token_allowed, effective_package, checked, with_profile, resolve_provider,
}

-- The package that a live resource asks for is the profile's: it names none, or the same one.
abbrev pub AsksFor : DoResource → Text → Type 0
AsksFor res pkg = (is_empty res.spec.package_ref ≡ true) ⊎ (res.spec.package_ref ≡ pkg)

-- Why a profile that is referenced stops a live resource: it is missing or cannot be read, or its
-- package is another one than the resource asks for, or it does not allow the type.
abbrev pub Stops : ProfileRead → DoResource → Type 0
Stops profile_missing res = Unit
Stops profile_unreadable res = Unit
Stops (profile_is spec) res =
    ((is_empty res.spec.package_ref ≡ false) × (res.spec.package_ref ≢ spec.package_ref))
    ⊎ (token_allowed spec.allowed_resources res.spec.token ≡ false)

-- The three ends of resolveProvider for a live resource, of which `next` is what goes on with the
-- credentials Secret and the package: no profile is referenced, or one that agrees, or one that stops
-- the resource, before any call of the runner.
abbrev pub Resolves :
    (Option Text → Text → Step)
    → (ProviderKind → Text → ProfileRead)
    → Session
    → Outcome × Session
    → Type 0
Resolves next read_profile s r =
    ((s.res.spec.provider_ref ≡ none) × (r ≡ next none s.res.spec.package_ref s))
    ⊎ ((ref : ProviderReference) × (s.res.spec.provider_ref ≡ some ref)
        × (spec : DoProviderSpec) × (read_profile ref.kind ref.name ≡ profile_is spec)
        × AsksFor s.res spec.package_ref
        × (token_allowed spec.allowed_resources s.res.spec.token ≡ true)
        × (r ≡ next spec.credentials_secret spec.package_ref s))
    ⊎ ((ref : ProviderReference) × (s.res.spec.provider_ref ≡ some ref)
        × Stops (read_profile ref.kind ref.name) s.res
        × (count is_cloud_call r.1.trace ≡ count is_cloud_call s.trace))

else_branch :
    {A : Type 0} (P : A → Type 0) (b : Bool) (x y : A) → b ≡ false → P y → P (if b then x else y)
else_branch P true x y h p = cc
else_branch P false x y h p = p

-- What a profile that is read means for a live resource.
abbrev Settles : (Option Text → Text → Step) → ProfileRead → Session → Outcome × Session → Type 0
Settles next read s r =
    ((spec : DoProviderSpec) × (read ≡ profile_is spec)
      × AsksFor s.res spec.package_ref
      × (token_allowed spec.allowed_resources s.res.spec.token ≡ true)
      × (r ≡ next spec.credentials_secret spec.package_ref s))
    ⊎ (Stops read s.res × (count is_cloud_call r.1.trace ≡ count is_cloud_call s.trace))

differ : (s t : Text) → text_eq s t ≡ false → s ≢ t
differ s t h e = let same = (text_eq_iff s t).1 e in cc

own_package :
    (res : DoResource) (spec : DoProviderSpec)
    → is_empty res.spec.package_ref ≡ false
    → res.is_deleting ≡ false
    → effective_package res spec ≡ res.spec.package_ref
unfolding effective_package
own_package res spec e d = rw (e, d) refl

profile_package :
    (res : DoResource) (spec : DoProviderSpec)
    → is_empty res.spec.package_ref ≡ true
    → effective_package res spec ≡ spec.package_ref
unfolding effective_package
profile_package res spec e = rw e refl

-- The effective package of a live resource is the profile's where it asks for that one, and its own
-- otherwise.
effective_package-cases :
    (res : DoResource) (spec : DoProviderSpec)
    → res.is_deleting ≡ false
    → (AsksFor res spec.package_ref × (effective_package res spec ≡ spec.package_ref))
      ⊎ ((is_empty res.spec.package_ref ≡ false)
          × (effective_package res spec ≡ res.spec.package_ref)
          × (res.spec.package_ref ≢ spec.package_ref))
effective_package-cases res spec d = elim (Bool-cases (is_empty res.spec.package_ref)) [
  | inl e ↦ inl (inl e, profile_package res spec e)
  | inr e ↦ elim (Bool-cases (text_eq res.spec.package_ref spec.package_ref)) [
    | inl same ↦
        let q = (text_eq_iff res.spec.package_ref spec.package_ref).0 same in
        inl (inr q, own_package res spec e d ∙ q)
    | inr other ↦
        inr (e, own_package res spec e d, differ res.spec.package_ref spec.package_ref other)
  ]
]

module _ (w : World) (next : Option Text → Text → Step) where
  refuses :
      (reason : Reason) (s : Session)
      → count is_cloud_call (mark_sync_failed w reason plain false s).1.trace
        ≡ count is_cloud_call s.trace
  refuses reason s =
      mark_sync_failed-Quiet w (count is_cloud_call) is_cloud_call-Ignores reason plain false s

  checked-cases :
      (spec : DoProviderSpec) (pkg : Text) (s : Session)
      → ((pkg ≡ spec.package_ref)
          × (token_allowed spec.allowed_resources s.res.spec.token ≡ true)
          × (checked w next spec pkg s ≡ next spec.credentials_secret pkg s))
        ⊎ (((pkg ≢ spec.package_ref)
              ⊎ (token_allowed spec.allowed_resources s.res.spec.token ≡ false))
            × (count is_cloud_call (checked w next spec pkg s).1.trace
                ≡ count is_cloud_call s.trace))
  unfolding checked
  checked-cases spec pkg s =
      let allowed = token_allowed spec.allowed_resources s.res.spec.token in
      elim (Bool-cases (text_eq pkg spec.package_ref)) [
        | inr e ↦
            inr (inl (differ pkg spec.package_ref e), rw e (refuses provider_package_mismatch s))
        | inl e ↦ elim (Bool-cases allowed) [
          | inr f ↦ inr (inr f, rw (e, f) (refuses resource_not_allowed s))
          | inl f ↦ inl ((text_eq_iff pkg spec.package_ref).0 e, f, rw (e, f) refl)
        ]
      ]

  checked-Settles :
      (spec : DoProviderSpec) (s : Session)
      → s.res.is_deleting ≡ false
      → Settles next (profile_is spec) s (checked w next spec (effective_package s.res spec) s)
  checked-Settles spec s d =
      joined (effective_package-cases s.res spec d)
        (checked-cases spec (effective_package s.res spec) s)
    where
      joined :
          (AsksFor s.res spec.package_ref × (effective_package s.res spec ≡ spec.package_ref))
            ⊎ ((is_empty s.res.spec.package_ref ≡ false)
                × (effective_package s.res spec ≡ s.res.spec.package_ref)
                × (s.res.spec.package_ref ≢ spec.package_ref))
          → ((effective_package s.res spec ≡ spec.package_ref)
              × (token_allowed spec.allowed_resources s.res.spec.token ≡ true)
              × (checked w next spec (effective_package s.res spec) s
                  ≡ next spec.credentials_secret (effective_package s.res spec) s))
            ⊎ (((effective_package s.res spec ≢ spec.package_ref)
                  ⊎ (token_allowed spec.allowed_resources s.res.spec.token ≡ false))
                × (count is_cloud_call
                      (checked w next spec (effective_package s.res spec) s).1.trace
                    ≡ count is_cloud_call s.trace))
          → Settles next (profile_is spec) s (checked w next spec (effective_package s.res spec) s)
      joined (inl (asks, e)) (inl (q, f, goes)) =
          inl (spec, refl, asks, f, goes ∙ ap (λ p. next spec.credentials_secret p s) q)
      joined (inl (asks, e)) (inr (inl n, c)) = absurd (n e)
      joined (inl (asks, e)) (inr (inr f, c)) = inr (inr f, c)
      joined (inr (own, e, other)) (inl (q, f, goes)) = absurd (other (sym e ∙ q))
      joined (inr (own, e, other)) (inr (why, c)) = inr (inl (own, other), c)

  with_profile-Settles :
      (read : ProfileRead) (s : Session)
      → s.res.is_deleting ≡ false
      → Settles next read s (with_profile w next (profile_read read) s)
  unfolding with_profile
  with_profile-Settles profile_unreadable s d = inr (tt, refl)
  with_profile-Settles profile_missing s d =
      else_branch (Settles next profile_missing s) s.res.is_deleting _ _ d
        (inr (tt, refuses provider_not_found s))
  with_profile-Settles (profile_is spec) s d =
      else_branch (Settles next (profile_is spec) s) s.res.is_deleting _ _ d
        (checked-Settles spec s d)

  get_provider-Resolves :
      (read_profile : ProviderKind → Text → ProfileRead) (s : Session)
      (o : Option ProviderReference)
      → s.res.spec.provider_ref ≡ o
      → s.res.is_deleting ≡ false
      → Resolves next read_profile s (with_profile w next (get_provider read_profile o) s)
  unfolding get_provider with_profile
  get_provider-Resolves read_profile s none e d = inl (e, refl)
  get_provider-Resolves read_profile s (some ref) e d =
      elim (with_profile-Settles (read_profile ref.kind ref.name) s d) [
        | inl (spec, read, asks, f, goes) ↦ inr (inl (ref, e, spec, read, asks, f, goes))
        | inr (stops, c) ↦ inr (inr (ref, e, stops, c))
      ]

-- The platform's rules hold for whatever a live resource does next. Either it references no profile,
-- and goes on with its own package; or the profile that it references exists, is not of another package
-- than the resource asks for and allows the resource's type, and it goes on with the profile's package
-- and credentials; or the profile is missing or unreadable, or breaks one of the two rules, and no call
-- of the runner is made.
pub resolve_provider-Resolves :
    (w : World) (next : Option Text → Text → Step)
    (read_profile : ProviderKind → Text → ProfileRead) (s : Session)
    → s.res.is_deleting ≡ false
    → Resolves next read_profile s (resolve_provider w next read_profile s)
unfolding resolve_provider
resolve_provider-Resolves w next read_profile s d =
    get_provider-Resolves w next read_profile s s.res.spec.provider_ref refl d
