-- ===== src/Runnerops/Packages/Plugin.antt =====
-- Which references name a plugin that can be installed ahead (internal/runnerops/plugincache.go).
use mathlib.Core.Option.{some-injective}
use doplane.Common.{
  ℕ, ◌≡◌, refl, sym, ap, ◌↔◌, Text, true, false, Option, none, some, [], ◌∷◌, ◌++◌, ◌==◌, ==_iff,
  ==_refl, Bool-cases, Option-cases, inl, inr,
}
use doplane.Runnerops.Path.{is_empty, cut_at}
use doplane.Runnerops.Packages.{
  PackageKind, plain, git, registry, classify_package_ref, named_version, plugin_of_kind,
  parse_plugin_ref,
}

-- The byte does not occur in the text.
abbrev pub Without : ℕ → Text → Type 0
Without b [] = Unit
Without b (c ∷ s) = ((c == b) ≡ false) × Without b s

at_separator :
    (b c : ℕ) (s name version : Text)
    → ◌≡◌ {A = Text × Text} ([], s) (name, version)
    → (c == b) ≡ true
    → (c ∷ s ≡ name ++ b ∷ version) × Without b name
at_separator b c s name version g e =
    rw (← ap (λ (r : Text × Text). r.0) g, ← ap (λ (r : Text × Text). r.1) g, (==_iff c b).0 e)
      (refl, tt)

behind_byte :
    (b c : ℕ) (s t rest name version : Text)
    → (s ≡ t ++ b ∷ rest) × Without b t
    → ◌≡◌ {A = Text × Text} (c ∷ t, rest) (name, version)
    → (c == b) ≡ false
    → (c ∷ s ≡ name ++ b ∷ version) × Without b name
behind_byte b c s t rest name version (q, w) g e =
    rw (← ap (λ (r : Text × Text). r.0) g, ← ap (λ (r : Text × Text). r.1) g, q) (refl, (e, w))

cut_at_split :
    (b : ℕ) (s name version : Text)
    → cut_at b s ≡ some (name, version)
    → (s ≡ name ++ b ∷ version) × Without b name
unfolding cut_at
cut_at_split b [] name version h = cc
cut_at_split b (c ∷ s) name version h = elim (Bool-cases (c == b)) [
  | inl e ↦ at_separator b c s name version (some-injective _ _ (rw e at h)) e
  | inr e ↦ elim (Option-cases (cut_at b s)) [
    | inl f ↦ let g = rw (e, f) at h in cc
    | inr ((t, rest), f) ↦
        behind_byte b c s t rest name version (cut_at_split b s t rest f)
          (some-injective _ _ (rw (e, f) at h)) e
  ]
]

cut_at_append :
    (b : ℕ) (name version : Text)
    → Without b name
    → cut_at b (name ++ b ∷ version) ≡ some (name, version)
unfolding cut_at
cut_at_append b [] version h = rw (==_refl b) refl
cut_at_append b (c ∷ name) version h = rw (h.0, cut_at_append b name version h.1) refl

named_version_iff :
    (o : Option (Text × Text)) (name version : Text)
    → (named_version o ≡ some (name, version))
      ↔ ((o ≡ some (name, version)) × (is_empty name ≡ false) × (is_empty version ≡ false))
named_version_iff none name version = (λ h. cc, λ h. cc (h.0))
named_version_iff (some ([], v)) name version = (
  λ h. cc,
  λ h. let e = ap is_empty (ap (λ (r : Text × Text). r.0) (some-injective _ _ (h.0))) in cc (h.1),
)
named_version_iff (some (b ∷ n, [])) name version = (
  λ h. cc,
  λ h. let e = ap is_empty (ap (λ (r : Text × Text). r.1) (some-injective _ _ (h.0))) in cc (h.2),
)
named_version_iff (some (b ∷ n, c ∷ v)) name version = (
  λ h.
      let p = some-injective _ _ h in
      (
        h,
        sym (ap is_empty (ap (λ (r : Text × Text). r.0) p)),
        sym (ap is_empty (ap (λ (r : Text × Text). r.1) p)),
      ),
  λ h. h.0,
)

plugin_of_kind_iff :
    (pkg name version : Text) (kind : PackageKind)
    → (plugin_of_kind pkg kind ≡ some (name, version)) ↔ (
        (kind ≡ plain)
        × (pkg ≡ name ++ b'@' ∷ version)
        × Without b'@' name
        × (is_empty name ≡ false)
        × (is_empty version ≡ false))
plugin_of_kind_iff pkg name version plain = (
  λ h.
      let (e, p, q) = (named_version_iff (cut_at b'@' pkg) name version).0 h in
      let (s, w) = cut_at_split b'@' pkg name version e in (refl, s, w, p, q),
  λ h.
      (named_version_iff (cut_at b'@' pkg) name version).1
        (rw (h.1) (cut_at_append b'@' name version h.2), h.3, h.4),
)
plugin_of_kind_iff pkg name version git = (λ h. cc, λ h. cc (h.0))
plugin_of_kind_iff pkg name version (registry path) = (λ h. cc, λ h. cc (h.0))

-- A reference is installed ahead as the plugin `name` at `version` exactly when it is neither a
-- git source nor a registry reference and reads `name@version`, with neither part empty and no
-- `@` in the name.
pub parse_plugin_ref_iff :
    (pkg name version : Text)
    → (parse_plugin_ref pkg ≡ some (name, version)) ↔ (
        (classify_package_ref pkg ≡ plain)
        × (pkg ≡ name ++ b'@' ∷ version)
        × Without b'@' name
        × (is_empty name ≡ false)
        × (is_empty version ≡ false))
unfolding parse_plugin_ref
parse_plugin_ref_iff pkg name version =
    plugin_of_kind_iff pkg name version (classify_package_ref pkg)
