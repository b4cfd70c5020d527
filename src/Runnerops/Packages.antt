-- ===== src/Runnerops/Packages.antt =====
-- internal/runnerops/registry.go, plugincache.go and shared.go: what a package reference names.
pub mod Plugin
use doplane.Common.{
  ℕ, Text, bytes, text_eq, has_prefix, Bool, true, false, not, ◌&&◌, ◌||◌, Option, none, some, List,
  [], ◌∷◌, ◌++◌, if◌then◌else◌, ◌==◌, leb, length,
}
use doplane.Runnerops.Path.{is_empty, cut_at}

abbrev pub or_whole : Text → Option (Text × Text) → Text
or_whole token none = token
or_whole token (some ([], rest)) = token
or_whole token (some (b ∷ name, rest)) = b ∷ name

-- `PackageForToken`
unfoldable pub package_for_token : Text → Text
package_for_token token = or_whole token (cut_at b':' token)

-- `looksLikeGitSource`
unfoldable pub looks_like_git_source : Text → Bool
looks_like_git_source pkg =
    has_prefix (bytes "github.com/") pkg
    || has_prefix (bytes "gitlab.com/") pkg
    || has_prefix (bytes "bitbucket.org/") pkg
    || has_prefix (bytes "git://") pkg
    || has_prefix (bytes "https://") pkg
    || has_prefix (bytes "./") pkg
    || has_prefix (bytes "/") pkg

-- A byte of the class [A-Za-z0-9-].
abbrev pub is_word : ℕ → Bool
is_word c = (leb 65 c && leb c 90) || (leb 97 c && leb c 122) || (leb 48 c && leb c 57) || c == b'-'

abbrev pub before_rest : ℕ → Text × Text → Text × Text
before_rest c (word, rest) = (c ∷ word, rest)

-- The longest start of the text that the class `[A-Za-z0-9-]` matches, and the rest.
unfoldable pub span_word : Text → Text × Text
span_word [] = ([], [])
span_word (c ∷ s) = let r = before_rest c (span_word s) in if is_word c then r else ([], c ∷ s)

unfoldable pub has_newline : Text → Bool
has_newline [] = false
has_newline (c ∷ s) = c == 10 || has_newline s

-- The source, organization, name and version that registryRefRe captures; one that is missing is
-- empty.
pub record RegistryRef : Type 0 where
  pub source : Text
  pub organization : Text
  pub name : Text
  pub version : Text

-- `(?:@(.+))?$`
abbrev pub match_version : Text → Text → Text → Text → Option RegistryRef
match_version source organization name [] =
    some (record { source = source; organization = organization; name = name; version = [] })
match_version source organization name (c ∷ version) =
    if c == b'@' && not (is_empty version) && not (has_newline version)
    then some
        (record { source = source; organization = organization; name = name; version = version })
    else none

-- `([A-Za-z0-9-]+)` for the name, and what follows it
abbrev pub match_name : Text → Text → Text × Text → Option RegistryRef
match_name source organization ([], rest) = none
match_name source organization (b ∷ name, rest) = match_version source organization (b ∷ name) rest

-- `([A-Za-z0-9-]+)/`
abbrev pub match_organization : Text → Text × Text → Option RegistryRef
match_organization source ([], rest) = none
match_organization source (b ∷ organization, []) = none
match_organization source (b ∷ organization, c ∷ rest) =
    if c == b'/' then match_name source (b ∷ organization) (span_word rest) else none

abbrev pub match_from : Text → Text → Option RegistryRef
match_from source s = match_organization source (span_word s)

-- The text behind a prefix.
unfoldable pub behind : Text → Text → Option Text
behind [] s = some s
behind (b ∷ p) [] = none
behind (b ∷ p) (c ∷ s) = let rest = behind p s in if b == c then rest else none

abbrev pub match_behind : Text → Option Text → Option RegistryRef
match_behind source none = none
match_behind source (some s) = match_from source s

abbrev pub or_match : Option RegistryRef → Option RegistryRef → Option RegistryRef
or_match (some m) other = some m
or_match none other = other

-- `registryRefRe`, with the sources in the order of the pattern and without one at last.
unfoldable pub match_registry_ref : Text → Option RegistryRef
match_registry_ref pkg = or_match (match_behind (bytes "private") (behind (bytes "private/") pkg)) (
    or_match (match_behind (bytes "pulumi") (behind (bytes "pulumi/") pkg)) (
      or_match (match_behind (bytes "opentofu") (behind (bytes "opentofu/") pkg))
        (match_from [] pkg)))

-- What `ClassifyPackageRef` returns.
pub data PackageKind : Type 0 where
  plain git : PackageKind
  registry : Text → PackageKind

abbrev pub or_default : Text → Text → Text
or_default value [] = value
or_default value (b ∷ s) = b ∷ s

abbrev pub registry_path : RegistryRef → Text
registry_path m =
    or_default (bytes "private") m.source
    ++ b'/'
      ∷ (m.organization
          ++ b'/' ∷ (m.name ++ bytes "/versions/" ++ or_default (bytes "latest") m.version))

abbrev pub kind_of_match : Option RegistryRef → PackageKind
kind_of_match none = plain
kind_of_match (some m) = registry (registry_path m)

-- `ClassifyPackageRef`
unfoldable pub classify_package_ref : Text → PackageKind
classify_package_ref pkg =
    if is_empty pkg
    then plain
    else if looks_like_git_source pkg
    then git
    else kind_of_match (match_registry_ref pkg)

abbrev pub named_version : Option (Text × Text) → Option (Text × Text)
named_version none = none
named_version (some (name, version)) =
    if is_empty name || is_empty version then none else some (name, version)

abbrev pub plugin_of_kind : Text → PackageKind → Option (Text × Text)
plugin_of_kind pkg plain = named_version (cut_at b'@' pkg)
plugin_of_kind pkg git = none
plugin_of_kind pkg (registry path) = none

-- `ParsePluginRef`
unfoldable pub parse_plugin_ref : Text → Option (Text × Text)
parse_plugin_ref pkg = plugin_of_kind pkg (classify_package_ref pkg)

-- `registryPackage`
pub record RegistryPackage : Type 0 where
  pub name : Text
  pub version : Text
  pub schema_url : Text
  pub plugin_download_url : Text

abbrev pub or_as_it_is : Text → Option Text → Text
or_as_it_is s none = s
or_as_it_is s (some t) = t

-- `gitSource`; `none` is its error.
unfoldable pub git_source : RegistryPackage → Option Text
git_source pkg =
    if is_empty pkg.plugin_download_url
    then none
    else some
        (or_as_it_is pkg.plugin_download_url (behind (bytes "git://") pkg.plugin_download_url))
