-- ===== src/Controller/Provider/Allowed.antt =====
-- Which tokens an allow-list permits (internal/controller/provider_resolution.go).
use doplane.Common.{
  ℕ, ◌≡◌, refl, ap, ◌↔◌, ◌⊎◌, inl, inr, Text, bytes, text_eq, text_eq_iff, text_eq_refl, has_prefix,
  lower, Bool, true, false, ◌||◌, some, List, [], ◌∷◌, ◌++◌, Any, ==_iff, ◌==◌, Bool-cases,
  Option-cases, arith,
}
use mathlib.Core.Option.{some-injective}
use doplane.Controller.Provider.{
  equal_fold, cut_glob, glob_allows, module_of, pattern_allows, any_allows, token_allowed,
}

-- What an entry of allowedResources says, without regard to how it is tested.
pub data Permits (token : Text) : Text → Type 0 where
  everything : Permits token (bytes "*")
  the_token : Permits token token
  the_module : (pattern : Text) → lower pattern ≡ lower (module_of token) → Permits token pattern
  the_glob :
      (prefix : Text)
      → lower prefix ≡ lower (module_of token)
      → Permits token (prefix ++ bytes "/*")
  below_glob :
      (prefix rest : Text)
      → lower (module_of token) ≡ (lower prefix ++ b'/' ∷ []) ++ rest
      → Permits token (prefix ++ bytes "/*")

has_prefix_split : (p s : Text) → has_prefix p s ≡ true → (rest : Text) × (s ≡ p ++ rest)
unfolding has_prefix
has_prefix_split [] s h = (s, refl)
has_prefix_split (b ∷ p) [] h = cc
has_prefix_split (b ∷ p) (c ∷ s) h = elim (Bool-cases (b == c)) [
  | inl e ↦
      let ih = has_prefix_split p s (rw e at h) in
      (ih.0, rw ((==_iff b c).0 e) (ap (λ t. c ∷ t) ih.1))
  | inr e ↦ cc (rw e at h)
]

has_prefix_self : (p s : Text) → has_prefix p (p ++ s) ≡ true
unfolding has_prefix
has_prefix_self [] s = refl
has_prefix_self (b ∷ p) s = rw ((==_iff b b).1 refl) (has_prefix_self p s)

cut_glob_split : (s prefix : Text) → cut_glob s ≡ some prefix → s ≡ prefix ++ bytes "/*"
unfolding cut_glob
cut_glob_split [] prefix h = cc
cut_glob_split (b ∷ s) prefix h = elim (Bool-cases (text_eq (b ∷ s) (bytes "/*"))) [
  | inl e ↦ rw (← some-injective _ _ (rw e at h)) ((text_eq_iff (b ∷ s) (bytes "/*")).0 e)
  | inr e ↦ elim (Option-cases (cut_glob s)) [
    | inl f ↦ let g = rw (e, f) at h in cc
    | inr (q, f) ↦
        rw (← some-injective _ _ (rw (e, f) at h)) (ap (λ t. b ∷ t) (cut_glob_split s q f))
  ]
]

glob_is_longer : (b : ℕ) (p : Text) → text_eq (b ∷ (p ++ bytes "/*")) (bytes "/*") ≡ false
unfolding text_eq
glob_is_longer b [] = ground arith
glob_is_longer b (c ∷ []) = ground arith
glob_is_longer b (c ∷ d ∷ p) = ground arith

cut_glob_append : (prefix : Text) → cut_glob (prefix ++ bytes "/*") ≡ some prefix
unfolding cut_glob text_eq
cut_glob_append [] = refl
cut_glob_append (b ∷ p) = rw (glob_is_longer b p, cut_glob_append p) refl

or_split : (a b : Bool) → a || b ≡ true → (a ≡ true) ⊎ (b ≡ true)
or_split true b h = inl refl
or_split false b h = inr h

glob_allows-Permits :
    (token pattern : Text)
    → glob_allows (module_of token) (cut_glob pattern) ≡ true
    → Permits token pattern
unfolding equal_fold
glob_allows-Permits token pattern h = elim (Option-cases (cut_glob pattern)) [
  | inl e ↦ cc (rw e at h)
  | inr (prefix, e) ↦
      rw (cut_glob_split pattern prefix e)
        (elim (or_split (equal_fold prefix (module_of token)) _ (rw e at h)) [
          | inl f ↦ the_glob prefix ((text_eq_iff (lower prefix) (lower (module_of token))).0 f)
          | inr f ↦
              let split =
                has_prefix_split (lower prefix ++ b'/' ∷ []) (lower (module_of token)) f in
              below_glob prefix split.0 split.1
        ])
]

pattern_allows-Permits :
    (token pattern : Text) → pattern_allows token pattern ≡ true → Permits token pattern
unfolding pattern_allows equal_fold
pattern_allows-Permits token pattern h = elim (or_split (text_eq pattern (bytes "*")) _ h) [
  | inl e ↦ rw ((text_eq_iff pattern (bytes "*")).0 e) everything
  | inr h ↦ elim (or_split (text_eq pattern token) _ h) [
    | inl e ↦ rw ((text_eq_iff pattern token).0 e) the_token
    | inr h ↦ elim (or_split (equal_fold pattern (module_of token)) _ h) [
      | inl e ↦ the_module pattern ((text_eq_iff (lower pattern) (lower (module_of token))).0 e)
      | inr e ↦ glob_allows-Permits token pattern e
    ]
  ]
]

Permits-allows :
    (token pattern : Text) → Permits token pattern → pattern_allows token pattern ≡ true
unfolding pattern_allows equal_fold
Permits-allows token _ everything = rw (text_eq_refl (bytes "*")) refl
Permits-allows token _ the_token = rw (text_eq_refl token) (ground arith)
Permits-allows token _ (the_module pattern e) =
    rw (e, text_eq_refl (lower (module_of token))) (ground arith)
Permits-allows token _ (the_glob prefix e) =
    rw (cut_glob_append prefix, e, text_eq_refl (lower (module_of token))) (ground arith)
Permits-allows token _ (below_glob prefix rest e) =
    rw (cut_glob_append prefix, e, has_prefix_self (lower prefix ++ b'/' ∷ []) rest) (ground arith)

any_allows_iff :
    (token : Text) (patterns : List Text)
    → (any_allows token patterns ≡ true) ↔ Any (Permits token) patterns
unfolding any_allows
any_allows_iff token [] = (λ h. cc, λ m. absurd m)
any_allows_iff token (p ∷ ps) = (
  λ h. elim (or_split (pattern_allows token p) _ h) [
    | inl e ↦ inl (pattern_allows-Permits token p e)
    | inr e ↦ inr ((any_allows_iff token ps).0 e)
  ],
  λ m. elim m [
    | inl e ↦ rw (Permits-allows token p e) refl
    | inr e ↦ rw ((any_allows_iff token ps).1 e) (ground arith)
  ],
)

-- tokenAllowed answers yes exactly when the list is empty or one of its entries permits the token, as
-- the whole token, as its module up to the case of letters, as a glob above its module, or as "*".
pub token_allowed_iff :
    (allowed : List Text) (token : Text)
    → (token_allowed allowed token ≡ true) ↔ ((allowed ≡ []) ⊎ Any (Permits token) allowed)
unfolding token_allowed
token_allowed_iff [] token = (λ h. inl refl, λ m. refl)
token_allowed_iff (p ∷ ps) token = (
  λ h. inr ((any_allows_iff token (p ∷ ps)).0 h),
  λ m. elim m [ inl e ↦ cc | inr e ↦ (any_allows_iff token (p ∷ ps)).1 e ],
)
