-- ===== src/Runnerops/Secrets/Guard.antt =====
-- Which provider-assigned ids pass `guardSecretID` (secretinput.go).
use doplane.Common.{
  ◌≤◌, ◌≡◌, refl, sym, ◌⊎◌, true, ◌≢◌, Text, text_eq, text_eq_iff, text_eq_refl, false, List, [],
  ◌∷◌, leb, arith, length, All, Any, contains, Bool-cases, inl, inr,
}
use mathlib.Core.Path.{subst}
use doplane.Runnerops.Path.{is_empty}
use doplane.Runnerops.Spec.{Result}
use doplane.Runnerops.Secrets.{
  redact_string, min_guarded_secret_len, guarded, no_values, id_embeds_secret, guard_secret_id,
}
use doplane.Runnerops.Secrets.Redaction.{
  IsDistinct, contains-redact_string, redact_string_absent, contains_nil,
}

Any-guarded :
    (values : List Text) (v : Text)
    → Any (λ u. u ≡ v) values
    → min_guarded_secret_len ≤ length v
    → Any (λ u. u ≡ v) (guarded values)
unfolding guarded
Any-guarded [] v m b = m
Any-guarded (u ∷ values) v (inl e) b =
    let long : leb min_guarded_secret_len (length u) ≡ true = rw e (ground arith) in rw long (inl e)
Any-guarded (u ∷ values) v (inr m) b = elim (Bool-cases (leb min_guarded_secret_len (length u))) [
  | inl e ↦ rw e (inr (Any-guarded values v m b))
  | inr e ↦ rw e (Any-guarded values v m b)
]

no_values_of : (values : List Text) (v : Text) → Any (λ u. u ≡ v) values → no_values values ≡ false
no_values_of [] v m = absurd m
no_values_of (u ∷ values) v m = refl

redaction_shows :
    (id : Text) (values : List Text) (v : Text)
    → IsDistinct v
    → Any (λ u. u ≡ v) values
    → contains v id ≡ true
    → text_eq (redact_string id values) id ≡ false
redaction_shows id values v d m c = elim (Bool-cases (text_eq (redact_string id values) id)) [
  | inl same ↦
      let gone : contains v id ≡ false =
        rw ((text_eq_iff (redact_string id values) id).0 same) at
          (contains-redact_string id values v d m) in
      cc
  | inr differ ↦ differ
]

is_empty_of : (id v : Text) → v ≢ [] → contains v id ≡ true → is_empty id ≡ false
is_empty_of [] v n c = cc (contains_nil v n)
is_empty_of (b ∷ id) v n c = refl

-- An id in which a distinct secret value of at least six bytes occurs is refused.
pub guard_secret_id_refuses :
    (res : Result) (values : List Text) (v : Text)
    → IsDistinct v
    → Any (λ u. u ≡ v) values
    → min_guarded_secret_len ≤ length v
    → contains v res.id ≡ true
    → guard_secret_id res values ≡ id_embeds_secret
unfolding guard_secret_id
guard_secret_id_refuses res values v d m b c =
    let g = Any-guarded values v m b in
    rw (
      is_empty_of res.id v d.nonempty c,
      no_values_of (guarded values) v g,
      redaction_shows res.id (guarded values) v d g c,
    )

-- A value that must not occur in an id: it has at least six bytes.
abbrev pub Embeds : Text → Text → Type 0
Embeds id v = (6 ≤ length v) × (contains v id ≡ true)

-- A value that does no harm in an id: it is short, or does not occur there.
abbrev pub Spares : Text → Text → Type 0
Spares id v = (length v ≤ 5) ⊎ (contains v id ≡ false)

All-guarded :
    (id : Text) (values : List Text)
    → All (Spares id) values
    → All (λ v. contains v id ≡ false) (guarded values)
unfolding guarded
All-guarded id [] a = tt
All-guarded id (v ∷ values) (s, a) = elim (Bool-cases (leb min_guarded_secret_len (length v))) [
  | inl e ↦ rw e (long e s, All-guarded id values a)
  | inr e ↦ rw e (All-guarded id values a)
]
  where
    long : leb min_guarded_secret_len (length v) ≡ true → Spares id v → contains v id ≡ false
    long e (inl short) = ground (arith, e, short)
    long e (inr absent) = absent

-- A result whose id spares all values passes as it is.
guard_secret_id-Spares :
    (res : Result) (values : List Text)
    → All (Spares res.id) values
    → guard_secret_id res values ≡ res
unfolding guard_secret_id
guard_secret_id-Spares res values a =
    let same : text_eq (redact_string res.id (guarded values)) res.id ≡ true =
      rw (redact_string_absent res.id (guarded values) (All-guarded res.id values a))
        (text_eq_refl res.id) in
    ground arith

-- One value does harm, or none.
Embeds-cases :
    (id : Text) (values : List Text)
    → All IsDistinct values
    → ((v : Text) × (Embeds id v × IsDistinct v × Any (λ u. u ≡ v) values)) ⊎ All (Spares id) values
Embeds-cases id [] d = inr tt
Embeds-cases id (v ∷ values) (d, ds) = elim (Embeds-cases id values ds) [
  | inl (u, (e, c, m)) ↦ inl (u, (e, c, inr m))
  | inr a ↦ elim (Bool-cases (contains v id)) [
    | inr n ↦ inr (inr n, a)
    | inl c ↦ elim (Bool-cases (leb 6 (length v))) [
      | inl e ↦ inl (v, ((ground (arith, e), c), d, inl refl))
      | inr e ↦ inr (inl (ground (arith, e)), a)
    ]
  ]
]

-- The guard on ids, for secret values that cannot be confused with the mark. Either one of at least
-- six bytes occurs in the id, and the outcome is the refusal, which carries neither the id nor any
-- recorded state; or every value is shorter or absent from the id, and the result passes as it is.
pub guard_secret_id_lem :
    (res : Result) (values : List Text)
    → All IsDistinct values
    → (Any (Embeds res.id) values × (guard_secret_id res values ≡ id_embeds_secret))
      ⊎ (All (Spares res.id) values × (guard_secret_id res values ≡ res))
guard_secret_id_lem res values ds = elim (Embeds-cases res.id values ds) [
  | inl (v, (e, d, m)) ↦
      inl (Any-of (Embeds res.id) v values e m, guard_secret_id_refuses res values v d m e.0 e.1)
  | inr a ↦ inr (a, guard_secret_id-Spares res values a)
]
  where
    Any-of : (P : Text → Type 0) (v : Text) (vs : List Text) → P v → Any (λ u. u ≡ v) vs → Any P vs
    Any-of P v [] p m = absurd m
    Any-of P v (u ∷ vs) p (inl e) = inl (subst P (sym e) p)
    Any-of P v (u ∷ vs) p (inr m) = inr (Any-of P v vs p m)
