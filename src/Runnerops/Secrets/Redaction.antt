-- ===== src/Runnerops/Secrets/Redaction.antt =====
-- What redaction leaves of a secret value (secretinput.go).
use doplane.Common.{
  ℕ, zero, suc, ◌-◌, ◌≡◌, refl, ◌≢◌, Text, bytes, true, false, List, [], ◌∷◌, ◌++◌, arith, length,
  All, Any, has_prefix, contains, replace_from, replace_all, Bool-cases, inl, inr, ◌⊎◌,
}
use doplane.Runnerops.Secrets.{redacted_mark, redact_string}

-- A byte that occurs nowhere in the text.
abbrev pub Lacks : ℕ → Text → Type 0
Lacks b [] = Unit
Lacks b (c ∷ s) = (c ≢ b) × Lacks b s

-- A value that cannot be confused with the mark: not empty, without '(' and ')', and no part of
-- "redacted".
pub record IsDistinct (v : Text) : Type 0 where
  pub nonempty : v ≢ []
  pub no_open : Lacks b'(' v
  pub no_close : Lacks b')' v
  pub not_in_mark : contains v (bytes "redacted") ≡ false

-- A value that starts before the byte that it lacks ends before it.
has_prefix-append :
    (v w : Text) (b : ℕ) (s : Text)
    → Lacks b v
    → has_prefix v (w ++ b ∷ s) ≡ true
    → has_prefix v w ≡ true
unfolding has_prefix
has_prefix-append [] w b s l h = refl
has_prefix-append (d ∷ v) [] b s l h = ground arith
has_prefix-append (d ∷ v) (c ∷ w) b s l h = ground (arith, has_prefix-append v w b s l.1)

not_at : (v : Text) (b : ℕ) (s : Text) → v ≢ [] → Lacks b v → has_prefix v (b ∷ s) ≡ false
unfolding has_prefix
not_at [] b s n l = absurd (n refl)
not_at (d ∷ v) b s n l = ground arith

contains-append :
    (v w : Text) (b : ℕ) (s : Text)
    → v ≢ []
    → Lacks b v
    → contains v (w ++ b ∷ s) ≡ true
    → (contains v w ≡ true) ⊎ (contains v s ≡ true)
unfolding contains
contains-append v [] b s n l h = inr (ground (arith, not_at v b s n l))
contains-append v (c ∷ w) b s n l h =
    ground (arith, has_prefix-append v (c ∷ w) b s l, contains-append v w b s n l)

pub contains_nil : (v : Text) → v ≢ [] → contains v [] ≡ false
unfolding contains has_prefix
contains_nil [] n = absurd (n refl)
contains_nil (d ∷ v) n = refl

-- Behind a mark nothing of the value can have begun before.
contains_behind_mark :
    (v s : Text) → IsDistinct v → contains v (redacted_mark ++ s) ≡ true → contains v s ≡ true
contains_behind_mark v s d h = elim (contains-append v [] b'(' _ d.nonempty d.no_open h) [
  | inl at_start ↦ cc (contains_nil v d.nonempty)
  | inr inside ↦ elim (contains-append v (bytes "redacted") b')' s d.nonempty d.no_close inside) [
    | inl in_mark ↦ cc (d.not_in_mark)
    | inr later ↦ later
  ]
]

-- A replaced text begins with the value only if the text did.
has_prefix-replace_from :
    (u v s : Text)
    → Lacks b'(' v
    → has_prefix v (replace_from u redacted_mark 0 s) ≡ true
    → has_prefix v s ≡ true
unfolding has_prefix replace_from
has_prefix-replace_from u [] s l h = refl
has_prefix-replace_from u (d ∷ v) [] l h = h
has_prefix-replace_from u (d ∷ v) (c ∷ s) l h = elim (Bool-cases (has_prefix u (c ∷ s))) [
  | inl e ↦ let h' = rw e at h in ground arith
  | inr e ↦ let h' = rw e at h in ground (arith, has_prefix-replace_from u v s l.1)
]

-- Replacing any value brings no other one into the text.
contains_split :
    (v : Text) (c : ℕ) (s : Text)
    → contains v (c ∷ s) ≡ true
    → (has_prefix v (c ∷ s) ≡ true) ⊎ (contains v s ≡ true)
unfolding contains
contains_split v c s h = ground arith

contains_start : (v s : Text) → has_prefix v s ≡ true → contains v s ≡ true
unfolding contains
contains_start v [] h = h
contains_start v (c ∷ s) h = ground arith

kept_prefix :
    (u v : Text) (c : ℕ) (s : Text)
    → has_prefix u (c ∷ s) ≡ false
    → has_prefix v (c ∷ replace_from u redacted_mark 0 s) ≡ true
    → has_prefix v (replace_from u redacted_mark 0 (c ∷ s)) ≡ true
unfolding replace_from
kept_prefix u v c s e h = rw e h

contains-cons : (v : Text) (c : ℕ) (s : Text) → contains v s ≡ true → contains v (c ∷ s) ≡ true
unfolding contains
contains-cons v c s h = ground arith

contains-replace_from :
    (u v : Text) (skip : ℕ) (s : Text)
    → IsDistinct v
    → contains v (replace_from u redacted_mark skip s) ≡ true
    → contains v s ≡ true
unfolding replace_from
contains-replace_from u v skip [] d h = h
contains-replace_from u v (suc skip) (c ∷ s) d h =
    contains-cons v c s (contains-replace_from u v skip s d h)
contains-replace_from u v zero (c ∷ s) d h = elim (Bool-cases (has_prefix u (c ∷ s))) [
  | inl e ↦ contains-cons v c s (
      contains-replace_from u v (length u - 1) s d
        (contains_behind_mark v (replace_from u redacted_mark (length u - 1) s) d (rw e at h)))
  | inr e ↦ elim (contains_split v c (replace_from u redacted_mark 0 s) (rw e at h)) [
    | inl begins ↦
        contains_start v (c ∷ s)
          (has_prefix-replace_from u v (c ∷ s) d.no_open (kept_prefix u v c s e begins))
    | inr later ↦ contains-cons v c s (contains-replace_from u v zero s d later)
  ]
]

-- No occurrence of a replaced value is left.
contains-replace_from_self :
    (v : Text) (skip : ℕ) (s : Text)
    → IsDistinct v
    → contains v (replace_from v redacted_mark skip s) ≡ true
    → ⊥
unfolding replace_from
contains-replace_from_self v skip [] d h = cc (contains_nil v d.nonempty)
contains-replace_from_self v (suc skip) (c ∷ s) d h = contains-replace_from_self v skip s d h
contains-replace_from_self v zero (c ∷ s) d h = elim (Bool-cases (has_prefix v (c ∷ s))) [
  | inl e ↦
      contains-replace_from_self v (length v - 1) s d
        (contains_behind_mark v (replace_from v redacted_mark (length v - 1) s) d (rw e at h))
  | inr e ↦ elim (contains_split v c (replace_from v redacted_mark 0 s) (rw e at h)) [
    | inl begins ↦
        let p : has_prefix v (c ∷ s) ≡ true =
          has_prefix-replace_from v v (c ∷ s) d.no_open (kept_prefix v v c s e begins) in
        cc
    | inr later ↦ contains-replace_from_self v zero s d later
  ]
]

-- Redaction with any values brings no distinct value into the text.
redact_string_keeps :
    (s : Text) (values : List Text) (v : Text)
    → IsDistinct v
    → contains v s ≡ false
    → contains v (redact_string s values) ≡ false
unfolding redact_string replace_all
redact_string_keeps s [] v d h = h
redact_string_keeps s (u ∷ values) v d h =
    redact_string_keeps (replace_from u redacted_mark 0 s) values v d
      (elim (Bool-cases (contains v (replace_from u redacted_mark 0 s))) [
        | inl e ↦ cc (contains-replace_from u v 0 s d e)
        | inr e ↦ e
      ])

-- Redaction leaves no occurrence of any of its values, whatever the other values are, where the value
-- is not empty, holds no parenthesis and does not occur in the word redacted.
pub contains-redact_string :
    (s : Text) (values : List Text) (v : Text)
    → IsDistinct v
    → Any (λ u. u ≡ v) values
    → contains v (redact_string s values) ≡ false
unfolding redact_string replace_all
contains-redact_string s [] v d m = absurd m
contains-redact_string s (u ∷ values) v d (inl e) = rw e (
    redact_string_keeps (replace_from v redacted_mark 0 s) values v d
      (elim (Bool-cases (contains v (replace_from v redacted_mark 0 s))) [
        | inl f ↦ absurd (contains-replace_from_self v 0 s d f)
        | inr f ↦ f
      ]))
contains-redact_string s (u ∷ values) v d (inr m) =
    contains-redact_string (replace_from u redacted_mark 0 s) values v d m

replace_from_absent :
    (v : Text) (s : Text) → contains v s ≡ false → replace_from v redacted_mark 0 s ≡ s
unfolding replace_from contains
replace_from_absent v [] h = refl
replace_from_absent v (c ∷ s) h = ground (arith, replace_from_absent v s)

-- A text that holds none of the values comes out as it was.
pub redact_string_absent :
    (s : Text) (values : List Text)
    → All (λ v. contains v s ≡ false) values
    → redact_string s values ≡ s
unfolding redact_string replace_all
redact_string_absent s [] a = refl
redact_string_absent s (v ∷ values) (h, a) =
    rw (replace_from_absent v s h) (redact_string_absent s values a)
