-- ===== src/Runnerops/Path/Total.antt =====
-- parsePath always comes to an end (path.go): its loop takes at least a byte in every round.
use doplane.Common.{
  inl, inr, ◌⊎◌, ℕ, zero, suc, ◌+◌, ◌≤◌, ◌<◌, ◌≡◌, refl, ◌≢◌, Text, Bool, true, false, Option, none,
  some, [], ◌∷◌, ◌==◌, arith, Bool-cases, length,
}
use mathlib.Core.Path.{subst}
use doplane.Runnerops.Path.Extend.{>>=-Succeeds}
use doplane.Runnerops.Path.{
  PathError, Segment, ℤ, Parsed, ok, err, out_of_fuel, push, parse_quoted, cut_at, close_quoted,
  close_index, index_segment, atoi, parse_bracket, parse_bare, bare_segment, parse_segment,
  separator, parse_from, parse_path, quote, pos, negsuc, ◌>>=◌,
}

-- A read that leaves less than `n` bytes, or fails for a reason in the path.
abbrev Shortens : ℕ → Option (Text × Text) → Type 0
Shortens n none = Unit
Shortens n (some r) = length r.1 < n

push-Shortens :
    (n m c : ℕ) (o : Option (Text × Text)) → n ≤ m → Shortens n o → Shortens m (push c o)
push-Shortens n m c none h s = tt
push-Shortens n m c (some r) h s = omega arith

parse_quoted-Shortens : (s : Text) → Shortens (length s) (parse_quoted s)
unfolding parse_quoted
parse_quoted-Shortens [] = tt
parse_quoted-Shortens (c ∷ []) = ground arith
parse_quoted-Shortens (c ∷ d ∷ s) = ground (
  arith,
  push-Shortens (length s) (suc (suc (length s))) d (parse_quoted s) (omega arith)
      (parse_quoted-Shortens s),
  push-Shortens (suc (length s)) (suc (suc (length s))) c (parse_quoted (d ∷ s)) (omega arith)
      (parse_quoted-Shortens (d ∷ s)),
)

cut_at-Shortens : (stop : ℕ) (s : Text) → Shortens (length s) (cut_at stop s)
unfolding cut_at
cut_at-Shortens stop [] = tt
cut_at-Shortens stop (c ∷ s) = ground (
  arith,
  push-Shortens (length s) (suc (length s)) c (cut_at stop s) (omega arith)
      (cut_at-Shortens stop s),
)

abbrev Advances : ℕ → Parsed (Segment × Text) → Type 0
Advances n (ok r) = length r.1 < n
Advances n (err e) = e ≢ out_of_fuel

close_quoted-Advances :
    (n : ℕ) (o : Option (Text × Text)) → Shortens n o → Advances n (close_quoted o)
close_quoted-Advances n none h = ground arith
close_quoted-Advances n (some (t, [])) h = ground arith
close_quoted-Advances n (some (t, c ∷ rest)) h = ground arith

index_segment-Advances :
    (n : ℕ) (z : Option ℤ) (rest : Text)
    → length rest < n
    → Advances n (index_segment z >>= λ seg. ok (seg, rest))
index_segment-Advances n none rest h = ground arith
index_segment-Advances n (some (pos k)) rest h = h
index_segment-Advances n (some (negsuc k)) rest h = ground arith

close_index-Advances :
    (n : ℕ) (o : Option (Text × Text)) → Shortens n o → Advances n (close_index o)
close_index-Advances n none h = ground arith
close_index-Advances n (some (t, rest)) h = index_segment-Advances n (atoi t) rest h

weaken : (n m : ℕ) (r : Parsed (Segment × Text)) → n ≤ m → Advances n r → Advances m r
weaken n m (ok r) h a = omega arith
weaken n m (err e) h a = a

parse_bracket-Advances : (s : Text) → Advances (suc (length s)) (parse_bracket s)
unfolding parse_bracket
parse_bracket-Advances [] = close_index-Advances 1 (cut_at b']' []) (unfold cut_at in tt)
parse_bracket-Advances (c ∷ s) = elim (Bool-cases (c == quote)) [
  | inl e ↦ rw e (
      weaken (length s) _ (close_quoted (parse_quoted s)) (omega arith)
        (close_quoted-Advances (length s) (parse_quoted s) (parse_quoted-Shortens s)))
  | inr e ↦ rw e (
      weaken (suc (length s)) _ (close_index (cut_at b']' (c ∷ s))) (omega arith)
        (close_index-Advances (suc (length s)) _ (cut_at-Shortens b']' (c ∷ s))))
]

parse_bare-le : (s : Text) → length (parse_bare s).0 + length (parse_bare s).1 ≡ length s
unfolding parse_bare
parse_bare-le [] = omega arith
parse_bare-le (c ∷ s) = ground (arith, parse_bare-le s)

bare_segment-Advances :
    (n : ℕ) (r : Text × Text) → length r.0 + length r.1 ≡ n → Advances n (bare_segment r)
bare_segment-Advances n ([], rest) h = ground arith
bare_segment-Advances n (c ∷ t, rest) h = omega arith

parse_segment-Advances : (s : Text) → Advances (length s) (parse_segment s)
unfolding parse_segment
parse_segment-Advances [] = ground arith
parse_segment-Advances (c ∷ s) = elim (Bool-cases (c == b'[')) [
  | inl e ↦ rw e (parse_bracket-Advances s)
  | inr e ↦ rw e (bare_segment-Advances _ (parse_bare (c ∷ s)) (parse_bare-le (c ∷ s)))
]

separator_le :
    (first : Bool) (s : Text) {mid : Text} → separator first s ≡ ok mid → length mid ≤ length s
separator_le true s h = ground arith
separator_le false [] h = ground arith
separator_le false (c ∷ s) h = ground arith

separator-ne-out_of_fuel : (first : Bool) (s : Text) → separator first s ≢ err out_of_fuel
separator-ne-out_of_fuel true s h = cc
separator-ne-out_of_fuel false [] h = cc
separator-ne-out_of_fuel false (c ∷ s) h = ground arith

>>=-eq-err {ℓ κ} :
    {A : Type ℓ} {B : Type κ} (m : Parsed A) (f : A → Parsed B) {e : PathError}
    → (m >>= f) ≡ err e
    → (m ≡ err e) ⊎ ((a : A) × (m ≡ ok a) × (f a ≡ err e))
>>=-eq-err (ok a) f h = inr (a, refl, h)
>>=-eq-err (err e) f h = inl (cc)

Advances-of :
    (n : ℕ) {r : Parsed (Segment × Text)} {s : Parsed (Segment × Text)}
    → r ≡ s
    → Advances n r
    → Advances n s
Advances-of n e a = subst (Advances n) e a

-- With more rounds than bytes the loop ends by itself.
rest_shorter :
    (first : Bool) (c : ℕ) (s : Text) (r : Segment × Text) {f : ℕ}
    → (separator first (c ∷ s) >>= parse_segment) ≡ ok r
    → length {A = ℕ} (c ∷ s) < suc f
    → length r.1 < f
rest_shorter first c s r e b =
    let (mid, p, q) = >>=-Succeeds (separator first (c ∷ s)) parse_segment e in
    let short : length r.1 < length mid = Advances-of (length mid) q (parse_segment-Advances mid) in
    omega (arith, separator_le first (c ∷ s) p)

parse_from-ne-out_of_fuel :
    (f : ℕ) (first : Bool) (s : Text) → length s < f → parse_from f first s ≢ err out_of_fuel
unfolding parse_from
parse_from-ne-out_of_fuel zero first s b h = elim b [ ]
parse_from-ne-out_of_fuel (suc f) true [] b h = cc
parse_from-ne-out_of_fuel (suc f) false [] b h = cc
parse_from-ne-out_of_fuel (suc f) first (c ∷ s) b h =
    elim (>>=-eq-err (separator first (c ∷ s) >>= parse_segment) _ h) [
      | inl e ↦ elim (>>=-eq-err (separator first (c ∷ s)) parse_segment e) [
        | inl e' ↦ separator-ne-out_of_fuel first (c ∷ s) e'
        | inr (mid, p, e') ↦ Advances-of (length mid) e' (parse_segment-Advances mid) refl
      ]
      | inr (r, e, e') ↦ elim (>>=-eq-err (parse_from f false r.1) _ e') [
        | inl k ↦ parse_from-ne-out_of_fuel f false r.1 (rest_shorter first c s r e b) k
        | inr (segs, p, k) ↦ cc
      ]
    ]

-- The rounds that parsePath is given are enough for every path.
pub parse_path-ne-out_of_fuel : (path : Text) → parse_path path ≢ err out_of_fuel
unfolding parse_path
parse_path-ne-out_of_fuel path =
    parse_from-ne-out_of_fuel (suc (length path)) true path (omega arith)

-- A path that parses has a segment.
parse_from-ne-nil : (f : ℕ) (s : Text) → parse_from f true s ≢ ok []
unfolding parse_from
parse_from-ne-nil zero s h = cc
parse_from-ne-nil (suc f) [] h = cc
parse_from-ne-nil (suc f) (c ∷ s) h =
    let (r, e, k) = >>=-Succeeds (ok (c ∷ s) >>= parse_segment) _ h in
    let (later, k', last) = >>=-Succeeds (parse_from f false r.1) _ k in ground arith

pub parse_path-ne-nil : (path : Text) → parse_path path ≢ ok []
unfolding parse_path
parse_path-ne-nil path h = parse_from-ne-nil (suc (length path)) path h
