-- ===== src/Runnerops/Path/Extend.antt =====
-- Reading a longer text (path.go): what the parser read of a path it reads again when more
-- segments follow, and spare rounds change nothing.
use doplane.Common.{
  ℕ, zero, suc, ◌+◌, ◌≡◌, refl, Text, Bool, true, false, Option, none, some, List, [], ◌∷◌, ◌++◌,
  arith, ◌==◌, Bool-cases, ◌⊎◌, inl, inr,
}
use mathlib.Core.Path.{subst}
use native.Mathlib.Nat.{add-suc, suc-add}
use doplane.Runnerops.Path.{
  ℤ, pos, negsuc, index_segment, Segment, Parsed, ok, err, ◌>>=◌, push, parse_quoted, cut_at,
  close_quoted, close_index, parse_bracket, parse_bare, bare_segment, parse_segment, separator,
  parse_from, quote, atoi,
}

-- Where a step and what it hands over both succeed.
abbrev pub Succeeds {ℓ κ} : {A : Type ℓ} {B : Type κ} → Parsed A → (A → Parsed B) → B → Type (ℓ ⊔ κ)
Succeeds {A} step next out = (x : A) × (step ≡ ok x) × (next x ≡ ok out)

pub >>=-Succeeds {ℓ κ} :
    {A : Type ℓ} {B : Type κ} (step : Parsed A) (next : A → Parsed B) {out : B}
    → (step >>= next) ≡ ok out
    → Succeeds step next out
>>=-Succeeds (ok x) next e = (x, refl, e)
>>=-Succeeds (err reason) next e = cc

-- A text that can follow a segment: it begins with '.' or '['.
abbrev pub IsTail : Text → Type 0
IsTail [] = ⊥
IsTail (c ∷ s) = (c ≡ b'.') ⊎ (c ≡ b'[')

-- Reads that go on the same way when `u` follows.
abbrev Extends : Option (Text × Text) → Text → Option (Text × Text) → Type 0
Extends none u o = Unit
Extends (some r) u o = o ≡ some (r.0, r.1 ++ u)

push-Extends :
    (c : ℕ) (o : Option (Text × Text)) (u : Text) (o' : Option (Text × Text))
    → Extends o u o'
    → Extends (push c o) u (push c o')
push-Extends c none u o' h = tt
push-Extends c (some r) u o' h = rw h

parse_quoted-Extends : (s u : Text) → Extends (parse_quoted s) u (parse_quoted (s ++ u))
unfolding parse_quoted
parse_quoted-Extends [] u = tt
parse_quoted-Extends (c ∷ []) [] = ground arith
parse_quoted-Extends (c ∷ []) (d ∷ u) = ground arith
parse_quoted-Extends (c ∷ d ∷ s) u = ground (
  arith,
  push-Extends d (parse_quoted s) u (parse_quoted (s ++ u)) (parse_quoted-Extends s u),
  push-Extends c (parse_quoted (d ∷ s)) u (parse_quoted (d ∷ s ++ u))
      (parse_quoted-Extends (d ∷ s) u),
)

cut_at-Extends : (stop : ℕ) (s u : Text) → Extends (cut_at stop s) u (cut_at stop (s ++ u))
unfolding cut_at
cut_at-Extends stop [] u = tt
cut_at-Extends stop (c ∷ s) u =
    ground
      (arith, push-Extends c (cut_at stop s) u (cut_at stop (s ++ u)) (cut_at-Extends stop s u))

pub parse_bare-append :
    (s u : Text) → IsTail u → parse_bare (s ++ u) ≡ ((parse_bare s).0, (parse_bare s).1 ++ u)
unfolding parse_bare
parse_bare-append [] [] h = elim h [ ]
parse_bare-append [] (c ∷ u) h = ground arith
parse_bare-append (c ∷ s) u h = ground (arith, parse_bare-append s u h)

-- A parsed segment that stays the same when `u` follows.
abbrev SameSegment : Parsed (Segment × Text) → Text → Parsed (Segment × Text) → Type 0
SameSegment (err e) u o = Unit
SameSegment (ok r) u o = o ≡ ok (r.0, r.1 ++ u)

close_quoted-SameSegment :
    (o : Option (Text × Text)) (u : Text) (o' : Option (Text × Text))
    → Extends o u o'
    → SameSegment (close_quoted o) u (close_quoted o')
close_quoted-SameSegment none u o' h = tt
close_quoted-SameSegment (some (t, [])) u o' h = tt
close_quoted-SameSegment (some (t, c ∷ rest)) u o' h = rw h (ground arith)

index_segment-SameSegment :
    (z : Option ℤ) (rest u : Text)
    → SameSegment
        (index_segment z >>= λ seg. ok (seg, rest))
        u
        (index_segment z >>= λ seg. ok (seg, rest ++ u))
index_segment-SameSegment none rest u = tt
index_segment-SameSegment (some (pos n)) rest u = refl
index_segment-SameSegment (some (negsuc n)) rest u = tt

close_index-SameSegment :
    (o : Option (Text × Text)) (u : Text) (o' : Option (Text × Text))
    → Extends o u o'
    → SameSegment (close_index o) u (close_index o')
close_index-SameSegment none u o' h = tt
close_index-SameSegment (some (t, rest)) u o' h = rw h (index_segment-SameSegment (atoi t) rest u)

parse_bracket-SameSegment : (s u : Text) → SameSegment (parse_bracket s) u (parse_bracket (s ++ u))
unfolding parse_bracket cut_at
parse_bracket-SameSegment [] u = tt
parse_bracket-SameSegment (c ∷ s) u = elim (Bool-cases (c == quote)) [
  | inl q ↦ rw q (close_quoted-SameSegment (parse_quoted s) u _ (parse_quoted-Extends s u))
  | inr n ↦ rw n (close_index-SameSegment (cut_at b']' (c ∷ s)) u _ (cut_at-Extends b']' (c ∷ s) u))
]

bare_segment-SameSegment :
    (r : Text × Text) (u : Text) → SameSegment (bare_segment r) u (bare_segment (r.0, r.1 ++ u))
bare_segment-SameSegment ([], rest) u = tt
bare_segment-SameSegment (c ∷ t, rest) u = refl

parse_segment-SameSegment :
    (s u : Text) → IsTail u → SameSegment (parse_segment s) u (parse_segment (s ++ u))
unfolding parse_segment
parse_segment-SameSegment [] u h = tt
parse_segment-SameSegment (c ∷ s) u h = elim (Bool-cases (c == b'[')) [
  | inl q ↦ rw q (parse_bracket-SameSegment s u)
  | inr n ↦
      rw n (rw (parse_bare-append (c ∷ s) u h) (bare_segment-SameSegment (parse_bare (c ∷ s)) u))
]

-- What was parsed as a segment is parsed so again with more segments behind it.
pub parse_segment-append :
    (s u : Text) {seg : Segment} {rest : Text}
    → IsTail u
    → parse_segment s ≡ ok (seg, rest)
    → parse_segment (s ++ u) ≡ ok (seg, rest ++ u)
parse_segment-append s u {seg} {rest} h e =
    subst (λ p. SameSegment p u (parse_segment (s ++ u))) e (parse_segment-SameSegment s u h)

separator-append :
    (first : Bool) (c : ℕ) (s u : Text) {rest : Text}
    → separator first (c ∷ s) ≡ ok rest
    → separator first (c ∷ (s ++ u)) ≡ ok (rest ++ u)
separator-append true c s u h = ground arith
separator-append false c s u h = ground arith

-- A round of the loop that succeeded, taken apart, and put together.
record Round (f : ℕ) (first : Bool) (s : Text) (segs : List Segment) : Type 0 where
  mid : Text
  seg : Segment
  rest : Text
  later : List Segment
  separated : separator first s ≡ ok mid
  read : parse_segment mid ≡ ok (seg, rest)
  went_on : parse_from f false rest ≡ ok later
  result : segs ≡ seg ∷ later

Round-of :
    (f : ℕ) (first : Bool) (c : ℕ) (s : Text) {segs : List Segment}
    → parse_from (suc f) first (c ∷ s) ≡ ok segs
    → Round f first (c ∷ s) segs
unfolding parse_from
Round-of f first c s {segs} h =
    let (r, e, k) = >>=-Succeeds (separator first (c ∷ s) >>= parse_segment) _ h in
    let (mid, e', read) = >>=-Succeeds (separator first (c ∷ s)) parse_segment e in
    let (later, k', last) = >>=-Succeeds (parse_from f false r.1) _ k in
    record {
      mid = mid;
      seg = r.0;
      rest = r.1;
      later = later;
      separated = e';
      read = read;
      went_on = k';
      result = ground arith;
    }

of-Round :
    (f : ℕ) (first : Bool) (c : ℕ) (s mid : Text) (seg : Segment) (rest : Text)
    (later : List Segment)
    → separator first (c ∷ s) ≡ ok mid
    → parse_segment mid ≡ ok (seg, rest)
    → parse_from f false rest ≡ ok later
    → parse_from (suc f) first (c ∷ s) ≡ ok (seg ∷ later)
unfolding parse_from
of-Round f first c s mid seg rest later e k l = rw e (rw k (rw l))

-- Spare rounds change nothing.
pub parse_from_spare :
    (k f : ℕ) (first : Bool) (s : Text) {segs : List Segment}
    → parse_from f first s ≡ ok segs
    → parse_from (k + f) first s ≡ ok segs
parse_from_spare k zero first s h = unfold parse_from in cc
parse_from_spare k (suc f) first [] h = rw add-suc (unfold parse_from in h)
parse_from_spare k (suc f) first (c ∷ s) h =
    let r = Round-of f first c s h in
    rw (add-suc, r.result)
      (of-Round (k + f) first c s r.mid r.seg r.rest r.later r.separated r.read
        (parse_from_spare k f false r.rest r.went_on))

parse_from_end : (f : ℕ) {segs : List Segment} → parse_from (suc f) false [] ≡ ok segs → segs ≡ []
unfolding parse_from
parse_from_end f h = ground arith

pub parse_from-append :
    (f g : ℕ) (first : Bool) (s u : Text) {segs tail : List Segment}
    → IsTail u
    → parse_from f first s ≡ ok segs
    → parse_from g false u ≡ ok tail
    → parse_from (f + g) first (s ++ u) ≡ ok (segs ++ tail)
parse_from-append zero g first s u h p q = unfold parse_from in cc
parse_from-append (suc f) g true [] u h p q = unfold parse_from in cc
parse_from-append (suc f) g false [] u h p q =
    rw (parse_from_end f p) (parse_from_spare (suc f) g false u q)
parse_from-append (suc f) g first (c ∷ s) u h p q =
    let r = Round-of f first c s p in
    rw (suc-add, r.result)
      (of-Round (f + g) first c (s ++ u) (r.mid ++ u) r.seg (r.rest ++ u) _
        (separator-append first c s u r.separated) (parse_segment-append r.mid u h r.read)
        (parse_from-append f g false r.rest u h r.went_on q))
