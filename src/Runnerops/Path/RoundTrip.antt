-- ===== src/Runnerops/Path/RoundTrip.antt =====
-- Building a path and reading it back (path.go): AppendKeySegment against parsePath.
use doplane.Common.{
  ℕ, suc, ◌+◌, ◌≡◌, refl, Text, Bool, true, false, ◌&&◌, ◌||◌, not, some, List, [], ◌∷◌, ◌++◌,
  arith, ◌==◌, Bool-cases, if◌then◌else◌, inl, inr, length, length-append,
}
use doplane.Runnerops.Path.{
  Segment, key, ok, push, parse_quoted, parse_bracket, parse_bare, parse_segment, separator,
  parse_from, parse_path, quote, backslash, has_metacharacter, replace_byte, escape,
  append_key_segment, is_empty,
}
use native.Mathlib.Nat.{suc-add}
use doplane.Runnerops.Path.Extend.{IsTail, parse_from_spare, parse_from-append}

escape-cons :
    (c : ℕ) (k : Text)
    → escape (c ∷ k)
      ≡ (if c == quote || c == backslash then backslash ∷ c ∷ escape k else c ∷ escape k)
unfolding escape replace_byte
escape-cons c k = ground arith

parse_quoted_plain :
    (c : ℕ) (s : Text)
    → (c == quote || c == backslash) ≡ false
    → parse_quoted (c ∷ s) ≡ push c (parse_quoted s)
unfolding parse_quoted
parse_quoted_plain c [] h = ground arith
parse_quoted_plain c (d ∷ s) h = ground arith

parse_quoted_escaped :
    (c : ℕ) (s : Text) → parse_quoted (backslash ∷ c ∷ s) ≡ push c (parse_quoted s)
unfolding parse_quoted
parse_quoted_escaped c s = refl

parse_quoted_close : (c : ℕ) (s : Text) → parse_quoted (quote ∷ c ∷ s) ≡ some ([], c ∷ s)
unfolding parse_quoted
parse_quoted_close c s = refl

-- Any key comes back out of its quoted form.
parse_quoted-escape :
    (k : Text) (c : ℕ) (s : Text) → parse_quoted (escape k ++ quote ∷ c ∷ s) ≡ some (k, c ∷ s)
parse_quoted-escape [] c s = unfold escape replace_byte in parse_quoted_close c s
parse_quoted-escape (b ∷ k) c s = elim (Bool-cases (b == quote || b == backslash)) [
  | inl e ↦ rw (escape-cons b k, e, parse_quoted_escaped, parse_quoted-escape k c s)
  | inr e ↦
      rw (escape-cons b k, e)
        (rw (parse_quoted_plain b (escape k ++ quote ∷ c ∷ s) e, parse_quoted-escape k c s))
]

parse_bare_key : (k : Text) → has_metacharacter k ≡ false → parse_bare k ≡ (k, [])
unfolding parse_bare has_metacharacter
parse_bare_key [] h = refl
parse_bare_key (c ∷ k) h = ground (arith, parse_bare_key k)

not_bracket : (c : ℕ) (k : Text) → has_metacharacter (c ∷ k) ≡ false → (c == b'[') ≡ false
unfolding has_metacharacter
not_bracket c k h = ground arith

-- A key that needs no quotes, read as a path's segment.
parse_segment_plain :
    (c : ℕ) (k : Text)
    → has_metacharacter (c ∷ k) ≡ false
    → parse_segment (c ∷ k) ≡ ok (key (c ∷ k), [])
unfolding parse_segment
parse_segment_plain c k h = rw (not_bracket c k h) (rw (parse_bare_key (c ∷ k) h))

parse_segment_quoted :
    (k : Text) → parse_segment (b'[' ∷ quote ∷ (escape k ++ quote ∷ b']' ∷ [])) ≡ ok (key k, [])
unfolding parse_segment parse_bracket
parse_segment_quoted k = rw (parse_quoted-escape k b']' [])

-- One segment that ends the path, behind a separator or at the start.
pub parse_from_last :
    (first : Bool) (c : ℕ) (s mid : Text) (seg : Segment)
    → separator first (c ∷ s) ≡ ok mid
    → parse_segment mid ≡ ok (seg, [])
    → parse_from 2 first (c ∷ s) ≡ ok (seg ∷ [])
unfolding parse_from
parse_from_last first c s mid seg e h = rw e (rw h)

spare_rounds :
    (n : ℕ) (first : Bool) (s : Text) {segs : List Segment}
    → parse_from 2 first s ≡ ok segs
    → parse_from (suc (suc n)) first s ≡ ok segs
spare_rounds n first s h =
    let e : n + 2 ≡ suc (suc n) = omega arith in rw (← e) (parse_from_spare n 2 first s h)

-- A path and a text that parses as one more segment.
pub parse_path-append :
    (path : Text) (c d : ℕ) (s : Text) (seg : Segment) {segs : List Segment}
    → IsTail (c ∷ d ∷ s)
    → parse_path path ≡ ok segs
    → parse_from 2 false (c ∷ d ∷ s) ≡ ok (seg ∷ [])
    → parse_path (path ++ c ∷ d ∷ s) ≡ ok (segs ++ seg ∷ [])
unfolding parse_path
parse_path-append path c d s seg t h k =
    rw (length-append path (c ∷ d ∷ s), ← suc-add)
      (parse_from-append (suc (length path)) (suc (suc (length s))) true path (c ∷ d ∷ s) t h
        (spare_rounds (length s) false (c ∷ d ∷ s) k))

needs_no_quotes : Text → Bool
needs_no_quotes k = not (is_empty k) && not (has_metacharacter k)

append_key_segment_cases :
    (path k : Text)
    → append_key_segment path k ≡ (
        if needs_no_quotes k
        then (if is_empty path then k else path ++ b'.' ∷ k)
        else path ++ b'[' ∷ quote ∷ (escape k ++ quote ∷ b']' ∷ []))
unfolding append_key_segment needs_no_quotes
append_key_segment_cases path k = refl

parse_last_key :
    (path k : Text) {segs : List Segment}
    → needs_no_quotes k ≡ true
    → parse_path path ≡ ok segs
    → parse_path (path ++ b'.' ∷ k) ≡ ok (segs ++ key k ∷ [])
unfolding needs_no_quotes
parse_last_key path [] q h = cc
parse_last_key path (c ∷ k) q h = parse_path-append path b'.' c k (key (c ∷ k)) (inl refl) h (
    parse_from_last false b'.' (c ∷ k) (c ∷ k) (key (c ∷ k)) refl
      (parse_segment_plain c k (ground arith)))

parse_last_quoted :
    (path k : Text) {segs : List Segment}
    → parse_path path ≡ ok segs
    → parse_path (path ++ b'[' ∷ quote ∷ (escape k ++ quote ∷ b']' ∷ [])) ≡ ok (segs ++ key k ∷ [])
parse_last_quoted path k h =
    parse_path-append path b'[' quote _ (key k) (inr refl) h
      (parse_from_last false b'[' _ _ (key k) refl (parse_segment_quoted k))

path_nonempty :
    (path : Text) {segs : List Segment} → parse_path path ≡ ok segs → is_empty path ≡ false
unfolding parse_path parse_from
path_nonempty [] h = cc
path_nonempty (c ∷ s) h = refl

-- A key appended to a path that parses is the last segment of the new path, whatever bytes the key
-- holds, and the segments before it stay as they were.
pub parse_path-append_key_segment :
    (path k : Text) {segs : List Segment}
    → parse_path path ≡ ok segs
    → parse_path (append_key_segment path k) ≡ ok (segs ++ key k ∷ [])
parse_path-append_key_segment path k h =
    rw (append_key_segment_cases path k) (elim (Bool-cases (needs_no_quotes k)) [
      | inl q ↦ rw (q, path_nonempty path h) (parse_last_key path k q h)
      | inr q ↦ rw q (parse_last_quoted path k h)
    ])

parse_path_single :
    (c : ℕ) (s : Text) (seg : Segment)
    → parse_segment (c ∷ s) ≡ ok (seg, [])
    → parse_path (c ∷ s) ≡ ok (seg ∷ [])
unfolding parse_path
parse_path_single c s seg h =
    spare_rounds (length s) true (c ∷ s) (parse_from_last true c s (c ∷ s) seg refl h)

parse_first_plain : (k : Text) → needs_no_quotes k ≡ true → parse_path k ≡ ok (key k ∷ [])
unfolding needs_no_quotes
parse_first_plain [] q = cc
parse_first_plain (c ∷ k) q =
    parse_path_single c k (key (c ∷ k)) (parse_segment_plain c k (ground arith))

-- A key at the root is the only segment of its path.
pub parse_path-append_key_segment_root :
    (k : Text) → parse_path (append_key_segment [] k) ≡ ok (key k ∷ [])
parse_path-append_key_segment_root k =
    rw (append_key_segment_cases [] k) (elim (Bool-cases (needs_no_quotes k)) [
      | inl q ↦ rw q (parse_first_plain k q)
      | inr q ↦ rw q (parse_path_single b'[' _ (key k) (parse_segment_quoted k))
    ])
