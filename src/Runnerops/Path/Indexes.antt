-- ===== src/Runnerops/Path/Indexes.antt =====
-- Array indexes in paths: what "%s[%d]" prints (internal/controller/composite_render.go) is read
-- back by parsePath as the same index.
use doplane.Common.{
  ◌∙◌, append_assoc, append-nil, ℕ, zero, suc, ◌+◌, ◌-◌, ◌*◌, ◌/◌, ◌%◌, ◌≤◌, ◌<◌, ◌≡◌, refl, ap,
  Text, true, false, some, List, [], ◌∷◌, ◌++◌, arith, ◌==◌, Bool-cases, inl, inr, ◌≢◌, ltb, All,
  IsDigit, decimal, decimal_from, decimal-IsDigit, decimal_ne_nil,
}
use doplane.Runnerops.Path.{
  append_segment, append_segments, append_key_segment, IsAddressable, key, Segment, index, ok,
  cut_at, pos, digits_value, magnitude, atoi, int_max, parse_bracket, parse_segment, parse_path,
  quote, append_index_segment,
}
use doplane.Runnerops.Path.RoundTrip.{
  parse_path-append_key_segment, parse_path-append_key_segment_root, parse_path-append,
  parse_from_last,
}

digits_value-snoc :
    (n : ℕ) (s : Text) (c m : ℕ)
    → digits_value n s ≡ some m
    → IsDigit c
    → digits_value n (s ++ c ∷ []) ≡ some (10 * m + (c - b'0'))
unfolding digits_value
digits_value-snoc n [] c m h d = ground arith
digits_value-snoc n (b ∷ s) c m h d = ground (arith, digits_value-snoc (10 * n + (b - 48)) s c m)

digits_value_single : (n : ℕ) → ltb n 10 ≡ true → digits_value 0 ((n + b'0') ∷ []) ≡ some n
unfolding digits_value
digits_value_single n e = ground arith

digits_value-decimal_from : (f n : ℕ) → n < f → digits_value 0 (decimal_from f n) ≡ some n
unfolding decimal_from
digits_value-decimal_from zero n h = elim h [ ]
digits_value-decimal_from (suc f) n h = elim (Bool-cases (ltb n 10)) [
  | inl e ↦ rw e (digits_value_single n e)
  | inr e ↦
      rw
        (
          e,
          digits_value-snoc 0 (decimal_from f (n / 10)) (n % 10 + 48) (n / 10)
              (digits_value-decimal_from f (n / 10) (ground arith)) (omega arith),
        )
        (ap some (omega arith))
]

cut_at-decimal : (s : Text) → All IsDigit s → cut_at b']' (s ++ b']' ∷ []) ≡ some (s, [])
unfolding cut_at
cut_at-decimal [] h = refl
cut_at-decimal (c ∷ s) (d, h) = ground (arith, cut_at-decimal s h)

atoi_digits :
    (s : Text) (n : ℕ)
    → All IsDigit s
    → s ≢ []
    → digits_value 0 s ≡ some n
    → n ≤ int_max
    → atoi s ≡ some (pos n)
unfolding atoi magnitude
atoi_digits [] n d e h b = absurd (e refl)
atoi_digits (c ∷ s) n d e h b = ground arith

-- The bracketed index is one segment.
parse_segment_index :
    (s : Text) (n : ℕ)
    → All IsDigit s
    → atoi s ≡ some (pos n)
    → parse_segment (b'[' ∷ (s ++ b']' ∷ [])) ≡ ok (index n, [])
unfolding parse_segment parse_bracket
parse_segment_index [] n d h = unfold atoi in cc
parse_segment_index (c ∷ s) n (dc, d) h =
    let e : (c == quote) ≡ false = ground arith in rw e (rw (cut_at-decimal (c ∷ s) (dc, d)) (rw h))

atoi-decimal : (n : ℕ) → n ≤ int_max → atoi (decimal n) ≡ some (pos n)
atoi-decimal n b =
    atoi_digits (decimal n) n (decimal-IsDigit n) (decimal_ne_nil n)
      (unfold decimal in digits_value-decimal_from (suc n) n (omega arith)) b

decimal_tail : (s : Text) → (d : ℕ) × (r : Text) × (s ++ b']' ∷ [] ≡ d ∷ r)
decimal_tail [] = (b']', [], refl)
decimal_tail (c ∷ s) = (c, s ++ b']' ∷ [], refl)

-- An index appended to a path that parses is the last segment of the new path.
pub parse_path-append_index_segment :
    (path : Text) (i : ℕ) {segs : List Segment}
    → i ≤ int_max
    → parse_path path ≡ ok segs
    → parse_path (append_index_segment path i) ≡ ok (segs ++ index i ∷ [])
unfolding append_index_segment
parse_path-append_index_segment path i b h =
    let (d, r, e) = decimal_tail (decimal i) in
    rw e (
      parse_path-append path b'[' d r (index i) (inr refl) h (
        parse_from_last false b'[' (d ∷ r) (b'[' ∷ d ∷ r) (index i) refl
          (rw (← e) (parse_segment_index (decimal i) i (decimal-IsDigit i) (atoi-decimal i b)))))

parse_path-append_segment :
    (path : Text) (seg : Segment) {segs : List Segment}
    → IsAddressable seg
    → parse_path path ≡ ok segs
    → parse_path (append_segment path seg) ≡ ok (segs ++ seg ∷ [])
parse_path-append_segment path (key k) a h = parse_path-append_key_segment path k h
parse_path-append_segment path (index i) a h = parse_path-append_index_segment path i a h

parse_path-append_segments_from :
    (path : Text) (before segs : List Segment)
    → All IsAddressable segs
    → parse_path path ≡ ok before
    → parse_path (append_segments path segs) ≡ ok (before ++ segs)
unfolding append_segments
parse_path-append_segments_from path before [] a h = rw append-nil h
parse_path-append_segments_from path before (seg ∷ segs) (a, more) h =
    parse_path-append_segments_from (append_segment path seg) (before ++ seg ∷ []) segs more
      (parse_path-append_segment path seg a h)
    ∙ ap ok (append_assoc before (seg ∷ []) segs)

-- The path that is built by appending segments to a first key, whatever bytes the keys hold, parses
-- as exactly those segments, where each index fits Go's int.
pub parse_path-append_segments :
    (k : Text) (segs : List Segment)
    → All IsAddressable segs
    → parse_path (append_segments (append_key_segment [] k) segs) ≡ ok (key k ∷ segs)
parse_path-append_segments k segs a =
    parse_path-append_segments_from (append_key_segment [] k) (key k ∷ []) segs a
      (parse_path-append_key_segment_root k)
