-- ===== src/Runnerops/Path.antt =====
-- internal/runnerops/path.go: dot paths. `parsePath` with `parseBracket`, and `AppendKeySegment`.
-- A path is read from the left: what the source keeps as the position `i` is here the rest of the
-- text from `i` on. An error is its kind; the source's message also quotes the path.
pub mod Extend
pub mod RoundTrip
pub mod Indexes
pub mod Total
pub mod Tests
pub mod Access
use doplane.Common.{
  ℕ, zero, suc, ◌≤◌, ◌+◌, ◌-◌, ◌*◌, Text, Bool, true, false, ◌&&◌, ◌||◌, not, Option, none, some,
  List, [], ◌∷◌, ◌++◌, length, leb, ◌==◌, decimal, if◌then◌else◌,
}

-- `pathSegment`; `isIdx` tells the two apart.
pub data Segment : Type 0 where
  key : Text → Segment
  index : ℕ → Segment

pub data PathError : Type 0 where
  unexpected_character ends_with_separator empty_segment empty_path : PathError
  unterminated_quote missing_bracket unbalanced_brackets invalid_index : PathError
  out_of_fuel : PathError

pub data Parsed {ℓ} (A : Type ℓ) : Type ℓ where
  ok : A → Parsed A
  err : PathError → Parsed A

infixl 5 ◌>>=◌
abbrev pub ◌>>=◌ {ℓ κ} : {In : Type ℓ} {Out : Type κ} → Parsed In → (In → Parsed Out) → Parsed Out
ok x >>= next = next x
err reason >>= next = err reason

-- The integers that strconv.Atoi returns.
pub data ℤ : Type 0 where
  pos : ℕ → ℤ
  negsuc : ℕ → ℤ

-- strconv.Atoi on a 64-bit platform: an optional sign and decimal digits, in the range of int64.
unfoldable pub digits_value : ℕ → Text → Option ℕ
digits_value n [] = some n
digits_value n (c ∷ s) =
    let rest = digits_value (10 * n + (c - b'0')) s in
    if leb b'0' c && leb c b'9' then rest else none

unfoldable pub magnitude : Text → Option ℕ
magnitude [] = none
magnitude (c ∷ s) = digits_value 0 (c ∷ s)

abbrev pub negate : ℕ → ℤ
negate zero = pos 0
negate (suc n) = negsuc n

abbrev pub int_max : ℕ
int_max = 9223372036854775807

abbrev pub in_range : ℕ → (ℕ → ℤ) → Option ℕ → Option ℤ
in_range most sign none = none
in_range most sign (some n) = if leb n most then some (sign n) else none

unfoldable pub atoi : Text → Option ℤ
atoi [] = none
atoi (c ∷ s) =
    if c == b'-'
    then in_range (int_max + 1) negate (magnitude s)
    else if c == b'+'
    then in_range int_max pos (magnitude s)
    else in_range int_max pos (magnitude (c ∷ s))

abbrev pub quote : ℕ
quote = 34

abbrev pub backslash : ℕ
backslash = 92

-- `b.WriteByte(c)` before the bytes still to be read.
abbrev pub push : ℕ → Option (Text × Text) → Option (Text × Text)
push b none = none
push b (some (t, rest)) = some (b ∷ t, rest)

-- The loop of `parseBracket` over a quoted key, up to and past its closing '"'; a '\' that is not
-- the path's last byte takes the next byte literally. `none` is an unterminated quote.
unfoldable pub parse_quoted : Text → Option (Text × Text)
parse_quoted [] = none
parse_quoted (c ∷ []) = if c == quote then some ([], []) else none
parse_quoted (c ∷ d ∷ s) =
    let escaped = push d (parse_quoted s) in
    let plain = push c (parse_quoted (d ∷ s)) in
    if c == quote then some ([], d ∷ s) else if c == backslash then escaped else plain

-- The text before the first `stop` and the text from it on, as strings.IndexByte splits it.
unfoldable pub cut_at : ℕ → Text → Option (Text × Text)
cut_at stop [] = none
cut_at stop (c ∷ s) =
    let later = push c (cut_at stop s) in if c == stop then some ([], s) else later

abbrev pub index_segment : Option ℤ → Parsed Segment
index_segment none = err invalid_index
index_segment (some (negsuc n)) = err invalid_index
index_segment (some (pos n)) = ok (index n)

-- The tail of the quoted case: the ']' after the closing quote.
abbrev pub close_quoted : Option (Text × Text) → Parsed (Segment × Text)
close_quoted none = err unterminated_quote
close_quoted (some (t, [])) = err missing_bracket
close_quoted (some (t, c ∷ rest)) = if c == b']' then ok (key t, rest) else err missing_bracket

-- The tail of the index case, from the text before ']' and the text after it.
abbrev pub close_index : Option (Text × Text) → Parsed (Segment × Text)
close_index none = err unbalanced_brackets
close_index (some (t, rest)) = index_segment (atoi t) >>= λ seg. ok (seg, rest)

-- `parseBracket`, from the text behind its '['.
unfoldable pub parse_bracket : Text → Parsed (Segment × Text)
parse_bracket [] = close_index (cut_at b']' [])
parse_bracket (c ∷ s) =
    if c == quote then close_quoted (parse_quoted s) else close_index (cut_at b']' (c ∷ s))

-- The bare key that the text begins with, and the text from '.' or '[' on.
unfoldable pub parse_bare : Text → Text × Text
parse_bare [] = ([], [])
parse_bare (c ∷ s) =
    let (t, rest) = parse_bare s in if c == b'.' || c == b'[' then ([], c ∷ s) else (c ∷ t, rest)

abbrev pub bare_segment : Text × Text → Parsed (Segment × Text)
bare_segment ([], rest) = err empty_segment
bare_segment (c ∷ t, rest) = ok (key (c ∷ t), rest)

-- One segment, after its separator.
unfoldable pub parse_segment : Text → Parsed (Segment × Text)
parse_segment [] = err ends_with_separator
parse_segment (c ∷ s) = if c == b'[' then parse_bracket s else bare_segment (parse_bare (c ∷ s))

-- The `switch` before every segment but the first.
abbrev pub separator : Bool → Text → Parsed Text
separator true s = ok s
separator false [] = ok []
separator false (c ∷ s) =
    if c == b'.' then ok s else if c == b'[' then ok (c ∷ s) else err unexpected_character

-- The loop of `parsePath`; `first` is `len(segs) == 0`.
unfoldable pub parse_from : ℕ → Bool → Text → Parsed (List Segment)
parse_from zero first s = err out_of_fuel
parse_from (suc fuel) first [] = if first then err empty_path else ok []
parse_from (suc fuel) first (c ∷ s) = separator first (c ∷ s) >>= parse_segment >>= λ r.
    parse_from fuel false r.1 >>= λ segs. ok (r.0 ∷ segs)

-- `parsePath`: every segment takes at least a byte, so a round for each byte and one for the end
-- are enough.
unfoldable pub parse_path : Text → Parsed (List Segment)
parse_path path = parse_from (suc (length path)) true path

-- `strings.ContainsAny(key, ".[]\"\\")`
unfoldable pub has_metacharacter : Text → Bool
has_metacharacter [] = false
has_metacharacter (c ∷ s) =
    c == b'.' || c == b'[' || c == b']' || c == quote || c == backslash || has_metacharacter s

-- `strings.ReplaceAll` of a one-byte text.
unfoldable pub replace_byte : ℕ → Text → Text → Text
replace_byte old new [] = []
replace_byte old new (c ∷ s) =
    if c == old then new ++ replace_byte old new s else c ∷ replace_byte old new s

-- The two replacements of `AppendKeySegment`: '\' by '\\', then '"' by '\"'.
unfoldable pub escape : Text → Text
escape k =
    replace_byte quote (backslash ∷ quote ∷ [])
      (replace_byte backslash (backslash ∷ backslash ∷ []) k)

abbrev pub is_empty : Text → Bool
is_empty [] = true
is_empty (c ∷ s) = false

-- `AppendKeySegment`
unfoldable pub append_key_segment : Text → Text → Text
append_key_segment path k =
    if not (is_empty k) && not (has_metacharacter k)
    then (if is_empty path then k else path ++ b'.' ∷ k)
    else path ++ b'[' ∷ quote ∷ (escape k ++ quote ∷ b']' ∷ [])

-- `fmt.Sprintf("%s[%d]", path, i)`, the step that the renderer takes into an array.
unfoldable pub append_index_segment : Text → ℕ → Text
append_index_segment path i = path ++ b'[' ∷ (decimal i ++ b']' ∷ [])

-- The path that a walk down a document builds, a step at a time.
abbrev pub append_segment : Text → Segment → Text
append_segment path (key k) = append_key_segment path k
append_segment path (index i) = append_index_segment path i

unfoldable pub append_segments : Text → List Segment → Text
append_segments path [] = path
append_segments path (seg ∷ segs) = append_segments (append_segment path seg) segs

-- Go's `int` holds the index.
abbrev pub IsAddressable : Segment → Type 0
IsAddressable (key k) = Unit
IsAddressable (index i) = i ≤ int_max
