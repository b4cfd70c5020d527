-- ===== src/Runnerops/Failures/Lines.antt =====
-- What the classification of a failure depends on (shared.go, execute.go).
use doplane.Common.{
  ℕ, zero, suc, ◌≡◌, ◌≤◌, ◌+◌, refl, Text, false, List, [], ◌∷◌, ◌++◌, leb, length, length-append,
  arith, lower, split_lines, split_lines-append, split_lines-IsLine, IsLine, trim_space, Bool-cases,
  inl, inr,
}
use doplane.Runnerops.Failures.{
  take, truncate, truncated_mark, is_error_line, error_lines, provider_error_text,
}

error_lines_skip :
    (ls : List Text) (l : Text) (ms : List Text)
    → is_error_line (trim_space (lower l)) ≡ false
    → error_lines (ls ++ l ∷ ms) ≡ error_lines (ls ++ ms)
unfolding error_lines
error_lines_skip [] l ms h = rw h refl
error_lines_skip (k ∷ ls) l ms h = rw (error_lines_skip ls l ms h) refl

-- Only the error lines of an output count: a line that does not start with `error:`, `error ` or
-- `[error]`, in lower case and without the blanks around it, can stand anywhere in the output,
-- whatever it holds (an echoed input with "not found", say), and leaves the text that failures are
-- classified by as it is.
pub provider_error_text_ignores :
    (before line after extra : Text)
    → IsLine line
    → is_error_line (trim_space (lower line)) ≡ false
    → provider_error_text (before ++ 10 ∷ (line ++ 10 ∷ after)) extra
      ≡ provider_error_text (before ++ 10 ∷ after) extra
unfolding provider_error_text
provider_error_text_ignores before line after extra h e =
    let dropped : error_lines (split_lines (before ++ 10 ∷ (line ++ 10 ∷ after)))
        ≡ error_lines (split_lines (before ++ 10 ∷ after)) =
      rw
        (
          split_lines-append before (line ++ 10 ∷ after),
          split_lines-IsLine line after h,
          split_lines-append before after,
        )
        (error_lines_skip (split_lines before) line (split_lines after) e) in
    rw dropped refl

pub length-take : (n : ℕ) (s : Text) → length (take n s) ≤ n
unfolding take
length-take zero s = omega arith
length-take (suc n) [] = omega arith
length-take (suc n) (c ∷ s) = omega (arith, length-take n s)

-- A truncated text has at most 14 bytes, the mark's, beyond the limit.
pub length-truncate : (s : Text) (n : ℕ) → length (truncate s n) ≤ n + 14
unfolding truncate
length-truncate s n = elim (Bool-cases (leb (length s) n)) [
  | inl e ↦ rw e (ground arith)
  | inr e ↦ rw (e, length-append (take n s) truncated_mark) (omega (arith, length-take n s))
]
