-- ===== src/Common/Lines.antt =====
-- What the sources use of package strings to take a text apart at newlines and blanks.
use doplane.Common.Bytes.{Text}
use doplane.Common.Tests.{◌==◌, leb, if◌then◌else◌, Bool-cases}
use mathlib.Core.Logic.{inl, inr}
use Prim.Native.Nat.{ℕ}
use mathlib.Core.Path.{◌≡◌, refl}
use mathlib.Core.Bool.{Bool, false, ◌&&◌, ◌||◌}
use mathlib.Core.List.{List, [], ◌∷◌, ◌++◌}

abbrev pub before_line : ℕ → List Text → List Text
before_line c [] = (c ∷ []) ∷ []
before_line c (l ∷ ls) = (c ∷ l) ∷ ls

-- `strings.Split(s, "\n")`
unfoldable pub split_lines : Text → List Text
split_lines [] = [] ∷ []
split_lines (c ∷ s) = let rest = split_lines s in if c == 10 then [] ∷ rest else before_line c rest

-- `strings.Join(lines, sep)`
unfoldable pub join : Text → List Text → Text
join sep [] = []
join sep (l ∷ []) = l
join sep (l ∷ m ∷ ls) = l ++ sep ++ join sep (m ∷ ls)

-- The blanks of ASCII.
abbrev pub is_space : ℕ → Bool
is_space c = c == 32 || (leb 9 c && leb c 13)

unfoldable pub trim_left : Text → Text
trim_left [] = []
trim_left (c ∷ s) = let rest = trim_left s in if is_space c then rest else c ∷ s

abbrev pub unless_blank : ℕ → Text → Text
unless_blank c [] = if is_space c then [] else c ∷ []
unless_blank c (d ∷ s) = c ∷ d ∷ s

unfoldable pub trim_right : Text → Text
trim_right [] = []
trim_right (c ∷ s) = unless_blank c (trim_right s)

-- `strings.TrimSpace`
unfoldable pub trim_space : Text → Text
trim_space s = trim_right (trim_left s)

-- No byte of the text is a newline.
abbrev pub IsLine : Text → Type 0
IsLine [] = Unit
IsLine (c ∷ s) = ((c == 10) ≡ false) × IsLine s

pub split_lines-IsLine : (l s : Text) → IsLine l → split_lines (l ++ 10 ∷ s) ≡ l ∷ split_lines s
unfolding split_lines
split_lines-IsLine [] s h = refl
split_lines-IsLine (c ∷ l) s h = rw (h.0, split_lines-IsLine l s h.1) refl

-- There is always a first line.
split_lines-nonempty : (s : Text) → (l : Text) × (ls : List Text) × (split_lines s ≡ l ∷ ls)
unfolding split_lines
split_lines-nonempty [] = ([], [], refl)
split_lines-nonempty (c ∷ s) = elim (Bool-cases (c == 10)) [
  | inl e ↦ ([], split_lines s, rw e refl)
  | inr e ↦ let (l, ls, f) = split_lines-nonempty s in (c ∷ l, ls, rw (e, f) refl)
]

-- A newline parts the lines before it from those after it.
pub split_lines-append : (s t : Text) → split_lines (s ++ 10 ∷ t) ≡ split_lines s ++ split_lines t
unfolding split_lines
split_lines-append [] t = refl
split_lines-append (c ∷ s) t = elim (Bool-cases (c == 10)) [
  | inl e ↦ rw (e, split_lines-append s t) refl
  | inr e ↦ let (l, ls, f) = split_lines-nonempty s in rw (e, split_lines-append s t, f) refl
]
