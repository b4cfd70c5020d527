-- ===== src/Common/Search.antt =====
-- What the sources use of package strings to look for one text in another.
use doplane.Common.Bytes.{Text}
use doplane.Common.Tests.{◌==◌, if◌then◌else◌}
use doplane.Common.Lists.{length}
use Prim.Native.Nat.{ℕ, zero, suc, ◌-◌}
use mathlib.Core.Bool.{Bool, true, false, ◌&&◌, ◌||◌}
use mathlib.Core.List.{[], ◌∷◌, ◌++◌}

-- `strings.HasPrefix(s, prefix)`, the prefix first.
unfoldable pub has_prefix : Text → Text → Bool
has_prefix [] s = true
has_prefix (b ∷ t) [] = false
has_prefix (b ∷ t) (c ∷ s) = b == c && has_prefix t s

-- `strings.Contains(s, part)`, the part first.
unfoldable pub contains : Text → Text → Bool
contains part [] = has_prefix part []
contains part (c ∷ s) = has_prefix part (c ∷ s) || contains part s

-- `strings.ReplaceAll(s, old, new)` for a text `old` that is not empty. `skip` counts the bytes of
-- an occurrence that are still to be passed over.
unfoldable pub replace_from : Text → Text → ℕ → Text → Text
replace_from old new skip [] = []
replace_from old new (suc skip) (c ∷ s) = replace_from old new skip s
replace_from old new zero (c ∷ s) =
    let replaced = new ++ replace_from old new (length old - 1) s in
    let kept = c ∷ replace_from old new zero s in if has_prefix old (c ∷ s) then replaced else kept

unfoldable pub replace_all : Text → Text → Text → Text
replace_all old new s = replace_from old new 0 s
