-- ===== src/Common/Decimal.antt =====
-- Decimal numbers as fmt's %d prints them.
use Prim.Native.Nat.{ℕ, zero, suc, ◌+◌, ◌/◌, ◌%◌, ◌≤◌}
use mathlib.Core.Path.{◌≡◌, refl}
use mathlib.Core.List.{[], ◌∷◌, ◌++◌}
use mathlib.Core.Logic.{◌≢◌}
use native.Mathlib.Omega.{arith}
use doplane.Common.Tests.{ltb, if◌then◌else◌}
use doplane.Common.Bytes.{Text}
use doplane.Common.Lists.{All}

abbrev pub IsDigit : ℕ → Type 0
IsDigit c = (b'0' ≤ c) × (c ≤ b'9')

-- The digits of `n`, most significant first, with a round for each digit.
unfoldable pub decimal_from : ℕ → ℕ → Text
decimal_from zero n = []
decimal_from (suc fuel) n =
    let rest = decimal_from fuel (n / 10) ++ (n % 10 + b'0') ∷ [] in
    if ltb n 10 then (n + b'0') ∷ [] else rest

-- `fmt.Sprintf("%d", n)`; `n` has at most `n + 1` digits.
unfoldable pub decimal : ℕ → Text
decimal n = decimal_from (suc n) n

All-snoc : (s : Text) (c : ℕ) → All IsDigit s → IsDigit c → All IsDigit (s ++ c ∷ [])
All-snoc [] c h d = (d, tt)
All-snoc (b ∷ s) c (p, h) d = (p, All-snoc s c h d)

decimal_from-IsDigit : (f n : ℕ) → All IsDigit (decimal_from f n)
unfolding decimal_from
decimal_from-IsDigit zero n = tt
decimal_from-IsDigit (suc f) n =
    ground
      (arith, All-snoc (decimal_from f (n / 10)) (n % 10 + 48) (decimal_from-IsDigit f (n / 10)))

pub decimal-IsDigit : (n : ℕ) → All IsDigit (decimal n)
unfolding decimal
decimal-IsDigit n = decimal_from-IsDigit (suc n) n

snoc_ne_nil : (s : Text) (c : ℕ) → s ++ c ∷ [] ≢ []
snoc_ne_nil [] c h = ground arith
snoc_ne_nil (b ∷ s) c h = ground arith

pub decimal_ne_nil : (n : ℕ) → decimal n ≢ []
unfolding decimal decimal_from
decimal_ne_nil n = ground (arith, snoc_ne_nil (decimal_from n (n / 10)) (n % 10 + 48))

decimal_runs : decimal 1907 ≡ b'1' ∷ b'9' ∷ b'0' ∷ b'7' ∷ []
unfolding decimal decimal_from
decimal_runs = refl
