-- ===== src/Common/Sorting.antt =====
-- `sort.Strings` and `sort.Slice` by a text: insertion sort on the entries' keys, in byte order.
use doplane.Common.Bytes.{Text}
use doplane.Common.Tests.{◌==◌, ltb, if◌then◌else◌, Bool-cases}
use doplane.Common.Lists.{Any}
use mathlib.Core.Bool.{Bool, true, false}
use mathlib.Core.Logic.{inl, inr, ◌⊎◌}
use mathlib.Core.List.{List, [], ◌∷◌}

-- `s <= t` on Go strings.
unfoldable pub text_leb : Text → Text → Bool
text_leb [] t = true
text_leb (a ∷ s) [] = false
text_leb (a ∷ s) (b ∷ t) = let rest = text_leb s t in if a == b then rest else ltb a b

module _ {ℓ} {V : Type ℓ} where
  unfoldable pub insert_sorted : Text × V → List (Text × V) → List (Text × V)
  insert_sorted e [] = e ∷ []
  insert_sorted e (d ∷ es) = if text_leb e.0 d.0 then e ∷ d ∷ es else d ∷ insert_sorted e es

  unfoldable pub sort_by_key : List (Text × V) → List (Text × V)
  sort_by_key [] = []
  sort_by_key (e ∷ es) = insert_sorted e (sort_by_key es)

module _ {V : Type 0} (P : Text × V → Type 0) where
  Any-insert_sorted :
      (e : Text × V) (es : List (Text × V)) → P e ⊎ Any P es → Any P (insert_sorted e es)
  unfolding insert_sorted
  Any-insert_sorted e [] m = m
  Any-insert_sorted e (d ∷ es) m = elim (Bool-cases (text_leb e.0 d.0)) [
    | inl first ↦ rw first m
    | inr later ↦ rw later (elim m [
      | inl p ↦ inr (Any-insert_sorted e es (inl p))
      | inr n ↦ elim n [ inl p ↦ inl p | inr q ↦ inr (Any-insert_sorted e es (inr q)) ]
    ])
  ]

  -- Sorting drops no entry.
  pub Any-sort_by_key : (es : List (Text × V)) → Any P es → Any P (sort_by_key es)
  unfolding sort_by_key
  Any-sort_by_key [] m = m
  Any-sort_by_key (e ∷ es) (inl p) = Any-insert_sorted e (sort_by_key es) (inl p)
  Any-sort_by_key (e ∷ es) (inr q) =
      Any-insert_sorted e (sort_by_key es) (inr (Any-sort_by_key es q))
