-- ===== src/Runnerops/Output/Last.antt =====
-- internal/runnerops/shared.go: LastJSONObject finds the last object of an output.
use doplane.Common.{
  ℕ, zero, suc, ◌≡◌, ap, ◌∙◌, Text, Bool, true, false, Bool-cases, Option, none, some, Option-cases,
  inl, inr, ◌⊎◌, [], ◌∷◌, ◌==◌, ◌-◌, ◌&&◌, arith,
}
use mathlib.Core.Path.{subst}
use doplane.Json.{Fields}
use doplane.Runnerops.Output.{last_object_from, last_json_object}

module _ (decode : Text → Option (Fields × ℕ)) where
  -- Behind the next `skip` bytes, no line starts with an object; `at_start` says whether the text
  -- stands at the start of a line.
  abbrev pub HasNoObject : Bool → ℕ → Text → Type 0
  HasNoObject at_start skip [] = Unit
  HasNoObject at_start (suc skip) (c ∷ s) = HasNoObject (c == 10) skip s
  HasNoObject at_start zero (c ∷ s) =
      (at_start ≡ true → c ≡ b'{' → decode (c ∷ s) ≡ none) × HasNoObject (c == 10) zero s

  -- At the start of a line of the text stands that object, and behind it no line starts with one.
  abbrev pub EndsWith : Bool → Text → Fields → Type 0
  EndsWith at_start [] fs = ⊥
  EndsWith at_start (c ∷ s) fs =
      ((at_start ≡ true)
        × (c ≡ b'{')
        × (n : ℕ) × (decode (c ∷ s) ≡ some (fs, n))
        × HasNoObject (c == 10) (n - 1) s)
      ⊎ EndsWith (c == 10) s fs

  -- The last object of an output.
  abbrev pub IsLast : Text → Fields → Type 0
  IsLast out fs = EndsWith true out fs

  some_fields : (fs gs : Fields) → some fs ≡ some gs → fs ≡ gs
  some_fields fs gs e = ap or_fs e
    where
      or_fs : Option Fields → Fields
      or_fs none = fs
      or_fs (some hs) = hs

  -- A round that finds nothing leaves what the later rounds find.
  nothing_here :
      (at_start : Bool) (c : ℕ) (s : Text) (last : Option Fields) (fs : Fields)
      → (at_start ≡ true → c ≡ b'{' → decode (c ∷ s) ≡ none)
      → EndsWith (c == 10) s fs ⊎ ((last ≡ some fs) × HasNoObject (c == 10) zero s)
      → EndsWith at_start (c ∷ s) fs ⊎ ((last ≡ some fs) × HasNoObject at_start zero (c ∷ s))
  nothing_here at_start c s last fs none_here (inl l) = inl (inr l)
  nothing_here at_start c s last fs none_here (inr (e, rest)) = inr (e, (none_here, rest))

  -- The loop gives an object that it still comes to, or the one that it has and then no other.
  last_object_from-cases :
      (at_start : Bool) (skip : ℕ) (last : Option Fields) (s : Text) (fs : Fields)
      → last_object_from decode at_start skip last s ≡ some fs
      → EndsWith at_start s fs ⊎ ((last ≡ some fs) × HasNoObject at_start skip s)
  unfolding last_object_from
  last_object_from-cases at_start skip last [] fs h = inr (h, tt)
  last_object_from-cases at_start (suc skip) last (c ∷ s) fs h =
      elim (last_object_from-cases (c == 10) (suc skip - 1) last s fs h) [
        | inl l ↦ inl (inr l)
        | inr (e, rest) ↦ inr (e, subst (λ k. HasNoObject (c == 10) k s) (omega arith) rest)
      ]
  last_object_from-cases at_start zero last (c ∷ s) fs h =
      elim (Bool-cases (c == b'{' && at_start)) [
        | inr b ↦
            nothing_here at_start c s last fs (λ start brace. absurd (clash start brace b))
              (last_object_from-cases (c == 10) (0 - 1) last s fs (rw b at h))
        | inl b ↦ elim (Option-cases (decode (c ∷ s))) [
          | inl d ↦
              nothing_here at_start c s last fs (λ start brace. d)
                (last_object_from-cases (c == 10) (0 - 1) last s fs (rw (b, d) at h))
          | inr ((gs, n), d) ↦
              elim (last_object_from-cases (c == 10) (n - 1) (some gs) s fs (rw (b, d) at h)) [
                | inl l ↦ inl (inr l)
                | inr (e, rest) ↦ inl (
                    inl (
                      ground (arith, b),
                      ground (arith, b),
                      n,
                      d ∙ ap (λ f. some (f, n)) (some_fields gs fs e),
                      rest,
                    ))
              ]
        ]
      ]
    where
      clash : at_start ≡ true → c ≡ b'{' → (c == b'{' && at_start) ≡ false → ⊥
      clash start brace b = ground (arith, start, brace, b)

  -- What LastJSONObject finds is the last object.
  pub last_json_object-IsLast :
      (out : Text) (fs : Fields) → last_json_object decode out ≡ some fs → IsLast out fs
  unfolding last_json_object
  last_json_object-IsLast out fs h = elim (last_object_from-cases true 0 none out fs h) [
    | inl l ↦ l
    | inr (e, rest) ↦ cc
  ]
