-- ===== src/Controller/Composite/Plain.antt =====
-- Replacements and expressions in a text whose other parts lack the bytes that matter
-- (composite_render.go, references.go).
use doplane.Common.{
  ℕ, suc, ◌≡◌, refl, sym, ap, ◌≢◌, Text, false, some, List, [], ◌∷◌, ◌++◌, ◌==◌, ==_refl, length,
  arith, has_prefix, replace_from, Bool-cases, inl, inr,
}
use doplane.Runnerops.Path.{cut_at}
use doplane.Runnerops.Secrets.Redaction.{Lacks}
use doplane.Controller.Composite.Expressions.{
  Part, byte, expr, parts_from, is_unterminated, has_expr,
}

pub differs : (a b : ℕ) → a ≢ b → (a == b) ≡ false
differs a b h = ground arith

pub Lacks-append : (b : ℕ) (s t : Text) → Lacks b s → Lacks b t → Lacks b (s ++ t)
Lacks-append b [] t h g = g
Lacks-append b (c ∷ s) t h g = (h.0, Lacks-append b s t h.1 g)

module _ (b : ℕ) (o new : Text) where
  -- A part without the first byte of what is replaced stays.
  pub replace_from-append :
      (p s : Text)
      → Lacks b p
      → replace_from (b ∷ o) new 0 (p ++ s) ≡ p ++ replace_from (b ∷ o) new 0 s
  unfolding replace_from has_prefix
  replace_from-append [] s h = refl
  replace_from-append (c ∷ p) s h =
      rw (differs b c (λ e. h.0 (sym e)), replace_from-append p s h.1) refl

  pub replace_from_plain : (p : Text) → Lacks b p → replace_from (b ∷ o) new 0 p ≡ p
  unfolding replace_from has_prefix
  replace_from_plain [] h = refl
  replace_from_plain (c ∷ p) h = rw (differs b c (λ e. h.0 (sym e)), replace_from_plain p h.1) refl

-- A text that lacks a byte does not begin with a text that has it.
pub has_prefix-Lacks :
    (x : Text) (b : ℕ) (y s : Text) → Lacks b s → has_prefix (x ++ b ∷ y) s ≡ false
unfolding has_prefix
has_prefix-Lacks [] b y [] h = refl
has_prefix-Lacks [] b y (c ∷ s) h = rw (differs b c (λ e. h.0 (sym e))) refl
has_prefix-Lacks (a ∷ x) b y [] h = refl
has_prefix-Lacks (a ∷ x) b y (c ∷ s) h = elim (Bool-cases (a == c)) [
  | inl e ↦ rw (e, has_prefix-Lacks x b y s h.1) refl
  | inr e ↦ rw e refl
]

abbrev pub literals : Text → List Part
literals [] = []
literals (c ∷ s) = byte c ∷ literals s

pub parts_from-append :
    (p s : Text) → Lacks b'$' p → parts_from 0 (p ++ s) ≡ literals p ++ parts_from 0 s
unfolding parts_from
parts_from-append [] s h = refl
parts_from-append (c ∷ p) s h =
    rw (differs c b'$' h.0) (ap (λ ps. byte c ∷ ps) (parts_from-append p s h.1))

pub parts_from_plain : (p : Text) → Lacks b'$' p → parts_from 0 p ≡ literals p
unfolding parts_from
parts_from_plain [] h = refl
parts_from_plain (c ∷ p) h =
    rw (differs c b'$' h.0) (ap (λ ps. byte c ∷ ps) (parts_from_plain p h.1))

-- The bytes of a match are passed over.
parts_from_skip :
    (e : Text) (c : ℕ) (q : Text) → parts_from (suc (length e)) (e ++ c ∷ q) ≡ parts_from 0 q
unfolding parts_from
parts_from_skip [] c q = refl
parts_from_skip (d ∷ e) c q = parts_from_skip e c q

cut_at-append : (b : ℕ) (e q : Text) → Lacks b e → cut_at b (e ++ b ∷ q) ≡ some (e, q)
unfolding cut_at
cut_at-append b [] q h = rw (==_refl b) refl
cut_at-append b (c ∷ e) q h = rw (differs c b h.0, cut_at-append b e q h.1) refl

-- An expression is one part.
pub parts_from_expr :
    (e q : Text)
    → Lacks b'}' e
    → parts_from 0 (b'$' ∷ b'{' ∷ (e ++ b'}' ∷ q)) ≡ expr e ∷ parts_from 0 q
unfolding parts_from
parts_from_expr e q h =
    rw (cut_at-append b'}' e q h) (ap (λ ps. expr e ∷ ps) (parts_from_skip e b'}' q))

-- Bytes other than '$' are no start of an expression.
pub is_unterminated-literals :
    (p : Text) (rest : List Part)
    → Lacks b'$' p
    → is_unterminated (literals p ++ rest) ≡ is_unterminated rest
unfolding is_unterminated
is_unterminated-literals [] rest h = refl
is_unterminated-literals (c ∷ []) [] h = refl
is_unterminated-literals (c ∷ []) (expr e ∷ rest) h = refl
is_unterminated-literals (c ∷ []) (byte d ∷ rest) h = rw (differs c b'$' h.0) refl
is_unterminated-literals (c ∷ d ∷ p) rest h =
    rw (differs c b'$' h.0) (is_unterminated-literals (d ∷ p) rest h.1)

pub has_expr-literals :
    (p : Text) (rest : List Part) → has_expr (literals p ++ rest) ≡ has_expr rest
unfolding has_expr
has_expr-literals [] rest = refl
has_expr-literals (c ∷ p) rest = has_expr-literals p rest
