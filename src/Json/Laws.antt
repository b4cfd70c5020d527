-- ===== src/Json/Laws.antt =====
-- What a read of a JSON object or array gives after a write or a deletion.
use doplane.Common.{
  ℕ, zero, suc, ◌<◌, ◌≡◌, refl, ap, ◌≢◌, Text, text_eq, text_eq_iff, text_eq_refl, none, some,
  if◌then◌else◌, ltb, false, arith,
}
use doplane.Json.{
  Json, Items, Fields, nil, cons, end, field, lookup, insert, erase, len, get_elem?, set,
}

pub lookup-insert :
    (j k : Text) (v : Json) (fs : Fields)
    → lookup j (insert k v fs) ≡ (if text_eq k j then some v else lookup j fs)
unfolding lookup insert
lookup-insert j k v end = refl
lookup-insert j k v (field i w fs) =
    ground (arith, text_eq_iff k j, text_eq_iff i k, text_eq_iff i j, lookup-insert j k v fs)

pub lookup-insert_self : (k : Text) (v : Json) (fs : Fields) → lookup k (insert k v fs) ≡ some v
lookup-insert_self k v fs = ground (arith, lookup-insert k k v fs, text_eq_refl k)

pub lookup-erase :
    (j k : Text) (fs : Fields) → lookup j (erase k fs) ≡ (if text_eq k j then none else lookup j fs)
unfolding lookup erase
lookup-erase j k end = ground arith
lookup-erase j k (field i w fs) =
    ground (arith, text_eq_iff k j, text_eq_iff i k, text_eq_iff i j, lookup-erase j k fs)

pub get_elem?-set_self :
    (vs : Items) (i : ℕ) (w : Json) → i < len vs → get_elem? (set vs i w) i ≡ some w
unfolding get_elem? set
get_elem?-set_self nil i w h = elim h [ ]
get_elem?-set_self (cons v vs) zero w h = refl
get_elem?-set_self (cons v vs) (suc i) w h = get_elem?-set_self vs i w (arith_pred h)
  where
    arith_pred : suc i < suc (len vs) → i < len vs
    arith_pred h' = omega arith

pub get_elem?-set_ne :
    (vs : Items) (i j : ℕ) (w : Json) → i ≢ j → get_elem? (set vs i w) j ≡ get_elem? vs j
unfolding get_elem? set
get_elem?-set_ne nil i j w h = refl
get_elem?-set_ne (cons v vs) zero zero w h = absurd (h refl)
get_elem?-set_ne (cons v vs) zero (suc j) w h = refl
get_elem?-set_ne (cons v vs) (suc i) zero w h = refl
get_elem?-set_ne (cons v vs) (suc i) (suc j) w h = get_elem?-set_ne vs i j w (λ e. h (ap suc e))

-- An index is in range exactly when there is an element.
pub get_elem?_in_range : (vs : Items) (i : ℕ) {v : Json} → get_elem? vs i ≡ some v → i < len vs
unfolding get_elem?
get_elem?_in_range nil i h = ground arith
get_elem?_in_range (cons w vs) zero h = omega arith
get_elem?_in_range (cons w vs) (suc i) h = omega (arith, get_elem?_in_range vs i h)

pub get_elem?_total : (vs : Items) (i : ℕ) → i < len vs → (v : Json) × (get_elem? vs i ≡ some v)
unfolding get_elem?
get_elem?_total nil i h = elim h [ ]
get_elem?_total (cons w vs) zero h = (w, refl)
get_elem?_total (cons w vs) (suc i) h = get_elem?_total vs i (omega arith)

pub len-set : (vs : Items) (i : ℕ) (w : Json) → len (set vs i w) ≡ len vs
unfolding set
len-set nil i w = refl
len-set (cons v vs) zero w = refl
len-set (cons v vs) (suc i) w = ap suc (len-set vs i w)

pub lookup-end : (k : Text) → lookup k end ≡ none
unfolding lookup
lookup-end k = refl

pub get_elem?-none : (vs : Items) (i : ℕ) → ltb i (len vs) ≡ false → get_elem? vs i ≡ none
unfolding get_elem?
get_elem?-none nil i h = refl
get_elem?-none (cons v vs) zero h = ground arith
get_elem?-none (cons v vs) (suc i) h = get_elem?-none vs i (ground arith)
