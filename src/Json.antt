-- ===== src/Json.antt =====
-- Decoded JSON documents, as every part of the program passes them around: Go's `any` after a
-- decoder with UseNumber (so a number is its literal text). A `map[string]any` is a list of
-- entries of which the first with a key counts, and a `[]any` a list of values.
pub mod Laws
use doplane.Common.{
  ℕ, zero, suc, ◌<◌, Text, text_eq, Bool, true, false, Option, none, some, if◌then◌else◌,
}

mutual
  pub data Json : Type 0 where
    null : Json
    bool : Bool → Json
    number : Text → Json
    string : Text → Json
    arr : Items → Json
    obj : Fields → Json

  pub data Items : Type 0 where
    nil : Items
    cons : Json → Items → Items

  pub data Fields : Type 0 where
    end : Fields
    field : Text → Json → Fields → Fields

-- `next, ok := node[key]`
unfoldable pub lookup : Text → Fields → Option Json
lookup k end = none
lookup k (field j v fs) = if text_eq j k then some v else lookup k fs

-- `node[key] = value`
unfoldable pub insert : Text → Json → Fields → Fields
insert k v end = field k v end
insert k v (field j w fs) = if text_eq j k then field j v fs else field j w (insert k v fs)

-- `delete(node, key)`
unfoldable pub erase : Text → Fields → Fields
erase k end = end
erase k (field j w fs) = let rest = erase k fs in if text_eq j k then rest else field j w rest

-- `len(node)` of an array
abbrev pub len : Items → ℕ
len nil = 0
len (cons v vs) = suc (len vs)

-- `node[index]`, `none` where Go would panic
unfoldable pub get_elem? : Items → ℕ → Option Json
get_elem? nil i = none
get_elem? (cons v vs) zero = some v
get_elem? (cons v vs) (suc i) = get_elem? vs i

-- `node[index] = value`; out of range nothing changes
unfoldable pub set : Items → ℕ → Json → Items
set nil i w = nil
set (cons v vs) zero w = cons w vs
set (cons v vs) (suc i) w = cons v (set vs i w)
