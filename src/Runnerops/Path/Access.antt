-- ===== src/Runnerops/Path/Access.antt =====
-- internal/runnerops/path.go: SetPath, DeletePath and GetPath. The source walks the document by a
-- loop over the segments and writes in place; here each round returns the node it was at, with the
-- write in it. `last` in the source is the empty rest of the segments.
pub mod Laws
pub mod Frame
pub mod Deletion
pub mod Paths
use doplane.Common.{
  ℕ, zero, suc, Text, Bool, true, false, Option, none, some, List, [], ◌∷◌, ltb, if◌then◌else◌,
}
use doplane.Json.{
  Json, null, arr, obj, Items, Fields, end, lookup, insert, erase, len, get_elem?, set,
}
use doplane.Runnerops.Path.{Segment, key, index, PathError, Parsed, ok, err, parse_path}

pub data AccessError : Type 0 where
  bad_path : PathError → AccessError
  must_start_with_key index_on_object cannot_create_element : AccessError
  key_on_array index_out_of_range cannot_descend : AccessError

-- The node after the round, and the error that the loop returns from there on.
abbrev pub Written : Type 0
Written = Json × Option AccessError

-- `node[seg.key] = …` for what the later rounds made of the entry.
abbrev pub at_key : Text → Fields → Written → Written
at_key k fs w = (obj (insert k w.0 fs), w.1)

abbrev pub at_index : ℕ → Items → Written → Written
at_index i vs w = (arr (set vs i w.0), w.1)

-- `next == nil`, or no entry.
abbrev pub is_absent : Option Json → Bool
is_absent none = true
is_absent (some null) = true
is_absent (some v) = false

abbrev pub value_or_null : Option Json → Json
value_or_null none = null
value_or_null (some v) = v

abbrev pub is_some : Option Json → Bool
is_some none = false
is_some (some v) = true

-- The rounds of `SetPath` from `node` on.
unfoldable pub set_from : List Segment → Json → Json → Written
set_from [] value node = (node, none)
set_from (key k ∷ []) value (obj fs) = (obj (insert k value fs), none)
set_from (key k ∷ index i ∷ segs) value (obj fs) =
    let next = at_key k fs (set_from (index i ∷ segs) value (value_or_null (lookup k fs))) in
    if is_absent (lookup k fs) then (obj fs, some cannot_create_element) else next
set_from (key k ∷ key j ∷ segs) value (obj fs) = at_key k fs (
    set_from (key j ∷ segs) value
      (if is_absent (lookup k fs) then obj end else value_or_null (lookup k fs)))
set_from (index i ∷ segs) value (obj fs) = (obj fs, some index_on_object)
set_from (key k ∷ segs) value (arr vs) = (arr vs, some key_on_array)
set_from (index i ∷ []) value (arr vs) =
    if ltb i (len vs) then (arr (set vs i value), none) else (arr vs, some index_out_of_range)
set_from (index i ∷ seg ∷ segs) value (arr vs) =
    let next = at_index i vs (set_from (seg ∷ segs) value (value_or_null (get_elem? vs i))) in
    if ltb i (len vs) then next else (arr vs, some index_out_of_range)
set_from (seg ∷ segs) value node = (node, some cannot_descend)

-- The entries of the map that a document's root is.
abbrev pub entries : Json → Fields
entries (obj fs) = fs
entries v = end

abbrev pub starts_with_key : List Segment → Bool
starts_with_key (key k ∷ segs) = true
starts_with_key segs = false

abbrev pub on_entries {ℓ} : {A : Type ℓ} → Json × A → Fields × A
on_entries w = (entries w.0, w.1)

-- `SetPath`; what an unsuccessful call has written before its error stays written.
abbrev pub set_segments : Fields → Json → Parsed (List Segment) → Fields × Option AccessError
set_segments props value (err e) = (props, some (bad_path e))
set_segments props value (ok segs) =
    if starts_with_key segs
    then on_entries (set_from segs value (obj props))
    else (props, some must_start_with_key)

unfoldable pub set_path : Fields → Text → Json → Fields × Option AccessError
set_path props path value = set_segments props value (parse_path path)

abbrev pub kept : Text → Fields → Json × Bool → Json × Bool
kept k fs w = (obj (insert k w.0 fs), w.1)

abbrev pub kept_at : ℕ → Items → Json × Bool → Json × Bool
kept_at i vs w = (arr (set vs i w.0), w.1)

abbrev pub with_no_error : Fields × Bool → Fields × Bool × Option AccessError
with_no_error w = (w.0, w.1, none)

-- The rounds of `DeletePath` from `node` on, with whether the path existed.
unfoldable pub delete_from : List Segment → Json → Json × Bool
delete_from [] node = (node, false)
delete_from (key k ∷ []) (obj fs) =
    if is_some (lookup k fs) then (obj (erase k fs), true) else (obj fs, false)
delete_from (key k ∷ seg ∷ segs) (obj fs) =
    let next = kept k fs (delete_from (seg ∷ segs) (value_or_null (lookup k fs))) in
    if is_some (lookup k fs) then next else (obj fs, false)
delete_from (index i ∷ segs) (obj fs) = (obj fs, false)
delete_from (key k ∷ segs) (arr vs) = (arr vs, false)
delete_from (index i ∷ []) (arr vs) =
    if ltb i (len vs) then (arr (set vs i null), true) else (arr vs, false)
delete_from (index i ∷ seg ∷ segs) (arr vs) =
    let next = kept_at i vs (delete_from (seg ∷ segs) (value_or_null (get_elem? vs i))) in
    if ltb i (len vs) then next else (arr vs, false)
delete_from (seg ∷ segs) node = (node, false)

-- `DeletePath`
abbrev pub delete_segments : Fields → Parsed (List Segment) → Fields × Bool × Option AccessError
delete_segments props (err e) = (props, false, some (bad_path e))
delete_segments props (ok segs) =
    if starts_with_key segs
    then with_no_error (on_entries (delete_from segs (obj props)))
    else (props, false, some must_start_with_key)

unfoldable pub delete_path : Fields → Text → Fields × Bool × Option AccessError
delete_path props path = delete_segments props (parse_path path)

-- The rounds of `GetPath`; `none` is its `false`.
unfoldable pub get_from : List Segment → Json → Option Json
get_from [] node = some node
get_from (key k ∷ segs) (obj fs) =
    let next = get_from segs (value_or_null (lookup k fs)) in
    if is_some (lookup k fs) then next else none
get_from (index i ∷ segs) (arr vs) =
    let next = get_from segs (value_or_null (get_elem? vs i)) in
    if ltb i (len vs) then next else none
get_from (seg ∷ segs) node = none

-- `GetPath`
abbrev pub get_segments : Json → Parsed (List Segment) → Option Json
get_segments v (err e) = none
get_segments v (ok segs) = get_from segs v

unfoldable pub get_path : Json → Text → Option Json
get_path v path = get_segments v (parse_path path)
