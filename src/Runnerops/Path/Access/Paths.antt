-- ===== src/Runnerops/Path/Access/Paths.antt =====
-- SetPath, DeletePath and GetPath as a caller sees them, over the text of a path (path.go).
use doplane.Common.{◌≡◌, refl, ◌≢◌, Text, none, some, List, [], ◌∷◌, arith}
use doplane.Json.{Json, null, obj, Fields}
use doplane.Runnerops.Path.{Segment, key, index, Parsed, ok, err, parse_path}
use doplane.Runnerops.Path.Access.{
  set_from, get_from, delete_from, value_or_null, is_some, set_path, get_path, delete_path,
  set_segments, get_segments, delete_segments, entries,
}
use doplane.Runnerops.Path.Total.{parse_path-ne-nil}
use doplane.Runnerops.Path.Access.Laws.{get_from-set_from}
use doplane.Runnerops.Path.Access.Frame.{Diverges, get_from-set_from_ne, get_from-delete_from_ne}
use doplane.Runnerops.Path.Access.Deletion.{
  delete_from-eq-get_from, delete_from-IsGone, delete_from-IsGone_self, IsGone-in_object,
}

-- A walk that starts at a map ends at that map.
set_from_root :
    (k : Text) (segs : List Segment) (value : Json) (fs : Fields)
    → obj (entries (set_from (key k ∷ segs) value (obj fs)).0)
      ≡ (set_from (key k ∷ segs) value (obj fs)).0
unfolding set_from
set_from_root k [] value fs = refl
set_from_root k (index i ∷ segs) value fs = ground arith
set_from_root k (key j ∷ segs) value fs = refl

delete_from_root :
    (segs : List Segment) (fs : Fields)
    → obj (entries (delete_from segs (obj fs)).0) ≡ (delete_from segs (obj fs)).0
unfolding delete_from
delete_from_root [] fs = refl
delete_from_root (index i ∷ segs) fs = refl
delete_from_root (key k ∷ []) fs = ground arith
delete_from_root (key k ∷ seg ∷ segs) fs = ground arith

get_after_set_segments :
    (props : Fields) (value : Json) (r : Parsed (List Segment))
    → (set_segments props value r).1 ≡ none
    → get_segments (obj (set_segments props value r).0) r ≡ some value
get_after_set_segments props value (err e) h = cc
get_after_set_segments props value (ok []) h = cc
get_after_set_segments props value (ok (index i ∷ segs)) h = cc
get_after_set_segments props value (ok (key k ∷ segs)) h =
    rw (set_from_root k segs value props)
      (get_from-set_from value (key k ∷ segs) (obj props) (λ e. cc) h)

-- When SetPath succeeds, GetPath reads at the path the value that was set.
pub get_path-set_path :
    (props : Fields) (path : Text) (value : Json)
    → (set_path props path value).1 ≡ none
    → get_path (obj (set_path props path value).0) path ≡ some value
unfolding set_path get_path
get_path-set_path props path value h = get_after_set_segments props value (parse_path path) h

set_segments_other :
    (props : Fields) (value : Json) (p q : List Segment)
    → Diverges p q
    → get_from q (obj (set_segments props value (ok p)).0) ≡ get_from q (obj props)
set_segments_other props value [] q d = refl
set_segments_other props value (index i ∷ p) q d = refl
set_segments_other props value (key k ∷ p) q d =
    rw (set_from_root k p value props) (get_from-set_from_ne (key k ∷ p) q value (obj props) d)

-- SetPath leaves what GetPath reads at a diverging path as it was, whether it succeeds or stops
-- half way with an error.
pub get_path-set_path_ne :
    (props : Fields) (path other : Text) (value : Json) {p q : List Segment}
    → parse_path path ≡ ok p
    → parse_path other ≡ ok q
    → Diverges p q
    → get_path (obj (set_path props path value).0) other ≡ get_path (obj props) other
unfolding set_path get_path
get_path-set_path_ne props path other value {p} {q} e f d =
    rw (e, f) (set_segments_other props value p q d)

delete_segments_other :
    (props : Fields) (p q : List Segment)
    → Diverges p q
    → get_from q (obj (delete_segments props (ok p)).0) ≡ get_from q (obj props)
delete_segments_other props [] q d = refl
delete_segments_other props (index i ∷ p) q d = refl
delete_segments_other props (key k ∷ p) q d =
    rw (delete_from_root (key k ∷ p) props) (get_from-delete_from_ne (key k ∷ p) q (obj props) d)

-- DeletePath leaves what GetPath reads at a diverging path as it was.
pub get_path-delete_path_ne :
    (props : Fields) (path other : Text) {p q : List Segment}
    → parse_path path ≡ ok p
    → parse_path other ≡ ok q
    → Diverges p q
    → get_path (obj (delete_path props path).0) other ≡ get_path (obj props) other
unfolding delete_path get_path
get_path-delete_path_ne props path other {p} {q} e f d =
    rw (e, f) (delete_segments_other props p q d)

-- Nothing can be read at the text of a path, or null.
abbrev pub IsGoneAt : Text → Fields → Type 0
IsGoneAt path props = value_or_null (get_path (obj props) path) ≡ null

IsGoneBy : Parsed (List Segment) → Fields → Type 0
IsGoneBy r props = value_or_null (get_segments (obj props) r) ≡ null

delete_segments_self :
    (props : Fields) (r : Parsed (List Segment))
    → r ≢ ok []
    → IsGoneBy r (delete_segments props r).0
      × ((delete_segments props r).1 ≡ is_some (get_segments (obj props) r))
unfolding IsGoneBy
delete_segments_self props (err e) n = (refl, refl)
delete_segments_self props (ok []) n = absurd (n refl)
delete_segments_self props (ok (index i ∷ segs)) n =
    (IsGone-in_object i segs props, unfold get_from in refl)
delete_segments_self props (ok (key k ∷ segs)) n = (
  rw (delete_from_root (key k ∷ segs) props)
      (delete_from-IsGone_self (key k ∷ segs) (obj props) (λ e. cc)),
  delete_from-eq-get_from (key k ∷ segs) (obj props) (λ e. cc),
)

-- After DeletePath nothing but null can be read at the path, and the call reports whether GetPath
-- found the path before; this holds for every text, also one that does not parse.
pub delete_path-IsGoneAt :
    (props : Fields) (path : Text)
    → IsGoneAt path (delete_path props path).0
      × ((delete_path props path).1 ≡ is_some (get_path (obj props) path))
unfolding delete_path get_path IsGoneBy
delete_path-IsGoneAt props path =
    delete_segments_self props (parse_path path) (parse_path-ne-nil path)

delete_segments_keeps_gone :
    (props : Fields) (r s : Parsed (List Segment))
    → IsGoneBy s props
    → IsGoneBy s (delete_segments props r).0
unfolding IsGoneBy
delete_segments_keeps_gone props (err e) s h = h
delete_segments_keeps_gone props (ok []) s h = h
delete_segments_keeps_gone props (ok (index i ∷ segs)) s h = h
delete_segments_keeps_gone props (ok (key k ∷ segs)) (err e) h = refl
delete_segments_keeps_gone props (ok (key k ∷ segs)) (ok q) h =
    rw (delete_from_root (key k ∷ segs) props) (delete_from-IsGone (key k ∷ segs) q (obj props) h)

-- A later deletion at any path brings nothing back.
pub delete_path_keeps_gone :
    (props : Fields) (path other : Text)
    → IsGoneAt other props
    → IsGoneAt other (delete_path props path).0
unfolding delete_path get_path IsGoneBy
delete_path_keeps_gone props path other h =
    delete_segments_keeps_gone props (parse_path path) (parse_path other) h
