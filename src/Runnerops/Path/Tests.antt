-- ===== src/Runnerops/Path/Tests.antt =====
-- Dot paths at concrete inputs (internal/runnerops/path_test.go), and instances of the theorems.
use doplane.Common.{
  ◌≡◌, refl, ◌≢◌, bytes, some, [], ◌∷◌, arith, inl, inr, decimal, decimal_from, text_eq,
}
use doplane.Json.{
  null, string, arr, obj, Fields, nil, cons, end, field, lookup, insert, erase, get_elem?, set,
}
use doplane.Runnerops.Path.{
  key, index, ok, err, digits_value, magnitude, atoi, parse_quoted, cut_at, parse_bracket,
  parse_bare, parse_segment, parse_from, parse_path, has_metacharacter, replace_byte, escape,
  append_key_segment, append_index_segment, append_segments, empty_path, empty_segment,
  unterminated_quote, invalid_index, ends_with_separator, out_of_fuel, unexpected_character,
}
use doplane.Runnerops.Path.Access.{
  set_from, get_from, delete_from, set_path, get_path, delete_path, is_some, index_out_of_range,
  cannot_descend, index_on_object,
}
use doplane.Runnerops.Path.Access.Paths.{
  get_path-set_path, get_path-set_path_ne, delete_path-IsGoneAt, get_path-delete_path_ne, IsGoneAt,
}
use doplane.Runnerops.Path.Indexes.{parse_path-append_segments}
use doplane.Runnerops.Path.Total.{parse_path-ne-out_of_fuel}

-- Everything that a run of the path functions goes through.
unfoldable pub paths : Unit {0}
unfolding parse_path parse_from parse_segment parse_bracket parse_bare parse_quoted cut_at atoi
    magnitude digits_value has_metacharacter replace_byte escape append_key_segment
    append_index_segment append_segments decimal decimal_from set_from get_from delete_from set_path
    get_path delete_path lookup insert erase get_elem? set text_eq
paths = tt

parse_tests :
    (parse_path (bytes "rules[12].id")
      ≡ ok (key (bytes "rules") ∷ index 12 ∷ key (bytes "id") ∷ []))
    × (parse_path (bytes "") ≡ err empty_path)
    × (parse_path (bytes "a..b") ≡ err empty_segment)
    × (parse_path (bytes "a.") ≡ err ends_with_separator)
    × (parse_path (bytes "a[x]") ≡ err invalid_index)
    × (parse_path (bytes "a[-1]") ≡ err invalid_index)
    × (parse_path (bytes "a[0]b") ≡ err unexpected_character)
    × (parse_path (bytes "a[\"open") ≡ err unterminated_quote)
    × (append_key_segment (bytes "tags") (bytes "kubernetes.io/x")
        ≡ bytes "tags[\"kubernetes.io/x\"]")
unfolding paths
parse_tests = (refl, refl, refl, refl, refl, refl, refl, refl, refl)

abbrev props : Fields
props = field (bytes "tags") (obj (field (bytes "a") (string (bytes "1")) end)) (
    field (bytes "rules") (arr (cons (obj (field (bytes "id") (string (bytes "old")) end)) nil))
      (field (bytes "bucket") (string (bytes "b1")) end))

set_tests :
    ((set_path props (bytes "rules[5].id") null).1 ≡ some index_out_of_range)
    × ((set_path props (bytes "bucket.sub") null).1 ≡ some cannot_descend)
    × ((set_path props (bytes "tags[0]") null).1 ≡ some index_on_object)
    × (get_path (obj (set_path props (bytes "nested.deep.key") null).0) (bytes "nested.deep.key")
        ≡ some null)
    × (get_path (obj (set_path props (bytes "rules[0].id") null).0) (bytes "rules[0].id")
        ≡ some null)
unfolding paths
set_tests = (refl, refl, refl, refl, refl)

parse_path-append_segments_example :
    parse_path
      (append_segments (append_key_segment [] (bytes "tags")) (key (bytes "a.b") ∷ index 2 ∷ []))
    ≡ ok (key (bytes "tags") ∷ key (bytes "a.b") ∷ index 2 ∷ [])
parse_path-append_segments_example =
    parse_path-append_segments (bytes "tags") (key (bytes "a.b") ∷ index 2 ∷ [])
      (tt, (omega arith, tt))

parse_path-ne-out_of_fuel_example : parse_path (bytes "a[\"b") ≢ err out_of_fuel
parse_path-ne-out_of_fuel_example = parse_path-ne-out_of_fuel (bytes "a[\"b")

get_path-set_path_example :
    get_path
      (obj (set_path props (bytes "rules[0].id") (string (bytes "new"))).0)
      (bytes "rules[0].id")
    ≡ some (string (bytes "new"))
get_path-set_path_example =
    get_path-set_path props (bytes "rules[0].id") (string (bytes "new")) (unfold paths in refl)

-- The write stops at "bucket", which is no object.
get_path-set_path_ne_example :
    get_path (obj (set_path props (bytes "bucket.sub") null).0) (bytes "tags.a")
    ≡ get_path (obj props) (bytes "tags.a")
get_path-set_path_ne_example =
    get_path-set_path_ne props (bytes "bucket.sub") (bytes "tags.a") null
      {p = key (bytes "bucket") ∷ key (bytes "sub") ∷ []}
      {q = key (bytes "tags") ∷ key (bytes "a") ∷ []} (unfold paths in refl) (unfold paths in refl)
      (inl (ground arith))

delete_path-IsGoneAt_example :
    IsGoneAt (bytes "tags.a") (delete_path props (bytes "tags.a")).0
    × ((delete_path props (bytes "tags.a")).1 ≡ is_some (get_path (obj props) (bytes "tags.a")))
delete_path-IsGoneAt_example = delete_path-IsGoneAt props (bytes "tags.a")

get_path-delete_path_ne_example :
    get_path (obj (delete_path props (bytes "tags.a")).0) (bytes "tags.b")
    ≡ get_path (obj props) (bytes "tags.b")
get_path-delete_path_ne_example =
    get_path-delete_path_ne props (bytes "tags.a") (bytes "tags.b")
      {p = key (bytes "tags") ∷ key (bytes "a") ∷ []}
      {q = key (bytes "tags") ∷ key (bytes "b") ∷ []} (unfold paths in refl) (unfold paths in refl)
      (inr (refl, inl (ground arith)))
