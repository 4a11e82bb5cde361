-- ===== src/Transform/Tests.antt =====
-- Transformations of a response, with parsers that stand in for jsonparser.
use wundergraph.Prelude.{
  ◌+◌, ◌≡◌, ◌≢◌, ◌↔◌, refl, true, Option, none, some, [], ◌∷◌, ◌++◌, arith, Bytes, str, ◌==◌, Has,
}
use wundergraph.Prelude.Int.{show_int, show_digits}
use wundergraph.Transform.{
  Keys, JsonParser, Found, done, panics, Transformation, get_transformation, other, transform,
  resolved, resolve_paths, arrays, item, apply_get, apply_each, value_of, slice, resolve_each,
  resolve_path, path_contains_array, paths_contain_array, item_paths,
}
use wundergraph.Transform.Paths.{Fills}
use wundergraph.Transform.Resolve.{resolved_iff}
use wundergraph.Transform.Safe.{IsWithin, transform-ne-panics}

-- finds an empty string at the begin of a text with two quotes there
abbrev empty_string : Bytes → Keys → Option Found
empty_string [] path = none
empty_string (c ∷ []) path = none
empty_string (c ∷ d ∷ rest) path = some record { value = []; is_string = true; offset = 2 }

-- every array has two items, and what is set is written behind the response
abbrev two_items : JsonParser
two_items = record {
  get = empty_string;
  set = λ input value path. some (input ++ value);
  array_items = λ input path. 2;
}

abbrev users : Keys
users = str "users" ∷ str "[]" ∷ str "id" ∷ []

abbrev response : Bytes
response = str "''"

users_resolved :
    resolved two_items response users
    ≡ (str "users" ∷ str "[0]" ∷ str "id" ∷ []) ∷ (str "users" ∷ str "[1]" ∷ str "id" ∷ []) ∷ []
unfolding resolved resolve_paths arrays resolve_each resolve_path path_contains_array
    paths_contain_array item_paths item show_int show_digits ◌==◌
users_resolved = refl

abbrev ids : Transformation
ids = get_transformation (some record { from = users; to = str "ids" ∷ str "[]" ∷ [] })

ids_transformed : transform two_items (other ∷ ids ∷ []) response ≡ done (str "''''''")
unfolding transform apply_get apply_each value_of slice resolved resolve_paths arrays resolve_each
    resolve_path path_contains_array paths_contain_array item_paths item show_int show_digits ◌==◌
ids_transformed = refl

resolved_iff_example :
    (resolve_paths two_items response (1 + arrays users) (users ∷ [])
      ≡ some (resolved two_items response users))
    × ((q : Keys) → Has q (resolved two_items response users) ↔ Fills two_items response [] users q)
unfolding arrays ◌==◌
resolved_iff_example = resolved_iff two_items response users

two_items-IsWithin : IsWithin two_items
two_items-IsWithin [] path found e s = absurd (cc)
two_items-IsWithin (c ∷ []) path found e s = absurd (cc)
two_items-IsWithin (c ∷ d ∷ rest) path found e s = ground arith

transform-ne-panics_example : transform two_items (other ∷ ids ∷ []) response ≢ panics
transform-ne-panics_example =
    transform-ne-panics two_items two_items-IsWithin (other ∷ ids ∷ []) response (tt, (tt, tt))
