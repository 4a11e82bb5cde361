-- ===== src/Transform.antt =====
-- pkg/postresolvetransform/postresolvetransform.go: what a response goes through after its operation
-- has been resolved.
pub mod Paths
pub mod Resolve
pub mod Safe
pub mod Tests
use wundergraph.Prelude.{
  ℕ, zero, suc, ◌+◌, ◌-◌, Bool, true, false, not, ◌||◌, Option, none, some, List, [], ◌∷◌, ◌++◌,
  Bytes, str, ◌==◌, if◌then◌else◌, eqb, ltb, length,
}
use wundergraph.Prelude.Int.{pos, show_int}

abbrev pub Keys : Type 0
Keys = List Bytes

-- What jsonparser.Get finds: the value, without its quotes if it is a string, and where it ends.
pub record Found : Type 0 where
  pub value : Bytes
  pub is_string : Bool
  pub offset : ℕ

-- Package jsonparser: Get and Set, whose errors are none, and the number of values for which
-- ArrayEach calls its function.
pub record JsonParser : Type 0 where
  pub get : Bytes → Keys → Option Found
  pub set : Bytes → Bytes → Keys → Option Bytes
  pub array_items : Bytes → Keys → ℕ

abbrev pub any_item : Bytes
any_item = str "[]"

-- fmt.Sprintf("[%d]", i)
unfoldable pub item : ℕ → Bytes
item i = b'[' ∷ show_int (pos i) ++ b']' ∷ []

-- pathContainsArray, with the path before and after the array
unfoldable pub path_contains_array : Keys → Option (Keys × Keys)
path_contains_array [] = none
path_contains_array (k ∷ path) =
    let rest = path_contains_array path in
    if k == any_item
    then some ([], path)
    else elim rest [ none ↦ none | some (pre, post) ↦ some (k ∷ pre, post) ]

-- pathsContainArray
unfoldable pub paths_contain_array : List Keys → Bool
unfolding path_contains_array
paths_contain_array [] = false
paths_contain_array (path ∷ paths) =
    let rest = paths_contain_array paths in
    elim (path_contains_array path) [ some _ ↦ true | none ↦ rest ]

-- the paths that ArrayEach appends, for the items from `index` on, `left` of them
unfoldable pub item_paths : Keys → Keys → ℕ → ℕ → List Keys
item_paths pre post index zero = []
item_paths pre post index (suc left) =
    (pre ++ item index ∷ post) ∷ item_paths pre post (suc index) left

-- how many arrays a path goes through: the fuel
unfoldable pub arrays : Keys → ℕ
arrays [] = 0
arrays (k ∷ path) = let rest = arrays path in if k == any_item then suc rest else rest

module _ (json : JsonParser) (input : Bytes) where
  -- what the loop of resolvePaths puts out for one path
  unfoldable pub resolve_path : Keys → List Keys
  resolve_path path = elim (path_contains_array path) [
    | none ↦ path ∷ []
    | some (pre, post) ↦ item_paths pre post 0 (json.array_items input pre)
  ]

  unfoldable pub resolve_each : List Keys → List Keys
  resolve_each [] = []
  resolve_each (path ∷ paths) = resolve_path path ++ resolve_each paths

  -- resolvePaths, on fuel for the recursive calls
  unfoldable pub resolve_paths : ℕ → List Keys → Option (List Keys)
  resolve_paths zero paths = none
  resolve_paths (suc fuel) paths =
      let again = resolve_paths fuel (resolve_each paths) in
      if not (paths_contain_array paths)
      then some paths
      else if paths_contain_array (resolve_each paths)
      then again
      else some (resolve_each paths)

  -- resolvePaths on one path, with enough fuel
  unfoldable pub resolved : Keys → List Keys
  resolved path = elim (resolve_paths (suc (arrays path)) (path ∷ [])) [
    | none ↦ []
    | some paths ↦ paths
  ]

-- s[low:high]
unfoldable pub slice : Bytes → ℕ → ℕ → Bytes
slice [] low high = []
slice (c ∷ s) zero zero = []
slice (c ∷ s) zero (suc high) = c ∷ slice s zero high
slice (c ∷ s) (suc low) high = slice s low (high - 1)

-- What a call returns: bytes, or nil beside an error, or it panics.
pub data Outcome : Type 0 where
  done : Bytes → Outcome
  fails panics : Outcome

-- wgpb.PostResolveGetTransformation
pub record Get : Type 0 where
  pub from : Keys
  pub to : Keys

-- wgpb.PostResolveTransformation; `other` is any number that the enumeration of kinds does not name
pub data Transformation : Type 0 where
  get_transformation : Option Get → Transformation
  other : Transformation

-- the value to set: a string with its quotes, cut from the input; none is a slice out of range
unfoldable pub value_of : Bytes → Found → Option Bytes
unfolding slice
value_of input found =
    let low = found.offset - length found.value - 2 in
    if found.is_string
    then if ltb found.offset (length found.value + 2) || ltb (length input) found.offset
      then none
      else some (slice input low found.offset)
    else some found.value

module _ (json : JsonParser) where
  -- the loop of applyGet
  unfoldable pub apply_each : List Keys → List Keys → Bytes → Outcome
  apply_each [] tos input = done input
  apply_each (from ∷ froms) [] input = panics
  apply_each (from ∷ froms) (to ∷ tos) input = elim (json.get input from) [
    | none ↦ elim (json.set input (str "null") to) [
      | none ↦ fails
      | some output ↦ apply_each froms tos output
    ]
    | some found ↦ elim (value_of input found) [
      | none ↦ panics
      | some value ↦ elim (json.set input value to) [
        | none ↦ fails
        | some output ↦ apply_each froms tos output
      ]
    ]
  ]

  -- applyGet
  unfoldable pub apply_get : Bytes → Get → Outcome
  apply_get input get =
      let froms = resolved json input get.from in
      let tos = resolved json input get.to in
      if not (eqb (length froms) (length tos)) then fails else apply_each froms tos input

  -- Transform
  unfoldable pub transform : List Transformation → Bytes → Outcome
  transform [] input = done input
  transform (other ∷ later) input = transform later input
  transform (get_transformation none ∷ later) input = panics
  transform (get_transformation (some get) ∷ later) input = elim (apply_get input get) [
    | done output ↦ transform later output
    | fails ↦ fails
    | panics ↦ panics
  ]
