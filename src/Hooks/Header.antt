-- ===== src/Hooks/Header.antt =====
-- net/http's Header, as pkg/hooks uses it: names are canonical, and a name has a list of values.
pub mod Laws
use wundergraph.Prelude.{
  ℕ, ◌+◌, ◌-◌, Bool, true, false, not, ◌&&◌, ◌||◌, Option, none, some, List, [], ◌∷◌, Bytes, str,
  ◌==◌, leb, eqb, if◌then◌else◌, join,
}

abbrev pub Header : Type 0
Header = List (Bytes × List Bytes)

unfoldable pub is_lower : ℕ → Bool
is_lower c = leb b'a' c && leb c b'z'

unfoldable pub is_upper : ℕ → Bool
is_upper c = leb b'A' c && leb c b'Z'

one_of : ℕ → Bytes → Bool
one_of c [] = false
one_of c (x ∷ xs) = let rest = one_of c xs in if eqb c x then true else rest

-- a byte of a header's name
unfoldable pub is_token : ℕ → Bool
unfolding is_lower is_upper one_of
is_token c =
    is_lower c || is_upper c || (leb b'0' c && leb c b'9') || one_of c (str "!#$%&'*+-.^_`|~")

unfoldable pub all_tokens : Bytes → Bool
all_tokens [] = true
all_tokens (c ∷ s) = is_token c && all_tokens s

unfoldable pub canonical_byte : Bool → ℕ → ℕ
unfolding is_lower is_upper
canonical_byte upper c =
    if upper && is_lower c then c - 32 else if not upper && is_upper c then c + 32 else c

unfoldable pub canonical_from : Bool → Bytes → Bytes
unfolding canonical_byte
canonical_from upper [] = []
canonical_from upper (c ∷ s) = canonical_byte upper c ∷ canonical_from (eqb c b'-') s

-- textproto.CanonicalMIMEHeaderKey: upper case at the start and after a dash, lower case elsewhere; a
-- name with a byte that no name may have is left as it is
unfoldable pub canonical : Bytes → Bytes
unfolding all_tokens canonical_from
canonical name = if all_tokens name then canonical_from true name else name

unfoldable pub put : Bytes → List Bytes → Header → Header
put k vs [] = (k, vs) ∷ []
put k vs ((j, ws) ∷ h) = let rest = put k vs h in if j == k then (k, vs) ∷ h else (j, ws) ∷ rest

unfoldable pub lookup : Bytes → Header → Option (List Bytes)
lookup k [] = none
lookup k ((j, vs) ∷ h) = let rest = lookup k h in if j == k then some vs else rest

-- Header.Set
unfoldable pub set : Bytes → Bytes → Header → Header
unfolding canonical put
set name value h = put (canonical name) (value ∷ []) h

abbrev first_of_values : Option (List Bytes) → Bytes
first_of_values none = []
first_of_values (some []) = []
first_of_values (some (v ∷ _)) = v

-- Header.Get
unfoldable pub get : Bytes → Header → Bytes
unfolding canonical lookup
get name h = first_of_values (lookup (canonical name) h)

-- `for name := range headers { httpHeader.Set(name, headers[name]) }`, in the order of iteration
unfoldable pub set_all : List (Bytes × Bytes) → Header → Header
unfolding set
set_all [] h = h
set_all ((name, value) ∷ headers) h = set_all headers (set name value h)

-- HeaderSliceToCSV
unfoldable pub header_slice_to_csv : Header → List (Bytes × Bytes)
unfolding join
header_slice_to_csv [] = []
header_slice_to_csv ((k, vs) ∷ h) = (k, join b',' vs) ∷ header_slice_to_csv h

-- HeaderCSVToSlice
unfoldable pub header_csv_to_slice : List (Bytes × Bytes) → Header
header_csv_to_slice [] = []
header_csv_to_slice ((k, v) ∷ h) = (k, v ∷ []) ∷ header_csv_to_slice h
