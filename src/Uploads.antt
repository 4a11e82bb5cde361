-- ===== src/Uploads.antt =====
-- pkg/s3uploadclient/s3uploadclient.go: uploads to a storage, with the profiles that they are held to.
pub mod Client
pub mod Parts
pub mod Requests
pub mod Extensions
pub mod Accepted
pub mod Stored
pub mod Counted
pub mod Limits
pub mod Prepared
pub mod Built
pub mod Tests
use wundergraph.Prelude.{
  ℕ, zero, suc, ◌+◌, Bool, true, false, not, ◌&&◌, ◌||◌, Option, none, some, List, [], ◌∷◌, ◌++◌,
  Bytes, str, ◌==◌, eqb, ltb, leb, if◌then◌else◌, is_empty, length, get_elem?, contains_byte,
}
use wundergraph.Prelude.Int.{ℤ, pos, negsuc}
use wundergraph.Auth.Redirect.{Regexp}
use wundergraph.Hooks.Header.{Header, get}
use wundergraph.Hooks.Client.Monad.{Result, ok, err}
use wundergraph.Hooks.Client.{HookError}

-- UploadProfile; the schema of the metadata is a text, empty if there is none
pub record UploadProfile : Type 0 where
  pub require_authentication : Bool
  pub max_file_size_bytes : ℤ
  pub max_allowed_files : ℤ
  pub allowed_mime_types : List Bytes
  pub allowed_file_extensions : List Bytes
  pub metadata_json_schema : Bytes
  pub use_pre_upload_hook : Bool
  pub use_post_upload_hook : Bool

-- a *jsonschema.Schema, as what its Validate accepts
abbrev pub MetadataSchema : Type 0
MetadataSchema = Bytes → Bool

-- preparedProfile, with an allowed MIME type and its regular expression side by side. What the
-- profile's own lists are replaced by stands in their place.
pub record PreparedProfile (Matcher : Type 0) : Type 0 where
  pub profile : UploadProfile
  pub allowed_mime_types : List (Bytes × Option Matcher)
  pub allowed_file_extensions : List Bytes
  pub metadata_json_schema : Option MetadataSchema

-- Why an upload fails.
pub data UploadError : Type 0 where
  no_such_profile profile_required : UploadError
  too_large bad_mime_type bad_extension : UploadError
  metadata_not_json metadata_refused : UploadError
  no_hook_data : UploadError
  hook_failed : HookError → UploadError
  no_temp_file not_copied not_hashed not_put : UploadError

-- strings.ToLower for texts of ASCII; it leaves the letters outside of ASCII as they are, some of which
-- strings.ToLower maps
unfoldable pub to_lower : Bytes → Bytes
to_lower [] = []
to_lower (c ∷ s) = (if leb b'A' c && leb c b'Z' then c + 32 else c) ∷ to_lower s

-- strings.ReplaceAll(s, "*", ".*")
unfoldable pub wildcards : Bytes → Bytes
wildcards [] = []
wildcards (c ∷ s) = let rest = wildcards s in if eqb c b'*' then b'.' ∷ b'*' ∷ rest else c ∷ rest

-- the order of texts by their bytes
unfoldable pub less : Bytes → Bytes → Bool
less s [] = false
less [] (d ∷ t) = true
less (c ∷ s) (d ∷ t) = let rest = less s t in if eqb c d then rest else ltb c d

unfoldable pub insert : Bytes → List Bytes → List Bytes
unfolding less
insert x [] = x ∷ []
insert x (y ∷ ys) = let rest = insert x ys in if less y x then y ∷ rest else x ∷ y ∷ ys

-- sort.Strings
unfoldable pub sort_strings : List Bytes → List Bytes
unfolding insert
sort_strings [] = []
sort_strings (x ∷ xs) = insert x (sort_strings xs)

-- sort.SearchStrings on a sorted list: the first index whose text is not less
unfoldable pub search_strings : List Bytes → Bytes → ℕ
unfolding less
search_strings [] x = 0
search_strings (y ∷ ys) x = let rest = search_strings ys x in if less y x then suc rest else 0

-- `if ext != "" && ext[0] != '.'`
with_dot : Bytes → Bytes
with_dot [] = []
with_dot (c ∷ s) = if eqb c b'.' then c ∷ s else b'.' ∷ c ∷ s

-- an extension as a profile is given it
unfoldable pub normalized : Bytes → Bytes
unfolding to_lower with_dot
normalized extension = with_dot (to_lower extension)

unfoldable pub all_normalized : List Bytes → List Bytes
unfolding normalized
all_normalized [] = []
all_normalized (e ∷ es) = normalized e ∷ all_normalized es

-- filepath.Ext, on a system whose separator is a slash
unfoldable pub ext : Bytes → Bytes
ext [] = []
ext (c ∷ s) =
    let rest = ext s in
    if eqb c b'.' && not (contains_byte b'.' s || contains_byte b'/' s) then c ∷ s else rest

-- profile.MaxFileSizeBytes >= 0 && fileSize > int64(profile.MaxFileSizeBytes)
unfoldable pub exceeds : ℤ → ℕ → Bool
exceeds (pos n) size = ltb n size
exceeds (negsuc n) size = false

is_at : Option Bytes → Bytes → Bool
is_at none e = false
is_at (some x) e = x == e

-- pos < ec && profile.AllowedFileExtensions[pos] == ext
unfoldable pub allows_extension : List Bytes → Bytes → Bool
unfolding search_strings is_at
allows_extension extensions e = is_at (get_elem? extensions (search_strings extensions e)) e

module _ (re : Regexp) where
  open re use {Matcher, compile, match_string}

  -- the regular expression of a MIME type in lower case; one that does not compile is none
  unfoldable pub pattern_of : Bytes → Option Matcher
  unfolding wildcards
  pattern_of m = if contains_byte b'*' m then compile (wildcards m) else none

  unfoldable pub mime_types : List Bytes → List (Bytes × Option Matcher)
  unfolding to_lower pattern_of
  mime_types [] = []
  mime_types (m ∷ ms) = (to_lower m, pattern_of (to_lower m)) ∷ mime_types ms

  unfoldable pub with_schema : UploadProfile → Option MetadataSchema → PreparedProfile Matcher
  unfolding mime_types sort_strings all_normalized
  with_schema p schema = record {
    profile = p;
    allowed_mime_types = mime_types p.allowed_mime_types;
    allowed_file_extensions = sort_strings (all_normalized p.allowed_file_extensions);
    metadata_json_schema = schema;
  }

  unfoldable pub compiled : UploadProfile → Option MetadataSchema → Option (PreparedProfile Matcher)
  unfolding with_schema
  compiled p none = none
  compiled p (some schema) = some (with_schema p (some schema))

  unfoldable pub joined :
      Bytes
      → Option (PreparedProfile Matcher)
      → Option (List (Bytes × PreparedProfile Matcher))
      → Option (List (Bytes × PreparedProfile Matcher))
  joined name none rest = none
  joined name (some p) none = none
  joined name (some p) (some rest) = some ((name, p) ∷ rest)

  -- `compile_string` is CompileString of package jsonschema on a name and a schema, none its error.
  module _ (compile_string : Bytes → Bytes → Option MetadataSchema) (client_name : Bytes) where
    abbrev pub schema_name : Bytes → Bytes
    schema_name name = client_name ++ str "." ++ name ++ str ".metadata.schema.json"

    -- the body of the loop on the profiles in NewS3UploadClient
    unfoldable pub prepare : Bytes → UploadProfile → Option (PreparedProfile Matcher)
    unfolding compiled with_schema
    prepare name p =
        if is_empty p.metadata_json_schema
        then some (with_schema p none)
        else compiled p (compile_string (schema_name name) p.metadata_json_schema)

    -- the loop; the first error ends NewS3UploadClient
    unfoldable pub prepare_all :
        List (Bytes × UploadProfile) → Option (List (Bytes × PreparedProfile Matcher))
    unfolding prepare joined
    prepare_all [] = some []
    prepare_all ((name, p) ∷ ps) = joined name (prepare name p) (prepare_all ps)

  unfoldable pub pattern_matches : Option Matcher → Bytes → Bool
  pattern_matches none content_type = false
  pattern_matches (some x) content_type = match_string x content_type

  unfoldable pub matches : List (Bytes × Option Matcher) → Bytes → Bool
  unfolding pattern_matches
  matches [] content_type = false
  matches ((m, r) ∷ ms) content_type =
      m == content_type || pattern_matches r content_type || matches ms content_type

  -- validateFile, for the size, the content type and the name of a file
  unfoldable pub validate_file : PreparedProfile Matcher → ℕ → Bytes → Bytes → Option UploadError
  unfolding matches exceeds allows_extension to_lower ext
  validate_file p size content_type file_name =
      if exceeds p.profile.max_file_size_bytes size
      then some too_large
      else if not (is_empty p.allowed_mime_types)
          && not (matches p.allowed_mime_types (to_lower content_type))
      then some bad_mime_type
      else if not (is_empty p.allowed_file_extensions)
          && not (allows_extension p.allowed_file_extensions (ext file_name))
      then some bad_extension
      else none

unfoldable pub profile_at : {A : Type 0} → Bytes → List (Bytes × A) → Option A
profile_at name [] = none
profile_at name ((k, p) ∷ ps) = let rest = profile_at name ps in if k == name then some p else rest

found_profile : {A : Type 0} → Bytes → Option A → Result UploadError (Bytes × Option A)
found_profile name none = err no_such_profile
found_profile name (some p) = ok (name, some p)

-- uploadProfile, on the header of the request: the name of its profile, and the profile or nil
unfoldable pub upload_profile :
    {A : Type 0} → List (Bytes × A) → Header → Result UploadError (Bytes × Option A)
unfolding profile_at found_profile
upload_profile profiles header =
    let name = get (str "X-Upload-Profile") header in
    if not (is_empty name)
    then found_profile name (profile_at name profiles)
    else if not (is_empty profiles)
    then err profile_required
    else ok ([], none)
