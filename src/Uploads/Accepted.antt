-- ===== src/Uploads/Accepted.antt =====
-- pkg/s3uploadclient/s3uploadclient.go: which files a profile accepts, in the words of the profile.
use wundergraph.Prelude.{
  ℕ, ◌+◌, ◌≤◌, ◌≡◌, ◌≢◌, ◌↔◌, ◌⊎◌, inl, inr, refl, subst, true, false, ◌&&◌, Option, none, some,
  List, [], ◌∷◌, Bytes, eq_iff, leb, eqb, arith, Bool-cases, Option-cases, Any, Has, contains_byte,
  is_empty, if◌then◌else◌, if_cases,
}
use wundergraph.Prelude.Int.{ℤ, pos, negsuc}
use wundergraph.Auth.Redirect.{Regexp}
use wundergraph.Uploads.{
  UploadProfile, MetadataSchema, to_lower, wildcards, insert, sort_strings, with_dot, normalized,
  all_normalized, ext, pattern_of, pattern_matches, mime_types, with_schema, matches, exceeds,
  validate_file,
}
use wundergraph.Uploads.Extensions.{allows_extension-sort_strings}

abbrev pub FitsSize : ℤ → ℕ → Type 0
FitsSize (pos n) size = size ≤ n
FitsSize (negsuc n) size = Unit

insert_full : (x : Bytes) (xs : List Bytes) → is_empty (insert x xs) ≡ false
unfolding insert
insert_full x [] = refl
insert_full x (y ∷ xs) = ground arith

is_empty-sort_strings :
    (es : List Bytes) → is_empty (sort_strings (all_normalized es)) ≡ is_empty es
unfolding sort_strings all_normalized
is_empty-sort_strings [] = refl
is_empty-sort_strings (e ∷ es) = insert_full (normalized e) (sort_strings (all_normalized es))

pub is_empty-eq_true : {A : Type 0} (xs : List A) → (is_empty xs ≡ true) ↔ (xs ≡ [])
is_empty-eq_true [] = ground arith
is_empty-eq_true (x ∷ xs) = ground arith

module _ (re : Regexp) where
  open re use {Matcher, compile, match_string}

  -- an allowed MIME type takes a content type: it is the same in lower case, or has a wildcard and the
  -- regular expression made of it matches
  abbrev pub Takes : Bytes → Bytes → Type 0
  Takes content_type m =
      (to_lower m ≡ content_type)
      ⊎ ((x : Matcher) × (contains_byte b'*' (to_lower m) ≡ true)
          × (compile (wildcards (to_lower m)) ≡ some x)
          × (match_string x content_type ≡ true))

  pattern_matches_iff :
      (m content_type : Bytes)
      → (pattern_matches re (pattern_of re m) content_type ≡ true) ↔ (
          (x : Matcher) × (contains_byte b'*' m ≡ true)
          × (compile (wildcards m) ≡ some x)
          × (match_string x content_type ≡ true))
  unfolding pattern_matches pattern_of
  pattern_matches_iff m c = elim (Bool-cases (contains_byte b'*' m)) [
    | inl e ↦ elim (Option-cases (compile (wildcards m))) [
      | inl n ↦ (λ h. absurd (grind arith), λ (x, w, q, y). absurd (grind arith))
      | inr (x, q) ↦ (λ h. (x, e, q, grind arith), λ (y, w, q', z). grind arith)
    ]
    | inr e ↦ (λ h. absurd (grind arith), λ (x, w, q, y). absurd (grind arith))
  ]

  matches_iff :
      (ms : List Bytes) (content_type : Bytes)
      → (matches re (mime_types re ms) content_type ≡ true) ↔ Any (Takes content_type) ms
  unfolding matches mime_types
  matches_iff [] c = ground arith
  matches_iff (m ∷ ms) c =
      ground (arith, eq_iff (to_lower m) c, pattern_matches_iff (to_lower m) c, matches_iff ms c)

  is_empty-mime_types : (ms : List Bytes) → is_empty (mime_types re ms) ≡ is_empty ms
  unfolding mime_types
  is_empty-mime_types [] = refl
  is_empty-mime_types (m ∷ ms) = refl

  -- what a profile permits
  pub record Permits (p : UploadProfile) (size : ℕ) (content_type file_name : Bytes) : Type 0 where
    pub size_fits : FitsSize p.max_file_size_bytes size
    pub mime_type_is_allowed :
        (p.allowed_mime_types ≡ []) ⊎ Any (Takes (to_lower content_type)) p.allowed_mime_types
    pub extension_is_allowed :
        (p.allowed_file_extensions ≡ [])
        ⊎ Has (ext file_name) (all_normalized p.allowed_file_extensions)

  exceeds_iff : (m : ℤ) (size : ℕ) → (exceeds m size ≡ false) ↔ FitsSize m size
  unfolding exceeds
  exceeds_iff (pos n) size = ground arith
  exceeds_iff (negsuc n) size = ground arith

  module _ (p : UploadProfile) (schema : Option MetadataSchema) where
    -- A file is valid for a profile as NewS3UploadClient prepares it exactly if it is not larger than
    -- the profile's maximum, where that is not negative; its content type in lower case is one of the
    -- allowed types in lower case or matches the regular expression of one with a wildcard, where types
    -- are listed; and the extension of its name, as it stands with its case, is one of the allowed ones
    -- in lower case and with their dots, where extensions are listed. So extensions are not compared
    -- without regard to case, which the comment on AllowedFileExtensions promises.
    pub validate_file_iff :
        (size : ℕ) (content_type file_name : Bytes)
        → (validate_file re (with_schema re p schema) size content_type file_name ≡ none)
          ↔ Permits p size content_type file_name
    unfolding validate_file with_schema
    validate_file_iff size c n = ground (
      arith,
      exceeds_iff p.max_file_size_bytes size,
      is_empty-mime_types p.allowed_mime_types,
      is_empty-eq_true p.allowed_mime_types,
      matches_iff p.allowed_mime_types (to_lower c),
      is_empty-sort_strings p.allowed_file_extensions,
      is_empty-eq_true p.allowed_file_extensions,
      allows_extension-sort_strings (ext n) (all_normalized p.allowed_file_extensions),
    )

lower_byte : ℕ → ℕ
lower_byte c = if leb b'A' c && leb c b'Z' then c + 32 else c

lower_byte-idempotent : (c : ℕ) → lower_byte (lower_byte c) ≡ lower_byte c
unfolding lower_byte
lower_byte-idempotent c = ground arith

to_lower-idempotent : (s : Bytes) → to_lower (to_lower s) ≡ to_lower s
unfolding to_lower lower_byte
to_lower-idempotent [] = refl
to_lower-idempotent (c ∷ s) = λ i. lower_byte-idempotent c i ∷ to_lower-idempotent s i

to_lower-with_dot : (s : Bytes) → to_lower s ≡ s → to_lower (with_dot s) ≡ with_dot s
unfolding with_dot to_lower
to_lower-with_dot [] h = refl
to_lower-with_dot (c ∷ s) h =
    if_cases (λ z. to_lower z ≡ z) (eqb c b'.') (c ∷ s) (b'.' ∷ c ∷ s) h (λ i. b'.' ∷ h i)

all_normalized-to_lower : (e : Bytes) (es : List Bytes) → Has e (all_normalized es) → to_lower e ≡ e
unfolding all_normalized normalized
all_normalized-to_lower e [] h = absurd h
all_normalized-to_lower e (x ∷ es) (inl q) =
    subst (λ z. to_lower z ≡ z) q (to_lower-with_dot (to_lower x) (to_lower-idempotent x))
all_normalized-to_lower e (x ∷ es) (inr h) = all_normalized-to_lower e es h

-- A file whose name has an upper-case letter in its extension is refused by every profile that lists
-- extensions, whether it lists this one in upper case, in lower case, or not.
pub validate_file-uppercase :
    (re : Regexp) (p : UploadProfile) (schema : Option MetadataSchema) (size : ℕ)
    (content_type file_name : Bytes)
    → p.allowed_file_extensions ≢ []
    → to_lower (ext file_name) ≢ ext file_name
    → validate_file re (with_schema re p schema) size content_type file_name ≢ none
validate_file-uppercase re p schema size c n listed upper accepted =
    let permits = (validate_file_iff re p schema size c n).0 accepted in
    elim permits.extension_is_allowed [
      | inl none_listed ↦ listed none_listed
      | inr h ↦ upper (all_normalized-to_lower (ext n) p.allowed_file_extensions h)
    ]
