-- ===== src/Uploads/Built.antt =====
-- pkg/s3uploadclient/s3uploadclient.go: a client as NewS3UploadClient builds it, and its uploads.
use wundergraph.Prelude.{
  some_injective, All-weaken, ◌≡◌, ◌⊎◌, inl, inr, refl, ap, sym, subst, not, str, Bool, true, false,
  Option, none, some, List, [], ◌∷◌, Bytes, is_empty, if◌then◌else◌, Bool-cases, arith, if_true,
  if_false, length,
}
use wundergraph.Auth.Redirect.{Regexp}
use wundergraph.Hooks.Client.Monad.{ok, err}
use wundergraph.Hooks.Header.{get}
use wundergraph.Uploads.{
  profile_required, UploadProfile, PreparedProfile, MetadataSchema, with_schema, schema_name,
  prepare_all, validate_file, profile_at, found_profile, upload_profile,
}
use wundergraph.Uploads.Client.{
  Part, holds, UploadRequest, Object, UploadTools, Storage, S3UploadClient, Options, new_client,
  new_s3_upload_client,
}
use wundergraph.Uploads.Parts.{metadata_of, check_metadata, object_of}
use wundergraph.Uploads.Requests.{upload_file}
use wundergraph.Uploads.Accepted.{Permits, validate_file_iff}
use wundergraph.Uploads.Stored.{Grows, Allows, upload_file-Granted}
use wundergraph.Uploads.Prepared.{Prepared, Made, profile_at-prepare_all, prepare_all-nil}

module _ (re : Regexp) (t : UploadTools)
    (compile_string : Bytes → Bytes → Option MetadataSchema) where
  open re use {Matcher}

  abbrev pub profile_name : UploadRequest → Bytes
  profile_name r = get (str "X-Upload-Profile") r.header

  -- the schema of a profile takes the metadata of a request, where there is one
  abbrev pub Describes : Options re t → UploadRequest → UploadProfile → Type 0
  Describes o r p =
      (p.metadata_json_schema ≡ [])
      ⊎ ((schema : MetadataSchema) × (compile_string
              (schema_name re compile_string o.name (profile_name r)) p.metadata_json_schema
            ≡ some schema)
          × (t.is_json (metadata_of re t r) ≡ true)
          × (schema (metadata_of re t r) ≡ true))

  -- a file is held to the profile that the request names; without profiles nothing is held to any
  abbrev pub Suits : Options re t → UploadRequest → Part → Bytes → Type 0
  Suits o r file contents =
      (o.profiles ≡ [])
      ⊎ ((p : UploadProfile) × (profile_at (profile_name r) o.profiles ≡ some p)
          × Permits re p (length contents) file.content_type file.file_name
          × Describes o r p)

  check_metadata-none :
      (o : Options re t) (r : UploadRequest) (p : UploadProfile) (s : Option MetadataSchema)
      → Prepared re compile_string o.name (profile_name r) p s
      → check_metadata re t s (metadata_of re t r) ≡ none
      → Describes o r p
  unfolding check_metadata Prepared
  check_metadata-none o r p none e h = inl e
  check_metadata-none o r p (some schema) e h = inr (schema, e, ground arith, ground arith)

  module _ (o : Options re t) (r : UploadRequest) (file : Part) (contents : Bytes) where
    Made-Suits :
        (q : PreparedProfile Matcher)
        → Made re compile_string o.name o.profiles (profile_name r) q
        → Allows re t r file contents (ok (profile_name r, some q))
        → Suits o r file contents
    unfolding Made with_schema
    Made-Suits q (p, s, at, w, pr) (valid, described) = inr (
      p,
      at,
      (validate_file_iff re p s (length contents) file.content_type file.file_name).0 (
          subst (λ z. validate_file re z (length contents) file.content_type file.file_name ≡ none)
            (sym w) valid),
      check_metadata-none o r p s pr (
          subst
            (λ (z : PreparedProfile Matcher).
              check_metadata re t z.metadata_json_schema (metadata_of re t r) ≡ none)
            (sym w) described),
    )

    found_profile-Suits :
        (all : List (Bytes × PreparedProfile Matcher)) (q : Option (PreparedProfile Matcher))
        → prepare_all re compile_string o.name o.profiles ≡ some all
        → profile_at (profile_name r) all ≡ q
        → Allows re t r file contents (found_profile (profile_name r) q)
        → Suits o r file contents
    unfolding found_profile
    found_profile-Suits all none e at h = absurd h
    found_profile-Suits all (some q) e at h =
        Made-Suits q
          (profile_at-prepare_all re compile_string o.name o.profiles all (profile_name r) q e at) h

    unnamed-Suits :
        (all : List (Bytes × PreparedProfile Matcher))
        → prepare_all re compile_string o.name o.profiles ≡ some all
        → Allows re t r file contents
            (if not (is_empty all) then err profile_required else ok ([], none))
        → Suits o r file contents
    unnamed-Suits [] e h = inl (prepare_all-nil re compile_string o.name o.profiles e)
    unnamed-Suits (x ∷ all) e h = absurd h

    Allows-Suits :
        (all : List (Bytes × PreparedProfile Matcher))
        → prepare_all re compile_string o.name o.profiles ≡ some all
        → Allows re t r file contents (upload_profile all r.header)
        → Suits o r file contents
    unfolding upload_profile
    Allows-Suits all e h = elim (Bool-cases (not (is_empty (profile_name r)))) [
      | inl b ↦
          found_profile-Suits all _ e refl (subst (Allows re t r file contents) (if_true _ _ b) h)
      | inr b ↦ unnamed-Suits all e (subst (Allows re t r file contents) (if_false _ _ b) h)
    ]

  new_client-profiles :
      (o : Options re t) (all : Option (List (Bytes × PreparedProfile Matcher))) (bucket : Bool)
      (c : S3UploadClient re t)
      → new_client re t o all bucket ≡ some c
      → all ≡ some c.profiles
  unfolding new_client
  new_client-profiles o none bucket c h = cc
  new_client-profiles o (some ps) false c h = cc
  new_client-profiles o (some ps) true c h =
      ap (λ (x : S3UploadClient re t). some x.profiles) (some_injective h)

  -- an object is made of a file that suits the request, and its contents
  abbrev pub Suited : Options re t → S3UploadClient re t → UploadRequest → Object → Type 0
  Suited o c r object =
      (file : Part) × (contents : Bytes) × (key : Bytes) × (file.temp ≡ holds contents)
      × (object ≡ object_of re t c r file contents key)
      × Suits o r file contents

  -- A client that NewS3UploadClient has built gives the storage only objects made of a file of which it
  -- has read the contents, and the client was given no profiles or has one with the name that the request
  -- says: that profile permits the size of the contents, the content type and the extension of the file,
  -- and if it has a schema, the metadata of the request is JSON and the schema takes it. What the storage
  -- was given before stays.
  pub new_s3_upload_client-Suits :
      (o : Options re t) (client : Bool) (exists : Option Bool) (made : Bool)
      (c : S3UploadClient re t) (r : UploadRequest) (s : Storage)
      → new_s3_upload_client re t compile_string o client exists made ≡ some c
      → Grows (Suited o c r) s.objects (upload_file re t c r s).1.objects
  unfolding new_s3_upload_client
  new_s3_upload_client-Suits o false exists made c r s h = cc
  new_s3_upload_client-Suits o true exists made c r s h =
      let (new, grown, granted) = upload_file-Granted re t c r s in
      (
        new,
        grown,
        All-weaken
            (λ object (file, contents, key, held, made_of, allows). (
              file,
              contents,
              key,
              held,
              made_of,
              Allows-Suits o r file contents c.profiles (new_client-profiles o _ _ c h) allows,
            ))
            new granted,
      )
