-- ===== src/Uploads/Parts.antt =====
-- pkg/s3uploadclient/s3uploadclient.go: the upload of one part, from its checks to the storage.
use wundergraph.Prelude.{
  ℕ, Bool, true, not, Option, none, some, List, [], ◌∷◌, ◌++◌, Bytes, str, if◌then◌else◌, is_empty,
  length,
}
use wundergraph.Prelude.Int.{ℤ, pos, show_int}
use wundergraph.Auth.User.{User}
use wundergraph.Auth.Redirect.{Regexp}
use wundergraph.Webhook.Hex.{encode_to_string}
use wundergraph.Hooks.Header.{get}
use wundergraph.Hooks.Client.Monad.{Result, ok, err}
use wundergraph.Hooks.Client.{World, pre_upload}
use wundergraph.Hooks.Client.Upload.{do_upload_request}
use wundergraph.Uploads.{
  UploadError, metadata_not_json, metadata_refused, no_hook_data, hook_failed, no_temp_file,
  not_copied, not_hashed, not_put, MetadataSchema, PreparedProfile, ext, validate_file,
  upload_profile,
}
use wundergraph.Uploads.Client.{
  TempFile, not_created, breaks, holds, Part, UploadRequest, Object, UploadInfo, UploadTools,
  Storage, S3UploadClient,
}

module _ (re : Regexp) (t : UploadTools) where
  open re use {Matcher}

  set_known : Option Bytes → Bytes → List Bytes → Option Bytes
  set_known none data' path = none
  set_known (some value) data' path = t.hooks.set data' value path

  then_set : Option Bytes → Bool → Option Bytes → List Bytes → Option Bytes
  unfolding set_known
  then_set none wanted value path = none
  then_set (some data') wanted value path =
      if wanted then set_known value data' path else some data'

  -- `if user := authentication.UserFromContext(…); user != nil { … }`
  with_user : Option User → Option Bytes
  with_user none = some (str "{\"__wg\":{}}")
  with_user (some user) = elim (t.marshal_user user) [
    | none ↦ some (str "{\"__wg\":{}}")
    | some json ↦ t.hooks.set (str "{\"__wg\":{}}") json (str "__wg" ∷ str "user" ∷ [])
  ]

  abbrev pub metadata_of : UploadRequest → Bytes
  metadata_of r = get (str "X-Metadata") r.header

  -- hookData
  unfoldable pub hook_data : UploadRequest → Part → ℤ → Option UploadError → Option Bytes
  unfolding then_set with_user
  hook_data r p size upload_error =
      let file =
        t.marshal_file (record { name = p.file_name; size = size; mime_type = p.content_type }) in
      let with_file = then_set (with_user r.user) true file (str "file" ∷ []) in
      let with_meta =
        then_set with_file (not (is_empty (metadata_of r))) (some (metadata_of r))
          (str "meta" ∷ []) in
      elim upload_error [
        | none ↦ with_meta
        | some e ↦ then_set with_meta true (t.marshal_error (t.error_text e)) (str "error" ∷ [])
      ]

  -- the schema of the metadata
  unfoldable pub check_metadata : Option MetadataSchema → Bytes → Option UploadError
  check_metadata none metadata = none
  check_metadata (some schema) metadata =
      if not (t.is_json metadata)
      then some metadata_not_json
      else if schema metadata
      then none
      else some metadata_refused

  -- what the hook before an upload names the file
  ask_key : Bytes → Bytes → Option Bytes → World → Result UploadError Bytes × World
  ask_key client_name name none w = (err no_hook_data, w)
  ask_key client_name name (some data') w =
      let (r, w') =
        do_upload_request t.hooks t.unmarshal_upload client_name name pre_upload data' w in
      (elim r [ ok resp ↦ ok resp.file_key | err e ↦ err (hook_failed e) ], w')

  unfoldable pub hook_key :
      S3UploadClient re t
      → UploadRequest
      → Bytes
      → PreparedProfile Matcher
      → Part
      → ℕ
      → World
      → Result UploadError Bytes × World
  unfolding ask_key
  hook_key c r name p file size w =
      if p.profile.use_pre_upload_hook
      then ask_key c.name name (hook_data r file (pos size) none) w
      else (ok [], w)

  unfoldable pub checked_key :
      S3UploadClient re t
      → UploadRequest
      → Bytes
      → PreparedProfile Matcher
      → Part
      → ℕ
      → Option UploadError
      → World
      → Result UploadError Bytes × World
  unfolding hook_key
  checked_key c r name p file size (some e) w = (err e, w)
  checked_key c r name p file size none w = hook_key c r name p file size w

  unfoldable pub first_error : Option UploadError → Option UploadError → Option UploadError
  first_error (some e) later = some e
  first_error none later = later

  -- `if profile != nil { … }`
  unfoldable pub profile_key :
      S3UploadClient re t
      → UploadRequest
      → Bytes
      → Option (PreparedProfile Matcher)
      → Part
      → ℕ
      → World
      → Result UploadError Bytes × World
  unfolding checked_key first_error
  profile_key c r name none file size w = (ok [], w)
  profile_key c r name (some p) file size w =
      checked_key c r name p file size
        (first_error (validate_file re p size file.content_type file.file_name)
          (check_metadata p.metadata_json_schema (metadata_of r)))
        w

  -- the key that the hook gave, or one from the contents
  unfoldable pub key_or_hash : Result UploadError Bytes → Part → Bytes → Result UploadError Bytes
  key_or_hash (err e) file contents = err e
  key_or_hash (ok key) file contents =
      if is_empty key
      then elim (t.hash contents) [
        | none ↦ err not_hashed
        | some sum ↦ ok (encode_to_string sum ++ ext file.file_name)
      ]
      else ok key

  unfoldable pub keyed :
      S3UploadClient re t
      → UploadRequest
      → Part
      → Bytes
      → Result UploadError (Bytes × Option (PreparedProfile Matcher))
      → World
      → Result UploadError Bytes × World
  unfolding profile_key key_or_hash
  keyed c r file contents (err e) w = (err e, w)
  keyed c r file contents (ok (name, p)) w =
      let (key, w') = profile_key c r name p file (length contents) w in
      (key_or_hash key file contents, w')

  -- preUpload
  unfoldable pub pre_upload_key :
      S3UploadClient re t → UploadRequest → Part → Bytes → World → Result UploadError Bytes × World
  unfolding keyed
  pre_upload_key c r file contents w =
      keyed c r file contents (upload_profile c.profiles r.header) w

  unfoldable pub object_of : S3UploadClient re t → UploadRequest → Part → Bytes → Bytes → Object
  object_of c r file contents key = record {
    bucket_name = c.bucket_name;
    key = key;
    contents = contents;
    content_type = file.content_type;
    metadata = metadata_of r;
    original_filename = file.file_name;
    original_extension = ext file.file_name;
    original_size = show_int (pos (length contents));
  }

  -- FPutObject
  unfoldable pub f_put_object : Object → Storage → Result UploadError UploadInfo × Storage
  f_put_object o s = (
    elim (t.put_object s.objects o) [ none ↦ err not_put | some info ↦ ok info ],
    record s { objects = s.objects ++ o ∷ [] },
  )

  unfoldable pub put_under :
      S3UploadClient re t
      → UploadRequest
      → Part
      → Bytes
      → Result UploadError Bytes
      → Storage
      → Result UploadError UploadInfo × Storage
  unfolding f_put_object
  put_under c r file contents (err e) s = (err e, s)
  put_under c r file contents (ok key) s = f_put_object (object_of c r file contents key) s

  unfoldable pub upload_temp :
      S3UploadClient re t
      → UploadRequest
      → Part
      → TempFile
      → Storage
      → Result UploadError UploadInfo × Storage
  unfolding put_under pre_upload_key
  upload_temp c r file not_created s = (err no_temp_file, s)
  upload_temp c r file breaks s = (err not_copied, s)
  upload_temp c r file (holds contents) s =
      let (key, w) = pre_upload_key c r file contents s.world in
      put_under c r file contents key (record s { world = w })

  -- uploadToS3
  unfoldable pub upload_to_s3 :
      S3UploadClient re t → UploadRequest → Part → Storage → Result UploadError UploadInfo × Storage
  unfolding upload_temp
  upload_to_s3 c r file s = upload_temp c r file file.temp s
