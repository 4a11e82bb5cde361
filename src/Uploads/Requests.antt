-- ===== src/Uploads/Requests.antt =====
-- pkg/s3uploadclient/s3uploadclient.go: UploadFile, the handler of uploads.
use wundergraph.Prelude.{
  Bool, true, not, ◌||◌, Option, none, some, List, [], ◌∷◌, ◌++◌, Bytes, str, if◌then◌else◌,
  is_empty, is_some,
}
use wundergraph.Prelude.Int.{ℤ, negsuc}
use wundergraph.Auth.Redirect.{Regexp}
use wundergraph.Hooks.Client.Monad.{Result, ok, err}
use wundergraph.Hooks.Client.{World, post_upload}
use wundergraph.Hooks.Client.Upload.{do_upload_request}
use wundergraph.Handlers.{Sent, set_header, status, body, http_error}
use wundergraph.Uploads.{UploadError, no_hook_data, hook_failed, PreparedProfile, upload_profile}
use wundergraph.Uploads.Client.{
  Part, Incoming, part, broken, UploadRequest, UploadInfo, UploadTools, max_upload_size, Storage,
  S3UploadClient,
}
use wundergraph.Uploads.Parts.{hook_data, upload_to_s3}

-- how the loop on the parts ends: with the text of an error, or with the keys of the files
pub data Ended : Type 0 where
  refused : Bytes → Ended
  finished : List Bytes → Ended

module _ (re : Regexp) (t : UploadTools) where
  open re use {Matcher}

  size_of : Result UploadError UploadInfo → ℤ
  size_of (err e) = negsuc 0
  size_of (ok info) = info.size

  error_of : Result UploadError UploadInfo → Option UploadError
  error_of (err e) = some e
  error_of (ok info) = none

  tell_hook : Bytes → Bytes → Option Bytes → World → Option UploadError × World
  tell_hook client_name name none w = (some no_hook_data, w)
  tell_hook client_name name (some data') w =
      let (r, w') =
        do_upload_request t.hooks t.unmarshal_upload client_name name post_upload data' w in
      (elim r [ ok resp ↦ none | err e ↦ some (hook_failed e) ], w')

  unfoldable pub tell_profile :
      S3UploadClient re t
      → UploadRequest
      → Part
      → Result UploadError UploadInfo
      → Result UploadError (Bytes × Option (PreparedProfile Matcher))
      → World
      → Option UploadError × World
  unfolding tell_hook size_of error_of
  tell_profile c r file info (err e) w = (some e, w)
  tell_profile c r file info (ok (name, none)) w = (none, w)
  tell_profile c r file info (ok (name, some p)) w =
      if p.profile.use_post_upload_hook
      then tell_hook c.name name (hook_data re t r file (size_of info) (error_of info)) w
      else (none, w)

  -- postUpload
  unfoldable pub post_upload_error :
      S3UploadClient re t
      → UploadRequest
      → Part
      → Result UploadError UploadInfo
      → World
      → Option UploadError × World
  unfolding tell_profile
  post_upload_error c r file info w =
      tell_profile c r file info (upload_profile c.profiles r.header) w

  unfoldable pub or_error :
      Option UploadError → Result UploadError UploadInfo → Result UploadError UploadInfo
  or_error none info = info
  or_error (some e) info = err e

  -- handlePart
  unfoldable pub handle_part :
      S3UploadClient re t → UploadRequest → Part → Storage → Result UploadError UploadInfo × Storage
  unfolding or_error
  handle_part c r file s =
      let (info, s') = upload_to_s3 re t c r file s in
      let (error, w) = post_upload_error c r file info s'.world in
      (or_error error info, record s' { world = w })

  -- the loop on the parts after one, whose error ends it
  unfoldable pub after_part :
      Result UploadError UploadInfo → Storage → (Bytes → Ended × Storage) → Ended × Storage
  after_part (err e) s next = (refused (t.error_text e), s)
  after_part (ok info) s next = next info.key

  -- The loop on the parts, for the keys so far.
  unfoldable pub upload_parts :
      S3UploadClient re t → UploadRequest → List Incoming → List Bytes → Storage → Ended × Storage
  unfolding handle_part after_part
  upload_parts c r [] keys s = (finished keys, s)
  upload_parts c r (broken text ∷ parts) keys s = (refused text, s)
  upload_parts c r (part file ∷ parts) keys s =
      let skipped = upload_parts c r parts keys s in
      let (info, s') = handle_part c r file s in
      if is_empty file.file_name
      then skipped
      else after_part info s' (λ key. upload_parts c r parts (keys ++ key ∷ []) s')

  unfoldable pub answer_upload : Ended → List Sent
  answer_upload (refused text) = http_error text 400 ∷ []
  answer_upload (finished keys) = elim (t.marshal_keys keys) [
    | err text ↦ http_error text 500 ∷ []
    | ok files ↦ set_header (str "Content-Type") (str "application/json") ∷ body files ∷ []
  ]

  unfoldable pub needs_user : Result UploadError (Bytes × Option (PreparedProfile Matcher)) → Bool
  needs_user (err e) = true
  needs_user (ok (name, none)) = true
  needs_user (ok (name, some p)) = p.profile.require_authentication

  -- hasRequiredAuthentication
  unfoldable pub has_required_authentication : S3UploadClient re t → UploadRequest → Bool
  unfolding needs_user
  has_required_authentication c r =
      not (needs_user (upload_profile c.profiles r.header)) || is_some r.user

  unfoldable pub upload_read :
      S3UploadClient re t
      → UploadRequest
      → Result Bytes (List Incoming)
      → Storage
      → List Sent × Storage
  unfolding upload_parts answer_upload
  upload_read c r (err text) s = (http_error text 500 ∷ [], s)
  upload_read c r (ok parts) s =
      let (ended, s') = upload_parts c r parts [] s in (answer_upload ended, s')

  -- UploadFile
  unfoldable pub upload_file : S3UploadClient re t → UploadRequest → Storage → List Sent × Storage
  unfolding upload_read has_required_authentication
  upload_file c r s =
      if has_required_authentication c r
      then upload_read c r (r.reader max_upload_size) s
      else (status 401 ∷ [], s)
