-- ===== src/Uploads/Limits.antt =====
-- pkg/s3uploadclient/s3uploadclient.go: the limit of files in a profile.
use wundergraph.Prelude.{
  ℕ, not, ◌||◌, is_some, ◌==◌, str, ◌≡◌, refl, ap, ◌∙◌, Bool, true, false, Option, none, some, List,
  [], ◌∷◌, ◌++◌, Bytes, is_empty, if◌then◌else◌,
}
use wundergraph.Prelude.Int.{ℤ}
use wundergraph.Auth.Redirect.{Regexp}
use wundergraph.Hooks.Client.Monad.{Result, ok, err}
use wundergraph.Hooks.Client.{World}
use wundergraph.Hooks.Header.{Header, get}
use wundergraph.Handlers.{status}
use wundergraph.Uploads.{
  UploadError, PreparedProfile, validate_file, profile_at, found_profile, upload_profile,
}
use wundergraph.Uploads.Client.{
  Part, TempFile, not_created, breaks, holds, Incoming, part, broken, UploadRequest, UploadInfo,
  UploadTools, max_upload_size, Storage, S3UploadClient,
}
use wundergraph.Uploads.Parts.{
  hook_key, checked_key, profile_key, key_or_hash, keyed, pre_upload_key, object_of, put_under,
  upload_temp, upload_to_s3,
}
use wundergraph.Uploads.Requests.{
  Ended, or_error, after_part, tell_profile, post_upload_error, handle_part, upload_parts,
  answer_upload, needs_user, has_required_authentication, upload_read, upload_file,
}

if_agree :
    {A B : Type 0} (f : A → B) (b : Bool) {x y : A} {u v : B}
    → u ≡ f x
    → v ≡ f y
    → (if b then u else v) ≡ f (if b then x else y)
if_agree f true h k = h
if_agree f false h k = k

module _ (re : Regexp) (t : UploadTools) where
  open re use {Matcher}

  -- a prepared profile with another limit of files
  abbrev pub limited : ℤ → PreparedProfile Matcher → PreparedProfile Matcher
  limited n p = record p { profile = record p.profile { max_allowed_files = n } }

  abbrev pub all_limited :
      ℤ → List (Bytes × PreparedProfile Matcher) → List (Bytes × PreparedProfile Matcher)
  all_limited n [] = []
  all_limited n ((name, p) ∷ ps) = (name, limited n p) ∷ all_limited n ps

  abbrev pub with_limit : ℤ → S3UploadClient re t → S3UploadClient re t
  with_limit n c = record c { profiles = all_limited n c.profiles }

  abbrev Found : Type 0
  Found = Result UploadError (Bytes × Option (PreparedProfile Matcher))

  found_limited : ℤ → Found → Found
  found_limited n (err e) = err e
  found_limited n (ok (name, none)) = ok (name, none)
  found_limited n (ok (name, some p)) = ok (name, some (limited n p))

  option_limited : ℤ → Option (PreparedProfile Matcher) → Option (PreparedProfile Matcher)
  option_limited n none = none
  option_limited n (some p) = some (limited n p)

  profile_at-limited :
      (n : ℤ) (name : Bytes) (ps : List (Bytes × PreparedProfile Matcher))
      → profile_at name (all_limited n ps) ≡ option_limited n (profile_at name ps)
  unfolding profile_at option_limited
  profile_at-limited n name [] = refl
  profile_at-limited n name ((k, p) ∷ ps) =
      if_agree (option_limited n) (k == name) refl (profile_at-limited n name ps)

  found_profile-limited :
      (n : ℤ) (name : Bytes) (p : Option (PreparedProfile Matcher))
      → found_profile name (option_limited n p) ≡ found_limited n (found_profile name p)
  unfolding found_profile found_limited option_limited
  found_profile-limited n name none = refl
  found_profile-limited n name (some p) = refl

  upload_profile-limited :
      (n : ℤ) (ps : List (Bytes × PreparedProfile Matcher)) (h : Header)
      → upload_profile (all_limited n ps) h ≡ found_limited n (upload_profile ps h)
  unfolding upload_profile found_limited
  upload_profile-limited n [] h =
      if_agree (found_limited n) (not (is_empty (get (str "X-Upload-Profile") h))) refl refl
  upload_profile-limited n ((k, p) ∷ ps) h =
      if_agree (found_limited n) (not (is_empty (get (str "X-Upload-Profile") h)))
        (ap (found_profile _) (profile_at-limited n _ ((k, p) ∷ ps))
          ∙ found_profile-limited n _ (profile_at _ ((k, p) ∷ ps)))
        refl

  -- the rest of handlePart after uploadToS3
  told :
      S3UploadClient re t
      → UploadRequest
      → Part
      → Result UploadError UploadInfo × Storage
      → Result UploadError UploadInfo × Storage
  told c r file (info, s) =
      let (e, w) = post_upload_error re t c r file info s.world in
      (or_error re t e info, record s { world = w })

  module _ (n : ℤ) (c : S3UploadClient re t) (r : UploadRequest) where
    checked_key-limited :
        (name : Bytes) (p : PreparedProfile Matcher) (file : Part) (size : ℕ)
        (e : Option UploadError) (w : World)
        → checked_key re t (with_limit n c) r name (limited n p) file size e w
          ≡ checked_key re t c r name p file size e w
    unfolding checked_key hook_key
    checked_key-limited name p file size none w = refl
    checked_key-limited name p file size (some e) w = refl

    keyed-limited :
        (file : Part) (contents : Bytes) (up : Found) (w : World)
        → keyed re t (with_limit n c) r file contents (found_limited n up) w
          ≡ keyed re t c r file contents up w
    unfolding keyed found_limited profile_key validate_file
    keyed-limited file contents (err e) w = refl
    keyed-limited file contents (ok (name, none)) w = refl
    keyed-limited file contents (ok (name, some p)) w =
        ap (λ (z : Result UploadError Bytes × World). (key_or_hash re t z.0 file contents, z.1))
          (checked_key-limited name p file _ _ w)

    tell_profile-limited :
        (file : Part) (info : Result UploadError UploadInfo) (up : Found) (w : World)
        → tell_profile re t (with_limit n c) r file info (found_limited n up) w
          ≡ tell_profile re t c r file info up w
    unfolding tell_profile found_limited
    tell_profile-limited file info (err e) w = refl
    tell_profile-limited file info (ok (name, none)) w = refl
    tell_profile-limited file info (ok (name, some p)) w = refl

    needs_user-limited : (up : Found) → needs_user re t (found_limited n up) ≡ needs_user re t up
    unfolding needs_user found_limited
    needs_user-limited (err e) = refl
    needs_user-limited (ok (name, none)) = refl
    needs_user-limited (ok (name, some p)) = refl

    at_limit :
        upload_profile (all_limited n c.profiles) r.header
        ≡ found_limited n (upload_profile c.profiles r.header)
    at_limit = upload_profile-limited n c.profiles r.header

    pre_upload_key-limited :
        (file : Part) (contents : Bytes) (w : World)
        → pre_upload_key re t (with_limit n c) r file contents w
          ≡ pre_upload_key re t c r file contents w
    unfolding pre_upload_key
    pre_upload_key-limited file contents w =
        ap (λ up. keyed re t (with_limit n c) r file contents up w) at_limit
        ∙ keyed-limited file contents _ w

    put_under-limited :
        (file : Part) (contents : Bytes) (k : Result UploadError Bytes) (s : Storage)
        → put_under re t (with_limit n c) r file contents k s ≡ put_under re t c r file contents k s
    unfolding put_under object_of
    put_under-limited file contents (err e) s = refl
    put_under-limited file contents (ok key) s = refl

    upload_temp-limited :
        (file : Part) (temp : TempFile) (s : Storage)
        → upload_temp re t (with_limit n c) r file temp s ≡ upload_temp re t c r file temp s
    unfolding upload_temp
    upload_temp-limited file not_created s = refl
    upload_temp-limited file breaks s = refl
    upload_temp-limited file (holds contents) s =
        put_under-limited file contents _ _
        ∙ ap
            (λ (z : Result UploadError Bytes × World).
              put_under re t c r file contents z.0 (record s { world = z.1 }))
            (pre_upload_key-limited file contents s.world)

    post_upload_error-limited :
        (file : Part) (info : Result UploadError UploadInfo) (w : World)
        → post_upload_error re t (with_limit n c) r file info w
          ≡ post_upload_error re t c r file info w
    unfolding post_upload_error
    post_upload_error-limited file info w =
        ap (λ up. tell_profile re t (with_limit n c) r file info up w) at_limit
        ∙ tell_profile-limited file info _ w

    told-limited :
        (file : Part) (z : Result UploadError UploadInfo × Storage)
        → told (with_limit n c) r file z ≡ told c r file z
    unfolding told
    told-limited file (info, s) =
        ap (λ (e : Option UploadError × World). (or_error re t e.0 info, record s { world = e.1 }))
          (post_upload_error-limited file info s.world)

    handle_part-limited :
        (file : Part) (s : Storage)
        → handle_part re t (with_limit n c) r file s ≡ handle_part re t c r file s
    unfolding handle_part upload_to_s3 told
    handle_part-limited file s =
        ap (told (with_limit n c) r file) (upload_temp-limited file file.temp s)
        ∙ told-limited file (upload_temp re t c r file file.temp s)

    upload_parts-limited :
        (parts : List Incoming) (keys : List Bytes) (s : Storage)
        → upload_parts re t (with_limit n c) r parts keys s ≡ upload_parts re t c r parts keys s
    unfolding upload_parts
    upload_parts-limited [] keys s = refl
    upload_parts-limited (broken text ∷ parts) keys s = refl
    upload_parts-limited (part file ∷ parts) keys s = λ i.
        if is_empty file.file_name
        then upload_parts-limited parts keys s i
        else after_part re t (handle_part-limited file s i).0 (handle_part-limited file s i).1
            (λ key.
              upload_parts-limited parts (keys ++ key ∷ []) (handle_part-limited file s i).1 i)

    upload_read-limited :
        (parts : Result Bytes (List Incoming)) (s : Storage)
        → upload_read re t (with_limit n c) r parts s ≡ upload_read re t c r parts s
    unfolding upload_read
    upload_read-limited (err text) s = refl
    upload_read-limited (ok parts) s =
        ap (λ (z : Ended × Storage). (answer_upload re t z.0, z.1))
          (upload_parts-limited parts [] s)

    -- UploadFile does the same whatever the number of files that the profiles allow.
    pub upload_file-max_allowed_files :
        (s : Storage) → upload_file re t (with_limit n c) r s ≡ upload_file re t c r s
    unfolding upload_file has_required_authentication
    upload_file-max_allowed_files s = λ i.
        if not ((ap (needs_user re t) at_limit ∙ needs_user-limited _) i) || is_some r.user
        then upload_read-limited (r.reader max_upload_size) s i
        else (status 401 ∷ [], s)
