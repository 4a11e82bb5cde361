-- ===== src/Uploads/Stored.antt =====
-- pkg/s3uploadclient/s3uploadclient.go: what UploadFile gives to the storage.
use wundergraph.Prelude.{
  ◌≡◌, ◌⊎◌, inl, inr, refl, sym, ◌∙◌, ap, Bool, true, false, Option, none, some, List, [], ◌∷◌,
  ◌++◌, append_assoc, append-nil, Bytes, not, ◌||◌, Bool-cases, All, All-append, length, is_some,
  if_cases, if_false,
}
use wundergraph.Auth.Redirect.{Regexp}
use wundergraph.Auth.User.{User}
use wundergraph.Hooks.Client.Monad.{Result, ok, err}
use wundergraph.Hooks.Client.{World}
use wundergraph.Handlers.{Sent, status}
use wundergraph.Uploads.{UploadError, PreparedProfile, validate_file, upload_profile}
use wundergraph.Uploads.Client.{
  Part, TempFile, not_created, breaks, holds, Incoming, part, broken, UploadRequest, Object,
  UploadInfo, UploadTools, max_upload_size, Storage, S3UploadClient,
}
use wundergraph.Uploads.Parts.{
  metadata_of, check_metadata, first_error, checked_key, profile_key, key_or_hash, keyed,
  pre_upload_key, object_of, f_put_object, put_under, upload_temp, upload_to_s3,
}
use wundergraph.Uploads.Requests.{
  Ended, after_part, handle_part, upload_parts, needs_user, has_required_authentication,
  upload_read, upload_file,
}

-- The objects of the second list are those of the first and then some that have the property.
abbrev pub Grows : (Object → Type 0) → List Object → List Object → Type 0
Grows P before after = (new : List Object) × (before ++ new ≡ after) × All P new

Grows-refl : (P : Object → Type 0) (xs : List Object) → Grows P xs xs
Grows-refl P xs = ([], append-nil xs, tt)

Grows-one : (P : Object → Type 0) (xs : List Object) (o : Object) → P o → Grows P xs (xs ++ o ∷ [])
Grows-one P xs o h = (o ∷ [], refl, (h, tt))

Grows-trans :
    (P : Object → Type 0) (xs ys zs : List Object) → Grows P xs ys → Grows P ys zs → Grows P xs zs
Grows-trans P xs ys zs (a, e, h) (b, f, k) =
    (a ++ b, sym (append_assoc xs a b) ∙ ap (λ z. z ++ b) e ∙ f, All-append P a b h k)

module _ (re : Regexp) (t : UploadTools) where
  open re use {Matcher}

  -- the profile of a request allows a file
  abbrev pub Allows :
      UploadRequest
      → Part
      → Bytes
      → Result UploadError (Bytes × Option (PreparedProfile Matcher))
      → Type 0
  Allows r file contents (err e) = ⊥
  Allows r file contents (ok (name, none)) = Unit
  Allows r file contents (ok (name, some p)) =
      (validate_file re p (length contents) file.content_type file.file_name ≡ none)
      × (check_metadata re t p.metadata_json_schema (metadata_of re t r) ≡ none)

  first_error-none :
      (a b : Option UploadError) → first_error re t a b ≡ none → (a ≡ none) × (b ≡ none)
  unfolding first_error
  first_error-none none b h = (refl, h)
  first_error-none (some e) b h = cc

  -- an object is made of a file that the profile of the request allows, and its bytes
  abbrev pub Granted : S3UploadClient re t → UploadRequest → Object → Type 0
  Granted c r o =
      (file : Part) × (contents : Bytes) × (key : Bytes) × (file.temp ≡ holds contents)
      × (o ≡ object_of re t c r file contents key)
      × Allows r file contents (upload_profile c.profiles r.header)

  module _ (c : S3UploadClient re t) (r : UploadRequest) where
    allowed :
        (file : Part) (contents : Bytes) (e : Option UploadError) (name : Bytes)
        (p : PreparedProfile Matcher) (w : World) (key : Bytes)
        → key_or_hash re t (checked_key re t c r name p file (length contents) e w).0 file contents
          ≡ ok key
        → e ≡ none
    unfolding checked_key key_or_hash
    allowed file contents none name p w key h = refl
    allowed file contents (some e) name p w key h = cc

    keyed-Allows :
        (file : Part) (contents : Bytes)
        (up : Result UploadError (Bytes × Option (PreparedProfile Matcher))) (w : World)
        (key : Bytes)
        → (keyed re t c r file contents up w).0 ≡ ok key
        → Allows r file contents up
    unfolding keyed profile_key
    keyed-Allows file contents (err e) w key h = cc
    keyed-Allows file contents (ok (name, none)) w key h = tt
    keyed-Allows file contents (ok (name, some p)) w key h =
        first_error-none _ _ (allowed file contents _ name p w key h)

    put_under-Grows :
        (file : Part) (contents : Bytes) (k : Result UploadError Bytes) (s : Storage)
        → ((key : Bytes) → k ≡ ok key → Granted c r (object_of re t c r file contents key))
        → Grows (Granted c r) s.objects (put_under re t c r file contents k s).1.objects
    unfolding put_under f_put_object
    put_under-Grows file contents (err e) s h = Grows-refl _ _
    put_under-Grows file contents (ok key) s h = Grows-one _ _ _ (h key refl)

    upload_temp-Grows :
        (file : Part) (temp : TempFile) (s : Storage)
        → file.temp ≡ temp
        → Grows (Granted c r) s.objects (upload_temp re t c r file temp s).1.objects
    unfolding upload_temp pre_upload_key
    upload_temp-Grows file not_created s e = Grows-refl _ _
    upload_temp-Grows file breaks s e = Grows-refl _ _
    upload_temp-Grows file (holds contents) s e =
        put_under-Grows file contents (pre_upload_key re t c r file contents s.world).0
          (record s { world = (pre_upload_key re t c r file contents s.world).1 })
          (λ key h. (file, contents, key, e, refl, keyed-Allows file contents _ s.world key h))

    handle_part-Grows :
        (file : Part) (s : Storage)
        → Grows (Granted c r) s.objects (handle_part re t c r file s).1.objects
    unfolding handle_part upload_to_s3
    handle_part-Grows file s = upload_temp-Grows file file.temp s refl

    after-Grows :
        (info : Result UploadError UploadInfo) (s0 s : Storage) (next : Bytes → Ended × Storage)
        → Grows (Granted c r) s0.objects s.objects
        → ((key : Bytes) → Grows (Granted c r) s.objects (next key).1.objects)
        → Grows (Granted c r) s0.objects (after_part re t info s next).1.objects
    unfolding after_part
    after-Grows (err e) s0 s next g h = g
    after-Grows (ok i) s0 s next g h = Grows-trans _ _ _ _ g (h i.key)

    upload_parts-Grows :
        (parts : List Incoming) (keys : List Bytes) (s : Storage)
        → Grows (Granted c r) s.objects (upload_parts re t c r parts keys s).1.objects
    unfolding upload_parts
    upload_parts-Grows [] keys s = Grows-refl _ _
    upload_parts-Grows (broken text ∷ parts) keys s = Grows-refl _ _
    upload_parts-Grows (part file ∷ parts) keys s =
        if_cases (λ (z : Ended × Storage). Grows (Granted c r) s.objects z.1.objects) _ _ _
          (upload_parts-Grows parts keys s)
          (after-Grows _ s _ _ (handle_part-Grows file s)
            (λ key. upload_parts-Grows parts (keys ++ key ∷ []) (handle_part re t c r file s).1))

    upload_read-Grows :
        (parts : Result Bytes (List Incoming)) (s : Storage)
        → Grows (Granted c r) s.objects (upload_read re t c r parts s).1.objects
    unfolding upload_read
    upload_read-Grows (err text) s = Grows-refl _ _
    upload_read-Grows (ok parts) s = upload_parts-Grows parts [] s

    -- UploadFile gives the storage nothing but objects that are made of a file with the contents that
    -- were read. No profile must be missing or unknown for the request; if it has one, the profile takes
    -- the size, the content type and the name of the file, and its schema, where it has one, takes the
    -- metadata of the request. What the storage was given before stays.
    pub upload_file-Granted :
        (s : Storage) → Grows (Granted c r) s.objects (upload_file re t c r s).1.objects
    unfolding upload_file
    upload_file-Granted s =
        if_cases (λ (z : List Sent × Storage). Grows (Granted c r) s.objects z.1.objects) _ _ _
          (upload_read-Grows (r.reader max_upload_size) s) (Grows-refl _ _)

    -- the profile of a request waives the authentication
    abbrev pub Waives : Result UploadError (Bytes × Option (PreparedProfile Matcher)) → Type 0
    Waives (err e) = ⊥
    Waives (ok (name, none)) = ⊥
    Waives (ok (name, some p)) = p.profile.require_authentication ≡ false

    needs_user-or :
        (up : Result UploadError (Bytes × Option (PreparedProfile Matcher)))
        → (needs_user re t up ≡ true) ⊎ Waives up
    unfolding needs_user
    needs_user-or (err e) = inl refl
    needs_user-or (ok (name, none)) = inl refl
    needs_user-or (ok (name, some p)) = elim (Bool-cases p.profile.require_authentication) [
      | inl h ↦ inl h
      | inr h ↦ inr h
    ]

    refuses : (b : Bool) (u : Option User) → b ≡ true → u ≡ none → not b || is_some u ≡ false
    refuses b u h e = λ i. not (h i) || is_some (e i)

    -- A request without a user is answered with the status 401, and neither the storage nor a hook hears
    -- of it, unless it names a profile that the client has and that waives the authentication.
    pub upload_file-anonymous :
        (s : Storage)
        → r.user ≡ none
        → (upload_file re t c r s ≡ (status 401 ∷ [], s))
          ⊎ Waives (upload_profile c.profiles r.header)
    unfolding upload_file has_required_authentication
    upload_file-anonymous s no_user = elim (needs_user-or (upload_profile c.profiles r.header)) [
      | inr h ↦ inr h
      | inl h ↦ inl (if_false _ _ (refuses _ r.user h no_user))
    ]
