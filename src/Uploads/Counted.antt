-- ===== src/Uploads/Counted.antt =====
-- pkg/s3uploadclient/s3uploadclient.go: how many files UploadFile stores.
use wundergraph.Prelude.{
  ℕ, suc, ◌+◌, ◌≡◌, refl, ap, Bool, true, false, Option, none, some, List, [], ◌∷◌, ◌++◌, Bytes,
  arith, length, length-append, if◌then◌else◌, is_empty,
}
use wundergraph.Auth.Redirect.{Regexp}
use wundergraph.Hooks.Client.Monad.{Result, ok, err}
use wundergraph.Uploads.{UploadError}
use wundergraph.Uploads.Client.{
  Part, TempFile, not_created, breaks, holds, Incoming, part, broken, UploadRequest, UploadInfo,
  UploadTools, Storage, S3UploadClient,
}
use wundergraph.Uploads.Parts.{f_put_object, put_under, upload_temp, upload_to_s3}
use wundergraph.Uploads.Requests.{
  Ended, refused, finished, or_error, after_part, handle_part, upload_parts,
}

module _ (re : Regexp) (t : UploadTools) where
  module _ (c : S3UploadClient re t) (r : UploadRequest) where
    -- the parts that have the name of a file
    abbrev pub named : List Incoming → ℕ
    named [] = 0
    named (broken text ∷ parts) = named parts
    named (part file ∷ parts) = if is_empty file.file_name then named parts else suc (named parts)

    put_under-grown :
        (file : Part) (contents : Bytes) (k : Result UploadError Bytes) (s : Storage)
        (info : UploadInfo)
        → (put_under re t c r file contents k s).0 ≡ ok info
        → length (put_under re t c r file contents k s).1.objects ≡ length s.objects + 1
    unfolding put_under f_put_object
    put_under-grown file contents (err e) s info h = cc
    put_under-grown file contents (ok key) s info h = length-append s.objects _

    upload_temp-grown :
        (file : Part) (temp : TempFile) (s : Storage) (info : UploadInfo)
        → (upload_temp re t c r file temp s).0 ≡ ok info
        → length (upload_temp re t c r file temp s).1.objects ≡ length s.objects + 1
    unfolding upload_temp
    upload_temp-grown file not_created s info h = cc
    upload_temp-grown file breaks s info h = cc
    upload_temp-grown file (holds contents) s info h = put_under-grown file contents _ _ info h

    or_error-ok :
        (e : Option UploadError) (x : Result UploadError UploadInfo) (info : UploadInfo)
        → or_error re t e x ≡ ok info
        → x ≡ ok info
    unfolding or_error
    or_error-ok none x info h = h
    or_error-ok (some e) x info h = cc

    handle_part-grown :
        (file : Part) (s : Storage) (info : UploadInfo)
        → (handle_part re t c r file s).0 ≡ ok info
        → length (handle_part re t c r file s).1.objects ≡ length s.objects + 1
    unfolding handle_part upload_to_s3
    handle_part-grown file s info h =
        upload_temp-grown file file.temp s info (or_error-ok _ _ info h)

    keys_of : Ended → List Bytes
    keys_of (refused text) = []
    keys_of (finished keys) = keys

    -- what a loop that ends well has made of so many files
    Finishes : ℕ → List Bytes → Storage → Ended × Storage → Type 0
    Finishes n keys s z =
        (all : List Bytes)
        → z.0 ≡ finished all
        → (length all ≡ length keys + n) × (length z.1.objects ≡ length s.objects + n)

    after-Finishes :
        (n : ℕ) (keys : List Bytes) (info : Result UploadError UploadInfo) (s0 s : Storage)
        (next : Bytes → Ended × Storage)
        → ((i : UploadInfo) → info ≡ ok i → length s.objects ≡ length s0.objects + 1)
        → ((key : Bytes) → Finishes n (keys ++ key ∷ []) s (next key))
        → Finishes (suc n) keys s0 (after_part re t info s next)
    unfolding after_part Finishes
    after-Finishes n keys (err e) s0 s next g h all q = cc
    after-Finishes n keys (ok i) s0 s next g h all q =
        ground (arith, h i.key all q, g i refl, length-append keys (i.key ∷ []))

    choose-Finishes :
        (b : Bool) (m n : ℕ) (keys : List Bytes) (s : Storage) (x y : Ended × Storage)
        → Finishes m keys s x
        → Finishes n keys s y
        → Finishes (if b then m else n) keys s (if b then x else y)
    choose-Finishes true m n keys s x y h k = h
    choose-Finishes false m n keys s x y h k = k

    parts-Finishes :
        (parts : List Incoming) (keys : List Bytes) (s : Storage)
        → Finishes (named parts) keys s (upload_parts re t c r parts keys s)
    unfolding upload_parts Finishes keys_of
    parts-Finishes [] keys s =
        λ all q. (ground (arith, ap (λ z. length (keys_of z)) q), omega arith)
    parts-Finishes (broken text ∷ parts) keys s = λ all q. cc
    parts-Finishes (part file ∷ parts) keys s =
        choose-Finishes _ _ _ keys s _ _ (parts-Finishes parts keys s) (
          after-Finishes _ keys _ s _ _ (handle_part-grown file s)
            (λ key. parts-Finishes parts (keys ++ key ∷ []) (handle_part re t c r file s).1))

    -- If the loop on the parts of a request ends with keys, there is one for every part with the name of a
    -- file, and the storage was given just as many objects.
    pub upload_parts-finished :
        (parts : List Incoming) (s : Storage) (keys : List Bytes)
        → (upload_parts re t c r parts [] s).0 ≡ finished keys
        → (length keys ≡ named parts)
          × (length (upload_parts re t c r parts [] s).1.objects ≡ length s.objects + named parts)
    unfolding Finishes
    upload_parts-finished parts s keys h = ground (arith, parts-Finishes parts [] s keys h)
