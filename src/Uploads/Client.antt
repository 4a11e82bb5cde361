-- ===== src/Uploads/Client.antt =====
-- pkg/s3uploadclient/s3uploadclient.go: UploadFile, from a request to the objects of the storage.
use wundergraph.Prelude.{ℕ, Bool, true, false, Option, none, some, List, Bytes, if◌then◌else◌}
use wundergraph.Prelude.Int.{ℤ}
use wundergraph.Auth.User.{User}
use wundergraph.Auth.Redirect.{Regexp}
use wundergraph.Hooks.Header.{Header}
use wundergraph.Hooks.Client.Monad.{Result}
use wundergraph.Hooks.Client.{World, Env}
use wundergraph.Hooks.Client.Upload.{UploadHookResponse}
use wundergraph.Uploads.{UploadError, MetadataSchema, UploadProfile, PreparedProfile, prepare_all}

-- What becomes of the temporary file of a part: it cannot be created, writing or reading the part fails,
-- or it holds the part.
pub data TempFile : Type 0 where
  not_created breaks : TempFile
  holds : Bytes → TempFile

-- multipart.Part
pub record Part : Type 0 where
  pub file_name : Bytes
  pub content_type : Bytes
  pub temp : TempFile

-- What NextPart returns, but for io.EOF: a part, or an error with its text.
pub data Incoming : Type 0 where
  part : Part → Incoming
  broken : Bytes → Incoming

-- http.Request. `reader` is MultipartReader on a body of which no more than so many bytes are read: the
-- results of NextPart before io.EOF, or an error with its text.
pub record UploadRequest : Type 0 where
  pub header : Header
  pub user : Option User
  pub reader : ℕ → Result Bytes (List Incoming)

-- the arguments of FPutObject, with the contents of the file for its name
pub record Object : Type 0 where
  pub bucket_name : Bytes
  pub key : Bytes
  pub contents : Bytes
  pub content_type : Bytes
  pub metadata : Bytes
  pub original_filename : Bytes
  pub original_extension : Bytes
  pub original_size : Bytes

-- minio.UploadInfo
pub record UploadInfo : Type 0 where
  pub key : Bytes
  pub size : ℤ

pub record HookFile : Type 0 where
  pub name : Bytes
  pub size : ℤ
  pub mime_type : Bytes

-- The parts that the client works with: the client of the hooks server, encoding/json on the types that
-- it writes and reads (for the answer with the text of its error), the texts of
-- errors, xxhash on a
-- file that is read again, and the storage, whose answer to FPutObject may depend on all objects that it
-- was given before.
pub record UploadTools : Type 0 where
  pub hooks : Env
  pub unmarshal_upload : Bytes → Option UploadHookResponse
  pub marshal_user : User → Option Bytes
  pub marshal_file : HookFile → Option Bytes
  pub marshal_error : Bytes → Option Bytes
  pub marshal_keys : List Bytes → Result Bytes Bytes
  pub error_text : UploadError → Bytes
  pub is_json : Bytes → Bool
  pub hash : Bytes → Option Bytes
  pub put_object : List Object → Object → Option UploadInfo

-- MaxUploadSize
abbrev pub max_upload_size : ℕ
max_upload_size = 20971520

-- What the hooks see, and the objects that were given to FPutObject, the latest last.
pub record Storage : Type 0 where
  pub world : World
  pub objects : List Object

module _ (re : Regexp) (t : UploadTools) where
  open re use {Matcher}

  -- S3UploadClient
  pub record S3UploadClient : Type 0 where
    pub bucket_name : Bytes
    pub name : Bytes
    pub profiles : List (Bytes × PreparedProfile Matcher)

  -- Options, without what only builds the client of the storage
  pub record Options : Type 0 where
    pub bucket_name : Bytes
    pub name : Bytes
    pub profiles : List (Bytes × UploadProfile)

  -- createBucket, on what BucketExists and MakeBucket return: whether there is no error
  unfoldable pub create_bucket : Option Bool → Bool → Bool
  create_bucket none made = false
  create_bucket (some true) made = true
  create_bucket (some false) made = made

  unfoldable pub new_client :
      Options → Option (List (Bytes × PreparedProfile Matcher)) → Bool → Option S3UploadClient
  new_client o none bucket = none
  new_client o (some profiles) false = none
  new_client o (some profiles) true =
      some (record { bucket_name = o.bucket_name; name = o.name; profiles = profiles })

  -- NewS3UploadClient; `client` is whether minio.New has no error
  unfoldable pub new_s3_upload_client :
      (Bytes → Bytes → Option MetadataSchema)
      → Options
      → Bool
      → Option Bool
      → Bool
      → Option S3UploadClient
  unfolding new_client create_bucket prepare_all
  new_s3_upload_client compile_string o client exists made =
      if client
      then new_client o (prepare_all re compile_string o.name o.profiles)
          (create_bucket exists made)
      else none
