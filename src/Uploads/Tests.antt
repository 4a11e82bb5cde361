-- ===== src/Uploads/Tests.antt =====
-- Uploads at concrete inputs, and witnesses of the theorems on them.
use wundergraph.Prelude.{
  ◌≡◌, ◌≢◌, ◌↔◌, ◌⊎◌, refl, ◌==◌, Bool, true, false, Option, none, some, List, [], ◌∷◌, Bytes, str,
  length, join, split, contains_byte,
}
use wundergraph.Prelude.Int.{pos}
use wundergraph.Auth.Redirect.{Regexp}
use wundergraph.Hooks.Header.{canonical, is_token, get, lookup}
use wundergraph.Hooks.Client.Monad.{ok}
use wundergraph.Hooks.Client.Upload.{path_join}
use wundergraph.Webhook.Hex.{encode_to_string}
use wundergraph.Handlers.{status}
use wundergraph.Handlers.Samples.{hooks_server, ann, new_world}
use wundergraph.Uploads.{
  UploadProfile, PreparedProfile, sort_strings, all_normalized, with_dot, with_schema, to_lower,
  ext, validate_file, bad_extension, upload_profile,
}
use wundergraph.Uploads.Client.{
  Part, holds, part, UploadRequest, UploadTools, Storage, S3UploadClient, Options,
  new_s3_upload_client,
}
use wundergraph.Uploads.Parts.{upload_to_s3, check_metadata, object_of}
use wundergraph.Uploads.Requests.{finished, post_upload_error, upload_parts, upload_file}
use wundergraph.Uploads.Accepted.{Permits, validate_file_iff, validate_file-uppercase}
use wundergraph.Uploads.Stored.{Grows, Waives, upload_file-anonymous}
use wundergraph.Uploads.Counted.{upload_parts-finished}
use wundergraph.Uploads.Limits.{with_limit, upload_file-max_allowed_files}
use wundergraph.Uploads.Built.{Suited, new_s3_upload_client-Suits}

-- a library of regular expressions in which one expression matches everything, and no other anything
abbrev pictures_only : Regexp
pictures_only = record {
  Matcher = Bytes;
  compile = λ p. some p;
  match_string = λ m s. m == str "image/.*";
}

abbrev pictures : UploadProfile
pictures = record {
  require_authentication = true;
  max_file_size_bytes = pos 5;
  max_allowed_files = pos 1;
  allowed_mime_types = str "Image/*" ∷ str "text/plain" ∷ [];
  allowed_file_extensions = str "PNG" ∷ str ".jpg" ∷ [];
  metadata_json_schema = [];
  use_pre_upload_hook = false;
  use_post_upload_hook = false;
}

extensions_in_order :
    sort_strings (all_normalized pictures.allowed_file_extensions) ≡ str ".jpg" ∷ str ".png" ∷ []
unfolding sort_strings all_normalized with_dot
extensions_in_order = refl

abbrev prepared : PreparedProfile Bytes
prepared = with_schema pictures_only pictures none

png_fits : validate_file pictures_only prepared 5 (str "image/PNG") (str "a.b.png") ≡ none
unfolding with_schema validate_file with_dot ◌==◌ contains_byte
png_fits = refl

upper_case_png :
    validate_file pictures_only prepared 5 (str "image/png") (str "a.PNG") ≡ some bad_extension
unfolding with_schema validate_file with_dot ◌==◌ contains_byte
upper_case_png = refl

join_drops_empty : path_join (str "upload" ∷ str "s3" ∷ [] ∷ []) ≡ str "upload/s3"
unfolding path_join join split ◌==◌
join_drops_empty = refl

abbrev tools : UploadTools
tools = record {
  hooks = hooks_server;
  unmarshal_upload = λ d. some (record { error = []; file_key = str "key" });
  marshal_user = λ u. some u.user_id;
  marshal_file = λ f. some f.name;
  marshal_error = λ e. some e;
  marshal_keys = λ keys. ok (str "[]");
  error_text = λ e. str "no";
  is_json = λ d. true;
  hash = λ d. some (b'\x2a' ∷ []);
  put_object = λ objects o. some (record { key = o.key; size = pos (length o.contents) });
}

abbrev no_schemas : Bytes → Bytes → Option (Bytes → Bool)
no_schemas name text = none

abbrev options : Options pictures_only tools
options = record {
  bucket_name = str "bucket";
  name = str "s3";
  profiles = (str "pics", pictures) ∷ [];
}

abbrev client : S3UploadClient pictures_only tools
client = record {
  bucket_name = str "bucket";
  name = str "s3";
  profiles = (str "pics", prepared) ∷ [];
}

abbrev file : Part
file = record {
  file_name = str "a.png";
  content_type = str "image/png";
  temp = holds (str "pixel");
}

abbrev request : UploadRequest
request = record {
  header = (str "X-Upload-Profile", str "pics" ∷ []) ∷ [];
  user = some ann;
  reader = λ limit. ok (part file ∷ part (record file { file_name = [] }) ∷ part file ∷ []);
}

abbrev anonymous : UploadRequest
anonymous = record request { user = none }

abbrev empty_storage : Storage
empty_storage = record { world = new_world; objects = [] }

abbrev two_files : List Bytes
two_files = str "2a.png" ∷ str "2a.png" ∷ []

validate_file_iff_example :
    (validate_file pictures_only prepared 5 (str "image/PNG") (str "a.png") ≡ none)
    ↔ Permits pictures_only pictures 5 (str "image/PNG") (str "a.png")
validate_file_iff_example =
    validate_file_iff pictures_only pictures none 5 (str "image/PNG") (str "a.png")

upper_case : to_lower (ext (str "a.PNG")) ≢ ext (str "a.PNG")
unfolding ext contains_byte to_lower
upper_case e = cc

validate_file-uppercase_example :
    validate_file pictures_only prepared 5 (str "image/png") (str "a.PNG") ≢ none
validate_file-uppercase_example =
    validate_file-uppercase pictures_only pictures none 5 (str "image/png") (str "a.PNG") (λ e. cc)
      upper_case

upload_file-anonymous_example :
    (upload_file pictures_only tools client anonymous empty_storage
      ≡ (status 401 ∷ [], empty_storage))
    ⊎ Waives pictures_only tools client anonymous (upload_profile client.profiles anonymous.header)
upload_file-anonymous_example =
    upload_file-anonymous pictures_only tools client anonymous empty_storage refl

upload_file-max_allowed_files_example :
    upload_file pictures_only tools
      (with_limit pictures_only tools (pos 2) client)
      request
      empty_storage
    ≡ upload_file pictures_only tools client request empty_storage
upload_file-max_allowed_files_example =
    upload_file-max_allowed_files pictures_only tools (pos 2) client request empty_storage

two_uploaded :
    (upload_parts pictures_only tools client request
      (part file ∷ part file ∷ [])
      []
      empty_storage).0
    ≡ finished two_files
unfolding upload_parts with_schema validate_file with_dot ◌==◌ contains_byte get lookup canonical
    is_token upload_profile post_upload_error upload_to_s3 check_metadata object_of encode_to_string
two_uploaded = refl

upload_parts-finished_example :
    (length two_files ≡ 2)
    × (length
          (upload_parts pictures_only tools client request
            (part file ∷ part file ∷ [])
            []
            empty_storage).1.objects
        ≡ 2)
upload_parts-finished_example =
    upload_parts-finished pictures_only tools client request (part file ∷ part file ∷ [])
      empty_storage two_files two_uploaded

built :
    new_s3_upload_client pictures_only tools no_schemas options true (some true) false ≡ some client
unfolding new_s3_upload_client
built = refl

new_s3_upload_client-Suits_example :
    Grows
      (Suited pictures_only tools no_schemas options client request)
      []
      (upload_file pictures_only tools client request empty_storage).1.objects
new_s3_upload_client-Suits_example =
    new_s3_upload_client-Suits pictures_only tools no_schemas options true (some true) false client
      request empty_storage built
