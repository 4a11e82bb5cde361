-- ===== src/Identity/Tests.antt =====
-- Tokens and cookies at concrete requests.
use wundergraph.Prelude.{
  trim_prefix, ◌≡◌, refl, true, false, none, some, List, [], ◌∷◌, ◌++◌, arith, Bytes, str, ◌==◌,
}
use wundergraph.Prelude.Int.{pos}
use wundergraph.Auth.User.{User, null, text, no_fields, field, no_user}
use wundergraph.Claims.{index}
use wundergraph.Hooks.Header.{get, is_token}
use wundergraph.Hooks.Client.{Env, answer}
use wundergraph.Identity.{Claims, to_user, is_custom_claim}
use wundergraph.Identity.Tokens.{UserLoadConfig, Token, Loader, Memory, keyfunc}
use wundergraph.Identity.Cookies.{Request, CookieCodec, load_cookies, load}
use wundergraph.Identity.Saved.{SaveCodec, without_tokens, etag_of}
use wundergraph.Identity.Laws.{Refuses, load-Refuses}

abbrev claims : Claims
claims = record {
  issuer = str "https://idp";
  subject = str "7";
  name = [];
  given_name = [];
  family_name = [];
  middle_name = [];
  nick_name = [];
  preferred_username = [];
  profile = [];
  picture = [];
  website = [];
  email = str "a@b.c";
  email_verified = true;
  gender = [];
  birth_date = [];
  zone_info = [];
  locale = [];
  location = [];
  raw = field (str "email") (text (str "a@b.c")) (field (str "org") (text (str "wg")) no_fields);
}

email_is_hidden : index (to_user claims).custom_claims (str "email") ≡ null
unfolding to_user is_custom_claim index ◌==◌
email_is_hidden = refl

-- a hooks server that denies everything
abbrev denying : Env
denying = record {
  set = λ data' value path. some (data' ++ value);
  exists = λ data' path. false;
  marshal_request = λ r. none;
  unmarshal_response = λ body. none;
  decode_response = λ body. none;
  serve = λ earlier call. answer 500 [];
}

abbrev loader : Loader
loader = record {
  Cache = List Bytes;
  cache_get = λ cache raw. none;
  cache_set = λ cache raw user. raw ∷ cache;
  parse = λ raw keys. record {
    token = some record { raw = raw; valid = false; claims = some claims };
    failed = false;
  };
  user_info = λ endpoint raw. none;
  decode64 = λ s. some s;
  env = denying;
  codec = record { marshal_user = λ u. some u.user_id; unmarshal_approval = λ s. none };
  hooks = record {
    calls_post_authentication = false;
    calls_mutating_post_authentication = true;
    calls_post_logout = false;
  };
}

abbrev memory : Memory loader
memory = record {
  cache = [];
  world = record {
    variables = [];
    request_header = [];
    client = none;
    buf = [];
    sent = [];
    resolved = [];
    written = [];
  };
}

abbrev keyed : UserLoadConfig
keyed = record {
  jwks = some (str "key" ∷ []);
  user_info_endpoint = [];
  cache_ttl_seconds = pos 60;
  issuer = [];
}

abbrev token : Token
token = record { raw = str "a.b.c"; valid = true; claims = some claims }

keyed-Refuses : Refuses loader (str "a.b.c") keyed
unfolding keyfunc
keyed-Refuses = ((λ e. cc), (λ t found parsed. ground arith))

abbrev cookies : CookieCodec
cookies = record { decode_user = λ s u. none; decode_id = λ s. some (str "h.p.s") }

abbrev bearer : Request
bearer = record {
  header = (str "Authorization", str "Bearer a.b.c" ∷ []) ∷ [];
  revalidate = [];
  user_cookie = none;
  id_cookie = none;
}

load-Refuses_example :
    load loader cookies (some (keyed ∷ [])) bearer no_user memory
    ≡ (load_cookies loader cookies bearer no_user, memory)
unfolding get ◌==◌ is_token
load-Refuses_example =
    load-Refuses loader cookies (keyed ∷ []) bearer no_user memory (str "a.b.c") refl
      (keyed-Refuses, tt)

abbrev old_session : Request
old_session = record {
  header = [];
  revalidate = [];
  user_cookie = some (str "garbage");
  id_cookie = some (str "sealed");
}

abbrev ann : User
ann = record no_user {
  user_id = str "7";
  raw_id_token = str "h.p.s";
  raw_access_token = str "secret";
}

-- ann as she is kept in her cookie
abbrev kept : User
kept = record (without_tokens ann) { etag = etag_of 42 }

abbrev sealing : SaveCodec
sealing = record {
  hash = λ u. some 42;
  encode_user = λ u. some (str "sealed " ++ u.user_id);
  encode_id = λ id. some (str "sealed " ++ id);
}

abbrev opening : CookieCodec
opening = record {
  decode_user = λ s u. some (record u { user_id = kept.user_id; etag = kept.etag });
  decode_id = λ s. some (trim_prefix s (str "sealed "));
}

abbrev next_request : Request
next_request = record {
  header = [];
  revalidate = [];
  user_cookie = some (str "sealed 7");
  id_cookie = some (str "sealed h.p.s");
}

-- nothing is a JWT, and no hook is enabled
abbrev open_loader : Loader
open_loader = record loader {
  parse = λ raw keys. record { token = none; failed = true };
  hooks = record {
    calls_post_authentication = false;
    calls_mutating_post_authentication = false;
    calls_post_logout = false;
  };
}

abbrev open_memory : Memory open_loader
open_memory = record { cache = []; world = memory.world }

abbrev unkeyed : UserLoadConfig
unkeyed = record keyed { jwks = some [] }
