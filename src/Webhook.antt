-- ===== src/Webhook.antt =====
-- pkg/webhookhandler/webhookhandler.go: webhooks, whose requests are verified and passed on.
pub mod Hex
pub mod Verified
pub mod Tests
use wundergraph.Prelude.{
  Bool, true, false, not, Option, none, some, List, [], ◌∷◌, Bytes, ◌==◌, is_empty, if◌then◌else◌,
  trim_prefix,
}
use wundergraph.Hooks.Header.{Header, get}
use wundergraph.Load.{ConfigurationVariable, string}
use wundergraph.Webhook.Hex.{decode_string, encode_to_string}

-- wgpb.WebhookVerifierKind; `other_verifier` is any number that the enumeration does not name
pub data VerifierKind : Type 0 where
  hmac_sha256 other_verifier : VerifierKind

-- wgpb.WebhookVerifier
pub record VerifierConfig : Type 0 where
  pub kind : VerifierKind
  pub secret : Option ConfigurationVariable
  pub signature_header : Bytes
  pub signature_header_prefix : Bytes

-- wgpb.WebhookConfiguration, with what New reads of it
pub record Configuration : Type 0 where
  pub name : Bytes
  pub verifier : Option VerifierConfig

-- sha256HMACVerifier
pub record Verifier : Type 0 where
  pub secret : Bytes
  pub signature_header : Bytes
  pub signature_header_prefix : Bytes

-- webhookHandler; the proxy is the URL that it passes requests on to
pub record Handler (Url : Type 0) : Type 0 where
  pub webhook_name : Bytes
  pub proxy : Url
  pub verifier : Option Verifier

-- A body to read: it ends after its bytes, or reading fails after them.
pub data Body : Type 0 where
  whole broken : Bytes → Body

pub record Request : Type 0 where
  pub header : Header
  pub body : Option Body

-- What ServeHTTP does with a request: it writes status 401, or hands the request to the proxy.
pub data Served : Type 0 where
  unauthorized : Served
  proxied : Request → Served

verifier_of : (getenv : Bytes → Bytes) → VerifierConfig → VerifierKind → Option Verifier
verifier_of getenv c hmac_sha256 = some record {
  secret = string getenv c.secret;
  signature_header = c.signature_header;
  signature_header_prefix = c.signature_header_prefix;
}
verifier_of getenv c other_verifier = none

-- New; `parse` is url.Parse
unfoldable pub new :
    {Url : Type 0}
    → (getenv : Bytes → Bytes) → (parse : Bytes → Option Url) → Configuration
    → Bytes
    → Option (Handler Url)
unfolding verifier_of
new getenv parse c url = elim (parse url) [
  | none ↦ none
  | some u ↦ some record {
    webhook_name = c.name;
    proxy = u;
    verifier = elim c.verifier [ none ↦ none | some v ↦ verifier_of getenv v v.kind ];
  }
]

-- `hmac secret body` is the sum of package crypto/hmac with crypto/sha256.
module _ (hmac : Bytes → Bytes → Bytes) where
  -- bodySignatureBytes
  unfoldable pub body_signature_bytes : Verifier → Bytes → Bytes
  body_signature_bytes v body = hmac v.secret body

  -- bodySignatureHexString
  unfoldable pub body_signature_hex_string : Verifier → Bytes → Bytes
  unfolding body_signature_bytes
  body_signature_hex_string v body = encode_to_string (body_signature_bytes v body)

  -- the signature of the request, without the prefix
  unfoldable pub signature_of : Verifier → Header → Bytes
  signature_of v header =
      let signature = get v.signature_header header in
      if not (is_empty v.signature_header_prefix)
      then trim_prefix signature v.signature_header_prefix
      else signature

  -- Verify, with the body that it leaves in the request
  unfoldable pub verify : Verifier → Header → Body → Bool × Body
  unfolding body_signature_bytes signature_of
  verify v header (broken body) = (false, whole body)
  verify v header (whole body) =
      (body_signature_bytes v body == decode_string (signature_of v header), whole body)

  -- ServeHTTP
  unfoldable pub serve_http : {Url : Type 0} → Handler Url → Request → Served
  unfolding verify
  serve_http h r = elim r.body [
    | none ↦ proxied r
    | some body ↦ elim h.verifier [
      | none ↦ proxied r
      | some v ↦
          let (valid, left) = verify v r.header body in
          if not valid then unauthorized else proxied record { header = r.header; body = some left }
    ]
  ]
