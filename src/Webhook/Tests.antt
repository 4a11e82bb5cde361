-- ===== src/Webhook/Tests.antt =====
-- Webhooks at concrete requests.
use wundergraph.Prelude.{◌≡◌, ◌↔◌, refl, none, some, [], ◌∷◌, ◌++◌, Bytes, str, ◌==◌, trim_prefix}
use wundergraph.Hooks.Header.{Header, get, is_token}
use wundergraph.Webhook.Hex.{decode_string, nibble}
use wundergraph.Webhook.{
  other_verifier, Verifier, Handler, whole, Request, unauthorized, proxied, new, verify, serve_http,
  body_signature_bytes, signature_of,
}
use wundergraph.Webhook.Verified.{IsAdmitted, serve_http_iff}

-- a code in place of an HMAC: the secret and the body
abbrev code : Bytes → Bytes → Bytes
code secret body = secret ++ body

abbrev github : Verifier
github = record {
  secret = str "k";
  signature_header = str "x-hub-signature-256";
  signature_header_prefix = str "sha256=";
}

abbrev hook : Handler Bytes
hook = record {
  webhook_name = str "github";
  proxy = str "http://localhost:9992";
  verifier = some github;
}

-- the code of the body `hi`, 6b6869 in hexadecimal, and a text after it
abbrev signed : Header
signed = (str "X-Hub-Signature-256", str "sha256=6b6869-any" ∷ []) ∷ []

abbrev push : Request
push = record { header = signed; body = some (whole (str "hi")) }

abbrev forged : Request
forged = record { header = signed; body = some (whole (str "ho")) }

forged_is_refused : serve_http code hook forged ≡ unauthorized
unfolding serve_http verify signature_of body_signature_bytes decode_string nibble get ◌==◌
    trim_prefix is_token
forged_is_refused = refl

-- A verifier whose kind is not known leaves the webhook without one.
unknown_kind :
    new
      (λ name. [])
      some
      record {
        name = str "w";
        verifier = some record {
          kind = other_verifier;
          secret = none;
          signature_header = str "S";
          signature_header_prefix = [];
        };
      }
      (str "http://h")
    ≡ some record { webhook_name = str "w"; proxy = str "http://h"; verifier = none }
unfolding new
unknown_kind = refl

serve_http_iff_example :
    (serve_http code hook push ≡ proxied push) ↔ ((push ≡ push) × IsAdmitted code hook push)
serve_http_iff_example = serve_http_iff code hook push push
