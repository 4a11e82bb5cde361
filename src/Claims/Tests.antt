-- ===== src/Claims/Tests.antt =====
-- The injection of claims at concrete inputs.
use wundergraph.Prelude.{
  ◌≡◌, ◌≢◌, ◌↔◌, refl, true, Option, some, [], ◌∷◌, ◌++◌, Bytes, str, ◌==◌, Any,
}
use wundergraph.Auth.User.{text, object, field, no_fields, User, no_user}
use wundergraph.Claims.{
  ClaimConfig, CustomClaim, custom, email, string_value, ok, panic, lookup_json_path, inject_claim,
  inject_claims,
}
use wundergraph.Claims.Injection.{
  left_over, HasNoPath, inject_claims-append, inject_claims-eq-panic_iff,
}

-- a writer of variables that keeps them as a list of entries
abbrev append_entry : Bytes → Bytes → Bytes → Option Bytes
append_entry data' value key = some (data' ++ key ++ b'=' ∷ value ++ b';' ∷ [])

abbrev tenant : CustomClaim
tenant = record {
  name = str "tenant";
  json_path_components = str "org" ∷ str "tenant" ∷ [];
  type = string_value;
  required = true;
}

abbrev tenant_claim : ClaimConfig
tenant_claim = record { claim_type = custom; variable_name = str "t"; custom = tenant }

abbrev email_claim : ClaimConfig
email_claim = record { claim_type = email; variable_name = str "e"; custom = tenant }

abbrev ann : User
ann = record no_user {
  email = str "ann@x";
  custom_claims =
      field (str "org") (object (field (str "tenant") (text (str "acme")) no_fields)) no_fields;
}

abbrev eve : User
eve = record no_user { email = str "eve@x" }

both_claims :
    inject_claims append_entry (tenant_claim ∷ email_claim ∷ []) (some ann) (str "v;")
    ≡ ok (str "v;t=\"acme\";e=\"ann@x\";")
unfolding inject_claims inject_claim lookup_json_path ◌==◌
both_claims = refl

-- A user without the required claim: the error of the first claim is lost, and so are the variables
-- that the client sent.
required_claim_is_lost :
    inject_claims append_entry (tenant_claim ∷ email_claim ∷ []) (some eve) (str "v;")
    ≡ ok (str "e=\"eve@x\";")
unfolding inject_claims inject_claim lookup_json_path ◌==◌
required_claim_is_lost = refl

no_panic : inject_claims append_entry (tenant_claim ∷ []) (some eve) (str "v;") ≢ panic
unfolding inject_claims inject_claim lookup_json_path ◌==◌
no_panic = cc

inject_claims-append_example :
    inject_claims append_entry (tenant_claim ∷ email_claim ∷ []) (some eve) (str "v;")
    ≡ inject_claim append_entry email_claim eve
        (left_over (inject_claims append_entry (tenant_claim ∷ []) (some eve) (str "v;")))
inject_claims-append_example =
    inject_claims-append append_entry (tenant_claim ∷ []) email_claim eve (str "v;") no_panic

inject_claims-eq-panic_iff_example :
    (inject_claims append_entry (tenant_claim ∷ email_claim ∷ []) (some ann) (str "v;") ≡ panic)
    ↔ Any HasNoPath (tenant_claim ∷ email_claim ∷ [])
inject_claims-eq-panic_iff_example =
    inject_claims-eq-panic_iff append_entry (tenant_claim ∷ email_claim ∷ []) ann (str "v;")

found_tenant :
    lookup_json_path (object ann.custom_claims) tenant.json_path_components
    ≡ some (text (str "acme"))
unfolding lookup_json_path ◌==◌
found_tenant = refl
