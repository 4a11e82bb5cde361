-- ===== src/Webhook/Verified.antt =====
-- Which requests of a webhook reach the hooks server.
use wundergraph.Prelude.{
  some_injective, ◌≡◌, ◌↔◌, ◌⊎◌, inl, inr, refl, sym, ap, subst, ◌∙◌, true, false, not, none, some,
  [], ◌∷◌, ◌++◌, arith, ◌<◌, Bytes, eq_iff, eq_refl, is_empty, All, if◌then◌else◌, Bool-cases,
  Option-cases, trim_prefix, trim_prefix-append,
}
use wundergraph.Hooks.Header.{Header, get}
use wundergraph.Webhook.Hex.{decode_string, decode_string-append, IsJunk}
use wundergraph.Webhook.{
  Verifier, Handler, Body, whole, broken, Request, unauthorized, proxied, body_signature_bytes,
  body_signature_hex_string, signature_of, verify, serve_http,
}

signature_of_prefix :
    (prefix sent signature : Bytes)
    → sent ≡ prefix ++ signature
    → (if not (is_empty prefix) then trim_prefix sent prefix else sent) ≡ signature
signature_of_prefix [] sent signature e = e
signature_of_prefix (c ∷ prefix) sent signature e = rw e (trim_prefix-append (c ∷ prefix) signature)

module _ (hmac : Bytes → Bytes → Bytes) where
  -- The body came whole, and the signature of the request decodes to the body's code.
  abbrev pub IsSigned : Verifier → Header → Body → Type 0
  IsSigned v header body =
      (b : Bytes) × (body ≡ whole b)
      × (decode_string (signature_of hmac v header) ≡ hmac v.secret b)

  -- There is nothing to verify, or it is signed.
  abbrev pub IsAdmitted : {Url : Type 0} → Handler Url → Request → Type 0
  IsAdmitted h r =
      (r.body ≡ none)
      ⊎ (h.verifier ≡ none)
      ⊎ ((v : Verifier) × (body : Body) × (h.verifier ≡ some v)
          × (r.body ≡ some body)
          × IsSigned v r.header body)

  verify_iff :
      (v : Verifier) (header : Header) (body : Body)
      → ((verify hmac v header body).0 ≡ true) ↔ IsSigned v header body
  unfolding verify body_signature_bytes
  verify_iff v header (broken b) = ground arith
  verify_iff v header (whole b) = (
    (λ e. (b, refl, sym ((eq_iff _ _).0 e))),
    (λ h. let (c, same, decoded) = h in let read : b ≡ c = cc in rw decoded (rw read (eq_refl _))),
  )

  serve_http_broken :
      {Url : Type 0} (h : Handler Url) (v : Verifier) (header : Header) (b : Bytes)
      → h.verifier ≡ some v
      → serve_http hmac h record { header = header; body = some (broken b) } ≡ unauthorized
  unfolding serve_http verify
  serve_http_broken h v header b e = ground arith

  serve_http_accepted :
      {Url : Type 0} (h : Handler Url) (v : Verifier) (header : Header) (b : Bytes)
      → h.verifier ≡ some v
      → (verify hmac v header (whole b)).0 ≡ true
      → serve_http hmac h record { header = header; body = some (whole b) }
        ≡ proxied record { header = header; body = some (whole b) }
  unfolding serve_http verify
  serve_http_accepted h v header b e valid = ground arith

  serve_http_refused :
      {Url : Type 0} (h : Handler Url) (v : Verifier) (header : Header) (b : Bytes)
      → h.verifier ≡ some v
      → (verify hmac v header (whole b)).0 ≡ false
      → serve_http hmac h record { header = header; body = some (whole b) } ≡ unauthorized
  unfolding serve_http verify
  serve_http_refused h v header b e invalid = ground arith

  serve_http_unverified :
      {Url : Type 0} (h : Handler Url) (r : Request)
      → (r.body ≡ none) ⊎ (h.verifier ≡ none)
      → serve_http hmac h r ≡ proxied r
  unfolding serve_http
  serve_http_unverified h r (inl e) = ground arith
  serve_http_unverified h r (inr e) = ground (arith, Option-cases r.body)

  serve_http_of_body :
      {Url : Type 0} (h : Handler Url) (v : Verifier) (header : Header) (body : Body) (r' : Request)
      → h.verifier ≡ some v
      → (serve_http hmac h record { header = header; body = some body } ≡ proxied r')
        ↔ ((r' ≡ record { header = header; body = some body }) × IsSigned v header body)
  serve_http_of_body h v header (broken b) r' e =
      let no = serve_http_broken h v header b e in ((λ s. absurd (cc)), (λ s. absurd (cc)))
  serve_http_of_body h v header (whole b) r' e =
      let is = verify_iff v header (whole b) in
      elim (Bool-cases (verify hmac v header (whole b)).0) [
        | inl valid ↦
            let yes = serve_http_accepted h v header b e valid in
            ((λ s. (cc, is.0 valid)), (λ s. yes ∙ ap proxied (sym (s.0))))
        | inr invalid ↦
            let no = serve_http_refused h v header b e invalid in
            ((λ s. absurd (cc)), (λ s. let valid = is.1 (s.1) in absurd (cc)))
      ]

  IsAdmitted-iff :
      {Url : Type 0} (h : Handler Url) (r : Request) (v : Verifier) (body : Body)
      → h.verifier ≡ some v
      → r.body ≡ some body
      → IsAdmitted h r ↔ IsSigned v r.header body
  IsAdmitted-iff h r v body u e = (
    (λ a. elim a [
      | inl absent ↦ absurd (cc)
      | inr (inl absent) ↦ absurd (cc)
      | inr (inr (v', body', u', e', signed)) ↦
          let same_v : v' ≡ v = some_injective (sym u' ∙ u) in
          let same_body : body' ≡ body = some_injective (sym e' ∙ e) in
          rw (← same_v) (rw (← same_body) signed)
    ]),
    (λ signed. inr (inr (v, body, u, e, signed))),
  )

  signature_of_sent :
      (v : Verifier) (header : Header) (signature : Bytes)
      → get v.signature_header header ≡ v.signature_header_prefix ++ signature
      → signature_of hmac v header ≡ signature
  unfolding signature_of
  signature_of_sent v header signature sent =
      signature_of_prefix v.signature_header_prefix (get v.signature_header header) signature sent

  -- A request reaches the hooks server exactly if it has no body, or the webhook has no verifier, or
  -- its body came whole and its signature decodes to the HMAC of that body; and the server then gets
  -- the request as it came, with the whole body still to be read.
  pub serve_http_iff :
      {Url : Type 0} (h : Handler Url) (r r' : Request)
      → (serve_http hmac h r ≡ proxied r') ↔ ((r' ≡ r) × IsAdmitted h r)
  serve_http_iff h r r' = elim (Option-cases r.body) [
    | inl e ↦ let same = serve_http_unverified h r (inl e) in ((λ s. (cc, inl e)), (λ s. cc))
    | inr (body, e) ↦ elim (Option-cases h.verifier) [
      | inl u ↦
          let same = serve_http_unverified h r (inr u) in ((λ s. (cc, inr (inl u))), (λ s. cc))
      | inr (v, u) ↦
          let same : record { header = r.header; body = some body } ≡ r =
            ap (λ o. record { header = r.header; body = o }) (sym e) in
          let of_body =
            subst (λ q. (serve_http hmac h q ≡ proxied r') ↔ ((r' ≡ q) × IsSigned v r.header body))
              same (serve_http_of_body h v r.header body r' u) in
          let admitted = IsAdmitted-iff h r v body u e in
          (
            (λ s. let (q, signed) = of_body.0 s in (q, admitted.1 signed)),
            (λ s. of_body.1 (s.0, admitted.0 (s.1))),
          )
    ]
  ]

  -- If the HMAC is one of bytes, a request that carries the prefix and the hexadecimal HMAC of its
  -- body is let through, and so it is if any text follows that does not begin with two hexadecimal
  -- digits.
  serve_http_signed :
      {Url : Type 0} (h : Handler Url) (v : Verifier) (header : Header) (b junk : Bytes)
      → h.verifier ≡ some v
      → All (λ n. n < 256) (hmac v.secret b)
      → IsJunk junk
      → get v.signature_header header
        ≡ v.signature_header_prefix ++ (body_signature_hex_string hmac v b ++ junk)
      → serve_http hmac h record { header = header; body = some (whole b) }
        ≡ proxied record { header = header; body = some (whole b) }
  unfolding body_signature_hex_string body_signature_bytes
  serve_http_signed h v header b junk verified small bad sent =
      serve_http_accepted h v header b verified (
        (verify_iff v header (whole b)).1 (
          b,
          refl,
          ap decode_string
                (signature_of_sent v header (body_signature_hex_string hmac v b ++ junk) sent)
              ∙ decode_string-append (hmac v.secret b) junk small bad,
        ))
