-- ===== src/Identity/Laws.antt =====
-- What the loading of a user keeps to.
use wundergraph.Prelude.{
  ◌≡◌, ◌≢◌, inl, inr, refl, sym, ap, ◌∙◌, Bool, true, false, Option, none, some, List, [], ◌∷◌,
  ◌++◌, arith, Bytes, str, ◌==◌, eq_iff, if◌then◌else◌, Bool-cases, Option-cases, All,
  has_prefix-append, trim_prefix-append,
}
use wundergraph.Auth.User.{null, Fields, no_fields, field, User}
use wundergraph.Claims.{index}
use wundergraph.Hooks.Client.{World}
use wundergraph.Hooks.Header.{get}
use wundergraph.Identity.Approval.{handle_mutating_post_authentication}
use wundergraph.Identity.{no_claims, Claims, to_user, custom_of, custom_fields, is_custom_claim}
use wundergraph.Identity.Tokens.{
  UserLoadConfig, Token, Loader, Memory, keyfunc, claims_of, token_user, unparsed, ask_hooks,
  settle, approve, fresh_user, user_from_token, checked_token, accept_token,
}
use wundergraph.Identity.Cookies.{
  Request, CookieCodec, with_id_token, after_user_cookie, load_id_cookie, load_cookies, or_cookies,
  load,
}

index-custom_fields :
    (raw : Fields) (k : Bytes)
    → index (custom_fields raw) k ≡ (if is_custom_claim k then index raw k else null)
unfolding index custom_fields
index-custom_fields no_fields k = ground arith
index-custom_fields (field j v raw) k = ground (
  arith,
  index-custom_fields raw k,
  eq_iff j k,
  Bool-cases (is_custom_claim j),
  Bool-cases (is_custom_claim k),
)

-- A user made of claims has exactly those among its custom claims that are no claims of their own, with
-- their values: a claim that ToUser puts into a field is not found among the custom claims.
index-to_user :
    (c : Claims) (k : Bytes)
    → index (to_user c).custom_claims k ≡ (if is_custom_claim k then index c.raw k else null)
unfolding to_user custom_of
index-to_user c k = index-custom_fields c.raw k

module _ (loader : Loader) where
  open loader use {Cache, cache_get, cache_set, parse}

  settle-eq_none :
      (token : Token) (cfg : UserLoadConfig) (m : Memory loader)
      (verdict : (Bool × Bytes × User) × World)
      → (settle loader token cfg m verdict).0 ≡ none
      → (settle loader token cfg m verdict).1.cache ≡ m.cache
  unfolding settle
  settle-eq_none token cfg m ((proceed, message, user), world) h = ground arith

  fresh_user-eq_none :
      (token : Token) (cfg : UserLoadConfig) (m : Memory loader)
      → (fresh_user loader token cfg m).0 ≡ none
      → (fresh_user loader token cfg m).1.cache ≡ m.cache
  unfolding fresh_user approve
  fresh_user-eq_none token cfg m h = elim (Option-cases (claims_of loader token cfg)) [
    | inl e ↦ rw (e, fresh_user) refl
    | inr (claims, e) ↦
        let same : fresh_user loader token cfg m ≡ approve loader token cfg claims m =
          rw (e, fresh_user) refl in
        rw same (
          settle-eq_none token cfg m (ask_hooks loader (token_user loader token cfg claims) m.world)
            (sym (ap (λ t. t.0) same) ∙ h))
  ]

  -- A token that gives no user, because its claims cannot be read or a hook denies it, leaves the
  -- cache as it was.
  user_from_token-eq_none :
      (token : Token) (cfg : UserLoadConfig) (revalidate : Bool) (m : Memory loader)
      → (user_from_token loader token cfg revalidate m).0 ≡ none
      → (user_from_token loader token cfg revalidate m).1.cache ≡ m.cache
  unfolding user_from_token
  user_from_token-eq_none token cfg revalidate m h =
      ground (arith, fresh_user-eq_none token cfg m, Option-cases (cache_get m.cache token.raw))

  settle-eq_some :
      (token : Token) (cfg : UserLoadConfig) (m : Memory loader) (user : User)
      (verdict : (Bool × Bytes × User) × World)
      → verdict.0 ≡ (true, [], user)
      → (settle loader token cfg m verdict).0 ≡ some user
  unfolding settle
  settle-eq_some token cfg m user ((proceed, message, u), world) e = ground arith

  ask_hooks-eq_true :
      (user : User) (s : World)
      → loader.hooks.calls_mutating_post_authentication ≡ false
      → (ask_hooks loader user s).0 ≡ (true, [], user)
  unfolding ask_hooks handle_mutating_post_authentication
  ask_hooks-eq_true user s e = rw (e, handle_mutating_post_authentication) refl

  unparsed_token :
      (cfg : UserLoadConfig) (text : Bytes)
      → keyfunc cfg ≡ none
      → (parse text none).token ≡ none
      → checked_token loader text cfg ≡ some (unparsed loader text)
  unfolding checked_token
  unparsed_token cfg text no_keys no_jwt = rw (no_keys, checked_token) (rw no_keys (rw no_jwt refl))

  unparsed_user :
      (cfg : UserLoadConfig) (text : Bytes) (m : Memory loader)
      → cfg.user_info_endpoint ≡ []
      → loader.hooks.calls_mutating_post_authentication ≡ false
      → (user_from_token loader (unparsed loader text) cfg true m).0
        ≡ some (token_user loader (unparsed loader text) cfg no_claims)
  unfolding user_from_token fresh_user approve
  unparsed_user cfg text m no_endpoint no_hook =
      let user = token_user loader (unparsed loader text) cfg no_claims in
      rw (no_endpoint, user_from_token, fresh_user)
        (settle-eq_some (unparsed loader text) cfg m user (ask_hooks loader user m.world)
          (ask_hooks-eq_true user m.world no_hook))

  first_accepts :
      (cfg : UserLoadConfig) (cfgs : List UserLoadConfig) (text : Bytes) (m : Memory loader)
      (token : Token) (user : User)
      → checked_token loader text cfg ≡ some token
      → (user_from_token loader token cfg true m).0 ≡ some user
      → (accept_token loader (cfg ∷ cfgs) text true m).0 ≡ some user
  unfolding accept_token
  first_accepts cfg cfgs text m token user checked found =
      rw (checked, accept_token) (rw found refl)

  -- A configuration with neither keys nor an endpoint for the user's data, and without the hook
  -- mutatingPostAuthentication, takes any text for a bearer token, one that is no JWT too: its user has
  -- no ID, and is accepted.
  accept_token-eq_some :
      (cfg : UserLoadConfig) (cfgs : List UserLoadConfig) (text : Bytes) (m : Memory loader)
      → keyfunc cfg ≡ none
      → cfg.user_info_endpoint ≡ []
      → (parse text none).token ≡ none
      → loader.hooks.calls_mutating_post_authentication ≡ false
      → (accept_token loader (cfg ∷ cfgs) text true m).0
        ≡ some (token_user loader (unparsed loader text) cfg no_claims)
  accept_token-eq_some cfg cfgs text m no_keys no_endpoint no_jwt no_hook =
      first_accepts cfg cfgs text m (unparsed loader text)
        (token_user loader (unparsed loader text) cfg no_claims)
        (unparsed_token cfg text no_keys no_jwt) (unparsed_user cfg text m no_endpoint no_hook)

  -- The configuration has keys, and the token does not parse with them or is not valid.
  abbrev pub Refuses : Bytes → UserLoadConfig → Type 0
  Refuses text cfg =
      (keyfunc cfg ≢ none)
      × ((token : Token)
          → (parse text (keyfunc cfg)).token ≡ some token
          → (parse text (keyfunc cfg)).failed ≡ false
          → token.valid ≡ false)

  checked_token-Refuses :
      (text : Bytes) (cfg : UserLoadConfig)
      → Refuses text cfg
      → checked_token loader text cfg ≡ none
  unfolding checked_token
  checked_token-Refuses text cfg (keys, invalid) = elim (Option-cases (keyfunc cfg)) [
    | inl e ↦ absurd (keys e)
    | inr (ks, e) ↦ elim (Bool-cases (parse text (keyfunc cfg)).failed) [
      | inl failed ↦ ground arith
      | inr parsed ↦ elim (Option-cases (parse text (keyfunc cfg)).token) [
        | inl no_token ↦ ground arith
        | inr (token, found) ↦ let bad = invalid token found parsed in ground arith
      ]
    ]
  ]

  accept_token-Refuses :
      (cfgs : List UserLoadConfig) (text : Bytes) (revalidate : Bool) (m : Memory loader)
      → All (Refuses text) cfgs
      → accept_token loader cfgs text revalidate m ≡ (none, m)
  unfolding accept_token
  accept_token-Refuses [] text revalidate m h = refl
  accept_token-Refuses (cfg ∷ cfgs) text revalidate m (no_token, h) =
      rw (checked_token-Refuses text cfg no_token, accept_token)
        (accept_token-Refuses cfgs text revalidate m h)

  load_with_token :
      (cookies : CookieCodec) (cfgs : List UserLoadConfig) (r : Request) (u : User)
      (m : Memory loader) (text : Bytes)
      → get (str "Authorization") r.header ≡ str "Bearer " ++ text
      → load loader cookies (some cfgs) r u m
        ≡ or_cookies loader cookies
            (load_cookies loader cookies r u)
            (accept_token loader cfgs text (r.revalidate == str "true") m)
  unfolding load
  load_with_token cookies cfgs r u m text header =
      rw (header, load)
        (rw (has_prefix-append (str "Bearer ") text)
          (rw (trim_prefix-append (str "Bearer ") text) refl))

  -- A bearer token that every configuration refuses by its keys counts for nothing: Load goes on
  -- with the cookies, and the cache and what the hooks server was sent are as before.
  pub load-Refuses :
      (cookies : CookieCodec) (cfgs : List UserLoadConfig) (r : Request) (u : User)
      (m : Memory loader) (text : Bytes)
      → get (str "Authorization") r.header ≡ str "Bearer " ++ text
      → All (Refuses text) cfgs
      → load loader cookies (some cfgs) r u m ≡ (load_cookies loader cookies r u, m)
  unfolding or_cookies
  load-Refuses cookies cfgs r u m text header h =
      load_with_token cookies cfgs r u m text header
      ∙ ap (or_cookies loader cookies (load_cookies loader cookies r u))
          (accept_token-Refuses cfgs text (r.revalidate == str "true") m h)

  -- Without an Authorization header, the error of the first of two cookies is forgotten: with a
  -- cookie `user` that does not decode, and a cookie `id` that does, Load returns no error, and the
  -- user is the one that was passed in, with an ID token.
  load-undecodable :
      (cookies : CookieCodec) (r : Request) (u : User) (m : Memory loader) (v w raw : Bytes)
      → get (str "Authorization") r.header ≡ []
      → r.user_cookie ≡ some v
      → CookieCodec.decode_user cookies v u ≡ none
      → r.id_cookie ≡ some w
      → CookieCodec.decode_id cookies w ≡ some raw
      → (cfgs : Option (List UserLoadConfig))
      → load loader cookies cfgs r u m ≡ ((with_id_token loader cookies u raw, true), m)
  unfolding load load_cookies after_user_cookie load_id_cookie
  load-undecodable cookies r u m v w raw header has_user bad has_id good none = ground arith
  load-undecodable cookies r u m v w raw header has_user bad has_id good (some cfgs) = ground arith
