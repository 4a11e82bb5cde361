-- ===== src/Identity/Tokens.antt =====
-- The user of a bearer token: UserLoadConfig and userFromToken of pkg/authentication/authentication.go,
-- and the loop over the configurations in User.Load.
use wundergraph.Prelude.{
  Bool, false, not, Option, none, some, List, [], ◌∷◌, Bytes, str, if◌then◌else◌, is_empty,
}
use wundergraph.Prelude.Int.{ℤ, is_positive}
use wundergraph.Auth.User.{User}
use wundergraph.Hooks.Client.{Env, World}
use wundergraph.Identity.{no_claims, Claims, to_user, try_parse_jwt}
use wundergraph.Identity.Approval.{
  AuthHooks, UserCodec, handle_post_authentication, handle_mutating_post_authentication,
}

-- UserLoadConfig, with the keys of its key set
pub record UserLoadConfig : Type 0 where
  pub jwks : Option (List Bytes)
  pub user_info_endpoint : Bytes
  pub cache_ttl_seconds : ℤ
  pub issuer : Bytes

-- jwt.Token: its text, whether it is valid, and what parseClaims reads of its claims; none is an error
pub record Token : Type 0 where
  pub raw : Bytes
  pub valid : Bool
  pub claims : Option Claims

-- What jwt.Parse returns: a token or nil, and whether there is an error.
pub record Parsed : Type 0 where
  pub token : Option Token
  pub failed : Bool

-- What the loader uses: jwt.Parse with the keys of a key function, the claims that the endpoint of the
-- user's data gives for a token, base64, the hooks, and the cache, of which an entry may vanish.
pub record Loader : Type 1 where
  pub Cache : Type 0
  pub cache_get : Cache → Bytes → Option User
  pub cache_set : Cache → Bytes → User → Cache
  pub parse : Bytes → Option (List Bytes) → Parsed
  pub user_info : Bytes → Bytes → Option Claims
  pub decode64 : Bytes → Option Bytes
  pub env : Env
  pub codec : UserCodec
  pub hooks : AuthHooks

-- Keyfunc
unfoldable pub keyfunc : UserLoadConfig → Option (List Bytes)
keyfunc cfg = elim cfg.jwks [ none ↦ none | some [] ↦ none | some (key ∷ keys) ↦ some (key ∷ keys) ]

module _ (loader : Loader) where
  open loader use {Cache, cache_get, cache_set, parse, user_info, decode64, env, codec, hooks}

  pub record Memory : Type 0 where
    pub cache : Cache
    pub world : World

  -- the context of the hooks is context.Background(), in which there is no client's request
  abbrev in_background : {A : Type 0} → (World → A × World) → World → A × World
  in_background call s =
      let (a, s') = call (record s { client = none }) in (a, record s' { client = s.client })

  abbrev pub claims_of : Token → UserLoadConfig → Option Claims
  claims_of token cfg =
      if not (is_empty cfg.user_info_endpoint)
      then user_info cfg.user_info_endpoint token.raw
      else token.claims

  abbrev pub token_user : Token → UserLoadConfig → Claims → User
  token_user token cfg claims = record (to_user claims) {
    provider_name = str "token";
    provider_id = if is_empty cfg.issuer then claims.issuer else cfg.issuer;
    access_token = try_parse_jwt decode64 token.raw;
  }

  -- both hooks in their order, with the verdict of the second
  unfoldable pub ask_hooks : User → World → (Bool × Bytes × User) × World
  ask_hooks user = in_background (λ s.
      handle_mutating_post_authentication env codec hooks user
        (handle_post_authentication env codec hooks user s))

  -- what is done with the verdict of the hooks
  unfoldable pub settle :
      Token → UserLoadConfig → Memory → (Bool × Bytes × User) × World → Option User × Memory
  settle token cfg m ((proceed, message, user), world) =
      let asked = record m { world = world } in
      if not proceed
      then (none, asked)
      else if is_positive cfg.cache_ttl_seconds
      then (some user, record asked { cache = cache_set m.cache token.raw user })
      else (some user, asked)

  -- the rest of userFromToken, for claims that could be read
  unfoldable pub approve : Token → UserLoadConfig → Claims → Memory → Option User × Memory
  unfolding settle
  approve token cfg claims m = settle token cfg m (ask_hooks (token_user token cfg claims) m.world)

  -- userFromToken behind its look into the cache
  unfoldable pub fresh_user : Token → UserLoadConfig → Memory → Option User × Memory
  unfolding approve
  fresh_user token cfg m = elim (claims_of token cfg) [
    | none ↦ (none, m)
    | some claims ↦ approve token cfg claims m
  ]

  -- userFromToken; none is its error
  unfoldable pub user_from_token : Token → UserLoadConfig → Bool → Memory → Option User × Memory
  unfolding fresh_user
  user_from_token token cfg revalidate m =
      if revalidate then fresh_user token cfg m else elim (cache_get m.cache token.raw) [
        | some user ↦ (some user, m)
        | none ↦ fresh_user token cfg m
      ]

  -- a text that is no JWT, as a token: its claims are nil, whose JSON is null
  abbrev pub unparsed : Bytes → Token
  unparsed text = record { raw = text; valid = false; claims = some no_claims }

  -- the token that one configuration lets through to userFromToken
  unfoldable pub checked_token : Bytes → UserLoadConfig → Option Token
  checked_token text cfg =
      let parsed = parse text (keyfunc cfg) in
      elim (keyfunc cfg) [
        | some keys ↦ if parsed.failed then none else elim parsed.token [
          | none ↦ none
          | some token ↦ if not token.valid then none else some token
        ]
        | none ↦ elim parsed.token [ some token ↦ some token | none ↦ some (unparsed text) ]
      ]

  -- the loop of Load: the first configuration that gives a user
  unfoldable pub accept_token : List UserLoadConfig → Bytes → Bool → Memory → Option User × Memory
  unfolding checked_token user_from_token
  accept_token [] text revalidate m = (none, m)
  accept_token (cfg ∷ cfgs) text revalidate m = elim (checked_token text cfg) [
    | none ↦ accept_token cfgs text revalidate m
    | some token ↦
        let (found, m') = user_from_token token cfg revalidate m in
        elim found [ some user ↦ (some user, m') | none ↦ accept_token cfgs text revalidate m' ]
  ]
