-- ===== src/Auth/Redirect/Targets.antt =====
-- Which redirect targets are authorized.
use wundergraph.Prelude.{
  ◌≡◌, ◌≢◌, ◌↔◌, ◌⊎◌, inl, inr, refl, true, Option, none, some, List, [], ◌∷◌, ◌++◌, arith, Bytes,
  ◌==◌, eq_iff, if◌then◌else◌, has_suffix, trim_suffix, Any, Bool-cases,
}
use wundergraph.Auth.Redirect.{
  Regexp, Request, slash, string_matchers, equals_one, regex_matchers, matches_one, Validator,
  new_validator, check_uri, from_cookie, get_validated_redirect_uri,
}

-- The target that a request asks for: the query's, or without one the cookie's.
pub requested : Request → Bytes
requested r =
    if r.redirect_uri == [] then (elim r.cookie [ none ↦ [] | some uri ↦ uri ]) else r.redirect_uri

-- An allowed URI stands for itself with and without a slash at its end.
abbrev pub Covers : Bytes → Bytes → Type 0
Covers allowed uri =
    (allowed ≡ uri)
    ⊎ ((if has_suffix allowed slash then trim_suffix allowed slash else allowed ++ slash) ≡ uri)

equals_one_iff :
    (allowed : List Bytes) (uri : Bytes)
    → (equals_one (string_matchers allowed) uri ≡ true) ↔ Any (λ a. Covers a uri) allowed
unfolding equals_one string_matchers
equals_one_iff [] uri = ground arith
equals_one_iff (a ∷ as') uri = ground (
  arith,
  equals_one_iff as' uri,
  eq_iff a uri,
  eq_iff (if has_suffix a slash then trim_suffix a slash else a ++ slash) uri,
)

module _ (re : Regexp) where
  open re use {Matcher, compile, match_string}

  -- A pattern covers what its matcher accepts, if it compiles.
  abbrev pub Accepts : Bytes → Bytes → Type 0
  Accepts pattern' uri = (m : Matcher) × (compile pattern' ≡ some m) × (match_string m uri ≡ true)

  matches_one_iff :
      (patterns : List Bytes) (uri : Bytes)
      → (matches_one re (regex_matchers re patterns) uri ≡ true) ↔ Any (λ p. Accepts p uri) patterns
  unfolding matches_one regex_matchers
  matches_one_iff [] uri = ground arith
  matches_one_iff (p ∷ ps) uri = ground (arith, matches_one_iff ps uri)

  check_uri_iff :
      (allowed patterns : List Bytes) (uri : Bytes)
      → ((check_uri re (new_validator re allowed patterns) uri).1 ≡ true)
        ↔ ((uri ≢ []) × (Any (λ a. Covers a uri) allowed ⊎ Any (λ p. Accepts p uri) patterns))
  unfolding check_uri new_validator
  check_uri_iff allowed patterns uri =
      ground (arith, equals_one_iff allowed uri, matches_one_iff patterns uri, eq_iff uri [])

  check_uri_same : (v : Validator re) (uri : Bytes) → (check_uri re v uri).0 ≡ uri
  unfolding check_uri
  check_uri_same v uri = ground (arith, eq_iff uri [])

  from_cookie_lem :
      (v : Validator re) (cookie : Option Bytes)
      → from_cookie re v cookie ≡ check_uri re v (elim cookie [ none ↦ [] | some uri ↦ uri ])
  unfolding from_cookie check_uri ◌==◌
  from_cookie_lem v none = refl
  from_cookie_lem v (some uri) = refl

  get-eq-check_uri :
      (v : Validator re) (r : Request)
      → get_validated_redirect_uri re v r ≡ check_uri re v (requested r)
  unfolding get_validated_redirect_uri requested
  get-eq-check_uri v r = elim (Bool-cases (r.redirect_uri == [])) [
    | inl e ↦ rw e (from_cookie_lem v r.cookie)
    | inr e ↦ rw e (rw e)
  ]

  -- A redirect is authorized exactly if its target is not empty, and equals an allowed URI up to one
  -- slash at the end, or is accepted by a pattern that compiles. The target is the query's, or the
  -- cookie's if the query has none, and an authorized redirect leads to that target and no other.
  pub get_validated_redirect_uri_iff :
      (allowed patterns : List Bytes) (r : Request)
      → (((get_validated_redirect_uri re (new_validator re allowed patterns) r).1 ≡ true) ↔ (
          (requested r ≢ [])
          × (Any (λ a. Covers a (requested r)) allowed
              ⊎ Any (λ p. Accepts p (requested r)) patterns)))
        × ((get_validated_redirect_uri re (new_validator re allowed patterns) r).0 ≡ requested r)
  get_validated_redirect_uri_iff allowed patterns r =
      let v = new_validator re allowed patterns in
      rw (get-eq-check_uri v r)
        (check_uri_iff allowed patterns (requested r), check_uri_same v (requested r))
