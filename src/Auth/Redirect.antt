-- ===== src/Auth/Redirect.antt =====
-- pkg/authentication/authentication.go: RedirectURIValidator, which says where a login may lead.
pub mod Targets
use wundergraph.Prelude.{
  Bool, true, false, Option, none, some, List, [], ◌∷◌, ◌++◌, Bytes, ◌==◌, if◌then◌else◌,
  has_suffix, trim_suffix,
}

-- Package regexp: what `regexp.Compile` makes of a pattern, and what a matcher accepts.
pub record Regexp : Type 1 where
  pub Matcher : Type 0
  pub compile : Bytes → Option Matcher
  pub match_string : Matcher → Bytes → Bool

-- The two places of a request that the code reads: `r.URL.Query().Get("redirect_uri")`, and the
-- value of the cookie success_redirect_uri, if there is one.
pub record Request : Type 0 where
  pub redirect_uri : Bytes
  pub cookie : Option Bytes

abbrev pub slash : Bytes
slash = b'/' ∷ []

-- the loop over matchString
unfoldable pub string_matchers : List Bytes → List Bytes
string_matchers [] = []
string_matchers (uri ∷ uris) =
    uri
    ∷ (if has_suffix uri slash then trim_suffix uri slash else uri ++ slash)
    ∷ string_matchers uris

unfoldable pub equals_one : List Bytes → Bytes → Bool
equals_one [] uri = false
equals_one (m ∷ ms) uri = let rest = equals_one ms uri in if m == uri then true else rest

module _ (re : Regexp) where
  open re use {Matcher, compile, match_string}

  pub record Validator : Type 0 where
    pub string_matchers : List Bytes
    pub regex_matchers : List Matcher

  -- the loop over matchRegex: a pattern that does not compile is left out
  unfoldable pub regex_matchers : List Bytes → List Matcher
  regex_matchers [] = []
  regex_matchers (uri ∷ uris) = elim (compile uri) [
    | none ↦ regex_matchers uris
    | some m ↦ m ∷ regex_matchers uris
  ]

  -- NewRedirectValidator
  unfoldable pub new_validator : List Bytes → List Bytes → Validator
  unfolding string_matchers regex_matchers
  new_validator match_string match_regex = record {
    string_matchers = string_matchers match_string;
    regex_matchers = regex_matchers match_regex;
  }

  unfoldable pub matches_one : List Matcher → Bytes → Bool
  matches_one [] uri = false
  matches_one (m ∷ ms) uri =
      let rest = matches_one ms uri in if match_string m uri then true else rest

  -- the part of GetValidatedRedirectURI after the URI is read
  check_uri : Validator → Bytes → Bytes × Bool
  unfolding equals_one matches_one
  check_uri v uri =
      if uri == []
      then ([], false)
      else if equals_one v.string_matchers uri
      then (uri, true)
      else if matches_one v.regex_matchers uri
      then (uri, true)
      else (uri, false)

  from_cookie : Validator → Option Bytes → Bytes × Bool
  unfolding check_uri
  from_cookie v none = ([], false)
  from_cookie v (some uri) = check_uri v uri

  -- GetValidatedRedirectURI
  unfoldable pub get_validated_redirect_uri : Validator → Request → Bytes × Bool
  unfolding from_cookie
  get_validated_redirect_uri v r =
      if r.redirect_uri == [] then from_cookie v r.cookie else check_uri v r.redirect_uri
