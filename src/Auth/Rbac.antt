-- ===== src/Auth/Rbac.antt =====
-- pkg/authentication/authentication.go: RBACEnforcer, the role rules of an operation.
pub mod Policy
use wundergraph.Prelude.{
  Bool, true, false, not, ◌&&◌, Option, none, some, List, [], ◌∷◌, Bytes, ◌==◌, is_empty,
  if◌then◌else◌,
}
use wundergraph.Auth.User.{User}

-- operation.AuthorizationConfig.RoleConfig
pub record RoleConfig : Type 0 where
  pub require_match_all : List Bytes
  pub require_match_any : List Bytes
  pub deny_match_all : List Bytes
  pub deny_match_any : List Bytes

pub record Enforcer : Type 0 where
  pub has_rules : Bool
  pub require_match_all : List Bytes
  pub require_match_any : List Bytes
  pub deny_match_all : List Bytes
  pub deny_match_any : List Bytes
  pub has_require_match_all : Bool
  pub has_require_match_any : Bool
  pub has_deny_match_all : Bool
  pub has_deny_match_any : Bool

-- NewRBACEnforcer
unfoldable pub new_enforcer : RoleConfig → Enforcer
new_enforcer c =
    if is_empty c.require_match_all
      && is_empty c.require_match_any
      && is_empty c.deny_match_all
      && is_empty c.deny_match_any
    then record {
      has_rules = false;
      require_match_all = [];
      require_match_any = [];
      deny_match_all = [];
      deny_match_any = [];
      has_require_match_all = false;
      has_require_match_any = false;
      has_deny_match_all = false;
      has_deny_match_any = false;
    }
    else record {
      has_rules = true;
      require_match_all = c.require_match_all;
      require_match_any = c.require_match_any;
      deny_match_all = c.deny_match_all;
      deny_match_any = c.deny_match_any;
      has_require_match_all = not (is_empty c.require_match_all);
      has_require_match_any = not (is_empty c.require_match_any);
      has_deny_match_all = not (is_empty c.deny_match_all);
      has_deny_match_any = not (is_empty c.deny_match_any);
    }

-- containsOne
unfoldable pub contains_one : List Bytes → Bytes → Bool
contains_one [] one = false
contains_one (s ∷ slice) one = let rest = contains_one slice one in if s == one then true else rest

-- for _, match := range matches { if !containsOne(roles, match) { return false } }; return true
unfoldable pub contains_every : List Bytes → List Bytes → Bool
unfolding contains_one
contains_every roles [] = true
contains_every roles (match ∷ matches) =
    let rest = contains_every roles matches in
    if not (contains_one roles match) then false else rest

-- for _, match := range matches { if containsOne(roles, match) { return true } }; return false
unfoldable pub contains_some : List Bytes → List Bytes → Bool
unfolding contains_one
contains_some roles [] = false
contains_some roles (match ∷ matches) =
    let rest = contains_some roles matches in if contains_one roles match then true else rest

unfoldable pub enforce_require_match_all : Enforcer → User → Bool
unfolding contains_every
enforce_require_match_all e user =
    if not e.has_require_match_all then true else contains_every user.roles e.require_match_all

unfoldable pub enforce_require_match_any : Enforcer → User → Bool
unfolding contains_some
enforce_require_match_any e user =
    if not e.has_require_match_any then true else contains_some user.roles e.require_match_any

unfoldable pub enforce_deny_match_all : Enforcer → User → Bool
unfolding contains_every
enforce_deny_match_all e user =
    if not e.has_deny_match_all then true else not (contains_every user.roles e.deny_match_all)

unfoldable pub enforce_deny_match_any : Enforcer → User → Bool
unfolding contains_some
enforce_deny_match_any e user =
    if not e.has_deny_match_any then true else not (contains_some user.roles e.deny_match_any)

enforce_user : Enforcer → Option User → Bool
enforce_user e none = false
enforce_user e (some user) =
    if not (enforce_require_match_all e user)
    then false
    else if not (enforce_require_match_any e user)
    then false
    else if not (enforce_deny_match_all e user)
    then false
    else if not (enforce_deny_match_any e user)
    then false
    else true

-- Enforce, for the user of the request's context
unfoldable pub enforce : Enforcer → Option User → Bool
unfolding enforce_user enforce_require_match_all enforce_require_match_any enforce_deny_match_all
    enforce_deny_match_any
enforce e user = if not e.has_rules then true else enforce_user e user
