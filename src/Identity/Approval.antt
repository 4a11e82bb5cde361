-- ===== src/Identity/Approval.antt =====
-- The hooks of an authentication: Hooks of pkg/authentication/authentication.go.
use wundergraph.Prelude.{
  Bool, true, false, not, Option, none, some, [], ◌∷◌, Bytes, str, ◌==◌, if◌then◌else◌, is_empty,
}
use wundergraph.Auth.User.{User, no_user}
use wundergraph.Hooks.Client.Monad.{ok, err}
use wundergraph.Hooks.Client.{
  Env, World, Hook, post_authentication, post_logout, mutating_post_authentication, or_nil,
  do_authentication_request,
}

-- Hooks: which of them are enabled
pub record AuthHooks : Type 0 where
  pub calls_post_authentication : Bool
  pub calls_mutating_post_authentication : Bool
  pub calls_post_logout : Bool

-- MutatingPostAuthenticationResponse
pub record Approval : Type 0 where
  pub user : User
  pub message : Bytes
  pub status : Bytes

-- encoding/json on a user and on the answer about one
pub record UserCodec : Type 0 where
  pub marshal_user : User → Option Bytes
  pub unmarshal_approval : Bytes → Option Approval

module _ (env : Env) (codec : UserCodec) (hooks : AuthHooks) where
  -- `hookData, _ = jsonparser.Set(hookData, userJson, "__wg", "user")`
  unfoldable pub hook_data : Bytes → Bytes
  hook_data user_json = or_nil (env.set (str "{}") user_json (str "__wg" ∷ str "user" ∷ []))

  -- what handlePostAuthentication and handlePostLogout do with a user: its answer is not looked at
  unfoldable pub notify : Hook → User → World → World
  notify hook user s = elim (codec.marshal_user user) [
    | none ↦ s
    | some user_json ↦ (do_authentication_request env hook (hook_data user_json) s).1
  ]

  -- handlePostAuthentication
  unfoldable pub handle_post_authentication : User → World → World
  unfolding notify
  handle_post_authentication user s =
      if not hooks.calls_post_authentication then s else notify post_authentication user s

  -- handlePostLogout
  unfoldable pub handle_post_logout : Option User → World → World
  unfolding notify
  handle_post_logout none s = s
  handle_post_logout (some user) s =
      if not hooks.calls_post_logout then s else notify post_logout user s

  abbrev pub denied : Bool × Bytes × User
  denied = (false, [], no_user)

  -- the answer of the hook: its user replaces the one that was sent
  unfoldable pub read_approval : Bytes → Bool × Bytes × User
  read_approval response = elim (codec.unmarshal_approval response) [
    | none ↦ denied
    | some a ↦ if a.status == str "ok" then (true, [], a.user) else (false, a.message, no_user)
  ]

  -- handleMutatingPostAuthentication: whether to proceed, a message, and the user. The client hands
  -- no nil response without an error, and none with an error in it.
  unfoldable pub handle_mutating_post_authentication : User → World → (Bool × Bytes × User) × World
  unfolding read_approval
  handle_mutating_post_authentication user s =
      if not hooks.calls_mutating_post_authentication
      then ((true, [], user), s)
      else elim (codec.marshal_user user) [
        | none ↦ (denied, s)
        | some user_json ↦
            let (result, s') =
              do_authentication_request env mutating_post_authentication (hook_data user_json) s in
            elim result [
              | err e ↦ (denied, s')
              | ok none ↦ (denied, s')
              | ok (some out) ↦
                  if not (is_empty out.error)
                  then (denied, s')
                  else (read_approval out.response, s')
            ]
      ]
