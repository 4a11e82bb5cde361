-- ===== src/Handlers/Mutation.antt =====
-- pkg/apihandler/apihandler.go: MutationHandler.ServeHTTP.
pub mod Answers
use wundergraph.Prelude.{
  Bool, true, false, not, Option, none, some, List, [], ◌∷◌, ◌++◌, Bytes, str, ◌==◌, if◌then◌else◌,
  is_empty,
}
use wundergraph.Auth.User.{User}
use wundergraph.Auth.Rbac.{enforce}
use wundergraph.Hooks.Header.{get}
use wundergraph.Hooks.Client.Monad.{Result, ok, err}
use wundergraph.Hooks.Client.{World, Env}
use wundergraph.Hooks.Pipeline.{Response}
use wundergraph.Hooks.Pipeline.Operation.{Resolution, RunError, run}
use wundergraph.Handlers.{Sent, set_header, status, body, http_error, Cause, handle_operation_err}
use wundergraph.Handlers.Variables.{Values, Libs, parse_form_variables}
use wundergraph.Handlers.Prepare.{
  Operation, Request, Prepared, ready, answered, panicked, prepare, Conn, Served, returned, panics,
  tell, start, pipeline_for, told_by,
}

-- What a mutation reads besides: r.Form after ParseForm, or none if that fails; and the body, or none
-- if reading it fails.
pub record Posted : Type 0 where
  pub form : Option Values
  pub body : Option Bytes

-- the packages and parts that the handler works with, as for QueryHandler
pub record Tools : Type 0 where
  pub libs : Libs
  pub hooks : Env
  pub marshal_user : User → Option Bytes
  pub cause : RunError → Cause
  pub resolve : Bytes → Resolution
  pub transformer : Option (Bytes → Option Bytes)

abbrev or_empty_object : Bytes → Bytes
or_empty_object [] = str "{}"
or_empty_object variables = variables

module _ (t : Tools) where
  -- the variables of the request; none if its body cannot be read
  unfoldable pub raw_variables : Request → Posted → Option Bytes
  unfolding parse_form_variables
  raw_variables r posted =
      if get (str "Content-Type") r.header == str "application/x-www-form-urlencoded"
      then some (or_empty_object (parse_form_variables t.libs posted.form))
      else elim posted.body [ none ↦ none | some data' ↦ some (or_empty_object data') ]

  unfoldable pub answer : Request → Result RunError Response → List Sent
  answer r (err e) = (handle_operation_err (some (t.cause e)) (str "hooks pipeline failed")).1
  answer r (ok resp) =
      if resp.done
      then []
      else body resp.data'
        ∷ (handle_operation_err (r.write_error resp.data') (str "writing response failed")).1

  unfoldable pub serve_ready : Operation → Request → Bytes → Conn (Unit {0}) → Conn (Unit {0})
  unfolding answer
  serve_ready o r variables s =
      let (result, world) =
        run t.hooks (pipeline_for t.marshal_user o r) t.resolve t.transformer
          (start r variables s.world) in
      record s { world = world; out = s.out ++ told_by world ++ answer r result }

  unfoldable pub serve_prepared :
      Operation → Request → Prepared → Conn (Unit {0}) → Served × Conn (Unit {0})
  unfolding serve_ready
  serve_prepared o r (ready variables) s = (returned, serve_ready o r variables s)
  serve_prepared o r (answered sent) s = (returned, tell sent s)
  serve_prepared o r panicked s = (panics, s)

  unfoldable pub serve_raw :
      Operation → Request → Option Bytes → Conn (Unit {0}) → Served × Conn (Unit {0})
  unfolding serve_prepared
  serve_raw o r none s = (returned, tell (status 400 ∷ []) s)
  serve_raw o r (some raw) s = serve_prepared o r (prepare t.libs o r.user raw) s

  -- ServeHTTP
  unfoldable pub mutation_serve_http :
      Operation → Request → Posted → Conn (Unit {0}) → Served × Conn (Unit {0})
  unfolding serve_raw
  mutation_serve_http o r posted s =
      if not (enforce o.enforcer r.user)
      then (returned, tell (http_error (str "unauthorized") 401 ∷ []) s)
      else serve_raw o r (raw_variables r posted)
          (tell (set_header (str "Content-Type") (str "application/json") ∷ []) s)
