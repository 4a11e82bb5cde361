-- ===== src/Handlers/Mutation/Answers.antt =====
-- MutationHandler.ServeHTTP of pkg/apihandler/apihandler.go: what a client is told.
use wundergraph.Prelude.{
  ◌∙◌, some_injective, ◌≡◌, ◌⊎◌, inl, inr, refl, sym, ap, subst, not, Option, none, some, List, [],
  ◌∷◌, ◌++◌, append_assoc, Bytes, ◌≤◌, arith, Any, Bool-cases, if_true, if_false,
}
use wundergraph.Claims.{Outcome, ok, err, panic}
use wundergraph.Auth.User.{User}
use wundergraph.Auth.Rbac.{enforce}
use wundergraph.Hooks.Client.Monad.{Result}
use wundergraph.Hooks.Client.Monad
use wundergraph.Hooks.Client.{World}
use wundergraph.Hooks.Pipeline.{Response}
use wundergraph.Hooks.Pipeline.Operation.{RunError, run}
use wundergraph.Hooks.Pipeline.Done.{NotDone, run-NotDone}
use wundergraph.Handlers.{
  Sent, status, body, http_error, Cause, canceled, deadline_exceeded, validation_error, other_error,
  handle_operation_err, validate, valid, invalid, not_encoded, Verdict, validate_input_variables,
  Validator, ValidationError,
}
use wundergraph.Handlers.Variables.{Libs}
use wundergraph.Handlers.Prepare.{
  Operation, Request, Prepared, ready, answered, panicked, after_compact, prepare, Conn, Served,
  returned, panics, live, post_processed, start, pipeline_for, told_by,
}
use wundergraph.Handlers.Mutation.{
  Tools, Posted, raw_variables, answer, serve_ready, serve_prepared, serve_raw, mutation_serve_http,
}

-- the status of an error
abbrev pub IsError : Sent → Type 0
IsError (status n) = 400 ≤ n
IsError (http_error text n) = 400 ≤ n
IsError _ = ⊥

pub Any-append_right : (P : Sent → Type 0) (a b : List Sent) → Any P b → Any P (a ++ b)
Any-append_right P [] b h = h
Any-append_right P (x ∷ a) b h = inr (Any-append_right P a b h)

-- the data, if there are any, as the body of the answer
abbrev pub IsData : Option Bytes → Sent → Type 0
IsData response (body data') = response ≡ some data'
IsData response _ = ⊥

abbrev pub HasAnswer : Option Bytes → List Sent → Type 0
HasAnswer response told = Any IsError told ⊎ Any (IsData response) told

HasAnswer-append :
    (response : Option Bytes) (a b : List Sent) → HasAnswer response b → HasAnswer response (a ++ b)
HasAnswer-append response a b (inl h) = inl (Any-append_right IsError a b h)
HasAnswer-append response a b (inr h) = inr (Any-append_right (IsData response) a b h)

-- What was told after what had been told before has an answer.
pub record Answers (response : Option Bytes) (before after : List Sent) : Type 0 where
  pub told : List Sent
  pub grows : after ≡ before ++ told
  pub has_answer : HasAnswer response told

Answers-error :
    (response : Option Bytes) (before told : List Sent)
    → Any IsError told
    → Answers response before (before ++ told)
Answers-error response before told h = record { told = told; grows = refl; has_answer = inl h }

Answers-after :
    (response : Option Bytes) (before first after : List Sent)
    → Answers response (before ++ first) after
    → Answers response before after
Answers-after response before first after k = record {
  told = first ++ k.told;
  grows = k.grows ∙ append_assoc before first k.told;
  has_answer = HasAnswer-append response first k.told k.has_answer;
}

-- every error of an operation is told to the client as one
pub handle_operation_err-IsError :
    (c : Cause) (message : Bytes) → Any IsError (handle_operation_err (some c) message).1
unfolding handle_operation_err
handle_operation_err-IsError canceled message = inl (omega arith)
handle_operation_err-IsError deadline_exceeded message = inl (omega arith)
handle_operation_err-IsError (validation_error json) message = inl (omega arith)
handle_operation_err-IsError (other_error text) message = inl (omega arith)

validate_input_variables-IsError :
    (encode : ValidationError → Option Bytes) (v : Validator) (d : Bytes) (sent : List Sent)
    → validate_input_variables encode v d ≡ some sent
    → Any IsError sent
unfolding validate_input_variables
validate_input_variables-IsError encode v d sent e = go (validate encode v d) e
  where
    go :
        (x : Verdict)
        → (elim x [
          | valid ↦ none
          | invalid text ↦ some (status 400 ∷ body text ∷ [])
          | not_encoded ↦ some (status 500 ∷ [])
        ])
          ≡ some sent
        → Any IsError sent
    go valid h = absurd (cc)
    go (invalid text) h = rw (← some_injective h) (inl (omega arith))
    go not_encoded h = rw (← some_injective h) (inl (omega arith))

-- The variables are ready, or an error was told, or the handler panicked.
abbrev pub PreparedIsError : Prepared → Type 0
PreparedIsError (ready v) = Unit
PreparedIsError (answered sent) = Any IsError sent
PreparedIsError panicked = Unit

post_processed-IsError : (libs : Libs) (x : Outcome Bytes) → PreparedIsError (post_processed libs x)
unfolding post_processed
post_processed-IsError libs (ok v) = tt
post_processed-IsError libs (err e) = handle_operation_err-IsError _ _
post_processed-IsError libs panic = tt

module _ (libs : Libs) (o : Operation) (user : Option User) where
  after_compact-IsError : (c : Option Bytes) → PreparedIsError (after_compact libs o user c)
  unfolding after_compact
  after_compact-IsError none = inl (omega arith)
  after_compact-IsError (some compacted) = post_processed-IsError libs _

  pub prepare-IsError : (raw : Bytes) → PreparedIsError (prepare libs o user raw)
  unfolding prepare
  prepare-IsError raw =
      go (validate_input_variables libs.encode o.validator (o.string_interpolator raw)) refl
    where
      go :
          (x : Option (List Sent))
          → validate_input_variables libs.encode o.validator (o.string_interpolator raw) ≡ x
          → PreparedIsError (elim x [
            | none ↦ after_compact libs o user (libs.compact (o.string_interpolator raw))
            | some sent ↦ answered sent
          ])
      go none e = after_compact-IsError _
      go (some sent) e = validate_input_variables-IsError libs.encode o.validator _ sent e

-- the data of a response that a run returned
data_of : Result RunError Response → Option Bytes
data_of (Monad.err e) = none
data_of (Monad.ok resp) = some resp.data'

module _ (t : Tools) (o : Operation) (r : Request) where
  -- the data that the run for a request returns, if one is started and returns any
  run_data : Prepared → World → Option Bytes
  unfolding data_of
  run_data (ready v) w =
      data_of
        (run t.hooks (pipeline_for t.marshal_user o r) t.resolve t.transformer (start r v w)).0
  run_data p w = none

  raw_data : Option Bytes → World → Option Bytes
  unfolding run_data
  raw_data none w = none
  raw_data (some raw) w = run_data (prepare t.libs o r.user raw) w

  unfoldable pub response_data : Posted → World → Option Bytes
  unfolding raw_data
  response_data posted w = raw_data (raw_variables t r posted) w

  answer-HasAnswer :
      (x : Result RunError Response) → NotDone x → HasAnswer (data_of x) (answer t r x)
  unfolding answer data_of
  answer-HasAnswer (Monad.err e) h = inl (handle_operation_err-IsError _ _)
  answer-HasAnswer (Monad.ok resp) h = rw h (inr (inl refl))

  -- what the client was told in the end, unless the handler panicked
  Answered : Option Bytes → List Sent → Served × Conn (Unit {0}) → Type 0
  Answered response before (returned, s) = Answers response before s.out
  Answered response before (_, s) = Unit

  serve_prepared-Answered :
      (p : Prepared) (s : Conn (Unit {0}))
      → PreparedIsError p
      → Answered (run_data p s.world) s.out (serve_prepared t o r p s)
  unfolding serve_prepared serve_ready Answered run_data
  serve_prepared-Answered (ready v) s h =
      let (result, world) =
        run t.hooks (pipeline_for t.marshal_user o r) t.resolve t.transformer (start r v s.world) in
      record {
        told = told_by world ++ answer t r result;
        grows = append_assoc s.out (told_by world) (answer t r result);
        has_answer =
            HasAnswer-append (data_of result) (told_by world) (answer t r result)
              (answer-HasAnswer result (run-NotDone _ _ _ _ _));
      }
  serve_prepared-Answered (answered sent) s h = Answers-error _ s.out sent h
  serve_prepared-Answered panicked s h = tt

  serve_raw-Answered :
      (raw : Option Bytes) (s : Conn (Unit {0}))
      → Answered (raw_data raw s.world) s.out (serve_raw t o r raw s)
  unfolding serve_raw Answered raw_data
  serve_raw-Answered none s = Answers-error _ s.out _ (inl (omega arith))
  serve_raw-Answered (some raw) s =
      serve_prepared-Answered _ s (prepare-IsError t.libs o r.user raw)

  Answered-after :
      (response : Option Bytes) (before first : List Sent) (x : Served × Conn (Unit {0}))
      → Answered response (before ++ first) x
      → Answered response before x
  unfolding Answered
  Answered-after response before first (returned, s) h = Answers-after response before first _ h
  Answered-after response before first (panics, s) h = tt
  Answered-after response before first (live v, s) h = tt

  Answered-told :
      (response : Option Bytes) (before : List Sent) (x : Served × Conn (Unit {0}))
      → Answered response before x
      → x.0 ≡ returned
      → Answers response before x.1.out
  unfolding Answered
  Answered-told response before (returned, s) h e = h
  Answered-told response before (panics, s) h e = absurd (cc)
  Answered-told response before (live v, s) h e = absurd (cc)

  mutation_serve_http-Answered :
      (posted : Posted) (s : Conn (Unit {0}))
      → Answered (response_data posted s.world) s.out (mutation_serve_http t o r posted s)
  unfolding mutation_serve_http response_data
  mutation_serve_http-Answered posted s = elim (Bool-cases (enforce o.enforcer r.user)) [
    | inl e ↦
        subst (Answered (response_data posted s.world) s.out) (sym (if_false _ _ (ap not e)))
          (Answered-after _ s.out _ _ (serve_raw-Answered (raw_variables t r posted) _))
    | inr e ↦
        subst (Answered (response_data posted s.world) s.out) (sym (if_true _ _ (ap not e)))
          (unfold Answered in Answers-error _ s.out _ (inl (omega arith)))
  ]

  -- Every request to a mutation is answered, unless the injection of claims panics: besides what had been
  -- told before, the client is told an error with a status of at least 400, or is sent a body that is
  -- the data of the response which the run for its variables returned.
  pub mutation_serve_http-HasAnswer :
      (posted : Posted) (s : Conn (Unit {0}))
      → (mutation_serve_http t o r posted s).0 ≡ returned
      → Answers (response_data posted s.world) s.out (mutation_serve_http t o r posted s).1.out
  mutation_serve_http-HasAnswer posted s e =
      Answered-told (response_data posted s.world) s.out (mutation_serve_http t o r posted s)
        (mutation_serve_http-Answered posted s) e
