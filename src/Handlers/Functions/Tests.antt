-- ===== src/Handlers/Functions/Tests.antt =====
-- Tests of FunctionsHandler and of the relay of a function's stream, and witnesses.
use wundergraph.Prelude.{
  ◌+◌, ◌≡◌, refl, true, false, none, some, [], ◌∷◌, str, length, contains_byte,
}
use wundergraph.Hooks.Client.{MiddlewareHookResponse, read_function_reply}
use wundergraph.Hooks.Client.Stream.{StreamParams, relay_body}
use wundergraph.Hooks.Client.Stream.Relay.{sent_by, on_wire, relay_body-plain}
use wundergraph.Handlers.Samples.{libs, hooks_server, hook_answer, new_world}
use wundergraph.Handlers.FlushWriter.{FlushWriter}
use wundergraph.Handlers.Functions.{Tools, Poll, poll_rounds}
use wundergraph.Handlers.Functions.Polling.{AnswersAlike, poll_rounds_busy}

abbrev tools : Tools
tools = record {
  libs = libs;
  hooks = hooks_server;
  marshal_user = λ u. some u.user_id;
  get_input = λ d. d;
  create_patch = λ a b. none;
  write_fails = λ b. false;
  over = false;
}

abbrev ok_answer : MiddlewareHookResponse
ok_answer = record hook_answer { client_response_status_code = 200 }

abbrev writer : FlushWriter
writer = record {
  subscribe_once = false;
  sse = false;
  use_json_patch = false;
  buf = [];
  last_message = str "filtered";
  out = [];
  closed = false;
}

abbrev started : Poll
started = record { world = new_world; writer = writer; last_response = str "filtered"; slept = 1 }

hooks_server-AnswersAlike : AnswersAlike hooks_server ok_answer
unfolding read_function_reply
hooks_server-AnswersAlike calls c = refl

poll_rounds_busy_example :
    (length (poll_rounds tools (str "f") (str "{}") 1000 started).world.sent ≡ 1000 + 0)
    × ((poll_rounds tools (str "f") (str "{}") 1000 started).slept ≡ 1)
poll_rounds_busy_example =
    poll_rounds_busy tools (str "f") (str "{}") ok_answer 1000 started hooks_server-AnswersAlike
      refl

abbrev sse_only : StreamParams
sse_only = record { use_sse = true; use_json_patch = false; flushable = true }

relay_body-plain_example :
    ((relay_body (λ a b. none) (λ b. false) false sse_only (str "{1}\n\n{2}\n\n") none).error
      ≡ none)
    × (on_wire
          (relay_body (λ a b. none) (λ b. false) false sse_only (str "{1}\n\n{2}\n\n") none).written
        ≡ str "data: {1}\n\ndata: {2}\n\ndata: done\n\n")
unfolding sent_by
relay_body-plain_example =
    relay_body-plain (λ a b. none) false sse_only refl refl (str "{1}" ∷ str "{2}" ∷ [])
      (unfold contains_byte in (refl, (refl, tt)))

-- a server that ends its stream right after the newline of a message: the message is lost
last_message_lost :
    (relay_body (λ a b. none) (λ b. false) false sse_only (str "{1}\n\n{2}\n") none).written
    ≡ (relay_body (λ a b. none) (λ b. false) false sse_only (str "{1}\n\n") none).written
unfolding relay_body
last_message_lost = refl
