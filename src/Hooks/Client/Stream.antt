-- ===== src/Hooks/Client/Stream.antt =====
-- DoFunctionSubscriptionRequest of pkg/hooks/hooks.go: the stream of a function's messages, which the
-- client of the hooks server relays.
pub mod Relay
use wundergraph.Prelude.{
  ℕ, suc, Bool, true, false, not, ◌&&◌, Option, none, some, List, [], ◌∷◌, ◌++◌, Bytes, str, eqb,
  ltb, if◌then◌else◌, is_empty, length,
}
use wundergraph.Hooks.Client.Monad.{Result, ok, err}
use wundergraph.Hooks.Client.{
  Call, Hook, HookError, not_sent, failed, unreadable, bad_status, undecodable, Reply, not_built,
  no_answer, cut_off, answer, Written, flush, bytes, Env, World, send, set_internal_hook_data,
}

-- how DoFunctionSubscriptionRequest reports an error of its own
pub data StreamError : Type 0 where
  hook_error : HookError → StreamError
  not_flushable no_patch not_written : StreamError

-- ReadBytes('\n') and ReadByte until one of them meets the end: the lines, each with its newline, and
-- each followed by a byte that is dropped
unfoldable pub read_messages : Bytes → Bytes → List Bytes
read_messages line [] = []
read_messages line (c ∷ []) = []
read_messages line (c ∷ d ∷ rest) =
    let after_line = read_messages [] rest in
    let more = read_messages (line ++ c ∷ []) (d ∷ rest) in
    if eqb c 10 then (line ++ c ∷ []) ∷ after_line else more

-- the settings of the request
pub record StreamParams : Type 0 where
  pub use_sse : Bool
  pub use_json_patch : Bool
  pub flushable : Bool

-- What was written to the client, and the error if one is returned.
pub record Relayed : Type 0 where
  pub written : List Written
  pub error : Option StreamError

-- whether the loop goes on after a line
pub data Line : Type 0 where
  goes_on : List Written → Line
  stopped : Option StreamError → List Written → Line

-- line[:len(line)-1]
unfoldable pub without_newline : Bytes → Bytes
without_newline [] = []
without_newline (c ∷ []) = []
without_newline (c ∷ d ∷ s) = c ∷ without_newline (d ∷ s)

-- `create` is CreatePatch of package jsonpatch with json.Marshal on its patch, none an error of either;
-- `fails` says of which bytes Write returns an error; `over` is ctx.Err() != nil.
module _ (create : Bytes → Bytes → Option Bytes) (fails : Bytes → Bool) (over : Bool)
    (params : StreamParams) where
  abbrev pub unless_over : StreamError → Option StreamError
  unless_over e = if over then none else some e

  -- Writes in a row, up to one that fails; true if all were written.
  unfoldable pub write_all : List Bytes → List Written → Bool × List Written
  write_all [] written = (true, written)
  write_all (b ∷ bs) written =
      let rest = write_all bs (written ++ bytes b ∷ []) in
      if fails b then (false, written ++ bytes b ∷ []) else rest

  -- useJsonPatch && lastLine.Len() != 0
  abbrev pub patched : Bytes → Bool
  patched last = params.use_json_patch && not (is_empty last)

  -- what is written for a line, or none if there is no patch
  unfoldable pub parts_of : Bytes → Bytes → Option (List Bytes)
  parts_of last line =
      if patched last
      then elim (create last (without_newline line)) [
        | none ↦ none
        | some patch ↦
            some (if ltb (length patch) (length line) then patch ∷ str "\n" ∷ [] else line ∷ [])
      ]
      else some (line ∷ [])

  abbrev pub sse_prefix : List Bytes
  sse_prefix = if params.use_sse then str "data: " ∷ [] else []

  -- what is written after the prefix of an event: an error of the line itself is returned even where the
  -- context is over, if the line may be a patch
  unfoldable pub relay_line : Bytes → Option (List Bytes) → List Written → Line
  unfolding write_all
  relay_line last none written = stopped (some no_patch) written
  relay_line last (some parts) written =
      let (all, written') = write_all parts written in
      let (ended, written'') = write_all (str "\n" ∷ []) written' in
      if not all
      then stopped (if patched last then some not_written else unless_over not_written) written'
      else if not ended
      then stopped (unless_over not_written) written''
      else goes_on (written'' ++ flush ∷ [])

  unfoldable pub relay_event : Bytes → Bytes → List Written → Line
  unfolding relay_line
  relay_event last line written =
      let (begun, written') = write_all sse_prefix written in
      if not begun
      then stopped (unless_over not_written) written'
      else relay_line last (parts_of last line) written'

  -- The loop, on the lines that the server's body has before its end.
  unfoldable pub relay : Bytes → List Bytes → List Written → Relayed
  unfolding relay_event
  relay last [] written = record { written = written; error = none }
  relay last (line ∷ lines) written = elim (relay_event last line written) [
    | goes_on written' ↦ relay line lines written'
    | stopped e written' ↦ record { written = written'; error = e }
  ]

  -- the deferred call
  unfoldable pub done : Relayed → Relayed
  done r =
      if params.use_sse
      then record r { written = r.written ++ bytes (str "data: done\n\n") ∷ flush ∷ [] }
      else r

  -- the end of the server's body, with the error that it ends with, if that is not io.EOF
  unfoldable pub ended : Option StreamError → Relayed → Relayed
  ended broken r = elim r.error [
    | some e ↦ r
    | none ↦ record r { error = if over then none else broken }
  ]

  -- from `flusher, ok := out.(http.Flusher)` on
  unfoldable pub relay_body : Bytes → Option StreamError → Relayed
  unfolding relay done read_messages ended
  relay_body data' broken =
      if not params.flushable
      then record { written = []; error = some not_flushable }
      else done (ended broken (relay [] (read_messages [] data') []))

  -- what becomes of the answer
  unfoldable pub read_stream_reply : Reply → Relayed
  unfolding relay_body
  read_stream_reply not_built = record { written = []; error = some (hook_error not_sent) }
  read_stream_reply no_answer = record { written = []; error = some (hook_error (failed none)) }
  read_stream_reply (cut_off status data') =
      if not (eqb status 200)
      then record { written = []; error = some (hook_error (bad_status none status [])) }
      else relay_body data' (some (hook_error (unreadable none)))
  read_stream_reply (answer status data') =
      if not (eqb status 200)
      then record { written = []; error = some (hook_error (bad_status none status [])) }
      else relay_body data' none

  -- DoFunctionSubscriptionRequest
  unfoldable pub do_function_subscription_request : Env → Bytes → Bytes → World → Relayed × World
  unfolding read_stream_reply set_internal_hook_data
  do_function_subscription_request env operation_name json_data s =
      let call : Call = record {
        path = str "functions/" ++ operation_name;
        hook = none;
        body = set_internal_hook_data env s.client json_data;
      } in
      (read_stream_reply (env.serve s.sent call), record s { sent = s.sent ++ call ∷ [] })
