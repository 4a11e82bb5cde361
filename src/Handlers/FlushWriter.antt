-- ===== src/Handlers/FlushWriter.antt =====
-- pkg/apihandler/apihandler.go: httpFlushWriter, which sends the messages of a subscription.
pub mod Frames
use wundergraph.Prelude.{
  ℕ, Bool, true, false, not, ◌&&◌, ◌||◌, Option, none, some, List, [], ◌∷◌, ◌++◌, Bytes, str, ltb,
  if◌then◌else◌, is_empty, length,
}
use wundergraph.Handlers.{Sent, body, flush, set_header}
use wundergraph.Handlers.Variables.{WgRequestParams}
use wundergraph.Handlers.Query.{subscription_headers}

-- httpFlushWriter: its settings, its two buffers, what it told its http.ResponseWriter, and whether
-- the context of the subscription was cancelled by `close`
pub record FlushWriter : Type 0 where
  pub subscribe_once : Bool
  pub sse : Bool
  pub use_json_patch : Bool
  pub buf : Bytes
  pub last_message : Bytes
  pub out : List Sent
  pub closed : Bool

-- getFlushWriter; none where the writer is no http.Flusher
unfoldable pub get_flush_writer : WgRequestParams → Bool → Option FlushWriter
get_flush_writer params flusher_ok =
    if not flusher_ok
    then none
    else some record {
      subscribe_once = params.subscribe_once;
      sse = params.use_sse;
      use_json_patch = params.use_json_patch;
      buf = [];
      last_message = [];
      out = (if not params.subscribe_once then subscription_headers else []) ++ flush ∷ [];
      closed = false;
    }

-- the patch if it is smaller than the message, else the message
unfoldable pub smaller : Bytes → Bytes → Bytes
smaller patch resp = if ltb (length patch) (length resp) then patch else resp

abbrev pub prefix_of : FlushWriter → List Sent
prefix_of f = if f.sse then body (str "data: ") ∷ [] else []

-- `create` is CreatePatch of package jsonpatch with json.Marshal on its patch, none an error of
-- either; `transform` is the transformer of responses, if there is one; `post_resolve` is PostResolve
-- of the hooks, if there are any, none an error.
module _ (create : Bytes → Bytes → Option Bytes) (transform : Option (Bytes → Option Bytes))
    (post_resolve : Option (Bytes → Option Bytes)) where
  -- Write; false if the transformer fails
  unfoldable pub write : Bytes → FlushWriter → Bool × FlushWriter
  write p f = elim transform [
    | none ↦ (true, record f { buf = f.buf ++ p })
    | some g ↦ elim (g p) [ none ↦ (false, f) | some q ↦ (true, record f { buf = f.buf ++ q }) ]
  ]

  -- Close
  unfoldable pub close : FlushWriter → FlushWriter
  close f =
      if f.sse then record f { out = f.out ++ body (str "event: done\n\n") ∷ flush ∷ [] } else f

  -- what PostResolve makes of a message
  unfoldable pub hooked : Bytes → Bytes
  hooked resp = elim post_resolve [
    | none ↦ resp
    | some g ↦ elim (g resp) [ none ↦ resp | some q ↦ q ]
  ]

  -- what follows "data: "; none where there is no patch
  unfoldable pub payload : FlushWriter → Bytes → Option Bytes
  unfolding smaller
  payload f resp =
      if f.use_json_patch && not (is_empty f.last_message)
      then elim (create f.last_message resp) [
        | none ↦ none
        | some patch ↦ some (smaller patch resp)
      ]
      else some resp

  -- from the end of the patch on
  unfoldable pub finish : Bytes → List Sent → FlushWriter → FlushWriter
  finish resp sent f =
      if f.subscribe_once
      then record f { last_message = resp; out = f.out ++ sent ++ flush ∷ []; closed = true }
      else record f { last_message = resp; out = f.out ++ sent ++ body (str "\n\n") ∷ flush ∷ [] }

  -- Flush, on the message that PostResolve left
  unfoldable pub flush_message : Bytes → FlushWriter → FlushWriter
  unfolding finish
  flush_message resp f = elim (payload f resp) [
    | none ↦ record f { out = f.out ++ prefix_of f }
    | some p ↦ finish resp (prefix_of f ++ body p ∷ []) f
  ]

  -- Flush
  unfoldable pub flush_writer : FlushWriter → FlushWriter
  unfolding flush_message
  flush_writer f = flush_message (hooked f.buf) (record f { buf = [] })

  -- Messages of the resolver: Write and Flush for each, up to a Write that fails.
  unfoldable pub send_messages : List Bytes → FlushWriter → FlushWriter
  unfolding flush_writer
  send_messages [] f = f
  send_messages (p ∷ ps) f =
      let (written, f') = write p f in
      let rest = send_messages ps (flush_writer f') in if written then rest else f'
