-- ===== src/Hooks/Client/Encode.antt =====
-- EncodeData of pkg/hooks/hooks.go: what a hook is sent.
use wundergraph.Prelude.{
  not, Option, none, some, [], ◌∷◌, Bytes, str, ltb, if◌then◌else◌, is_empty, length,
}
use wundergraph.Prelude.Int.{show_int, incr_int64, parse_int}
use wundergraph.Hooks.Header.{Header, get}
use wundergraph.Hooks.Client.{
  Env, ClientRequest, HandlerRequest, no_request, client_request, own_request, or_nil,
}

-- the header of the request that a handler passes on
unfoldable pub header_of : HandlerRequest → Option ClientRequest → Option Header
header_of no_request client = none
header_of client_request none = none
header_of client_request (some r) = some r.header
header_of (own_request h) client = some h

-- The counter of hooks that call one another, one higher: an unreadable header counts as 0, and a
-- number that int64 cannot hold as its nearest.
unfoldable pub next_cycle : Header → Bytes
unfolding parse_int
next_cycle h = show_int (incr_int64 (parse_int (get (str "Wg-Cycle-Counter") h)))

put_user : Env → Bytes → Option (Option Bytes) → Bytes
put_user env buf (some (some user_json)) =
    or_nil (env.set buf user_json (str "__wg" ∷ str "user" ∷ []))
put_user env buf _ = buf

put_cycle : Env → Bytes → Option Header → Bytes
unfolding next_cycle
put_cycle env buf none = buf
put_cycle env buf (some h) = or_nil (env.set buf (next_cycle h) (str "cycleCounter" ∷ []))

-- EncodeData; `user` is json.Marshal of the user: outer none without a user, inner none where it fails
unfoldable pub encode_data : Env → Option (Option Bytes) → Option Header → Bytes → Bytes → Bytes
unfolding put_user put_cycle
encode_data env user header variables response =
    let start = str "{\"__wg\":{}}" in
    let with_user = put_user env start user in
    let with_input =
      if ltb 2 (length variables)
      then or_nil (env.set with_user variables (str "input" ∷ []))
      else with_user in
    let with_response =
      if not (is_empty response)
      then or_nil (env.set with_input response (str "response" ∷ []))
      else with_input in
    put_cycle env with_response header
