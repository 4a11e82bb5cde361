-- ===== src/Hooks/Tests.antt =====
-- Headers and answers of the hooks server at concrete inputs.
use wundergraph.Prelude.{◌≡◌, refl, [], ◌∷◌, str, ◌==◌}
use wundergraph.Prelude.Int.{pos, show_int, show_digits}
use wundergraph.Hooks.Header.{Header, canonical, set, get, is_token}
use wundergraph.Hooks.Header.Laws.{get-set, canonical-idempotent}
use wundergraph.Hooks.Client.Monad.{ok}
use wundergraph.Hooks.Client.{cut_off, MiddlewareHookResponse, read_function_reply}
use wundergraph.Hooks.Pipeline.Tests.{answered, echo}

canonical_names :
    (canonical (str "wg-cycle-COUNTER") ≡ str "Wg-Cycle-Counter")
    × (canonical (str "no header") ≡ str "no header")
unfolding canonical is_token
canonical_names = (refl, refl)

canonical-idempotent_example :
    canonical (canonical (str "x-csrf-token")) ≡ canonical (str "x-csrf-token")
canonical-idempotent_example = canonical-idempotent (str "x-csrf-token")

get-set_example : get (str "ACCEPT") (set (str "accept") (str "text/html") []) ≡ str "text/html"
unfolding canonical is_token ◌==◌
get-set_example = get-set (str "accept") (str "ACCEPT") (str "text/html") []

abbrev bad_gateway : MiddlewareHookResponse
bad_gateway = record answered { client_response_status_code = 502 }

bad_gateway_for_500 : read_function_reply echo (cut_off 500 []) ≡ ok bad_gateway
unfolding read_function_reply
bad_gateway_for_500 = refl

abbrev counted : Header
counted = (str "Wg-Cycle-Counter", str "41" ∷ []) ∷ []

counter_of_counted : get (str "Wg-Cycle-Counter") counted ≡ show_int (pos 41)
unfolding get canonical is_token show_int show_digits ◌==◌
counter_of_counted = refl
