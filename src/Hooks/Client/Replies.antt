-- ===== src/Hooks/Client/Replies.antt =====
-- What the client makes of the answers of the hooks server, and what it sends.
use wundergraph.Prelude.{
  ℕ, suc, ◌≤◌, ◌≡◌, ◌↔◌, ◌⊎◌, inl, inr, refl, ap, Option, some, [], Bytes, str, eqb, if◌then◌else◌,
  arith, Option-cases, ltb,
}
use wundergraph.Prelude.Int.{pos, min_int64, max_int64, show_int, incr_int64, parse_int-show_int}
use wundergraph.Hooks.Header.{Header, get}
use wundergraph.Hooks.Client.Monad.{ok}
use wundergraph.Hooks.Client.{
  Hook, MiddlewareHookResponse, Reply, answer, cut_off, not_built, no_answer, Env, read_reply,
  read_function_body, read_function_reply,
}
use wundergraph.Hooks.Client.Encode.{next_cycle}

module _ (env : Env) where
  -- A hook's answer is accepted exactly if it came whole, with status 200 and a body that decodes to a
  -- response without an error, and the response is then that one.
  read_reply_iff :
      (hook : Option Hook) (reply : Reply) (r : MiddlewareHookResponse)
      → (read_reply env hook reply ≡ ok r) ↔ (
          (body : Bytes) × (reply ≡ answer 200 body)
          × (env.unmarshal_response body ≡ some r)
          × (r.error ≡ []))
  unfolding read_reply
  read_reply_iff hook not_built r = ((λ e. absurd (cc)), (λ h. let e = h.1 in absurd (cc)))
  read_reply_iff hook no_answer r = ((λ e. absurd (cc)), (λ h. let e = h.1 in absurd (cc)))
  read_reply_iff hook (cut_off n b) r = ((λ e. absurd (cc)), (λ h. let e = h.1 in absurd (cc)))
  read_reply_iff hook (answer n b) r = (
    (λ e. (b, ground arith, ground arith, ground arith)),
    (λ h. let (x, same, decoded, clean) = h in ground arith),
  )

  -- the status that a client is given for the status of a function's answer
  abbrev pub client_status : ℕ → ℕ
  client_status n = if eqb n 500 then 502 else if eqb n 401 then 401 else 200

  read_function_body_iff :
      (n : ℕ) (b : Bytes) (r : MiddlewareHookResponse)
      → (read_function_body env n b ≡ ok r) ↔ (
          ((n ≡ 200) ⊎ (n ≡ 500) ⊎ (n ≡ 401))
          × ((d : MiddlewareHookResponse) × (env.decode_response b ≡ some d)
              × (d.error ≡ [])
              × (record d { client_response_status_code = client_status n } ≡ r)))
  unfolding read_function_body
  read_function_body_iff n b r = (
    (λ e. elim (Option-cases (env.decode_response b)) [
      | inl none' ↦ absurd (ground arith)
      | inr (d, decoded) ↦ (ground arith, (d, decoded, ground arith, ground arith))
    ]),
    (λ h. let (status, (d, decoded, clean, same)) = h in ground arith),
  )

  -- A function's answer, whole or cut off, is accepted exactly if its status is 200, 500 or 401 and its
  -- body begins with a response without an error. The client's status is then 502 for a 500, 401 for a
  -- 401, and 200 for a 200.
  read_function_reply_iff :
      (reply : Reply) (r : MiddlewareHookResponse)
      → (read_function_reply env reply ≡ ok r) ↔ (
          (n : ℕ) × (b : Bytes) × ((reply ≡ answer n b) ⊎ (reply ≡ cut_off n b))
          × ((n ≡ 200) ⊎ (n ≡ 500) ⊎ (n ≡ 401))
          × ((d : MiddlewareHookResponse) × (env.decode_response b ≡ some d)
              × (d.error ≡ [])
              × (record d { client_response_status_code = client_status n } ≡ r)))
  unfolding read_function_reply
  read_function_reply_iff not_built r =
      ((λ e. absurd (cc)), (λ h. let (n, b, same, status, rest) = h in absurd (ground arith)))
  read_function_reply_iff no_answer r =
      ((λ e. absurd (cc)), (λ h. let (n, b, same, status, rest) = h in absurd (ground arith)))
  read_function_reply_iff (cut_off n b) r =
      let (to, from) = read_function_body_iff n b r in
      (
        (λ e. (n, b, inr refl, (to e).0, (to e).1)),
        (λ h.
            let (m, c, same, status, found) = h in
            let (d, decoded, clean, eq) = found in
            from (ground arith, (d, ground arith, clean, ground arith))),
      )
  read_function_reply_iff (answer n b) r =
      let (to, from) = read_function_body_iff n b r in
      (
        (λ e. (n, b, inl refl, (to e).0, (to e).1)),
        (λ h.
            let (m, c, same, status, found) = h in
            let (d, decoded, clean, eq) = found in
            from (ground arith, (d, ground arith, clean, ground arith))),
      )

-- For a counter received as the decimal text of a number up to the largest int64, the counter that
-- is sent on is one more; the largest wraps round to the smallest int64.
next_cycle_lem :
    (h : Header) (n : ℕ)
    → get (str "Wg-Cycle-Counter") h ≡ show_int (pos n)
    → n ≤ max_int64
    → next_cycle h ≡ show_int (if ltb n max_int64 then pos (suc n) else min_int64)
unfolding next_cycle incr_int64
next_cycle_lem h n e fits = rw (e, parse_int-show_int (pos n) fits) (ap show_int (wraps n fits))
  where
    wraps :
        (n : ℕ)
        → n ≤ max_int64
        → incr_int64 (pos n) ≡ (if ltb n max_int64 then pos (suc n) else min_int64)
    wraps n fits = ground arith
