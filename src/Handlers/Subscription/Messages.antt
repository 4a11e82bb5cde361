-- ===== src/Handlers/Subscription/Messages.antt =====
-- SubscriptionHandler.ServeHTTP of pkg/apihandler/apihandler.go: what its client reads.
use wundergraph.Prelude.{
  ◌≡◌, inl, inr, refl, ap, ◌∙◌, true, false, not, none, some, List, [], ◌∷◌, ◌++◌, map, Bytes,
  Option, All, split, if_true, if_false, Bool-cases, sym, append_assoc, append-nil,
}
use wundergraph.Auth.Rbac.{enforce}
use wundergraph.Hooks.Client.Monad.{Result, ok}
use wundergraph.Hooks.Client.{World, HookError}
use wundergraph.Hooks.Pipeline.{Response, run_pre_resolve}
use wundergraph.Handlers.{Sent, hooks_wrote}
use wundergraph.Handlers.Variables.{WgRequestParams, parse_query_variables, new_wg_request_params}
use wundergraph.Handlers.Prepare.{
  Operation, Request, ready, prepare, Conn, Served, start, pipeline_for, told_by,
}
use wundergraph.Handlers.FlushWriter.{FlushWriter, get_flush_writer, write, hooked}
use wundergraph.Handlers.FlushWriter.Frames.{opened, wire-opened, read_lines-send_messages}
use wundergraph.Handlers.Stream.{wire, Documents, Message, MakesPatches, read_lines, wire-append}
use wundergraph.Handlers.Subscription.{
  Tools, subscribe, serve_with, serve_prepared, subscription_serve_http,
}

-- the hooks write nothing that a client would read
wire-told_by : (w : World) → wire (told_by w) ≡ []
wire-told_by w = go w.written
  where
    go : (xs : _) → wire (map hooks_wrote xs) ≡ []
    go [] = refl
    go (x ∷ xs) = go xs

wire_without : (xs ys zs : List Sent) → wire ys ≡ [] → wire ((xs ++ ys) ++ zs) ≡ wire xs ++ wire zs
wire_without xs ys zs e = simp (wire-append, append_assoc) (ap (λ w. wire xs ++ (w ++ wire zs)) e)

wire_of_opened : (params : WgRequestParams) → wire (opened params).out ≡ []
wire_of_opened params =
    sym (append-nil _) ∙ sym (wire-append (opened params).out []) ∙ wire-opened params []

get_flush_writer-opened :
    (params : WgRequestParams) → get_flush_writer params true ≡ some (opened params)
unfolding get_flush_writer opened
get_flush_writer-opened params = refl

module _ (t : Tools) (o : Operation) (allow_list : List Bytes) (r : Request) (v : Bytes)
    (s : Conn (Unit {0})) where
  -- what the hooks before the operation come to
  abbrev pub pre_result : Result HookError Response × World
  pre_result = run_pre_resolve t.hooks (pipeline_for t.marshal_user o r) (start r v s.world)

  serve_http-wire :
      (pre : Response)
      → enforce o.enforcer r.user ≡ true
      → prepare t.libs o r.user (parse_query_variables t.libs allow_list r.query) ≡ ready v
      → r.can_flush ≡ true
      → pre_result.0 ≡ ok pre
      → wire (subscription_serve_http t o allow_list r s).1.out
        ≡ wire s.out ++ wire (subscribe t (ok pre) (opened (new_wg_request_params r.query))).out
  unfolding subscription_serve_http serve_prepared serve_with get_flush_writer opened
  serve_http-wire pre allowed is_ready flushes run =
      let params = new_wg_request_params r.query in
      let out_of : Served × Conn (Unit {0}) → Bytes = λ x. wire x.1.out in
      ap out_of (if_false _ _ (ap not allowed) ∙ ap (λ p. serve_prepared t o r p s) is_ready)
      ∙ ap (λ b. wire (serve_with t o r v (get_flush_writer params b) s).out) flushes
      ∙ ap (λ x. wire ((s.out ++ told_by pre_result.1) ++ (subscribe t x (opened params)).out)) run
      ∙ wire_without s.out (told_by pre_result.1) (subscribe t (ok pre) (opened params)).out
          (wire-told_by pre_result.1)

  -- If a hook before the operation resolves a subscription (mockResolve or customResolve), no byte of its
  -- response reaches the client: RunSubscription writes the response to a writer that keeps it until
  -- it is flushed, and nothing flushes it.
  pub subscription_serve_http-resolved :
      (pre : Response)
      → enforce o.enforcer r.user ≡ true
      → prepare t.libs o r.user (parse_query_variables t.libs allow_list r.query) ≡ ready v
      → r.can_flush ≡ true
      → pre_result.0 ≡ ok pre
      → pre.resolved ≡ true
      → wire (subscription_serve_http t o allow_list r s).1.out ≡ wire s.out
  unfolding subscribe write
  subscription_serve_http-resolved pre allowed is_ready flushes run resolved =
      let params = new_wg_request_params r.query in
      serve_http-wire pre allowed is_ready flushes run
      ∙ ap (λ w. wire s.out ++ w)
          (elim (Bool-cases pre.done) [
            | inl e ↦ ap (λ (x : FlushWriter). wire x.out) (if_true _ _ e)
            | inr e ↦ ap (λ (x : FlushWriter). wire x.out) (if_false _ _ e ∙ if_true _ _ resolved)
          ]
            ∙ wire_of_opened params)
      ∙ append-nil (wire s.out)

  -- If the request is allowed, its variables are prepared, it is not for one message only and the writer
  -- can flush, and the hooks before the operation return data that they have not resolved: the client,
  -- who has received nothing yet, reads exactly the documents of the messages that the resolver makes of
  -- the data, in their order and each as PostResolve leaves it; provided that these are JSON objects on
  -- one line, and that package jsonpatch keeps its promises where patches are asked for.
  pub subscription_serve_http-reads :
      (docs : Documents) (apply : docs.Doc → Bytes → Option docs.Doc) (pre : Response)
      → ((new_wg_request_params r.query).use_json_patch ≡ true
          → MakesPatches docs t.create_patch apply)
      → enforce o.enforcer r.user ≡ true
      → prepare t.libs o r.user (parse_query_variables t.libs allow_list r.query) ≡ ready v
      → r.can_flush ≡ true
      → (new_wg_request_params r.query).subscribe_once ≡ false
      → pre_result.0 ≡ ok pre
      → pre.done ≡ false
      → pre.resolved ≡ false
      → wire s.out ≡ []
      → All
          (Message docs)
          (map (hooked t.create_patch none (some t.post_resolve)) (t.messages pre.data'))
      → read_lines docs apply
          (new_wg_request_params r.query).use_sse
          none
          (split 10 (wire (subscription_serve_http t o allow_list r s).1.out))
        ≡ map docs.parse
            (map (hooked t.create_patch none (some t.post_resolve)) (t.messages pre.data'))
  unfolding subscribe
  subscription_serve_http-reads docs apply pre laws allowed is_ready flushes once run not_done
        not_resolved new k =
      let params = new_wg_request_params r.query in
      ap (λ w. read_lines docs apply params.use_sse none (split 10 w))
        (serve_http-wire pre allowed is_ready flushes run
          ∙ ap (λ w. w ++ wire (subscribe t (ok pre) (opened params)).out) new
          ∙ ap (λ (x : FlushWriter). wire x.out)
              (if_false _ _ not_done ∙ if_false _ _ not_resolved))
      ∙ read_lines-send_messages t.create_patch (some t.post_resolve) docs apply params
          (opened params) (t.messages pre.data') laws once (get_flush_writer-opened params) k
