-- ===== src/Handlers/FlushWriter/Frames.antt =====
-- httpFlushWriter of pkg/apihandler/apihandler.go, as its client sees it: the messages that a client
-- reads from the stream.
use wundergraph.Prelude.{
  some_injective, ◌≡◌, ◌⊎◌, inl, inr, subst, refl, sym, ap, ◌∙◌, Bool, true, false, not, ◌&&◌,
  Option, none, some, List, [], ◌∷◌, ◌++◌, map, append_assoc, append-nil, Bytes, str, if◌then◌else◌,
  is_empty, arith, Bool-cases, split, All, if_false,
}
use wundergraph.Handlers.{Sent, body, flush}
use wundergraph.Handlers.Variables.{WgRequestParams}
use wundergraph.Handlers.Stream.{
  wire, Documents, Message, Message-Sendable, MakesPatches, read_lines, pay, stream, read-stream,
}
use wundergraph.Handlers.Query.{subscription_headers}
use wundergraph.Handlers.FlushWriter.{
  FlushWriter, get_flush_writer, write, hooked, payload, prefix_of, finish, flush_message,
  flush_writer, send_messages,
}

module _ (create : Bytes → Bytes → Option Bytes) (sse patches : Bool) where
  told : Bytes → List Bytes → List Sent
  told last [] = []
  told last (m ∷ ms) =
      (if sse then body (str "data: ") ∷ [] else [])
      ++ body (pay create sse patches last m) ∷ body (str "\n\n") ∷ flush ∷ told m ms

  wire-told :
      (last : Bytes) (ms : List Bytes) → wire (told last ms) ≡ stream create sse patches last ms
  unfolding told stream
  wire-told last [] = refl
  wire-told last (m ∷ ms) = elim (Bool-cases sse) [
    | inl e ↦ rw (e, wire-told m ms) refl
    | inr e ↦ rw (e, wire-told m ms) refl
  ]

unfoldable pub opened : WgRequestParams → FlushWriter
opened params = record {
  subscribe_once = params.subscribe_once;
  sse = params.use_sse;
  use_json_patch = params.use_json_patch;
  buf = [];
  last_message = [];
  out = (if not params.subscribe_once then subscription_headers else []) ++ flush ∷ [];
  closed = false;
}

pub wire-opened :
    (params : WgRequestParams) (out : List Sent) → wire ((opened params).out ++ out) ≡ wire out
unfolding opened
wire-opened params out = elim (Bool-cases params.subscribe_once) [
  | inl e ↦ rw e refl
  | inr e ↦ rw e refl
]

module _ (create : Bytes → Bytes → Option Bytes)
    (post_resolve : Option (Bytes → Option Bytes)) where
  payload-pay :
      (f : FlushWriter) (m : Bytes)
      → ((f.use_json_patch && not (is_empty f.last_message)) ≡ false)
        ⊎ ((p : Bytes) × (create f.last_message m ≡ some p))
      → payload create none post_resolve f m
        ≡ some (pay create f.sse f.use_json_patch f.last_message m)
  unfolding payload pay
  payload-pay f m (inl e) = ground arith
  payload-pay f m (inr (p, e)) =
      ground (arith, Bool-cases (f.use_json_patch && not (is_empty f.last_message)))

  flush_message-finish :
      (f : FlushWriter) (m p : Bytes)
      → payload create none post_resolve f m ≡ some p
      → flush_message create none post_resolve m f
        ≡ finish create none post_resolve m (prefix_of f ++ body p ∷ []) f
  unfolding flush_message
  flush_message-finish f m p e = rw (e, flush_message) refl

  -- the writer after a message that is sent whole
  after : FlushWriter → Bytes → FlushWriter
  after f m = record f {
    buf = [];
    last_message = m;
    out =
        f.out
        ++ (prefix_of f ++ body (pay create f.sse f.use_json_patch f.last_message m) ∷ [])
        ++ body (str "\n\n") ∷ flush ∷ [];
  }

  flush_writer-after :
      (f : FlushWriter) (p : Bytes)
      → f.buf ≡ []
      → f.subscribe_once ≡ false
      → ((f.use_json_patch && not (is_empty f.last_message)) ≡ false)
        ⊎ ((q : Bytes) × (create f.last_message (hooked create none post_resolve p) ≡ some q))
      → flush_writer create none post_resolve (record f { buf = f.buf ++ p })
        ≡ after f (hooked create none post_resolve p)
  unfolding flush_writer finish after
  flush_writer-after f p b once h =
      let f' = record f { buf = [] } in
      let v = hooked create none post_resolve p in
      ap (λ x. flush_message create none post_resolve (hooked create none post_resolve (x ++ p)) f')
        b
      ∙ flush_message-finish f' v (pay create f.sse f.use_json_patch f.last_message v)
          (payload-pay f' v h)
      ∙ if_false _ _ once

  send_messages-cons :
      (m : Bytes) (ms : List Bytes) (f : FlushWriter)
      → (send_messages create none post_resolve (m ∷ ms) f).out
        ≡ (send_messages create none post_resolve ms
            (flush_writer create none post_resolve (record f { buf = f.buf ++ m }))).out
  unfolding send_messages write
  send_messages-cons m ms f = refl

  told-cons :
      (f : FlushWriter) (m : Bytes) (ms : List Bytes)
      → (after f m).out ++ told create f.sse f.use_json_patch m ms
        ≡ f.out ++ told create f.sse f.use_json_patch f.last_message (m ∷ ms)
  unfolding after told
  told-cons f m ms = grind (arith, append_assoc)

  send_messages-told :
      (docs : Documents) (apply : docs.Doc → Bytes → Option docs.Doc) (ms : List Bytes)
      (f : FlushWriter)
      → (f.use_json_patch ≡ true → MakesPatches docs create apply)
      → f.buf ≡ []
      → f.subscribe_once ≡ false
      → (is_empty f.last_message ≡ true) ⊎ Message docs f.last_message
      → All (Message docs) (map (hooked create none post_resolve) ms)
      → (send_messages create none post_resolve ms f).out
        ≡ f.out
          ++ told create f.sse f.use_json_patch f.last_message
              (map (hooked create none post_resolve) ms)
  unfolding after
  send_messages-told docs apply [] f laws b once l k =
      unfold send_messages told in sym (append-nil f.out)
  send_messages-told docs apply (m ∷ ms) f laws b once l k =
      let v = hooked create none post_resolve m in
      send_messages-cons m ms f
      ∙ ap (λ g. (send_messages create none post_resolve ms g).out)
          (flush_writer-after f m b once
            (Message-Sendable create f.sse f.use_json_patch docs apply laws f.last_message v l k.0))
      ∙ send_messages-told docs apply ms (after f v) laws refl once (inr k.0) k.1
      ∙ told-cons f v (map (hooked create none post_resolve) ms)

  -- If the hooks and the resolver make messages that are JSON objects on one line, and package jsonpatch
  -- keeps its promises where patches are asked for, a client that opened a subscription that is not for
  -- one message only, applies what is a patch, and takes anything else as it is, reads from the body of
  -- the response exactly the documents of the messages, in their order, as the hooks left them: with or
  -- without patches, and with or without server-sent events.
  pub read_lines-send_messages :
      (docs : Documents) (apply : docs.Doc → Bytes → Option docs.Doc) (params : WgRequestParams)
      (f : FlushWriter) (ms : List Bytes)
      → (params.use_json_patch ≡ true → MakesPatches docs create apply)
      → params.subscribe_once ≡ false
      → get_flush_writer params true ≡ some f
      → All (Message docs) (map (hooked create none post_resolve) ms)
      → read_lines docs apply params.use_sse none
          (split 10 (wire (send_messages create none post_resolve ms f).out))
        ≡ map docs.parse (map (hooked create none post_resolve) ms)
  unfolding get_flush_writer opened
  read_lines-send_messages docs apply params f ms laws once e k =
      let vs = map (hooked create none post_resolve) ms in
      let same : opened params ≡ f = some_injective e in
      subst
        (λ g.
          read_lines docs apply params.use_sse none
            (split 10 (wire (send_messages create none post_resolve ms g).out))
          ≡ map docs.parse vs)
        same
        (ap (λ out. read_lines docs apply params.use_sse none (split 10 (wire out)))
            (send_messages-told docs apply ms (opened params) laws refl once (inl refl) k)
          ∙ ap (λ w. read_lines docs apply params.use_sse none (split 10 w))
              (wire-opened params (told create params.use_sse params.use_json_patch [] vs)
                ∙ wire-told create params.use_sse params.use_json_patch [] vs)
          ∙ read-stream create params.use_sse params.use_json_patch docs apply laws [] none vs
              (inl refl) k)
