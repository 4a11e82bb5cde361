-- ===== src/Hooks/Client/Stream/Relay.antt =====
-- DoFunctionSubscriptionRequest of pkg/hooks/hooks.go without patches: what goes over the wire.
use wundergraph.Prelude.{
  ◌≡◌, inl, inr, refl, sym, ap, ◌∙◌, Bool, true, false, not, Option, none, List, [], ◌∷◌, ◌++◌, map,
  Bytes, str, if◌then◌else◌, contains_byte, All, arith, Bool-cases, append_assoc, append-nil,
  if_false,
}
use wundergraph.Hooks.Client.{Written, bytes, flush, internal_server_error}
use wundergraph.Hooks.Client.Stream.{
  StreamParams, Relayed, read_messages, write_all, parts_of, goes_on, relay_line, relay_event,
  relay, relay_body, done, ended, sse_prefix,
}

-- the messages of a server as it sends them, each followed by an empty line
unfoldable pub sent_by : Bytes → List Bytes → Bytes
sent_by prefix [] = []
sent_by prefix (m ∷ ms) = (prefix ++ m) ++ 10 ∷ 10 ∷ sent_by prefix ms

abbrev pub on_wire : List Written → Bytes
on_wire [] = []
on_wire (bytes b ∷ w) = b ++ on_wire w
on_wire (_ ∷ w) = on_wire w

abbrev pub IsLine : Bytes → Type 0
IsLine m = contains_byte 10 m ≡ false

read_messages-line :
    (acc m rest : Bytes)
    → IsLine m
    → read_messages acc (m ++ 10 ∷ 10 ∷ rest) ≡ (acc ++ m ++ 10 ∷ []) ∷ read_messages [] rest
unfolding read_messages contains_byte
read_messages-line acc [] rest k = rw append-nil refl
read_messages-line acc (c ∷ []) rest k = ground arith
read_messages-line acc (c ∷ d ∷ m) rest k =
    ground
      (arith, read_messages-line (acc ++ c ∷ []) (d ∷ m) rest, append_assoc acc (c ∷ []) (d ∷ m))

abbrev pub with_newline : Bytes → Bytes
with_newline m = m ++ 10 ∷ []

read_messages-sent_by :
    (ms : List Bytes) → All IsLine ms → read_messages [] (sent_by [] ms) ≡ map with_newline ms
unfolding sent_by
read_messages-sent_by [] k = unfold read_messages in refl
read_messages-sent_by (m ∷ ms) k =
    read_messages-line [] m (sent_by [] ms) k.0
    ∙ ap (λ ls. with_newline m ∷ ls) (read_messages-sent_by ms k.1)

on_wire-append : (a b : List Written) → on_wire (a ++ b) ≡ on_wire a ++ on_wire b
on_wire-append [] b = refl
on_wire-append (bytes x ∷ a) b =
    ap (λ w. x ++ w) (on_wire-append a b) ∙ sym (append_assoc x (on_wire a) (on_wire b))
on_wire-append (flush ∷ a) b = on_wire-append a b
on_wire-append (internal_server_error ∷ a) b = on_wire-append a b

abbrev pub event_prefix : Bool → Bytes
event_prefix sse = if sse then str "data: " else []

module _ (create : Bytes → Bytes → Option Bytes) (over : Bool) (params : StreamParams)
    (plain : params.use_json_patch ≡ false) where
  abbrev never : Bytes → Bool
  never b = false

  -- what a line adds
  line_written : Bytes → List Written
  line_written line =
      map bytes (sse_prefix create never over params) ++ bytes line ∷ bytes (str "\n") ∷ flush ∷ []

  relay_event-plain :
      (last line : Bytes) (w : List Written)
      → relay_event create never over params last line w ≡ goes_on (w ++ line_written line)
  unfolding relay_event relay_line parts_of write_all line_written
  relay_event-plain last line w = rw plain (elim (Bool-cases params.use_sse) [
    | inl e ↦ rw e (grind (arith, append_assoc))
    | inr e ↦ rw e (grind (arith, append_assoc))
  ])

  wire_of_line :
      (m : Bytes)
      → on_wire (line_written (with_newline m)) ≡ (event_prefix params.use_sse ++ m) ++ 10 ∷ 10 ∷ []
  unfolding line_written
  wire_of_line m = elim (Bool-cases params.use_sse) [
    | inl e ↦ rw e (grind (arith, append_assoc))
    | inr e ↦ rw e (grind (arith, append_assoc))
  ]

  relay-cons :
      (last line : Bytes) (lines : List Bytes) (w : List Written)
      → relay create never over params last (line ∷ lines) w
        ≡ relay create never over params line lines (w ++ line_written line)
  unfolding relay
  relay-cons last line lines w = rw (relay_event-plain last line w, relay) refl

  relay-plain :
      (last : Bytes) (ms : List Bytes) (w : List Written)
      → ((relay create never over params last (map with_newline ms) w).error ≡ none)
        × (on_wire (relay create never over params last (map with_newline ms) w).written
            ≡ on_wire w ++ sent_by (event_prefix params.use_sse) ms)
  unfolding relay sent_by
  relay-plain last [] w = (refl, sym (append-nil _))
  relay-plain last (m ∷ ms) w =
      let (error, wire) = relay-plain (with_newline m) ms (w ++ line_written (with_newline m)) in
      let e = relay-cons last (with_newline m) (map with_newline ms) w in
      (
        ap (λ (x : Relayed). x.error) e ∙ error,
        ap (λ (x : Relayed). on_wire x.written) e
            ∙ wire
            ∙ ap (λ b. b ++ sent_by (event_prefix params.use_sse) ms)
                (on_wire-append w (line_written (with_newline m))
                  ∙ ap (λ b. on_wire w ++ b) (wire_of_line m))
            ∙ simp append_assoc refl,
      )

-- what the end adds, where no error came before it
done-wire :
    (create : Bytes → Bytes → Option Bytes) (fails : Bytes → Bool) (over : Bool)
    (params : StreamParams) (r : Relayed)
    → r.error ≡ none
    → ((done create fails over params (ended create fails over params none r)).error ≡ none)
      × (on_wire (done create fails over params (ended create fails over params none r)).written
          ≡ on_wire r.written ++ (if params.use_sse then str "data: done\n\n" else []))
unfolding done ended
done-wire create fails over params r e = elim (Bool-cases params.use_sse) [
  | inl s ↦ rw (s, e) (ground (arith, Bool-cases over), on_wire-append r.written _)
  | inr s ↦ rw (s, e) (ground (arith, Bool-cases over), sym (append-nil _))
]

-- Without patches, and as long as no write fails, the client of a function's subscription gets byte for
-- byte what the hooks server sent, if that is messages without a newline in them, each followed by an
-- empty line; with server-sent events each message gets the prefix "data: ", and at the end of the
-- stream comes "data: done" and an empty line. No error is returned unless the server's body breaks
-- off.
pub relay_body-plain :
    (create : Bytes → Bytes → Option Bytes) (over : Bool) (params : StreamParams)
    → params.use_json_patch ≡ false
    → params.flushable ≡ true
    → (ms : List Bytes) → All IsLine ms
    → ((relay_body create (λ b. false) over params (sent_by [] ms) none).error ≡ none)
      × (on_wire (relay_body create (λ b. false) over params (sent_by [] ms) none).written
          ≡ sent_by (event_prefix params.use_sse) ms
            ++ (if params.use_sse then str "data: done\n\n" else []))
unfolding relay_body
relay_body-plain create over params plain flushable ms k =
    let fails : Bytes → Bool = λ b. false in
    let (error, wire) = relay-plain create over params plain [] ms [] in
    let (kept, text) =
      done-wire create fails over params
        (relay create fails over params [] (map with_newline ms) []) error in
    let e =
      if_false _ _ (ap not flushable)
      ∙ ap
          (λ ls.
            done create fails over params
              (ended create fails over params none (relay create fails over params [] ls [])))
          (read_messages-sent_by ms k) in
    (
      ap (λ (x : Relayed). x.error) e ∙ kept,
      ap (λ (x : Relayed). on_wire x.written) e
          ∙ text
          ∙ ap (λ b. b ++ (if params.use_sse then str "data: done\n\n" else [])) wire,
    )
