-- ===== src/Handlers/LiveQuery/Changes.antt =====
-- handleLiveQuery of pkg/apihandler/apihandler.go, as its client sees it: the responses that it reads
-- from the stream, and what a request for one response only gets.
use wundergraph.Prelude.{
  none, ◌≡◌, ◌⊎◌, inl, inr, refl, sym, ap, ◌∙◌, subst, Bool, true, false, not, ◌&&◌, Option, some,
  List, [], ◌∷◌, ◌++◌, map, append_assoc, append-nil, Bytes, str, ◌==◌, if◌then◌else◌, is_empty,
  arith, Bool-cases, split, All, if_true, if_false,
}
use wundergraph.Hooks.Client.{World}
use wundergraph.Handlers.{Sent, body, flush}
use wundergraph.Handlers.Variables.{WgRequestParams}
use wundergraph.Handlers.Stream.{
  wire, Documents, Message, Message-Sendable, MakesPatches, data_prefix, read_lines, pay, stream,
  read-stream, wire-append,
}
use wundergraph.Handlers.LiveQuery.{
  Event, response, Live, Next, waits, live_payload, live_prefix, go_on, send_payload, send_response,
  live_round, live_close, live_step, handle_live_query,
}

-- the messages without those that repeat the one before
unfoldable pub changes : Bytes → List Bytes → List Bytes
changes last [] = []
changes last (m ∷ ms) =
    let same = changes last ms in let rest = changes m ms in if m == last then same else m ∷ rest

-- The rounds of hooks and resolver have these responses, one after another.
abbrev pub Answers : (World → Event × World) → World → List Bytes → Type 0
Answers event w [] = Unit
Answers event w (m ∷ ms) = ((event w).0 ≡ response m) × Answers event (event w).1 ms

abbrev pub timers : List Bytes → List Bool
timers ms = map (λ _. true) ms

changes-Message :
    (docs : Documents) (last : Bytes) (ms : List Bytes)
    → All (Message docs) ms
    → All (Message docs) (changes last ms)
unfolding changes
changes-Message docs last [] k = tt
changes-Message docs last (m ∷ ms) k =
    let rest = changes-Message docs m ms k.1 in
    let same = changes-Message docs last ms k.1 in
    elim (Bool-cases (m == last)) [ inl e ↦ rw e same | inr e ↦ rw e (k.0, rest) ]

wire_of_parts :
    (xs pre : List Sent) (p t : Bytes)
    → wire ((xs ++ pre ++ body p ∷ []) ++ body (str "\n") ∷ body (str "\n") ∷ flush ∷ []) ++ t
      ≡ wire xs ++ ((wire pre ++ p) ++ 10 ∷ 10 ∷ t)
wire_of_parts xs pre p t = simp (wire-append, append_assoc, append-nil) refl

module _ (create : Bytes → Bytes → Option Bytes) (params : WgRequestParams)
    (event : World → Event × World) where
  abbrev never : Bytes → Bool
  never b = false

  live_payload-pay :
      (last m : Bytes)
      → ((params.use_json_patch && not (is_empty last)) ≡ false)
        ⊎ ((p : Bytes) × (create last m ≡ some p))
      → live_payload create never params last m
        ≡ some (pay create params.use_sse params.use_json_patch last m)
  unfolding live_payload pay
  live_payload-pay last m (inl e) = ground arith
  live_payload-pay last m (inr (p, e)) =
      ground (arith, Bool-cases (params.use_json_patch && not (is_empty last)))

  -- the state after a response that is sent
  after : Bytes → Live → Live
  after m s = record s {
    last_data = m;
    out =
        (s.out
          ++ live_prefix create never params
          ++ body (pay create params.use_sse params.use_json_patch s.last_data m) ∷ [])
        ++ body (str "\n") ∷ body (str "\n") ∷ flush ∷ [];
  }

  wire_prefix : wire (live_prefix create never params) ≡ data_prefix params.use_sse
  wire_prefix = ground (arith, Bool-cases params.use_sse)

  wire-after :
      (m : Bytes) (s : Live) (ms : List Bytes)
      → wire (after m s).out ++ stream create params.use_sse params.use_json_patch m ms
        ≡ wire s.out ++ stream create params.use_sse params.use_json_patch s.last_data (m ∷ ms)
  unfolding after stream
  wire-after m s ms =
      wire_of_parts s.out (live_prefix create never params)
        (pay create params.use_sse params.use_json_patch s.last_data m)
        (stream create params.use_sse params.use_json_patch m ms)
      ∙ ap
          (λ q.
            wire s.out
            ++ ((q ++ pay create params.use_sse params.use_json_patch s.last_data m)
                ++ 10 ∷ 10 ∷ stream create params.use_sse params.use_json_patch m ms))
          wire_prefix

  send_response-after :
      (m : Bytes) (s : Live)
      → params.subscribe_once ≡ false
      → (m == s.last_data) ≡ false
      → ((params.use_json_patch && not (is_empty s.last_data)) ≡ false)
        ⊎ ((p : Bytes) × (create s.last_data m ≡ some p))
      → send_response create never params false m s ≡ (waits, after m s)
  unfolding send_response after send_payload
  send_response-after m s once new h =
      if_true _ _ (ap not new)
      ∙ if_false _ _ once
      ∙ ap (λ o. send_payload create never params false m o s) (live_payload-pay s.last_data m h)

  -- the state after the round whose response is m
  advance : Bytes → Live → Live
  advance m s =
      let s' = record s { world = (event s.world).1 } in if m == s.last_data then s' else after m s'

  live_step-advance :
      (m : Bytes) (s : Live)
      → params.subscribe_once ≡ false
      → (event s.world).0 ≡ response m
      → ((params.use_json_patch && not (is_empty s.last_data)) ≡ false)
        ⊎ ((p : Bytes) × (create s.last_data m ≡ some p))
      → live_step create never params event s ≡ (waits, advance m s)
  unfolding live_step live_round advance
  live_step-advance m s once e h =
      let s' = record s { world = (event s.world).1 } in
      ap (λ x. live_round create never params x s') e ∙ elim (Bool-cases (m == s.last_data)) [
        | inl same ↦
            (unfold send_response in if_false _ _ (ap not same))
            ∙ ap (λ (x : Live). (waits, x)) (sym (if_true _ _ same))
        | inr new ↦
            send_response-after m s' once new h
            ∙ ap (λ (x : Live). (waits, x)) (sym (if_false _ _ new))
      ]

  handle_live_query-waits :
      (timers' : List Bool) (s s' : Live)
      → live_step create never params event s ≡ (waits, s')
      → handle_live_query create never params event (true ∷ timers') s
        ≡ handle_live_query create never params event timers' s'
  unfolding handle_live_query
  handle_live_query-waits timers' s s' e =
      ap
        (λ (x : Next × Live).
          go_on x.0 true (handle_live_query create never params event timers' x.1)
            (live_close create never params x.1))
        e

  advance-stream :
      (m : Bytes) (s : Live) (ms : List Bytes)
      → wire (advance m s).out
          ++ stream create params.use_sse params.use_json_patch
              (advance m s).last_data
              (changes (advance m s).last_data ms)
        ≡ wire s.out
          ++ stream create params.use_sse params.use_json_patch s.last_data
              (changes s.last_data (m ∷ ms))
  unfolding advance changes
  advance-stream m s ms = elim (Bool-cases (m == s.last_data)) [
    | inl same ↦ rw same refl
    | inr new ↦
        rw new
          (unfold after in wire-after m (record s { world = (event s.world).1 }) (changes m ms))
  ]

  -- the message that is the last one afterwards
  advance-Message :
      (docs : Documents) (m : Bytes) (s : Live)
      → (is_empty s.last_data ≡ true) ⊎ Message docs s.last_data
      → Message docs m
      → (is_empty (advance m s).last_data ≡ true) ⊎ Message docs (advance m s).last_data
  unfolding advance after
  advance-Message docs m s l k = elim (Bool-cases (m == s.last_data)) [
    | inl same ↦ rw same l
    | inr new ↦ rw new (inr k)
  ]

  advance-world : (m : Bytes) (s : Live) → (advance m s).world ≡ (event s.world).1
  unfolding advance after
  advance-world m s = ground (arith, Bool-cases (m == s.last_data))

  handle_live_query-stream :
      (docs : Documents) (apply : docs.Doc → Bytes → Option docs.Doc) (ms : List Bytes) (s : Live)
      → params.subscribe_once ≡ false
      → (params.use_json_patch ≡ true → MakesPatches docs create apply)
      → (is_empty s.last_data ≡ true) ⊎ Message docs s.last_data
      → Answers event s.world ms
      → All (Message docs) ms
      → wire (handle_live_query create never params event (timers ms) s).out
        ≡ wire s.out
          ++ stream create params.use_sse params.use_json_patch s.last_data (changes s.last_data ms)
  unfolding handle_live_query changes stream
  handle_live_query-stream docs apply [] s once laws l answers k = sym (append-nil _)
  handle_live_query-stream docs apply (m ∷ ms) s once laws l answers k =
      ap (λ (x : Live). wire x.out)
        (handle_live_query-waits (timers ms) s (advance m s) (
          live_step-advance m s once answers.0 (
            Message-Sendable create params.use_sse params.use_json_patch docs apply laws s.last_data
              m l k.0)))
      ∙ handle_live_query-stream docs apply ms (advance m s) once laws
          (advance-Message docs m s l k.0)
          (subst (λ w. Answers event w ms) (sym (advance-world m s)) answers.1) k.1
      ∙ advance-stream m s ms

-- As long as no write fails, a client of a live query that is not for one response only, which applies
-- what is a patch and takes anything else as it is, reads exactly the documents of the responses that
-- differ as texts from the one before, in their order: if they are JSON objects on one line, and package
-- jsonpatch keeps its promises where patches are asked for.
pub read_lines-handle_live_query :
    (docs : Documents) (create : Bytes → Bytes → Option Bytes)
    (apply : docs.Doc → Bytes → Option docs.Doc) (params : WgRequestParams)
    (event : World → Event × World) (w : World) (ms : List Bytes)
    → (params.use_json_patch ≡ true → MakesPatches docs create apply)
    → params.subscribe_once ≡ false
    → Answers event w ms
    → All (Message docs) ms
    → read_lines docs apply params.use_sse none (
        split 10 (
          wire
            (handle_live_query create
              (λ b. false)
              params
              event
              (timers ms)
              (record { world = w; last_data = []; out = [] })).out))
      ≡ map docs.parse (changes [] ms)
read_lines-handle_live_query docs create apply params event w ms laws once answers k =
    ap (λ b. read_lines docs apply params.use_sse none (split 10 b))
      (handle_live_query-stream create params event docs apply ms
        (record { world = w; last_data = []; out = [] }) once laws (inl refl) answers k)
    ∙ read-stream create params.use_sse params.use_json_patch docs apply laws [] none
        (changes [] ms) (inl refl) (changes-Message docs [] ms k)
