-- ===== src/Handlers/Stream.antt =====
-- The streams of pkg/apihandler/apihandler.go as a client reads them: messages, or patches of the
-- message before, each on a line that an empty line follows.
use wundergraph.Prelude.{
  ◌≡◌, ◌⊎◌, inl, inr, subst, refl, sym, ap, ◌∙◌, Bool, true, false, not, ◌&&◌, Option, none, some,
  List, [], ◌∷◌, ◌++◌, append_assoc, Bytes, str, ltb, eqb, if◌then◌else◌, is_empty, length, arith,
  Bool-cases, split, split-append, contains_byte, trim_prefix, trim_prefix-append, All, if_true,
  if_false, if_cases, is_some, map,
}
use wundergraph.Handlers.{Sent, set_header, status, body, flush, http_error, hooks_wrote}
use wundergraph.Handlers.FlushWriter.{smaller}

-- the bytes of the response's body
abbrev pub wire : List Sent → Bytes
wire [] = []
wire (body b ∷ out) = b ++ wire out
wire (_ ∷ out) = wire out

-- a JSON Patch is an array
abbrev pub is_patch : Bytes → Bool
is_patch [] = false
is_patch (c ∷ _) = eqb c b'['

-- What the messages of a stream are to its client. `parse` decodes a JSON object; it is none for any
-- other text.
pub record Documents : Type 1 where
  pub Doc : Type 0
  pub parse : Bytes → Option Doc

-- A message that a subscription may have: it is a JSON object, begins with no bracket, and is on one
-- line.
pub record IsMessage (readable : Bytes → Bool) (m : Bytes) : Type 0 where
  pub non_empty : is_empty m ≡ false
  pub no_array : is_patch m ≡ false
  pub one_line : contains_byte 10 m ≡ false
  pub is_object : readable m ≡ true

module _ (docs : Documents) where
  open docs use {Doc, parse}

  abbrev pub has_document : Bytes → Bool
  has_document m = is_some (parse m)

  abbrev pub Message : Bytes → Type 0
  Message = IsMessage has_document

  -- What package jsonpatch promises of JSON objects: there is a patch from any to any other, it is an
  -- array on one line, and applied to the old document it gives the new one.
  pub record MakesPatches (create : Bytes → Bytes → Option Bytes) (apply : Doc → Bytes → Option Doc)
      : Type 0 where
    pub makes :
        (last m : Bytes)
        → has_document last ≡ true
        → has_document m ≡ true
        → (p : Bytes) × (create last m ≡ some p)
    pub applies :
        (last m p : Bytes) (d : Doc)
        → create last m ≡ some p
        → parse last ≡ some d
        → has_document m ≡ true
        → apply d p ≡ parse m
    pub is_array : (last m p : Bytes) → create last m ≡ some p → is_patch p ≡ true
    pub one_line : (last m p : Bytes) → create last m ≡ some p → contains_byte 10 p ≡ false

abbrev pub data_prefix : Bool → Bytes
data_prefix sse = if sse then str "data: " else []

-- A client: it reads lines, strips the prefix of an event, applies what is a patch to the document that
-- it has, and takes anything else as the new document. It has none before the first, or after a text
-- that it cannot read.
module _ (docs : Documents) (apply : docs.Doc → Bytes → Option docs.Doc) (sse : Bool) where
  open docs use {Doc, parse}

  unfoldable pub after_patch : Option Doc → Bytes → Option Doc
  after_patch none p = none
  after_patch (some d) p = apply d p

  unfoldable pub receive : Option Doc → Bytes → Option Doc
  unfolding after_patch
  receive last p = if is_patch p then after_patch last p else parse p

  unfoldable pub read_lines : Option Doc → List Bytes → List (Option Doc)
  unfolding receive
  read_lines last [] = []
  read_lines last (l ∷ ls) =
      let m = receive last (trim_prefix l (data_prefix sse)) in
      let rest = read_lines m ls in
      let skipped = read_lines last ls in if is_empty l then skipped else m ∷ rest

none_has_none : {A : Type 0} (o : Option A) → none ≡ o → is_some o ≡ true → ⊥
none_has_none none q h = cc
none_has_none (some a) q h = cc

module _ (create : Bytes → Bytes → Option Bytes) (sse patches : Bool) where
  -- the payload for a message
  unfoldable pub pay : Bytes → Bytes → Bytes
  pay last m =
      if patches && not (is_empty last)
      then elim (create last m) [ none ↦ [] | some p ↦ smaller p m ]
      else m

  unfoldable pub stream : Bytes → List Bytes → Bytes
  stream last [] = []
  stream last (m ∷ ms) = (data_prefix sse ++ pay last m) ++ 10 ∷ 10 ∷ stream m ms

  is_empty_prefixed : (p : Bytes) → is_empty p ≡ false → is_empty (data_prefix sse ++ p) ≡ false
  is_empty_prefixed p e = ground (arith, Bool-cases sse)

  one_line_prefixed :
      (p : Bytes) → contains_byte 10 p ≡ false → contains_byte 10 (data_prefix sse ++ p) ≡ false
  unfolding contains_byte
  one_line_prefixed p e = elim (Bool-cases sse) [ inl s ↦ rw s (rw e refl) | inr s ↦ rw s e ]

  module _ (docs : Documents) (apply : docs.Doc → Bytes → Option docs.Doc)
      (laws : patches ≡ true → MakesPatches docs create apply) where
    open docs use {Doc, parse}

    -- a message is sent whole, or there is a patch for it
    abbrev pub Sendable : Bytes → Bytes → Type 0
    Sendable last m =
        ((patches && not (is_empty last)) ≡ false) ⊎ ((p : Bytes) × (create last m ≡ some p))

    pub Message-Sendable :
        (last m : Bytes)
        → (is_empty last ≡ true) ⊎ Message docs last
        → Message docs m
        → Sendable last m
    Message-Sendable last m l k = elim (Bool-cases (patches && not (is_empty last))) [
      | inr off ↦ inl off
      | inl on ↦ elim l [
        | inl e ↦ absurd (ground arith)
        | inr h ↦ inr ((laws (ground arith)).makes last m h.is_object k.is_object)
      ]
    ]

    -- a payload that the client reads as the document of the message
    Carries : Option Doc → Bytes → Bytes → Type 0
    Carries last m p =
        (receive docs apply sse last p ≡ parse m)
        × (is_empty p ≡ false)
        × (contains_byte 10 p ≡ false)

    -- what a client that has read the messages so far has of the last one
    abbrev pub Knows : Bytes → Option Doc → Type 0
    Knows last d = (is_empty last ≡ true) ⊎ (Message docs last × (d ≡ parse last))

    after_patch-parse :
        (known : MakesPatches docs create apply) (last m p : Bytes) (d : Option Doc)
        → create last m ≡ some p
        → d ≡ parse last
        → has_document docs last ≡ true
        → has_document docs m ≡ true
        → after_patch docs apply sse d p ≡ parse m
    unfolding after_patch
    after_patch-parse known last m p none e q h k = absurd (none_has_none (parse last) q h)
    after_patch-parse known last m p (some d) e q h k = known.applies last m p d e (sym q) k

    patch-Carries :
        (known : MakesPatches docs create apply) (last m p : Bytes) (d : Option Doc)
        → Message docs last
        → d ≡ parse last
        → Message docs m
        → create last m ≡ some p
        → Carries d m p
    unfolding Carries receive
    patch-Carries known last m [] d h q k e = absurd (ground (arith, known.is_array last m [] e))
    patch-Carries known last m (c ∷ p) d h q k e = (
      if_true _ _ (known.is_array last m (c ∷ p) e)
          ∙ after_patch-parse known last m (c ∷ p) d e q h.is_object k.is_object,
      refl,
      known.one_line last m (c ∷ p) e,
    )

    Message-Carries : (m : Bytes) (d : Option Doc) → Message docs m → Carries d m m
    unfolding Carries receive
    Message-Carries m d k = (if_false _ _ k.no_array, k.non_empty, k.one_line)

    pay-Carries :
        (last m : Bytes) (d : Option Doc) → Knows last d → Message docs m → Carries d m (pay last m)
    unfolding pay smaller
    pay-Carries last m d l k = elim (Bool-cases (patches && not (is_empty last))) [
      | inr off ↦ subst (Carries d m) (sym (if_false _ _ off)) (Message-Carries m d k)
      | inl on ↦ elim l [
        | inl e ↦ absurd (ground arith)
        | inr (h, q) ↦
            let known = laws (ground arith) in
            let (p, made) = known.makes last m h.is_object k.is_object in
            subst (Carries d m)
              (sym (
                if_true _ _ on
                ∙ ap (λ o. elim o as (λ x. Bytes) [ none ↦ [] | some x ↦ smaller x m ]) made))
              (if_cases (Carries d m) (ltb (length p) (length m)) p m
                (patch-Carries known last m p d h q k made) (Message-Carries m d k))
      ]
    ]

    pub read-stream :
        (last : Bytes) (d : Option Doc) (ms : List Bytes)
        → Knows last d
        → All (Message docs) ms
        → read_lines docs apply sse d (split 10 (stream last ms)) ≡ map parse ms
    unfolding stream read_lines Carries
    read-stream last d [] l k = unfold split in refl
    read-stream last d (m ∷ ms) l k =
        let (received, full, line) = pay-Carries last m d l k.0 in
        let line' = one_line_prefixed (pay last m) line in
        ap (read_lines docs apply sse d) (
          split-append 10 (data_prefix sse ++ pay last m) (10 ∷ stream m ms) line'
          ∙ ap (λ ls. (data_prefix sse ++ pay last m) ∷ ls)
              (split-append 10 [] (stream m ms) (unfold contains_byte in refl)))
        ∙ if_false _ _ (is_empty_prefixed (pay last m) full)
        ∙ ap
            (λ q.
              receive docs apply sse d q
              ∷ read_lines docs apply sse (receive docs apply sse d q)
                  ([] ∷ split 10 (stream m ms)))
            (trim_prefix-append (data_prefix sse) (pay last m))
        ∙ ap (λ q. q ∷ read_lines docs apply sse q (split 10 (stream m ms))) received
        ∙ ap (λ ls. parse m ∷ ls) (read-stream m (parse m) ms (inr (k.0, refl)) k.1)

-- the body of what is told in two parts
pub wire-append : (a b : List Sent) → wire (a ++ b) ≡ wire a ++ wire b
wire-append [] b = refl
wire-append (body x ∷ a) b =
    ap (λ w. x ++ w) (wire-append a b) ∙ sym (append_assoc x (wire a) (wire b))
wire-append (set_header n v ∷ a) b = wire-append a b
wire-append (status n ∷ a) b = wire-append a b
wire-append (flush ∷ a) b = wire-append a b
wire-append (http_error t n ∷ a) b = wire-append a b
wire-append (hooks_wrote w ∷ a) b = wire-append a b
