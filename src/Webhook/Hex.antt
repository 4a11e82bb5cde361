-- ===== src/Webhook/Hex.antt =====
-- The encoding of bytes in hexadecimal of Go's package encoding/hex, and its round trip.
use wundergraph.Prelude.{
  ◌≡◌, ap, ◌∙◌, ◌&&◌, Option, none, some, [], ◌∷◌, ◌++◌, arith, ℕ, ◌+◌, ◌-◌, ◌*◌, ◌/◌, ◌%◌, ◌<◌,
  Bytes, leb, ltb, if◌then◌else◌, All,
}

-- reverseHexTable; none is an entry above 0x0f
unfoldable pub nibble : ℕ → Option ℕ
nibble c =
    if leb b'0' c && leb c b'9'
    then some (c - 48)
    else if leb b'a' c && leb c b'f'
    then some (c - 87)
    else if leb b'A' c && leb c b'F'
    then some (c - 55)
    else none

-- hextable
unfoldable pub digit : ℕ → ℕ
digit n = if ltb n 10 then 48 + n else 87 + n

-- hex.DecodeString, whose error the caller drops: the bytes decoded before the first pair that is
-- not one of digits
unfoldable pub decode_string : Bytes → Bytes
decode_string (p ∷ q ∷ s) =
    let rest = decode_string s in
    elim (nibble p) [
      | none ↦ []
      | some a ↦ elim (nibble q) [ none ↦ [] | some b ↦ (a * 16 + b) ∷ rest ]
    ]
decode_string _ = []

-- hex.EncodeToString
unfoldable pub encode_to_string : Bytes → Bytes
unfolding digit
encode_to_string [] = []
encode_to_string (b ∷ s) = digit (b / 16) ∷ digit (b % 16) ∷ encode_to_string s

nibble-digit : (n : ℕ) → n < 16 → nibble (digit n) ≡ some n
unfolding nibble digit
nibble-digit n h = ground arith

-- The text does not begin with two digits, so that nothing of it can be decoded.
abbrev pub IsJunk : Bytes → Type 0
IsJunk s = decode_string s ≡ []

decode_string-cons :
    (p q a b : ℕ) (s : Bytes)
    → nibble p ≡ some a
    → nibble q ≡ some b
    → decode_string (p ∷ q ∷ s) ≡ (a * 16 + b) ∷ decode_string s
unfolding decode_string
decode_string-cons p q a b s high low = ground arith

-- What was encoded is decoded again, whatever follows it.
pub decode_string-append :
    (s junk : Bytes)
    → All (λ b. b < 256) s
    → IsJunk junk
    → decode_string (encode_to_string s ++ junk) ≡ s
unfolding encode_to_string
decode_string-append [] junk h bad = bad
decode_string-append (b ∷ s) junk (small, h) bad =
    decode_string-cons (digit (b / 16)) (digit (b % 16)) (b / 16) (b % 16)
      (encode_to_string s ++ junk) (nibble-digit (b / 16) (omega arith))
      (nibble-digit (b % 16) (omega arith))
    ∙ ap (λ c. c ∷ decode_string (encode_to_string s ++ junk)) (omega arith)
    ∙ ap (λ t. b ∷ t) (decode_string-append s junk h bad)
