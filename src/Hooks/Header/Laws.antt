-- ===== src/Hooks/Header/Laws.antt =====
-- Canonical names, and reading a header that was set.
use wundergraph.Prelude.{
  ℕ, ◌≡◌, inl, inr, refl, Bool, true, some, List, [], ◌∷◌, arith, Bytes, ◌==◌, eq_iff, eqb,
  if◌then◌else◌, Bool-cases,
}
use wundergraph.Hooks.Header.{
  Header, is_token, all_tokens, canonical_byte, canonical_from, canonical, put, lookup, set, get,
}

canonical_byte-idempotent :
    (upper : Bool) (c : ℕ) → canonical_byte upper (canonical_byte upper c) ≡ canonical_byte upper c
unfolding canonical_byte
canonical_byte-idempotent upper c = ground arith

eqb_dash-canonical_byte : (upper : Bool) (c : ℕ) → eqb (canonical_byte upper c) b'-' ≡ eqb c b'-'
unfolding canonical_byte
eqb_dash-canonical_byte upper c = ground arith

canonical_from-idempotent :
    (upper : Bool) (s : Bytes)
    → canonical_from upper (canonical_from upper s) ≡ canonical_from upper s
unfolding canonical_from
canonical_from-idempotent upper [] = refl
canonical_from-idempotent upper (c ∷ s) = rw (
  canonical_byte-idempotent upper c,
  eqb_dash-canonical_byte upper c,
  canonical_from-idempotent (eqb c b'-') s,
)

is_token-canonical_byte :
    (upper : Bool) (c : ℕ) → is_token c ≡ true → is_token (canonical_byte upper c) ≡ true
unfolding canonical_byte is_token
is_token-canonical_byte upper c h = ground arith

all_tokens-canonical_from :
    (upper : Bool) (s : Bytes) → all_tokens s ≡ true → all_tokens (canonical_from upper s) ≡ true
unfolding all_tokens canonical_from
all_tokens-canonical_from upper [] h = refl
all_tokens-canonical_from upper (c ∷ s) h =
    ground (arith, is_token-canonical_byte upper c, all_tokens-canonical_from (eqb c b'-') s)

-- A canonical name is its own canonical name.
pub canonical-idempotent : (name : Bytes) → canonical (canonical name) ≡ canonical name
unfolding canonical
canonical-idempotent name = elim (Bool-cases (all_tokens name)) [
  | inl e ↦ ground (arith, all_tokens-canonical_from true name, canonical_from-idempotent true name)
  | inr e ↦ ground arith
]

lookup-put :
    (k j : Bytes) (vs : List Bytes) (h : Header)
    → lookup j (put k vs h) ≡ (if k == j then some vs else lookup j h)
unfolding lookup put
lookup-put k j vs [] = ground arith
lookup-put k j vs ((i, ws) ∷ h) =
    ground (arith, lookup-put k j vs h, eq_iff i k, eq_iff i j, eq_iff k j)

-- A header that was set is read back under every spelling of its name, and setting it changes no
-- header of another name.
pub get-set :
    (name other value : Bytes) (h : Header)
    → get other (set name value h)
      ≡ (if canonical name == canonical other then value else get other h)
unfolding get set
get-set name other value h = elim (Bool-cases (canonical name == canonical other)) [
  | inl e ↦ rw (lookup-put (canonical name) (canonical other) (value ∷ []) h, e)
  | inr e ↦ rw (lookup-put (canonical name) (canonical other) (value ∷ []) h, e)
]
