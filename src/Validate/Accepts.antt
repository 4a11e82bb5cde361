-- ===== src/Validate/Accepts.antt =====
-- Which values the tests accept.
use wundergraph.Prelude.{
  ℕ, suc, ◌<◌, ◌≤◌, ◌≡◌, ◌≢◌, ◌↔◌, ◌⊎◌, inl, inr, refl, subst, Bool, true, false, some, List, [],
  ◌∷◌, ◌++◌, arith, Bytes, str, eqb, length, Bool-cases, Option-cases, All,
}
use wundergraph.Prelude.Int.{pos, show_int}
use wundergraph.Load.{string}
use wundergraph.Validate.{
  Value, nil, nil_pointer, other, text, pointer, Validator, Verdict, ValidationFunc, valid,
  on_string, min_length, exact_length, max_length, required, validate, CookieBased, Api,
  cookie_auth, validate_text, unless_failed, api_config, csrf_secret_path, block_key_path,
  hash_key_path,
}

-- A value that is a string, or points to one.
abbrev pub IsString : Value → Bytes → Type 0
IsString value s = (value ≡ text s) ⊎ (value ≡ pointer s)

text_iff :
    (a b : ℕ) (path s : Bytes)
    → (validate (min_length a ∷ max_length b ∷ []) record { config_path = path; data' = text s }
        ≡ valid)
      ↔ ((a ≤ length s) × (length s ≤ b))
unfolding validate min_length max_length on_string
text_iff a b path s = ground arith

pointer_iff :
    (a b : ℕ) (path s : Bytes)
    → (validate (min_length a ∷ max_length b ∷ []) record { config_path = path; data' = pointer s }
        ≡ valid)
      ↔ ((a ≤ length s) × (length s ≤ b))
unfolding validate min_length max_length on_string
pointer_iff a b path s = ground arith

abbrev is_string : Value → Bool
is_string (text s) = true
is_string (pointer s) = true
is_string _ = false

refused :
    (a b : ℕ) (path : Bytes) (value : Value)
    → is_string value ≡ false
    → validate (min_length a ∷ max_length b ∷ []) record { config_path = path; data' = value }
      ≢ valid
unfolding validate min_length on_string
refused a b path (text s) h = absurd (cc)
refused a b path (pointer s) h = absurd (cc)
refused a b path nil h = ground arith
refused a b path nil_pointer h = ground arith
refused a b path other h = ground arith

string_is_string : (value : Value) (s : Bytes) → IsString value s → is_string value ≡ true
string_is_string value s (inl e) = rw e refl
string_is_string value s (inr e) = rw e refl

refused_iff :
    (a b : ℕ) (path : Bytes) (value : Value)
    → is_string value ≡ false
    → (validate (min_length a ∷ max_length b ∷ []) record { config_path = path; data' = value }
        ≡ valid)
      ↔ ((s : Bytes) × IsString value s × (a ≤ length s) × (length s ≤ b))
refused_iff a b path value h = (
  (λ e. absurd (refused a b path value h e)),
  (λ r. let (s, is, low, high) = r in let yes = string_is_string value s is in absurd (cc)),
)

bounds_iff :
    (a b : ℕ) (path : Bytes) (value : Value)
    → (validate (min_length a ∷ max_length b ∷ []) record { config_path = path; data' = value }
        ≡ valid)
      ↔ ((s : Bytes) × IsString value s × (a ≤ length s) × (length s ≤ b))
bounds_iff a b path (text s) =
    let is = text_iff a b path s in
    (
      (λ e. let (low, high) = is.0 e in (s, inl refl, low, high)),
      (λ h.
          let (t, same, low, high) = h in
          elim same [
            | inl e ↦
                let at : s ≡ t = cc in rw at (let here = text_iff a b path t in here.1 (low, high))
            | inr e ↦ absurd (cc)
          ]),
    )
bounds_iff a b path (pointer s) =
    let is = pointer_iff a b path s in
    (
      (λ e. let (low, high) = is.0 e in (s, inr refl, low, high)),
      (λ h.
          let (t, same, low, high) = h in
          elim same [
            | inl e ↦ absurd (cc)
            | inr e ↦
                let at : s ≡ t = cc in
                rw at (let here = pointer_iff a b path t in here.1 (low, high))
          ]),
    )
bounds_iff a b path nil = refused_iff a b path nil refl
bounds_iff a b path nil_pointer = refused_iff a b path nil_pointer refl
bounds_iff a b path other = refused_iff a b path other refl

-- Between two bounds exactly the strings of a length between them are valid, values and what
-- pointers point to alike, and nothing else is.
validate_bounds_iff :
    (a b : ℕ) (v : Validator)
    → (validate (min_length a ∷ max_length b ∷ []) v ≡ valid)
      ↔ ((s : Bytes) × IsString v.data' s × (a ≤ length s) × (length s ≤ b))
validate_bounds_iff a b v = bounds_iff a b v.config_path v.data'

-- The verdict is valid if the statement holds, and else one with messages.
abbrev Decides : Verdict → Type 0 → Type 0
Decides verdict P =
    ((verdict ≡ valid) × P) ⊎ ((m : List Bytes) × (verdict ≡ some (false, m)) × (P → ⊥))

Decides-unless_failed :
    (p q : Verdict) (P Q : Type 0) → Decides p P → Decides q Q → Decides (unless_failed p q) (P × Q)
unfolding unless_failed
Decides-unless_failed p q P Q (inl (good, holds)) (inl (fine, holds')) =
    inl (rw good fine, (holds, holds'))
Decides-unless_failed p q P Q (inl (good, holds)) (inr (m, bad, never)) =
    inr (m, rw good bad, (λ both. never (both.1)))
Decides-unless_failed p q P Q (inr (m, bad, never)) _ =
    inr (m, rw bad refl, (λ both. never (both.0)))

Decides_iff : (p : Verdict) (P : Type 0) → Decides p P → (p ≡ valid) ↔ P
Decides_iff p P (inl (good, holds)) = ((λ _. holds), (λ _. good))
Decides_iff p P (inr (m, bad, never)) = ((λ e. absurd (cc)), (λ holds. absurd (never holds)))

secret-Decides :
    (path value : Bytes) (n : ℕ)
    → 0 < n
    → Decides (validate_text path value (required ∷ exact_length n ∷ [])) (length value ≡ n)
unfolding validate_text validate required exact_length on_string
secret-Decides path [] n h = inr ((path ++ str " is required") ∷ [], refl, (λ e. omega arith))
secret-Decides path (c ∷ value) n h = elim (Bool-cases (eqb (suc (length value)) n)) [
  | inl e ↦ inl (rw e refl, ground arith)
  | inr e ↦ inr (
    (path ++ str " must be exactly " ++ show_int (pos n) ++ str " characters long") ∷ [],
    rw e refl,
    ground arith,
  )
]

-- Tests that accept a value decide nothing: behind them the verdict, with its messages, is that of
-- the tests that follow.
validate-append :
    (fs gs : List ValidationFunc) (v : Validator)
    → All (λ f. f v ≡ valid) fs
    → validate (fs ++ gs) v ≡ validate gs v
unfolding validate
validate-append [] gs v h = refl
validate-append (f ∷ fs) gs v (e, h) = rw (e, validate) (validate-append fs gs v h)

-- The secrets of the cookies have their lengths.
abbrev pub HasLengths : (Bytes → Bytes) → CookieBased → Type 0
HasLengths getenv c =
    (length (string getenv c.csrf_secret) ≡ 11)
    × ((length (string getenv c.block_key) ≡ 32) × (length (string getenv c.hash_key) ≡ 32))

api_config_of :
    (getenv : Bytes → Bytes) (api : Api) (c : CookieBased)
    → cookie_auth api ≡ some c
    → (api_config getenv api ≡ valid) ↔ HasLengths getenv c
unfolding api_config
api_config_of getenv api c e =
    rw (e, api_config)
      (Decides_iff _ _ (
        Decides-unless_failed _ _ _ _
          (secret-Decides csrf_secret_path (string getenv c.csrf_secret) 11 (omega arith))
          (Decides-unless_failed _ _ _ _
            (secret-Decides block_key_path (string getenv c.block_key) 32 (omega arith))
            (secret-Decides hash_key_path (string getenv c.hash_key) 32 (omega arith)))))

-- The configuration of an Api is valid exactly if it has no providers for cookies, or its three
-- secrets have 11, 32 and 32 bytes.
api_config_iff :
    (getenv : Bytes → Bytes) (api : Api)
    → (api_config getenv api ≡ valid)
      ↔ ((c : CookieBased) → cookie_auth api ≡ some c → HasLengths getenv c)
unfolding api_config
api_config_iff getenv api = elim (Option-cases (cookie_auth api)) [
  | inl e ↦ ((λ _ c found. absurd (cc)), (λ _. rw (e, api_config) refl))
  | inr (c, e) ↦
      let three = api_config_of getenv api c e in
      (
        (λ good other_c found.
            let same : c ≡ other_c = cc in subst (HasLengths getenv) same (three.0 good)),
        (λ h. three.1 (h c e)),
      )
]
