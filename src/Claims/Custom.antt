-- ===== src/Claims/Custom.antt =====
-- What a custom claim puts into the variables.
use wundergraph.Prelude.{
  ◌≡◌, ◌↔◌, ◌⊎◌, inl, inr, refl, Bool, true, false, Option, none, some, arith, Bytes,
}
use wundergraph.Prelude.Int.{show_int}
use wundergraph.Auth.User.{Json, null, text, bool, number, array, object, Float, User}
use wundergraph.Claims.{
  ValueType, string_value, int_value, float_value, boolean_value, CustomClaim, ClaimConfig, Outcome,
  ok, err, panic, lookup_json_path, quoted, bool_text, replacement, write, put_replacement,
  inject_custom_claim,
}

-- A claim's value has the declared type, and is written as the text.
pub data Writes : ValueType → Json → Bytes → Type 0 where
  a_string : (s : Bytes) → Writes string_value (text s) (quoted s)
  a_bool : (b : Bool) → Writes boolean_value (bool b) (bool_text b)
  an_int : (x : Float) → x.integral ≡ true → Writes int_value (number x) (show_int x.as_int)
  a_float : (x : Float) → Writes float_value (number x) x.shown

Writes→replacement :
    (c : CustomClaim) {type : ValueType} {value : Json} {t : Bytes}
    → c.type ≡ type
    → Writes type value t
    → replacement c value ≡ ok (some t)
unfolding replacement
Writes→replacement c e (a_string s) = ground arith
Writes→replacement c e (a_bool b) = ground arith
Writes→replacement c e (an_int x h) = ground arith
Writes→replacement c e (a_float x) = ground arith

replacement→Writes :
    (c : CustomClaim) (type : ValueType) (value : Json) (t : Bytes)
    → c.type ≡ type
    → replacement c value ≡ ok (some t)
    → Writes type value t
unfolding replacement
replacement→Writes c type null t e h = absurd (ground arith)
replacement→Writes c string_value (text s) t e h =
    let same : quoted s ≡ t = ground arith in rw (← same) (a_string s)
replacement→Writes c type (text s) t e h = absurd (ground arith)
replacement→Writes c boolean_value (bool b) t e h =
    let same : bool_text b ≡ t = ground arith in rw (← same) (a_bool b)
replacement→Writes c type (bool b) t e h = absurd (ground arith)
replacement→Writes c int_value (number x) t e h =
    let same : show_int x.as_int ≡ t = ground arith in rw (← same) (an_int x (ground arith))
replacement→Writes c float_value (number x) t e h =
    let same : x.shown ≡ t = ground arith in rw (← same) (a_float x)
replacement→Writes c type (number x) t e h = absurd (ground arith)
replacement→Writes c type (array xs) t e h = absurd (ground arith)
replacement→Writes c type (object m) t e h = absurd (ground arith)

replacement-eq-none :
    (c : CustomClaim) (value : Json)
    → replacement c value ≡ ok none
    → (value ≡ null) × (c.required ≡ false)
unfolding replacement
replacement-eq-none c null h = (refl, ground arith)
replacement-eq-none c _ h = absurd (ground arith)

module _ (set : Bytes → Bytes → Bytes → Option Bytes) where
  pub inject_custom_claim_found :
      (c : ClaimConfig) (u : User) (v : Bytes) (value : Json)
      → lookup_json_path (object u.custom_claims) c.custom.json_path_components ≡ some value
      → inject_custom_claim set c u v ≡ put_replacement set c v (replacement c.custom value)
  unfolding inject_custom_claim
  inject_custom_claim_found c u v value e = rw (e, inject_custom_claim)

  put_replacement_sound :
      (c : ClaimConfig) (v out : Bytes) (value : Json) (r : Outcome (Option Bytes))
      → replacement c.custom value ≡ r
      → put_replacement set c v r ≡ ok out
      → ((value ≡ null) × (c.custom.required ≡ false) × (out ≡ v))
        ⊎ ((t : Bytes) × Writes c.custom.type value t × (set v t c.variable_name ≡ some out))
  unfolding put_replacement write
  put_replacement_sound c v out value (ok none) e h =
      let (missing, free) = replacement-eq-none c.custom value e in inl (missing, free, cc)
  put_replacement_sound c v out value (ok (some t)) e h =
      inr (t, replacement→Writes c.custom c.custom.type value t refl e, ground arith)
  put_replacement_sound c v out value (err x) e h = absurd (ground arith)
  put_replacement_sound c v out value panic e h = absurd (ground arith)

  put_replacement_complete :
      (c : ClaimConfig) (v out : Bytes) (value : Json)
      → ((value ≡ null) × (c.custom.required ≡ false) × (out ≡ v))
        ⊎ ((t : Bytes) × Writes c.custom.type value t × (set v t c.variable_name ≡ some out))
      → put_replacement set c v (replacement c.custom value) ≡ ok out
  unfolding put_replacement write replacement
  put_replacement_complete c v out value (inl (missing, free, same)) = rw missing (ground arith)
  put_replacement_complete c v out value (inr (t, w, e)) =
      rw (Writes→replacement c.custom refl w) (ground arith)

  -- A custom claim is injected exactly if it is missing and not required, and then nothing changes,
  -- or if its value has the declared type, and then the variable is set to the value's text.
  inject_custom_claim_iff :
      (c : ClaimConfig) (u : User) (v out : Bytes) (value : Json)
      → lookup_json_path (object u.custom_claims) c.custom.json_path_components ≡ some value
      → (inject_custom_claim set c u v ≡ ok out) ↔ (
          ((value ≡ null) × (c.custom.required ≡ false) × (out ≡ v))
          ⊎ ((t : Bytes) × Writes c.custom.type value t × (set v t c.variable_name ≡ some out)))
  inject_custom_claim_iff c u v out value e =
      rw (inject_custom_claim_found c u v value e)
        (put_replacement_sound c v out value _ refl, put_replacement_complete c v out value)
