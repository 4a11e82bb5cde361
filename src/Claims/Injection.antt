-- ===== src/Claims/Injection.antt =====
-- The injection of an operation's list of claims: which outcome it has, and when it panics.
use wundergraph.Prelude.{
  ◌≡◌, ◌≢◌, ◌↔◌, ◌⊎◌, inl, inr, refl, sym, ◌∙◌, Option, none, some, List, [], ◌∷◌, ◌++◌, arith,
  Bytes, Any, Option-cases,
}
use wundergraph.Auth.User.{Json, null, object, User}
use wundergraph.Claims.{
  custom, CustomClaim, ClaimConfig, ClaimError, Outcome, ok, err, panic, lookup_json_path, index,
  well_known, replacement, write, put_replacement, inject_custom_claim, inject_well_known_claim,
  inject_claim, inject_each, inject_claims,
}
use wundergraph.Claims.Custom.{inject_custom_claim_found}

lookup-ne-none : (ks : List Bytes) (k : Bytes) (v : Json) → lookup_json_path v (k ∷ ks) ≢ none
unfolding lookup_json_path
lookup-ne-none [] k v = cc
lookup-ne-none (j ∷ ks) k (object m) = lookup-ne-none ks j (index m k)
lookup-ne-none (j ∷ ks) k v = cc

lookup-eq-none_iff :
    (value : Json) (ks : List Bytes) → (lookup_json_path value ks ≡ none) ↔ (ks ≡ [])
lookup-eq-none_iff value [] = unfold lookup_json_path in ((λ _. refl), (λ _. refl))
lookup-eq-none_iff value (k ∷ ks) = ((λ e. absurd (lookup-ne-none ks k value e)), (λ e. cc))

replacement-ne-panic : (c : CustomClaim) (value : Json) → replacement c value ≢ panic
unfolding replacement
replacement-ne-panic c null = ground arith
replacement-ne-panic c _ = ground arith

abbrev pub left_over : Outcome Bytes → Bytes
left_over (ok v) = v
left_over (err e) = []
left_over panic = []

Outcome-cases :
    (r : Outcome Bytes)
    → ((v : Bytes) × (r ≡ ok v)) ⊎ ((e : ClaimError) × (r ≡ err e)) ⊎ (r ≡ panic)
Outcome-cases (ok v) = inl (v, refl)
Outcome-cases (err e) = inr (inl (e, refl))
Outcome-cases panic = inr (inr refl)

-- A claim that panics: a custom claim with no path to look up.
abbrev pub HasNoPath : ClaimConfig → Type 0
HasNoPath c = (c.claim_type ≡ custom) × (c.custom.json_path_components ≡ [])

module _ (set : Bytes → Bytes → Bytes → Option Bytes) where
  inject_each-last :
      (c : ClaimConfig) (u : User) (v : Bytes) (last : Outcome Bytes)
      → inject_each set (c ∷ []) u v last ≡ inject_claim set c u v
  unfolding inject_each
  inject_each-last c u v last = elim (Outcome-cases (inject_claim set c u v)) [
    | inl (out, e) ↦ rw (e, inject_each)
    | inr (inl (x, e)) ↦ rw (e, inject_each)
    | inr (inr e) ↦ rw (e, inject_each)
  ]

  inject_each-append :
      (cs : List ClaimConfig) (c : ClaimConfig) (u : User) (v : Bytes) (last : Outcome Bytes)
      → left_over last ≡ v
      → inject_each set cs u v last ≢ panic
      → inject_each set (cs ++ c ∷ []) u v last
        ≡ inject_claim set c u (left_over (inject_each set cs u v last))
  unfolding inject_each
  inject_each-append [] c u v last same h = rw same (inject_each-last c u v last)
  inject_each-append (d ∷ cs) c u v last same h = elim (Outcome-cases (inject_claim set d u v)) [
    | inl (out, e) ↦ ground (arith, inject_each-append cs c u out (ok out) refl)
    | inr (inl (x, e)) ↦ ground (arith, inject_each-append cs c u [] (err x) refl)
    | inr (inr e) ↦ ground arith
  ]

  -- For a user, and unless the claims before it panic, the outcome of a list of claims is that of
  -- its last claim, on what those before it left: their result, or nothing at all if the last of
  -- them failed. Their errors are forgotten.
  pub inject_claims-append :
      (cs : List ClaimConfig) (c : ClaimConfig) (u : User) (v : Bytes)
      → inject_claims set cs (some u) v ≢ panic
      → inject_claims set (cs ++ c ∷ []) (some u) v
        ≡ inject_claim set c u (left_over (inject_claims set cs (some u) v))
  unfolding inject_claims
  inject_claims-append [] c u v h = inject_each-append [] c u v (ok v) refl h
  inject_claims-append (d ∷ cs) c u v h = inject_each-append (d ∷ cs) c u v (ok v) refl h

  write-ne-panic : (c : ClaimConfig) (v : Bytes) (o : Option Bytes) → write set c v o ≢ panic
  unfolding write
  write-ne-panic c v none = cc
  write-ne-panic c v (some t) = ground arith

  inject_well_known_claim-ne-panic :
      (c : ClaimConfig) (u : User) (v : Bytes) → inject_well_known_claim set c u v ≢ panic
  unfolding inject_well_known_claim
  inject_well_known_claim-ne-panic c u v = elim (Option-cases (well_known c.claim_type u)) [
    | inl e ↦ rw (e, inject_well_known_claim) (cc)
    | inr (t, e) ↦ rw (e, inject_well_known_claim) (write-ne-panic c v (some t))
  ]

  put_replacement-ne-panic :
      (c : ClaimConfig) (v : Bytes) (r : Outcome (Option Bytes))
      → r ≢ panic
      → put_replacement set c v r ≢ panic
  unfolding put_replacement
  put_replacement-ne-panic c v (ok t) h = write-ne-panic c v t
  put_replacement-ne-panic c v (err e) h = cc
  put_replacement-ne-panic c v panic h = absurd (h refl)

  inject_custom_claim-eq-panic_iff :
      (c : ClaimConfig) (u : User) (v : Bytes)
      → (inject_custom_claim set c u v ≡ panic) ↔ (c.custom.json_path_components ≡ [])
  unfolding inject_custom_claim
  inject_custom_claim-eq-panic_iff c u v =
      let keys = c.custom.json_path_components in
      let claims = object u.custom_claims in
      elim (Option-cases (lookup_json_path claims keys)) [
        | inl e ↦ ((λ _. (lookup-eq-none_iff claims keys).0 e), (λ _. rw (e, inject_custom_claim)))
        | inr (value, e) ↦ (
          (λ h. absurd (
              put_replacement-ne-panic c v (replacement c.custom value)
                (replacement-ne-panic c.custom value)
                (sym (inject_custom_claim_found set c u v value e) ∙ h))),
          (λ h. let n = (lookup-eq-none_iff claims keys).1 h in cc),
        )
      ]

  inject_claim-eq-panic_iff :
      (c : ClaimConfig) (u : User) (v : Bytes) → (inject_claim set c u v ≡ panic) ↔ HasNoPath c
  unfolding inject_claim
  inject_claim-eq-panic_iff c u v =
      ground (arith, inject_custom_claim-eq-panic_iff c u v, inject_well_known_claim-ne-panic c u v)

  inject_each-eq-panic_iff :
      (cs : List ClaimConfig) (u : User) (v : Bytes) (last : Outcome Bytes)
      → last ≢ panic
      → (inject_each set cs u v last ≡ panic) ↔ Any HasNoPath cs
  unfolding inject_each
  inject_each-eq-panic_iff [] u v last h = ((λ e. h e), (λ e. absurd e))
  inject_each-eq-panic_iff (c ∷ cs) u v last h = elim (Outcome-cases (inject_claim set c u v)) [
    | inl (out, e) ↦
        ground (arith, inject_claim-eq-panic_iff c u v, inject_each-eq-panic_iff cs u out (ok out))
    | inr (inl (x, e)) ↦
        ground (arith, inject_claim-eq-panic_iff c u v, inject_each-eq-panic_iff cs u [] (err x))
    | inr (inr e) ↦ ground (arith, inject_claim-eq-panic_iff c u v)
  ]

  -- The injection panics exactly if some claim of the operation is a custom claim with an empty path,
  -- whatever the user's claims, the variables and the writes do.
  pub inject_claims-eq-panic_iff :
      (cs : List ClaimConfig) (u : User) (v : Bytes)
      → (inject_claims set cs (some u) v ≡ panic) ↔ Any HasNoPath cs
  unfolding inject_claims
  inject_claims-eq-panic_iff [] u v = ground arith
  inject_claims-eq-panic_iff (c ∷ cs) u v = inject_each-eq-panic_iff (c ∷ cs) u v (ok v) (λ e. cc)
