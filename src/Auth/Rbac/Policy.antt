-- ===== src/Auth/Rbac/Policy.antt =====
-- The enforcer of an operation decides the policy that its role lists state.
use wundergraph.Prelude.{
  not, is_empty, if◌then◌else◌, refl, ◌≡◌, ◌≢◌, ◌&&◌, ◌↔◌, ◌⊎◌, inl, inr, Bool, true, false, Option,
  none, some, List, [], ◌∷◌, arith, Bytes, eq_iff, Bool-cases, All, Any, Has,
}
use wundergraph.Auth.User.{User}
use wundergraph.Auth.Rbac.{
  RoleConfig, new_enforcer, contains_one, contains_every, contains_some, enforce,
}

abbrev pub Holds : List Bytes → Bytes → Type 0
Holds roles role = Has role roles

contains_one_iff : (roles : List Bytes) (r : Bytes) → (contains_one roles r ≡ true) ↔ Holds roles r
unfolding contains_one
contains_one_iff [] r = ground arith
contains_one_iff (s ∷ roles) r = ground (arith, contains_one_iff roles r, eq_iff s r)

contains_every_iff :
    (roles ms : List Bytes) → (contains_every roles ms ≡ true) ↔ All (Holds roles) ms
unfolding contains_every
contains_every_iff roles [] = ground arith
contains_every_iff roles (m ∷ ms) =
    ground (arith, contains_every_iff roles ms, contains_one_iff roles m)

contains_some_iff : (roles ms : List Bytes) → (contains_some roles ms ≡ true) ↔ Any (Holds roles) ms
unfolding contains_some
contains_some_iff roles [] = ground arith
contains_some_iff roles (m ∷ ms) =
    ground (arith, contains_some_iff roles ms, contains_one_iff roles m)

-- The four rules, as the flags of a constructed enforcer make them.
module _ (roles : List Bytes) where
  every_rule :
      (ms : List Bytes)
      → ((if not (not (is_empty ms)) then true else contains_every roles ms) ≡ true)
        ↔ All (Holds roles) ms
  unfolding contains_every
  every_rule [] = ground arith
  every_rule (m ∷ ms) = contains_every_iff roles (m ∷ ms)

  some_rule :
      (ms : List Bytes)
      → ((if not (not (is_empty ms)) then true else contains_some roles ms) ≡ true)
        ↔ (ms ≢ [] → Any (Holds roles) ms)
  some_rule [] = ((λ _ h. absurd (h refl)), (λ _. refl))
  some_rule (m ∷ ms) =
      let (to, from) = contains_some_iff roles (m ∷ ms) in
      ((λ e _. to e), (λ h. from (h (λ p. cc))))

  not_every_rule :
      (ms : List Bytes)
      → ((if not (not (is_empty ms)) then true else not (contains_every roles ms)) ≡ true)
        ↔ (ms ≢ [] → ¬ (All (Holds roles) ms))
  not_every_rule [] = ((λ _ h. absurd (h refl)), (λ _. refl))
  not_every_rule (m ∷ ms) = elim (Bool-cases (contains_every roles (m ∷ ms))) [
    | inl e ↦ ((λ h. cc), (λ h. absurd (h (λ p. cc) ((contains_every_iff roles (m ∷ ms)).0 e))))
    | inr e ↦ ((λ _ _ a. let f = (contains_every_iff roles (m ∷ ms)).1 a in cc), (λ h. rw e))
  ]

  not_some_rule :
      (ms : List Bytes)
      → ((if not (not (is_empty ms)) then true else not (contains_some roles ms)) ≡ true)
        ↔ (¬ (Any (Holds roles) ms))
  not_some_rule [] = ((λ _ h. h), (λ _. refl))
  not_some_rule (m ∷ ms) = elim (Bool-cases (contains_some roles (m ∷ ms))) [
    | inl e ↦ ((λ h. cc), (λ h. absurd (h ((contains_some_iff roles (m ∷ ms)).0 e))))
    | inr e ↦ ((λ _ a. let f = (contains_some_iff roles (m ∷ ms)).1 a in cc), (λ h. rw e))
  ]

-- The policy of a set of role lists, for a user that is logged in.
pub record Permits (c : RoleConfig) (roles : List Bytes) : Type 0 where
  pub all_required : All (Holds roles) c.require_match_all
  pub some_required : c.require_match_any ≢ [] → Any (Holds roles) c.require_match_any
  pub not_all_denied : c.deny_match_all ≢ [] → ¬ (All (Holds roles) c.deny_match_all)
  pub none_denied : ¬ (Any (Holds roles) c.deny_match_any)

abbrev pub HasNoRules : RoleConfig → Type 0
HasNoRules c =
    (c.require_match_all ≡ [])
    × (c.require_match_any ≡ [])
    × (c.deny_match_all ≡ [])
    × (c.deny_match_any ≡ [])

abbrev pub PermitsUser : RoleConfig → Option User → Type 0
PermitsUser c none = ⊥
PermitsUser c (some u) = Permits c u.roles

abbrev chain : Bool → Bool → Bool → Bool → Bool
chain a b c d =
    if not a
    then false
    else if not b
    then false
    else if not c
    then false
    else if not d
    then false
    else true

chain_iff :
    (a b c d : Bool) → (chain a b c d ≡ true) ↔ ((a ≡ true) × (b ≡ true) × (c ≡ true) × (d ≡ true))
chain_iff a b c d = ground arith

rules_of : RoleConfig → User → Bool
rules_of c u =
    chain
      (if not (not (is_empty c.require_match_all))
        then true
        else contains_every u.roles c.require_match_all)
      (if not (not (is_empty c.require_match_any))
        then true
        else contains_some u.roles c.require_match_any)
      (if not (not (is_empty c.deny_match_all))
        then true
        else not (contains_every u.roles c.deny_match_all))
      (if not (not (is_empty c.deny_match_any))
        then true
        else not (contains_some u.roles c.deny_match_any))

rules_iff : (c : RoleConfig) (u : User) → (rules_of c u ≡ true) ↔ Permits c u.roles
unfolding rules_of
rules_iff c u =
    let (every, every') = every_rule u.roles c.require_match_all in
    let (one, one') = some_rule u.roles c.require_match_any in
    let (deny, deny') = not_every_rule u.roles c.deny_match_all in
    let (bad, bad') = not_some_rule u.roles c.deny_match_any in
    (
      (λ h.
          let (p, q, r, s) = (chain_iff _ _ _ _).0 h in
          record {
            all_required = every p;
            some_required = one q;
            not_all_denied = deny r;
            none_denied = bad s;
          }),
      (λ h. (chain_iff _ _ _ _).1 (
        every' h.all_required,
        one' h.some_required,
        deny' h.not_all_denied,
        bad' h.none_denied,
      )),
    )

no_rules_iff :
    (a b c d : List Bytes)
    → ((is_empty a && is_empty b && is_empty c && is_empty d) ≡ true)
      ↔ ((a ≡ []) × (b ≡ []) × (c ≡ []) × (d ≡ []))
no_rules_iff a b c d = ground arith

rules_of_policy :
    (c : RoleConfig) (u : User)
    → (is_empty c.require_match_all
        && is_empty c.require_match_any
        && is_empty c.deny_match_all
        && is_empty c.deny_match_any)
      ≡ false
    → HasNoRules c ⊎ Permits c u.roles
    → rules_of c u ≡ true
rules_of_policy c u e (inl h) =
    let t =
      (no_rules_iff c.require_match_all c.require_match_any c.deny_match_all c.deny_match_any).1
        h in
    cc
rules_of_policy c u e (inr h) = (rules_iff c u).1 h

enforce-new_enforcer :
    (c : RoleConfig) (u : User)
    → enforce (new_enforcer c) (some u) ≡ (
        if is_empty c.require_match_all
          && is_empty c.require_match_any
          && is_empty c.deny_match_all
          && is_empty c.deny_match_any
        then true
        else rules_of c u)
unfolding enforce new_enforcer rules_of
enforce-new_enforcer c u =
    elim (Bool-cases (
      is_empty c.require_match_all
      && is_empty c.require_match_any
      && is_empty c.deny_match_all
      && is_empty c.deny_match_any)) [ inl e ↦ rw e | inr e ↦ rw e ]

-- An operation proceeds exactly if it has no role rules, or its policy permits the user: every role
-- of requireMatchAll is held, and one of requireMatchAny if there are any, not all of denyMatchAll
-- if there are any, and none of denyMatchAny. Without a user no operation with rules proceeds.
pub enforce_iff :
    (c : RoleConfig) (user : Option User)
    → (enforce (new_enforcer c) user ≡ true) ↔ (HasNoRules c ⊎ PermitsUser c user)
unfolding enforce new_enforcer
enforce_iff c none = ground arith
enforce_iff c (some u) =
    let to = (rules_iff c u).0 in
    let empty =
      (no_rules_iff c.require_match_all c.require_match_any c.deny_match_all c.deny_match_any).0 in
    rw (enforce-new_enforcer c u)
      (elim (Bool-cases (
        is_empty c.require_match_all
        && is_empty c.require_match_any
        && is_empty c.deny_match_all
        && is_empty c.deny_match_any)) [
          | inl e ↦ rw e ((λ _. inl (empty e)), (λ _. refl))
          | inr e ↦ rw e ((λ h. inr (to h)), rules_of_policy c u e)
        ])
