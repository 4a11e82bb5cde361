-- ===== src/Hooks/Pipeline/Effects.antt =====
-- What an action of a pipeline sends to the hooks server, and what it leaves alone: one rule for each
-- way to build an action.
use wundergraph.Prelude.{
  ◌≡◌, refl, sym, ◌∙◌, ap, Bool, true, false, Option, List, [], ◌++◌, append_assoc, append-nil, map,
  if◌then◌else◌,
}
use mathlib.Core.List.{map-append}
use wundergraph.Hooks.Client.Monad.{Result, ok, err, Exec, ◌>>=◌, continue, pure, modify}
use wundergraph.Hooks.Client.{Hook, Call, World}

abbrev pub hooks_of : List Call → List (Option Hook)
hooks_of = map (λ c. c.hook)

ok_value : {E A : Type 0} → A → Result E A → A
ok_value d (ok a) = a
ok_value d (err e) = d

pub ok_injective : {E A : Type 0} {a b : A} → ◌≡◌ {A = Result E A} (ok a) (ok b) → a ≡ b
unfolding ok_value
ok_injective {E = E} {A = A} {a = a} e = ap (ok_value {E = E} {A = A} a) e

-- The calls of an action from `s` to `s'` call a part of `plan` in its order, up to some point, and
-- all of it if the action returns a value. Its variables are those of `s`.
pub record Sends {E A : Type 0} (plan : List (Option Hook)) (s : World) (r : Result E A)
    (s' : World) : Type 0 where
  pub calls : List Call
  pub rest : List (Option Hook)
  pub sent : s'.sent ≡ s.sent ++ calls
  pub order : hooks_of calls ++ rest ≡ plan
  pub complete : (a : A) → r ≡ ok a → rest ≡ []
  pub variables : s'.variables ≡ s.variables

-- Such an action that resolves nothing.
pub record Follows {E A : Type 0} (plan : List (Option Hook)) (s : World) (r : Result E A)
    (s' : World) : Type 0 where
  pub sends : Sends plan s r s'
  pub resolved : s'.resolved ≡ s.resolved

module _ {E A : Type 0} {s : World} {r : Result E A} {s' : World} where
  -- an action that sends nothing
  pub Sends-nothing : s'.sent ≡ s.sent → s'.variables ≡ s.variables → Sends [] s r s'
  Sends-nothing e v = record {
    calls = [];
    rest = [];
    sent = e ∙ sym (append-nil _);
    order = refl;
    complete = λ _ _. refl;
    variables = v;
  }

  -- The state before it may be another with the same calls and variables.
  pub Sends-shift :
      {plan : List (Option Hook)} {s₀ : World}
      → s.sent ≡ s₀.sent
      → s.variables ≡ s₀.variables
      → Sends plan s r s'
      → Sends plan s₀ r s'
  Sends-shift e v m = record {
    calls = m.calls;
    rest = m.rest;
    sent = m.sent ∙ ap (λ l. l ++ m.calls) e;
    order = m.order;
    complete = m.complete;
    variables = m.variables ∙ v;
  }

module _ {E A : Type 0} {plan : List (Option Hook)} {s : World} {r : Result E A} {s' : World} where
  pub Sends-append_nil : Sends (plan ++ []) s r s' → Sends plan s r s'
  Sends-append_nil m = record {
    calls = m.calls;
    rest = m.rest;
    sent = m.sent;
    order = m.order ∙ append-nil plan;
    complete = m.complete;
    variables = m.variables;
  }

-- `m` follows `plan` from every state, and what it returns satisfies `Q`.
pub record Runs {E A : Type 0} (plan : List (Option Hook)) (Q : A → Type 0) (m : Exec World E A)
    : Type 0 where
  pub follows : (s : World) → Follows plan s (m s).0 (m s).1
  pub returns : (s : World) (a : A) → (m s).0 ≡ ok a → Q a

module _ {E A : Type 0} {Q : A → Type 0} where
  pub Runs-pure : (a : A) → Q a → Runs {E = E} [] Q (pure a)
  unfolding pure
  Runs-pure a q = record {
    follows = λ s. record { sends = Sends-nothing refl refl; resolved = refl };
    returns = λ s b e. rw (← ok_injective e) q;
  }

module _ {E A : Type 0} {Q : A → Type 0} (f : World → World) (a : A) where
  -- a change of the state that concerns neither the calls nor the variables
  pub Runs-modify :
      ((s : World)
        → ((f s).sent ≡ s.sent) × ((f s).variables ≡ s.variables) × ((f s).resolved ≡ s.resolved))
      → Q a
      → Runs {E = E} [] Q (modify f a)
  unfolding modify
  Runs-modify same q = record {
    follows = λ s. record { sends = Sends-nothing (same s).0 (same s).1; resolved = (same s).2 };
    returns = λ s b e. rw (← ok_injective e) q;
  }

order_ok :
    (cs ds : List Call) (rest rest' : List (Option Hook)) {plan next : List (Option Hook)}
    → hooks_of cs ++ rest ≡ plan
    → rest ≡ []
    → hooks_of ds ++ rest' ≡ next
    → hooks_of (cs ++ ds) ++ rest' ≡ plan ++ next
order_ok cs ds _ _ p e q = rw (← p, ← q) (simp (e, append-nil, map-append, append_assoc))

module _ {E A B : Type 0} (f : A → Exec World E B) where
  resolved-continue :
      (r : Result E A) (s s' : World)
      → s'.resolved ≡ s.resolved
      → ((a : A) → r ≡ ok a → (f a s').1.resolved ≡ s'.resolved)
      → (continue r f s').1.resolved ≡ s.resolved
  resolved-continue (ok a) s s' e k = k a refl ∙ e
  resolved-continue (err x) s s' e k = e

module _ {E A B : Type 0} {plan next : List (Option Hook)} (f : A → Exec World E B) where
  pub Sends-continue :
      (r : Result E A) (s s' : World)
      → Sends plan s r s'
      → ((a : A) → r ≡ ok a → Sends next s' (f a s').0 (f a s').1)
      → Sends (plan ++ next) s (continue r f s').0 (continue r f s').1
  Sends-continue (ok a) s s' m k =
      let n = k a refl in
      record {
        calls = m.calls ++ n.calls;
        rest = n.rest;
        sent = n.sent ∙ (rw m.sent (append_assoc s.sent m.calls n.calls));
        order = order_ok m.calls n.calls _ _ m.order (m.complete a refl) n.order;
        complete = λ b e. n.complete b e;
        variables = n.variables ∙ m.variables;
      }
  Sends-continue (err e) s s' m k = record {
    calls = m.calls;
    rest = m.rest ++ next;
    sent = m.sent;
    order = sym (append_assoc (hooks_of m.calls) m.rest next) ∙ ap (λ p. p ++ next) m.order;
    complete = λ b h. absurd (cc);
    variables = m.variables;
  }

module _ {E A B : Type 0} {next : List (Option Hook)} {Q : A → Type 0} {R : B → Type 0} where
  returns_continue :
      {f : A → Exec World E B} (r : Result E A) (s : World)
      → ((a : A) → r ≡ ok a → Q a)
      → ((a : A) → Q a → Runs next R (f a))
      → {b : B} → (continue r f s).0 ≡ ok b
      → R b
  returns_continue (ok a) s q k {b} e = (k a (q a refl)).returns s b e
  returns_continue (err x) s q k e = absurd (cc)

module _ {E A B : Type 0} {plan next : List (Option Hook)} {Q : A → Type 0} {R : B → Type 0} where
  pub Runs-bind :
      {m : Exec World E A} {f : A → Exec World E B}
      → Runs plan Q m
      → ((a : A) → Q a → Runs next R (f a))
      → Runs (plan ++ next) R (m >>= f)
  unfolding ◌>>=◌
  Runs-bind {m} {f} km kf = record {
    follows = λ s. record {
      sends =
          Sends-continue f (m s).0 s (m s).1 (km.follows s).sends
            (λ a e. ((kf a (km.returns s a e)).follows (m s).1).sends);
      resolved =
          resolved-continue f (m s).0 s (m s).1 (km.follows s).resolved
            (λ a e. ((kf a (km.returns s a e)).follows (m s).1).resolved);
    };
    returns = λ s b e. returns_continue (m s).0 (m s).1 (km.returns s) kf e;
  }

module _ {E A : Type 0} {Q : A → Type 0} {plan plan' : List (Option Hook)} where
  pub Runs-if :
      (b : Bool) (m n : Exec World E A)
      → (b ≡ true → Runs plan Q m)
      → (b ≡ false → Runs plan' Q n)
      → Runs (if b then plan else plan') Q (if b then m else n)
  Runs-if true m n km kn = km refl
  Runs-if false m n km kn = kn refl

module _ {E A : Type 0} {Q : A → Type 0} {plan : List (Option Hook)} where
  -- two branches that call the same hooks
  pub Runs-branch :
      (b : Bool) (m n : Exec World E A)
      → Runs plan Q m
      → Runs plan Q n
      → Runs plan Q (if b then m else n)
  Runs-branch true m n km kn = km
  Runs-branch false m n km kn = kn
