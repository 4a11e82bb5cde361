-- ===== src/Load/Agree.antt =====
-- The loaders read one text, and Strings loses nothing of it.
use wundergraph.Prelude.{
  ◌≡◌, ◌≢◌, refl, ◌∙◌, inl, inr, not, Option, none, some, List, [], ◌∷◌, ◌++◌, arith, Bytes, str,
  ◌==◌, is_empty, if◌then◌else◌, split, join, split-ne-nil, Bool-cases, onto_first,
}
use Prim.Native.Nat.{ℕ}
use wundergraph.Prelude.Int.{parse_int}
use wundergraph.Load.{
  Kind, static, env, placeholder, other_kind, ConfigurationVariable, string_of, bool_of, int64_of,
  string, strings, bool, int64,
}

module _ (getenv : Bytes → Bytes) where
  bool_of-string_of :
      (k : Kind) (v : ConfigurationVariable)
      → bool_of getenv k v ≡ (string_of getenv k v == str "true")
  unfolding bool_of string_of
  bool_of-string_of env v = ground arith
  bool_of-string_of static v = refl
  bool_of-string_of placeholder v = unfold ◌==◌ in refl
  bool_of-string_of other_kind v = unfold ◌==◌ in refl

  int64_of-string_of :
      (k : Kind) (v : ConfigurationVariable)
      → int64_of getenv k v ≡ parse_int (string_of getenv k v)
  unfolding int64_of string_of
  int64_of-string_of env v = ground arith
  int64_of-string_of static v = refl
  int64_of-string_of placeholder v = unfold parse_int in refl
  int64_of-string_of other_kind v = unfold parse_int in refl

  -- A variable's truth value and its number are read from the very text that String gives for it, for
  -- every kind of variable and for none at all.
  load_agree :
      (v : Option ConfigurationVariable)
      → (bool getenv v ≡ (string getenv v == str "true"))
        × (int64 getenv v ≡ parse_int (string getenv v))
  unfolding bool int64 string
  load_agree none = unfold ◌==◌ parse_int in (refl, refl)
  load_agree (some v) = (bool_of-string_of v.kind v, int64_of-string_of v.kind v)

join-cons_cons :
    (c a : ℕ) (s : Bytes) (ps : List Bytes) → join c ((a ∷ s) ∷ ps) ≡ a ∷ join c (s ∷ ps)
unfolding join
join-cons_cons c a s [] = refl
join-cons_cons c a s (p ∷ ps) = refl

join-nil_cons :
    (c : ℕ) (ps qs : List Bytes) → ps ≢ [] → join c ([] ∷ (ps ++ qs)) ≡ c ∷ join c (ps ++ qs)
unfolding join
join-nil_cons c [] qs h = absurd (h refl)
join-nil_cons c (p ∷ ps) qs h = refl

join-onto_first-append :
    (c a : ℕ) (ps qs : List Bytes)
    → ps ≢ []
    → join c (onto_first a ps ++ qs) ≡ a ∷ join c (ps ++ qs)
join-onto_first-append c a [] qs h = absurd (h refl)
join-onto_first-append c a (p ∷ ps) qs h = join-cons_cons c a p (ps ++ qs)

-- Joined parts do not change when one of them is split.
join-split-append :
    (c : ℕ) (s : Bytes) (ps : List Bytes) → join c (split c s ++ ps) ≡ join c (s ∷ ps)
unfolding split
join-split-append c [] ps = refl
join-split-append c (a ∷ s) ps = ground (
  arith,
  join-split-append c s ps,
  split-ne-nil c s,
  join-onto_first-append c a (split c s) ps,
  join-nil_cons c (split c s) ps,
  join-cons_cons c a s ps,
)

join-cons :
    (c : ℕ) (s : Bytes) (ps qs : List Bytes)
    → (ps ≡ [] → qs ≡ [])
    → (qs ≡ [] → ps ≡ [])
    → join c ps ≡ join c qs
    → join c (s ∷ ps) ≡ join c (s ∷ qs)
unfolding join
join-cons c s [] [] f g e = refl
join-cons c s [] (q ∷ qs) f g e = let no = f refl in absurd (cc)
join-cons c s (p ∷ ps) [] f g e = let no = g refl in absurd (cc)
join-cons c s (p ∷ ps) (q ∷ qs) f g e = rw e refl

-- The texts of the variables that have one.
unfoldable pub texts : (getenv : Bytes → Bytes) → List (Option ConfigurationVariable) → List Bytes
texts getenv [] = []
texts getenv (v ∷ vs) =
    let rest = texts getenv vs in
    if not (is_empty (string getenv v)) then string getenv v ∷ rest else rest

append-ne-nil : (ps qs : List Bytes) → ps ≢ [] → ps ++ qs ≢ []
append-ne-nil [] qs h = absurd (h refl)
append-ne-nil (p ∷ ps) qs h = cc

module _ (getenv : Bytes → Bytes) where
  strings-eq-nil :
      (vs : List (Option ConfigurationVariable)) → strings getenv vs ≡ [] → texts getenv vs ≡ []
  unfolding strings texts
  strings-eq-nil [] h = refl
  strings-eq-nil (v ∷ vs) h = ground (
    arith,
    strings-eq-nil vs,
    append-ne-nil (split b',' (string getenv v)) (strings getenv vs),
    split-ne-nil b',' (string getenv v),
  )

  texts-eq-nil :
      (vs : List (Option ConfigurationVariable)) → texts getenv vs ≡ [] → strings getenv vs ≡ []
  unfolding strings texts
  texts-eq-nil [] h = refl
  texts-eq-nil (v ∷ vs) h = ground (arith, texts-eq-nil vs)

  -- The parts that Strings gives, joined by commas, are the texts of the variables, joined by
  -- commas, without the empty ones.
  join-strings :
      (vs : List (Option ConfigurationVariable))
      → join b',' (strings getenv vs) ≡ join b',' (texts getenv vs)
  unfolding strings texts
  join-strings [] = refl
  join-strings (v ∷ vs) = elim (Bool-cases (is_empty (string getenv v))) [
    | inl e ↦ rw e (join-strings vs)
    | inr e ↦ rw e (
        join-split-append b',' (string getenv v) (strings getenv vs)
        ∙ join-cons b',' (string getenv v) (strings getenv vs) (texts getenv vs) (strings-eq-nil vs)
            (texts-eq-nil vs) (join-strings vs))
  ]
