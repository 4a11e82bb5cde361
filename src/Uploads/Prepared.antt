-- ===== src/Uploads/Prepared.antt =====
-- pkg/s3uploadclient/s3uploadclient.go: the profiles that NewS3UploadClient prepares.
use wundergraph.Prelude.{
  some_injective, ◌≡◌, inl, inr, refl, ap, sym, subst, ◌∙◌, ◌==◌, eq_iff, Option, none, some, List,
  [], ◌∷◌, Bytes, is_empty, Bool-cases, if_true, if_false,
}
use wundergraph.Auth.Redirect.{Regexp}
use wundergraph.Uploads.{
  UploadProfile, PreparedProfile, MetadataSchema, with_schema, compiled, joined, schema_name,
  prepare, prepare_all, profile_at,
}
use wundergraph.Uploads.Accepted.{is_empty-eq_true}

module _ (re : Regexp) (compile_string : Bytes → Bytes → Option MetadataSchema) where
  open re use {Matcher}

  -- the schema of a profile, as it is prepared
  unfoldable pub Prepared : Bytes → Bytes → UploadProfile → Option MetadataSchema → Type 0
  Prepared client_name name p none = p.metadata_json_schema ≡ []
  Prepared client_name name p (some schema) =
      compile_string (schema_name re compile_string client_name name) p.metadata_json_schema
      ≡ some schema

  compiled-some :
      (client_name name : Bytes) (p : UploadProfile) (q : PreparedProfile Matcher)
      (schema : Option MetadataSchema)
      → compile_string (schema_name re compile_string client_name name) p.metadata_json_schema
        ≡ schema
      → compiled re p schema ≡ some q
      → (s : Option MetadataSchema) × (with_schema re p s ≡ q) × Prepared client_name name p s
  unfolding compiled Prepared
  compiled-some client_name name p q none e h = cc
  compiled-some client_name name p q (some schema) e h = (some schema, some_injective h, e)

  prepare-some :
      (client_name name : Bytes) (p : UploadProfile) (q : PreparedProfile Matcher)
      → prepare re compile_string client_name name p ≡ some q
      → (s : Option MetadataSchema) × (with_schema re p s ≡ q) × Prepared client_name name p s
  unfolding prepare Prepared
  prepare-some client_name name p q h = elim (Bool-cases (is_empty p.metadata_json_schema)) [
    | inl e ↦ (
      none,
      some_injective (sym (if_true _ _ e) ∙ h),
      (is_empty-eq_true p.metadata_json_schema).0 e,
    )
    | inr e ↦ compiled-some client_name name p q _ refl (sym (if_false _ _ e) ∙ h)
  ]

  joined-some :
      (name : Bytes) (p : Option (PreparedProfile Matcher))
      (ps : Option (List (Bytes × PreparedProfile Matcher)))
      (all : List (Bytes × PreparedProfile Matcher))
      → joined re name p ps ≡ some all
      → (q : PreparedProfile Matcher) × (rest : List (Bytes × PreparedProfile Matcher)) × (p
          ≡ some q)
        × (ps ≡ some rest)
        × ((name, q) ∷ rest ≡ all)
  unfolding joined
  joined-some name none ps all h = cc
  joined-some name (some q) none all h = cc
  joined-some name (some q) (some rest) all h = (q, rest, refl, refl, some_injective h)

  -- a prepared profile is made of the profile of the same name
  unfoldable pub Made :
      Bytes → List (Bytes × UploadProfile) → Bytes → PreparedProfile Matcher → Type 0
  Made client_name ps name q =
      (p : UploadProfile) × (s : Option MetadataSchema) × (profile_at name ps ≡ some p)
      × (with_schema re p s ≡ q)
      × Prepared client_name name p s

  nil-profile_at :
      (all : List (Bytes × PreparedProfile Matcher)) (name : Bytes) (q : PreparedProfile Matcher)
      → some [] ≡ some all
      → profile_at name all ≡ some q
      → ⊥
  unfolding profile_at
  nil-profile_at [] name q h k = cc
  nil-profile_at (x ∷ all) name q h k = cc

  pub profile_at-prepare_all :
      (client_name : Bytes) (ps : List (Bytes × UploadProfile))
      (all : List (Bytes × PreparedProfile Matcher)) (name : Bytes) (q : PreparedProfile Matcher)
      → prepare_all re compile_string client_name ps ≡ some all
      → profile_at name all ≡ some q
      → Made client_name ps name q
  unfolding prepare_all profile_at Made
  profile_at-prepare_all client_name [] all name q h k = absurd (nil-profile_at all name q h k)
  profile_at-prepare_all client_name ((n, p) ∷ ps) all name q h k =
      let (q', rest, e, f, g) = joined-some n _ _ all h in
      elim (Bool-cases (n == name)) [
        | inl b ↦
            let (s, w, pr) = prepare-some client_name n p q' e in
            (
              p,
              s,
              if_true _ _ b,
              w ∙ some_injective (sym (if_true _ _ b) ∙ ap (profile_at name) g ∙ k),
              subst (λ z. Prepared client_name z p s) ((eq_iff n name).0 b) pr,
            )
        | inr b ↦
            let (p', s, at, w, pr) =
              profile_at-prepare_all client_name ps rest name q f
                (sym (if_false _ _ b) ∙ ap (profile_at name) g ∙ k) in
            (p', s, if_false _ _ b ∙ at, w, pr)
      ]

  pub prepare_all-nil :
      (client_name : Bytes) (ps : List (Bytes × UploadProfile))
      → prepare_all re compile_string client_name ps ≡ some []
      → ps ≡ []
  unfolding prepare_all
  prepare_all-nil client_name [] h = refl
  prepare_all-nil client_name ((n, p) ∷ ps) h =
      let (q, rest, e, f, g) = joined-some n _ _ [] h in cc
