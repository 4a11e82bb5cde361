-- ===== src/Load.antt =====
-- pkg/loadvariable/loadvariable.go: the value of a configuration variable, from the configuration or
-- the environment.
pub mod Agree
pub mod Tests
use wundergraph.Prelude.{
  Bool, true, false, not, Option, none, some, List, [], ◌∷◌, ◌++◌, Bytes, str, ◌==◌, is_empty,
  if◌then◌else◌, split,
}
use wundergraph.Prelude.Int.{ℤ, pos, parse_int}

-- wgpb.ConfigurationVariableKind; `other_kind` is any number that the enumeration does not name
pub data Kind : Type 0 where
  static env placeholder other_kind : Kind

-- wgpb.ConfigurationVariable
pub record ConfigurationVariable : Type 0 where
  pub kind : Kind
  pub static_variable_content : Bytes
  pub environment_variable_name : Bytes
  pub environment_variable_default_value : Bytes

-- os.Getenv, which gives no text for a variable that is not set
module _ (getenv : Bytes → Bytes) where
  unfoldable pub string_of : Kind → ConfigurationVariable → Bytes
  string_of env v =
      let value = getenv v.environment_variable_name in
      if not (is_empty value) then value else v.environment_variable_default_value
  string_of static v = v.static_variable_content
  string_of _ v = []

  -- String
  unfoldable pub string : Option ConfigurationVariable → Bytes
  unfolding string_of
  string none = []
  string (some v) = string_of v.kind v

  -- Strings
  unfoldable pub strings : List (Option ConfigurationVariable) → List Bytes
  unfolding string
  strings [] = []
  strings (v ∷ vs) =
      let rest = strings vs in
      if not (is_empty (string v)) then split b',' (string v) ++ rest else rest

  unfoldable pub bool_of : Kind → ConfigurationVariable → Bool
  bool_of env v =
      let value = getenv v.environment_variable_name in
      if not (is_empty value)
      then value == str "true"
      else v.environment_variable_default_value == str "true"
  bool_of static v = v.static_variable_content == str "true"
  bool_of _ v = false

  -- Bool
  unfoldable pub bool : Option ConfigurationVariable → Bool
  unfolding bool_of
  bool none = false
  bool (some v) = bool_of v.kind v

  unfoldable pub int64_of : Kind → ConfigurationVariable → ℤ
  int64_of env v =
      let value = getenv v.environment_variable_name in
      if not (is_empty value)
      then parse_int value
      else parse_int v.environment_variable_default_value
  int64_of static v = parse_int v.static_variable_content
  int64_of _ v = pos 0

  -- Int64, and Int, whose type has 64 bits too
  unfoldable pub int64 : Option ConfigurationVariable → ℤ
  unfolding int64_of
  int64 none = pos 0
  int64 (some v) = int64_of v.kind v
