-- ===== src/Load/Tests.antt =====
-- Tests of the loaders of configuration variables.
use wundergraph.Prelude.{
  ◌≡◌, refl, true, false, Option, none, some, List, [], ◌∷◌, Bytes, str, ◌==◌, split,
}
use wundergraph.Prelude.Int.{negsuc, parse_int}
use wundergraph.Load.{static, env, ConfigurationVariable, string, strings, int64}

-- an environment in which only ORIGINS is set
abbrev environment : Bytes → Bytes
environment name = elim (name == str "ORIGINS") [ true ↦ str "a.com,b.com" | false ↦ [] ]

abbrev origins : ConfigurationVariable
origins = record {
  kind = env;
  static_variable_content = [];
  environment_variable_name = str "ORIGINS";
  environment_variable_default_value = str "*";
}

abbrev timeout : ConfigurationVariable
timeout = record {
  kind = env;
  static_variable_content = [];
  environment_variable_name = str "TIMEOUT";
  environment_variable_default_value = str "-30";
}

abbrev fixed : ConfigurationVariable
fixed = record {
  kind = static;
  static_variable_content = str "true";
  environment_variable_name = [];
  environment_variable_default_value = [];
}

abbrev variables : List (Option ConfigurationVariable)
variables = some origins ∷ none ∷ some fixed ∷ []

strings_reads : strings environment variables ≡ str "a.com" ∷ str "b.com" ∷ str "true" ∷ []
unfolding strings string split ◌==◌
strings_reads = refl

int64_reads_default : int64 environment (some timeout) ≡ negsuc 29
unfolding int64 parse_int ◌==◌
int64_reads_default = refl
