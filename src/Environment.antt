-- ===== src/Environment.antt =====
-- Environment variables of connectors: `parse_env_file`, `passthrough_secrets_from_env` and
-- `passthrough_env_from_env` of autoschematic-core/src/util.rs. The regular expressions are
-- parameters that return the group `path`; the process environment is a function.
pub mod Laws
use autoschematic.Prelude.{
  ℕ, ◌≡◌, refl, Bool, true, false, ◌||◌, Option, none, some, List, [], ◌∷◌, ◌++◌, Text, text, trim,
  strip_text, split_once, starts_with, lines, ◌==◌, nat_equality, list_equality, if◌then◌else◌,
}
use autoschematic.Prelude.Dict
use autoschematic.Prelude.Dict.{Dict}

abbrev pub Env : Type 0
Env = Dict Text Text

-- `export KEY=val` is allowed.
strip_export : Text → Text
strip_export line = elim (strip_text (text "export ") line) [ none ↦ line | some s ↦ trim s ]

abbrev assignment : Option (Text × Text) → Option (Text × Text)
assignment none = none
assignment (some (k, v)) = let key = trim k in if key == [] then none else some (key, trim v)

-- One line: the assignment that it makes, if any.
unfoldable pub parse_line : Text → Option (Text × Text)
unfolding strip_export trim
parse_line line =
    let s = trim line in
    if s == [] || starts_with s (text "#")
    then none
    else assignment (split_once b'=' (strip_export s))

parse_lines : Env → List Text → Env
parse_lines env [] = env
parse_lines env (line ∷ rest) =
    parse_lines (elim (parse_line line) [ none ↦ env | some (k, v) ↦ Dict.insert k v env ]) rest

unfoldable pub parse_env_file : Text → Env
unfolding parse_lines parse_line lines
parse_env_file s = parse_lines [] (lines s)

module _ (secret_path : Text → Option Text) (var : Text → Option Text) where
  pass_secret : Text → Text → Env → Env
  pass_secret key value out = elim (secret_path value) [
    | none ↦ Dict.insert key value out
    | some _ ↦ elim (var key) [ none ↦ out | some v ↦ Dict.insert key v out ]
  ]

  secrets_loop : Env → Env → Env
  secrets_loop out [] = out
  secrets_loop out ((key, value) ∷ env) = secrets_loop (pass_secret key value out) env

  -- A secret that no variable of the process gives is left out.
  unfoldable pub passthrough_secrets_from_env : Env → Env
  unfolding secrets_loop pass_secret
  passthrough_secrets_from_env env = secrets_loop [] env

module _ (env_path : Text → Option Text) (var : Text → Option Text) where
  -- What a value stands for; `none` is a variable that is not set.
  env_value : Text → Option Text
  env_value value = elim (env_path value) [ none ↦ some value | some src ↦ var src ]

  env_loop : Env → Env → Option Env
  env_loop out [] = some out
  env_loop out ((key, value) ∷ env) = elim (env_value value) [
    | none ↦ none
    | some v ↦ env_loop (Dict.insert key v out) env
  ]

  -- A reference to a variable that is not set is an error.
  unfoldable pub passthrough_env_from_env : Env → Option Env
  unfolding env_loop env_value
  passthrough_env_from_env env = env_loop [] env
