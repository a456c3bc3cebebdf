-- ===== src/Tests/EnvTests.antt =====
-- Tests of the environment variables of autoschematic-core/src/util.rs.
use autoschematic.Prelude.{
  ◌≡◌, ◌⊎◌, refl, Option, none, some, [], ◌∷◌, Text, text, In, starts_with, split_once, strip_text,
  nat_equality, list_equality, ◌==◌, if◌then◌else◌,
}
use autoschematic.Prelude.Dict
use autoschematic.Prelude.Dict.{HasDistinctKeys}
use autoschematic.Environment.{
  Env, parse_env_file, passthrough_secrets_from_env, passthrough_env_from_env,
}
use autoschematic.Environment.Laws.{
  bind, given, passed, passthrough_env_from_env_lem, get-passthrough_secrets_from_env,
}

exported :
    parse_env_file (text "# x\nexport A = 1\n\nB=2=3\n=4\nA=5")
    ≡ (text "A", text "5") ∷ (text "B", text "2=3") ∷ []
unfolding parse_env_file starts_with split_once strip_text Dict.insert
exported = refl

abbrev env : Env
env = (text "HOME", text "env://HOME") ∷ (text "TOKEN", text "secret://token") ∷ []

env-HasDistinctKeys : HasDistinctKeys env
unfolding Dict.get
env-HasDistinctKeys = (refl, (refl, tt))

abbrev env_path : Text → Option Text
env_path s = strip_text (text "env://") s

abbrev secret_path : Text → Option Text
secret_path s = strip_text (text "secret://") s

abbrev var : Text → Option Text
var name = if name == text "HOME" then some (text "/root") else none

passthrough_env_from_env_lem_example :
    ((passthrough_env_from_env env_path var env ≡ none)
      × (key : Text) × (value : Text) × In (key, value) env
      × (given env_path var value ≡ none))
    ⊎ ((out : Env) × (passthrough_env_from_env env_path var env ≡ some out)
        × ((key : Text) → Dict.get key out ≡ bind (given env_path var) (Dict.get key env)))
passthrough_env_from_env_lem_example =
    passthrough_env_from_env_lem env_path var env env-HasDistinctKeys

get-passthrough_secrets_from_env_example :
    Dict.get (text "TOKEN") (passthrough_secrets_from_env secret_path var env)
    ≡ bind (passed secret_path var (text "TOKEN")) (Dict.get (text "TOKEN") env)
get-passthrough_secrets_from_env_example =
    get-passthrough_secrets_from_env secret_path var env (text "TOKEN") env-HasDistinctKeys
