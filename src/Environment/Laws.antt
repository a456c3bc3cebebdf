-- ===== src/Environment/Laws.antt =====
-- What the passes over a connector's environment leave under each key.
use autoschematic.Prelude.{
  ◌≡◌, ◌⊎◌, inl, inr, refl, ◌∙◌, Option, none, some, [], ◌∷◌, Text, In, ◌==◌, ==_iff, nat_equality,
  list_equality, if◌then◌else◌, Option-cases, Bool-cases, arith,
}
use autoschematic.Prelude.Dict
use autoschematic.Prelude.Dict.{Dict, get-insert, HasDistinctKeys}
use autoschematic.Environment.{
  Env, pass_secret, secrets_loop, passthrough_secrets_from_env, env_value, env_loop,
  passthrough_env_from_env,
}

abbrev pub bind : (Text → Option Text) → Option Text → Option Text
bind f none = none
bind f (some v) = f v

-- What is found in the rest, else what is there already.
abbrev first_of : Option Text → Option Text → Option Text
first_of none old = old
first_of (some v) old = some v

module _ (env_path : Text → Option Text) (var : Text → Option Text) where
  -- What a value of the environment stands for: itself, unless it names a variable.
  abbrev pub given : Text → Option Text
  given value = elim (env_path value) [ none ↦ some value | some src ↦ var src ]

  -- What a loop over the rest of the environment comes to.
  abbrev Finished : Env → Env → Option Env → Type 0
  Finished out env r =
      ((r ≡ none) × (key : Text) × (value : Text) × In (key, value) env × (given value ≡ none))
      ⊎ ((out' : Env) × (r ≡ some out')
          × ((key : Text)
              → Dict.get key out'
                ≡ (elim (Dict.get key env) [ none ↦ Dict.get key out | some v ↦ given v ])))

  env_loop_lem :
      (out env : Env) → HasDistinctKeys env → Finished out env (env_loop env_path var out env)
  unfolding env_loop env_value Dict.get
  env_loop_lem out [] h = inr (out, refl, λ key. refl)
  env_loop_lem out ((k, value) ∷ env) (fresh, h) = elim (Option-cases (given value)) [
    | inl e ↦ inl (rw (e, env_loop) refl, k, value, inl refl, e)
    | inr (v, e) ↦ elim (env_loop_lem (Dict.insert k v out) env h) [
      | inl (r, key, value', i, x) ↦ inl (rw (e, env_loop) r, key, value', inr i, x)
      | inr (out', r, gets) ↦ inr (
        out',
        rw (e, env_loop) r,
        λ key. ground (arith, gets key, get-insert k key v out, ==_iff k key, fresh, e),
      )
    ]
  ]

  -- For an environment with distinct keys: either some value refers to a variable that is not set,
  -- and the result is an error; or each key holds in the result what its value stands for, and there
  -- are no other keys.
  pub passthrough_env_from_env_lem :
      (env : Env)
      → HasDistinctKeys env
      → ((passthrough_env_from_env env_path var env ≡ none)
          × (key : Text) × (value : Text) × In (key, value) env
          × (given value ≡ none))
        ⊎ ((out : Env) × (passthrough_env_from_env env_path var env ≡ some out)
            × ((key : Text) → Dict.get key out ≡ bind given (Dict.get key env)))
  unfolding passthrough_env_from_env Dict.get
  passthrough_env_from_env_lem env h = elim (env_loop_lem [] env h) [
    | inl failing ↦ inl failing
    | inr (out, r, gets) ↦ inr (out, r, λ key. ground (arith, gets key))
  ]

module _ (secret_path : Text → Option Text) (var : Text → Option Text) where
  -- What is passed on for a key: its value, but for a secret the variable of the key's name.
  abbrev pub passed : Text → Text → Option Text
  passed key value = elim (secret_path value) [ none ↦ some value | some _ ↦ var key ]

  get-pass_secret :
      (k value : Text) (out : Env) (key : Text)
      → Dict.get key (pass_secret secret_path var k value out)
        ≡ (if k == key then first_of (passed k value) (Dict.get key out) else Dict.get key out)
  unfolding pass_secret
  get-pass_secret k value out key = elim (Option-cases (secret_path value)) [
    | inl e ↦ ground (arith, e, get-insert k key value out)
    | inr (s, e) ↦ elim (Option-cases (var k)) [
      | inl f ↦ ground (arith, e, f)
      | inr (v, f) ↦ ground (arith, e, f, get-insert k key v out)
    ]
  ]

  get-secrets_loop :
      (out env : Env) (key : Text)
      → HasDistinctKeys env
      → Dict.get key (secrets_loop secret_path var out env)
        ≡ first_of (bind (passed key) (Dict.get key env)) (Dict.get key out)
  unfolding secrets_loop Dict.get
  get-secrets_loop out [] key h = refl
  get-secrets_loop out ((k, value) ∷ env) key (fresh, h) =
      get-secrets_loop (pass_secret secret_path var k value out) env key h
      ∙ rw (get-pass_secret k value out key) (elim (Bool-cases (k == key)) [
        | inl e ↦ let same = (==_iff k key).0 e in rw (e, ← same, fresh) refl
        | inr e ↦ rw e refl
      ])

  -- For an environment with distinct keys, a key holds in the result what is passed on for it: its
  -- value, but for a secret the variable of the key's name; a secret whose variable is not set is left
  -- out, and so are all other keys.
  pub get-passthrough_secrets_from_env :
      (env : Env) (key : Text)
      → HasDistinctKeys env
      → Dict.get key (passthrough_secrets_from_env secret_path var env)
        ≡ bind (passed key) (Dict.get key env)
  unfolding passthrough_secrets_from_env Dict.get
  get-passthrough_secrets_from_env env key h = get-secrets_loop [] env key h ∙ ground arith
