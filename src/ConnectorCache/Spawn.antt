-- ===== src/ConnectorCache/Spawn.antt =====
-- Getting or spawning a connector, and the status of its initialisation.
use autoschematic.Prelude.{
  ◌≡◌, inl, inr, refl, ap, ◌∙◌, Bool, true, false, some, Text, if◌then◌else◌, ◌==◌, ==_iff,
  nat_equality, list_equality, pair_equality, Option-cases, Bool-cases, arith,
}
use autoschematic.Prelude.Dict
use autoschematic.Prelude.Dict.{Dict, get-insert, get-remove, get-insert_self}
use autoschematic.FilePath.{component_equality, components}
use autoschematic.Environment.{Env}
use autoschematic.ConnectorCache.{
  Key, World, Cache, Config, ConnectorDef, spawning, Answer, ok, err, CacheError,
  get_or_spawn_connector, with_env, spawn_new, spawn_checked, spawned, use_cached, run_init,
  connector_env,
}

module _ {C : Type 0} where
  -- The outcome of a call for one connector: an error, and the map of connectors is as it was; or the
  -- connector, which then stands in the map, and no other entry has changed. Cached filter responses
  -- stay in any case.
  pub data Settled (key : Key) (s : Cache C) : Answer C × Cache C → Type 0 where
    failed :
        {e : CacheError} {s' : Cache C}
        → s'.cache ≡ s.cache
        → s'.filter_cache ≡ s.filter_cache
        → Settled key s (err e, s')
    given :
        {c : C} {s' : Cache C}
        → ((k : Key) → Dict.get k s'.cache ≡ (if key == k then some c else Dict.get k s.cache))
        → s'.filter_cache ≡ s.filter_cache
        → Settled key s (ok c, s')

  run_if : World C → Key → C → Bool → Cache C → Cache C
  run_if w key c do_init s = if do_init then run_init w key c s else s

  cache-run_if :
      (w : World C) (key : Key) (c : C) (do_init : Bool) (s : Cache C)
      → ((run_if w key c do_init s).cache ≡ s.cache)
        × ((run_if w key c do_init s).filter_cache ≡ s.filter_cache)
  unfolding run_if run_init
  cache-run_if w key c true s = (refl, refl)
  cache-run_if w key c false s = (refl, refl)

  cache-use_cached :
      (w : World C) (key : Key) (c : C) (do_init : Bool) (s : Cache C)
      → ((use_cached w key c do_init s).cache ≡ s.cache)
        × ((use_cached w key c do_init s).filter_cache ≡ s.filter_cache)
  unfolding use_cached run_init
  cache-use_cached w key c do_init s = (ground arith, ground arith)

  module _ (w : World C) (key : Key) (do_init : Bool) (s : Cache C) where
    Settled-spawn_checked :
        (c : C) (a : Answer Unit) (s' : Cache C)
        → s'.cache ≡ s.cache
        → s'.filter_cache ≡ s.filter_cache
        → Settled key s (spawn_checked w key c do_init a s')
    unfolding spawn_checked spawned run_if
    Settled-spawn_checked c (err e) s' h f = failed h f
    Settled-spawn_checked c (ok u) s' h f =
        let (same, filters) = cache-run_if w key c do_init s' in
        given
          (λ k.
            get-insert key k c (run_if w key c do_init s').cache
            ∙ ap (λ m. if key == k then some c else Dict.get k m) (same ∙ h))
          (filters ∙ f)

    Settled-spawn_new :
        (a : Answer C) (s' : Cache C)
        → s'.cache ≡ s.cache
        → s'.filter_cache ≡ s.filter_cache
        → Settled key s (spawn_new w key do_init a s')
    unfolding spawn_new
    Settled-spawn_new (err e) s' h f = failed h f
    Settled-spawn_new (ok c) s' h f = Settled-spawn_checked c (w.check_version c) s' h f

    Settled-with_env : (a : Answer Env) → Settled key s (with_env w key do_init a s)
    unfolding with_env
    Settled-with_env (err e) = failed refl refl
    Settled-with_env (ok env) = elim (Option-cases (Dict.get key s.cache)) [
      | inl e ↦
          rw (e, with_env)
            (Settled-spawn_new (w.spawn key env)
              (record s { init_status = Dict.insert key spawning s.init_status }) refl refl)
      | inr (c, e) ↦
          let (same, filters) = cache-use_cached w key c do_init s in
          rw (e, with_env) (given (λ k. ap (Dict.get k) same ∙ stays c e k) filters)
    ]
      where
        stays :
            (c : C)
            → Dict.get key s.cache ≡ some c
            → (k : Key) → Dict.get k s.cache ≡ (if key == k then some c else Dict.get k s.cache)
        stays c e k = elim (Bool-cases (key == k)) [
          | inl b ↦ rw (b, ← (==_iff key k).0 b) e
          | inr b ↦ rw b refl
        ]

  -- A call either fails, and then the map of connectors is unchanged; or it returns a connector, and
  -- then exactly that connector stands under the key and all other entries are unchanged. It never
  -- changes the cached filter responses, also where it runs `init`.
  pub get_or_spawn_connector-Settled :
      (w : World C) (config : Config) (prefix : Text) (connector_def : ConnectorDef)
      (do_init : Bool) (s : Cache C)
      → Settled
          (components prefix, connector_def.shortname)
          s
          (get_or_spawn_connector w config prefix connector_def do_init s)
  unfolding get_or_spawn_connector
  get_or_spawn_connector-Settled w config prefix connector_def do_init s =
      elim (Option-cases (Dict.get prefix config)) [
        | inl e ↦ rw (e, get_or_spawn_connector) (failed refl refl)
        | inr (p, e) ↦
            rw (e, get_or_spawn_connector)
              (Settled-with_env w (components prefix, connector_def.shortname) do_init s
                (connector_env w p connector_def))
      ]
