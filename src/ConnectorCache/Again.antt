-- ===== src/ConnectorCache/Again.antt =====
-- Two calls for the same connector, one after the other.
use autoschematic.Prelude.{
  ◌≡◌, ◌⊎◌, inl, inr, refl, ap, subst, ◌∙◌, Bool, true, false, none, some, Text, if◌then◌else◌,
  nat_equality, list_equality, pair_equality, Option-cases, arith,
}
use autoschematic.Prelude.Dict
use autoschematic.Prelude.Dict.{Dict, get-insert, get-insert_self}
use autoschematic.FilePath.{component_equality, components}
use autoschematic.Environment.{Env}
use autoschematic.ConnectorCache.{
  Key, World, Cache, Config, PrefixDef, ConnectorDef, InitStatus, offline, spawning, initializing,
  error, running, Answer, ok, err, get_or_spawn_connector, with_env, need_init, status_after,
  spawn_new, spawn_checked, spawned, use_cached, run_init, connector_env,
}

need_init_not : (status : InitStatus) → need_init status false ≡ false
need_init_not offline = refl
need_init_not spawning = refl
need_init_not initializing = refl
need_init_not (error message) = refl
need_init_not running = refl

need_init_never :
    (status : InitStatus) (again : Bool)
    → need_init status true ≡ false
    → need_init status again ≡ false
need_init_never offline again h = cc
need_init_never spawning again h = cc
need_init_never initializing again h = refl
need_init_never (error message) again h = cc
need_init_never running again h = refl

module _ {C : Type 0} (w : World C) (key : Key) (again : Bool) where
  -- The second call does not ask for `init`, or the first does and `init` does not fail.
  abbrev pub IsEnough : Bool → C → Type 0
  IsEnough do_init c = (again ≡ false) ⊎ ((do_init ≡ true) × (w.init c ≡ none))

  -- There is a status that asks for no `init`.
  abbrev Idle : Cache C → Type 0
  Idle s =
      (status : InitStatus) × (Dict.get key s.init_status ≡ some status)
      × (need_init status again ≡ false)

  not_asked : (c : C) → IsEnough false c → again ≡ false
  not_asked c (inl e) = e
  not_asked c (inr (e, f)) = cc

  idle_status :
      (do_init : Bool) (c : C)
      → IsEnough do_init c
      → need_init (status_after (w.init c)) again ≡ false
  idle_status do_init c (inl e) = rw e (need_init_not (status_after (w.init c)))
  idle_status do_init c (inr (e, f)) = rw f refl

  Idle-run_init :
      (do_init : Bool) (c : C) (s : Cache C) → IsEnough do_init c → Idle (run_init w key c s)
  unfolding run_init
  Idle-run_init do_init c s enough = (
    status_after (w.init c),
    get-insert_self key (status_after (w.init c)) (Dict.insert key initializing s.init_status),
    idle_status do_init c enough,
  )

  -- The status that is entered first stays where no `init` runs.
  Idle-entered :
      (status : InitStatus) (do_init : Bool) (c : C) (s : Cache C)
      → IsEnough do_init c
      → let s' : Cache C = record s { init_status = Dict.insert key status s.init_status } in
        Idle (if do_init then run_init w key c s' else s')
  Idle-entered status true c s enough = Idle-run_init true c _ enough
  Idle-entered status false c s enough = (
    status,
    get-insert_self key status s.init_status,
    rw (not_asked c enough) (need_init_not status),
  )

  Idle-known :
      (status : InitStatus) (do_init b : Bool) (c : C) (s : Cache C)
      → Dict.get key s.init_status ≡ some status
      → IsEnough do_init c
      → need_init status do_init ≡ b
      → Idle (if b then run_init w key c s else s)
  Idle-known status do_init true c s e enough n = Idle-run_init do_init c s enough
  Idle-known status true false c s e enough n = (status, e, need_init_never status again n)
  Idle-known status false false c s e enough n =
      (status, e, rw (not_asked c enough) (need_init_not status))

  Idle-use_cached :
      (do_init : Bool) (c : C) (s : Cache C)
      → IsEnough do_init c
      → Idle (use_cached w key c do_init s)
  unfolding use_cached
  Idle-use_cached do_init c s enough = elim (Option-cases (Dict.get key s.init_status)) [
    | inl e ↦ rw (e, use_cached) (Idle-entered offline do_init c s enough)
    | inr (status, e) ↦
        rw (e, use_cached) (Idle-known status do_init (need_init status do_init) c s e enough refl)
  ]

  -- The connector that is returned stands in the map, with a status that asks for no `init`.
  abbrev Kept : Bool → Answer C × Cache C → Type 0
  Kept do_init (err e, s) = Unit
  Kept do_init (ok c, s) = IsEnough do_init c → ((Dict.get key s.cache ≡ some c) × Idle s)

  cache-use_cached :
      (do_init : Bool) (c : C) (s : Cache C) → (use_cached w key c do_init s).cache ≡ s.cache
  unfolding use_cached run_init
  cache-use_cached do_init c s = ground arith

  module _ (do_init : Bool) (s : Cache C) where
    at_spawning : Cache C
    at_spawning = record s { init_status = Dict.insert key spawning s.init_status }

    Kept-spawn_new : (a : Answer C) → Kept do_init (spawn_new w key do_init a at_spawning)
    unfolding spawn_new spawn_checked spawned at_spawning
    Kept-spawn_new (err e) = tt
    Kept-spawn_new (ok c) = by_version (w.check_version c)
      where
        by_version : (a : Answer Unit) → Kept do_init (spawn_checked w key c do_init a at_spawning)
        by_version (err e) = tt
        by_version (ok u) =
            λ enough. (get-insert_self key c _, Idle-entered spawning do_init c s enough)

    Kept-with_env : (a : Answer Env) → Kept do_init (with_env w key do_init a s)
    unfolding with_env at_spawning
    Kept-with_env (err e) = tt
    Kept-with_env (ok env) = elim (Option-cases (Dict.get key s.cache)) [
      | inl e ↦ rw (e, with_env) (Kept-spawn_new (w.spawn key env))
      | inr (c, e) ↦
          rw (e, with_env)
            (λ enough. (
              ap (Dict.get key) (cache-use_cached do_init c s) ∙ e,
              Idle-use_cached do_init c s enough,
            ))
    ]

-- A connector that a call has returned is returned by the next call for it, whatever the operating
-- system and the connector answer then: this spawns nothing, runs no `init` and leaves the whole state
-- as it is. The conditions are that the prefix is configured, that its environment files and those of
-- the connector can be read in the second call, and that this does not ask for `init`, or the first did
-- and `init` of the connector, as it answered then, does not fail.
pub get_or_spawn_connector_again :
    {C : Type 0} (w later : World C) (config : Config) (prefix : Text) (prefix_def : PrefixDef)
    (connector_def : ConnectorDef) (do_init again : Bool) (c : C) (env : Env) (s s' : Cache C)
    → Dict.get prefix config ≡ some prefix_def
    → get_or_spawn_connector w config prefix connector_def do_init s ≡ (ok c, s')
    → connector_env later prefix_def connector_def ≡ ok env
    → (again ≡ false) ⊎ ((do_init ≡ true) × (w.init c ≡ none))
    → get_or_spawn_connector later config prefix connector_def again s' ≡ (ok c, s')
unfolding get_or_spawn_connector with_env use_cached
get_or_spawn_connector_again w later config prefix prefix_def connector_def do_init again c env s s'
      p first e enough =
    let key : Key = (components prefix, connector_def.shortname) in
    let kept =
      subst (Kept w key again do_init) (rw (p, get_or_spawn_connector) at first)
        (Kept-with_env w key again do_init s (connector_env w prefix_def connector_def)) in
    let (there, (status, i, idle)) = kept enough in
    rw (p, get_or_spawn_connector, e, with_env, there, i, use_cached, idle) refl
