-- ===== src/ConnectorCache.antt =====
-- The cache of connectors: autoschematic-core/src/connector_cache.rs. A connector is a value of a type
-- that is a parameter; what it and the operating system answer in one call of an operation is the
-- record `World` of that call. Each method is one step on the three maps.
pub mod Filter
pub mod Again
pub mod Spawn
use autoschematic.Prelude.{
  ℕ, ◌≡◌, refl, Bool, true, false, Option, none, some, List, [], ◌∷◌, ◌++◌, Text, text, ◌==◌,
  nat_equality, list_equality, pair_equality, if◌then◌else◌,
}
use autoschematic.Prelude.Dict
use autoschematic.Prelude.Dict.{Dict}
use autoschematic.FilePath.{FilePath, component_equality, components}
use autoschematic.Environment.{Env, parse_env_file}

pub data InitStatus : Type 0 where
  offline spawning initializing : InitStatus
  error : Text → InitStatus
  running : InitStatus

-- `prefix` and `shortname`.
abbrev pub Key : Type 0
Key = FilePath × Text

-- `FilterResponse`, a bit mask; `None` is 0.
abbrev pub FilterResponse : Type 0
FilterResponse = ℕ

abbrev pub no_filter : FilterResponse
no_filter = 0

pub record ConnectorDef : Type 0 where
  pub shortname : Text
  pub env_file : Option Text
  pub env : Env

pub record PrefixDef : Type 0 where
  pub connectors : List ConnectorDef
  pub env_file : Option Text
  pub env : Env

abbrev pub Config : Type 0
Config = Dict Text PrefixDef

pub data CacheError : Type 0 where
  no_such_prefix : Text → CacheError
  reading_env_file : Text → CacheError
  spawn_failed version_mismatch filter_failed : Text → CacheError

pub data Answer (A : Type 0) : Type 0 where
  ok : A → Answer A
  err : CacheError → Answer A

infixl 10 ◌>>=◌
abbrev pub ◌>>=◌ : {A B : Type 0} → Answer A → (A → Answer B) → Answer B
ok a >>= f = f a
err e >>= f = err e

module _ (C : Type 0) where
  -- What the outside answers: reading a file, `spawn_connector` with its environment, the version
  -- check, and the connector's `init` (an error message, if it fails) and `filter`.
  pub record World : Type 0 where
    pub read_file : Text → Option Text
    pub spawn : Key → Env → Answer C
    pub check_version : C → Answer Unit
    pub init : C → Option Text
    pub filter : C → FilePath → Answer FilterResponse

  pub record Cache : Type 0 where
    pub cache : Dict Key C
    pub init_status : Dict Key InitStatus
    pub filter_cache : Dict Key (Dict FilePath FilterResponse)

-- `env.insert(k, v)` for each entry.
unfoldable pub add_env : Env → Env → Env
add_env [] env = env
add_env ((k, v) ∷ new) env = add_env new (Dict.insert k v env)

abbrev status_after : Option Text → InitStatus
status_after none = running
status_after (some message) = error message

abbrev pub need_init : InitStatus → Bool → Bool
need_init offline do_init = do_init
need_init spawning do_init = do_init
need_init initializing do_init = false
need_init (error _) do_init = do_init
need_init running do_init = false

abbrev cached_for : Option (Dict FilePath FilterResponse) → Dict FilePath FilterResponse
cached_for none = []
cached_for (some m) = m

abbrev status_or : Option InitStatus → InitStatus
status_or none = initializing
status_or (some status) = status

module _ {C : Type 0} where
  unfoldable pub get_connector : Text → FilePath → Cache C → Option C
  get_connector name prefix s = Dict.get (prefix, name) s.cache

  add_env_file : World C → Option Text → Env → Answer Env
  add_env_file w none env = ok env
  add_env_file w (some f) env = elim (w.read_file f) [
    | none ↦ err (reading_env_file f)
    | some s ↦ ok (add_env (parse_env_file s) env)
  ]

  -- The prefix's file, the prefix's map, the connector's file, the connector's map: a later one wins.
  unfoldable pub connector_env : World C → PrefixDef → ConnectorDef → Answer Env
  unfolding add_env_file
  connector_env w prefix_def connector_def = do
    env1 ← add_env_file w prefix_def.env_file []
    env3 ← add_env_file w connector_def.env_file (add_env prefix_def.env env1)
    ok (add_env connector_def.env env3)

  abbrev set_status : Key → InitStatus → Cache C → Cache C
  set_status key status s = record s { init_status = Dict.insert key status s.init_status }

  -- `init` of the connector, with the status before and after.
  unfoldable pub run_init : World C → Key → C → Cache C → Cache C
  run_init w key c s = set_status key (status_after (w.init c)) (set_status key initializing s)

  -- A connector that is in the cache: a missing status is entered as `Offline`.
  unfoldable pub use_cached : World C → Key → C → Bool → Cache C → Cache C
  use_cached w key c do_init s = elim (Dict.get key s.init_status) [
    | none ↦ let s' = set_status key offline s in if do_init then run_init w key c s' else s'
    | some status ↦ if need_init status do_init then run_init w key c s else s
  ]

  -- A connector that is spawned and checked.
  spawned : World C → Key → C → Bool → Cache C → Answer C × Cache C
  spawned w key c do_init s =
      let s' = if do_init then run_init w key c s else s in
      (ok c, record s' { cache = Dict.insert key c s'.cache })

  spawn_checked : World C → Key → C → Bool → Answer Unit → Cache C → Answer C × Cache C
  spawn_checked w key c do_init (ok _) s = spawned w key c do_init s
  spawn_checked w key c do_init (err e) s = (err e, s)

  spawn_new : World C → Key → Bool → Answer C → Cache C → Answer C × Cache C
  spawn_new w key do_init (ok c) s = spawn_checked w key c do_init (w.check_version c) s
  spawn_new w key do_init (err e) s = (err e, s)

  with_env : World C → Key → Bool → Answer Env → Cache C → Answer C × Cache C
  with_env w key do_init (err e) s = (err e, s)
  with_env w key do_init (ok env) s = elim (Dict.get key s.cache) [
    | none ↦ spawn_new w key do_init (w.spawn key env) (set_status key spawning s)
    | some c ↦ (ok c, use_cached w key c do_init s)
  ]

  unfoldable pub get_or_spawn_connector :
      World C → Config → Text → ConnectorDef → Bool → Cache C → Answer C × Cache C
  unfolding with_env spawn_new spawn_checked spawned
  get_or_spawn_connector w config prefix connector_def do_init s = elim (Dict.get prefix config) [
    | none ↦ (err (no_such_prefix prefix), s)
    | some prefix_def ↦
        with_env w (components prefix, connector_def.shortname) do_init
          (connector_env w prefix_def connector_def) s
  ]

  unfoldable pub clear_filter_cache : Text → FilePath → Cache C → Cache C
  clear_filter_cache name prefix s = record s {
    filter_cache = Dict.remove (prefix, name) s.filter_cache;
  }

  -- The result of `init`, if the connector is in the cache.
  unfoldable pub init_connector :
      World C → Text → FilePath → Cache C → Option (Option Text) × Cache C
  unfolding clear_filter_cache
  init_connector w name prefix s = elim (Dict.get (prefix, name) s.cache) [
    | none ↦ (none, s)
    | some c ↦ (some (w.init c), clear_filter_cache name prefix s)
  ]

  -- The cached response.
  unfoldable pub lookup_filter : Key → FilePath → Cache C → Option FilterResponse
  lookup_filter key addr s = Dict.get addr (cached_for (Dict.get key s.filter_cache))

  store_filter : Key → FilePath → Answer FilterResponse → Cache C → Answer FilterResponse × Cache C
  store_filter key addr (err e) s = (err e, s)
  store_filter key addr (ok res) s = (
    ok res,
    record s {
      filter_cache =
          Dict.insert key (Dict.insert addr res (cached_for (Dict.get key s.filter_cache)))
            s.filter_cache;
    },
  )

  unfoldable pub filter_cached :
      World C → Text → FilePath → FilePath → Cache C → Answer FilterResponse × Cache C
  unfolding store_filter lookup_filter
  filter_cached w name prefix addr s = elim (lookup_filter (prefix, name) addr s) [
    | some value ↦ (ok value, s)
    | none ↦ elim (Dict.get (prefix, name) s.cache) [
      | some c ↦ store_filter (prefix, name) addr (w.filter c addr) s
      | none ↦ (ok no_filter, s)
    ]
  ]

  -- The loop over the connectors of a prefix; `none` is a response `None` from all of them.
  filter_connectors :
      World C
      → FilePath
      → List ConnectorDef
      → FilePath
      → Cache C
      → Answer (Option FilterResponse) × Cache C
  filter_connectors w prefix [] addr s = (ok none, s)
  filter_connectors w prefix (c ∷ cs) addr s =
      let (r, s') = filter_cached w c.shortname prefix addr s in
      elim r [
        | err e ↦ (err e, s')
        | ok resp ↦
            let later = filter_connectors w prefix cs addr s' in
            if resp == no_filter then later else (ok (some resp), s')
      ]

  -- The first response other than `None`, over all prefixes and their connectors.
  unfoldable pub filter_all_cached :
      World C → Config → FilePath → Cache C → Answer FilterResponse × Cache C
  unfolding filter_connectors
  filter_all_cached w [] addr s = (ok no_filter, s)
  filter_all_cached w ((prefix, prefix_def) ∷ rest) addr s =
      let (r, s') = filter_connectors w (components prefix) prefix_def.connectors addr s in
      elim r [
        | err e ↦ (err e, s')
        | ok none ↦ filter_all_cached w rest addr s'
        | ok (some resp) ↦ (ok resp, s')
      ]

  -- Every connector is killed; the statuses stay.
  unfoldable pub clear : Cache C → Cache C
  clear s = record s { cache = []; filter_cache = [] }

module _ {C H : Type 0} (handle_status : C → H) where
  -- `top`, with the handle's status as a function of the connector.
  top_of : Dict Key InitStatus → Dict Key C → Dict Key (H × InitStatus)
  top_of statuses [] = []
  top_of statuses ((key, c) ∷ m) =
      (key, (handle_status c, status_or (Dict.get key statuses))) ∷ top_of statuses m

  unfoldable pub top : Cache C → Dict Key (H × InitStatus)
  unfolding top_of
  top s = top_of s.init_status s.cache
