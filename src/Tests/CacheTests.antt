-- ===== src/Tests/CacheTests.antt =====
-- Tests of autoschematic-core/src/connector_cache.rs.
use autoschematic.Prelude.{
  ℕ, ◌≡◌, ◌⊎◌, inl, inr, refl, true, none, some, [], ◌∷◌, text, ◌==◌, if◌then◌else◌, starts_with,
  split_once, nat_equality, list_equality, pair_equality,
}
use autoschematic.Prelude.Dict
use autoschematic.FilePath.{normal, FilePath, component_equality, components}
use autoschematic.Environment.{parse_env_file}
use autoschematic.ConnectorCache.{
  Key, FilterResponse, World, Cache, Config, PrefixDef, ConnectorDef, running, ok, err, CacheError,
  filter_failed, lookup_filter, filter_cached, get_connector, connector_env, get_or_spawn_connector,
  init_connector, run_init, add_env,
}
use autoschematic.ConnectorCache.Filter.{
  IsCoherent, filter_cached_again, filter_cached-IsCoherent, lookup_filter-init_connector,
}
use autoschematic.ConnectorCache.Again.{get_or_spawn_connector_again}
use autoschematic.ConnectorCache.Spawn.{Settled, get_or_spawn_connector-Settled}

-- Connectors are numbers; all of them answer alike.
abbrev world : World ℕ
world = record {
  read_file = λ f. some (text "A=1");
  spawn = λ key env. ok 7;
  check_version = λ c. ok tt;
  init = λ c. none;
  filter = λ c addr. ok 2;
}

abbrev failing : World ℕ
failing = record {
  read_file = λ f. none;
  spawn = λ key env. ok 8;
  check_version = λ c. ok tt;
  init = λ c. some (text "broken");
  filter = λ c addr. err (filter_failed (text "gone"));
}

abbrev connector_def : ConnectorDef
connector_def = record { shortname = text "s3"; env_file = some (text ".env"); env = [] }

abbrev prefix_def : PrefixDef
prefix_def = record { connectors = connector_def ∷ []; env_file = none; env = [] }

abbrev config : Config
config = (text "aws", prefix_def) ∷ []

abbrev aws : FilePath
aws = normal (text "aws") ∷ []

abbrev bucket : FilePath
bucket = normal (text "bucket.ron") ∷ []

abbrev key : Key
key = (aws, text "s3")

abbrev empty_cache : Cache ℕ
empty_cache = record { cache = []; init_status = []; filter_cache = [] }

abbrev warm : Cache ℕ
warm = record { cache = (key, 7) ∷ []; init_status = (key, running) ∷ []; filter_cache = [] }

cached_connector : get_connector (text "s3") aws warm ≡ some 7
unfolding get_connector Dict.get
cached_connector = refl

spawns :
    get_or_spawn_connector world config (text "aws") connector_def true empty_cache ≡ (ok 7, warm)
unfolding get_or_spawn_connector connector_env components Dict.get Dict.insert parse_env_file
    run_init
spawns = refl

get_or_spawn_connector-Settled_example :
    Settled
      (components (text "aws"), text "s3")
      empty_cache
      (get_or_spawn_connector world config (text "aws") connector_def true empty_cache)
get_or_spawn_connector-Settled_example =
    get_or_spawn_connector-Settled world config (text "aws") connector_def true empty_cache

config_found : Dict.get (text "aws") config ≡ some prefix_def
unfolding Dict.get
config_found = refl

-- The second call meets a connector whose `init` would fail.
abbrev broken : World ℕ
broken = record world { init = λ c. some (text "broken") }

env_found : connector_env broken prefix_def connector_def ≡ ok ((text "A", text "1") ∷ [])
unfolding connector_env parse_env_file Dict.insert add_env starts_with split_once
env_found = refl

get_or_spawn_connector_again_example :
    get_or_spawn_connector broken config (text "aws") connector_def true warm ≡ (ok 7, warm)
get_or_spawn_connector_again_example =
    get_or_spawn_connector_again world broken config (text "aws") prefix_def connector_def true true
      7 ((text "A", text "1") ∷ []) empty_cache warm config_found spawns env_found
      (inr (refl, refl))

answers : (filter_cached world (text "s3") aws bucket warm).0 ≡ ok 2
unfolding filter_cached Dict.get
answers = refl

filter_cached_again_example :
    filter_cached failing (text "s3") aws bucket (filter_cached world (text "s3") aws bucket warm).1
    ≡ (ok 2, (filter_cached world (text "s3") aws bucket warm).1)
filter_cached_again_example =
    filter_cached_again world failing (text "s3") aws bucket warm 2 7 cached_connector answers

abbrev static : Key → FilePath → FilterResponse
static k addr = 2

warm-IsCoherent : IsCoherent static warm
unfolding lookup_filter Dict.get
warm-IsCoherent k addr = inl refl

filter_cached-IsCoherent_example :
    IsCoherent static (filter_cached world (text "s3") aws bucket warm).1
    × (((filter_cached world (text "s3") aws bucket warm).0 ≡ ok 2)
        ⊎ ((e : CacheError) × ((filter_cached world (text "s3") aws bucket warm).0 ≡ err e)))
filter_cached-IsCoherent_example =
    filter_cached-IsCoherent static world (text "s3") aws bucket warm 7 cached_connector (inl refl)
      warm-IsCoherent

lookup_after_init :
    lookup_filter key bucket (init_connector world (text "s3") aws warm).1
    ≡ (if (aws, text "s3") == key then none else lookup_filter key bucket warm)
lookup_after_init =
    lookup_filter-init_connector world (text "s3") aws warm key bucket 7 cached_connector
