-- ===== src/Commands.antt =====
-- The commands that find the connector of a path themselves: `apply` of
-- autoschematic-core/src/workflow/apply.rs, `rename` of autoschematic-core/src/workflow/rename.rs and
-- `check_drift` of autoschematic-core/src/workflow/check_drift.rs.
pub mod Drift
pub mod Rename
use autoschematic.Prelude.{
  ℕ, suc, Bool, true, false, Option, none, some, List, [], ◌∷◌, Text, Result, ok, err, ◌==◌,
  list_equality, nat_equality, if◌then◌else◌,
}
use autoschematic.Prelude.Dict
use autoschematic.FilePath.{FilePath, component_equality, components}
use autoschematic.Disk.{Disk}
use autoschematic.Outputs.{Json}
use autoschematic.ConnectorCache.{
  Answer as Cached, CacheError, Config, ConnectorDef, PrefixDef, World, Cache,
  get_or_spawn_connector, filter_cached,
}
use autoschematic.Workflow.{Answer as Answered, Failure, Connector, PlanReport, ApplyReport, State}
use autoschematic.Workflow.Apply.{apply_connector}
use autoschematic.ChangeSet.{is_selected}
use autoschematic.ChangeSet.Plan.{resource_response}
use autoschematic.ChangeSet.Apply.{path_text}

-- The connectors that are running, the files and the remote state.
pub record Tool (C R : Type 0) : Type 0 where
  pub cache : Cache C
  pub files : State R

pub data CommandError : Type 0 where
  cache_failed : CacheError → CommandError
  connector_failed : Failure → CommandError
  not_in_prefix prefix_changed no_such_prefix : CommandError
  not_present no_phy_address no_output_file output_file_failed copy_failed diverged not_utf8 :
      CommandError

abbrev pub Step : Type 0 → Type 0 → Type 0 → Type 0
Step C R A = Tool C R → Result CommandError A × Tool C R

module _ {C R : Type 0} where
  abbrev pub go_on :
      {A B : Type 0}
      → (A → Step C R B)
      → Result CommandError A × Tool C R
      → Result CommandError B × Tool C R
  go_on f (ok a, s) = f a s
  go_on f (err e, s) = (err e, s)

  infixl 10 ◌>>=◌
  abbrev pub ◌>>=◌ : {A B : Type 0} → Step C R A → (A → Step C R B) → Step C R B
  (m >>= f) s = go_on f (m s)

  abbrev pub done : {A : Type 0} → A → Step C R A
  done a s = (ok a, s)

  abbrev pub fail : {A : Type 0} → CommandError → Step C R A
  fail e s = (err e, s)

  abbrev from_cache :
      {A : Type 0} → Tool C R → Cached A × Cache C → Result CommandError A × Tool C R
  from_cache s (Cached.ok a, cache) = (ok a, record s { cache = cache })
  from_cache s (Cached.err e, cache) = (err (cache_failed e), record s { cache = cache })

  -- An operation of the cache.
  abbrev pub on_cache : {A : Type 0} → (Cache C → Cached A × Cache C) → Step C R A
  on_cache f s = from_cache s (f s.cache)

  abbrev from_files :
      {A : Type 0} → Tool C R → Answered A × State R → Result CommandError A × Tool C R
  from_files s (Answered.ok a, files) = (ok a, record s { files = files })
  from_files s (Answered.err e, files) = (err (connector_failed e), record s { files = files })

  -- A step on the files and the remote state.
  abbrev pub on_files : {A : Type 0} → (State R → Answered A × State R) → Step C R A
  on_files f s = from_files s (f s.files)

module _ {C R : Type 0} (world : ℕ → World C) (connector : C → Connector R) (config : Config) where
  -- The connector, if the address is one of its resources; `i` tells the calls of a command apart.
  unfoldable pub visit : ℕ → Bool → Text → FilePath → ConnectorDef → Step C R (Option C)
  visit i do_init prefix_name virt_addr d = do
    c ← on_cache (get_or_spawn_connector (world i) config prefix_name d do_init)
    response ← on_cache (filter_cached (world i) d.shortname (components prefix_name) virt_addr)
    done (if response == resource_response then some c else none)

  module _ (json : Json) (fuel : ℕ) (connector_filter : Option Text) (plan : PlanReport) where
    applied : Option C → Step C R (Option ApplyReport) → Step C R (Option ApplyReport)
    applied none next = next
    applied (some c) next = do
      report ← on_files (apply_connector json fuel (connector c) plan)
      done (some report)

    -- The first connector whose resource the address is applies the plan.
    unfoldable pub apply_first : ℕ → List ConnectorDef → Step C R (Option ApplyReport)
    unfolding applied
    apply_first i [] = done none
    apply_first i (d ∷ ds) =
        let next = apply_first (suc i) ds in
        if is_selected connector_filter d.shortname
        then (do c ← visit i true (path_text plan.prefix) plan.virt_addr d; applied c next)
        else next

    unfoldable pub apply : Step C R (Option ApplyReport)
    unfolding apply_first
    apply = elim (Dict.get (path_text plan.prefix) config) [
      | none ↦ done none
      | some prefix_def ↦ apply_first 0 prefix_def.connectors
    ]
