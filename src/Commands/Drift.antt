-- ===== src/Commands/Drift.antt =====
-- `check_drift` of autoschematic-core/src/workflow/check_drift.rs. `Connector::eq` and
-- the code of `std::str::from_utf8` are arguments.
pub mod Verdict
use autoschematic.Prelude.{
  ℕ, suc, Bool, true, false, Option, none, some, List, [], ◌∷◌, Text, Result, ok, err, ◌==◌,
  list_equality, nat_equality, if◌then◌else◌,
}
use autoschematic.Prelude.Dict
use autoschematic.FilePath.{FilePath, component_equality, components, join}
use autoschematic.Disk.{Disk, file}
use autoschematic.ConnectorCache.{Config, ConnectorDef, PrefixDef, World, get_or_spawn_connector}
use autoschematic.Workflow.{
  VirtToPhyResponse, not_present, deferred, present, null, Answer, Connector, call,
}
use autoschematic.ChangeSet.Plan.{resource_response}
use autoschematic.Commands.{
  Step, Tool, CommandError, not_utf8, go_on, ◌>>=◌, done, on_cache, on_files,
}

pub data CheckDriftResult : Type 0 where
  neither_exist invalid_address equal : CheckDriftResult
  not_equal : (current desired : Option Text) → CheckDriftResult

abbrev pub Equality : Type 0 → Type 0
Equality R = FilePath → Text → Text → Disk → R → Answer Bool × R

module _ {C R : Type 0} (c : Connector R) (eq : Equality R) (virt_addr : FilePath) where
  abbrev pub compared : Option Text → Option Text → Step C R CheckDriftResult
  compared none none = done neither_exist
  compared none (some b) = done (not_equal none (some b))
  compared (some a) none = done (not_equal (some a) none)
  compared (some a) (some b) = do
    same ← on_files (call (eq virt_addr a b))
    done (if same then equal else not_equal (some a) (some b))

  abbrev pub current_state : VirtToPhyResponse → Step C R (Option Text)
  current_state not_present = done none
  current_state (deferred reads) = done none
  current_state (present phy_addr) = on_files (call (c.get phy_addr))
  current_state (null addr) = on_files (call (c.get addr))

  unfoldable pub drift_of : Option Text → Step C R CheckDriftResult
  drift_of desired = do
    response ← on_files (call (c.addr_virt_to_phy virt_addr))
    current ← current_state response
    compared current desired

module _ {C R : Type 0} (world : ℕ → World C) (connector : C → Connector R) (eq : C → Equality R)
    (config : Config) (prefix : Text) (virt_addr : FilePath) where
  abbrev pub decided :
      C → Option Text → Step C R CheckDriftResult → Bool → Step C R CheckDriftResult
  decided c desired next true = drift_of (connector c) (eq c) virt_addr desired
  decided c desired next false = next

  -- The first connector whose resource the address is decides; `i` tells the calls apart.
  unfoldable pub check_first : ℕ → Option Text → List ConnectorDef → Step C R CheckDriftResult
  unfolding drift_of
  check_first i desired [] = done invalid_address
  check_first i desired (d ∷ ds) =
      let next = check_first (suc i) desired ds in
      do
        c ← on_cache (get_or_spawn_connector (world i) config prefix d true)
        response ← on_cache (λ cache. ((world i).filter c virt_addr, cache))
        decided c desired next (response == resource_response)

  abbrev pub as_text : Option Text → Result CommandError (Option Text)
  as_text none = err not_utf8
  as_text (some desired) = ok (some desired)

  module _ (from_utf8 : Text → Option Text) where
    -- The file as a text; other files are an error.
    abbrev pub drift_file : Option Text → Result CommandError (Option Text)
    drift_file none = ok none
    drift_file (some bytes) = as_text (from_utf8 bytes)

    abbrev pub check_desired :
        List ConnectorDef → Result CommandError (Option Text) → Step C R CheckDriftResult
    check_desired ds (ok desired) s = check_first 0 desired ds s
    check_desired ds (err e) s = (err e, s)

    unfoldable pub check_drift : Step C R CheckDriftResult
    unfolding check_first
    check_drift s = elim (Dict.get prefix config) [
      | none ↦ (ok invalid_address, s)
      | some prefix_def ↦
          check_desired prefix_def.connectors
            (drift_file (file s.files.disk (join (components prefix) virt_addr))) s
    ]
