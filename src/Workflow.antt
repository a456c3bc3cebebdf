-- ===== src/Workflow.antt =====
-- Planning and applying one resource: `plan_connector` of autoschematic-core/src/workflow/plan.rs and
-- `apply_connector` of autoschematic-core/src/workflow/apply.rs. A connector is a parameter: its
-- methods read the files and may change the remote state, whose type is a parameter too.
pub mod Steps
pub mod Current
pub mod Apply
pub mod Plan
use autoschematic.Prelude.{ℕ, Option, none, some, List, [], ◌∷◌, Text}
use autoschematic.FilePath.{FilePath}
use autoschematic.Disk.{Disk}
use autoschematic.Outputs.{OutputMapExec}
use autoschematic.Template.{ReadOutput}
use autoschematic.ConnectorCache.{ConnectorDef}

pub data VirtToPhyResponse : Type 0 where
  not_present : VirtToPhyResponse
  deferred : List ReadOutput → VirtToPhyResponse
  present null : FilePath → VirtToPhyResponse

pub record PlanResponseElement : Type 0 where
  pub op_definition : Text
  pub writes_outputs : List Text
  pub friendly_message : Option Text

pub record OpExecResponse : Type 0 where
  pub outputs : Option OutputMapExec
  pub friendly_message : Option Text

pub record PlanReport : Type 0 where
  pub prefix : FilePath
  pub connector_def : Option ConnectorDef
  pub virt_addr : FilePath
  pub phy_addr : Option FilePath
  pub connector_ops : List PlanResponseElement
  pub reads_outputs : List ReadOutput
  pub missing_outputs : List ReadOutput
  pub error : Option Text

pub record ApplyReport : Type 0 where
  pub connector_shortname : Text
  pub prefix : FilePath
  pub virt_addr : FilePath
  pub phy_addr : Option FilePath
  pub outputs : List OpExecResponse
  pub wrote_files : List FilePath
  pub error : Option Text

-- `ApplyReport::default()`
abbrev pub empty_apply_report : ApplyReport
empty_apply_report = record {
  connector_shortname = [];
  prefix = [];
  virt_addr = [];
  phy_addr = none;
  outputs = [];
  wrote_files = [];
  error = none;
}

-- A report with default values for the fields that `plan_connector` leaves.
abbrev pub plan_report :
    ConnectorDef → FilePath → FilePath → List PlanResponseElement → List ReadOutput → PlanReport
plan_report connector_def prefix virt_addr ops missing = record {
  prefix = prefix;
  connector_def = some connector_def;
  virt_addr = virt_addr;
  phy_addr = none;
  connector_ops = ops;
  reads_outputs = [];
  missing_outputs = missing;
  error = none;
}

pub data Failure : Type 0 where
  connector_failed : Text → Failure
  deferred_in_plan output_file_failed diverged : Failure

pub data Answer (A : Type 0) : Type 0 where
  ok : A → Answer A
  err : Failure → Answer A

-- The connector's methods that these workflows call.
pub record Connector (R : Type 0) : Type 0 where
  pub addr_virt_to_phy : FilePath → Disk → R → Answer VirtToPhyResponse × R
  pub get : FilePath → Disk → R → Answer (Option Text) × R
  pub plan : FilePath → Option Text → Option Text → Disk → R → Answer (List PlanResponseElement) × R
  pub op_exec : FilePath → Text → Disk → R → Answer OpExecResponse × R

pub record State (R : Type 0) : Type 0 where
  pub disk : Disk
  pub remote : R

-- A step may fail; what it has done by then stays.
abbrev pub Step : Type 0 → Type 0 → Type 0
Step R A = State R → Answer A × State R

module _ {R : Type 0} where
  abbrev pub go_on : {A B : Type 0} → (A → Step R B) → Answer A × State R → Answer B × State R
  go_on f (ok a, s) = f a s
  go_on f (err e, s) = (err e, s)

  infixl 10 ◌>>=◌
  abbrev pub ◌>>=◌ : {A B : Type 0} → Step R A → (A → Step R B) → Step R B
  (m >>= f) s = go_on f (m s)

  abbrev pub done : {A : Type 0} → A → Step R A
  done a s = (ok a, s)

  abbrev pub fail : {A : Type 0} → Failure → Step R A
  fail e s = (err e, s)

  -- A call of the connector.
  abbrev pub call : {A : Type 0} → (Disk → R → Answer A × R) → Step R A
  call m s = let (a, r) = m s.disk s.remote in (a, record s { remote = r })

  -- A change of the files.
  abbrev pub on_disk : {A : Type 0} → (Disk → A × Disk) → Step R A
  on_disk f s = let (a, d) = f s.disk in (ok a, record s { disk = d })
