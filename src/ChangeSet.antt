-- ===== src/ChangeSet.antt =====
-- A pull request that the server plans and applies: `ChangeSet` of autoschematic-server/src/changeset.rs
-- with the reports of autoschematic-core/src/report.rs. A `Session` is what a command of the server
-- changes; the answers of GitHub, of git and of the connectors are those of a `Host`.
pub mod Reviews
pub mod Opened
pub mod Ensures
pub mod Executed
pub mod Apply
pub mod Plan
use autoschematic.Prelude.{
  ℕ, Bool, true, false, Option, none, some, List, [], ◌∷◌, ◌++◌, String, Text, Result, ok, err,
  ◌==◌, list_equality, nat_equality,
}
use autoschematic.FilePath.{FilePath}
use autoschematic.Rbac.{User, RbacConfig}
use autoschematic.Template.{ReadOutput}
use autoschematic.Objects.{Object}
use autoschematic.ConnectorCache.{
  Answer, CacheError, Config, ConnectorDef, World, Cache, get_or_spawn_connector,
}
use autoschematic.TraceStore.{Answer as Traced, Store, RepoKey, RunKey, start_run, finish_run}
use autoschematic.Workflow.{Connector, PlanReport, ApplyReport, Failure, State}
use autoschematic.ChangeSet.Reviews.{Review, get_pr_approvals}

pub record PlanReportSet : Type 0 where
  pub overall_success : Bool
  pub apply_success : Bool
  pub plan_reports : List PlanReport
  pub deferred_count : ℕ
  pub object_count : ℕ
  pub deferred_pending_outputs : List ReadOutput

pub record ApplyReportSet : Type 0 where
  pub connector_shortname : Text
  pub prefix : FilePath
  pub virt_addr : FilePath
  pub phy_addr : Option FilePath
  pub overall_success : Bool
  pub apply_reports : List ApplyReport
  pub error : Option Text

-- `ApplyReportSet::default()`
abbrev pub empty_report_set : ApplyReportSet
empty_report_set = record {
  connector_shortname = [];
  prefix = [];
  virt_addr = [];
  phy_addr = none;
  overall_success = false;
  apply_reports = [];
  error = none;
}

-- What the commands read and change; the keys and the handles of GitHub and git are with the host.
pub record ChangeSet (C : Type 0) : Type 0 where
  pub owner : String
  pub repo : String
  pub issue_number : ℕ
  pub objects : List Object
  pub connector_cache : Cache C
  pub last_plan : Option PlanReportSet

pub data Conclusion : Type 0 where
  success failure skipped : Conclusion

-- A request for a check run: a new one has no number, one that is in progress has no conclusion. Its
-- name is made from the connector and the path; its URL is left out.
pub record CheckRun : Type 0 where
  pub check_run_id : Option ℕ
  pub shortname : Text
  pub path : FilePath
  pub conclusion : Option Conclusion

pub data GitCall : Type 0 where
  add : FilePath → GitCall
  commit_and_push : String → String → GitCall

-- What the outside answers; a request comes with the requests before it.
pub record Host (C R : Type 0) : Type 0 where
  pub connector : C → Connector R
  pub world : ℕ → World C
  pub config : Option Config
  pub check_run : List CheckRun → CheckRun → Option ℕ
  pub list_reviews : Option (List Review)
  pub git : List GitCall → GitCall → Bool

pub record Session (C R : Type 0) : Type 0 where
  pub changeset : ChangeSet C
  pub files : State R
  pub check_runs : List CheckRun
  pub git_calls : List GitCall
  pub tracestore : Option Store

-- Who asks, where, and with what filter; the numbers are what the trace store takes as new.
pub record Command : Type 0 where
  pub now : ℕ
  pub channel : ℕ
  pub sender : ℕ
  pub run_id : ℕ
  pub comment_username : String
  pub comment_url : String
  pub connector_filter : Option Text
  pub rbac_config : RbacConfig
  pub rbac_user : User

pub data Error : Type 0 where
  no_saved_plan already_executed no_tracestore trace_failed config_failed : Error
  github_failed git_failed read_failed diverged : Error
  cache_failed : CacheError → Error
  connector_failed : Failure → Error

abbrev pub Step : Type 0 → Type 0 → Type 0 → Type 0
Step C R A = Session C R → Result Error A × Session C R

-- `if let Some(filter) = filter && connector_def.shortname != *filter { continue }`
abbrev pub is_selected : Option Text → Text → Bool
is_selected none shortname = true
is_selected (some f) shortname = shortname == f

module _ {C R : Type 0} where
  abbrev pub go_on :
      {A B : Type 0}
      → (A → Step C R B)
      → Result Error A × Session C R
      → Result Error B × Session C R
  go_on f (ok a, s) = f a s
  go_on f (err e, s) = (err e, s)

  infixl 10 ◌>>=◌
  abbrev pub ◌>>=◌ : {A B : Type 0} → Step C R A → (A → Step C R B) → Step C R B
  (m >>= f) s = go_on f (m s)

  abbrev pub done : {A : Type 0} → A → Step C R A
  done a s = (ok a, s)

  abbrev pub fail : {A : Type 0} → Error → Step C R A
  fail e s = (err e, s)

  abbrev pub set_last_plan : Option PlanReportSet → Session C R → Session C R
  set_last_plan plan s = record s { changeset = record s.changeset { last_plan = plan } }

  abbrev pub set_cache : Cache C → Session C R → Session C R
  set_cache cache s = record s { changeset = record s.changeset { connector_cache = cache } }

  -- `start_run` of changeset/trace.rs
  unfoldable pub start : Command → String → Step C R (RepoKey × RunKey)
  start cmd kind s = elim s.tracestore [
    | none ↦ (err no_tracestore, s)
    | some store ↦
        let (handle, store') =
          start_run cmd.now cmd.channel cmd.sender cmd.run_id s.changeset.owner s.changeset.repo
            s.changeset.issue_number cmd.comment_username cmd.comment_url kind "" store in
        (ok handle, record s { tracestore = some store' })
  ]

  unfoldable pub finished : Session C R → Traced Store → Result Error Unit × Session C R
  finished s (Traced.ok store) = (ok tt, record s { tracestore = some store })
  finished s _ = (err trace_failed, s)

  -- `finish_run` of changeset/trace.rs
  unfoldable pub finish : RepoKey × RunKey → Step C R Unit
  unfolding finished
  finish handle s = elim s.tracestore [
    | none ↦ (err no_tracestore, s)
    | some store ↦ finished s (finish_run handle.0 handle.1 store)
  ]

  unfoldable pub spawn_answer : Session C R → Answer C × Cache C → Result Error C × Session C R
  spawn_answer s (Answer.ok c, cache) = (ok c, set_cache cache s)
  spawn_answer s (Answer.err e, cache) = (err (cache_failed e), set_cache cache s)

module _ {C R : Type 0} (host : Host C R) where
  unfoldable pub get_autoschematic_config : Step C R Config
  get_autoschematic_config s = elim host.config [
    | none ↦ (err config_failed, s)
    | some config ↦ (ok config, s)
  ]

  unfoldable pub create_check_run : CheckRun → Step C R ℕ
  create_check_run request s = elim (host.check_run s.check_runs request) [
    | none ↦ (err github_failed, s)
    | some n ↦ (ok n, record s { check_runs = s.check_runs ++ request ∷ [] })
  ]

  -- `git_add` and `git_commit_and_push`
  unfoldable pub git : GitCall → Step C R Unit
  git request s = elim (host.git s.git_calls request) [
    | false ↦ (err git_failed, s)
    | true ↦ (ok tt, record s { git_calls = s.git_calls ++ request ∷ [] })
  ]

  unfoldable pub approvals_of : Option (List Review) → Step C R (List User)
  approvals_of none = fail github_failed
  approvals_of (some reviews) = done (get_pr_approvals reviews)

  -- The reviews are asked for once in a command.
  unfoldable pub approvals : Option (List User) → Step C R (List User)
  unfolding approvals_of
  approvals (some users) = done users
  approvals none = approvals_of host.list_reviews

  -- The connector of the cache; `n` tells the calls of a command apart.
  unfoldable pub spawn : ℕ → Config → Text → ConnectorDef → Step C R C
  unfolding spawn_answer
  spawn n config prefix_name connector_def s = spawn_answer s (
      get_or_spawn_connector (host.world n) config prefix_name connector_def true
        s.changeset.connector_cache)
