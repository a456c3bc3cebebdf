-- ===== src/ChangeSet/Apply.antt =====
-- `ChangeSet::apply` of autoschematic-server/src/changeset/apply.rs. The log lines that a connector
-- sends meanwhile are left out, and a path is text that `to_str` accepts.
pub mod Authorized
pub mod Rounds
pub mod Safety
pub mod Ending
pub mod Once
use autoschematic.Prelude.{
  ℕ, suc, ◌≡◌, Bool, true, false, not, Option, none, some, List, [], ◌∷◌, ◌++◌, Text, text, Result,
  ok, err, String, ◌==◌, list_equality, nat_equality, if◌then◌else◌,
}
use autoschematic.FilePath.{
  Component, drive_prefix, root_dir, cur_dir, parent_dir, normal, FilePath, join,
}
use autoschematic.Rbac.{
  User, allows_apply_without_approval, allows_apply_with_approval, allows_apply_if_approved_by,
}
use autoschematic.Outputs.{Json}
use autoschematic.ConnectorCache.{Config, ConnectorDef}
use autoschematic.TraceStore.{RepoKey, RunKey}
use autoschematic.Workflow.{
  PlanReport, ApplyReport, Failure, deferred_in_plan, output_file_failed, Answer, State,
}
use autoschematic.Workflow.Apply.{apply_connector}
use autoschematic.ChangeSet.{
  PlanReportSet, ApplyReportSet, empty_report_set, Command, CheckRun, Conclusion, success, failure,
  skipped, GitCall, add, commit_and_push, Host, Session, Error, no_saved_plan, already_executed,
  connector_failed, Step, go_on, ◌>>=◌, done, fail, is_selected, set_last_plan, start, finish,
  get_autoschematic_config, create_check_run, git, approvals, spawn,
}

abbrev component_text : Component → Text
component_text (drive_prefix s) = s
component_text root_dir = []
component_text cur_dir = text "."
component_text parent_dir = text ".."
component_text (normal s) = s

-- `Path::to_str`, of a path that is spelled in its normal form.
unfoldable pub path_text : FilePath → Text
path_text [] = []
path_text (root_dir ∷ []) = text "/"
path_text (c ∷ []) = component_text c
path_text (c ∷ p) = component_text c ++ b'/' ∷ path_text p

-- What the loop carries along.
pub record Progress : Type 0 where
  pub pr_approvals : Option (List User)
  pub report_set : ApplyReportSet

abbrev pub no_progress : Progress
no_progress = record { pr_approvals = none; report_set = empty_report_set }

abbrev pub push : ApplyReport → Progress → Progress
push r p = record p {
  report_set = record p.report_set { apply_reports = p.report_set.apply_reports ++ r ∷ [] };
}

abbrev set_failed : Progress → Progress
set_failed p = record p { report_set = record p.report_set { overall_success = false } }

abbrev pub failure_text : Failure → Option Text
failure_text (Failure.connector_failed message) = some message
failure_text deferred_in_plan = some (text "Apply run on plan with deferred outputs.")
failure_text _ = some []

-- The report that the server adds after that of `apply_connector`.
abbrev pub added_report : PlanReport → ConnectorDef → Option FilePath → Option Text → ApplyReport
added_report plan connector_def phy_addr error = record {
  connector_shortname = connector_def.shortname;
  prefix = plan.prefix;
  virt_addr = plan.virt_addr;
  phy_addr = phy_addr;
  outputs = [];
  wrote_files = [];
  error = error;
}

abbrev pub check_run : Option ℕ → PlanReport → ConnectorDef → Option Conclusion → CheckRun
check_run n plan connector_def conclusion = record {
  check_run_id = n;
  shortname = connector_def.shortname;
  path = join plan.prefix plan.virt_addr;
  conclusion = conclusion;
}

-- One `git_add` for each file.
unfoldable pub add_files : {C R : Type 0} → Host C R → List FilePath → Step C R Unit
add_files host [] = done tt
add_files host (p ∷ ps) = do u ← git host (add p); add_files host ps

-- A commit for each report with files.
unfoldable pub commit_reports :
    {C R : Type 0} → Host C R → Command → List ApplyReport → Step C R Unit
unfolding add_files
commit_reports host cmd [] = done tt
commit_reports host cmd (r ∷ rs) = elim r.wrote_files [
  | [] ↦ commit_reports host cmd rs
  | p ∷ ps ↦ do
    u ← add_files host (p ∷ ps)
    v ← git host (commit_and_push cmd.comment_username cmd.comment_url)
    commit_reports host cmd rs
]

abbrev pub applied : PlanReportSet → PlanReportSet
applied plan = record plan { apply_success = true }

-- `plan_report_set.apply_success = true`
unfoldable pub mark_applied : {C R : Type 0} → Step C R Unit
mark_applied s = elim s.changeset.last_plan [
  | none ↦ (ok tt, s)
  | some plan ↦ (ok tt, set_last_plan (some (applied plan)) s)
]

module _ {C R : Type 0} (json : Json) (fuel : ℕ) (host : Host C R) (cmd : Command) where
  -- `apply_connector` on the files and the remote state of the session.
  unfoldable pub execute : C → PlanReport → Step C R (Answer ApplyReport)
  execute c plan s =
      let (answer, files) = apply_connector json fuel (host.connector c) plan s.files in
      (ok answer, record s { files = files })

  unfoldable pub reported :
      ℕ → PlanReport → ConnectorDef → Progress → Answer ApplyReport → Step C R Progress
  reported n plan d p (Answer.ok report) = do
    m ← create_check_run host (check_run (some n) plan d (some success))
    done (push (added_report plan d none none) (push report p))
  reported n plan d p (Answer.err Failure.diverged) = fail Error.diverged
  reported n plan d p (Answer.err e) = do
    m ← create_check_run host (check_run (some n) plan d (some failure))
    done (push (added_report plan d (some []) (failure_text e)) (set_failed p))

  unfoldable pub run_ops : C → PlanReport → ConnectorDef → Progress → Step C R Progress
  unfolding execute reported
  run_ops c plan d p = elim plan.connector_ops [
    | [] ↦ do m ← create_check_run host (check_run none plan d (some skipped)); done p
    | o ∷ os ↦ do
      n ← create_check_run host (check_run none plan d none)
      answer ← execute c plan
      reported n plan d p answer
  ]

  -- May the user apply the report? The reviews are asked for where the answer depends on them.
  unfoldable pub authorize : PlanReport → ConnectorDef → Progress → Step C R (Bool × Progress)
  authorize plan d p =
      if allows_apply_without_approval cmd.rbac_config cmd.rbac_user (path_text plan.prefix)
        d.shortname
      then done (true, p)
      else if not (
          allows_apply_with_approval cmd.rbac_config cmd.rbac_user (path_text plan.prefix)
            d.shortname)
      then done (false, p)
      else (do
        users ← approvals host p.pr_approvals
        done (
          allows_apply_if_approved_by cmd.rbac_config cmd.rbac_user (path_text plan.prefix)
              d.shortname users,
          record p { pr_approvals = some users },
        ))

  -- A report of an error is skipped.
  unfoldable pub run_report :
      ℕ → Config → PlanReport → ConnectorDef → Bool × Progress → Step C R Progress
  unfolding run_ops
  run_report i config plan d (false, p) = done p
  run_report i config plan d (true, p) = elim plan.error [
    | some e ↦ do m ← create_check_run host (check_run none plan d (some skipped)); done p
    | none ↦ do c ← spawn host i config (path_text plan.prefix) d; run_ops c plan d p
  ]

  -- One round of the loop.
  unfoldable pub apply_report : ℕ → Config → PlanReport → Progress → Step C R Progress
  unfolding authorize run_report
  apply_report i config plan p = elim plan.connector_def [
    | none ↦ done p
    | some d ↦
        if is_selected cmd.connector_filter d.shortname
        then (do verdict ← authorize plan d p; run_report i config plan d verdict)
        else done p
  ]

  unfoldable pub apply_reports : ℕ → Config → List PlanReport → Progress → Step C R Progress
  unfolding apply_report
  apply_reports i config [] p = done p
  apply_reports i config (plan ∷ plans) p = do
    p' ← apply_report i config plan p
    apply_reports (suc i) config plans p'

  -- The rounds, and the commits of what they wrote.
  unfoldable pub apply_rounds : Config → List PlanReport → Step C R Progress
  unfolding apply_reports
  apply_rounds config plans = do
    p ← apply_reports 0 config plans no_progress
    u ← commit_reports host cmd p.report_set.apply_reports
    done p

  unfoldable pub apply_plan : RepoKey × RunKey → PlanReportSet → Step C R ApplyReportSet
  unfolding apply_rounds mark_applied
  apply_plan handle plan = do
    config ← get_autoschematic_config host
    p ← apply_rounds config plan.plan_reports
    v ← mark_applied
    w ← finish handle
    done p.report_set

  -- There must be a plan that no command has applied.
  unfoldable pub checked_plan : RepoKey × RunKey → Option PlanReportSet → Step C R ApplyReportSet
  unfolding apply_plan
  checked_plan handle none = fail no_saved_plan
  checked_plan handle (some plan) =
      if plan.apply_success then fail already_executed else apply_plan handle plan

  unfoldable pub apply : Step C R ApplyReportSet
  unfolding checked_plan
  apply = do handle ← start cmd "apply"; (λ s. checked_plan handle s.changeset.last_plan s)

-- Commands to apply one after the other, whatever they answer.
unfoldable pub apply_all :
    {C R : Type 0} → Json → ℕ → Host C R → List Command → Session C R → Session C R
apply_all json fuel host [] s = s
apply_all json fuel host (cmd ∷ cmds) s =
    apply_all json fuel host cmds (apply json fuel host cmd s).1
