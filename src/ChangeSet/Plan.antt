-- ===== src/ChangeSet/Plan.antt =====
-- `ChangeSet::plan` of autoschematic-server/src/changeset/plan.rs. The log lines that a connector sends
-- meanwhile are left out, and the code of `std::fs::read_to_string` that decodes is a parameter.
pub mod Loops
pub mod Fresh
pub mod Rounds
pub mod Planned
pub mod Readable
use autoschematic.Prelude.{
  ℕ, suc, ◌+◌, Bool, true, false, not, Option, none, some, List, [], ◌∷◌, ◌++◌, Text, text, Result,
  ok, err, String, length, ◌==◌, list_equality, nat_equality, if◌then◌else◌,
}
use autoschematic.Prelude.Dict
use autoschematic.FilePath.{FilePath, component_equality, components, strip_prefix}
use autoschematic.Disk.{Disk, file}
use autoschematic.Glob.{addr_matches_filter}
use autoschematic.Objects.{Object}
use autoschematic.Outputs.{Json, Outcome}
use autoschematic.Template.{
  OutRegex, ReadOutput, TemplateResourceResult, add_missing, template_config,
}
use autoschematic.Rbac.{allows_read}
use autoschematic.ConnectorCache.{
  Answer as Cached, Cache, Config, ConnectorDef, PrefixDef, FilterResponse, filter_cached,
}
use autoschematic.TraceStore.{RepoKey, RunKey}
use autoschematic.Workflow.{
  VirtToPhyResponse, not_present, deferred, present, null, PlanResponseElement, PlanReport, Failure,
  Answer, State,
}
use autoschematic.ChangeSet.{
  PlanReportSet, Command, CheckRun, Conclusion, success, failure, skipped, Host, Session, Error,
  connector_failed, cache_failed, Step, go_on, ◌>>=◌, done, fail, is_selected, set_last_plan,
  set_cache, start, finish, get_autoschematic_config, create_check_run, spawn,
}
use autoschematic.ChangeSet.Apply.{path_text, failure_text}

-- What the command says beside what every command says; `subpath` is `./` where it is left out.
pub record Options : Type 0 where
  pub subpath : FilePath
  pub prefix_filter : Option Text
  pub continue_on_error : Bool

-- `FilterResponse::Resource`, the second bit of the mask.
abbrev pub resource_response : FilterResponse
resource_response = 2

abbrev pub empty_set : PlanReportSet
empty_set = record {
  overall_success = true;
  apply_success = false;
  plan_reports = [];
  deferred_count = 0;
  object_count = 0;
  deferred_pending_outputs = [];
}

add_pending : List ReadOutput → List ReadOutput → List ReadOutput
add_pending [] outputs = outputs
add_pending (r ∷ rs) outputs = add_pending rs (add_missing r outputs)

unfoldable pub defer : List ReadOutput → PlanReportSet → PlanReportSet
unfolding add_pending
defer reads set = record set {
  deferred_count = suc set.deferred_count;
  deferred_pending_outputs = add_pending reads set.deferred_pending_outputs;
}

abbrev pub push_report : PlanReport → PlanReportSet → PlanReportSet
push_report r set = record set { plan_reports = set.plan_reports ++ r ∷ [] }

abbrev pub or_virt : FilePath → Option FilePath → FilePath
or_virt virt none = virt
or_virt virt (some phy) = phy

-- The error with the context that `plan` gives it.
abbrev pub plan_error : ConnectorDef → FilePath → Failure → Option Text
plan_error d virt_addr e = elim (failure_text e) [
  | none ↦ none
  | some message ↦
      some (d.shortname ++ text "::plan(" ++ path_text virt_addr ++ text ", _, _): " ++ message)
]

-- The file that is at the address below the prefix.
abbrev pub under : FilePath → Text → Object → Bool
under subpath prefix_name object = elim (strip_prefix object.filename (components prefix_name)) [
  | none ↦ false
  | some virt_addr ↦ addr_matches_filter virt_addr subpath
]

unfoldable pub filtered_objects : FilePath → Text → List Object → List Object
filtered_objects subpath prefix_name [] = []
filtered_objects subpath prefix_name (o ∷ os) =
    let rest = filtered_objects subpath prefix_name os in
    if under subpath prefix_name o then o ∷ rest else rest

-- Where the loops stand: is the outer one left, and the set of reports.
abbrev pub Position : Type 0
Position = Bool × PlanReportSet

module _ {C R : Type 0} (json : Json) (fuel : ℕ) (regex : OutRegex) (from_utf8 : Text → Option Text)
    (host : Host C R) (cmd : Command) (options : Options) where
  -- A call of the connector; what it answers is a value.
  unfoldable pub ask : {A : Type 0} → (Disk → R → Answer A × R) → Step C R (Answer A)
  ask method s =
      let (answer, remote) = method s.files.disk s.files.remote in
      (ok answer, record s { files = record s.files { remote = remote } })

  -- `?`
  unfoldable pub settle : {A : Type 0} → Answer A → Step C R A
  settle (Answer.ok a) = done a
  settle (Answer.err e) = fail (connector_failed e)

  unfoldable pub filter_answer :
      Session C R → Cached FilterResponse × Cache C → Result Error FilterResponse × Session C R
  filter_answer s (Cached.ok r, cache) = (ok r, set_cache cache s)
  filter_answer s (Cached.err e, cache) = (err (cache_failed e), set_cache cache s)

  unfoldable pub filter : ℕ → Text → FilePath → FilePath → Step C R FilterResponse
  unfolding filter_answer
  filter i name prefix addr s =
      filter_answer s (filter_cached (host.world i) name prefix addr s.changeset.connector_cache)

  module _ (c : C) (i : ℕ) (prefix_name : Text) (d : ConnectorDef) (object : Object)
      (virt_addr : FilePath) where
    abbrev pub check_run : Option ℕ → Option Conclusion → CheckRun
    check_run n conclusion = record {
      check_run_id = n;
      shortname = d.shortname;
      path = object.filename;
      conclusion = conclusion;
    }

    abbrev pub report : Option FilePath → List PlanResponseElement → Option Text → PlanReport
    report phy_addr ops error = record {
      prefix = components prefix_name;
      connector_def = some d;
      virt_addr = virt_addr;
      phy_addr = phy_addr;
      connector_ops = ops;
      reads_outputs = [];
      missing_outputs = [];
      error = error;
    }

    -- What the connector plans, as a report; an error may end the loops.
    unfoldable pub planned :
        ℕ → PlanReportSet → Option FilePath → Answer (List PlanResponseElement) → Step C R Position
    planned n set phy_addr (Answer.ok ops) = do
      m ← create_check_run host (check_run (some n) (some success))
      done (false, push_report (report phy_addr ops none) set)
    planned n set phy_addr (Answer.err e) = do
      m ← create_check_run host (check_run (some n) (some failure))
      done (
        not options.continue_on_error,
        push_report (report phy_addr [] (plan_error d virt_addr e))
            (record set { overall_success = false }),
      )

    unfoldable pub plan_with :
        ℕ → PlanReportSet → Option FilePath → Option Text → Option Text → Step C R Position
    unfolding planned
    plan_with n set phy_addr current desired = do
      answer ← ask ((host.connector c).plan (or_virt virt_addr phy_addr) current desired)
      planned n set phy_addr answer

    -- The file with its references filled; with a reference that has no value the plan is deferred.
    unfoldable pub templated :
        ℕ
        → PlanReportSet
        → Option FilePath
        → Option Text
        → Outcome TemplateResourceResult
        → Step C R Position
    unfolding plan_with
    templated n set phy_addr current (Outcome.ok t) = elim t.missing [
      | [] ↦ plan_with n set phy_addr current (some t.body)
      | r ∷ rs ↦ do
        m ← create_check_run host (check_run (some n) (some skipped))
        done (false, defer (r ∷ rs) set)
    ]
    templated n set phy_addr current Outcome.diverged = fail Error.diverged
    templated n set phy_addr current _ = fail (connector_failed Failure.output_file_failed)

    unfoldable pub desired_text :
        ℕ → PlanReportSet → Option FilePath → Option Text → Option Text → Step C R Position
    unfolding templated
    desired_text n set phy_addr current none = fail Error.read_failed
    desired_text n set phy_addr current (some desired) = λ s.
        templated n set phy_addr current
          (template_config json fuel (components prefix_name) s.files.disk regex desired) s

    unfoldable pub desired_file :
        ℕ → PlanReportSet → Option FilePath → Option Text → Option Text → Step C R Position
    unfolding desired_text plan_with
    desired_file n set phy_addr current none = plan_with n set phy_addr current none
    desired_file n set phy_addr current (some bytes) =
        desired_text n set phy_addr current (from_utf8 bytes)

    unfoldable pub desired_state :
        ℕ → PlanReportSet → Option FilePath → Option Text → Step C R Position
    unfolding desired_file
    desired_state n set phy_addr current s =
        desired_file n set phy_addr current (file s.files.disk object.filename) s

    unfoldable pub current_state : Option FilePath → Step C R (Option Text)
    current_state none = done none
    current_state (some phy_addr) = do answer ← ask ((host.connector c).get phy_addr); settle answer

    abbrev pub counted : PlanReportSet → PlanReportSet
    counted set = record set { object_count = suc set.object_count }

    unfoldable pub plan_resource : PlanReportSet → Option FilePath → Bool → Step C R Position
    unfolding current_state desired_state
    plan_resource set phy_addr false = done (false, set)
    plan_resource set phy_addr true = do
      n ← create_check_run host (check_run none none)
      current ← current_state phy_addr
      desired_state n (counted set) phy_addr current

    unfoldable pub filtered : PlanReportSet → Option FilePath → Step C R Position
    unfolding plan_resource
    filtered set phy_addr = do
      response ← filter i d.shortname (components prefix_name) virt_addr
      plan_resource set phy_addr (response == resource_response)

    unfoldable pub plan_response : PlanReportSet → VirtToPhyResponse → Step C R Position
    unfolding filtered
    plan_response set not_present = filtered set none
    plan_response set (deferred reads) = done (false, defer reads set)
    plan_response set (present phy_addr) = filtered set (some phy_addr)
    plan_response set (null phy_addr) = filtered set (some phy_addr)

    unfoldable pub plan_object_at : PlanReportSet → Step C R Position
    unfolding plan_response
    plan_object_at set = do
      answer ← ask ((host.connector c).addr_virt_to_phy virt_addr)
      response ← settle answer
      plan_response set response
