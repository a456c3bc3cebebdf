-- ===== src/Tests/PullRequestTests.antt =====
-- Tests of pull requests: approvals and applying.
use autoschematic.Prelude.{
  ℕ, ◌≡◌, ◌↔◌, refl, Bool, true, false, Option, none, some, List, [], ◌∷◌, Text, text, In, Result,
  ok, err, length, nat_equality, list_equality,
}
use autoschematic.Prelude.Dict
use autoschematic.Rbac.{
  github_user, allows_apply_without_approval, allows_apply_with_approval, allows_read,
  allows_apply_if_approved_by, grants_for_prefix, roles_for_user, role_eq,
}
use autoschematic.FilePath.{strip_prefix, components, join, parent, file_name}
use autoschematic.Outputs.{
  apply_output_map, read_recurse, write_recurse, merge, read, write_link, write, output_path,
  normal_only,
}
use autoschematic.Objects.{Object, added}
use autoschematic.Glob.{addr_matches_filter}
use autoschematic.ConnectorCache.{
  Answer, filter_cached, lookup_filter, ConnectorDef, World, get_or_spawn_connector, connector_env,
  add_env, run_init,
}
use autoschematic.TraceStore.{start_run, finish_run}
use autoschematic.Workflow.{PlanReport, plan_report}
use autoschematic.Workflow.Apply.{apply_connector}
use autoschematic.ChangeSet.{
  PlanReportSet, Host, Session, Command, already_executed, start, finish, create_check_run, git,
  approvals, spawn, get_autoschematic_config,
}
use autoschematic.ChangeSet.Reviews.{
  Review, ReviewState, approved, changes_requested, get_pr_approvals,
}
use autoschematic.ChangeSet.Reviews.Latest.{verdict}
use autoschematic.ChangeSet.Reviews.Approvals.{get_pr_approvals_lem}
use autoschematic.ChangeSet.Plan.{
  Options, resource_response, ask, settle, filter, plan_object_at, filtered_objects,
}
use autoschematic.ChangeSet.Plan.Loops.{plan, plan_objects, plan_connectors, plan_prefixes}
use autoschematic.ChangeSet.Plan.Readable.{IsSaved, ByHost, plan_lem}
use autoschematic.ChangeSet.Executed.{Executed}
use autoschematic.ChangeSet.Apply.{path_text, commit_reports, apply, apply_all}
use autoschematic.ChangeSet.Apply.Authorized.{MayRun}
use autoschematic.ChangeSet.Apply.Safety.{pending, apply_lem}
use autoschematic.ChangeSet.Apply.Ending.{IsUntouched}
use autoschematic.ChangeSet.Apply.Once.{apply_all_lem}
use autoschematic.Tests.Codec.{json, encode_output, decode_output}
use autoschematic.Tests.WorkflowTests.{connector, create, regex, vpc, start as workflow_state}
use autoschematic.Tests.RbacTests.{config as rbac, finn}

abbrev review : Text → ReviewState → ℕ → Review
review login state t = record { user = some login; state = some state; submitted_at = some t }

-- An approval that is taken back, and one that is not.
abbrev reviews : List Review
reviews =
    review (text "finn") changes_requested 3
    ∷ review (text "jake") approved 2
    ∷ review (text "finn") approved 1
    ∷ []

approved_by : get_pr_approvals reviews ≡ github_user (text "jake") ∷ []
unfolding get_pr_approvals Dict.insert
approved_by = refl

get_pr_approvals_lem_example :
    In (github_user (text "jake")) (get_pr_approvals reviews)
    ↔ ((t : ℕ) × (verdict (text "jake") reviews ≡ some (t, approved)))
get_pr_approvals_lem_example = get_pr_approvals_lem reviews (text "jake")

abbrev c1 : ConnectorDef
c1 = record { shortname = text "c1"; env_file = none; env = [] }

abbrev pp : PlanReport
pp = plan_report c1 (components (text "pp")) vpc (create ∷ []) []

abbrev saved : PlanReportSet
saved = record {
  overall_success = true;
  apply_success = false;
  plan_reports = pp ∷ [];
  deferred_count = 0;
  object_count = 1;
  deferred_pending_outputs = [];
}

-- GitHub, git and the one connector answer.
abbrev world : World Unit
world = record {
  read_file = λ f. none;
  spawn = λ key env. Answer.ok tt;
  check_version = λ c. Answer.ok tt;
  init = λ c. none;
  filter = λ c addr. Answer.ok resource_response;
}

abbrev host : Host Unit ℕ
host = record {
  connector = λ c. connector;
  world = λ n. world;
  config = some ((text "pp", record { connectors = c1 ∷ []; env_file = none; env = [] }) ∷ []);
  check_run = λ before request. some 1;
  list_reviews = some reviews;
  git = λ before request. true;
}

abbrev vpc_file : Object
vpc_file = record {
  owner = "acme";
  repo = "infra";
  head_sha = "";
  filename = components (text "pp/vpc.ron");
  diff_status = added;
}

abbrev session : Session Unit ℕ
session = record {
  changeset = record {
    owner = "acme";
    repo = "infra";
    issue_number = 7;
    objects = vpc_file ∷ [];
    connector_cache = record { cache = []; init_status = []; filter_cache = [] };
    last_plan = some saved;
  };
  files = workflow_state;
  check_runs = [];
  git_calls = [];
  tracestore = some [];
}

abbrev by_finn : Command
by_finn = record {
  now = 0;
  channel = 0;
  sender = 0;
  run_id = 0;
  comment_username = "finn";
  comment_url = "";
  connector_filter = none;
  rbac_config = rbac;
  rbac_user = finn;
}

abbrev is_ok : {E A : Type 0} → Result E A → Bool
is_ok (ok a) = true
is_ok (err e) = false

applied : is_ok (apply json 2 host by_finn session).0 ≡ true
unfolding apply start start_run finish finish_run get_autoschematic_config create_check_run git
    approvals get_pr_approvals spawn get_or_spawn_connector connector_env add_env run_init path_text
    allows_apply_without_approval allows_apply_with_approval allows_apply_if_approved_by
    grants_for_prefix roles_for_user role_eq commit_reports apply_connector apply_output_map
    read_recurse write_recurse merge read write_link write output_path normal_only join parent
    file_name components Dict.get Dict.insert Dict.remove encode_output decode_output
applied = refl

apply_lem_example :
    Executed json 2 host
      (MayRun host by_finn (pending session.changeset.last_plan))
      session.files
      (apply json 2 host by_finn session).1.files
apply_lem_example = apply_lem json 2 host by_finn session

ok_of : {E A S : Type 0} (x : Result E A × S) → is_ok x.0 ≡ true → (a : A) × (x ≡ (ok a, x.1))
ok_of (ok a, s) h = (a, refl)
ok_of (err e, s) h = cc

abbrev after : Session Unit ℕ
after = (apply json 2 host by_finn session).1

apply_all_lem_example :
    ((apply json 2 host by_finn (apply_all json 2 host (by_finn ∷ []) after)).0
      ≡ err already_executed)
    × IsUntouched after (apply_all json 2 host (by_finn ∷ []) after)
apply_all_lem_example =
    apply_all_lem json 2 host by_finn session (ok_of (apply json 2 host by_finn session) applied).0
      (apply json 2 host by_finn session).1 (by_finn ∷ []) by_finn
      (ok_of (apply json 2 host by_finn session) applied).1

abbrev everything : Options
everything = record {
  subpath = components (text "./");
  prefix_filter = none;
  continue_on_error = false;
}

-- The one changed file is planned.
abbrev reports_in : Option PlanReportSet → ℕ
reports_in none = 0
reports_in (some set) = length set.plan_reports

planned :
    reports_in
      (plan json 2 regex (λ s. some s) host by_finn everything session).1.changeset.last_plan
    ≡ 1
unfolding plan plan_prefixes plan_connectors plan_objects plan_object_at ask settle filter
    filtered_objects filter_cached lookup_filter addr_matches_filter strip_prefix allows_read start
    start_run finish finish_run get_autoschematic_config create_check_run spawn
    get_or_spawn_connector connector_env add_env run_init grants_for_prefix roles_for_user
    components Dict.get Dict.insert
planned = refl

plan_lem_example :
    ((plan json 2 regex (λ s. some s) host by_finn everything session).1.files.disk
      ≡ session.files.disk)
    × IsSaved
        (ByHost json 2 regex (λ s. some s) host by_finn everything session.changeset.objects)
        session.changeset.last_plan
        (plan json 2 regex (λ s. some s) host by_finn everything session)
plan_lem_example = plan_lem json 2 regex (λ s. some s) host by_finn everything session
