-- ===== src/ChangeSet/Apply/Safety.antt =====
-- `ChangeSet::apply` executes what the role-based access control allows, and nothing else.
use autoschematic.Prelude.{
  ℕ, ◌≡◌, inl, inr, refl, sym, subst, Bool, true, false, Option, none, some, List, [], ◌∷◌,
  Option-cases, if◌then◌else◌, list_equality, nat_equality,
}
use autoschematic.Outputs.{Json}
use autoschematic.FilePath.{FilePath}
use autoschematic.ConnectorCache.{Config}
use autoschematic.TraceStore.{RepoKey, RunKey}
use autoschematic.Workflow.{PlanReport, ApplyReport}
use autoschematic.ChangeSet.{
  PlanReportSet, ApplyReportSet, Command, GitCall, add, commit_and_push, Host, Session, Step, ◌>>=◌,
  done, fail, already_executed, start, finish, get_autoschematic_config, git,
}
use autoschematic.ChangeSet.Ensures.{Ensures, finish-Ensures, config-Ensures, git-Ensures}
use autoschematic.ChangeSet.Executed.{Executed, unchanged, passing, go_on-Executed}
use autoschematic.ChangeSet.Apply.{
  no_progress, add_files, commit_reports, mark_applied, apply_reports, apply_rounds, apply_plan,
  checked_plan, apply,
}
use autoschematic.ChangeSet.Apply.Authorized.{MayRun}
use autoschematic.ChangeSet.Apply.Rounds.{Safe, then_safe, done_safe, Fetched, apply_reports-Safe}

module _ {C R : Type 0} (json : Json) (fuel : ℕ) (host : Host C R) (cmd : Command)
    (plans : List PlanReport) where
  abbrev Harmless : {A : Type 0} → Step C R A → Type 0
  Harmless {A} m = Ensures (passing json fuel host (MayRun host cmd plans)) (λ (a : A). Unit) m

  git-Safe : (request : GitCall) → Harmless (git host request)
  git-Safe request = git-Ensures (passing json fuel host (MayRun host cmd plans)) host request

  add_files-Safe : (ps : List FilePath) → Harmless (add_files host ps)
  unfolding add_files
  add_files-Safe [] = done_safe json fuel host cmd plans (λ u. Unit) tt tt
  add_files-Safe (p ∷ ps) =
      then_safe json fuel host cmd plans (λ u. Unit) (λ u. Unit) (git host (add p))
        (λ u. add_files host ps) (git-Safe (add p)) (λ u v. add_files-Safe ps)

  commit_reports-Safe : (rs : List ApplyReport) → Harmless (commit_reports host cmd rs)
  unfolding commit_reports
  commit_reports-Safe [] = done_safe json fuel host cmd plans (λ u. Unit) tt tt
  commit_reports-Safe (r ∷ rs) = by_files r.wrote_files refl (commit_reports-Safe rs)
    where
      by_files :
          (ps : List FilePath)
          → r.wrote_files ≡ ps
          → Harmless (commit_reports host cmd rs)
          → Harmless (commit_reports host cmd (r ∷ rs))
      by_files [] e k = rw (e, commit_reports) k
      by_files (p ∷ ps) e k =
          rw (e, commit_reports)
            (then_safe json fuel host cmd plans (λ u. Unit) (λ u. Unit) (add_files host (p ∷ ps))
              (λ u.
                git host (commit_and_push cmd.comment_username cmd.comment_url)
                >>= (λ v. commit_reports host cmd rs))
              (add_files-Safe (p ∷ ps))
              (λ u t.
                then_safe json fuel host cmd plans (λ u. Unit) (λ u. Unit)
                  (git host (commit_and_push cmd.comment_username cmd.comment_url))
                  (λ v. commit_reports host cmd rs)
                  (git-Safe (commit_and_push cmd.comment_username cmd.comment_url)) (λ v w. k)))

  mark_applied-Executed :
      (s : Session C R)
      → Executed json fuel host (MayRun host cmd plans) s.files (mark_applied s).1.files
  unfolding mark_applied
  mark_applied-Executed s = elim (Option-cases s.changeset.last_plan) [
    | inl e ↦ rw (e, mark_applied) unchanged
    | inr (plan, e) ↦ rw (e, mark_applied) unchanged
  ]

  finish-Executed :
      (handle : RepoKey × RunKey) (a : ApplyReportSet) (s : Session C R)
      → Executed json fuel host
          (MayRun host cmd plans)
          s.files
          ((finish handle >>= (λ w. done a)) s).1.files
  finish-Executed handle a s =
      go_on-Executed json fuel host (MayRun host cmd plans) (λ w. done a) s.files (finish handle s)
        (finish-Ensures (passing json fuel host (MayRun host cmd plans)) handle s).0.0
        (λ w t. unchanged)

  -- The rounds and the commits.
  pub apply_rounds-Safe :
      (config : Config)
      → Safe json fuel host cmd plans (λ a. Unit) (apply_rounds json fuel host cmd config plans)
  unfolding apply_rounds
  apply_rounds-Safe config =
      then_safe json fuel host cmd plans (Fetched json fuel host cmd plans) (λ a. Unit)
        (apply_reports json fuel host cmd 0 config plans no_progress)
        (λ p. commit_reports host cmd p.report_set.apply_reports >>= (λ u. done p))
        (apply_reports-Safe json fuel host cmd plans 0 config plans no_progress (λ r i. i) tt)
        (λ p h.
          then_safe json fuel host cmd plans (λ u. Unit) (λ a. Unit)
            (commit_reports host cmd p.report_set.apply_reports) (λ u. done p)
            (commit_reports-Safe p.report_set.apply_reports)
            (λ u v. done_safe json fuel host cmd plans (λ a. Unit) p tt))

  apply_plan-Executed :
      (handle : RepoKey × RunKey) (plan : PlanReportSet) (s : Session C R)
      → plan.plan_reports ≡ plans
      → Executed json fuel host
          (MayRun host cmd plans)
          s.files
          (apply_plan json fuel host cmd handle plan s).1.files
  unfolding apply_plan
  apply_plan-Executed handle plan s e =
      go_on-Executed json fuel host (MayRun host cmd plans) _ s.files
        (get_autoschematic_config host s)
        (config-Ensures (passing json fuel host (MayRun host cmd plans)) host s).0.0
        (λ config t.
          go_on-Executed json fuel host (MayRun host cmd plans) _ t.files
            (apply_rounds json fuel host cmd config plan.plan_reports t)
            (subst
              (λ ps.
                Executed json fuel host (MayRun host cmd plans) t.files
                  (apply_rounds json fuel host cmd config ps t).1.files)
              (sym e) (apply_rounds-Safe config t).0.0)
            (λ p u.
              go_on-Executed json fuel host (MayRun host cmd plans) _ u.files (mark_applied u)
                (mark_applied-Executed u) (λ v w. finish-Executed handle p.report_set w)))

-- The reports that an apply goes through: those of the saved plan, if none has applied it.
abbrev pub pending : Option PlanReportSet → List PlanReport
pending none = []
pending (some plan) = if plan.apply_success then [] else plan.plan_reports

module _ {C R : Type 0} (json : Json) (fuel : ℕ) (host : Host C R) (cmd : Command) where
  checked_plan-Safe :
      (handle : RepoKey × RunKey) (plan : Option PlanReportSet) (s : Session C R)
      → Executed json fuel host
          (MayRun host cmd (pending plan))
          s.files
          (checked_plan json fuel host cmd handle plan s).1.files
  unfolding checked_plan
  checked_plan-Safe handle none s = unchanged
  checked_plan-Safe handle (some plan) s = by_flag plan.apply_success refl
    where
      by_flag :
          (b : Bool)
          → plan.apply_success ≡ b
          → Executed json fuel host
              (MayRun host cmd (pending (some plan)))
              s.files
              (checked_plan json fuel host cmd handle (some plan) s).1.files
      by_flag true e = rw (e, checked_plan) unchanged
      by_flag false e =
          subst
            (λ b.
              Executed json fuel host (MayRun host cmd (if b then [] else plan.plan_reports))
                s.files
                ((if b then fail already_executed else apply_plan json fuel host cmd handle plan)
                  s).1.files)
            (sym e) (apply_plan-Executed json fuel host cmd plan.plan_reports handle plan s refl)

  -- Whatever the answer is, also where an apply stops with an error, the files and the remote state
  -- are reached from those before by executing, one after the other, connectors' plan reports of
  -- which each one is in the saved plan, which no command has applied, has no error, passes the
  -- filter of the command, and is authorized: the user has at the prefix a grant `Apply` that names
  -- the connector, or a grant `ApplyIfApprovedBy` of a role that covers it, where a user holds that
  -- role whose review that counts is an approval.
  pub apply_lem :
      (s : Session C R)
      → Executed json fuel host
          (MayRun host cmd (pending s.changeset.last_plan))
          s.files
          (apply json fuel host cmd s).1.files
  unfolding apply start
  apply_lem s = elim (Option-cases s.tracestore) [
    | inl e ↦ rw (e, apply, start) unchanged
    | inr (store, e) ↦ rw (e, apply, start) (checked_plan-Safe _ s.changeset.last_plan _)
  ]
