-- ===== src/ChangeSet/Apply/Rounds.antt =====
-- The rounds of `ChangeSet::apply`: a round executes the report only where it is authorized.
use autoschematic.Prelude.{
  ℕ, suc, ◌≡◌, inl, inr, refl, Bool, true, false, Option, none, some, List, [], ◌∷◌, Text, In,
  list_equality, nat_equality,
}
use autoschematic.Rbac.{
  User, allows_apply_without_approval, allows_apply_with_approval, allows_apply_if_approved_by,
}
use autoschematic.Rbac.Access.{allows_apply_without_approval_iff}
use autoschematic.Outputs.{Json}
use autoschematic.ConnectorCache.{Config, ConnectorDef}
use autoschematic.Workflow.{PlanResponseElement, PlanReport, ApplyReport, Failure, Answer}
use autoschematic.ChangeSet.{
  Command, CheckRun, skipped, Host, Error, Step, ◌>>=◌, done, is_selected, create_check_run,
  approvals_of, approvals, spawn,
}
use autoschematic.ChangeSet.Reviews.{Review, get_pr_approvals}
use autoschematic.ChangeSet.Ensures.{
  Ensures, then-Ensures, done-Ensures, fail-Ensures, create_check_run-Ensures, spawn-Ensures,
}
use autoschematic.ChangeSet.Executed.{unchanged, executed, passing}
use autoschematic.ChangeSet.Apply.{
  check_run, path_text, Progress, execute, reported, run_ops, authorize, run_report, apply_report,
  apply_reports,
}
use autoschematic.ChangeSet.Apply.Authorized.{
  MayRun, IsAuthorized, AreOf, IsFetched, approved-IsAuthorized,
}

module _ {C R : Type 0} (json : Json) (fuel : ℕ) (host : Host C R) (cmd : Command)
    (plans : List PlanReport) where
  abbrev pub Safe : {A : Type 0} → (A → Type 0) → Step C R A → Type 0
  Safe P m = Ensures (passing json fuel host (MayRun host cmd plans)) P m

  abbrev pub then_safe :
      {A B : Type 0} (P : A → Type 0) (Q : B → Type 0) (m : Step C R A) (f : A → Step C R B)
      → Safe P m
      → ((a : A) → P a → Safe Q (f a))
      → Safe Q (m >>= f)
  then_safe P Q m f h k = then-Ensures (passing json fuel host (MayRun host cmd plans)) P Q m f h k

  abbrev pub done_safe : {A : Type 0} (P : A → Type 0) (a : A) → P a → Safe P (done a)
  done_safe P a h = done-Ensures (passing json fuel host (MayRun host cmd plans)) P a h

  abbrev pub Fetched : Progress → Type 0
  Fetched p = IsFetched host p.pr_approvals

  noted :
      (request : CheckRun) (p : Progress)
      → Fetched p
      → Safe Fetched (create_check_run host request >>= (λ n. done p))
  noted request p h =
      then_safe (λ n. Unit) Fetched (create_check_run host request) (λ n. done p)
        (create_check_run-Ensures (passing json fuel host (MayRun host cmd plans)) host request)
        (λ n u. done_safe Fetched p h)

  reported-Safe :
      (n : ℕ) (plan : PlanReport) (d : ConnectorDef) (p : Progress) (a : Answer ApplyReport)
      → Fetched p
      → Safe Fetched (reported json fuel host cmd n plan d p a)
  unfolding reported
  reported-Safe n plan d p (Answer.ok report) h = noted _ _ h
  reported-Safe n plan d p (Answer.err Failure.diverged) h =
      fail-Ensures (passing json fuel host (MayRun host cmd plans)) Fetched Error.diverged
  reported-Safe n plan d p (Answer.err e) h = noted _ _ h

  execute-Safe :
      (c : C) (plan : PlanReport)
      → MayRun host cmd plans plan
      → Safe (λ a. Unit) (execute json fuel host cmd c plan)
  unfolding execute
  execute-Safe c plan may s = ((executed c plan may unchanged, refl), tt)

  run_ops-Safe :
      (c : C) (plan : PlanReport) (d : ConnectorDef) (p : Progress)
      → MayRun host cmd plans plan
      → Fetched p
      → Safe Fetched (run_ops json fuel host cmd c plan d p)
  unfolding run_ops
  run_ops-Safe c plan d p may h = by_ops plan.connector_ops refl
    where
      by_ops :
          (ops : List PlanResponseElement)
          → plan.connector_ops ≡ ops
          → Safe Fetched (run_ops json fuel host cmd c plan d p)
      by_ops [] e = rw (e, run_ops) (noted (check_run none plan d (some skipped)) p h)
      by_ops (o ∷ os) e =
          rw (e, run_ops)
            (then_safe (λ n. Unit) Fetched (create_check_run host (check_run none plan d none))
              (λ n. execute json fuel host cmd c plan >>= reported json fuel host cmd n plan d p)
              (create_check_run-Ensures (passing json fuel host (MayRun host cmd plans)) host
                (check_run none plan d none))
              (λ n u.
                then_safe (λ a. Unit) Fetched (execute json fuel host cmd c plan)
                  (reported json fuel host cmd n plan d p) (execute-Safe c plan may)
                  (λ a v. reported-Safe n plan d p a h)))

  approvals_of-Safe :
      (o : Option (List Review)) → host.list_reviews ≡ o → Safe (AreOf host) (approvals_of host o)
  unfolding approvals_of
  approvals_of-Safe none e =
      fail-Ensures (passing json fuel host (MayRun host cmd plans)) (AreOf host) Error.github_failed
  approvals_of-Safe (some reviews) e =
      done_safe (AreOf host) (get_pr_approvals reviews) (reviews, e, refl)

  approvals-Safe :
      (o : Option (List User)) → IsFetched host o → Safe (AreOf host) (approvals host o)
  unfolding approvals
  approvals-Safe (some users) h = done_safe (AreOf host) users h
  approvals-Safe none h = approvals_of-Safe host.list_reviews refl

  -- A verdict that allows the report.
  abbrev Verdict : PlanReport → ConnectorDef → Bool × Progress → Type 0
  Verdict plan d v =
      (v.0 ≡ true → IsAuthorized host cmd (path_text plan.prefix) d.shortname) × Fetched v.1

  authorize-Safe :
      (plan : PlanReport) (d : ConnectorDef) (p : Progress)
      → Fetched p
      → Safe (Verdict plan d) (authorize json fuel host cmd plan d p)
  unfolding authorize
  authorize-Safe plan d p h = by_grant _ _ refl refl
    where
      by_grant :
          (without with_approval : Bool)
          → allows_apply_without_approval cmd.rbac_config cmd.rbac_user
              (path_text plan.prefix)
              d.shortname
            ≡ without
          → allows_apply_with_approval cmd.rbac_config cmd.rbac_user
              (path_text plan.prefix)
              d.shortname
            ≡ with_approval
          → Safe (Verdict plan d) (authorize json fuel host cmd plan d p)
      by_grant true b e f =
          rw (e, authorize)
            (done_safe (Verdict plan d) (true, p)
              (
                λ u. inl (
                    (allows_apply_without_approval_iff cmd.rbac_config cmd.rbac_user
                        (path_text plan.prefix) d.shortname).0
                      e),
                h,
              ))
      by_grant false false e f =
          rw (e, f, authorize) (done_safe (Verdict plan d) (false, p) ((λ u. cc), h))
      by_grant false true e f =
          rw (e, f, authorize)
            (then_safe (AreOf host) (Verdict plan d) (approvals host p.pr_approvals)
              (λ users. done (
                allows_apply_if_approved_by cmd.rbac_config cmd.rbac_user (path_text plan.prefix)
                    d.shortname users,
                record p { pr_approvals = some users },
              ))
              (approvals-Safe p.pr_approvals h)
              (λ users of.
                done_safe (Verdict plan d)
                  (
                    allows_apply_if_approved_by cmd.rbac_config cmd.rbac_user
                        (path_text plan.prefix) d.shortname users,
                    record p { pr_approvals = some users },
                  )
                  (
                    approved-IsAuthorized host cmd (path_text plan.prefix) d.shortname users of,
                    of,
                  )))

  run_report-Safe :
      (i : ℕ) (config : Config) (plan : PlanReport) (d : ConnectorDef) (v : Bool × Progress)
      → In plan plans
      → plan.connector_def ≡ some d
      → is_selected cmd.connector_filter d.shortname ≡ true
      → Verdict plan d v
      → Safe Fetched (run_report json fuel host cmd i config plan d v)
  unfolding run_report
  run_report-Safe i config plan d (false, p) m e f (a, h) = done_safe Fetched p h
  run_report-Safe i config plan d (true, p) m e f (a, h) = by_error plan.error refl
    where
      by_error :
          (o : Option Text)
          → plan.error ≡ o
          → Safe Fetched (run_report json fuel host cmd i config plan d (true, p))
      by_error (some x) q = rw (q, run_report) (noted (check_run none plan d (some skipped)) p h)
      by_error none q =
          rw (q, run_report)
            (then_safe (λ c. Unit) Fetched (spawn host i config (path_text plan.prefix) d)
              (λ c. run_ops json fuel host cmd c plan d p)
              (spawn-Ensures (passing json fuel host (MayRun host cmd plans)) host i config
                (path_text plan.prefix) d)
              (λ c u. run_ops-Safe c plan d p (m, q, (d, e, f, a refl)) h))

  apply_report-Safe :
      (i : ℕ) (config : Config) (plan : PlanReport) (p : Progress)
      → In plan plans
      → Fetched p
      → Safe Fetched (apply_report json fuel host cmd i config plan p)
  unfolding apply_report
  apply_report-Safe i config plan p m h = by_def plan.connector_def refl
    where
      selected :
          (d : ConnectorDef) (b : Bool)
          → plan.connector_def ≡ some d
          → is_selected cmd.connector_filter d.shortname ≡ b
          → Safe Fetched (apply_report json fuel host cmd i config plan p)
      selected d false e f = rw (e, f, apply_report) (done_safe Fetched p h)
      selected d true e f =
          rw (e, f, apply_report)
            (then_safe (Verdict plan d) Fetched (authorize json fuel host cmd plan d p)
              (run_report json fuel host cmd i config plan d) (authorize-Safe plan d p h)
              (λ v a. run_report-Safe i config plan d v m e f a))

      by_def :
          (o : Option ConnectorDef)
          → plan.connector_def ≡ o
          → Safe Fetched (apply_report json fuel host cmd i config plan p)
      by_def none e = rw (e, apply_report) (done_safe Fetched p h)
      by_def (some d) e = selected d _ e refl

  pub apply_reports-Safe :
      (i : ℕ) (config : Config) (todo : List PlanReport) (p : Progress)
      → ((plan : PlanReport) → In plan todo → In plan plans)
      → Fetched p
      → Safe Fetched (apply_reports json fuel host cmd i config todo p)
  unfolding apply_reports
  apply_reports-Safe i config [] p m h = done_safe Fetched p h
  apply_reports-Safe i config (plan ∷ todo) p m h =
      then_safe Fetched Fetched (apply_report json fuel host cmd i config plan p)
        (apply_reports json fuel host cmd (suc i) config todo)
        (apply_report-Safe i config plan p (m plan (inl refl)) h)
        (λ q k. apply_reports-Safe (suc i) config todo q (λ r j. m r (inr j)) k)
