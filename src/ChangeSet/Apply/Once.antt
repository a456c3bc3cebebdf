-- ===== src/ChangeSet/Apply/Once.antt =====
-- A saved plan is applied once: `ChangeSet::apply` marks it, and refuses a plan that is marked.
use autoschematic.Prelude.{
  ℕ, ◌≡◌, refl, sym, ap, subst, ◌∙◌, Bool, true, false, Option, none, some, List, [], ◌∷◌, Result,
  ok, err, if◌then◌else◌,
}
use autoschematic.Outputs.{Json}
use autoschematic.TraceStore.{Store, RepoKey, RunKey}
use autoschematic.ChangeSet.{
  PlanReportSet, ApplyReportSet, Command, Host, Session, Error, already_executed, go_on, fail,
  start, finish, get_autoschematic_config,
}
use autoschematic.ChangeSet.Ensures.{finish-Ensures, config-Ensures}
use autoschematic.ChangeSet.Executed.{passing}
use autoschematic.ChangeSet.Apply.{
  applied, mark_applied, apply_rounds, apply_plan, checked_plan, apply, apply_all,
}
use autoschematic.ChangeSet.Apply.Authorized.{MayRun}
use autoschematic.ChangeSet.Apply.Safety.{apply_rounds-Safe}
use autoschematic.ChangeSet.Apply.Ending.{
  IsSpent, IsUntouched, IsUntouched-trans, first-ok, finish-ok, mark_applied-ok, start-present,
}

module _ {C R : Type 0} (json : Json) (fuel : ℕ) (host : Host C R) where
  apply_plan-IsSpent :
      (cmd : Command) (handle : RepoKey × RunKey) (plan : PlanReportSet) (s : Session C R)
      (r : ApplyReportSet) (t : Session C R)
      → s.changeset.last_plan ≡ some plan
      → apply_plan json fuel host cmd handle plan s ≡ (ok r, t)
      → IsSpent t
  unfolding apply_plan
  apply_plan-IsSpent cmd handle plan s r t l e =
      let may = MayRun host cmd plan.plan_reports in
      let (config, s1, e1, q1) = first-ok _ (get_autoschematic_config host s) r t e in
      let (p, s2, e2, q2) =
        first-ok _ (apply_rounds json fuel host cmd config plan.plan_reports s1) r t q1 in
      let (v, s3, e3, q3) = first-ok _ (mark_applied s2) r t q2 in
      let (w, s4, e4, q4) = first-ok _ (finish handle s3) r t q3 in
      let l1 : s1.changeset.last_plan ≡ some plan =
        sym (ap (λ x. x.1.changeset.last_plan) e1)
        ∙ (config-Ensures (passing json fuel host may) host s).0.1
        ∙ l in
      let l2 : s2.changeset.last_plan ≡ some plan =
        sym (ap (λ x. x.1.changeset.last_plan) e2)
        ∙ (apply_rounds-Safe json fuel host cmd plan.plan_reports config s1).0.1
        ∙ l1 in
      let l3 : s3.changeset.last_plan ≡ some (applied plan) = mark_applied-ok s2 plan v s3 l2 e3 in
      let l4 : s4.changeset.last_plan ≡ some (applied plan) =
        sym (ap (λ x. x.1.changeset.last_plan) e4)
        ∙ (finish-Ensures (passing json fuel host may) handle s3).0.1
        ∙ l3 in
      let same : s4 ≡ t = ap (λ x. x.1) q4 in
      let (store, f) = finish-ok handle s3 w s4 e4 in
      subst IsSpent same ((applied plan, l4, refl), (store, f))

  checked_plan-IsSpent :
      (cmd : Command) (handle : RepoKey × RunKey) (o : Option PlanReportSet) (s : Session C R)
      (r : ApplyReportSet) (t : Session C R)
      → s.changeset.last_plan ≡ o
      → checked_plan json fuel host cmd handle o s ≡ (ok r, t)
      → IsSpent t
  unfolding checked_plan
  checked_plan-IsSpent cmd handle none s r t l e = cc
  checked_plan-IsSpent cmd handle (some plan) s r t l e = by_flag plan.apply_success e
    where
      by_flag :
          (b : Bool)
          → (if b then fail already_executed else apply_plan json fuel host cmd handle plan) s
            ≡ (ok r, t)
          → IsSpent t
      by_flag true q = cc
      by_flag false q = apply_plan-IsSpent cmd handle plan s r t l q

  apply-IsSpent :
      (cmd : Command) (s : Session C R) (r : ApplyReportSet) (t : Session C R)
      → apply json fuel host cmd s ≡ (ok r, t)
      → IsSpent t
  unfolding apply
  apply-IsSpent cmd s r t e =
      let (handle, s1, e1, q1) = first-ok _ (start cmd "apply" s) r t e in
      checked_plan-IsSpent cmd handle s1.changeset.last_plan s1 r t refl q1

  checked_plan-refused :
      (cmd : Command) (handle : RepoKey × RunKey) (plan : PlanReportSet) (s : Session C R)
      → plan.apply_success ≡ true
      → checked_plan json fuel host cmd handle (some plan) s ≡ (err already_executed, s)
  unfolding checked_plan
  checked_plan-refused cmd handle plan s a =
      subst
        (λ b.
          ◌≡◌ {A = Result Error ApplyReportSet × Session C R}
            ((if b then fail already_executed else apply_plan json fuel host cmd handle plan) s)
            (err already_executed, s))
        (sym a) refl

  apply-refused :
      (cmd : Command) (plan : PlanReportSet) (store : Store) (s : Session C R)
      → s.changeset.last_plan ≡ some plan
      → plan.apply_success ≡ true
      → s.tracestore ≡ some store
      → (store' : Store) × (apply json fuel host cmd s
          ≡ (err already_executed, record s { tracestore = some store' }))
  unfolding apply
  apply-refused cmd plan store s l a f =
      let (handle, store', e) = start-present cmd "apply" store s f in
      (
        store',
        ap (go_on (λ h t. checked_plan json fuel host cmd h t.changeset.last_plan t)) e
            ∙ ap
                (λ o.
                  checked_plan json fuel host cmd handle o (record s { tracestore = some store' }))
                l
            ∙ checked_plan-refused cmd handle plan (record s { tracestore = some store' }) a,
      )

  -- A plan that is spent is refused, and stays spent.
  IsSpent-refused :
      (cmd : Command) (s : Session C R)
      → IsSpent s
      → ((apply json fuel host cmd s).0 ≡ err already_executed)
        × IsSpent (apply json fuel host cmd s).1
        × IsUntouched s (apply json fuel host cmd s).1
  IsSpent-refused cmd s ((plan, l, a), (store, f)) =
      let (store', e) = apply-refused cmd plan store s l a f in
      (
        ap (λ x. x.0) e,
        subst (λ x. IsSpent x.1) (sym e) ((plan, l, a), (store', refl)),
        subst (λ x. IsUntouched s x.1) (sym e) (refl, refl, refl, refl),
      )

  all_refused :
      (cmds : List Command) (s : Session C R)
      → IsSpent s
      → IsSpent (apply_all json fuel host cmds s) × IsUntouched s (apply_all json fuel host cmds s)
  unfolding apply_all
  all_refused [] s h = (h, (refl, refl, refl, refl))
  all_refused (cmd ∷ cmds) s h =
      let (e, spent, same) = IsSpent-refused cmd s h in
      let (spent', same') = all_refused cmds (apply json fuel host cmd s).1 spent in
      (
        spent',
        IsUntouched-trans s (apply json fuel host cmd s).1 (apply_all json fuel host (cmd ∷ cmds) s)
            same same',
      )

  -- After an apply that has answered with a report, whatever commands to apply follow, of whatever
  -- users: each one is refused with the error that the plan is executed, and they change neither the
  -- files and the remote state nor the changeset, and make no check run and no call of git.
  pub apply_all_lem :
      (cmd : Command) (s : Session C R) (r : ApplyReportSet) (t : Session C R) (cmds : List Command)
      (next : Command)
      → apply json fuel host cmd s ≡ (ok r, t)
      → ((apply json fuel host next (apply_all json fuel host cmds t)).0 ≡ err already_executed)
        × IsUntouched t (apply_all json fuel host cmds t)
  apply_all_lem cmd s r t cmds next e =
      let (spent, same) = all_refused cmds t (apply-IsSpent cmd s r t e) in
      ((IsSpent-refused next (apply_all json fuel host cmds t) spent).0, same)
