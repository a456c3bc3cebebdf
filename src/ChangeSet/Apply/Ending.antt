-- ===== src/ChangeSet/Apply/Ending.antt =====
-- The last steps of `ChangeSet::apply` read backwards: what has happened where it answers with a report.
use autoschematic.Prelude.{
  ◌≡◌, refl, sym, ap, ◌∙◌, true, some, String, Result, ok, err, inl, inr, Option-cases,
}
use autoschematic.TraceStore.{Answer as Traced, Store, RepoKey, RunKey, start_run, finish_run}
use autoschematic.ChangeSet.{
  PlanReportSet, Command, Session, Error, Step, go_on, start, finish, finished,
}
use autoschematic.ChangeSet.Apply.{applied, mark_applied}

module _ {C R : Type 0} where
  -- A command has applied the saved plan, and the server has a trace store.
  abbrev pub IsSpent : Session C R → Type 0
  IsSpent s =
      ((plan : PlanReportSet) × (s.changeset.last_plan ≡ some plan) × (plan.apply_success ≡ true))
      × ((store : Store) × (s.tracestore ≡ some store))

  -- Nothing that a user could notice has changed but the traces.
  abbrev pub IsUntouched : Session C R → Session C R → Type 0
  IsUntouched s t =
      (t.files ≡ s.files)
      × (t.changeset ≡ s.changeset)
      × (t.check_runs ≡ s.check_runs)
      × (t.git_calls ≡ s.git_calls)

  pub IsUntouched-trans :
      (s t u : Session C R) → IsUntouched s t → IsUntouched t u → IsUntouched s u
  IsUntouched-trans s t u (a, b, c, d) (e, f, g, h) = (e ∙ a, f ∙ b, g ∙ c, h ∙ d)

  -- Where a step of two parts has answered with a value, the first one has.
  pub first-ok :
      {A B : Type 0} (f : A → Step C R B) (x : Result Error A × Session C R) (b : B)
      (t : Session C R)
      → go_on f x ≡ (ok b, t)
      → (a : A) × (u : Session C R) × (x ≡ (ok a, u)) × (f a u ≡ (ok b, t))
  first-ok f (ok a, u) b t e = (a, u, refl, e)
  first-ok f (err x, u) b t e = cc

  not_ok :
      {A : Type 0} (P : Type 0) (e : Error) (s : Session C R) (a : A) (t : Session C R)
      → ◌≡◌ {A = Result Error A × Session C R} (err e, s) (ok a, t)
      → P
  not_ok P e s a t q = cc

  finished-ok :
      (s : Session C R) (a : Traced Store) (u : Unit) (t : Session C R)
      → finished s a ≡ (ok u, t)
      → (store : Store) × (t.tracestore ≡ some store)
  unfolding finished
  finished-ok s (Traced.ok store) u t e = (store, sym (ap (λ x. x.1.tracestore) e))
  finished-ok s a u t e = cc

  pub finish-ok :
      (handle : RepoKey × RunKey) (s : Session C R) (u : Unit) (t : Session C R)
      → finish handle s ≡ (ok u, t)
      → (store : Store) × (t.tracestore ≡ some store)
  unfolding finish
  finish-ok handle s u t e = elim (Option-cases s.tracestore) [
    | inl f ↦ not_ok _ Error.no_tracestore s u t (rw (f, finish) at e)
    | inr (store, f) ↦ finished-ok s (finish_run handle.0 handle.1 store) u t (rw (f, finish) at e)
  ]

  pub mark_applied-ok :
      (s : Session C R) (plan : PlanReportSet) (u : Unit) (t : Session C R)
      → s.changeset.last_plan ≡ some plan
      → mark_applied s ≡ (ok u, t)
      → t.changeset.last_plan ≡ some (applied plan)
  unfolding mark_applied
  mark_applied-ok s plan u t h e =
      sym (ap (λ x. x.1.changeset.last_plan) (rw (h, mark_applied) at e))

  pub start-ok :
      (cmd : Command) (s : Session C R) (h : RepoKey × RunKey) (t : Session C R)
      → start cmd "apply" s ≡ (ok h, t)
      → t.changeset.last_plan ≡ s.changeset.last_plan
  unfolding start
  start-ok cmd s h t e = elim (Option-cases s.tracestore) [
    | inl f ↦ not_ok _ Error.no_tracestore s h t (rw (f, start) at e)
    | inr (store, f) ↦ sym (ap (λ x. x.1.changeset.last_plan) (rw (f, start) at e))
  ]

  pub start-present :
      (cmd : Command) (kind : String) (store : Store) (s : Session C R)
      → s.tracestore ≡ some store
      → (handle : RepoKey × RunKey) × (store' : Store) × (start cmd kind s
          ≡ (ok handle, record s { tracestore = some store' }))
  unfolding start
  start-present cmd kind store s f =
      let (handle, store') =
        start_run cmd.now cmd.channel cmd.sender cmd.run_id s.changeset.owner s.changeset.repo
          s.changeset.issue_number cmd.comment_username cmd.comment_url kind "" store in
      (handle, store', rw (f, start) refl)
