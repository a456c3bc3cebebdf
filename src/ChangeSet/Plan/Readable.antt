-- ===== src/ChangeSet/Plan/Readable.antt =====
-- What `ChangeSet::plan` changes, and what its reports are of.
use autoschematic.Prelude.{
  ℕ, ◌≡◌, ◌⊎◌, inl, inr, refl, sym, subst, ◌∙◌, Option, some, List, [], ◌∷◌, Text, Result, ok, err,
  All, Option-cases, list_equality, nat_equality,
}
use autoschematic.Disk.{Disk}
use autoschematic.Objects.{Object}
use autoschematic.Outputs.{Json}
use autoschematic.Template.{OutRegex}
use autoschematic.ConnectorCache.{Config}
use autoschematic.TraceStore.{RepoKey, RunKey}
use autoschematic.Workflow.{PlanReport}
use autoschematic.ChangeSet.{
  PlanReportSet, Command, Host, Session, Error, go_on, ◌>>=◌, start, finish,
  get_autoschematic_config,
}
use autoschematic.ChangeSet.Ensures.{Answers, finish-Ensures}
use autoschematic.ChangeSet.Plan.{Options, Position, empty_set}
use autoschematic.ChangeSet.Plan.Loops.{plan_prefixes, save_plan, run_plan, plan}
use autoschematic.ChangeSet.Plan.Fresh.{reading, IsFresh, FreshAt}
use autoschematic.ChangeSet.Plan.Planned.{IsPlanned, plan_prefixes-Fresh}

-- After a plan that answers with a value the saved plan is one that no command has applied, of reports
-- with a property; after one that fails it is the one before.
abbrev pub IsSaved :
    {C R : Type 0} (P : PlanReport → Type 0) (before : Option PlanReportSet)
    → Result Error Unit × Session C R
    → Type 0
IsSaved P before (ok u, t) =
    (set : PlanReportSet) × (t.changeset.last_plan ≡ some set) × IsFresh P set
IsSaved P before (err e, t) = t.changeset.last_plan ≡ before

module _ {C R : Type 0} (P : PlanReport → Type 0) (disk : Disk)
    (before : Option PlanReportSet) where
  -- A state in which a step may end.
  abbrev Ends : Result Error Unit × Session C R → Type 0
  Ends x = (x.1.files.disk ≡ disk) × IsSaved P before x

  saved-Ends :
      (set : PlanReportSet) (y : Result Error Unit × Session C R)
      → IsFresh P set
      → y.1.files.disk ≡ disk
      → y.1.changeset.last_plan ≡ before
      → Ends (go_on (λ u. save_plan set) y)
  unfolding save_plan
  saved-Ends set (ok u, t) f d l = (d, (set, refl, f))
  saved-Ends set (err e, t) f d l = (d, l)

  rounds-Ends :
      (handle : RepoKey × RunKey) (x : Result Error Position × Session C R)
      → x.1.files.disk ≡ disk
      → x.1.changeset.last_plan ≡ before
      → Answers (FreshAt P) x.0
      → Ends (go_on (λ at. finish handle >>= (λ u. save_plan at.1)) x)
  rounds-Ends handle (ok at, t) d l f =
      let ((e, k), u) = finish-Ensures reading handle t in
      saved-Ends at.1 (finish handle t) f (e ∙ d) (k ∙ l)
  rounds-Ends handle (err e, t) d l f = (d, l)

module _ {C R : Type 0} (json : Json) (fuel : ℕ) (regex : OutRegex) (from_utf8 : Text → Option Text)
    (host : Host C R) (cmd : Command) (options : Options) where
  -- The reports are planned with the configuration that the host answers.
  abbrev pub ByHost : List Object → PlanReport → Type 0
  ByHost objects r =
      (config : Config) × (host.config ≡ some config) × IsPlanned cmd options config objects r

  All-ByHost :
      (objects : List Object) (config : Config) (rs : List PlanReport)
      → host.config ≡ some config
      → All (IsPlanned cmd options config objects) rs
      → All (ByHost objects) rs
  All-ByHost objects config [] e a = tt
  All-ByHost objects config (r ∷ rs) e (p, a) = ((config, e, p), All-ByHost objects config rs e a)

  FreshAt-ByHost :
      (objects : List Object) (config : Config) (x : Result Error Position)
      → host.config ≡ some config
      → Answers (FreshAt (IsPlanned cmd options config objects)) x
      → Answers (FreshAt (ByHost objects)) x
  FreshAt-ByHost objects config (ok at) e (f, a) =
      (f, All-ByHost objects config at.1.plan_reports e a)
  FreshAt-ByHost objects config (err x) e a = tt

  run_plan-Ends :
      (handle : RepoKey × RunKey) (config : Config) (s : Session C R)
      → host.config ≡ some config
      → Ends
          (ByHost s.changeset.objects)
          s.files.disk
          s.changeset.last_plan
          (run_plan json fuel regex from_utf8 host cmd options handle config s.changeset.objects s)
  unfolding run_plan
  run_plan-Ends handle config s e =
      let ((d, l), f) =
        plan_prefixes-Fresh json fuel regex from_utf8 host cmd options config s.changeset.objects 0
          config empty_set (λ x j. j) (refl, tt) s in
      rounds-Ends (ByHost s.changeset.objects) s.files.disk s.changeset.last_plan handle
        (plan_prefixes json fuel regex from_utf8 host cmd options 0 config s.changeset.objects
          config empty_set s)
        d l (FreshAt-ByHost s.changeset.objects config _ e f)

  config-cases :
      (s : Session C R)
      → (get_autoschematic_config host s ≡ (err Error.config_failed, s))
        ⊎ ((config : Config) × (host.config ≡ some config)
            × (get_autoschematic_config host s ≡ (ok config, s)))
  unfolding get_autoschematic_config
  config-cases s = elim (Option-cases host.config) [
    | inl e ↦ inl (rw (e, get_autoschematic_config) refl)
    | inr (config, e) ↦ inr (config, e, rw (e, get_autoschematic_config) refl)
  ]

  -- What follows on the configuration.
  abbrev EndsFrom : RepoKey × RunKey → Session C R → Result Error Config × Session C R → Type 0
  EndsFrom handle s x = Ends (ByHost s.changeset.objects) s.files.disk s.changeset.last_plan (
      go_on
        (λ config t.
          run_plan json fuel regex from_utf8 host cmd options handle config t.changeset.objects t)
        x)

  with_config-Ends :
      (handle : RepoKey × RunKey) (s : Session C R)
      → EndsFrom handle s (get_autoschematic_config host s)
  with_config-Ends handle s = elim (config-cases s) [
    | inl e ↦ subst (EndsFrom handle s) (sym e) (refl, refl)
    | inr (config, f, e) ↦ subst (EndsFrom handle s) (sym e) (run_plan-Ends handle config s f)
  ]

  -- Planning writes no file, whatever it answers. Where it fails, the saved plan is the one before.
  -- Where it does not, the saved plan is a new one that no command has applied, and each report in it
  -- is of a file of the changeset below the path of a prefix of the configuration, at an address that
  -- matches the subpath, and of a connector of that prefix with which the user may read there; the
  -- filters of the command take the prefix and the connector.
  pub plan_lem :
      (s : Session C R)
      → ((plan json fuel regex from_utf8 host cmd options s).1.files.disk ≡ s.files.disk)
        × IsSaved
            (ByHost s.changeset.objects)
            s.changeset.last_plan
            (plan json fuel regex from_utf8 host cmd options s)
  unfolding plan start
  plan_lem s = elim (Option-cases s.tracestore) [
    | inl e ↦ rw (e, plan, start) (refl, refl)
    | inr (store, e) ↦ rw (e, plan, start) (with_config-Ends _ (record s { tracestore = some _ }))
  ]
