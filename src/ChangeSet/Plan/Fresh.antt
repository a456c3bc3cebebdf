-- ===== src/ChangeSet/Plan/Fresh.antt =====
-- Sets of reports in `ChangeSet::plan`, and its calls of a connector: no file is written.
use autoschematic.Prelude.{
  ℕ, ◌≡◌, refl, ap, ◌∙◌, false, Option, List, [], ◌∷◌, ◌++◌, Text, All, nat_equality,
}
use autoschematic.FilePath.{FilePath}
use autoschematic.Disk.{Disk}
use autoschematic.Outputs.{Json}
use autoschematic.Template.{OutRegex, ReadOutput}
use autoschematic.ConnectorCache.{Answer as Cached, Cache, FilterResponse, filter_cached}
use autoschematic.Workflow.{PlanReport, Answer}
use autoschematic.ChangeSet.{PlanReportSet, Command, Host, Session, connector_failed, Step}
use autoschematic.ChangeSet.Ensures.{Frame, Ensures, done-Ensures, fail-Ensures, Answers}
use autoschematic.ChangeSet.Plan.{Options, Position, defer, ask, settle, filter_answer, filter}

-- The files and the saved plan stay; what the connector does to the remote state is its own.
abbrev pub reading : {C R : Type 0} → Frame C R
reading = record {
  rel = λ s t. (t.files.disk ≡ s.files.disk) × (t.changeset.last_plan ≡ s.changeset.last_plan);
  trans = λ s t u (e, l) (e', l'). (e' ∙ e, l' ∙ l);
  still = λ s t e l. (ap (λ x. x.disk) e, l);
}

pub All-push :
    (P : PlanReport → Type 0) (rs : List PlanReport) (r : PlanReport)
    → All P rs
    → P r
    → All P (rs ++ r ∷ [])
All-push P [] r a p = (p, tt)
All-push P (q ∷ qs) r (h, a) p = (h, All-push P qs r a p)

-- A set that no command has applied, of reports with a property.
abbrev pub IsFresh : (PlanReport → Type 0) → PlanReportSet → Type 0
IsFresh P set = (set.apply_success ≡ false) × All P set.plan_reports

-- The same, where the loops stand.
abbrev pub FreshAt : (PlanReport → Type 0) → Position → Type 0
FreshAt P at = IsFresh P at.1

pub defer-IsFresh :
    (P : PlanReport → Type 0) (reads : List ReadOutput) (set : PlanReportSet)
    → IsFresh P set
    → IsFresh P (defer reads set)
unfolding defer
defer-IsFresh P reads set h = h

module _ {C R : Type 0} (json : Json) (fuel : ℕ) (regex : OutRegex) (from_utf8 : Text → Option Text)
    (host : Host C R) (cmd : Command) (options : Options) where
  abbrev pub Nothing : {A : Type 0} → Step C R A → Type 0
  Nothing {A} m = Ensures reading (λ (a : A). Unit) m

  pub ask-Ensures :
      {A : Type 0} (method : Disk → R → Answer A × R)
      → Nothing (ask json fuel regex from_utf8 host cmd options method)
  unfolding ask
  ask-Ensures method s = ((refl, refl), tt)

  pub settle-Ensures :
      {A : Type 0} (a : Answer A) → Nothing (settle json fuel regex from_utf8 host cmd options a)
  unfolding settle
  settle-Ensures {A} (Answer.ok a) = done-Ensures reading (λ x. Unit) a tt
  settle-Ensures {A} (Answer.err e) = fail-Ensures reading {A = A} (λ x. Unit) (connector_failed e)

  filter_answer-Ensures :
      (s : Session C R) (x : Cached FilterResponse × Cache C)
      → reading.rel s (filter_answer json fuel regex from_utf8 host cmd options s x).1
        × Answers (λ r. Unit) (filter_answer json fuel regex from_utf8 host cmd options s x).0
  unfolding filter_answer
  filter_answer-Ensures s (Cached.ok r, cache) = ((refl, refl), tt)
  filter_answer-Ensures s (Cached.err e, cache) = ((refl, refl), tt)

  pub filter-Ensures :
      (i : ℕ) (name : Text) (prefix addr : FilePath)
      → Nothing (filter json fuel regex from_utf8 host cmd options i name prefix addr)
  unfolding filter
  filter-Ensures i name prefix addr s =
      filter_answer-Ensures s
        (filter_cached (host.world i) name prefix addr s.changeset.connector_cache)
