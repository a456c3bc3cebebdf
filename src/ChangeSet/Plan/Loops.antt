-- ===== src/ChangeSet/Plan/Loops.antt =====
-- The loops of `ChangeSet::plan` over prefixes, connectors and changed files, in
-- autoschematic-server/src/changeset/plan.rs.
use autoschematic.Prelude.{
  ℕ, suc, ◌+◌, Bool, true, false, ok, Option, none, some, List, [], ◌∷◌, Text, length,
  list_equality, nat_equality, if◌then◌else◌,
}
use autoschematic.Prelude.Dict.{Dict}
use autoschematic.FilePath.{components, strip_prefix}
use autoschematic.Objects.{Object}
use autoschematic.Outputs.{Json}
use autoschematic.Template.{OutRegex}
use autoschematic.Rbac.{allows_read}
use autoschematic.ConnectorCache.{Config, ConnectorDef, PrefixDef}
use autoschematic.TraceStore.{RepoKey, RunKey}
use autoschematic.ChangeSet.{
  PlanReportSet, Command, Host, Step, ◌>>=◌, done, is_selected, set_last_plan, start, finish,
  get_autoschematic_config, spawn,
}
use autoschematic.ChangeSet.Plan.{Options, Position, empty_set, filtered_objects, plan_object_at}

module _ {C R : Type 0} where
  -- After a round: leave the outer loop, or go on.
  abbrev pub go_round : (PlanReportSet → Step C R Position) → Position → Step C R Position
  go_round next (true, set) = done (true, set)
  go_round next (false, set) = next set

  -- The saved plan is replaced at the end.
  unfoldable pub save_plan : PlanReportSet → Step C R Unit
  save_plan set s = (ok tt, set_last_plan (some set) s)

module _ {C R : Type 0} (json : Json) (fuel : ℕ) (regex : OutRegex) (from_utf8 : Text → Option Text)
    (host : Host C R) (cmd : Command) (options : Options) where
  unfoldable pub plan_object :
      C → ℕ → Text → ConnectorDef → Object → PlanReportSet → Step C R Position
  plan_object c i prefix_name d object set =
      elim (strip_prefix object.filename (components prefix_name)) [
        | none ↦ done (false, set)
        | some virt_addr ↦
            plan_object_at json fuel regex from_utf8 host cmd options c i prefix_name d object
              virt_addr set
      ]

  unfoldable pub plan_objects :
      C → ℕ → Text → ConnectorDef → List Object → PlanReportSet → Step C R Position
  unfolding plan_object
  plan_objects c i prefix_name d [] set = done (false, set)
  plan_objects c i prefix_name d (o ∷ os) set = do
    at ← plan_object c i prefix_name d o set
    go_round (plan_objects c i prefix_name d os) at

  -- The filter of the command and the right to read.
  abbrev pub may_plan : Text → ConnectorDef → Bool
  may_plan prefix_name d =
      if is_selected cmd.connector_filter d.shortname
      then allows_read cmd.rbac_config cmd.rbac_user prefix_name d.shortname
      else false

  unfoldable pub plan_connectors :
      ℕ → Config → Text → List Object → List ConnectorDef → PlanReportSet → Step C R Position
  plan_connectors i config prefix_name objects [] set = done (false, set)
  plan_connectors i config prefix_name objects (d ∷ ds) set =
      if may_plan prefix_name d
      then (do
        c ← spawn host i config prefix_name d
        at ← plan_objects c i prefix_name d objects set
        go_round (plan_connectors (suc i) config prefix_name objects ds) at)
      else plan_connectors (suc i) config prefix_name objects ds set

  -- A prefix is left out where the filter does not name it, or where none of its files is changed.
  unfoldable pub plan_prefix :
      ℕ → Config → List Object → Text → PrefixDef → PlanReportSet → Step C R Position
  unfolding plan_connectors
  plan_prefix i config objects prefix_name prefix set =
      if is_selected options.prefix_filter prefix_name
      then elim (filtered_objects options.subpath prefix_name objects) [
        | [] ↦ done (false, set)
        | o ∷ os ↦ plan_connectors i config prefix_name (o ∷ os) prefix.connectors set
      ]
      else done (false, set)

  unfoldable pub plan_prefixes :
      ℕ → Config → List Object → Dict Text PrefixDef → PlanReportSet → Step C R Position
  unfolding plan_prefix
  plan_prefixes i config objects [] set = done (false, set)
  plan_prefixes i config objects ((prefix_name, prefix) ∷ rest) set = do
    at ← plan_prefix i config objects prefix_name prefix set
    go_round (plan_prefixes (i + length prefix.connectors) config objects rest) at

  unfoldable pub run_plan : RepoKey × RunKey → Config → List Object → Step C R Unit
  unfolding save_plan plan_prefixes
  run_plan handle config objects = do
    at ← plan_prefixes 0 config objects config empty_set
    u ← finish handle
    save_plan at.1

  unfoldable pub plan : Step C R Unit
  unfolding run_plan
  plan = do
    handle ← start cmd "plan"
    config ← get_autoschematic_config host
    (λ s. run_plan handle config s.changeset.objects s)
