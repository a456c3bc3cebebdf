-- ===== src/Workflow/Plan.antt =====
-- `plan_connector`. The code of `std::str::from_utf8` is a parameter.
pub mod Reported
use autoschematic.Prelude.{
  ℕ, ◌≡◌, ◌⊎◌, inl, inr, refl, ap, ◌∙◌, Bool, true, false, Option, none, some, List, [], ◌∷◌, Text,
}
use autoschematic.FilePath.{FilePath, join}
use autoschematic.Disk.{Disk, file}
use autoschematic.Outputs.{Json, Outcome, diverged}
use autoschematic.Template.{OutRegex, ReadOutput, TemplateResourceResult, template_config}
use autoschematic.ConnectorCache.{ConnectorDef}
use autoschematic.Workflow.{
  VirtToPhyResponse, not_present, deferred, present, null, PlanResponseElement, PlanReport,
  plan_report, Failure, output_file_failed, Answer, ok, err, Connector, State, Step, ◌>>=◌, done,
  fail, call,
}

abbrev or_virt : FilePath → Option FilePath → FilePath
or_virt virt none = virt
or_virt virt (some phy) = phy

module _ {R : Type 0} (json : Json) (fuel : ℕ) (regex : OutRegex) (from_utf8 : Text → Option Text)
    (c : Connector R) (connector_def : ConnectorDef) (prefix virt_addr : FilePath) where
  abbrev report : List PlanResponseElement → List ReadOutput → PlanReport
  report ops missing = plan_report connector_def prefix virt_addr ops missing

  abbrev plan_ops : Option FilePath → Option Text → Option Text → Step R PlanReport
  plan_ops phy_addr current desired = do
    ops ← call (c.plan (or_virt virt_addr phy_addr) current desired)
    done (report ops [])

  -- The result of `template_config`: outputs that are missing stop the plan.
  templated : Option FilePath → Option Text → Outcome TemplateResourceResult → Step R PlanReport
  templated phy_addr current (Outcome.ok t) = elim t.missing [
    | [] ↦ plan_ops phy_addr current (some t.body)
    | r ∷ rs ↦ done (report [] (r ∷ rs))
  ]
  templated phy_addr current diverged = fail Failure.diverged
  templated phy_addr current _ = fail output_file_failed

  desired_file : Option FilePath → Option Text → Text → Step R PlanReport
  desired_file phy_addr current bytes = elim (from_utf8 bytes) [
    | none ↦ plan_ops phy_addr current (some bytes)
    | some desired ↦
        λ s. templated phy_addr current (template_config json fuel prefix s.disk regex desired) s
  ]

  desired_state : Option FilePath → Option Text → Step R PlanReport
  desired_state phy_addr current s = elim (file s.disk (join prefix virt_addr)) [
    | none ↦ plan_ops phy_addr current none s
    | some bytes ↦ desired_file phy_addr current bytes s
  ]

  current_state : Option FilePath → Step R (Option Text)
  current_state none = done none
  current_state (some phy_addr) = call (c.get phy_addr)

  plan_at : Option FilePath → Step R PlanReport
  plan_at phy_addr = do current ← current_state phy_addr; desired_state phy_addr current

  plan_response : VirtToPhyResponse → Step R PlanReport
  plan_response not_present = plan_at none
  plan_response (deferred read_outputs) = done (report [] read_outputs)
  plan_response (present phy_addr) = plan_at (some phy_addr)
  plan_response (null phy_addr) = plan_at (some phy_addr)

  unfoldable pub plan_connector : Step R PlanReport
  unfolding plan_response plan_at current_state desired_state desired_file templated
  plan_connector = do response ← call (c.addr_virt_to_phy virt_addr); plan_response response
