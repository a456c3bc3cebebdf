-- ===== src/Workflow/Apply.antt =====
-- `apply_connector`.
pub mod Safety
pub mod Report
use autoschematic.Prelude.{
  ℕ, Bool, true, false, not, Option, none, some, List, [], ◌∷◌, ◌++◌, Text, ◌==◌, list_equality,
  nat_equality, if◌then◌else◌,
}
use autoschematic.FilePath.{FilePath, component_equality}
use autoschematic.Disk.{Disk}
use autoschematic.Outputs.{
  Json, OutputMapExec, Outcome, ok, diverged, apply_output_map, write_link, delete,
}
use autoschematic.Workflow.{
  VirtToPhyResponse, not_present, deferred, present, null, PlanResponseElement, OpExecResponse,
  PlanReport, ApplyReport, empty_apply_report, Failure, deferred_in_plan, output_file_failed,
  Answer, ok, err, Connector, State, Step, ◌>>=◌, done, fail, call, on_disk,
}

abbrev pub wrote : List FilePath → ApplyReport → ApplyReport
wrote paths r = record r { wrote_files = r.wrote_files ++ paths }

abbrev pub optional : Option FilePath → List FilePath
optional none = []
optional (some p) = p ∷ []

module _ {R : Type 0} (json : Json) (fuel : ℕ) (c : Connector R) (plan : PlanReport) where
  abbrev stored : State R → Outcome (Option FilePath × Disk) → Answer (Option FilePath) × State R
  stored s (Outcome.ok (path, d)) = (Answer.ok path, record s { disk = d })
  stored s diverged = (err Failure.diverged, s)
  stored s _ = (err output_file_failed, s)

  merge_outputs : OutputMapExec → Step R (Option FilePath)
  merge_outputs exec s =
      stored s (apply_output_map json fuel plan.prefix plan.virt_addr exec s.disk)

  -- The output file was written: link the physical address to it.
  link_outputs : FilePath → ApplyReport → VirtToPhyResponse → Step R ApplyReport
  link_outputs virt_output_path report (present phy_addr) =
      if phy_addr == plan.virt_addr then done (wrote (virt_output_path ∷ []) report) else (do
        phy_output_path ← on_disk (write_link json plan.prefix phy_addr plan.virt_addr)
        done (wrote (phy_output_path ∷ virt_output_path ∷ []) report))
  link_outputs virt_output_path report _ = done (wrote (virt_output_path ∷ []) report)

  delete_phy : FilePath → Step R (Option FilePath)
  delete_phy phy_addr =
      if phy_addr == plan.virt_addr then done none else on_disk (delete plan.prefix phy_addr)

  -- No output is left: delete the output files, but only where there is a physical address.
  drop_outputs : ApplyReport → VirtToPhyResponse → Step R ApplyReport
  drop_outputs report (present phy_addr) = do
    virt_output_path ← on_disk (delete plan.prefix plan.virt_addr)
    phy_output_path ← delete_phy phy_addr
    done (wrote (optional virt_output_path ++ optional phy_output_path) report)
  drop_outputs report _ = done report

  after_merge : ApplyReport → Option FilePath → Step R ApplyReport
  after_merge report (some virt_output_path) = do
    response ← call (c.addr_virt_to_phy plan.virt_addr)
    link_outputs virt_output_path report response
  after_merge report none = do
    response ← call (c.addr_virt_to_phy plan.virt_addr)
    drop_outputs report response

  store_outputs : ApplyReport → Option OutputMapExec → Step R ApplyReport
  store_outputs report (some (e ∷ exec)) = do
    path ← merge_outputs (e ∷ exec)
    after_merge report path
  store_outputs report _ = done report

  -- The operation is executed at the physical address, if there is one.
  exec_op : Text → VirtToPhyResponse → Step R OpExecResponse
  exec_op op not_present = call (c.op_exec plan.virt_addr op)
  exec_op op (deferred _) = fail deferred_in_plan
  exec_op op (present phy_addr) = call (c.op_exec phy_addr op)
  exec_op op (null phy_addr) = call (c.op_exec phy_addr op)

  -- One round of the loop.
  apply_op : PlanResponseElement → ApplyReport → Step R ApplyReport
  apply_op op report = do
    response ← call (c.addr_virt_to_phy plan.virt_addr)
    output ← exec_op op.op_definition response
    stored_report ←
        store_outputs (record report { prefix = plan.prefix; virt_addr = plan.virt_addr })
          output.outputs
    done (record stored_report { outputs = stored_report.outputs ++ output ∷ [] })

  apply_ops : List PlanResponseElement → ApplyReport → Step R ApplyReport
  apply_ops [] report = done report
  apply_ops (op ∷ ops) report = do report' ← apply_op op report; apply_ops ops report'

  unfoldable pub apply_connector : Step R ApplyReport
  unfolding apply_ops apply_op exec_op store_outputs after_merge drop_outputs delete_phy
      link_outputs merge_outputs
  apply_connector = apply_ops plan.connector_ops empty_apply_report
