-- ===== src/Workflow/Apply/Safety.antt =====
-- Applying writes output files only, and reports every operation that it has executed.
use autoschematic.Prelude.{
  ℕ, ◌≡◌, ◌≢◌, refl, ◌∙◌, Option, none, some, List, [], ◌∷◌, Text, ◌==◌, list_equality,
  nat_equality, inl, inr, Bool-cases,
}
use autoschematic.FilePath.{FilePath, component_equality}
use autoschematic.Disk.{Disk, file}
use autoschematic.Outputs.{
  Json, OutputMapExec, Outcome, ok, bad_json, link_file, diverged, apply_output_map, output_path,
}
use autoschematic.Outputs.Frame.{KeepsIn, apply_output_map_keeps, file-write_link, file-delete}
use autoschematic.Workflow.{
  VirtToPhyResponse, not_present, deferred, present, null, PlanResponseElement, PlanReport,
  ApplyReport, Answer, Connector, State, call,
}
use autoschematic.Workflow.Steps.{Keeps, then-Keeps}
use autoschematic.Workflow.Apply.{
  stored, merge_outputs, link_outputs, delete_phy, drop_outputs, after_merge, store_outputs,
  exec_op, apply_op, apply_ops, apply_connector,
}

module _ {R : Type 0} (json : Json) (fuel : ℕ) (c : Connector R) (plan : PlanReport) (p : FilePath)
    (apart : (addr : FilePath) → output_path plan.prefix addr ≢ p) where
  stored-Keeps :
      (s : State R) (o : Outcome (Option FilePath × Disk))
      → KeepsIn json plan.prefix p apart (λ (x : Option FilePath × Disk). x.1) s.disk o
      → file (stored json fuel c plan s o).1.disk p ≡ file s.disk p
  stored-Keeps s (ok (path, d)) h = h
  stored-Keeps s bad_json h = refl
  stored-Keeps s link_file h = refl
  stored-Keeps s diverged h = refl

  merge_outputs-Keeps : (exec : OutputMapExec) → Keeps p (merge_outputs json fuel c plan exec)
  unfolding merge_outputs
  merge_outputs-Keeps exec s =
      stored-Keeps s (apply_output_map json fuel plan.prefix plan.virt_addr exec s.disk)
        (apply_output_map_keeps json plan.prefix p apart fuel plan.virt_addr exec s.disk)

  link_outputs-Keeps :
      (path : FilePath) (report : ApplyReport) (response : VirtToPhyResponse)
      → Keeps p (link_outputs json fuel c plan path report response)
  unfolding link_outputs
  link_outputs-Keeps path report (present phy_addr) s =
      elim (Bool-cases (phy_addr == plan.virt_addr)) [
        | inl e ↦ rw e refl
        | inr e ↦ rw e (file-write_link json plan.prefix p apart phy_addr plan.virt_addr s.disk)
      ]
  link_outputs-Keeps path report not_present s = refl
  link_outputs-Keeps path report (deferred r) s = refl
  link_outputs-Keeps path report (null a) s = refl

  delete_phy-Keeps : (phy_addr : FilePath) → Keeps p (delete_phy json fuel c plan phy_addr)
  unfolding delete_phy
  delete_phy-Keeps phy_addr s = elim (Bool-cases (phy_addr == plan.virt_addr)) [
    | inl e ↦ rw e refl
    | inr e ↦ rw e (file-delete json plan.prefix p apart phy_addr s.disk)
  ]

  drop_outputs-Keeps :
      (report : ApplyReport) (response : VirtToPhyResponse)
      → Keeps p (drop_outputs json fuel c plan report response)
  unfolding drop_outputs
  drop_outputs-Keeps report (present phy_addr) s =
      then-Keeps p (delete_phy json fuel c plan phy_addr) _ (delete_phy-Keeps phy_addr)
        (λ a t. refl) _
      ∙ file-delete json plan.prefix p apart plan.virt_addr s.disk
  drop_outputs-Keeps report not_present s = refl
  drop_outputs-Keeps report (deferred r) s = refl
  drop_outputs-Keeps report (null a) s = refl

  call-Keeps : {A : Type 0} (m : Disk → R → Answer A × R) → Keeps p (call m)
  call-Keeps m s = refl

  after_merge-Keeps :
      (report : ApplyReport) (path : Option FilePath)
      → Keeps p (after_merge json fuel c plan report path)
  unfolding after_merge
  after_merge-Keeps report (some path) =
      then-Keeps p (call (c.addr_virt_to_phy plan.virt_addr)) _
        (call-Keeps (c.addr_virt_to_phy plan.virt_addr)) (link_outputs-Keeps path report)
  after_merge-Keeps report none =
      then-Keeps p (call (c.addr_virt_to_phy plan.virt_addr)) _
        (call-Keeps (c.addr_virt_to_phy plan.virt_addr)) (drop_outputs-Keeps report)

  store_outputs-Keeps :
      (report : ApplyReport) (o : Option OutputMapExec)
      → Keeps p (store_outputs json fuel c plan report o)
  unfolding store_outputs
  store_outputs-Keeps report none = λ s. refl
  store_outputs-Keeps report (some []) = λ s. refl
  store_outputs-Keeps report (some (e ∷ exec)) =
      then-Keeps p (merge_outputs json fuel c plan (e ∷ exec)) _ (merge_outputs-Keeps (e ∷ exec))
        (after_merge-Keeps report)

  exec_op-Keeps :
      (op : Text) (response : VirtToPhyResponse) → Keeps p (exec_op json fuel c plan op response)
  unfolding exec_op
  exec_op-Keeps op not_present s = refl
  exec_op-Keeps op (deferred r) s = refl
  exec_op-Keeps op (present a) s = refl
  exec_op-Keeps op (null a) s = refl

  apply_op-Keeps :
      (op : PlanResponseElement) (report : ApplyReport)
      → Keeps p (apply_op json fuel c plan op report)
  unfolding apply_op
  apply_op-Keeps op report =
      then-Keeps p (call (c.addr_virt_to_phy plan.virt_addr)) _
        (call-Keeps (c.addr_virt_to_phy plan.virt_addr))
        λ response.
          then-Keeps p (exec_op json fuel c plan op.op_definition response) _
            (exec_op-Keeps op.op_definition response)
            λ output.
              then-Keeps p (store_outputs json fuel c plan _ output.outputs) _
                (store_outputs-Keeps _ output.outputs) (λ r s. refl)

  apply_ops-Keeps :
      (ops : List PlanResponseElement) (report : ApplyReport)
      → Keeps p (apply_ops json fuel c plan ops report)
  unfolding apply_ops
  apply_ops-Keeps [] report = λ s. refl
  apply_ops-Keeps (op ∷ ops) report =
      then-Keeps p (apply_op json fuel c plan op report) _ (apply_op-Keeps op report)
        (apply_ops-Keeps ops)

  -- However an apply ends, and whatever the connector answers, a file that is no output file of the
  -- plan's prefix is as it was before.
  pub file-apply_connector :
      (s : State R) → file (apply_connector json fuel c plan s).1.disk p ≡ file s.disk p
  unfolding apply_connector
  file-apply_connector s = apply_ops-Keeps plan.connector_ops _ s
