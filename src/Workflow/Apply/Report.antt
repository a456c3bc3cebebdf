-- ===== src/Workflow/Apply/Report.antt =====
-- The report of an apply.
use autoschematic.Prelude.{
  ℕ, suc, ◌+◌, ◌≡◌, refl, subst, ◌∙◌, Option, none, some, List, [], ◌∷◌, ◌==◌, list_equality,
  nat_equality, inl, inr, Bool-cases, arith, length, length-append,
}
use autoschematic.FilePath.{FilePath, component_equality}
use autoschematic.Outputs.{Json, OutputMapExec}
use autoschematic.Workflow.{
  VirtToPhyResponse, not_present, deferred, present, null, PlanResponseElement, PlanReport,
  ApplyReport, Connector, State, call,
}
use autoschematic.Workflow.Steps.{Answers, Ensures, then-Ensures, afterwards}
use autoschematic.Workflow.Apply.{
  merge_outputs, link_outputs, delete_phy, drop_outputs, after_merge, store_outputs, exec_op,
  apply_op, apply_ops, apply_connector,
}

-- The report has n responses.
abbrev Responses : ℕ → ApplyReport → Type 0
Responses n r = length r.outputs ≡ n

module _ {R : Type 0} (json : Json) (fuel : ℕ) (c : Connector R) (plan : PlanReport) where
  link_outputs-Responses :
      (n : ℕ) (path : FilePath) (report : ApplyReport) (response : VirtToPhyResponse)
      → Responses n report
      → Ensures (Responses n) (link_outputs json fuel c plan path report response)
  unfolding link_outputs
  link_outputs-Responses n path report (present phy_addr) h s =
      elim (Bool-cases (phy_addr == plan.virt_addr)) [ inl e ↦ rw e h | inr e ↦ rw e h ]
  link_outputs-Responses n path report not_present h s = h
  link_outputs-Responses n path report (deferred r) h s = h
  link_outputs-Responses n path report (null a) h s = h

  drop_outputs-Responses :
      (n : ℕ) (report : ApplyReport) (response : VirtToPhyResponse)
      → Responses n report
      → Ensures (Responses n) (drop_outputs json fuel c plan report response)
  unfolding drop_outputs delete_phy
  drop_outputs-Responses n report (present phy_addr) h s =
      elim (Bool-cases (phy_addr == plan.virt_addr)) [ inl e ↦ rw e h | inr e ↦ rw e h ]
  drop_outputs-Responses n report not_present h s = h
  drop_outputs-Responses n report (deferred r) h s = h
  drop_outputs-Responses n report (null a) h s = h

  after_merge-Responses :
      (n : ℕ) (report : ApplyReport) (path : Option FilePath)
      → Responses n report
      → Ensures (Responses n) (after_merge json fuel c plan report path)
  unfolding after_merge
  after_merge-Responses n report (some path) h =
      afterwards (Responses n) (call (c.addr_virt_to_phy plan.virt_addr)) _
        (λ response. link_outputs-Responses n path report response h)
  after_merge-Responses n report none h =
      afterwards (Responses n) (call (c.addr_virt_to_phy plan.virt_addr)) _
        (λ response. drop_outputs-Responses n report response h)

  store_outputs-Responses :
      (n : ℕ) (report : ApplyReport) (o : Option OutputMapExec)
      → Responses n report
      → Ensures (Responses n) (store_outputs json fuel c plan report o)
  unfolding store_outputs
  store_outputs-Responses n report none h = λ s. h
  store_outputs-Responses n report (some []) h = λ s. h
  store_outputs-Responses n report (some (e ∷ exec)) h =
      afterwards (Responses n) (merge_outputs json fuel c plan (e ∷ exec)) _
        (λ path. after_merge-Responses n report path h)

  apply_op-Responses :
      (n : ℕ) (op : PlanResponseElement) (report : ApplyReport)
      → Responses n report
      → Ensures (Responses (suc n)) (apply_op json fuel c plan op report)
  unfolding apply_op
  apply_op-Responses n op report h =
      afterwards (Responses (suc n)) (call (c.addr_virt_to_phy plan.virt_addr)) _ λ response.
        afterwards (Responses (suc n)) (exec_op json fuel c plan op.op_definition response) _
          λ output.
            then-Ensures (Responses n) (Responses (suc n))
              (store_outputs json fuel c plan _ output.outputs) _
              (store_outputs-Responses n _ output.outputs h)
              (λ r k s. length-append r.outputs (output ∷ []) ∙ omega (arith, k))

  apply_ops-Responses :
      (n : ℕ) (ops : List PlanResponseElement) (report : ApplyReport)
      → Responses n report
      → Ensures (Responses (n + length ops)) (apply_ops json fuel c plan ops report)
  unfolding apply_ops
  apply_ops-Responses n [] report h = λ s. h ∙ omega arith
  apply_ops-Responses n (op ∷ ops) report h =
      then-Ensures (Responses (suc n)) (Responses (n + suc (length ops)))
        (apply_op json fuel c plan op report) _ (apply_op-Responses n op report h)
        (λ r k s. more r s (apply_ops-Responses (suc n) ops r k s))
    where
      shift : suc n + length ops ≡ n + suc (length ops)
      shift = omega arith

      more :
          (r : ApplyReport) (s : State R)
          → Answers (Responses (suc n + length ops)) (apply_ops json fuel c plan ops r s).0
          → Answers (Responses (n + suc (length ops))) (apply_ops json fuel c plan ops r s).0
      more r s a = subst (λ k. Answers (Responses k) (apply_ops json fuel c plan ops r s).0) shift a

  -- Where an apply returns a report, each operation of the plan has one response in it.
  pub length-apply_connector :
      (s : State R)
      → Answers
          (λ report. length report.outputs ≡ length plan.connector_ops)
          (apply_connector json fuel c plan s).0
  unfolding apply_connector
  length-apply_connector s =
      subst (λ n. Answers (Responses n) (apply_connector json fuel c plan s).0) no_more
        (apply_ops-Responses 0 plan.connector_ops _ refl s)
    where
      no_more : 0 + length plan.connector_ops ≡ length plan.connector_ops
      no_more = omega arith
