-- ===== src/Workflow/Plan/Reported.antt =====
-- The reports of `plan_connector`, described by what the connector answers and what the file holds.
use autoschematic.Prelude.{
  ℕ, ◌≡◌, ◌≢◌, ◌⊎◌, inl, inr, refl, subst, Option, none, some, List, [], ◌∷◌, Text, Option-cases,
}
use autoschematic.FilePath.{FilePath, join}
use autoschematic.Disk.{Disk, file}
use autoschematic.Outputs.{Json, Outcome, bad_json, link_file, diverged}
use autoschematic.Template.{OutRegex, ReadOutput, TemplateResourceResult, template_config}
use autoschematic.ConnectorCache.{ConnectorDef}
use autoschematic.Workflow.{
  VirtToPhyResponse, not_present, deferred, present, null, PlanResponseElement, PlanReport,
  plan_report, Answer, ok, err, Connector, State, Step, go_on, done,
}
use autoschematic.Workflow.Current.{Current, absent, at}
use autoschematic.Workflow.Plan.{
  or_virt, plan_ops, templated, desired_file, desired_state, current_state, plan_at, plan_response,
  plan_connector,
}

module _ {R : Type 0} (json : Json) (fuel : ℕ) (regex : OutRegex) (from_utf8 : Text → Option Text)
    (c : Connector R) (connector_def : ConnectorDef) (prefix virt_addr : FilePath) (d : Disk) where
  -- The text of the file with its template filled in.
  abbrev pub TemplateOf : TemplateResourceResult → Type 0
  TemplateOf t =
      (bytes : Text) × (desired : Text) × (file d (join prefix virt_addr) ≡ some bytes)
      × (from_utf8 bytes ≡ some desired)
      × (template_config json fuel prefix d regex desired ≡ Outcome.ok t)

  -- The desired body: none without a file, the bytes of a file that is no text, and of a text the
  -- template, all outputs of which were found.
  pub data Desired : Option Text → Type 0 where
    no_file : file d (join prefix virt_addr) ≡ none → Desired none
    binary :
        {bytes : Text}
        → file d (join prefix virt_addr) ≡ some bytes
        → from_utf8 bytes ≡ none
        → Desired (some bytes)
    filled : {t : TemplateResourceResult} → TemplateOf t → t.missing ≡ [] → Desired (some t.body)

  abbrev report : List PlanResponseElement → List ReadOutput → PlanReport
  report ops missing = plan_report connector_def prefix virt_addr ops missing

  module _ (r : R) where
    -- The reports that there are: the address waits for outputs, the template does, or the connector
    -- has planned from the current body to the desired one.
    pub data Reported : PlanReport → Type 0 where
      address_waits :
          {reads : List ReadOutput} {r' : R}
          → c.addr_virt_to_phy virt_addr d r ≡ (ok (deferred reads), r')
          → Reported (report [] reads)
      template_waits :
          {phy_addr : Option FilePath} {current : Option Text} {r' : R} {t : TemplateResourceResult}
          → Current c virt_addr d r phy_addr current r'
          → TemplateOf t
          → t.missing ≢ []
          → Reported (report [] t.missing)
      planned :
          {phy_addr : Option FilePath} {current desired : Option Text}
          {ops : List PlanResponseElement} {r' r'' : R}
          → Current c virt_addr d r phy_addr current r'
          → Desired desired
          → c.plan (or_virt virt_addr phy_addr) current desired d r' ≡ (ok ops, r'')
          → Reported (report ops [])

    abbrev IfOk : Answer PlanReport → Type 0
    IfOk (ok x) = Reported x
    IfOk (err e) = Unit

    abbrev at_state : R → State R
    at_state r' = record { disk = d; remote = r' }

    module _ (phy_addr : Option FilePath) (current : Option Text) (r' : R)
        (found : Current c virt_addr d r phy_addr current r') where
      plan_ops-IfOk :
          (desired : Option Text)
          → Desired desired
          → IfOk
              (plan_ops json fuel regex from_utf8 c connector_def prefix virt_addr phy_addr current
                desired
                (at_state r')).0
      plan_ops-IfOk desired h =
          by_answer (c.plan (or_virt virt_addr phy_addr) current desired d r') refl
        where
          by_answer :
              (x : Answer (List PlanResponseElement) × R)
              → c.plan (or_virt virt_addr phy_addr) current desired d r' ≡ x
              → IfOk (go_on (λ ops. done (report ops [])) (x.0, at_state x.1)).0
          by_answer (ok ops, r'') e = planned found h e
          by_answer (err x, r'') e = tt

      templated-IfOk :
          (bytes desired : Text) (o : Outcome TemplateResourceResult)
          → file d (join prefix virt_addr) ≡ some bytes
          → from_utf8 bytes ≡ some desired
          → template_config json fuel prefix d regex desired ≡ o
          → IfOk
              (templated json fuel regex from_utf8 c connector_def prefix virt_addr phy_addr current
                o
                (at_state r')).0
      unfolding templated
      templated-IfOk bytes desired bad_json f u e = tt
      templated-IfOk bytes desired link_file f u e = tt
      templated-IfOk bytes desired diverged f u e = tt
      templated-IfOk bytes desired (Outcome.ok t) f u e = by_missing t.missing refl
        where
          by_missing :
              (missing : List ReadOutput)
              → t.missing ≡ missing
              → IfOk
                  ((elim missing as (λ x. Step R PlanReport) [
                    | [] ↦
                        plan_ops json fuel regex from_utf8 c connector_def prefix virt_addr phy_addr
                          current
                          (some t.body)
                    | r ∷ rs ↦ done (report [] (r ∷ rs))
                  ])
                    (at_state r')).0
          by_missing [] m = plan_ops-IfOk (some t.body) (filled (bytes, desired, f, u, e) m)
          by_missing (q ∷ qs) m =
              subst (λ x. Reported (report [] x)) m
                (template_waits found (bytes, desired, f, u, e) (λ k. cc))

      desired_state-IfOk :
          IfOk
            (desired_state json fuel regex from_utf8 c connector_def prefix virt_addr phy_addr
              current
              (at_state r')).0
      unfolding desired_state desired_file
      desired_state-IfOk = elim (Option-cases (file d (join prefix virt_addr))) [
        | inl e ↦ rw (e, desired_state) (plan_ops-IfOk none (no_file e))
        | inr (bytes, e) ↦ elim (Option-cases (from_utf8 bytes)) [
          | inl u ↦ rw (e, desired_state, u, desired_file) (plan_ops-IfOk (some bytes) (binary e u))
          | inr (desired, u) ↦
              rw (e, desired_state, u, desired_file)
                (templated-IfOk bytes desired (template_config json fuel prefix d regex desired) e u
                  refl)
        ]
      ]

    plan_at-IfOk :
        (phy_addr : FilePath) (r' : R)
        → (c.addr_virt_to_phy virt_addr d r ≡ (ok (present phy_addr), r'))
          ⊎ (c.addr_virt_to_phy virt_addr d r ≡ (ok (null phy_addr), r'))
        → IfOk
            (plan_at json fuel regex from_utf8 c connector_def prefix virt_addr
              (some phy_addr)
              (at_state r')).0
    unfolding plan_at current_state
    plan_at-IfOk phy_addr r' a = by_answer (c.get phy_addr d r') refl
      where
        by_answer :
            (x : Answer (Option Text) × R)
            → c.get phy_addr d r' ≡ x
            → IfOk
                (go_on
                  (desired_state json fuel regex from_utf8 c connector_def prefix virt_addr
                    (some phy_addr))
                  (x.0, at_state x.1)).0
        by_answer (ok body, r'') e = desired_state-IfOk (some phy_addr) body r'' (at a e)
        by_answer (err x, r'') e = tt

    plan_response-IfOk :
        (x : VirtToPhyResponse) (r' : R)
        → c.addr_virt_to_phy virt_addr d r ≡ (ok x, r')
        → IfOk
            (plan_response json fuel regex from_utf8 c connector_def prefix virt_addr x
              (at_state r')).0
    unfolding plan_response plan_at current_state
    plan_response-IfOk not_present r' e = desired_state-IfOk none none r' (absent e)
    plan_response-IfOk (deferred reads) r' e = address_waits e
    plan_response-IfOk (present phy_addr) r' e = plan_at-IfOk phy_addr r' (inl e)
    plan_response-IfOk (null phy_addr) r' e = plan_at-IfOk phy_addr r' (inr e)

    plan_connector-IfOk :
        IfOk
          (plan_connector json fuel regex from_utf8 c connector_def prefix virt_addr (at_state r)).0
    unfolding plan_connector
    plan_connector-IfOk = by_answer (c.addr_virt_to_phy virt_addr d r) refl
      where
        by_answer :
            (x : Answer VirtToPhyResponse × R)
            → c.addr_virt_to_phy virt_addr d r ≡ x
            → IfOk
                (go_on
                  (plan_response json fuel regex from_utf8 c connector_def prefix virt_addr)
                  (x.0, at_state x.1)).0
        by_answer (ok x, r') e = plan_response-IfOk x r' e
        by_answer (err x, r') e = tt

    of_ok : (a : Answer PlanReport) (x : PlanReport) → a ≡ ok x → IfOk a → Reported x
    of_ok (ok y) x e h = subst Reported (same e) h
      where
        same : ◌≡◌ {A = Answer PlanReport} (ok y) (ok x) → y ≡ x
        same e = cc
    of_ok (err f) x e h = absurd (differ e)
      where
        differ : ◌≡◌ {A = Answer PlanReport} (err f) (ok x) → ⊥
        differ e = cc

    -- A report that a plan returns is one of three. The connector waits for outputs to tell the
    -- physical address, and the report lists these with no operation. Or it does not wait, the file is
    -- a text whose template lacks outputs, and the report lists these with no operation. Or it does not
    -- wait and the report lists no missing output; its operations are what the connector plans, at the
    -- physical address if there is one and else at the virtual one, from the current body, had from
    -- that physical address, to the desired one: none without a file, the bytes of a file that is no
    -- text, and of a text the filled template, all outputs of which were found.
    pub plan_connector_lem :
        (x : PlanReport)
        → (plan_connector json fuel regex from_utf8 c connector_def prefix virt_addr (at_state r)).0
          ≡ ok x
        → Reported x
    plan_connector_lem x e = of_ok _ x e plan_connector-IfOk
