-- ===== src/ChangeSet/Plan/Rounds.antt =====
-- One changed file in `ChangeSet::plan`: no file is written, and a report that is added is one of the
-- file, the prefix and the connector that are looked at.
use autoschematic.Prelude.{
  ℕ, ◌≡◌, refl, Bool, true, false, Option, none, some, List, [], ◌∷◌, Text, nat_equality, ◌==◌,
}
use autoschematic.FilePath.{FilePath, components}
use autoschematic.Disk.{file}
use autoschematic.Objects.{Object}
use autoschematic.Outputs.{Json, Outcome}
use autoschematic.Template.{OutRegex, ReadOutput, TemplateResourceResult, template_config}
use autoschematic.ConnectorCache.{ConnectorDef}
use autoschematic.Workflow.{
  VirtToPhyResponse, not_present, deferred, present, null, PlanResponseElement, PlanReport, Failure,
  Answer,
}
use autoschematic.ChangeSet.{
  PlanReportSet, Command, CheckRun, skipped, Host, Error, connector_failed, Step, ◌>>=◌, done,
  create_check_run,
}
use autoschematic.ChangeSet.Ensures.{
  Ensures, then-Ensures, done-Ensures, fail-Ensures, create_check_run-Ensures,
}
use autoschematic.ChangeSet.Plan.{
  Options, Position, resource_response, defer, push_report, or_virt, plan_error, check_run, report,
  planned, plan_with, templated, desired_text, desired_file, desired_state, current_state, counted,
  plan_resource, filtered, plan_response, plan_object_at,
}
use autoschematic.ChangeSet.Plan.Fresh.{
  reading, All-push, IsFresh, FreshAt, defer-IsFresh, Nothing, ask-Ensures, settle-Ensures,
  filter-Ensures,
}

module _ {C R : Type 0} (json : Json) (fuel : ℕ) (regex : OutRegex) (from_utf8 : Text → Option Text)
    (host : Host C R) (cmd : Command) (options : Options) where
  module _ (c : C) (i : ℕ) (prefix_name : Text) (d : ConnectorDef) (object : Object)
      (virt_addr : FilePath) (P : PlanReport → Type 0)
      (is_planned : (phy_addr : Option FilePath) (ops : List PlanResponseElement)
          (error : Option Text)
        → P (
            report json fuel regex from_utf8 host cmd options c i prefix_name d object virt_addr
              phy_addr ops error)) where
    abbrev Fresh : Step C R Position → Type 0
    Fresh m = Ensures reading (FreshAt P) m

    then-Fresh :
        {A : Type 0} (m : Step C R A) (f : A → Step C R Position)
        → Nothing json fuel regex from_utf8 host cmd options m
        → ((a : A) → Fresh (f a))
        → Fresh (m >>= f)
    then-Fresh m f h k = then-Ensures reading (λ a. Unit) (FreshAt P) m f h (λ a u. k a)

    noted :
        (request : CheckRun) (stop : Bool) (set : PlanReportSet)
        → IsFresh P set
        → Fresh (create_check_run host request >>= (λ m. done (stop, set)))
    noted request stop set h =
        then-Fresh (create_check_run host request) (λ m. done (stop, set))
          (create_check_run-Ensures reading host request)
          (λ m. done-Ensures reading (FreshAt P) (stop, set) h)

    push-Fresh :
        (set : PlanReportSet) (r : PlanReport) → IsFresh P set → P r → IsFresh P (push_report r set)
    push-Fresh set r (a, h) p = (a, All-push P set.plan_reports r h p)

    planned-Fresh :
        (n : ℕ) (set : PlanReportSet) (phy_addr : Option FilePath)
        (a : Answer (List PlanResponseElement))
        → IsFresh P set
        → Fresh (
            planned json fuel regex from_utf8 host cmd options c i prefix_name d object virt_addr n
              set phy_addr a)
    unfolding planned
    planned-Fresh n set phy_addr (Answer.ok ops) h =
        noted _ _ _ (push-Fresh set _ h (is_planned phy_addr ops none))
    planned-Fresh n set phy_addr (Answer.err e) h = noted _ _ _ (
        push-Fresh (record set { overall_success = false }) _ h
          (is_planned phy_addr [] (plan_error d virt_addr e)))

    plan_with-Fresh :
        (n : ℕ) (set : PlanReportSet) (phy_addr : Option FilePath) (current desired : Option Text)
        → IsFresh P set
        → Fresh (
            plan_with json fuel regex from_utf8 host cmd options c i prefix_name d object virt_addr
              n set phy_addr current desired)
    unfolding plan_with
    plan_with-Fresh n set phy_addr current desired h =
        then-Fresh _ _
          (ask-Ensures json fuel regex from_utf8 host cmd options
            ((host.connector c).plan (or_virt virt_addr phy_addr) current desired))
          (λ a. planned-Fresh n set phy_addr a h)

    templated-Fresh :
        (n : ℕ) (set : PlanReportSet) (phy_addr : Option FilePath) (current : Option Text)
        (t : Outcome TemplateResourceResult)
        → IsFresh P set
        → Fresh (
            templated json fuel regex from_utf8 host cmd options c i prefix_name d object virt_addr
              n set phy_addr current t)
    unfolding templated
    templated-Fresh n set phy_addr current (Outcome.ok t) h = by_missing t.missing refl
      where
        by_missing :
            (m : List ReadOutput)
            → t.missing ≡ m
            → Fresh (
                templated json fuel regex from_utf8 host cmd options c i prefix_name d object
                  virt_addr n set phy_addr current
                  (Outcome.ok t))
        by_missing [] e = rw (e, templated) (plan_with-Fresh n set phy_addr current (some t.body) h)
        by_missing (r ∷ rs) e =
            rw (e, templated)
              (noted
                (check_run json fuel regex from_utf8 host cmd options c i prefix_name d object
                  virt_addr (some n) (some skipped))
                false (defer (r ∷ rs) set) (defer-IsFresh P (r ∷ rs) set h))
    templated-Fresh n set phy_addr current Outcome.diverged h =
        fail-Ensures reading {A = Position} (FreshAt P) Error.diverged
    templated-Fresh n set phy_addr current Outcome.bad_json h =
        fail-Ensures reading {A = Position} (FreshAt P)
          (connector_failed Failure.output_file_failed)
    templated-Fresh n set phy_addr current Outcome.link_file h =
        fail-Ensures reading {A = Position} (FreshAt P)
          (connector_failed Failure.output_file_failed)

    desired_text-Fresh :
        (n : ℕ) (set : PlanReportSet) (phy_addr : Option FilePath) (current desired : Option Text)
        → IsFresh P set
        → Fresh (
            desired_text json fuel regex from_utf8 host cmd options c i prefix_name d object
              virt_addr n set phy_addr current desired)
    unfolding desired_text
    desired_text-Fresh n set phy_addr current none h =
        fail-Ensures reading {A = Position} (FreshAt P) Error.read_failed
    desired_text-Fresh n set phy_addr current (some desired) h = λ s.
        templated-Fresh n set phy_addr current
          (template_config json fuel (components prefix_name) s.files.disk regex desired) h s

    desired_file-Fresh :
        (n : ℕ) (set : PlanReportSet) (phy_addr : Option FilePath) (current bytes : Option Text)
        → IsFresh P set
        → Fresh (
            desired_file json fuel regex from_utf8 host cmd options c i prefix_name d object
              virt_addr n set phy_addr current bytes)
    unfolding desired_file
    desired_file-Fresh n set phy_addr current none h = plan_with-Fresh n set phy_addr current none h
    desired_file-Fresh n set phy_addr current (some bytes) h =
        desired_text-Fresh n set phy_addr current (from_utf8 bytes) h

    desired_state-Fresh :
        (n : ℕ) (set : PlanReportSet) (phy_addr : Option FilePath) (current : Option Text)
        → IsFresh P set
        → Fresh (
            desired_state json fuel regex from_utf8 host cmd options c i prefix_name d object
              virt_addr n set phy_addr current)
    unfolding desired_state
    desired_state-Fresh n set phy_addr current h s =
        desired_file-Fresh n set phy_addr current (file s.files.disk object.filename) h s

    current_state-Ensures :
        (phy_addr : Option FilePath)
        → Nothing json fuel regex from_utf8 host cmd options (
            current_state json fuel regex from_utf8 host cmd options c i prefix_name d object
              virt_addr phy_addr)
    unfolding current_state
    current_state-Ensures none = done-Ensures reading {A = Option Text} (λ a. Unit) none tt
    current_state-Ensures (some phy_addr) =
        then-Ensures reading (λ a. Unit) (λ a. Unit) _ _
          (ask-Ensures json fuel regex from_utf8 host cmd options ((host.connector c).get phy_addr))
          (λ a u. settle-Ensures json fuel regex from_utf8 host cmd options a)

    plan_resource-Fresh :
        (set : PlanReportSet) (phy_addr : Option FilePath) (b : Bool)
        → IsFresh P set
        → Fresh (
            plan_resource json fuel regex from_utf8 host cmd options c i prefix_name d object
              virt_addr set phy_addr b)
    unfolding plan_resource
    plan_resource-Fresh set phy_addr false h = done-Ensures reading (FreshAt P) (false, set) h
    plan_resource-Fresh set phy_addr true h =
        then-Fresh _ _
          (create_check_run-Ensures reading host (
            check_run json fuel regex from_utf8 host cmd options c i prefix_name d object virt_addr
              none none))
          (λ n. then-Fresh _ _ (current_state-Ensures phy_addr) (λ current.
            desired_state-Fresh n
              (counted json fuel regex from_utf8 host cmd options c i prefix_name d object virt_addr
                set)
              phy_addr current h))

    filtered-Fresh :
        (set : PlanReportSet) (phy_addr : Option FilePath)
        → IsFresh P set
        → Fresh (
            filtered json fuel regex from_utf8 host cmd options c i prefix_name d object virt_addr
              set phy_addr)
    unfolding filtered
    filtered-Fresh set phy_addr h =
        then-Fresh _ _
          (filter-Ensures json fuel regex from_utf8 host cmd options i d.shortname
            (components prefix_name) virt_addr)
          (λ r. plan_resource-Fresh set phy_addr (r == resource_response) h)

    plan_response-Fresh :
        (set : PlanReportSet) (response : VirtToPhyResponse)
        → IsFresh P set
        → Fresh (
            plan_response json fuel regex from_utf8 host cmd options c i prefix_name d object
              virt_addr set response)
    unfolding plan_response
    plan_response-Fresh set not_present h = filtered-Fresh set none h
    plan_response-Fresh set (deferred reads) h =
        done-Ensures reading (FreshAt P) (false, defer reads set) (defer-IsFresh P reads set h)
    plan_response-Fresh set (present phy_addr) h = filtered-Fresh set (some phy_addr) h
    plan_response-Fresh set (null phy_addr) h = filtered-Fresh set (some phy_addr) h

    pub plan_object_at-Fresh :
        (set : PlanReportSet)
        → IsFresh P set
        → Fresh (
            plan_object_at json fuel regex from_utf8 host cmd options c i prefix_name d object
              virt_addr set)
    unfolding plan_object_at
    plan_object_at-Fresh set h =
        then-Fresh _ _
          (ask-Ensures json fuel regex from_utf8 host cmd options
            ((host.connector c).addr_virt_to_phy virt_addr))
          (λ a.
            then-Fresh _ _ (settle-Ensures json fuel regex from_utf8 host cmd options a)
              (λ response. plan_response-Fresh set response h))
