-- ===== src/ChangeSet/Executed.antt =====
-- What applying may do to the files and to the remote state: it executes plan reports of one kind, one
-- after the other, and nothing else.
use autoschematic.Prelude.{ℕ, ◌≡◌, sym, subst, ◌∙◌, Result, ok, err}
use autoschematic.Outputs.{Json}
use autoschematic.Workflow.{PlanReport, State}
use autoschematic.Workflow.Apply.{apply_connector}
use autoschematic.ChangeSet.{Host, Session, Error, Step, go_on}
use autoschematic.ChangeSet.Ensures.{Frame}

module _ {C R : Type 0} (json : Json) (fuel : ℕ) (host : Host C R)
    (Allowed : PlanReport → Type 0) where
  -- The second state is reached from the first by executing allowed reports, one after the other.
  pub data Executed : State R → State R → Type 0 where
    unchanged : {s : State R} → Executed s s
    executed :
        {s t : State R} (c : C) (plan : PlanReport)
        → Allowed plan
        → Executed (apply_connector json fuel (host.connector c) plan s).1 t
        → Executed s t

  pub Executed-trans : {s t u : State R} → Executed s t → Executed t u → Executed s u
  Executed-trans unchanged e = e
  Executed-trans (executed c plan a d) e = executed c plan a (Executed-trans d e)

  -- From one session to another: allowed reports are executed, and the saved plan stays.
  abbrev pub Passes : Session C R → Session C R → Type 0
  Passes s t = Executed s.files t.files × (t.changeset.last_plan ≡ s.changeset.last_plan)

  abbrev pub passing : Frame C R
  passing = record {
    rel = Passes;
    trans = λ s t u (e, l) (e', l'). (Executed-trans e e', l' ∙ l);
    still = λ s t e l. (subst (λ x. Executed s.files x) (sym e) unchanged, l);
  }

  pub go_on-Executed :
      {A B : Type 0} (f : A → Step C R B) (s : State R) (x : Result Error A × Session C R)
      → Executed s x.1.files
      → ((a : A) (t : Session C R) → Executed t.files (f a t).1.files)
      → Executed s (go_on f x).1.files
  go_on-Executed f s (ok a, t) e k = Executed-trans e (k a t)
  go_on-Executed f s (err x, t) e k = e
