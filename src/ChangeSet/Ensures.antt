-- ===== src/ChangeSet/Ensures.antt =====
-- Reasoning on the steps of a command: what a step ensures of its answer, and how the session before it
-- and after it are related.
use autoschematic.Prelude.{
  ℕ, ◌≡◌, inl, inr, refl, true, String, Text, Result, ok, err, Bool-cases, Option-cases,
}
use autoschematic.ConnectorCache.{
  Answer as Found, Cache, Config, ConnectorDef, get_or_spawn_connector,
}
use autoschematic.TraceStore.{Answer as Traced, Store, RepoKey, RunKey, finish_run}
use autoschematic.ChangeSet.{
  Command, CheckRun, GitCall, Host, Session, Error, Step, go_on, ◌>>=◌, done, fail, start, finish,
  get_autoschematic_config, create_check_run, git, spawn, spawn_answer, finished,
}

-- Where an answer is a value, the value has the property.
abbrev pub Answers : {A : Type 0} → (A → Type 0) → Result Error A → Type 0
Answers P (ok a) = P a
Answers P (err e) = Unit

anything : {A : Type 0} (a : Result Error A) → Answers (λ (x : A). Unit) a
anything (ok a) = tt
anything (err e) = tt

-- A relation of sessions that holds of steps one after the other, and of those that leave the files, the
-- remote state and the saved plan as they are.
pub record Frame (C R : Type 0) : Type 1 where
  pub rel : Session C R → Session C R → Type 0
  pub trans : (s t u : Session C R) → rel s t → rel t u → rel s u
  pub still :
      (s t : Session C R)
      → t.files ≡ s.files
      → t.changeset.last_plan ≡ s.changeset.last_plan
      → rel s t

module _ {C R : Type 0} where
  -- A step that leaves the files and the remote state as they are.
  abbrev pub Leaves : {A : Type 0} → Step C R A → Type 0
  Leaves m =
      (s : Session C R)
      → ((m s).1.files ≡ s.files) × ((m s).1.changeset.last_plan ≡ s.changeset.last_plan)

module _ {C R : Type 0} (frame : Frame C R) where
  -- The sessions are related, and the value has the property.
  abbrev pub Ensures : {A : Type 0} → (A → Type 0) → Step C R A → Type 0
  Ensures P m = (s : Session C R) → frame.rel s (m s).1 × Answers P (m s).0

  go_on-Ensures :
      {A B : Type 0} (P : A → Type 0) (Q : B → Type 0) (f : A → Step C R B) (s : Session C R)
      (x : Result Error A × Session C R)
      → frame.rel s x.1
      → Answers P x.0
      → ((a : A) → P a → Ensures Q (f a))
      → frame.rel s (go_on f x).1 × Answers Q (go_on f x).0
  go_on-Ensures P Q f s (ok a, t) e p k =
      let (e', q) = k a p t in (frame.trans s t (f a t).1 e e', q)
  go_on-Ensures P Q f s (err x, t) e p k = (e, tt)

  pub then-Ensures :
      {A B : Type 0} (P : A → Type 0) (Q : B → Type 0) (m : Step C R A) (f : A → Step C R B)
      → Ensures P m
      → ((a : A) → P a → Ensures Q (f a))
      → Ensures Q (m >>= f)
  then-Ensures P Q m f h k s = go_on-Ensures P Q f s (m s) (h s).0 (h s).1 k

  pub done-Ensures : {A : Type 0} (P : A → Type 0) (a : A) → P a → Ensures P (done a)
  done-Ensures P a p s = (frame.still s s refl refl, p)

  pub fail-Ensures : {A : Type 0} (P : A → Type 0) (e : Error) → Ensures P (fail e)
  fail-Ensures P e s = (frame.still s s refl refl, tt)

  Leaves-Ensures : {A : Type 0} (m : Step C R A) → Leaves m → Ensures (λ (a : A). Unit) m
  Leaves-Ensures m h s = (frame.still s (m s).1 (h s).0 (h s).1, anything (m s).0)

  pub start-Ensures :
      (cmd : Command) (kind : String) → Ensures (λ (h : RepoKey × RunKey). Unit) (start cmd kind)
  unfolding start
  start-Ensures cmd kind = Leaves-Ensures (start cmd kind) leaves
    where
      leaves : Leaves {C = C} {R = R} (start cmd kind)
      leaves s = elim (Option-cases s.tracestore) [
        | inl e ↦ rw (e, start) (refl, refl)
        | inr (store, e) ↦ rw (e, start) (refl, refl)
      ]

  finished-Leaves :
      (s : Session C R) (a : Traced Store)
      → ((finished s a).1.files ≡ s.files)
        × ((finished s a).1.changeset.last_plan ≡ s.changeset.last_plan)
  unfolding finished
  finished-Leaves s (Traced.ok store) = (refl, refl)
  finished-Leaves s a = (refl, refl)

  pub finish-Ensures : (h : RepoKey × RunKey) → Ensures (λ (u : Unit). Unit) (finish h)
  unfolding finish
  finish-Ensures h = Leaves-Ensures (finish h) leaves
    where
      leaves : Leaves {C = C} {R = R} (finish h)
      leaves s = elim (Option-cases s.tracestore) [
        | inl e ↦ rw (e, finish) (refl, refl)
        | inr (store, e) ↦ rw (e, finish) (finished-Leaves s (finish_run h.0 h.1 store))
      ]

module _ {C R : Type 0} (frame : Frame C R) (host : Host C R) where
  pub config-Ensures : Ensures frame (λ (c : Config). Unit) (get_autoschematic_config host)
  unfolding get_autoschematic_config
  config-Ensures = Leaves-Ensures frame (get_autoschematic_config host) leaves
    where
      leaves : Leaves (get_autoschematic_config host)
      leaves s = elim (Option-cases host.config) [
        | inl e ↦ rw (e, get_autoschematic_config) (refl, refl)
        | inr (c, e) ↦ rw (e, get_autoschematic_config) (refl, refl)
      ]

  pub create_check_run-Ensures :
      (request : CheckRun) → Ensures frame (λ (n : ℕ). Unit) (create_check_run host request)
  unfolding create_check_run
  create_check_run-Ensures request = Leaves-Ensures frame (create_check_run host request) leaves
    where
      leaves : Leaves (create_check_run host request)
      leaves s = elim (Option-cases (host.check_run s.check_runs request)) [
        | inl e ↦ rw (e, create_check_run) (refl, refl)
        | inr (n, e) ↦ rw (e, create_check_run) (refl, refl)
      ]

  pub git-Ensures : (request : GitCall) → Ensures frame (λ (u : Unit). Unit) (git host request)
  unfolding git
  git-Ensures request = Leaves-Ensures frame (git host request) leaves
    where
      leaves : Leaves (git host request)
      leaves s = elim (Bool-cases (host.git s.git_calls request)) [
        | inl e ↦ rw (e, git) (refl, refl)
        | inr e ↦ rw (e, git) (refl, refl)
      ]

  spawn_answer-Leaves :
      (s : Session C R) (x : Found C × Cache C)
      → ((spawn_answer s x).1.files ≡ s.files)
        × ((spawn_answer s x).1.changeset.last_plan ≡ s.changeset.last_plan)
  unfolding spawn_answer
  spawn_answer-Leaves s (Found.ok c, cache) = (refl, refl)
  spawn_answer-Leaves s (Found.err e, cache) = (refl, refl)

  pub spawn-Ensures :
      (n : ℕ) (config : Config) (prefix_name : Text) (d : ConnectorDef)
      → Ensures frame (λ (c : C). Unit) (spawn host n config prefix_name d)
  unfolding spawn
  spawn-Ensures n config prefix_name d =
      Leaves-Ensures frame (spawn host n config prefix_name d) (λ s. spawn_answer-Leaves s (
        get_or_spawn_connector (host.world n) config prefix_name d true
          s.changeset.connector_cache))
