-- ===== src/TraceStore/History.antt =====
-- The log of a run after any sequence of appends and finishes, of this run and of others.
use autoschematic.Prelude.{
  ℕ, ◌≡◌, ◌≢◌, ◌↔◌, inl, inr, refl, sym, ap, ◌∙◌, Bool, true, false, ◌||◌, some, List, [], ◌∷◌,
  ◌++◌, String, ==_iff, nat_equality, string_equality, pair_equality, if◌then◌else◌, Option-cases,
  Bool-cases, append-nil, append_assoc, arith,
}
use mathlib.Core.Path.{ap₂}
use mathlib.Core.Option
use autoschematic.TraceStore.{
  RepoKey, RunKey, RunData, Store, Answer, ok, no_such_repo, no_such_run, get_run, start_run,
  new_run, update_run, finish_run, append_run_log,
}
use autoschematic.TraceStore.Runs.{
  view, same_run, view-update_run, update_run_missing, view-put_run, get_run_found,
}

pub data Event : Type 0 where
  append : RepoKey → RunKey → String → Event
  finish : RepoKey → RunKey → Event

abbrev or_same : Answer Store → Store → Store
or_same (ok s') s = s'
or_same (no_such_repo k) s = s
or_same (no_such_run k) s = s

-- A refused event leaves the store.
pub play_event : Event → Store → Store
play_event (append repo_key run_key value) s = or_same (append_run_log repo_key run_key value s) s
play_event (finish repo_key run_key) s = or_same (finish_run repo_key run_key s) s

pub play : List Event → Store → Store
play [] s = s
play (e ∷ es) s = play es (play_event e s)

-- What an event does to the run under two keys.
abbrev pub on_run : RepoKey → RunKey → Event → RunData → RunData
on_run repo_key run_key (append rk k value) r =
    if same_run rk k repo_key run_key then record r { logs = r.logs ++ value ∷ [] } else r
on_run repo_key run_key (finish rk k) r =
    if same_run rk k repo_key run_key then record r { finished = true } else r

-- The messages of the events for the run, in order, and whether one of them finishes it.
unfoldable pub messages : RepoKey → RunKey → List Event → List String
messages repo_key run_key [] = []
messages repo_key run_key (finish rk k ∷ es) = messages repo_key run_key es
messages repo_key run_key (append rk k value ∷ es) =
    let rest = messages repo_key run_key es in
    if same_run rk k repo_key run_key then value ∷ rest else rest

unfoldable pub finishes : RepoKey → RunKey → List Event → Bool
finishes repo_key run_key [] = false
finishes repo_key run_key (append rk k value ∷ es) = finishes repo_key run_key es
finishes repo_key run_key (finish rk k ∷ es) =
    same_run rk k repo_key run_key || finishes repo_key run_key es

same_run_iff :
    (rk : RepoKey) (k : RunKey) (rk' : RepoKey) (k' : RunKey)
    → (same_run rk k rk' k' ≡ true) ↔ ((rk ≡ rk') × (k ≡ k'))
same_run_iff rk k rk' k' = ground (arith, ==_iff rk rk', ==_iff k k')

or_same_refused : (a : Answer Store) (s : Store) → ((s' : Store) → a ≢ ok s') → or_same a s ≡ s
or_same_refused (ok s') s h = absurd (h s' refl)
or_same_refused (no_such_repo k) s h = refl
or_same_refused (no_such_run k) s h = refl

or_false : (b : Bool) → b ≡ (b || false)
or_false b = ground arith

module _ (repo_key : RepoKey) (run_key : RunKey) where
  -- An update of a run that is there or not, seen from the run at hand.
  view-or_same :
      (f : RunData → RunData) (rk : RepoKey) (k : RunKey) (s : Store) (r : RunData)
      → view repo_key run_key s ≡ some r
      → view repo_key run_key (or_same (update_run rk k f s) s)
        ≡ some (if same_run rk k repo_key run_key then f r else r)
  view-or_same f rk k s r h = elim (Option-cases (view rk k s)) [
    | inl gone ↦
        rw (or_same_refused _ s (update_run_missing rk k s f gone))
          (elim (Bool-cases (same_run rk k repo_key run_key)) [
            | inl e ↦ let (a, b) = (same_run_iff rk k repo_key run_key).0 e in cc (gone, h, a, b)
            | inr e ↦ rw e h
          ])
    | inr (r', there) ↦
        let (s', done, views) = view-update_run rk k s f r' there in
        rw done (
          views repo_key run_key ∙ elim (Bool-cases (same_run rk k repo_key run_key)) [
            | inl e ↦
                let (a, b) = (same_run_iff rk k repo_key run_key).0 e in
                let same : some r' ≡ some r = sym there ∙ ap₂ (λ x y. view x y s) a b ∙ h in
                rw e (ap (Option.map f) same)
            | inr e ↦ rw e h
          ])
  ]

  view-play_event :
      (e : Event) (s : Store) (r : RunData)
      → view repo_key run_key s ≡ some r
      → view repo_key run_key (play_event e s) ≡ some (on_run repo_key run_key e r)
  unfolding play_event append_run_log finish_run
  view-play_event (append rk k value) s r h =
      view-or_same (λ x. record x { logs = x.logs ++ value ∷ [] }) rk k s r h
  view-play_event (finish rk k) s r h = view-or_same (λ x. record x { finished = true }) rk k s r h

  -- The run with more log lines and perhaps finished.
  abbrev pub extended : List Event → RunData → RunData
  extended es r = record r {
    logs = r.logs ++ messages repo_key run_key es;
    finished = r.finished || finishes repo_key run_key es;
  }

  extended-cons :
      (e : Event) (es : List Event) (r : RunData)
      → extended es (on_run repo_key run_key e r) ≡ extended (e ∷ es) r
  unfolding messages finishes
  extended-cons (append rk k value) es r = elim (Bool-cases (same_run rk k repo_key run_key)) [
    | inl e ↦ rw e (
        ap (λ l. record r { logs = l; finished = r.finished || finishes repo_key run_key es })
          (append_assoc r.logs (value ∷ []) (messages repo_key run_key es)))
    | inr e ↦ rw e refl
  ]
  extended-cons (finish rk k) es r = elim (Bool-cases (same_run rk k repo_key run_key)) [
    | inl e ↦ rw e (
        ap (λ b. record r { logs = r.logs ++ messages repo_key run_key es; finished = b })
          (ground arith))
    | inr e ↦ rw e refl
  ]

  view-play :
      (es : List Event) (s : Store) (r : RunData)
      → view repo_key run_key s ≡ some r
      → view repo_key run_key (play es s) ≡ some (extended es r)
  unfolding play messages finishes
  view-play [] s r h =
      h
      ∙ ap some
          (λ i. record r { logs = sym (append-nil r.logs) i; finished = or_false r.finished i })
  view-play (e ∷ es) s r h =
      view-play es (play_event e s) (on_run repo_key run_key e r) (view-play_event e s r h)
      ∙ ap some (extended-cons e es r)

-- A run that has been started, after any sequence of appends and finishes of this run and of others,
-- is found with the data it was started with; its log is the messages that were appended to it, in
-- order, and it is finished exactly if one of the events finished it.
pub get_run-play-start_run :
    (now channel sender run_id : ℕ) (owner repo : String) (pr : ℕ)
    (username comment_url kind command : String) (s : Store) (es : List Event)
    → get_run
        (owner, repo)
        (pr, run_id)
        (play es
          (start_run now channel sender run_id owner repo pr username comment_url kind command s).1)
      ≡ ok (record (new_run now channel username comment_url kind command) {
        logs = messages (owner, repo) (pr, run_id) es;
        finished = finishes (owner, repo) (pr, run_id) es;
      })
unfolding start_run
get_run-play-start_run now channel sender run_id owner repo pr username comment_url kind command s
      es =
    let value = new_run now channel username comment_url kind command in
    get_run_found (owner, repo) (pr, run_id) _ _
      (view-play (owner, repo) (pr, run_id) es _ value
        (view-put_run (owner, repo) (pr, run_id) s sender value (owner, repo) (pr, run_id)
          ∙ rw ((same_run_iff (owner, repo) (pr, run_id) (owner, repo) (pr, run_id)).1 (refl, refl))
              refl))
