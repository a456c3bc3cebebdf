-- ===== src/TraceStore/Runs.antt =====
-- What one operation does to the run that each key names.
use autoschematic.Prelude.{
  ℕ, ◌≡◌, ◌≢◌, ◌⊎◌, inl, inr, refl, ap, ◌∙◌, Bool, ◌&&◌, Option, none, some, ◌==◌, ==_iff,
  nat_equality, string_equality, pair_equality, if◌then◌else◌, Option-cases, Bool-cases, arith,
}
use autoschematic.Prelude.Dict
use autoschematic.Prelude.Dict.{Dict, get-insert, get-insert_self}
use autoschematic.TraceStore.{
  RepoKey, RunKey, RunData, RepoData, Store, Answer, ok, no_such_repo, no_such_run, get_repo,
  get_run_data, get_run, put_run, with_repo, update_run,
}

-- The run under two keys, if there is one: what the store means to a client.
unfoldable pub view : RepoKey → RunKey → Store → Option RunData
view repo_key run_key s = elim (Dict.get repo_key s) [
  | none ↦ none
  | some repo ↦ Dict.get run_key repo.runs
]

-- Both keys are the same.
abbrev pub same_run : RepoKey → RunKey → RepoKey → RunKey → Bool
same_run repo_key run_key repo_key' run_key' = repo_key == repo_key' && run_key == run_key'

-- What the view says of a missing run.
abbrev pub IsMissing : RepoKey → RunKey → Answer RunData → Type 0
IsMissing repo_key run_key answer =
    (answer ≡ no_such_repo repo_key) ⊎ (answer ≡ no_such_run run_key)

module _ (repo_key : RepoKey) (run_key : RunKey) (s : Store) where
  pub get_run_found :
      (r : RunData) → view repo_key run_key s ≡ some r → get_run repo_key run_key s ≡ ok r
  unfolding get_run view
  get_run_found r h = elim (Option-cases (Dict.get repo_key s)) [
    | inl e ↦ cc (rw (e, view) at h)
    | inr (repo, e) ↦ ground (arith, e, rw (e, view) at h)
  ]

  get_run-IsMissing :
      view repo_key run_key s ≡ none → IsMissing repo_key run_key (get_run repo_key run_key s)
  unfolding get_run view
  get_run-IsMissing h = elim (Option-cases (Dict.get repo_key s)) [
    | inl e ↦ inl (rw (e, get_run, get_repo) refl)
    | inr (repo, e) ↦ inr (ground (arith, e, rw (e, view) at h))
  ]

  -- The view in a store whose entry for one repository is replaced.
  view-insert :
      (repo : RepoData) (repo_key' : RepoKey) (run_key' : RunKey)
      → view repo_key' run_key' (Dict.insert repo_key repo s)
        ≡ (if repo_key == repo_key' then Dict.get run_key' repo.runs else view repo_key' run_key' s)
  unfolding view
  view-insert repo repo_key' run_key' = elim (Bool-cases (repo_key == repo_key')) [
    | inl e ↦ rw (view, get-insert repo_key repo_key' repo s, e) refl
    | inr e ↦ rw (view, get-insert repo_key repo_key' repo s, e) refl
  ]

  runs-with_repo :
      (sender : ℕ) (k : RunKey) → Dict.get k (with_repo sender repo_key s).runs ≡ view repo_key k s
  unfolding view with_repo Dict.get
  runs-with_repo sender k = ground arith

  -- The view in a store where one run of a repository is replaced.
  view-insert_run :
      (repo : RepoData) (value : RunData) (repo_key' : RepoKey) (run_key' : RunKey)
      → ((k : RunKey) → Dict.get k repo.runs ≡ view repo_key k s)
      → view repo_key' run_key'
          (Dict.insert repo_key (record repo { runs = Dict.insert run_key value repo.runs }) s)
        ≡ (if same_run repo_key run_key repo_key' run_key'
            then some value
            else view repo_key' run_key' s)
  view-insert_run repo value repo_key' run_key' agree =
      view-insert (record repo { runs = Dict.insert run_key value repo.runs }) repo_key' run_key'
      ∙ elim (Bool-cases (repo_key == repo_key')) [
        | inl e ↦ rw e (
            get-insert run_key run_key' value repo.runs
            ∙ ap (λ o. if run_key == run_key' then some value else o)
                (agree run_key' ∙ ap (λ k. view k run_key' s) ((==_iff repo_key repo_key').0 e)))
        | inr e ↦ rw e refl
      ]

  -- After `put_run` the run is the value under its keys, and all others are as they were.
  pub view-put_run :
      (sender : ℕ) (value : RunData) (repo_key' : RepoKey) (run_key' : RunKey)
      → view repo_key' run_key' (put_run sender repo_key run_key value s) ≡ (
          if same_run repo_key run_key repo_key' run_key'
          then some value
          else view repo_key' run_key' s)
  unfolding put_run
  view-put_run sender value repo_key' run_key' =
      view-insert_run (with_repo sender repo_key s) value repo_key' run_key' (runs-with_repo sender)

  agrees_at :
      (repo : RepoData) (k : RunKey)
      → Dict.get repo_key s ≡ some repo
      → Dict.get k repo.runs ≡ view repo_key k s
  unfolding view
  agrees_at repo k e = rw (view, e) refl

  -- A change of one run changes it in the view, where it is there, and nothing else.
  pub view-update_run :
      (f : RunData → RunData) (r : RunData)
      → view repo_key run_key s ≡ some r
      → (s' : Store) × (update_run repo_key run_key f s ≡ ok s')
        × ((repo_key' : RepoKey) (run_key' : RunKey)
            → view repo_key' run_key' s' ≡ (
                if same_run repo_key run_key repo_key' run_key'
                then some (f r)
                else view repo_key' run_key' s))
  unfolding update_run view
  view-update_run f r h = elim (Option-cases (Dict.get repo_key s)) [
    | inl e ↦ cc (rw (e, view) at h)
    | inr (repo, e) ↦
        let there : Dict.get run_key repo.runs ≡ some r = rw (e, view) at h in
        let repo' : RepoData = record repo { runs = Dict.insert run_key (f r) repo.runs } in
        (
          Dict.insert repo_key repo' s,
          rw (e, get_repo, there, get_run_data) refl,
          λ rk k. view-insert_run repo (f r) rk k (λ j. agrees_at repo j e),
        )
  ]

  -- A change of a run that is missing is refused.
  pub update_run_missing :
      (f : RunData → RunData)
      → view repo_key run_key s ≡ none
      → (s' : Store) → update_run repo_key run_key f s ≢ ok s'
  unfolding update_run view
  update_run_missing f h s' p = elim (Option-cases (Dict.get repo_key s)) [
    | inl e ↦ cc (rw (e, get_repo) at p)
    | inr (repo, e) ↦
        let missing : Dict.get run_key repo.runs ≡ none = rw (e, view) at h in
        cc (rw (e, get_repo, missing, get_run_data) at p)
  ]
