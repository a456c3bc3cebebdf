-- ===== src/TraceStore.antt =====
-- The in-memory store of runs and their logs: autoschematic-server/src/tracestore.rs. A method is one
-- step, since it holds the lock. The channels of `tokio` are named by numbers; what is sent on them
-- is not read back by the store. New identifiers, times and channels are arguments.
pub mod Runs
pub mod History
use autoschematic.Prelude.{
  ℕ, ◌≡◌, ◌↔◌, refl, Bool, true, false, ◌&&◌, Option, none, some, List, [], ◌∷◌, ◌++◌, String, Eq,
  ◌==◌, ==_iff, nat_equality, string_equality, pair_equality, if◌then◌else◌, arith,
}
use autoschematic.Prelude.Dict
use autoschematic.Prelude.Dict.{Dict}

-- owner and repo
abbrev pub RepoKey : Type 0
RepoKey = String × String

-- pr and run_id
abbrev pub RunKey : Type 0
RunKey = ℕ × ℕ

pub record RunData : Type 0 where
  pub time_started : ℕ
  pub username : String
  pub comment_url : String
  pub kind : String
  pub command : String
  pub logs : List String
  pub log_sender : Option ℕ
  pub finished : Bool

pub record RepoData : Type 0 where
  pub runs : Dict RunKey RunData
  pub run_sender : ℕ

-- `repos` of `InMemTraceStore`.
abbrev pub Store : Type 0
Store = Dict RepoKey RepoData

pub data Answer (A : Type 0) : Type 0 where
  ok : A → Answer A
  no_such_repo : RepoKey → Answer A
  no_such_run : RunKey → Answer A

infixl 10 ◌>>=◌
abbrev pub ◌>>=◌ : {A B : Type 0} → Answer A → (A → Answer B) → Answer B
ok a >>= f = f a
no_such_repo k >>= f = no_such_repo k
no_such_run k >>= f = no_such_run k

unfoldable pub keys : {K V : Type 0} → Dict K V → List K
keys [] = []
keys ((k, v) ∷ m) = k ∷ keys m

-- `repos.get(key)`, and the refusal of a key that is missing.
unfoldable pub get_repo : RepoKey → Store → Answer RepoData
get_repo key s = elim (Dict.get key s) [ none ↦ no_such_repo key | some repo ↦ ok repo ]

unfoldable pub get_run_data : RunKey → RepoData → Answer RunData
get_run_data key repo = elim (Dict.get key repo.runs) [ none ↦ no_such_run key | some r ↦ ok r ]

unfoldable pub list_repos : Store → List RepoKey
unfolding keys
list_repos s = keys s

unfoldable pub list_runs : RepoKey → Store → Answer (List RunKey)
unfolding keys
list_runs key s = do repo ← get_repo key s; ok (keys repo.runs)

of_pr : ℕ → List RunKey → List RunKey
of_pr pr [] = []
of_pr pr (k ∷ ks) = let rest = of_pr pr ks in if k.0 == pr then k ∷ rest else rest

unfoldable pub list_runs_for_pr : RepoKey → ℕ → Store → Answer (List RunKey)
unfolding of_pr keys
list_runs_for_pr key pr s = do repo ← get_repo key s; ok (of_pr pr (keys repo.runs))

-- The channel to subscribe to.
unfoldable pub subscribe_runs : RepoKey → Store → Answer ℕ
subscribe_runs key s = do repo ← get_repo key s; ok repo.run_sender

unfoldable pub get_run : RepoKey → RunKey → Store → Answer RunData
unfolding get_repo get_run_data
get_run repo_key run_key s = do repo ← get_repo repo_key s; get_run_data run_key repo

module _ {K V : Type 0} ⦃e : Eq K⦄ where
  -- The last entry takes the place of the first.
  last_first : K × V → Dict K V → Dict K V
  last_first x [] = x ∷ []
  last_first x (y ∷ m) = elim (last_first y m) [ [] ↦ [] | z ∷ r ↦ z ∷ x ∷ r ]

  fill_hole : Dict K V → Dict K V
  fill_hole [] = []
  fill_hole (x ∷ m) = last_first x m

  -- `IndexMap::swap_remove`
  unfoldable pub swap_remove : K → Dict K V → Dict K V
  unfolding fill_hole last_first
  swap_remove k [] = []
  swap_remove k ((j, v) ∷ m) =
      let rest = swap_remove k m in if e.beq j k then fill_hole m else (j, v) ∷ rest

unfoldable pub delete_run : RepoKey → RunKey → Store → Answer Store
unfolding swap_remove get_repo
delete_run repo_key run_key s = do
  repo ← get_repo repo_key s
  ok (Dict.insert repo_key (record repo { runs = swap_remove run_key repo.runs }) s)

-- A repository that is not there yet is entered, with a channel for its runs.
with_repo : ℕ → RepoKey → Store → RepoData
with_repo sender key s = elim (Dict.get key s) [
  | none ↦ record { runs = []; run_sender = sender }
  | some repo ↦ repo
]

unfoldable pub put_run : ℕ → RepoKey → RunKey → RunData → Store → Store
unfolding with_repo
put_run sender repo_key run_key value s =
    let repo = with_repo sender repo_key s in
    Dict.insert repo_key (record repo { runs = Dict.insert run_key value repo.runs }) s

abbrev pub new_run : ℕ → ℕ → String → String → String → String → RunData
new_run now channel username comment_url kind command = record {
  time_started = now;
  username = username;
  comment_url = comment_url;
  kind = kind;
  command = command;
  logs = [];
  log_sender = some channel;
  finished = false;
}

-- The handle and the store; `run_id` is the new identifier.
unfoldable pub start_run :
    (now channel sender run_id : ℕ) (owner repo : String) (pr : ℕ)
    (username comment_url kind command : String)
    → Store
    → (RepoKey × RunKey) × Store
unfolding put_run
start_run now channel sender run_id owner repo pr username comment_url kind command s = (
  ((owner, repo), (pr, run_id)),
  put_run sender (owner, repo) (pr, run_id) (new_run now channel username comment_url kind command)
      s,
)

-- `get_mut` of the repository and of the run, and a change of the run.
unfoldable pub update_run : RepoKey → RunKey → (RunData → RunData) → Store → Answer Store
unfolding get_repo get_run_data
update_run repo_key run_key f s = do
  repo ← get_repo repo_key s
  r ← get_run_data run_key repo
  ok (Dict.insert repo_key (record repo { runs = Dict.insert run_key (f r) repo.runs }) s)

unfoldable pub finish_run : RepoKey → RunKey → Store → Answer Store
unfolding update_run
finish_run repo_key run_key = update_run repo_key run_key (λ r. record r { finished = true })

unfoldable pub append_run_log : RepoKey → RunKey → String → Store → Answer Store
unfolding update_run
append_run_log repo_key run_key value =
    update_run repo_key run_key (λ r. record r { logs = r.logs ++ value ∷ [] })

unfoldable pub subscribe_run_logs : RepoKey → RunKey → Store → Answer (Option ℕ)
unfolding get_repo get_run_data
subscribe_run_logs repo_key run_key s = do
  repo ← get_repo repo_key s
  r ← get_run_data run_key repo
  ok r.log_sender
