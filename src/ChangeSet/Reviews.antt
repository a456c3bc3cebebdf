-- ===== src/ChangeSet/Reviews.antt =====
-- Who approved a pull request: `get_pr_approvals` of autoschematic-server/src/changeset/util.rs. The
-- reviews are what GitHub answers; a time of submission is a number of seconds.
pub mod Latest
pub mod Approvals
use autoschematic.Prelude.{
  ℕ, Bool, true, false, Option, none, some, List, [], ◌∷◌, Text, leb, nat_equality, list_equality,
  if◌then◌else◌,
}
use autoschematic.Prelude.Dict
use autoschematic.Prelude.Dict.{Dict}
use autoschematic.Rbac.{User, github_user}

-- `ReviewState` of octocrab.
pub data ReviewState : Type 0 where
  approved pending changes_requested commented dismissed : ReviewState

pub record Review : Type 0 where
  pub user : Option Text
  pub state : Option ReviewState
  pub submitted_at : Option ℕ

-- `r.submitted_at.unwrap_or_default()`
abbrev pub submitted : Review → ℕ
submitted r = elim r.submitted_at [ none ↦ 0 | some t ↦ t ]

-- `sort_by_key` is stable: a review that comes first stays before those of the same time.
unfoldable pub insert_review : Review → List Review → List Review
insert_review r [] = r ∷ []
insert_review r (q ∷ qs) =
    let later = insert_review r qs in
    if leb (submitted r) (submitted q) then r ∷ q ∷ qs else q ∷ later

unfoldable pub sort_reviews : List Review → List Review
unfolding insert_review
sort_reviews [] = []
sort_reviews (r ∷ rs) = insert_review r (sort_reviews rs)

-- A review counts if it has a user and a state.
abbrev pub counted : Review → Option (Text × ReviewState)
counted r = elim r.user [
  | none ↦ none
  | some login ↦ elim r.state [ none ↦ none | some state ↦ some (login, state) ]
]

abbrev pub enter : Option (Text × ReviewState) → Dict Text ReviewState → Dict Text ReviewState
enter none m = m
enter (some (login, state)) m = Dict.insert login state m

-- The loop that fills the map.
unfoldable pub latest_reviews : List Review → Dict Text ReviewState → Dict Text ReviewState
latest_reviews [] m = m
latest_reviews (r ∷ rs) m = latest_reviews rs (enter (counted r) m)

abbrev pub is_approved : ReviewState → Bool
is_approved approved = true
is_approved _ = false

unfoldable pub approved_users : Dict Text ReviewState → List User
approved_users [] = []
approved_users ((login, state) ∷ m) =
    let rest = approved_users m in if is_approved state then github_user login ∷ rest else rest

unfoldable pub get_pr_approvals : List Review → List User
unfolding sort_reviews latest_reviews approved_users
get_pr_approvals reviews = approved_users (latest_reviews (sort_reviews reviews) [])
