-- ===== src/ChangeSet/Reviews/Approvals.antt =====
-- Who counts as having approved a pull request: `get_pr_approvals` of
-- autoschematic-server/src/changeset/util.rs.
use autoschematic.Prelude.{
  ℕ, ◌≡◌, ◌↔◌, inl, inr, refl, sym, ap, subst, ◌∙◌, true, Option, none, some, List, [], ◌∷◌, Text,
  In, ◌==◌, ==_iff, nat_equality, list_equality, Bool-cases, arith,
}
use autoschematic.Prelude.Dict
use autoschematic.Prelude.Dict.{Dict, HasDistinctKeys, get-insert}
use autoschematic.Rbac.{github_user, username}
use autoschematic.ChangeSet.Reviews.{
  Review, ReviewState, approved, pending, changes_requested, commented, dismissed, sort_reviews,
  counted, enter, latest_reviews, is_approved, approved_users, get_pr_approvals,
}
use autoschematic.ChangeSet.Reviews.Latest.{
  state_for, Verdict, after, verdict, last_for, last_for-sort_reviews,
}

abbrev state_or : Option Verdict → Option ReviewState → Option ReviewState
state_or none s = s
state_or (some v) s = some v.1

get-enter :
    (login : Text) (t : ℕ) (c : Option (Text × ReviewState)) (m : Dict Text ReviewState)
    (v : Option Verdict)
    → state_or v (Dict.get login (enter c m))
      ≡ state_or (after t (state_for login c) v) (Dict.get login m)
get-enter login t none m v = refl
get-enter login t (some (user, state)) m none = ground (arith, get-insert user login state m)
get-enter login t (some (user, state)) m (some v) = ground arith

get-latest_reviews :
    (login : Text) (rs : List Review) (m : Dict Text ReviewState)
    → Dict.get login (latest_reviews rs m) ≡ state_or (last_for login rs) (Dict.get login m)
unfolding latest_reviews last_for
get-latest_reviews login [] m = refl
get-latest_reviews login (r ∷ rs) m =
    get-latest_reviews login rs (enter (counted r) m)
    ∙ get-enter login _ (counted r) m (last_for login rs)

insert-HasDistinctKeys :
    (k : Text) (v : ReviewState) (m : Dict Text ReviewState)
    → HasDistinctKeys m
    → HasDistinctKeys (Dict.insert k v m)
unfolding Dict.get Dict.insert
insert-HasDistinctKeys k v [] h = (refl, tt)
insert-HasDistinctKeys k v ((j, w) ∷ m) (n, h) = elim (Bool-cases (j == k)) [
  | inl e ↦ rw e (subst (λ x. Dict.get x m ≡ none) ((==_iff j k).0 e) n, h)
  | inr e ↦ rw e (
    ground (arith, get-insert k j v m, ==_iff k j, ==_iff j k, n),
    insert-HasDistinctKeys k v m h,
  )
]

enter-HasDistinctKeys :
    (c : Option (Text × ReviewState)) (m : Dict Text ReviewState)
    → HasDistinctKeys m
    → HasDistinctKeys (enter c m)
enter-HasDistinctKeys none m h = h
enter-HasDistinctKeys (some (login, state)) m h = insert-HasDistinctKeys login state m h

latest_reviews-HasDistinctKeys :
    (rs : List Review) (m : Dict Text ReviewState)
    → HasDistinctKeys m
    → HasDistinctKeys (latest_reviews rs m)
unfolding latest_reviews
latest_reviews-HasDistinctKeys [] m h = h
latest_reviews-HasDistinctKeys (r ∷ rs) m h =
    latest_reviews-HasDistinctKeys rs (enter (counted r) m) (enter-HasDistinctKeys (counted r) m h)

is_approved_iff : (s : ReviewState) → (is_approved s ≡ true) ↔ (s ≡ approved)
is_approved_iff approved = (λ h. refl, λ h. refl)
is_approved_iff pending = (λ h. cc, λ h. cc)
is_approved_iff changes_requested = (λ h. cc, λ h. cc)
is_approved_iff commented = (λ h. cc, λ h. cc)
is_approved_iff dismissed = (λ h. cc, λ h. cc)

approved_users_sound :
    (login : Text) (m : Dict Text ReviewState)
    → HasDistinctKeys m
    → In (github_user login) (approved_users m)
    → Dict.get login m ≡ some approved
unfolding approved_users Dict.get
approved_users_sound login [] h i = elim i [ ]
approved_users_sound login ((user, state) ∷ m) (n, h) i = elim (Bool-cases (is_approved state)) [
  | inl e ↦ elim (rw e at i) [
    | inl same ↦
        let eq : user ≡ login = ap username same in
        rw ((==_iff user login).1 eq) (ap some ((is_approved_iff state).0 e))
    | inr l ↦ past (approved_users_sound login m h l)
  ]
  | inr e ↦ past (approved_users_sound login m h (rw e at i))
]
  where
    past : Dict.get login m ≡ some approved → Dict.get login ((user, state) ∷ m) ≡ some approved
    past l = elim (Bool-cases (user == login)) [
      | inl e ↦
          let eq : user ≡ login = (==_iff user login).0 e in
          let gone : Dict.get login m ≡ none = subst (λ x. Dict.get x m ≡ none) eq n in cc
      | inr e ↦ rw e l
    ]

approved_users_complete :
    (login : Text) (m : Dict Text ReviewState)
    → Dict.get login m ≡ some approved
    → In (github_user login) (approved_users m)
unfolding approved_users Dict.get
approved_users_complete login [] e = cc
approved_users_complete login ((user, state) ∷ m) e = elim (Bool-cases (user == login)) [
  | inl h ↦
      let same : state ≡ approved = ground (arith) in
      rw ((is_approved_iff state).1 same) (inl (ap github_user ((==_iff user login).0 h)))
  | inr h ↦
      let i : In (github_user login) (approved_users m) =
        approved_users_complete login m (rw h at e) in
      elim (Bool-cases (is_approved state)) [ inl a ↦ rw a (inr i) | inr a ↦ rw a i ]
]

abbrev latest : List Review → Dict Text ReviewState
latest reviews = latest_reviews (sort_reviews reviews) []

-- A user counts as having approved exactly where the review that counts for the user, the last
-- submitted one of those that have a state (of two at the same time the one that comes second in the
-- answer of GitHub), is an approval: an approval that a later review replaced does not count.
pub get_pr_approvals_lem :
    (reviews : List Review) (login : Text)
    → In (github_user login) (get_pr_approvals reviews)
      ↔ ((t : ℕ) × (verdict login reviews ≡ some (t, approved)))
unfolding get_pr_approvals Dict.get
get_pr_approvals_lem reviews login = (
  λ i.
      found (verdict login reviews)
        (sym found_at ∙ approved_users_sound login (latest reviews) distinct i),
  λ (t, e). approved_users_complete login (latest reviews) (found_at ∙ ap (λ v. state_or v none) e),
)
  where
    distinct : HasDistinctKeys (latest reviews)
    distinct = latest_reviews-HasDistinctKeys (sort_reviews reviews) [] tt

    found_at : Dict.get login (latest reviews) ≡ state_or (verdict login reviews) none
    found_at =
        get-latest_reviews login (sort_reviews reviews) []
        ∙ ap (λ v. state_or v none) (last_for-sort_reviews login reviews)

    found :
        (v : Option Verdict) → state_or v none ≡ some approved → (t : ℕ) × (v ≡ some (t, approved))
    found none e = cc
    found (some (t, s)) e = (t, cc)
