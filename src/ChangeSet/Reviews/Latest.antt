-- ===== src/ChangeSet/Reviews/Latest.antt =====
-- The approvals of a pull request against the review that counts for each user.
use autoschematic.Prelude.{
  ℕ, ◌≡◌, ◌≤◌, ◌<◌, inl, inr, refl, ap, ◌∙◌, Option, none, some, List, [], ◌∷◌, Text, leb, leb→le,
  leb→lt, ◌==◌, nat_equality, list_equality, if◌then◌else◌, Bool-cases, arith,
}
use autoschematic.ChangeSet.Reviews.{
  Review, ReviewState, submitted, insert_review, sort_reviews, counted,
}

-- The state of the review, if it is one of the user that counts.
abbrev pub state_for : Text → Option (Text × ReviewState) → Option ReviewState
state_for login none = none
state_for login (some (user, state)) = if user == login then some state else none

-- A time of submission and a state; the later of two, and the second of two at the same time.
abbrev pub Verdict : Type 0
Verdict = ℕ × ReviewState

abbrev pub later : ℕ → Option ReviewState → Option Verdict → Option Verdict
later t none v = v
later t (some state) none = some (t, state)
later t (some state) (some v) = if leb t v.0 then some v else some (t, state)

-- The review of a user that counts: of those with a state, the one that was submitted last.
unfoldable pub verdict : Text → List Review → Option (ℕ × ReviewState)
verdict login [] = none
verdict login (r ∷ rs) = later (submitted r) (state_for login (counted r)) (verdict login rs)

-- The last one in a list.
abbrev pub after : ℕ → Option ReviewState → Option Verdict → Option Verdict
after t none v = v
after t (some state) none = some (t, state)
after t (some state) (some v) = some v

unfoldable pub last_for : Text → List Review → Option Verdict
last_for login [] = none
last_for login (r ∷ rs) = after (submitted r) (state_for login (counted r)) (last_for login rs)

-- Sorted, as a lower bound on what follows.
abbrev AtLeast : ℕ → List Review → Type 0
AtLeast t [] = Unit
AtLeast t (r ∷ rs) = (t ≤ submitted r) × AtLeast t rs

abbrev IsSorted : List Review → Type 0
IsSorted [] = Unit
IsSorted (r ∷ rs) = AtLeast (submitted r) rs × IsSorted rs

AtLeast-trans : (t u : ℕ) (rs : List Review) → t ≤ u → AtLeast u rs → AtLeast t rs
AtLeast-trans t u [] h a = tt
AtLeast-trans t u (r ∷ rs) h (b, a) = (omega arith, AtLeast-trans t u rs h a)

AtLeast-insert_review :
    (t : ℕ) (r : Review) (rs : List Review)
    → t ≤ submitted r
    → AtLeast t rs
    → AtLeast t (insert_review r rs)
unfolding insert_review
AtLeast-insert_review t r [] h a = (h, tt)
AtLeast-insert_review t r (q ∷ qs) h (b, a) = elim (Bool-cases (leb (submitted r) (submitted q))) [
  | inl e ↦ rw e (h, (b, a))
  | inr e ↦ rw e (b, AtLeast-insert_review t r qs h a)
]

insert_review-IsSorted :
    (r : Review) (rs : List Review) → IsSorted rs → IsSorted (insert_review r rs)
unfolding insert_review
insert_review-IsSorted r [] s = (tt, tt)
insert_review-IsSorted r (q ∷ qs) (a, s) = elim (Bool-cases (leb (submitted r) (submitted q))) [
  | inl e ↦
      let h : submitted r ≤ submitted q = leb→le _ _ e in
      rw e ((h, AtLeast-trans (submitted r) (submitted q) qs h a), (a, s))
  | inr e ↦
      let h : submitted q ≤ submitted r = omega (arith, leb→lt _ _ e) in
      rw e (AtLeast-insert_review (submitted q) r qs h a, insert_review-IsSorted r qs s)
]

sort_reviews-IsSorted : (rs : List Review) → IsSorted (sort_reviews rs)
unfolding sort_reviews
sort_reviews-IsSorted [] = tt
sort_reviews-IsSorted (r ∷ rs) =
    insert_review-IsSorted r (sort_reviews rs) (sort_reviews-IsSorted rs)

last_for-AtLeast :
    (login : Text) (t : ℕ) (rs : List Review) (v : ℕ × ReviewState)
    → AtLeast t rs
    → last_for login rs ≡ some v
    → t ≤ v.0
unfolding last_for
last_for-AtLeast login t [] v a e = cc
last_for-AtLeast login t (r ∷ rs) v (b, a) e =
    bounded (state_for login (counted r)) (last_for login rs) (last_for-AtLeast login t rs v a) e
  where
    bounded :
        (s : Option ReviewState) (l : Option (ℕ × ReviewState))
        → (l ≡ some v → t ≤ v.0)
        → after (submitted r) s l ≡ some v
        → t ≤ v.0
    bounded none l k e = k e
    bounded (some state) none k e = ground (arith, b)
    bounded (some state) (some w) k e = k e

after-later :
    (t : ℕ) (s : Option ReviewState) (l : Option (ℕ × ReviewState))
    → ((v : ℕ × ReviewState) → l ≡ some v → t ≤ v.0)
    → after t s l ≡ later t s l
after-later t none l h = refl
after-later t (some state) none h = refl
after-later t (some state) (some v) h = let b = h v refl in ground arith

after-later_swap :
    (t u : ℕ) (s r : Option ReviewState) (l : Option (ℕ × ReviewState))
    → t < u
    → after t s (later u r l) ≡ later u r (after t s l)
after-later_swap t u s none l h = refl
after-later_swap t u none (some r) l h = refl
after-later_swap t u (some s) (some r) none h = ground arith
after-later_swap t u (some s) (some r) (some v) h = ground arith

last_for-insert_review :
    (login : Text) (r : Review) (rs : List Review)
    → IsSorted rs
    → last_for login (insert_review r rs)
      ≡ later (submitted r) (state_for login (counted r)) (last_for login rs)
unfolding last_for insert_review
last_for-insert_review login r [] s = after-later _ (state_for login (counted r)) none (λ v e. cc)
last_for-insert_review login r (q ∷ qs) (a, s) =
    elim (Bool-cases (leb (submitted r) (submitted q))) [
      | inl e ↦
          let h : submitted r ≤ submitted q = leb→le _ _ e in
          rw e (
            after-later (submitted r) (state_for login (counted r)) (last_for login (q ∷ qs))
              (λ v l.
                last_for-AtLeast login (submitted r) (q ∷ qs) v
                  (h, AtLeast-trans (submitted r) (submitted q) qs h a) l))
      | inr e ↦ rw e (
          ap (after (submitted q) (state_for login (counted q)))
            (last_for-insert_review login r qs s)
          ∙ after-later_swap (submitted q) (submitted r) (state_for login (counted q))
              (state_for login (counted r)) (last_for login qs) (leb→lt _ _ e))
    ]

pub last_for-sort_reviews :
    (login : Text) (rs : List Review) → last_for login (sort_reviews rs) ≡ verdict login rs
unfolding last_for sort_reviews verdict
last_for-sort_reviews login [] = refl
last_for-sort_reviews login (r ∷ rs) =
    last_for-insert_review login r (sort_reviews rs) (sort_reviews-IsSorted rs)
    ∙ ap (later (submitted r) (state_for login (counted r))) (last_for-sort_reviews login rs)
