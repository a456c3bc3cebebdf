-- ===== src/ChangeSet/Opened/Changes.antt =====
-- The objects of a changeset against the files that the pull request changes.
use autoschematic.Prelude.{
  ◌≡◌, ◌↔◌, ◌⊎◌, inl, inr, refl, sym, ap, subst, ◌∙◌, Bool, true, false, Option, none, some, List,
  [], ◌∷◌, ◌++◌, Text, String, Result, ok, err, In, In-append, In-append_left, In-append_right,
  Bool-cases, Option-cases, ◌==◌, ==_iff, list_equality, nat_equality, option_equality,
  if◌then◌else◌,
}
use autoschematic.FilePath.{FilePath}
use autoschematic.Objects.{removed, Object, sort_objects_by_apply_order}
use autoschematic.Objects.Members.{In-sort_objects_by_apply_order}
use autoschematic.ChangeSet.Opened.{
  PullRequest, DiffEntry, OpenError, no_default_branch, wrong_base, refused, listed, mergeable,
  is_mergeable, object_at, previous, objects_of, from_pull_request,
}

module _ (owner repo head_sha : String) where
  -- A file that the pull request has, or a name that it no longer has.
  abbrev pub IsChange : List DiffEntry → Object → Type 0
  IsChange diffs o =
      (diff : DiffEntry) × In diff diffs
      × ((object_at owner repo head_sha diff.filename diff.status ≡ o)
          ⊎ ((old : FilePath) × (diff.previous_filename ≡ some old)
              × (object_at owner repo head_sha old removed ≡ o)))

  In-previous :
      (p : Option FilePath) (o : Object)
      → In o (previous owner repo head_sha p)
        ↔ ((old : FilePath) × (p ≡ some old) × (object_at owner repo head_sha old removed ≡ o))
  In-previous none o = (λ i. elim i [ ], λ (old, e, h). cc)
  In-previous (some q) o = (
    λ i. elim i [ inl same ↦ (q, refl, same) | inr n ↦ elim n [ ] ],
    λ (old, e, h). inl (ap (λ x. object_at owner repo head_sha x removed) (some_eq old e) ∙ h),
  )
    where
      some_eq : (old : FilePath) → some q ≡ some old → q ≡ old
      some_eq old e = cc

  In-objects_of :
      (diffs : List DiffEntry) (o : Object)
      → In o (objects_of owner repo head_sha diffs) ↔ IsChange diffs o
  unfolding objects_of
  In-objects_of [] o = (λ i. elim i [ ], λ (d, i, h). elim i [ ])
  In-objects_of (diff ∷ diffs) o =
      let k = In-objects_of diffs o in
      let before = previous owner repo head_sha diff.previous_filename in
      (
        λ i. elim (In-append before _ o i) [
          | inl j ↦ (diff, inl refl, inr ((In-previous diff.previous_filename o).0 j))
          | inr j ↦ elim j [
            | inl same ↦ (diff, inl refl, inl same)
            | inr l ↦ let (d, m, h) = k.0 l in (d, inr m, h)
          ]
        ],
        λ (d, m, h). elim m [
          | inl same ↦
              elim (subst
                (λ x.
                  (object_at owner repo head_sha x.filename x.status ≡ o)
                  ⊎ ((old : FilePath) × (x.previous_filename ≡ some old)
                      × (object_at owner repo head_sha old removed ≡ o)))
                (sym same) h) [
                  | inl file ↦ In-append_right before _ o (inl file)
                  | inr old ↦
                      In-append_left before _ o ((In-previous diff.previous_filename o).1 old)
                ]
          | inr l ↦ In-append_right before _ o (inr (k.1 (d, l, h)))
        ],
      )

  not_ok :
      (P : Type 0) (e : OpenError) (objects : List Object)
      → ◌≡◌ {A = Result OpenError (List Object)} (err e) (ok objects)
      → P
  not_ok P e objects h = cc

  by_state :
      (comment b : Bool) (diffs : List DiffEntry) (objects : List Object)
      → ◌≡◌ {A = Result OpenError (List Object)}
          (if b
            then listed owner repo head_sha (some diffs)
            else refused owner repo head_sha comment)
          (ok objects)
      → b ≡ true
  by_state comment true diffs objects h = refl
  by_state true false diffs objects h = cc
  by_state false false diffs objects h = cc

  by_label :
      (login : Text) (comment : Bool) (pr : PullRequest) (diffs : List DiffEntry)
      (objects : List Object) (branch : Text)
      → ◌≡◌ {A = Result OpenError (List Object)}
          (if some (login ++ b':' ∷ branch) == pr.base_label
            then mergeable owner repo head_sha comment pr (some diffs)
            else err wrong_base)
          (ok objects)
      → (pr.base_label ≡ some (login ++ b':' ∷ branch)) × (is_mergeable pr.mergeable_state ≡ true)
  by_label login comment pr diffs objects branch h =
      elim (Bool-cases (some (login ++ b':' ∷ branch) == pr.base_label)) [
        | inl e ↦ (
          sym ((==_iff (some (login ++ b':' ∷ branch)) pr.base_label).0 e),
          by_state comment (is_mergeable pr.mergeable_state) diffs objects (rw e at h),
        )
        | inr e ↦ not_ok _ wrong_base objects (rw e at h)
      ]

  -- A changeset is opened, with objects, exactly where the repository has a default branch, the pull
  -- request is against it, and its state is unstable, unknown or clean, when GitHub lists its changes.
  -- The objects are then the changed files, with what happened to them, and the old names of moved
  -- files as removed, and nothing else.
  pub from_pull_request_iff :
      (login : Text) (comment : Bool) (pr : PullRequest) (diffs : List DiffEntry)
      → ((objects : List Object) × (from_pull_request owner repo head_sha login comment pr
              (some diffs)
            ≡ ok objects)
          × ((o : Object) → In o objects ↔ IsChange diffs o))
        ↔ ((branch : Text) × (pr.default_branch ≡ some branch)
            × (pr.base_label ≡ some (login ++ b':' ∷ branch))
            × (is_mergeable pr.mergeable_state ≡ true))
  unfolding from_pull_request
  from_pull_request_iff login comment pr diffs = (
    λ (objects, e, h). elim (Option-cases pr.default_branch) [
      | inl f ↦ not_ok _ no_default_branch objects (rw (f, from_pull_request) at e)
      | inr (branch, f) ↦
          let (g, m) =
            by_label login comment pr diffs objects branch (rw (f, from_pull_request) at e) in
          (branch, f, g, m)
    ],
    λ (branch, f, g, m). (
      sort_objects_by_apply_order (objects_of owner repo head_sha diffs),
      rw (f, from_pull_request, (==_iff _ _).1 (sym g), m) refl,
      λ o. (
        (λ i.
            (In-objects_of diffs o).0
              ((In-sort_objects_by_apply_order o (objects_of owner repo head_sha diffs)).0 i)),
        (λ c.
            (In-sort_objects_by_apply_order o (objects_of owner repo head_sha diffs)).1
              ((In-objects_of diffs o).1 c)),
      ),
    ),
  )
