-- ===== src/Objects/Stable.antt =====
-- The sort is stable, so nothing is lost or doubled.
use autoschematic.Prelude.{
  ℕ, ◌≡◌, refl, ap, ◌∙◌, Bool, true, false, ◌&&◌, List, [], ◌∷◌, ◌++◌, ◌==◌, ==_iff, nat_equality,
  Bool-cases, inl, inr, append-nil, arith,
}
use autoschematic.Objects.{
  Object, is_removed, is_created, depth, keep, insert_object, sort_objects, reverse_objects,
  sort_objects_by_apply_order,
}

-- The objects of one kind at one depth.
abbrev pub at : (Object → Bool) → ℕ → Object → Bool
at kind n o = kind o && depth o == n

keep-append : (f : Object → Bool) (os ps : List Object) → keep f (os ++ ps) ≡ keep f os ++ keep f ps
unfolding keep
keep-append f [] ps = refl
keep-append f (o ∷ os) ps = elim (Bool-cases (f o)) [
  | inl e ↦ rw e (ap (λ t. o ∷ t) (keep-append f os ps))
  | inr e ↦ rw e (keep-append f os ps)
]

keep-reverse_objects :
    (f : Object → Bool) (os : List Object)
    → keep f (reverse_objects os) ≡ reverse_objects (keep f os)
unfolding keep reverse_objects
keep-reverse_objects f [] = refl
keep-reverse_objects f (o ∷ os) =
    keep-append f (reverse_objects os) (o ∷ [])
    ∙ rw (keep-reverse_objects f os) (elim (Bool-cases (f o)) [
      | inl e ↦ rw (e, reverse_objects) refl
      | inr e ↦ rw e (append-nil (reverse_objects (keep f os)))
    ])

module _ (kind : Object → Bool) (n : ℕ) where
  keep-insert_object :
      (o : Object) (os : List Object)
      → keep (at kind n) (insert_object o os) ≡ keep (at kind n) (o ∷ os)
  unfolding keep insert_object
  keep-insert_object o [] = refl
  keep-insert_object o (p ∷ os) =
      ground (arith, keep-insert_object o os, ==_iff (depth o) n, ==_iff (depth p) n)

  keep-sort_objects : (os : List Object) → keep (at kind n) (sort_objects os) ≡ keep (at kind n) os
  unfolding keep sort_objects
  keep-sort_objects [] = refl
  keep-sort_objects (o ∷ os) =
      keep-insert_object o (sort_objects os) ∙ rw (keep-sort_objects os) refl

  keep_same : (os : List Object) → keep (at kind n) (keep kind os) ≡ keep (at kind n) os
  unfolding keep
  keep_same [] = refl
  keep_same (o ∷ os) = ground (arith, keep_same os)

  keep_other :
      (other : Object → Bool) (os : List Object)
      → ((o : Object) → other o ≡ true → kind o ≡ false)
      → keep (at kind n) (keep other os) ≡ []
  unfolding keep
  keep_other other [] h = refl
  keep_other other (o ∷ os) h = ground (arith, keep_other other os h, h o)

-- At each depth, the created and modified objects stand in the result in the order in which they were
-- given, and the removed ones in the reverse order; so no object is lost or doubled.
pub keep-sort_objects_by_apply_order :
    (objects : List Object) (n : ℕ)
    → (keep (at is_created n) (sort_objects_by_apply_order objects)
        ≡ keep (at is_created n) objects)
      × (keep (at is_removed n) (sort_objects_by_apply_order objects)
          ≡ reverse_objects (keep (at is_removed n) objects))
unfolding sort_objects_by_apply_order reverse_objects
keep-sort_objects_by_apply_order objects n =
    let created = keep is_created objects in
    let gone = keep is_removed objects in
    (
      keep-append (at is_created n) (sort_objects created) (reverse_objects (sort_objects gone))
          ∙ rw
              (
                keep-sort_objects is_created n created,
                keep_same is_created n objects,
                keep-reverse_objects (at is_created n) (sort_objects gone),
                keep-sort_objects is_created n gone,
                keep_other is_created n is_removed objects (λ o h. ground arith),
                reverse_objects,
              )
              (append-nil (keep (at is_created n) objects)),
      keep-append (at is_removed n) (sort_objects created) (reverse_objects (sort_objects gone))
          ∙ rw
              (
                keep-sort_objects is_removed n created,
                keep_other is_removed n is_created objects (λ o h. ground arith),
                keep-reverse_objects (at is_removed n) (sort_objects gone),
                keep-sort_objects is_removed n gone,
                keep_same is_removed n objects,
              )
              refl,
    )
