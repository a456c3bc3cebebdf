-- ===== src/Objects/Members.antt =====
-- The members of a list of objects that is sorted, reversed or filtered.
use autoschematic.Prelude.{
  ◌≡◌, ◌↔◌, ◌⊎◌, inl, inr, sym, subst, Bool, true, List, [], ◌∷◌, In, In-append, In-append_left,
  In-append_right, leb, Bool-cases, list_equality, nat_equality, option_equality, arith,
}
use autoschematic.Objects.{
  Object, is_removed, is_created, depth, keep, insert_object, sort_objects, reverse_objects,
  sort_objects_by_apply_order,
}

In-insert_object :
    (x o : Object) (os : List Object) → In o (insert_object x os) ↔ ((x ≡ o) ⊎ In o os)
unfolding insert_object
In-insert_object x o [] = (λ i. i, λ i. i)
In-insert_object x o (p ∷ os) = elim (Bool-cases (leb (depth x) (depth p))) [
  | inl e ↦ (λ i. rw e at i, λ i. rw e i)
  | inr e ↦
      let h = In-insert_object x o os in
      (
        λ i. elim (rw e at i) [
          | inl same ↦ inr (inl same)
          | inr later ↦ elim (h.0 later) [ inl same ↦ inl same | inr j ↦ inr (inr j) ]
        ],
        λ i. rw e (elim i [
          | inl same ↦ inr (h.1 (inl same))
          | inr j ↦ elim j [ inl same ↦ inl same | inr k ↦ inr (h.1 (inr k)) ]
        ]),
      )
]

In-sort_objects : (o : Object) (os : List Object) → In o (sort_objects os) ↔ In o os
unfolding sort_objects
In-sort_objects o [] = (λ i. i, λ i. i)
In-sort_objects o (x ∷ os) =
    let h = In-insert_object x o (sort_objects os) in
    let k = In-sort_objects o os in
    (
      λ i. elim (h.0 i) [ inl same ↦ inl same | inr j ↦ inr (k.0 j) ],
      λ i. h.1 (elim i [ inl same ↦ inl same | inr j ↦ inr (k.1 j) ]),
    )

In-reverse_objects : (o : Object) (os : List Object) → In o (reverse_objects os) ↔ In o os
unfolding reverse_objects
In-reverse_objects o [] = (λ i. i, λ i. i)
In-reverse_objects o (x ∷ os) =
    let k = In-reverse_objects o os in
    (
      λ i. elim (In-append (reverse_objects os) (x ∷ []) o i) [
        | inl j ↦ inr (k.0 j)
        | inr j ↦ elim j [ inl same ↦ inl same | inr n ↦ elim n [ ] ]
      ],
      λ i. elim i [
        | inl same ↦ In-append_right (reverse_objects os) (x ∷ []) o (inl same)
        | inr j ↦ In-append_left (reverse_objects os) (x ∷ []) o (k.1 j)
      ],
    )

In-keep :
    (f : Object → Bool) (o : Object) (os : List Object)
    → In o (keep f os) ↔ (In o os × (f o ≡ true))
unfolding keep
In-keep f o [] = (λ i. elim i [ ], λ (i, e). i)
In-keep f o (x ∷ os) =
    let k = In-keep f o os in
    elim (Bool-cases (f x)) [
      | inl e ↦ (
        λ i. elim (rw e at i) [
          | inl same ↦ (inl same, subst (λ y. f y ≡ true) same e)
          | inr j ↦ let (m, t) = k.0 j in (inr m, t)
        ],
        λ (i, t). rw e (elim i [ inl same ↦ inl same | inr j ↦ inr (k.1 (j, t)) ]),
      )
      | inr e ↦ (
        λ i. let (m, t) = k.0 (rw e at i) in (inr m, t),
        λ (i, t). rw e (elim i [
          | inl same ↦ let u : f x ≡ true = subst (λ y. f y ≡ true) (sym same) t in cc
          | inr j ↦ k.1 (j, t)
        ]),
      )
    ]

created_or_removed : (o : Object) → (is_created o ≡ true) ⊎ (is_removed o ≡ true)
created_or_removed o = ground arith

pub In-sort_objects_by_apply_order :
    (o : Object) (os : List Object) → In o (sort_objects_by_apply_order os) ↔ In o os
unfolding sort_objects_by_apply_order
In-sort_objects_by_apply_order o os =
    let created = sort_objects (keep is_created os) in
    let deleted = reverse_objects (sort_objects (keep is_removed os)) in
    (
      λ i. elim (In-append created deleted o i) [
        | inl j ↦ ((In-keep is_created o os).0 ((In-sort_objects o (keep is_created os)).0 j)).0
        | inr j ↦
            ((In-keep is_removed o os).0 (
              (In-sort_objects o (keep is_removed os)).0
                ((In-reverse_objects o (sort_objects (keep is_removed os))).0 j))).0
      ],
      λ i. elim (created_or_removed o) [
        | inl e ↦
            In-append_left created deleted o
              ((In-sort_objects o (keep is_created os)).1 ((In-keep is_created o os).1 (i, e)))
        | inr e ↦ In-append_right created deleted o (
            (In-reverse_objects o (sort_objects (keep is_removed os))).1
              ((In-sort_objects o (keep is_removed os)).1 ((In-keep is_removed o os).1 (i, e))))
      ],
    )
