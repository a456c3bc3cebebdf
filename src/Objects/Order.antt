-- ===== src/Objects/Order.antt =====
-- `sort_objects_by_apply_order` keeps the three rules of its comment, and it is stable.
use autoschematic.Prelude.{
  ◌≡◌, ◌≤◌, ◌⊎◌, inl, inr, Bool, true, false, List, [], ◌∷◌, ◌++◌, All, leb, nat_equality,
  Bool-cases, arith, leb→le, leb→lt,
}
use autoschematic.Objects.{
  Object, is_removed, is_created, depth, keep, insert_object, sort_objects, reverse_objects,
  sort_objects_by_apply_order,
}

-- One object may stand before another: what is created or modified before what is removed, the
-- former by increasing depth, the latter by decreasing depth.
abbrev pub Before : Object → Object → Type 0
Before o p =
    ((is_removed o ≡ false) × (is_removed p ≡ true))
    ⊎ ((is_removed o ≡ false) × (is_removed p ≡ false) × (depth o ≤ depth p))
    ⊎ ((is_removed o ≡ true) × (is_removed p ≡ true) × (depth p ≤ depth o))

module _ (R : Object → Object → Type 0) where
  -- Each object is in the relation to all that follow.
  abbrev pub Ordered : List Object → Type 0
  Ordered [] = Unit
  Ordered (o ∷ os) = All (R o) os × Ordered os

  All-append : (P : Object → Type 0) (os ps : List Object) → All P os → All P ps → All P (os ++ ps)
  All-append P [] ps h k = k
  All-append P (o ∷ os) ps (x, h) k = (x, All-append P os ps h k)

  Ordered-append :
      (os ps : List Object)
      → Ordered os
      → Ordered ps
      → All (λ o. All (R o) ps) os
      → Ordered (os ++ ps)
  Ordered-append [] ps h k c = k
  Ordered-append (o ∷ os) ps (x, h) k (y, c) =
      (All-append (R o) os ps x y, Ordered-append os ps h k c)

All-map :
    {P Q : Object → Type 0} (os : List Object) → ((o : Object) → P o → Q o) → All P os → All Q os
All-map [] f h = tt
All-map (o ∷ os) f (x, h) = (f o x, All-map os f h)

All-both :
    (P Q : Object → Type 0) (os : List Object) → All P os → All Q os → All (λ o. P o × Q o) os
All-both P Q [] h k = tt
All-both P Q (o ∷ os) (x, h) (y, k) = ((x, y), All-both P Q os h k)

All-keep : (f : Object → Bool) (os : List Object) → All (λ o. f o ≡ true) (keep f os)
unfolding keep
All-keep f [] = tt
All-keep f (o ∷ os) = elim (Bool-cases (f o)) [
  | inl e ↦ rw e (e, All-keep f os)
  | inr e ↦ rw e (All-keep f os)
]

All-insert_object :
    (P : Object → Type 0) (o : Object) (os : List Object)
    → P o
    → All P os
    → All P (insert_object o os)
unfolding insert_object
All-insert_object P o [] x h = (x, tt)
All-insert_object P o (p ∷ os) x (y, h) = elim (Bool-cases (leb (depth o) (depth p))) [
  | inl e ↦ rw e (x, (y, h))
  | inr e ↦ rw e (y, All-insert_object P o os x h)
]

All-sort_objects : (P : Object → Type 0) (os : List Object) → All P os → All P (sort_objects os)
unfolding sort_objects
All-sort_objects P [] h = tt
All-sort_objects P (o ∷ os) (x, h) =
    All-insert_object P o (sort_objects os) x (All-sort_objects P os h)

All-reverse_objects :
    (P : Object → Type 0) (os : List Object) → All P os → All P (reverse_objects os)
unfolding reverse_objects
All-reverse_objects P [] h = tt
All-reverse_objects P (o ∷ os) (x, h) =
    All-append (λ a b. Unit) P (reverse_objects os) (o ∷ []) (All-reverse_objects P os h) (x, tt)

-- By increasing depth, by decreasing depth.
abbrev Shallower : Object → Object → Type 0
Shallower o p = depth o ≤ depth p

abbrev Deeper : Object → Object → Type 0
Deeper o p = depth p ≤ depth o

insert_object-Ordered :
    (o : Object) (os : List Object) → Ordered Shallower os → Ordered Shallower (insert_object o os)
unfolding insert_object
insert_object-Ordered o [] h = (tt, tt)
insert_object-Ordered o (p ∷ os) (x, h) = elim (Bool-cases (leb (depth o) (depth p))) [
  | inl e ↦
      let le = leb→le (depth o) (depth p) e in
      rw e ((le, All-map os (λ q (y : depth p ≤ depth q). omega (arith, le, y)) x), (x, h))
  | inr e ↦
      let lt = leb→lt (depth o) (depth p) e in
      rw e
        (All-insert_object (Shallower p) o os (omega (arith, lt)) x, insert_object-Ordered o os h)
]

sort_objects-Ordered : (os : List Object) → Ordered Shallower (sort_objects os)
unfolding sort_objects
sort_objects-Ordered [] = tt
sort_objects-Ordered (o ∷ os) = insert_object-Ordered o (sort_objects os) (sort_objects-Ordered os)

reverse_objects-Ordered :
    (os : List Object) → Ordered Shallower os → Ordered Deeper (reverse_objects os)
unfolding reverse_objects
reverse_objects-Ordered [] h = tt
reverse_objects-Ordered (o ∷ os) (x, h) =
    Ordered-append Deeper (reverse_objects os) (o ∷ []) (reverse_objects-Ordered os h) (tt, tt)
      (All-map (reverse_objects os) (λ p y. (y, tt)) (All-reverse_objects (Shallower o) os x))

-- The order of two objects of one kind.
Ordered-map :
    (R Q : Object → Object → Type 0) (P : Object → Type 0) (os : List Object)
    → ((o p : Object) → P o → P p → R o p → Q o p)
    → All P os
    → Ordered R os
    → Ordered Q os
Ordered-map R Q P [] f h k = tt
Ordered-map R Q P (o ∷ os) f (x, h) (r, k) =
    (All-map os (λ p y. f o p x (y.0) (y.1)) (All-both P (R o) os h r), Ordered-map R Q P os f h k)

abbrev IsCreated : Object → Type 0
IsCreated o = is_created o ≡ true

abbrev IsRemoved : Object → Type 0
IsRemoved o = is_removed o ≡ true

abbrev IsStaying : Object → Type 0
IsStaying o = is_removed o ≡ false

not_removed : (o : Object) → is_created o ≡ true → is_removed o ≡ false
not_removed o h = ground arith

-- In the result every object stands before all that follow it: what is created or modified before
-- what is removed, the former by increasing depth of the path, the latter by decreasing depth.
pub sort_objects_by_apply_order-Ordered :
    (objects : List Object) → Ordered Before (sort_objects_by_apply_order objects)
unfolding sort_objects_by_apply_order
sort_objects_by_apply_order-Ordered objects =
    let created = sort_objects (keep is_created objects) in
    let gone = sort_objects (keep is_removed objects) in
    let is_c =
      All-map created not_removed
        (All-sort_objects IsCreated (keep is_created objects) (All-keep is_created objects)) in
    let is_d = All-sort_objects IsRemoved (keep is_removed objects) (All-keep is_removed objects) in
    let is_r = All-reverse_objects IsRemoved gone is_d in
    Ordered-append Before created (reverse_objects gone)
      (Ordered-map Shallower Before IsStaying created (λ o p x y r. inr (inl (x, y, r))) is_c
        (sort_objects-Ordered (keep is_created objects)))
      (Ordered-map Deeper Before IsRemoved (reverse_objects gone) (λ o p x y r. inr (inr (x, y, r)))
        is_r (reverse_objects-Ordered gone (sort_objects-Ordered (keep is_removed objects))))
      (All-map created (λ o x. All-map (reverse_objects gone) (λ p y. inl (x, y)) is_r) is_c)
