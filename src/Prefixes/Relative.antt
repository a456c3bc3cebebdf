-- ===== src/Prefixes/Relative.antt =====
-- The path that `path_relative_from` returns leads from the base to the path.
use autoschematic.Prelude.{
  subst, ◌≡◌, refl, ap, sym, ◌∙◌, Bool, true, false, some, [], ◌∷◌, ◌++◌, ◌==◌, ==_iff, Bool-cases,
  inl, inr, append-nil, append_assoc, arith,
}
use autoschematic.FilePath.{
  Component, root_dir, cur_dir, parent_dir, normal, FilePath, component_equality, join, is_absolute,
  AllNormal,
}
use autoschematic.Prefixes.{dots, relative_loop, collect, path_relative_from}

-- The path that components lead to, with no file system: `..` goes up, `.` stays. The stack holds
-- the way so far, its end first.
abbrev up : FilePath → FilePath
up [] = []
up (_ ∷ st) = st

pub walk : FilePath → FilePath → FilePath
walk st [] = st
walk st (parent_dir ∷ p) = walk (up st) p
walk st (cur_dir ∷ p) = walk st p
walk st (c ∷ p) = walk (c ∷ st) p

walk-append : (st p q : FilePath) → walk st (p ++ q) ≡ walk (walk st p) q
unfolding walk
walk-append st [] q = refl
walk-append st (parent_dir ∷ p) q = walk-append (up st) p q
walk-append st (cur_dir ∷ p) q = walk-append st p q
walk-append st (c ∷ p) q = walk-append (c ∷ st) p q

dots_snoc : (b r : FilePath) → dots b ++ parent_dir ∷ r ≡ parent_dir ∷ (dots b ++ r)
unfolding dots
dots_snoc [] r = refl
dots_snoc (x ∷ b) r = ap (λ t. parent_dir ∷ t) (dots_snoc b r)

-- Going down and up again comes back.
walk-dots : (st b r : FilePath) → AllNormal b → walk st (b ++ (dots b ++ r)) ≡ walk st r
unfolding walk dots
walk-dots st [] r h = refl
walk-dots st (normal x ∷ b) r (n, h) =
    rw (← dots_snoc b r) (walk-dots (normal x ∷ st) b (parent_dir ∷ r) h)
walk-dots st (c ∷ b) r (n, h) = cc

loop_up : (b comps : FilePath) → relative_loop [] b comps ≡ some (comps ++ dots b)
unfolding relative_loop dots
loop_up [] comps = rw append-nil
loop_up (x ∷ b) comps =
    loop_up b (comps ++ parent_dir ∷ []) ∙ ap some (append_assoc comps (parent_dir ∷ []) (dots b))

-- What the loop returns, in terms of the common start of path and base.
record Split (path base r : FilePath) : Type 0 where
  common : FilePath
  above : FilePath
  below : FilePath
  path_eq : path ≡ common ++ below
  base_eq : base ≡ common ++ above
  r_eq : r ≡ dots above ++ below

Split-cons : (c : Component) {p b r : FilePath} → Split p b r → Split (c ∷ p) (c ∷ b) r
Split-cons c s = record {
  common = c ∷ s.common;
  above = s.above;
  below = s.below;
  path_eq = ap (λ t. c ∷ t) s.path_eq;
  base_eq = ap (λ t. c ∷ t) s.base_eq;
  r_eq = s.r_eq;
}

loop_splits :
    (p b : FilePath) → AllNormal b → (r : FilePath) × (relative_loop p b [] ≡ some r) × Split p b r
unfolding relative_loop dots
loop_splits [] b h = (
  dots b,
  loop_up b [],
  record {
    common = [];
    above = b;
    below = [];
    path_eq = refl;
    base_eq = refl;
    r_eq = rw append-nil;
  },
)
loop_splits (a ∷ p) [] h = (
  a ∷ p,
  refl,
  record { common = []; above = []; below = a ∷ p; path_eq = refl; base_eq = refl; r_eq = refl },
)
loop_splits (a ∷ p) (normal x ∷ b) (n, h) = elim (Bool-cases (a == normal x)) [
  | inl e ↦
      let (r, q, s) = loop_splits p b h in
      (r, rw e q, rw ((==_iff a (normal x)).0 e) (Split-cons (normal x) s))
  | inr e ↦ (
    parent_dir ∷ (dots b ++ a ∷ p),
    rw e refl,
    record {
      common = [];
      above = normal x ∷ b;
      below = a ∷ p;
      path_eq = refl;
      base_eq = refl;
      r_eq = refl;
    },
  )
]
loop_splits (a ∷ p) (c ∷ b) (n, h) = absurd (ground arith)

-- A component that joining puts after a path that is not empty.
collect-normal : (out cs : FilePath) → AllNormal cs → collect out cs ≡ out ++ cs
unfolding collect join
collect-normal out [] h = rw append-nil
collect-normal [] (normal x ∷ cs) (n, h) = collect-normal (normal x ∷ []) cs h
collect-normal (o ∷ out) (normal x ∷ cs) (n, h) =
    collect-normal (o ∷ (out ++ normal x ∷ [])) cs h
    ∙ ap (λ t. o ∷ t) (append_assoc out (normal x ∷ []) cs)
collect-normal out (c ∷ cs) (n, h) = cc

collect-dots : (out b cs : FilePath) → collect out (dots b ++ cs) ≡ collect (out ++ dots b) cs
unfolding collect join dots
collect-dots out [] cs = rw append-nil
collect-dots [] (x ∷ b) cs = collect-dots (parent_dir ∷ []) b cs
collect-dots (o ∷ out) (x ∷ b) cs =
    collect-dots (o ∷ (out ++ parent_dir ∷ [])) b cs
    ∙ ap (λ t. collect (o ∷ t) cs) (append_assoc out (parent_dir ∷ []) (dots b))

AllNormal-right : (p q : FilePath) → AllNormal (p ++ q) → AllNormal q
AllNormal-right [] q h = h
AllNormal-right (c ∷ p) q (n, h) = AllNormal-right p q h

collect-Split : {path base r : FilePath} → Split path base r → AllNormal path → collect [] r ≡ r
collect-Split s hp =
    let h = AllNormal-right s.common s.below (subst AllNormal s.path_eq hp) in
    rw s.r_eq (collect-dots [] s.above s.below ∙ collect-normal (dots s.above) s.below h)

walk-Split :
    {path base r : FilePath} (st : FilePath)
    → Split path base r
    → AllNormal base
    → walk st (base ++ r) ≡ walk st path
walk-Split {path} {base} {r} st s hb =
    let h = AllNormal-right s.common s.above (subst AllNormal s.base_eq hb) in
    rw (s.base_eq, s.r_eq, s.path_eq)
      (ap (walk st) (append_assoc s.common s.above (dots s.above ++ s.below))
        ∙ walk-append st s.common (s.above ++ (dots s.above ++ s.below))
        ∙ walk-dots (walk st s.common) s.above s.below h
        ∙ sym (walk-append st s.common s.below))

-- A path of normal components, absolute or relative.
abbrev pub rooted : Bool → FilePath → FilePath
rooted true p = root_dir ∷ p
rooted false p = p

is_absolute-normal : (p : FilePath) → AllNormal p → is_absolute p ≡ false
is_absolute-normal [] h = refl
is_absolute-normal (normal x ∷ p) h = refl
is_absolute-normal (c ∷ p) (n, h) = cc

-- For a path and a base of normal components, both absolute or both relative, a result is found,
-- and the base followed by it leads where the path leads.
pub walk-path_relative_from :
    (absolute : Bool) (path base : FilePath)
    → AllNormal path
    → AllNormal base
    → (r : FilePath) × (path_relative_from (rooted absolute path) (rooted absolute base) ≡ some r)
      × (walk [] (rooted absolute base ++ r) ≡ walk [] (rooted absolute path))
unfolding path_relative_from walk
walk-path_relative_from true path base hp hb =
    let (r, e, s) = loop_splits path base hb in
    (r, rw e (ap some (collect-Split s hp)), walk-Split (root_dir ∷ []) s hb)
walk-path_relative_from false path base hp hb =
    let (r, e, s) = loop_splits path base hb in
    (
      r,
      rw (is_absolute-normal path hp, is_absolute-normal base hb, e, path_relative_from)
          (ap some (collect-Split s hp)),
      walk-Split [] s hb,
    )
