-- ===== src/Glob/Laws.antt =====
-- `addr_matches_filter` decides a relation: the filter is a pattern for a leading part of the
-- address.
use autoschematic.Prelude.{
  ◌≡◌, ◌↔◌, refl, Bool, true, false, [], ◌∷◌, ◌++◌, Text, text, leb, length, ◌==◌, ==_iff, ==_refl,
  Bool-cases, inl, inr, subst, ap, list_equality, nat_equality, if◌then◌else◌, arith,
}
use autoschematic.FilePath.{cur_dir, normal, FilePath}
use autoschematic.Glob.{without_cur_dir, zip_matches, addr_matches_filter}

-- The filter `fs` selects the address and all below it.
pub data Selects : FilePath → FilePath → Type 0 where
  all_below : {p : FilePath} → Selects [] p
  same : {a : Text} {fs p : FilePath} → Selects fs p → Selects (normal a ∷ fs) (normal a ∷ p)
  star :
      {a s : Text} {fs p : FilePath}
      → s ≡ text "*"
      → Selects fs p
      → Selects (normal s ∷ fs) (normal a ∷ p)

abbrev bounded_match : FilePath → FilePath → Bool
bounded_match p fs = if leb (length fs) (length p) then zip_matches p fs else false

bounded_match_sound : (p fs : FilePath) → bounded_match p fs ≡ true → Selects fs p
unfolding zip_matches
bounded_match_sound p [] h = all_below
bounded_match_sound [] (f ∷ fs) h = absurd (ground arith)
bounded_match_sound (normal a ∷ p) (normal s ∷ fs) h =
    let below : Selects fs p = bounded_match_sound p fs (ground arith) in
    elim (Bool-cases (a == s)) [
      | inl e ↦ subst (λ x. Selects (normal x ∷ fs) (normal a ∷ p)) ((==_iff a s).0 e) (same below)
      | inr e ↦ star ((==_iff s (text "*")).0 (ground arith)) below
    ]
bounded_match_sound (c ∷ p) (f ∷ fs) h = absurd (ground arith)

bounded_match_nil : (p : FilePath) → bounded_match p [] ≡ true
unfolding zip_matches
bounded_match_nil [] = refl
bounded_match_nil (c ∷ p) = ground arith

bounded_match_complete : {fs p : FilePath} → Selects fs p → bounded_match p fs ≡ true
unfolding zip_matches
bounded_match_complete {p} all_below = bounded_match_nil p
bounded_match_complete (same {a} h) = ground (arith, ==_refl a, bounded_match_complete h)
bounded_match_complete (star {a} {s} e h) =
    ground (arith, (==_iff s (text "*")).1 e, bounded_match_complete h)

-- The filter matches exactly where, with all `.` left out, it is a pattern for a leading part of the
-- address: each of its components is a normal component, the address's component there is a normal
-- one too, and both are the same or the filter's is `*`. A filter with `..` or a first slash matches
-- nothing, not even itself; what follows that part of the address may be any component.
pub addr_matches_filter_iff :
    (addr filter : FilePath)
    → (addr_matches_filter addr filter ≡ true)
      ↔ Selects (without_cur_dir filter) (without_cur_dir addr)
unfolding addr_matches_filter
addr_matches_filter_iff addr filter =
    (bounded_match_sound (without_cur_dir addr) (without_cur_dir filter), bounded_match_complete)

Selects-append : {fs p : FilePath} (q : FilePath) → Selects fs p → Selects fs (p ++ q)
Selects-append q all_below = all_below
Selects-append q (same h) = same (Selects-append q h)
Selects-append q (star e h) = star e (Selects-append q h)

without_cur_dir-append :
    (p q : FilePath) → without_cur_dir (p ++ q) ≡ without_cur_dir p ++ without_cur_dir q
unfolding without_cur_dir
without_cur_dir-append [] q = refl
without_cur_dir-append (cur_dir ∷ p) q = without_cur_dir-append p q
without_cur_dir-append (c ∷ p) q = ap (λ r. c ∷ r) (without_cur_dir-append p q)

-- A filter that matches an address matches every address below it.
pub addr_matches_filter-append :
    (addr below filter : FilePath)
    → addr_matches_filter addr filter ≡ true
    → addr_matches_filter (addr ++ below) filter ≡ true
addr_matches_filter-append addr below filter h =
    (addr_matches_filter_iff (addr ++ below) filter).1 (
      rw (without_cur_dir-append addr below)
        (Selects-append (without_cur_dir below) ((addr_matches_filter_iff addr filter).0 h)))
