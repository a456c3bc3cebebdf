-- ===== src/Prefixes.antt =====
-- Prefixes of the repository: the checks of `load_autoschematic_config`, `split_prefix_addr` and
-- `path_relative_from` of autoschematic-core/src/util.rs. The configuration is given here by its
-- prefixes, in the order in which the map is visited.
pub mod Relative
pub mod Split
use mathlib.Core.Bool.{xor}
use autoschematic.Prelude.{
  ℕ, ◌≡◌, refl, Bool, true, false, not, ◌&&◌, ◌||◌, Option, none, some, List, [], ◌∷◌, ◌++◌, Text,
  text, trim, strip_text, starts_with, length, any, ◌==◌, list_equality, nat_equality,
  if◌then◌else◌, Result, ok, err, Eq,
}
use autoschematic.FilePath.{
  Component, drive_prefix, root_dir, cur_dir, parent_dir, normal, FilePath, components,
  strip_prefix, is_absolute, component_equality, join,
}

-- The messages of `bail!`.
pub data PrefixError : Type 0 where
  trailing_whitespace : Text → PrefixError
  root_not_alone : PrefixError
  windows_prefix absolute relative_component : Text → PrefixError
  inside_another : Text → Text → PrefixError

check_components : Text → FilePath → Result PrefixError Unit
check_components p [] = ok tt
check_components p (drive_prefix _ ∷ cs) = err (windows_prefix p)
check_components p (root_dir ∷ cs) = err (absolute p)
check_components p (cur_dir ∷ cs) = err (relative_component p)
check_components p (parent_dir ∷ cs) = err (relative_component p)
check_components p (normal _ ∷ cs) = check_components p cs

-- One round of the first loop, given the number of prefixes.
check_prefix : ℕ → Text → Result PrefixError Unit
unfolding check_components
check_prefix n p =
    if trim p == p
    then (if p == text "/"
        then (if n == 1 then ok tt else err root_not_alone)
        else check_components p (components p))
    else err (trailing_whitespace p)

check_each : ℕ → List Text → Result PrefixError Unit
check_each n [] = ok tt
check_each n (p ∷ ps) = elim (check_prefix n p) [ ok _ ↦ check_each n ps | err e ↦ err e ]

-- The inner loop of the second check.
check_against : Text → List Text → Result PrefixError Unit
check_against p [] = ok tt
check_against p (q ∷ qs) =
    let rest = check_against p qs in
    if p == q then rest else if starts_with p q then err (inside_another p q) else rest

check_overlap : List Text → List Text → Result PrefixError Unit
check_overlap all_prefixes [] = ok tt
check_overlap all_prefixes (p ∷ ps) = elim (check_against p all_prefixes) [
  | ok _ ↦ check_overlap all_prefixes ps
  | err e ↦ err e
]

-- The checks that `load_autoschematic_config` makes on a parsed configuration.
unfoldable pub check_prefixes : List Text → Result PrefixError Unit
unfolding check_each check_overlap check_against check_prefix
check_prefixes ps = elim (check_each (length ps) ps) [ ok _ ↦ check_overlap ps ps | err e ↦ err e ]

or_else : Option Text → Text → Text
or_else none s = s
or_else (some t) s = t

-- `s.strip_suffix("/").unwrap_or(s)`
strip_slash : Text → Text
strip_slash [] = []
strip_slash (c ∷ []) = if c == b'/' then [] else c ∷ []
strip_slash (c ∷ d ∷ s) = c ∷ strip_slash (d ∷ s)

unfoldable pub norm_prefix : Text → Text
unfolding or_else strip_slash
norm_prefix p =
    let p1 = strip_slash p in
    let p2 = or_else (strip_text (text "/") p1) p1 in or_else (strip_text (text "./") p2) p2

-- The first prefix that holds the path, and the address below it.
unfoldable pub split_prefix_addr : List Text → FilePath → Option (Text × FilePath)
split_prefix_addr [] path = none
split_prefix_addr (p ∷ ps) path =
    let rest = split_prefix_addr ps path in
    elim (strip_prefix path (components (norm_prefix p))) [
      | none ↦ rest
      | some addr ↦ some (p, addr)
    ]

-- The rounds of `path_relative_from` that only have the base left.
dots : FilePath → FilePath
dots [] = []
dots (_ ∷ base) = parent_dir ∷ dots base

abbrev is_empty : FilePath → Bool
is_empty [] = true
is_empty _ = false

-- The loop of `path_relative_from` over both lists; `comps` is what was pushed so far.
relative_loop : FilePath → FilePath → FilePath → Option FilePath
relative_loop [] [] comps = some comps
relative_loop (a ∷ ita) [] comps = some (comps ++ a ∷ ita)
relative_loop [] (b ∷ itb) comps = relative_loop [] itb (comps ++ parent_dir ∷ [])
relative_loop (a ∷ ita) (b ∷ itb) comps =
    let next = relative_loop ita itb comps in
    let pushed = relative_loop ita itb (comps ++ a ∷ []) in
    if is_empty comps && a == b
    then next
    else if b == cur_dir
    then pushed
    else if b == parent_dir
    then none
    else some (comps ++ parent_dir ∷ (dots itb ++ a ∷ ita))

-- `.collect()` into a `PathBuf` pushes the components one by one.
collect : FilePath → FilePath → FilePath
collect out [] = out
collect out (c ∷ cs) = collect (join out (c ∷ [])) cs

unfoldable pub path_relative_from : FilePath → FilePath → Option FilePath
unfolding relative_loop dots collect xor
path_relative_from path base =
    if xor (is_absolute path) (is_absolute base)
    then (if is_absolute path then some path else none)
    else (elim (relative_loop path base []) [ none ↦ none | some comps ↦ some (collect [] comps) ])
