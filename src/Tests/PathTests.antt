-- ===== src/Tests/PathTests.antt =====
-- Tests of autoschematic-core/src/util.rs, glob.rs and of the paths of output files.
use autoschematic.Prelude.{
  ◌≡◌, ◌≢◌, ◌↔◌, ◌⊎◌, refl, true, false, none, some, List, [], ◌∷◌, ◌++◌, Text, text, In, All, trim,
  strip_text, starts_with, ok, err, nat_equality, list_equality,
}
use autoschematic.FilePath.{
  cur_dir, parent_dir, normal, FilePath, components, component_equality, strip_prefix, join,
}
use autoschematic.Prefixes.{
  check_prefixes, norm_prefix, split_prefix_addr, path_relative_from, inside_another,
}
use autoschematic.Prefixes.Split.{
  IsPrefixName, check_prefixes_iff, split_prefix_addr_sound, split_prefix_addr-none,
}
use autoschematic.Prefixes.Relative.{walk, rooted, walk-path_relative_from}
use autoschematic.Glob.{addr_matches_filter, without_cur_dir}
use autoschematic.Glob.Laws.{Selects, addr_matches_filter_iff, addr_matches_filter-append}
use autoschematic.Outputs.Naming.{output_path-injective}

abbrev aws_and_gcp : List Text
aws_and_gcp = text "aws" ∷ text "env/gcp" ∷ []

two_prefixes : check_prefixes aws_and_gcp ≡ ok tt
unfolding check_prefixes components trim starts_with
two_prefixes = refl

-- The comparison is one of texts: these directories stand side by side.
side_by_side :
    check_prefixes (text "aws-test" ∷ text "aws" ∷ [])
    ≡ err (inside_another (text "aws-test") (text "aws"))
unfolding check_prefixes components trim starts_with
side_by_side = refl

-- And these are the same directory.
same_directory : check_prefixes (text "a//b" ∷ text "a/b" ∷ []) ≡ ok tt
unfolding check_prefixes components trim starts_with
same_directory = refl

check_prefixes_iff_example : (check_prefixes aws_and_gcp ≡ ok tt) ↔ (
    All (IsPrefixName 2) aws_and_gcp
    × All (λ p. All (λ q. (p ≡ q) ⊎ (starts_with p q ≡ false)) aws_and_gcp) aws_and_gcp)
check_prefixes_iff_example = check_prefixes_iff aws_and_gcp

abbrev bucket : FilePath
bucket = normal (text "env") ∷ normal (text "gcp") ∷ normal (text "bucket.ron") ∷ []

splits_bucket :
    split_prefix_addr aws_and_gcp bucket ≡ some (text "env/gcp", normal (text "bucket.ron") ∷ [])
unfolding split_prefix_addr norm_prefix components strip_prefix strip_text
splits_bucket = refl

split_prefix_addr_sound_example :
    In (text "env/gcp") aws_and_gcp
    × (components (norm_prefix (text "env/gcp")) ++ normal (text "bucket.ron") ∷ [] ≡ bucket)
split_prefix_addr_sound_example =
    split_prefix_addr_sound aws_and_gcp bucket (text "env/gcp") (normal (text "bucket.ron") ∷ [])
      splits_bucket

abbrev elsewhere : FilePath
elsewhere = normal (text "azure") ∷ []

split_prefix_addr-none_example :
    (split_prefix_addr aws_and_gcp elsewhere ≡ none)
    ↔ All (λ p. (addr : FilePath) → components (norm_prefix p) ++ addr ≢ elsewhere) aws_and_gcp
split_prefix_addr-none_example = split_prefix_addr-none aws_and_gcp elsewhere

abbrev from_here : FilePath
from_here = normal (text "env") ∷ normal (text "aws") ∷ []

relative_bucket :
    path_relative_from (rooted true bucket) (rooted true from_here)
    ≡ some (parent_dir ∷ normal (text "gcp") ∷ normal (text "bucket.ron") ∷ [])
unfolding path_relative_from join
relative_bucket = refl

walk-path_relative_from_example :
    (r : FilePath) × (path_relative_from (rooted true bucket) (rooted true from_here) ≡ some r)
    × (walk [] (rooted true from_here ++ r) ≡ walk [] (rooted true bucket))
walk-path_relative_from_example =
    walk-path_relative_from true bucket from_here (refl, (refl, (refl, tt))) (refl, (refl, tt))

abbrev starred : FilePath
starred = cur_dir ∷ normal (text "*") ∷ normal (text "gcp") ∷ []

starred_matches : addr_matches_filter bucket starred ≡ true
unfolding addr_matches_filter
starred_matches = refl

addr_matches_filter_iff_example :
    (addr_matches_filter bucket starred ≡ true)
    ↔ Selects (without_cur_dir starred) (without_cur_dir bucket)
addr_matches_filter_iff_example = addr_matches_filter_iff bucket starred

below_bucket : addr_matches_filter (bucket ++ elsewhere) starred ≡ true
below_bucket = addr_matches_filter-append bucket elsewhere starred starred_matches

output_path-injective_example :
    from_here ++ normal (text "b") ∷ [] ≡ from_here ++ normal (text "b") ∷ []
output_path-injective_example =
    output_path-injective elsewhere from_here from_here (text "b") (text "b") (refl, (refl, tt))
      (refl, (refl, tt)) refl
