-- ===== src/Glob.antt =====
-- Filters on resource addresses: autoschematic-core/src/glob.rs.
pub mod Laws
use autoschematic.Prelude.{
  ◌≡◌, refl, Bool, true, false, ◌||◌, List, [], ◌∷◌, Text, text, leb, length, ◌==◌, list_equality,
  nat_equality, if◌then◌else◌,
}
use autoschematic.FilePath.{
  Component, drive_prefix, root_dir, cur_dir, parent_dir, normal, FilePath,
}

-- `.components().filter(|c| *c != Component::CurDir)`
unfoldable pub without_cur_dir : FilePath → FilePath
without_cur_dir [] = []
without_cur_dir (cur_dir ∷ p) = without_cur_dir p
without_cur_dir (c ∷ p) = c ∷ without_cur_dir p

-- One round of the loop.
abbrev pub component_matches : Component → Component → Bool
component_matches (normal full) (normal filter) = full == filter || filter == text "*"
component_matches _ _ = false

-- The loop over the zipped components.
unfoldable pub zip_matches : FilePath → FilePath → Bool
zip_matches (c ∷ p) (f ∷ fs) =
    let rest = zip_matches p fs in if component_matches c f then rest else false
zip_matches _ _ = true

unfoldable pub addr_matches_filter : FilePath → FilePath → Bool
unfolding without_cur_dir zip_matches
addr_matches_filter addr filter =
    let full_path_components = without_cur_dir addr in
    let filter_components = without_cur_dir filter in
    if leb (length filter_components) (length full_path_components)
    then zip_matches full_path_components filter_components
    else false
