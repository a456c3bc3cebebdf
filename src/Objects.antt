-- ===== src/Objects.antt =====
-- The order in which changed files are applied: `sort_objects_by_apply_order` of
-- autoschematic-server/src/object.rs. `sorted_by_key` of itertools is a stable sort.
pub mod Order
pub mod Members
pub mod Stable
use autoschematic.Prelude.{
  ℕ, ◌≡◌, refl, Bool, true, false, not, List, [], ◌∷◌, ◌++◌, String, length, leb, if◌then◌else◌,
}
use autoschematic.FilePath.{FilePath}

-- `DiffEntryStatus` of octocrab.
pub data DiffStatus : Type 0 where
  added removed modified renamed copied changed unchanged : DiffStatus

pub record Object : Type 0 where
  pub owner : String
  pub repo : String
  pub head_sha : String
  pub filename : FilePath
  pub diff_status : DiffStatus

abbrev removed_status : DiffStatus → Bool
removed_status removed = true
removed_status _ = false

abbrev pub is_removed : Object → Bool
is_removed o = removed_status o.diff_status

abbrev pub is_created : Object → Bool
is_created o = not (removed_status o.diff_status)

abbrev pub depth : Object → ℕ
depth o = length o.filename

unfoldable pub keep : (Object → Bool) → List Object → List Object
keep f [] = []
keep f (o ∷ os) = let rest = keep f os in if f o then o ∷ rest else rest

-- `sorted_by_key` with the number of components, by insertion; equal keys stay in order.
unfoldable pub insert_object : Object → List Object → List Object
insert_object o [] = o ∷ []
insert_object o (p ∷ os) =
    let later = insert_object o os in if leb (depth o) (depth p) then o ∷ p ∷ os else p ∷ later

unfoldable pub sort_objects : List Object → List Object
sort_objects [] = []
sort_objects (o ∷ os) = insert_object o (sort_objects os)

unfoldable pub reverse_objects : List Object → List Object
reverse_objects [] = []
reverse_objects (o ∷ os) = reverse_objects os ++ o ∷ []

unfoldable pub sort_objects_by_apply_order : List Object → List Object
sort_objects_by_apply_order objects =
    let created = sort_objects (keep is_created objects) in
    let deleted = reverse_objects (sort_objects (keep is_removed objects)) in created ++ deleted
