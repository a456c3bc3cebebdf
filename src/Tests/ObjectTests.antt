-- ===== src/Tests/ObjectTests.antt =====
-- Tests of autoschematic-server/src/object.rs.
use autoschematic.Prelude.{◌≡◌, refl, List, [], ◌∷◌, text, String}
use autoschematic.FilePath.{normal, FilePath}
use autoschematic.Objects.{
  Object, DiffStatus, added, modified, removed, keep, is_created, is_removed,
  sort_objects_by_apply_order, reverse_objects, insert_object, sort_objects,
}
use autoschematic.Objects.Order.{Ordered, Before, sort_objects_by_apply_order-Ordered}
use autoschematic.Objects.Stable.{at, keep-sort_objects_by_apply_order}

abbrev object : String → DiffStatus → FilePath → Object
object name status p = record {
  owner = "org";
  repo = name;
  head_sha = "1";
  filename = p;
  diff_status = status;
}

abbrev shallow : FilePath
shallow = normal (text "a") ∷ []

abbrev deep : FilePath
deep = normal (text "a") ∷ normal (text "b") ∷ []

abbrev objects : List Object
objects =
    object "1" removed shallow
    ∷ object "2" added deep
    ∷ object "3" removed deep
    ∷ object "4" modified shallow
    ∷ []

sorted_order :
    sort_objects_by_apply_order objects
    ≡ object "4" modified shallow
      ∷ object "2" added deep
      ∷ object "3" removed deep
      ∷ object "1" removed shallow
      ∷ []
unfolding sort_objects_by_apply_order keep reverse_objects sort_objects insert_object
sorted_order = refl

sort_objects_by_apply_order-Ordered_example : Ordered Before (sort_objects_by_apply_order objects)
sort_objects_by_apply_order-Ordered_example = sort_objects_by_apply_order-Ordered objects

keep-sort_objects_by_apply_order_example :
    (keep (at is_created 1) (sort_objects_by_apply_order objects) ≡ keep (at is_created 1) objects)
    × (keep (at is_removed 1) (sort_objects_by_apply_order objects)
        ≡ reverse_objects (keep (at is_removed 1) objects))
keep-sort_objects_by_apply_order_example = keep-sort_objects_by_apply_order objects 1
