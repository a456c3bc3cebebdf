-- ===== src/Disk.antt =====
-- The files below the working directory, as the code reads and writes them through `std::fs`: a map
-- from path to content. Directories are made by the code where it needs them and are not modelled,
-- and input and output do not fail. Paths are told apart by their components: `a/../b` and `b` are two
-- files here and may be one file there, so what is said of a file speaks of paths with normal
-- components.
use autoschematic.Prelude.{Bool, true, false, Option, none, some, Text, nat_equality, list_equality}
use autoschematic.Prelude.Dict
use autoschematic.Prelude.Dict.{Dict}
use autoschematic.FilePath.{FilePath, component_equality}

abbrev pub Disk : Type 0
Disk = Dict FilePath Text

abbrev pub file : Disk → FilePath → Option Text
file d p = Dict.get p d

abbrev pub write_file : FilePath → Text → Disk → Disk
write_file p s d = Dict.insert p s d

abbrev pub remove_file : FilePath → Disk → Disk
remove_file p d = Dict.remove p d

-- `Path::is_file`
abbrev pub is_file : Disk → FilePath → Bool
is_file d p = elim (file d p) [ none ↦ false | some _ ↦ true ]
