-- ===== src/Tests/OutputTests.antt =====
-- Tests of `OutputMapFile` of autoschematic-core/src/connector.rs.
use autoschematic.Prelude.{
  ◌≡◌, ◌⊎◌, refl, Option, none, some, [], ◌∷◌, text, arith, nat_equality, list_equality,
}
use autoschematic.Prelude.Dict
use autoschematic.FilePath.{normal, FilePath, component_equality, join, parent, file_name}
use autoschematic.Disk.{Disk, file}
use autoschematic.Outputs.{
  OutputMap, OutputMapExec, pointer_to_virtual, output_map, ok, diverged, output_path, read,
  read_recurse, resolve, get, apply_output_map, merge, delete,
}
use autoschematic.Outputs.Pointers.{
  PointsTo, here, next, at_map, value_in, pointers_followed, cycle_diverges,
}
use autoschematic.Prelude.Dict.{HasDistinctKeys}
use autoschematic.Outputs.Merge.{merged, Reported, apply_output_map_lem}
use autoschematic.Tests.Codec.{json, encode_output, decode_output}

abbrev prefix : FilePath
prefix = normal (text "aws") ∷ []

abbrev phy : FilePath
phy = normal (text "vpc-1.ron") ∷ []

abbrev virt : FilePath
virt = normal (text "main.ron") ∷ []

abbrev outputs : OutputMap
outputs = (text "vpc_id", text "vpc-1") ∷ (text "cidr", text "10") ∷ []

abbrev virt_path : FilePath
virt_path =
    normal (text ".autoschematic") ∷ normal (text "aws") ∷ normal (text "main.ron.out.json") ∷ []

abbrev phy_path : FilePath
phy_path =
    normal (text ".autoschematic") ∷ normal (text "aws") ∷ normal (text "vpc-1.ron.out.json") ∷ []

paths : (output_path prefix virt ≡ virt_path) × (output_path prefix phy ≡ phy_path)
unfolding output_path join parent file_name
paths = (refl, refl)

-- The physical address points to the virtual one.
abbrev linked : Disk
linked =
    (phy_path, json.encode (pointer_to_virtual virt))
    ∷ (virt_path, json.encode (output_map outputs))
    ∷ []

phy_points : PointsTo json prefix linked phy virt
unfolding read output_path join parent file_name Dict.get encode_output decode_output
phy_points = refl

virt_map : read json prefix virt linked ≡ ok (some (output_map outputs))
unfolding read output_path join parent file_name Dict.get encode_output decode_output
virt_map = refl

pointers_followed_example :
    (read_recurse json 2 prefix phy linked ≡ ok (some (output_map outputs)))
    × (resolve json 2 prefix phy linked ≡ ok (some virt))
    × (get json 2 prefix phy (text "cidr") linked ≡ ok (value_in (text "cidr") (some outputs)))
pointers_followed_example =
    pointers_followed json prefix linked 1 2 phy virt (some outputs) (text "cidr") (omega arith)
      (next phy_points here) (at_map virt_map)

-- A link written from an address to itself.
abbrev looped : Disk
looped = (phy_path, json.encode (pointer_to_virtual phy)) ∷ []

loops : PointsTo json prefix looped phy phy
unfolding read output_path join parent file_name Dict.get encode_output decode_output
loops = refl

cycle_diverges_example :
    (read_recurse json 7 prefix phy looped ≡ diverged)
    × (resolve json 7 prefix phy looped ≡ diverged)
    × (get json 7 prefix phy (text "cidr") looped ≡ diverged)
cycle_diverges_example = cycle_diverges json prefix looped 7 phy (text "cidr") (0, next loops here)

-- One key is deleted, one is set.
abbrev changes : OutputMapExec
changes = (text "cidr", none) ∷ (text "arn", some (text "a")) ∷ []

distinct : HasDistinctKeys changes
unfolding Dict.get
distinct = (refl, (refl, tt))

apply_output_map_lem_example :
    (path : Option FilePath) × (d' : Disk) × (apply_output_map json 2 prefix phy changes linked
      ≡ ok (path, d'))
    × Reported json prefix linked 2 phy
        (λ key. merged (Dict.get key changes) (value_in key (some outputs)))
        path
        d'
    × ((p : FilePath) → (output_path prefix virt ≡ p) ⊎ (file d' p ≡ file linked p))
apply_output_map_lem_example =
    apply_output_map_lem json prefix linked 1 2 phy virt (some outputs) changes (omega arith)
      (next phy_points here) (at_map virt_map) distinct

-- All keys are deleted: nothing is written, and the file keeps its old values.
stale :
    apply_output_map json 2 prefix virt ((text "vpc_id", none) ∷ (text "cidr", none) ∷ []) linked
    ≡ ok (none, linked)
unfolding apply_output_map read_recurse read output_path join parent file_name Dict.get
    encode_output decode_output merge Dict.remove
stale = refl

deleted :
    delete prefix virt linked
    ≡ (some virt_path, (phy_path, json.encode (pointer_to_virtual virt)) ∷ [])
unfolding delete output_path join parent file_name Dict.get Dict.remove
deleted = refl
