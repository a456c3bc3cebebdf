-- ===== src/Outputs.antt =====
-- Output files: `OutputMapFile` of autoschematic-core/src/connector.rs. The code of `serde_json` is a
-- parameter. A chain of pointers is followed on fuel; `diverged` is a recursion that has not ended.
pub mod Naming
pub mod Pointers
pub mod Merge
pub mod Frame
use autoschematic.Prelude.{
  ℕ, zero, suc, ◌≡◌, refl, Bool, true, false, Option, none, some, List, [], ◌∷◌, ◌++◌, Text, text,
  if◌then◌else◌, nat_equality, list_equality,
}
use autoschematic.Prelude.Dict
use autoschematic.Prelude.Dict.{Dict}
use autoschematic.FilePath.{
  Component, root_dir, cur_dir, parent_dir, normal, FilePath, component_equality, join, parent,
  file_name, components,
}
use autoschematic.Disk.{Disk, file, write_file, remove_file}

abbrev pub OutputMap : Type 0
OutputMap = Dict Text Text

-- A value to set, or `none` for a key to delete.
abbrev pub OutputMapExec : Type 0
OutputMapExec = Dict Text (Option Text)

pub data OutputMapFile : Type 0 where
  pointer_to_virtual : FilePath → OutputMapFile
  output_map : OutputMap → OutputMapFile

-- `serde_json`: what is written is read back.
pub record Json : Type 0 where
  pub encode : OutputMapFile → Text
  pub decode : Text → Option OutputMapFile
  pub decode-encode : (o : OutputMapFile) → decode (encode o) ≡ some o

pub data Outcome (A : Type 0) : Type 0 where
  ok : A → Outcome A
  bad_json link_file diverged : Outcome A

infixl 10 ◌>>=◌
abbrev pub ◌>>=◌ : {A B : Type 0} → Outcome A → (A → Outcome B) → Outcome B
ok a >>= f = f a
bad_json >>= f = bad_json
link_file >>= f = link_file
diverged >>= f = diverged

-- The normal components of a parent; others are left out.
unfoldable pub normal_only : FilePath → FilePath
normal_only [] = []
normal_only (normal s ∷ p) = normal s ∷ normal_only p
normal_only (c ∷ p) = normal_only p

abbrev or_empty : Option Text → Text
or_empty none = []
or_empty (some s) = s

abbrev parents : Option FilePath → FilePath
parents none = []
parents (some p) = normal_only p

-- `OutputMapFile::path`
unfoldable pub output_path : FilePath → FilePath → FilePath
unfolding normal_only
output_path prefix addr =
    join (normal (text ".autoschematic") ∷ []) prefix
    ++ (parents (parent addr) ++ normal (or_empty (file_name addr) ++ text ".out.json") ∷ [])

-- The loop of `apply_output_map` over the keys to set or delete.
unfoldable pub merge : OutputMapExec → OutputMap → OutputMap
merge [] m = m
merge ((key, some value) ∷ exec) m = merge exec (Dict.insert key value m)
merge ((key, none) ∷ exec) m = merge exec (Dict.remove key m)

-- `read_recurse(..)?.unwrap_or(..)`, and the refusal of a link.
original_map : Option OutputMapFile → Outcome OutputMap
original_map none = ok []
original_map (some (output_map m)) = ok m
original_map (some (pointer_to_virtual _)) = link_file

module _ (json : Json) where
  open json use {encode, decode}

  decode_file : Text → Outcome (Option OutputMapFile)
  decode_file s = elim (decode s) [ none ↦ bad_json | some o ↦ ok (some o) ]

  unfoldable pub read : FilePath → FilePath → Disk → Outcome (Option OutputMapFile)
  unfolding decode_file
  read prefix addr d = elim (file d (output_path prefix addr)) [
    | none ↦ ok none
    | some s ↦ decode_file s
  ]

  unfoldable pub read_recurse : ℕ → FilePath → FilePath → Disk → Outcome (Option OutputMapFile)
  read_recurse zero prefix addr d = diverged
  read_recurse (suc fuel) prefix addr d = elim (read prefix addr d) [
    | ok none ↦ ok none
    | ok (some (pointer_to_virtual virt_addr)) ↦ read_recurse fuel prefix virt_addr d
    | ok (some (output_map m)) ↦ ok (some (output_map m))
    | bad_json ↦ bad_json
    | link_file ↦ link_file
    | diverged ↦ diverged
  ]

  -- The address of the map that a chain of pointers ends at, `OutputMapFile::resolve`.
  unfoldable pub resolve : ℕ → FilePath → FilePath → Disk → Outcome (Option FilePath)
  resolve zero prefix addr d = diverged
  resolve (suc fuel) prefix addr d = elim (read prefix addr d) [
    | ok none ↦ ok none
    | ok (some (pointer_to_virtual virt_addr)) ↦ resolve fuel prefix virt_addr d
    | ok (some (output_map m)) ↦ ok (some addr)
    | bad_json ↦ bad_json
    | link_file ↦ link_file
    | diverged ↦ diverged
  ]

  -- `OutputMapFile::get`
  unfoldable pub get : ℕ → FilePath → FilePath → Text → Disk → Outcome (Option Text)
  get zero prefix addr key d = diverged
  get (suc fuel) prefix addr key d = elim (read prefix addr d) [
    | ok none ↦ ok none
    | ok (some (pointer_to_virtual virt_addr)) ↦ get fuel prefix virt_addr key d
    | ok (some (output_map m)) ↦ ok (Dict.get key m)
    | bad_json ↦ bad_json
    | link_file ↦ link_file
    | diverged ↦ diverged
  ]

  -- `write`: a file that exists is removed first.
  unfoldable pub write : OutputMapFile → FilePath → FilePath → Disk → Disk
  write o prefix addr d =
      let p = output_path prefix addr in write_file p (encode o) (remove_file p d)

  unfoldable pub write_recurse : ℕ → OutputMapFile → FilePath → FilePath → Disk → Outcome Disk
  write_recurse zero o prefix addr d = diverged
  write_recurse (suc fuel) o prefix addr d = elim (read prefix addr d) [
    | ok none ↦ ok (write_file (output_path prefix addr) (encode o) d)
    | ok (some (pointer_to_virtual virt_addr)) ↦ write_recurse fuel o prefix virt_addr d
    | ok (some (output_map m)) ↦ ok (write_file (output_path prefix addr) (encode o) d)
    | bad_json ↦ bad_json
    | link_file ↦ link_file
    | diverged ↦ diverged
  ]

  store_map : ℕ → FilePath → FilePath → OutputMap → Disk → Outcome (Option FilePath × Disk)
  store_map fuel prefix addr [] d = ok (none, d)
  store_map fuel prefix addr (e ∷ m) d = do
    d' ← write_recurse fuel (output_map (e ∷ m)) prefix addr d
    ok (some (output_path prefix addr), d')

  -- The path written to, or `none` if no key is left; then nothing is written.
  unfoldable pub apply_output_map :
      ℕ → FilePath → FilePath → OutputMapExec → Disk → Outcome (Option FilePath × Disk)
  unfolding original_map store_map
  apply_output_map fuel prefix addr exec d = do
    original ← read_recurse fuel prefix addr d
    m ← original_map original
    store_map fuel prefix addr (merge exec m) d

  unfoldable pub write_link : FilePath → FilePath → FilePath → Disk → FilePath × Disk
  write_link prefix phy_addr virt_addr d =
      (output_path prefix phy_addr, write (pointer_to_virtual virt_addr) prefix phy_addr d)

unfoldable pub delete : FilePath → FilePath → Disk → Option FilePath × Disk
delete prefix addr d =
    let path = output_path prefix addr in
    elim (file d path) [ none ↦ (none, d) | some _ ↦ (some path, remove_file path d) ]
