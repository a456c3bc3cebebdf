-- ===== src/Commands/Rename.antt =====
-- `rename` of autoschematic-core/src/workflow/rename.rs. The move to the root of the repository is left
-- out, and directories are made where they are needed.
pub mod Moved
use autoschematic.Prelude.{
  ℕ, suc, Bool, true, false, Option, none, some, List, [], ◌∷◌, Text, Result, ok, err, ◌==◌,
  list_equality, nat_equality, if◌then◌else◌,
}
use autoschematic.Prelude.Dict
use autoschematic.FilePath.{FilePath, component_equality, components, join}
use autoschematic.Disk.{Disk, file, write_file, remove_file}
use autoschematic.Prefixes.{split_prefix_addr}
use autoschematic.Outputs.{Json, OutputMapFile, Outcome, read_recurse, write, write_link}
use autoschematic.ConnectorCache.{Config, ConnectorDef, PrefixDef, World}
use autoschematic.Workflow.{
  VirtToPhyResponse, not_present, deferred, present, null, Connector, State, call,
}
use autoschematic.Commands.{
  Tool, CommandError, not_in_prefix, prefix_changed, no_such_prefix, no_phy_address, no_output_file,
  output_file_failed, copy_failed, Step, go_on, ◌>>=◌, done, fail, on_files, visit,
}

prefix_names : Config → List Text
prefix_names [] = []
prefix_names ((name, prefix) ∷ config) = name ∷ prefix_names config

abbrev set_disk : {C R : Type 0} → Disk → Tool C R → Tool C R
set_disk d s = record s { files = record s.files { disk = d } }

module _ {C R : Type 0} (json : Json) (fuel : ℕ) (prefix old_addr new_addr : FilePath) where
  -- The copy of the resource file, and the removal of the old one.
  unfoldable pub move_file : Disk → Option Text → Step C R Unit
  move_file d none s = (err copy_failed, set_disk d s)
  move_file d (some body) s = (
    ok tt,
    set_disk (remove_file (join prefix old_addr) (write_file (join prefix new_addr) body d)) s,
  )

  -- The outputs are written at the new address, and the physical address links to it.
  unfoldable pub with_outputs : FilePath → Outcome (Option OutputMapFile) → Step C R Unit
  unfolding move_file
  with_outputs phy_addr (Outcome.ok (some o)) s =
      let d =
        write json o prefix new_addr (write_link json prefix phy_addr new_addr s.files.disk).1 in
      move_file d (file d (join prefix old_addr)) s
  with_outputs phy_addr (Outcome.ok none) s = (err no_output_file, s)
  with_outputs phy_addr Outcome.diverged s = (err CommandError.diverged, s)
  with_outputs phy_addr _ s = (err output_file_failed, s)

  unfoldable pub rename_response : VirtToPhyResponse → Step C R Unit
  unfolding with_outputs
  rename_response (present phy_addr) s =
      with_outputs phy_addr (read_recurse json fuel prefix old_addr s.files.disk) s
  rename_response not_present s = (err CommandError.not_present, s)
  rename_response (deferred reads) s = (err CommandError.not_present, s)
  rename_response (null phy_addr) s = (err no_phy_address, s)

  unfoldable pub rename_resource : Connector R → Step C R Unit
  unfolding rename_response
  rename_resource c = do
    response ← on_files (call (c.addr_virt_to_phy old_addr))
    rename_response response

module _ {C R : Type 0} (world : ℕ → World C) (connector : C → Connector R) (config : Config)
    (json : Json) (fuel : ℕ) where
  visited : FilePath → (old_addr new_addr : FilePath) → Option C → Step C R Unit
  visited prefix old_addr new_addr none = done tt
  visited prefix old_addr new_addr (some c) =
      rename_resource json fuel prefix old_addr new_addr (connector c)

  -- Every connector of the prefix whose resource the old address is renames it.
  unfoldable pub rename_with :
      ℕ → Text → (old_addr new_addr : FilePath) → List ConnectorDef → Step C R Unit
  unfolding visited
  rename_with i prefix old_addr new_addr [] = done tt
  rename_with i prefix old_addr new_addr (d ∷ ds) = do
    c ← visit world connector config i false prefix old_addr d
    u ← visited (components prefix) old_addr new_addr c
    rename_with (suc i) prefix old_addr new_addr ds

  renamed : Option (Text × FilePath) → Option (Text × FilePath) → Step C R Unit
  unfolding rename_with
  renamed (some (old_prefix, old_addr)) (some (prefix, new_addr)) =
      if components old_prefix == components prefix
      then elim (Dict.get prefix config) [
        | none ↦ fail no_such_prefix
        | some prefix_def ↦ rename_with 0 prefix old_addr new_addr prefix_def.connectors
      ]
      else fail prefix_changed
  renamed _ _ = fail not_in_prefix

  unfoldable pub rename : (old_addr new_addr : FilePath) → Step C R Unit
  unfolding renamed prefix_names
  rename old_addr new_addr =
      renamed (split_prefix_addr (prefix_names config) old_addr)
        (split_prefix_addr (prefix_names config) new_addr)
