-- ===== src/Resource.antt =====
-- Writing an imported resource: `GetResourceResponse::write` of autoschematic-core/src/connector.rs.
pub mod Roundtrip
use autoschematic.Prelude.{
  Bool, true, false, Option, none, some, List, [], ◌∷◌, ◌++◌, Text, ◌==◌, list_equality,
  nat_equality, if◌then◌else◌,
}
use autoschematic.FilePath.{FilePath, component_equality, join}
use autoschematic.Disk.{Disk, write_file}
use autoschematic.Outputs.{Json, OutputMap, output_map, output_path, write, write_link}

pub record GetResourceResponse : Type 0 where
  pub resource_definition : Text
  pub virt_addr : Option FilePath
  pub outputs : Option OutputMap

abbrev hinted : FilePath → Option FilePath → FilePath
hinted addr none = addr
hinted addr (some self_virt_addr) = self_virt_addr

-- The address hinted by the resource counts where no other virtual address is given.
unfoldable pub address_of : GetResourceResponse → (phy_addr virt_addr : FilePath) → FilePath
address_of r phy_addr virt_addr =
    if phy_addr == virt_addr then hinted virt_addr r.virt_addr else virt_addr

module _ (json : Json) where
  unfoldable pub write_outputs :
      FilePath → (phy_addr virt_addr : FilePath) → Option OutputMap → Disk → List FilePath × Disk
  write_outputs prefix phy_addr virt_addr (some (e ∷ outputs)) d =
      let d' = write json (output_map (e ∷ outputs)) prefix virt_addr d in
      if virt_addr == phy_addr
      then (output_path prefix virt_addr ∷ [], d')
      else (let (link, d'') = write_link json prefix phy_addr virt_addr d' in
          (output_path prefix virt_addr ∷ link ∷ [], d''))
  write_outputs prefix phy_addr virt_addr _ d = ([], d)

  -- The paths that were written, and the files.
  unfoldable pub write_resource :
      GetResourceResponse → FilePath → (phy_addr virt_addr : FilePath) → Disk → List FilePath × Disk
  unfolding write_outputs
  write_resource r prefix phy_addr virt_addr d =
      let addr = address_of r phy_addr virt_addr in
      let path = join prefix addr in
      let (written, d') =
        write_outputs prefix phy_addr addr r.outputs (write_file path r.resource_definition d) in
      (path ∷ written, d')
