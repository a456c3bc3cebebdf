-- ===== src/Commands/Rename/Moved.antt =====
-- The files after a rename.
use autoschematic.Prelude.{
  ℕ, ◌≡◌, ◌≢◌, ap, ◌∙◌, Option, none, some, Text, ok, ◌==◌, ==_iff, list_equality, nat_equality,
  if◌then◌else◌, arith,
}
use autoschematic.Prelude.Dict.{get-insert, get-remove}
use autoschematic.FilePath.{FilePath, component_equality, join}
use autoschematic.Disk.{Disk, file, write_file, remove_file}
use autoschematic.Outputs.{
  Json, OutputMapFile, pointer_to_virtual, Outcome, output_path, read_recurse, write, write_link,
}
use autoschematic.Workflow.{present, Answer, Connector}
use autoschematic.Commands.{Tool, go_on, from_files}
use autoschematic.Commands.Rename.{
  set_disk, move_file, with_outputs, rename_response, rename_resource,
}

module _ (json : Json) (prefix old_addr new_addr phy_addr : FilePath) (o : OutputMapFile)
    (body : Text) where
  -- The content of a path after the rename, by the content before.
  abbrev pub moved : Disk → FilePath → Option Text
  moved d p =
      if join prefix old_addr == p
      then none
      else if join prefix new_addr == p
      then some body
      else if output_path prefix new_addr == p
      then some (json.encode o)
      else if output_path prefix phy_addr == p
      then some (json.encode (pointer_to_virtual new_addr))
      else file d p

  file-write :
      (o : OutputMapFile) (addr p : FilePath) (d : Disk)
      → file (write json o prefix addr d) p
        ≡ (if output_path prefix addr == p then some (json.encode o) else file d p)
  unfolding write
  file-write o addr p d = ground (
    arith,
    get-insert (output_path prefix addr) p (json.encode o)
        (remove_file (output_path prefix addr) d),
    get-remove (output_path prefix addr) p d,
  )

  -- The disk when the resource file is copied.
  abbrev linked : Disk → Disk
  linked d = write json o prefix new_addr (write_link json prefix phy_addr new_addr d).1

  file-linked :
      (d : Disk) (p : FilePath)
      → file (linked d) p ≡ (
          if output_path prefix new_addr == p
          then some (json.encode o)
          else if output_path prefix phy_addr == p
          then some (json.encode (pointer_to_virtual new_addr))
          else file d p)
  unfolding write_link
  file-linked d p = ground (
    arith,
    file-write o new_addr p (write json (pointer_to_virtual new_addr) prefix phy_addr d),
    file-write (pointer_to_virtual new_addr) phy_addr p d,
  )

  file-moved :
      (d : Disk) (p : FilePath)
      → file
          (remove_file (join prefix old_addr) (write_file (join prefix new_addr) body (linked d)))
          p
        ≡ moved d p
  file-moved d p = ground (
    arith,
    get-remove (join prefix old_addr) p (write_file (join prefix new_addr) body (linked d)),
    get-insert (join prefix new_addr) p body (linked d),
    file-linked d p,
  )

-- Where the address resolves to a physical address and its outputs are found, and the resource file is
-- none of the output files that are written, a rename succeeds: the resource file is at the new address
-- and no longer at the old one, the output file of the new address has the outputs of the old, the one
-- of the physical address links to the new address, and every other file is as it was, the output file
-- of the old address included. Renaming an address to itself removes the file.
pub rename_resource_lem :
    {C R : Type 0} (json : Json) (fuel : ℕ) (prefix old_addr new_addr phy_addr : FilePath)
    (c : Connector R) (s : Tool C R) (remote : R) (o : OutputMapFile) (body : Text)
    → c.addr_virt_to_phy old_addr s.files.disk s.files.remote
      ≡ (Answer.ok (present phy_addr), remote)
    → read_recurse json fuel prefix old_addr s.files.disk ≡ Outcome.ok (some o)
    → file s.files.disk (join prefix old_addr) ≡ some body
    → output_path prefix new_addr ≢ join prefix old_addr
    → output_path prefix phy_addr ≢ join prefix old_addr
    → ((rename_resource json fuel prefix old_addr new_addr c s).0 ≡ ok tt)
      × ((p : FilePath)
          → file (rename_resource json fuel prefix old_addr new_addr c s).1.files.disk p
            ≡ moved json prefix old_addr new_addr phy_addr o body s.files.disk p)
unfolding rename_resource rename_response with_outputs move_file
rename_resource_lem {C} {R} json fuel prefix old_addr new_addr phy_addr c s remote o body e f g n
      k =
    (
      ap (λ x. x.0) done_at,
      λ p.
          ap (λ x. file x.1.files.disk p) done_at
          ∙ file-moved json prefix old_addr new_addr phy_addr o body s.files.disk p,
    )
  where
    asked : Tool C R
    asked = record s { files = record s.files { remote = remote } }

    source :
        file
          (linked json prefix old_addr new_addr phy_addr o body s.files.disk)
          (join prefix old_addr)
        ≡ some body
    source =
        file-linked json prefix old_addr new_addr phy_addr o body s.files.disk
          (join prefix old_addr)
        ∙ ground (
          arith,
          g,
          n,
          k,
          ==_iff (output_path prefix new_addr) (join prefix old_addr),
          ==_iff (output_path prefix phy_addr) (join prefix old_addr),
        )

    done_at : rename_resource json fuel prefix old_addr new_addr c s ≡ (
      ok tt,
      set_disk
          (remove_file (join prefix old_addr) (
            write_file
              (join prefix new_addr)
              body
              (linked json prefix old_addr new_addr phy_addr o body s.files.disk)))
          asked,
    )
    done_at =
        ap
          (λ x.
            go_on (rename_response json fuel prefix old_addr new_addr)
              (from_files s (x.0, record s.files { remote = x.1 })))
          e
        ∙ ap (λ r. with_outputs json fuel prefix old_addr new_addr phy_addr r asked) f
        ∙ ap
            (λ b.
              move_file json fuel prefix old_addr new_addr
                (linked json prefix old_addr new_addr phy_addr o body s.files.disk) b asked)
            source
