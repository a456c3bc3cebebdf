-- ===== src/Resource/Roundtrip.antt =====
-- The outputs of a written resource are read back through both of its addresses.
use autoschematic.Prelude.{
  ◌≡◌, ◌≢◌, ◌⊎◌, inl, inr, subst, ◌∙◌, some, ◌∷◌, Text, ◌==◌, ==_iff, list_equality, nat_equality,
  Bool-cases, arith,
}
use autoschematic.Prelude.Dict
use autoschematic.Prelude.Dict.{get-insert, get-insert_self, get-remove}
use autoschematic.FilePath.{FilePath, component_equality, join}
use autoschematic.Disk.{Disk, file, write_file, remove_file}
use autoschematic.Outputs.{
  Json, OutputMap, OutputMapFile, pointer_to_virtual, output_map, ok, read, get, output_path, write,
  write_link,
}
use autoschematic.Outputs.Pointers.{here, next, at_map, pointers_followed}
use autoschematic.Resource.{GetResourceResponse, address_of, write_outputs, write_resource}

module _ (json : Json) (prefix : FilePath) where
  read_by_file :
      (addr : FilePath) (o : OutputMapFile) (d : Disk)
      → file d (output_path prefix addr) ≡ some (json.encode o)
      → read json prefix addr d ≡ ok (some o)
  unfolding read
  read_by_file addr o d h = ground (arith, h, json.decode-encode o)

  file-write :
      (addr : FilePath) (o : OutputMapFile) (d : Disk)
      → file (write json o prefix addr d) (output_path prefix addr) ≡ some (json.encode o)
  unfolding write
  file-write addr o d =
      get-insert_self (output_path prefix addr) (json.encode o)
        (remove_file (output_path prefix addr) d)

  file-write_other :
      (addr : FilePath) (o : OutputMapFile) (d : Disk) (p : FilePath)
      → output_path prefix addr ≢ p
      → file (write json o prefix addr d) p ≡ file d p
  unfolding write
  file-write_other addr o d p ne = ground (
    arith,
    get-insert (output_path prefix addr) p (json.encode o)
        (remove_file (output_path prefix addr) d),
    get-remove (output_path prefix addr) p d,
    ==_iff (output_path prefix addr) p,
  )

  -- Reading a map at its address, and through one link.
  get_direct :
      (addr : FilePath) (m : OutputMap) (key : Text) (d : Disk)
      → file d (output_path prefix addr) ≡ some (json.encode (output_map m))
      → get json 2 prefix addr key d ≡ ok (Dict.get key m)
  get_direct addr m key d h =
      (pointers_followed json prefix d 0 2 addr addr (some m) key (omega arith) here
        (at_map (read_by_file addr (output_map m) d h))).2

  get_linked :
      (phy virt : FilePath) (m : OutputMap) (key : Text) (d : Disk)
      → file d (output_path prefix phy) ≡ some (json.encode (pointer_to_virtual virt))
      → file d (output_path prefix virt) ≡ some (json.encode (output_map m))
      → get json 2 prefix phy key d ≡ ok (Dict.get key m)
  get_linked phy virt m key d l h =
      (pointers_followed json prefix d 1 2 phy virt (some m) key (omega arith)
        (next (read_by_file phy (pointer_to_virtual virt) d l) here)
        (at_map (read_by_file virt (output_map m) d h))).2

  -- What the files say after the outputs are written.
  abbrev Written : FilePath → FilePath → OutputMap → FilePath → Disk → Disk → Type 0
  Written phy virt m p d d' =
      ((key : Text)
        → (get json 2 prefix virt key d' ≡ ok (Dict.get key m))
          × (get json 2 prefix phy key d' ≡ ok (Dict.get key m)))
      × (file d' p ≡ file d p)

  write_outputs-Written :
      (phy virt : FilePath) (x : Text × Text) (m : OutputMap) (p : FilePath) (d : Disk)
      → (virt ≡ phy) ⊎ (output_path prefix phy ≢ output_path prefix virt)
      → output_path prefix virt ≢ p
      → output_path prefix phy ≢ p
      → Written phy virt (x ∷ m) p d (write_outputs json prefix phy virt (some (x ∷ m)) d).1
  unfolding write_outputs write_link
  write_outputs-Written phy virt x m p d apart nv np =
      let d' = write json (output_map (x ∷ m)) prefix virt d in
      let stored = file-write virt (output_map (x ∷ m)) d in
      let kept = file-write_other virt (output_map (x ∷ m)) d p nv in
      elim (Bool-cases (virt == phy)) [
        | inl e ↦
            let same = (==_iff virt phy).0 e in
            rw e (
              λ key. (
                get_direct virt (x ∷ m) key d' stored,
                subst (λ a. get json 2 prefix a key d' ≡ ok (Dict.get key (x ∷ m))) same
                    (get_direct virt (x ∷ m) key d' stored),
              ),
              kept,
            )
        | inr e ↦
            let d'' = write json (pointer_to_virtual virt) prefix phy d' in
            let ne : output_path prefix phy ≢ output_path prefix virt = elim apart [
              | inl same ↦ absurd (cc ((==_iff virt phy).1 same, e))
              | inr ne ↦ ne
            ] in
            let stored' =
              file-write_other phy (pointer_to_virtual virt) d' (output_path prefix virt) ne
              ∙ stored in
            let link = file-write phy (pointer_to_virtual virt) d' in
            rw e (
              λ key. (
                get_direct virt (x ∷ m) key d'' stored',
                get_linked phy virt (x ∷ m) key d'' link stored',
              ),
              file-write_other phy (pointer_to_virtual virt) d' p np ∙ kept,
            )
      ]

  -- Where a resource has outputs, and its two addresses are the same or have different output files,
  -- its file holds the definition after the write, if it is none of the output files, and `get` finds
  -- each output under the virtual and under the physical address, with fuel 2.
  pub write_resource_lem :
      (r : GetResourceResponse) (phy_addr virt_addr : FilePath) (x : Text × Text) (m : OutputMap)
      (d : Disk)
      → r.outputs ≡ some (x ∷ m)
      → (address_of r phy_addr virt_addr ≡ phy_addr)
        ⊎ (output_path prefix phy_addr ≢ output_path prefix (address_of r phy_addr virt_addr))
      → output_path prefix (address_of r phy_addr virt_addr)
        ≢ join prefix (address_of r phy_addr virt_addr)
      → output_path prefix phy_addr ≢ join prefix (address_of r phy_addr virt_addr)
      → ((key : Text)
          → (get json 2 prefix
                (address_of r phy_addr virt_addr)
                key
                (write_resource json r prefix phy_addr virt_addr d).1
              ≡ ok (Dict.get key (x ∷ m)))
            × (get json 2 prefix phy_addr key (write_resource json r prefix phy_addr virt_addr d).1
                ≡ ok (Dict.get key (x ∷ m))))
        × (file
              (write_resource json r prefix phy_addr virt_addr d).1
              (join prefix (address_of r phy_addr virt_addr))
            ≡ some r.resource_definition)
  unfolding write_resource address_of
  write_resource_lem r phy_addr virt_addr x m d h apart nv np =
      let addr = address_of r phy_addr virt_addr in
      let p = join prefix addr in
      let (found, kept) =
        write_outputs-Written phy_addr addr x m p (write_file p r.resource_definition d) apart nv
          np in
      rw h (found, kept ∙ get-insert_self p r.resource_definition d)
