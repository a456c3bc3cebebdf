-- ===== src/Outputs/Frame.antt =====
-- The operations on output files leave every other file as it is.
use autoschematic.Prelude.{
  ℕ, zero, suc, ◌≡◌, ◌≢◌, refl, ◌∙◌, Option, none, some, [], ◌∷◌, Text, ==_iff, list_equality,
  nat_equality, inl, inr, Option-cases, arith,
}
use autoschematic.Prelude.Dict.{get-insert, get-remove}
use autoschematic.FilePath.{FilePath, component_equality}
use autoschematic.Disk.{Disk, file, write_file, remove_file}
use autoschematic.Outputs.{
  Json, OutputMap, OutputMapFile, OutputMapExec, pointer_to_virtual, output_map, Outcome, ok,
  bad_json, link_file, diverged, ◌>>=◌, read, read_recurse, write_recurse, original_map, store_map,
  merge, apply_output_map, write_link, write, delete, output_path,
}

module _ (json : Json) (prefix p : FilePath)
    (apart : (addr : FilePath) → output_path prefix addr ≢ p) where
  pub file-write_file :
      (addr : FilePath) (s : Text) (d : Disk)
      → file (write_file (output_path prefix addr) s d) p ≡ file d p
  file-write_file addr s d = ground (
    arith,
    get-insert (output_path prefix addr) p s d,
    ==_iff (output_path prefix addr) p,
    apart addr,
  )

  pub file-remove_file :
      (addr : FilePath) (d : Disk) → file (remove_file (output_path prefix addr) d) p ≡ file d p
  file-remove_file addr d = ground (
    arith,
    get-remove (output_path prefix addr) p d,
    ==_iff (output_path prefix addr) p,
    apart addr,
  )

  pub file-write_link :
      (phy virt : FilePath) (d : Disk) → file (write_link json prefix phy virt d).1 p ≡ file d p
  unfolding write_link write
  file-write_link phy virt d =
      file-write_file phy (json.encode (pointer_to_virtual virt))
        (remove_file (output_path prefix phy) d)
      ∙ file-remove_file phy d

  pub file-delete : (addr : FilePath) (d : Disk) → file (delete prefix addr d).1 p ≡ file d p
  unfolding delete
  file-delete addr d = elim (Option-cases (file d (output_path prefix addr))) [
    | inl e ↦ rw (e, delete) refl
    | inr (s, e) ↦ rw (e, delete) (file-remove_file addr d)
  ]

  -- A disk that comes back, if one does, has the file as it was.
  abbrev pub KeepsIn : {A : Type 0} → (A → Disk) → Disk → Outcome A → Type 0
  KeepsIn disk d (ok a) = file (disk a) p ≡ file d p
  KeepsIn disk d _ = Unit

  write_recurse_keeps :
      (fuel : ℕ) (o : OutputMapFile) (addr : FilePath) (d : Disk)
      → KeepsIn (λ x. x) d (write_recurse json fuel o prefix addr d)
  unfolding write_recurse
  write_recurse_keeps zero o addr d = tt
  write_recurse_keeps (suc fuel) o addr d =
      by_read (read json prefix addr d) (λ v. write_recurse_keeps fuel o v d)
    where
      by_read :
          (r : Outcome (Option OutputMapFile))
          → ((v : FilePath) → KeepsIn (λ x. x) d (write_recurse json fuel o prefix v d))
          → KeepsIn
              (λ x. x)
              d
              (elim r [
                | ok none ↦ ok (write_file (output_path prefix addr) (json.encode o) d)
                | ok (some (pointer_to_virtual virt_addr)) ↦
                    write_recurse json fuel o prefix virt_addr d
                | ok (some (output_map m)) ↦
                    ok (write_file (output_path prefix addr) (json.encode o) d)
                | bad_json ↦ bad_json
                | link_file ↦ link_file
                | diverged ↦ diverged
              ])
      by_read (ok none) ih = file-write_file addr (json.encode o) d
      by_read (ok (some (pointer_to_virtual v))) ih = ih v
      by_read (ok (some (output_map m))) ih = file-write_file addr (json.encode o) d
      by_read bad_json ih = tt
      by_read link_file ih = tt
      by_read diverged ih = tt

  store_map_keeps :
      (fuel : ℕ) (addr : FilePath) (m : OutputMap) (d : Disk)
      → KeepsIn (λ (x : Option FilePath × Disk). x.1) d (store_map json fuel prefix addr m d)
  unfolding store_map
  store_map_keeps fuel addr [] d = refl
  store_map_keeps fuel addr (e ∷ m) d =
      by_write (write_recurse json fuel (output_map (e ∷ m)) prefix addr d)
        (write_recurse_keeps fuel (output_map (e ∷ m)) addr d)
    where
      by_write :
          (w : Outcome Disk)
          → KeepsIn (λ x. x) d w
          → KeepsIn
              (λ (x : Option FilePath × Disk). x.1)
              d
              (w >>= λ d'. ok (some (output_path prefix addr), d'))
      by_write (ok d') h = h
      by_write bad_json h = tt
      by_write link_file h = tt
      by_write diverged h = tt

  pub apply_output_map_keeps :
      (fuel : ℕ) (addr : FilePath) (exec : OutputMapExec) (d : Disk)
      → KeepsIn
          (λ (x : Option FilePath × Disk). x.1)
          d
          (apply_output_map json fuel prefix addr exec d)
  unfolding apply_output_map
  apply_output_map_keeps fuel addr exec d = by_read (read_recurse json fuel prefix addr d)
    where
      by_map :
          (o : Outcome OutputMap)
          → KeepsIn
              (λ (x : Option FilePath × Disk). x.1)
              d
              (o >>= λ m. store_map json fuel prefix addr (merge exec m) d)
      by_map (ok m) = store_map_keeps fuel addr (merge exec m) d
      by_map bad_json = tt
      by_map link_file = tt
      by_map diverged = tt

      by_read :
          (r : Outcome (Option OutputMapFile))
          → KeepsIn
              (λ (x : Option FilePath × Disk). x.1)
              d
              (r >>= λ original.
                original_map original >>= λ m. store_map json fuel prefix addr (merge exec m) d)
      by_read (ok original) = by_map (original_map original)
      by_read bad_json = tt
      by_read link_file = tt
      by_read diverged = tt
