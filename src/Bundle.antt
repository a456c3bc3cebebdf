-- ===== src/Bundle.antt =====
-- Bundles: `BundleMapFile` of autoschematic-core/src/bundle.rs, and the two routines that write the
-- elements of an unbundled file: `UnbundleReport::write_to_disk` of autoschematic-core/src/report.rs
-- and `write_unbundle_element` of autoschematic-core/src/workflow/unbundle.rs. The code of `ron` is a
-- parameter, and so is `git add`, which these do not read back.
pub mod Ownership
use autoschematic.Prelude.{
  ℕ, zero, suc, ◌≡◌, refl, Bool, true, false, not, ◌&&◌, Option, none, some, List, [], ◌∷◌, ◌++◌,
  Text, text, if◌then◌else◌, nat_equality, list_equality, ◌==◌,
}
use autoschematic.FilePath.{
  Component, normal, FilePath, component_equality, join, parent, file_name,
}
use autoschematic.Disk.{Disk, file, is_file, write_file, remove_file}
use autoschematic.Outputs.{normal_only}

pub data BundleMapFile : Type 0 where
  bundle : BundleMapFile
  child_of : FilePath → BundleMapFile

-- `ron`: what is written is read back.
pub record Ron : Type 0 where
  pub encode : BundleMapFile → Text
  pub decode : Text → Option BundleMapFile
  pub decode-encode : (b : BundleMapFile) → decode (encode b) ≡ some b

pub data Outcome (A : Type 0) : Type 0 where
  ok : A → Outcome A
  bad_ron other_bundle not_in_bundle diverged : Outcome A

infixl 10 ◌>>=◌
abbrev pub ◌>>=◌ : {A B : Type 0} → Outcome A → (A → Outcome B) → Outcome B
ok a >>= f = f a
bad_ron >>= f = bad_ron
other_bundle >>= f = other_bundle
not_in_bundle >>= f = not_in_bundle
diverged >>= f = diverged

abbrev name_of : Option Text → Text
name_of none = []
name_of (some s) = s

abbrev dirs_of : Option FilePath → FilePath
dirs_of none = []
dirs_of (some p) = normal_only p

-- `BundleMapFile::path`
unfoldable pub bundle_path : FilePath → FilePath → FilePath
bundle_path prefix addr =
    join prefix (normal (text ".bundle") ∷ [])
    ++ (dirs_of (parent addr) ++ normal (name_of (file_name addr) ++ text ".bun.ron") ∷ [])

pub record Element : Type 0 where
  pub addr : FilePath
  pub contents : Text

module _ (ron : Ron) where
  open ron use {encode, decode}

  decode_bundle : Text → Outcome (Option BundleMapFile)
  decode_bundle s = elim (decode s) [ none ↦ bad_ron | some b ↦ ok (some b) ]

  unfoldable pub read : FilePath → FilePath → Disk → Outcome (Option BundleMapFile)
  unfolding decode_bundle
  read prefix addr d = elim (file d (bundle_path prefix addr)) [
    | none ↦ ok none
    | some s ↦ decode_bundle s
  ]

  -- Follows the parents to a bundle, on fuel.
  unfoldable pub read_recurse : ℕ → FilePath → FilePath → Disk → Outcome (Option BundleMapFile)
  read_recurse zero prefix addr d = diverged
  read_recurse (suc fuel) prefix addr d = elim (read prefix addr d) [
    | ok none ↦ ok none
    | ok (some (child_of parent)) ↦ read_recurse fuel prefix parent d
    | ok (some bundle) ↦ ok (some bundle)
    | bad_ron ↦ bad_ron
    | other_bundle ↦ other_bundle
    | not_in_bundle ↦ not_in_bundle
    | diverged ↦ diverged
  ]

  unfoldable pub write : BundleMapFile → FilePath → FilePath → Disk → Disk
  write b prefix addr d =
      let p = bundle_path prefix addr in write_file p (encode b) (remove_file p d)

  unfoldable pub write_link : FilePath → FilePath → FilePath → Disk → FilePath × Disk
  unfolding write
  write_link prefix child parent d =
      (bundle_path prefix child, write (child_of parent) prefix child d)

  -- What stands at an element's file when `overbundle` is not set.
  check_owner : FilePath → Option BundleMapFile → Outcome Unit
  check_owner parent none = not_in_bundle
  check_owner parent (some bundle) = ok tt
  check_owner parent (some (child_of other_parent)) =
      if other_parent == parent then ok tt else other_bundle

  unfoldable pub check_element : FilePath → FilePath → Element → Bool → Disk → Outcome Unit
  unfolding check_owner
  check_element prefix parent element overbundle d =
      if not overbundle && is_file d (join prefix element.addr)
      then (do owner ← read prefix element.addr d; check_owner parent owner)
      else ok tt

  -- The paths that the caller gives to `git add` when it stages come back beside the disk.
  unfoldable pub write_unbundle_element :
      FilePath → FilePath → Element → Bool → Bool → Disk → Outcome (List FilePath × Disk)
  unfolding write_link
  write_unbundle_element prefix parent element overbundle git_stage d = do
    _ ← check_element prefix parent element overbundle d
    let output = join prefix element.addr
    let (map_path, d') =
        write_link prefix element.addr parent (write_file output element.contents d)
    ok (if git_stage then output ∷ map_path ∷ [] else [], d')

  -- The loop of `write_to_disk`: it stops at the first element that is refused, and what was written
  -- before it stays.
  unfoldable pub write_elements :
      FilePath → FilePath → List Element → Bool → Disk → Outcome Unit × Disk
  write_elements prefix addr [] overbundle d = (ok tt, d)
  write_elements prefix addr (element ∷ rest) overbundle d =
      elim (check_element prefix addr element overbundle d) [
        | ok _ ↦
            write_elements prefix addr rest overbundle
              (write_link prefix element.addr addr
                (write_file (join prefix element.addr) element.contents d)).1
        | bad_ron ↦ (bad_ron, d)
        | other_bundle ↦ (other_bundle, d)
        | not_in_bundle ↦ (not_in_bundle, d)
        | diverged ↦ (diverged, d)
      ]

-- `BundleMapFile::delete`
unfoldable pub delete : FilePath → FilePath → Disk → Option FilePath × Disk
delete prefix addr d =
    let path = bundle_path prefix addr in
    elim (file d path) [ none ↦ (none, d) | some _ ↦ (some path, remove_file path d) ]
