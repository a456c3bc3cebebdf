-- ===== src/Import.antt =====
-- Importing resources: `import_resource` and the loop over listed addresses of `import_all`, of
-- autoschematic-core/src/workflow/import.rs. The tasks of the loop run one after the other here, and
-- the receiver of the messages does not go away.
pub mod Safety
use autoschematic.Prelude.{
  ℕ, Bool, true, false, not, ◌&&◌, ◌||◌, Option, none, some, List, [], ◌∷◌, ◌++◌, Text, any, ◌==◌,
  list_equality, nat_equality, if◌then◌else◌,
}
use autoschematic.FilePath.{Component, root_dir, FilePath, component_equality, join, strip_prefix}
use autoschematic.Disk.{Disk}
use autoschematic.Glob.{addr_matches_filter}
use autoschematic.Outputs.{Json, output_path}
use autoschematic.Resource.{GetResourceResponse, write_resource}
use autoschematic.Workflow.{Answer, ok, err, State, Step, go_on, ◌>>=◌, done, call, on_disk}

pub data ImportMessage : Type 0 where
  skip_existing get_success not_found : (prefix addr : FilePath) → ImportMessage
  wrote_file : FilePath → ImportMessage

-- The connector's methods that an import calls.
pub record Source (R : Type 0) : Type 0 where
  pub addr_phy_to_virt : FilePath → Disk → R → Answer (Option FilePath) × R
  pub get : FilePath → Disk → R → Answer (Option GetResourceResponse) × R

-- `strip_prefix("/")` of an absolute path.
abbrev pub relative : FilePath → FilePath
relative (root_dir ∷ p) = p
relative p = p

abbrev pub is_below : FilePath → FilePath × Text → Bool
is_below p entry = elim (strip_prefix entry.0 p) [ none ↦ false | some _ ↦ true ]

-- `Path::exists`: a file, or a directory with a file below it.
unfoldable pub exists : FilePath → Disk → Bool
exists p d = any (is_below p) d

abbrev or_phy : FilePath → Option FilePath → FilePath
or_phy phy none = phy
or_phy phy (some virt) = virt

abbrev wrote : List FilePath → List ImportMessage
wrote [] = []
wrote (p ∷ ps) = wrote_file p ∷ wrote ps

module _ {R : Type 0} (json : Json) (c : Source R) (prefix : FilePath)
    (overwrite_existing : Bool) where
  -- What the connector returns is written.
  unfoldable pub import_found :
      (phy_addr virt_addr : FilePath) → Option GetResourceResponse → Step R (List ImportMessage)
  import_found phy_addr virt_addr none = done (not_found prefix phy_addr ∷ [])
  import_found phy_addr virt_addr (some r) = do
    paths ← on_disk (write_resource json r prefix phy_addr virt_addr)
    done (get_success prefix virt_addr ∷ wrote paths)

  -- A file that exists is left, unless it may be overwritten.
  unfoldable pub import_at : (phy_addr virt_addr : FilePath) → Step R (List ImportMessage)
  unfolding import_found
  import_at phy_addr virt_addr s =
      if exists (join prefix virt_addr) s.disk && not overwrite_existing
      then done (skip_existing prefix virt_addr ∷ []) s
      else (call (c.get phy_addr) >>= import_found phy_addr virt_addr) s

  unfoldable pub import_resource : FilePath → Step R (List ImportMessage)
  unfolding import_at
  import_resource phy_addr = do
    virt_addr ← call (c.addr_phy_to_virt (relative phy_addr))
    import_at (relative phy_addr) (or_phy (relative phy_addr) virt_addr)

  -- The address is at home in another prefix of the resource group.
  abbrev pub in_neighbour : FilePath → Disk → FilePath → Bool
  in_neighbour phy_addr d neighbour =
      exists (join neighbour phy_addr) d || exists (output_path neighbour phy_addr) d

  abbrev messages_of : Answer (List ImportMessage) → List ImportMessage
  messages_of (ok sent) = sent
  messages_of (err e) = []

  -- The loop over the addresses that the connector lists; an error of one import is dropped.
  unfoldable pub import_listed :
      FilePath → List FilePath → List FilePath → State R → List ImportMessage × State R
  unfolding import_resource
  import_listed subpath neighbours [] s = ([], s)
  import_listed subpath neighbours (phy_addr ∷ rest) s =
      if not (addr_matches_filter phy_addr subpath) || any (in_neighbour phy_addr s.disk) neighbours
      then import_listed subpath neighbours rest s
      else (let (answer, s') = import_resource phy_addr s in
          let (sent, s'') = import_listed subpath neighbours rest s' in
          (messages_of answer ++ sent, s''))
