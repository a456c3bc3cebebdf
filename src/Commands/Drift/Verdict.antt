-- ===== src/Commands/Drift/Verdict.antt =====
-- The verdict of a check for drift, described by what the connectors answer.
use autoschematic.Prelude.{
  ℕ, suc, ◌≡◌, ◌≢◌, ◌⊎◌, true, false, Option, none, some, List, [], ◌∷◌, Text, Result, ok, err,
  nat_equality, list_equality,
}
use autoschematic.Prelude.Dict
use autoschematic.FilePath.{FilePath, component_equality, components, join}
use autoschematic.Disk.{Disk, file}
use autoschematic.Template.{ReadOutput}
use autoschematic.ConnectorCache.{
  Answer as Cached, FilterResponse, Cache, Config, ConnectorDef, PrefixDef, World,
  get_or_spawn_connector,
}
use autoschematic.Workflow.{deferred, Answer, Connector}
use autoschematic.Workflow.Current.{Current}
use autoschematic.ChangeSet.Plan.{resource_response}
use autoschematic.Commands.{Tool, CommandError}
use autoschematic.Commands.Drift.{
  CheckDriftResult, neither_exist, invalid_address, equal, not_equal, Equality,
}

module _ {R : Type 0} (c : Connector R) (virt_addr : FilePath) (d : Disk) (r : R) where
  -- The body of the remote resource; an address that waits for outputs counts as absent.
  pub data Remote : Option Text → R → Type 0 where
    known :
        {phy_addr : Option FilePath} {body : Option Text} {r' : R}
        → Current c virt_addr d r phy_addr body r'
        → Remote body r'
    waits :
        {r' : R}
        → ((reads : List ReadOutput) × (c.addr_virt_to_phy virt_addr d r
              ≡ (Answer.ok (deferred reads), r')))
        → Remote none r'

module _ {R : Type 0} (eq : Equality R) (virt_addr : FilePath) (d : Disk) (r : R)
    (desired body : Option Text) where
  -- What a verdict says of the file and of the body of the remote resource.
  abbrev pub Verdict : CheckDriftResult → Type 0
  Verdict neither_exist = (body ≡ none) × (desired ≡ none)
  Verdict invalid_address = ⊥
  Verdict equal =
      (a b : Text) × (body ≡ some a)
      × (desired ≡ some b)
      × ((eq virt_addr a b d r).0 ≡ Answer.ok true)
  Verdict (not_equal x y) =
      (x ≡ body)
      × (y ≡ desired)
      × (x ≡ none → y ≢ none)
      × ((a b : Text)
          → body ≡ some a
          → desired ≡ some b
          → (eq virt_addr a b d r).0 ≡ Answer.ok false)

module _ {C R : Type 0} (connector : C → Connector R) (eq : C → Equality R) (virt_addr : FilePath)
    (d : Disk) (r : R) (desired : Option Text) where
  abbrev IfOk : (CheckDriftResult → Type 0) → Result CommandError CheckDriftResult → Type 0
  IfOk P (ok v) = P v
  IfOk P (err e) = Unit

  abbrev at_state : Cache C → R → Tool C R
  at_state s r' = record { cache = s; files = record { disk = d; remote = r' } }

  -- A connector compares the body that it has with the desired one.
  abbrev pub Compares : C → CheckDriftResult → Type 0
  Compares c v =
      (body : Option Text) × (r' : R) × Remote (connector c) virt_addr d r body r'
      × Verdict (eq c) virt_addr d r' desired body v

module _ {C R : Type 0} (world : ℕ → World C) (connector : C → Connector R) (eq : C → Equality R)
    (config : Config) (prefix : Text) (virt_addr : FilePath) (d : Disk) (r : R)
    (desired : Option Text) where
  -- The verdict of the connectors of a prefix: the first one that says that the address is its resource
  -- compares, and all before it have said that it is not.
  pub data Checked : ℕ → List ConnectorDef → Cache C → CheckDriftResult → Type 0 where
    unclaimed : {i : ℕ} {s : Cache C} → Checked i [] s invalid_address
    passed_on :
        {i : ℕ} {def : ConnectorDef} {ds : List ConnectorDef} {s s' : Cache C} {c : C}
        {response : FilterResponse} {v : CheckDriftResult}
        → get_or_spawn_connector (world i) config prefix def true s ≡ (Cached.ok c, s')
        → (world i).filter c virt_addr ≡ Cached.ok response
        → response ≢ resource_response
        → Checked (suc i) ds s' v
        → Checked i (def ∷ ds) s v
    claimed :
        {i : ℕ} {def : ConnectorDef} {ds : List ConnectorDef} {s s' : Cache C} {c : C}
        {v : CheckDriftResult}
        → get_or_spawn_connector (world i) config prefix def true s ≡ (Cached.ok c, s')
        → (world i).filter c virt_addr ≡ Cached.ok resource_response
        → Compares connector eq virt_addr d r desired c v
        → Checked i (def ∷ ds) s v

module _ {C R : Type 0} (world : ℕ → World C) (connector : C → Connector R) (eq : C → Equality R)
    (config : Config) (prefix : Text) (virt_addr : FilePath) (from_utf8 : Text → Option Text)
    (s : Tool C R) where
  -- The file at the address, as a text.
  abbrev pub IsDesired : Option Text → Type 0
  IsDesired none = file s.files.disk (join (components prefix) virt_addr) ≡ none
  IsDesired (some desired) =
      (bytes : Text) × (file s.files.disk (join (components prefix) virt_addr) ≡ some bytes)
      × (from_utf8 bytes ≡ some desired)

  -- The verdict of a check for drift on the files and the remote state before it.
  abbrev pub CheckedPrefix : CheckDriftResult → Type 0
  CheckedPrefix v =
      ((Dict.get prefix config ≡ none) × (v ≡ invalid_address))
      ⊎ ((prefix_def : PrefixDef) × (desired : Option Text) × (Dict.get prefix config
            ≡ some prefix_def)
          × IsDesired desired
          × Checked world connector eq config prefix virt_addr s.files.disk s.files.remote desired 0
              prefix_def.connectors s.cache v)
