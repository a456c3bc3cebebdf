-- ===== src/Workflow/Current.antt =====
-- The remote resource of an address, as `plan_connector` of autoschematic-core/src/workflow/plan.rs and
-- `check_drift` of autoschematic-core/src/workflow/check_drift.rs find it.
use autoschematic.Prelude.{◌≡◌, ◌⊎◌, Option, none, some, Text}
use autoschematic.FilePath.{FilePath}
use autoschematic.Disk.{Disk}
use autoschematic.Workflow.{not_present, present, null, ok, Connector}

module _ {R : Type 0} (c : Connector R) (virt_addr : FilePath) (d : Disk) (r : R) where
  -- The physical address and the body of the resource, and the remote state after the calls.
  pub data Current : Option FilePath → Option Text → R → Type 0 where
    absent :
        {r' : R} → c.addr_virt_to_phy virt_addr d r ≡ (ok not_present, r') → Current none none r'
    at :
        {phy_addr : FilePath} {body : Option Text} {r' r'' : R}
        → (c.addr_virt_to_phy virt_addr d r ≡ (ok (present phy_addr), r'))
          ⊎ (c.addr_virt_to_phy virt_addr d r ≡ (ok (null phy_addr), r'))
        → c.get phy_addr d r' ≡ (ok body, r'')
        → Current (some phy_addr) body r''
