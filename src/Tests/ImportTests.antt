-- ===== src/Tests/ImportTests.antt =====
-- Tests of imports.
use autoschematic.Prelude.{
  ℕ, ◌≡◌, ◌≢◌, refl, inl, inr, subst, In, false, Option, none, some, [], ◌∷◌, text, nat_equality,
  list_equality,
}
use autoschematic.Prelude.Dict
use autoschematic.FilePath.{normal, FilePath, component_equality, AllNormal, join, strip_prefix}
use autoschematic.Disk.{file}
use autoschematic.Outputs.{output_path}
use autoschematic.Resource.{GetResourceResponse, address_of, write_resource}
use autoschematic.Workflow.{Answer, State}
use autoschematic.Import.{Source, relative, exists, import_resource, import_listed}
use autoschematic.Import.Safety.{HasNoHint, TellsNormal, file-import_listed}
use autoschematic.Tests.Codec.{json}

abbrev aws : FilePath
aws = normal (text "aws") ∷ []

abbrev vpc : FilePath
vpc = normal (text "vpc.ron") ∷ []

abbrev other : FilePath
other = normal (text "other.ron") ∷ []

abbrev vpc_file : FilePath
vpc_file = normal (text "aws") ∷ normal (text "vpc.ron") ∷ []

abbrev resource : Option FilePath → GetResourceResponse
resource hint = record { resource_definition = text "New()"; virt_addr = hint; outputs = none }

abbrev source : Option FilePath → Source ℕ
source hint = record {
  addr_phy_to_virt = λ addr d r. (Answer.ok none, r);
  get = λ addr d r. (Answer.ok (some (resource hint)), r);
}

abbrev start : State ℕ
start = record { disk = (vpc_file, text "Old()") ∷ []; remote = 0 }

no_output_file : (addr : FilePath) → output_path aws addr ≢ vpc_file
unfolding output_path join
no_output_file addr h = cc

no_hint : HasNoHint (source none)
no_hint addr d remote r e = cc

tells_normal : TellsNormal (source none)
tells_normal addr d remote virt_addr e = cc

listed : (addr : FilePath) → In addr (vpc ∷ other ∷ []) → AllNormal (relative addr)
listed addr (inl e) = subst (λ a. AllNormal (relative a)) e (refl, tt)
listed addr (inr (inl e)) = subst (λ a. AllNormal (relative a)) e (refl, tt)
listed addr (inr (inr n)) = elim n [ ]

file-import_listed_example :
    file (import_listed json (source none) aws false [] [] (vpc ∷ other ∷ []) start).1.disk vpc_file
    ≡ some (text "Old()")
unfolding Dict.get
file-import_listed_example =
    file-import_listed json (source none) aws vpc_file (text "Old()") no_output_file no_hint [] []
      (vpc ∷ other ∷ []) start (refl, tt) (refl, (refl, tt)) tells_normal listed refl

-- The file that is not there is written.
imported :
    file (import_resource json (source none) aws false other start).1.disk (join aws other)
    ≡ some (text "New()")
unfolding import_resource exists strip_prefix write_resource address_of join Dict.get Dict.insert
imported = refl

-- The check looks at the listed address, and the resource is written at the address that it hints at:
-- an existing file is overwritten.
overwritten :
    file (import_resource json (source (some vpc)) aws false other start).1.disk vpc_file
    ≡ some (text "New()")
unfolding import_resource exists strip_prefix write_resource address_of join Dict.get Dict.insert
overwritten = refl
