-- ===== src/Import/Safety.antt =====
-- An import that may not overwrite leaves the files that exist.
use autoschematic.Prelude.{
  ◌≡◌, ◌≢◌, inl, inr, refl, subst, ◌∙◌, true, false, not, ◌||◌, Option, none, some, List, [], ◌∷◌,
  Text, any, any_complete, In, ◌==◌, ==_iff, ==_refl, list_equality, nat_equality, Bool-cases,
  arith,
}
use autoschematic.Prelude.Dict
use autoschematic.Prelude.Dict.{Dict, get-insert}
use autoschematic.FilePath.{FilePath, component_equality, AllNormal, join, strip_prefix}
use autoschematic.Disk.{Disk, file}
use autoschematic.Glob.{addr_matches_filter}
use autoschematic.Outputs.{Json, OutputMap, output_map, output_path, write}
use autoschematic.Outputs.Frame.{file-write_link, file-write_file, file-remove_file}
use autoschematic.Resource.{GetResourceResponse, address_of, write_resource, write_outputs}
use autoschematic.Workflow.{Answer, ok, err, State, go_on, call}
use autoschematic.Import.{
  Source, relative, is_below, exists, or_phy, import_found, import_at, import_resource,
  in_neighbour, import_listed,
}

strip_prefix_self : (p : FilePath) → strip_prefix p p ≡ some []
unfolding strip_prefix
strip_prefix_self [] = refl
strip_prefix_self (c ∷ p) = rw (==_refl c) (strip_prefix_self p)

In-file : (d : Disk) (p : FilePath) (s : Text) → file d p ≡ some s → In (p, s) d
unfolding Dict.get
In-file [] p s e = cc
In-file ((q, t) ∷ d) p s e = elim (Bool-cases (q == p)) [
  | inl h ↦ inl (pair_eq ((==_iff q p).0 h) (some_eq (rw h at e)))
  | inr h ↦ inr (In-file d p s (rw h at e))
]
  where
    pair_eq : q ≡ p → t ≡ s → ◌≡◌ {A = FilePath × Text} (q, t) (p, s)
    pair_eq a b = cc

    some_eq : some t ≡ some s → t ≡ s
    some_eq a = cc

exists-file : (d : Disk) (p : FilePath) (s : Text) → file d p ≡ some s → exists p d ≡ true
unfolding exists
exists-file d p s e =
    any_complete (is_below p) d (p, s) (In-file d p s e) (rw (strip_prefix_self p, is_below) refl)

-- The connector returns no resource with a virtual address of its own.
abbrev pub HasNoHint : {R : Type 0} → Source R → Type 0
HasNoHint {R} c =
    (addr : FilePath) (d : Disk) (remote : R) (r : GetResourceResponse)
    → (c.get addr d remote).0 ≡ ok (some r)
    → r.virt_addr ≡ none

-- The virtual addresses that the connector tells have normal components only.
abbrev pub TellsNormal : {R : Type 0} → Source R → Type 0
TellsNormal {R} c =
    (addr : FilePath) (d : Disk) (remote : R) (virt_addr : FilePath)
    → (c.addr_phy_to_virt addr d remote).0 ≡ ok (some virt_addr)
    → AllNormal virt_addr

address_of-virt :
    (r : GetResourceResponse) (phy virt : FilePath)
    → r.virt_addr ≡ none
    → address_of r phy virt ≡ virt
unfolding address_of
address_of-virt r phy virt h = elim (Bool-cases (phy == virt)) [
  | inl e ↦ rw (e, h) refl
  | inr e ↦ rw e refl
]

module _ (json : Json) (prefix p : FilePath)
    (apart : (addr : FilePath) → output_path prefix addr ≢ p) where
  file-write :
      (m : OutputMap) (addr : FilePath) (d : Disk)
      → file (write json (output_map m) prefix addr d) p ≡ file d p
  unfolding write
  file-write m addr d =
      file-write_file json prefix p apart addr (json.encode (output_map m)) _
      ∙ file-remove_file json prefix p apart addr d

  file-write_outputs :
      (phy virt : FilePath) (o : Option OutputMap) (d : Disk)
      → file (write_outputs json prefix phy virt o d).1 p ≡ file d p
  unfolding write_outputs
  file-write_outputs phy virt none d = refl
  file-write_outputs phy virt (some []) d = refl
  file-write_outputs phy virt (some (e ∷ m)) d = elim (Bool-cases (virt == phy)) [
    | inl h ↦ rw h (file-write (e ∷ m) virt d)
    | inr h ↦ rw h (file-write_link json prefix p apart phy virt _ ∙ file-write (e ∷ m) virt d)
  ]

  file-write_resource :
      (r : GetResourceResponse) (phy virt : FilePath) (d : Disk)
      → r.virt_addr ≡ none
      → join prefix virt ≢ p
      → file (write_resource json r prefix phy virt d).1 p ≡ file d p
  unfolding write_resource
  file-write_resource r phy virt d h n =
      file-write_outputs phy (address_of r phy virt) r.outputs _
      ∙ ground (
        arith,
        get-insert (join prefix (address_of r phy virt)) p r.resource_definition d,
        ==_iff (join prefix (address_of r phy virt)) p,
        address_of-virt r phy virt h,
        n,
      )

module _ {R : Type 0} (json : Json) (c : Source R) (prefix p : FilePath) (content : Text)
    (apart : (addr : FilePath) → output_path prefix addr ≢ p) (no_hint : HasNoHint c) where
  -- The file is there, with this content.
  abbrev IsThere : State R → Type 0
  IsThere s = file s.disk p ≡ some content

  import_found-IsThere :
      (phy virt : FilePath) (x : Answer (Option GetResourceResponse) × State R)
      → IsThere x.1
      → join prefix virt ≢ p
      → ((r : GetResourceResponse) → x.0 ≡ ok (some r) → r.virt_addr ≡ none)
      → IsThere (go_on (import_found json c prefix false phy virt) x).1
  unfolding import_found
  import_found-IsThere phy virt (err e, s) i n h = i
  import_found-IsThere phy virt (ok none, s) i n h = i
  import_found-IsThere phy virt (ok (some r), s) i n h =
      file-write_resource json prefix p apart r phy virt s.disk (h r refl) n ∙ i

  import_at-IsThere :
      (phy virt : FilePath) (s : State R)
      → IsThere s
      → IsThere (import_at json c prefix false phy virt s).1
  unfolding import_at
  import_at-IsThere phy virt s i = elim (Bool-cases (exists (join prefix virt) s.disk)) [
    | inl e ↦ rw (e, import_at) i
    | inr e ↦
        rw (e, import_at)
          (import_found-IsThere phy virt (call (c.get phy) s) i
            (λ same.
              let there : exists p s.disk ≡ true = exists-file s.disk p content i in
              let gone : exists p s.disk ≡ false = subst (λ q. exists q s.disk ≡ false) same e in
              cc)
            (λ r h. no_hint phy s.disk s.remote r h))
  ]

  import_resource-IsThere :
      (phy_addr : FilePath) (s : State R)
      → IsThere s
      → IsThere (import_resource json c prefix false phy_addr s).1
  unfolding import_resource
  import_resource-IsThere phy_addr s i = after (call (c.addr_phy_to_virt (relative phy_addr)) s) i
    where
      after :
          (x : Answer (Option FilePath) × State R)
          → IsThere x.1
          → IsThere
              (go_on
                (λ virt.
                  import_at json c prefix false
                    (relative phy_addr)
                    (or_phy (relative phy_addr) virt))
                x).1
      after (err e, t) j = j
      after (ok virt, t) j =
          import_at-IsThere (relative phy_addr) (or_phy (relative phy_addr) virt) t j

  import_listed-IsThere :
      (subpath : FilePath) (neighbours addrs : List FilePath) (s : State R)
      → file s.disk p ≡ some content
      → file (import_listed json c prefix false subpath neighbours addrs s).1.disk p ≡ some content
  unfolding import_listed
  import_listed-IsThere subpath neighbours [] s i = i
  import_listed-IsThere subpath neighbours (phy_addr ∷ rest) s i =
      elim (Bool-cases (
        not (addr_matches_filter phy_addr subpath)
        || any (in_neighbour json c prefix false phy_addr s.disk) neighbours)) [
          | inl e ↦ rw (e, import_listed) (import_listed-IsThere subpath neighbours rest s i)
          | inr e ↦
              rw (e, import_listed)
                (import_listed-IsThere subpath neighbours rest
                  (import_resource json c prefix false phy_addr s).1
                  (import_resource-IsThere phy_addr s i))
        ]

  -- Importing what a connector lists, without the permission to overwrite, leaves each file that is
  -- there before as it is, whatever the connector answers else and also where imports fail. The
  -- conditions are that the file is none of the prefix's output files, that the connector returns no
  -- resource with a virtual address of its own, and that the prefix, the path of the file, the listed
  -- addresses (without their first slash) and the virtual addresses that the connector tells have
  -- normal components only. With `..` the program may overwrite a file: where there is no directory
  -- `new`, the address `new/../x` does not exist, until the import makes the directory and writes `x`.
  pub file-import_listed :
      (subpath : FilePath) (neighbours addrs : List FilePath) (s : State R)
      → AllNormal prefix
      → AllNormal p
      → TellsNormal c
      → ((addr : FilePath) → In addr addrs → AllNormal (relative addr))
      → file s.disk p ≡ some content
      → file (import_listed json c prefix false subpath neighbours addrs s).1.disk p ≡ some content
  file-import_listed subpath neighbours addrs s normal_prefix normal_path tells listed i =
      import_listed-IsThere subpath neighbours addrs s i
