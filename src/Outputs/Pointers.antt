-- ===== src/Outputs/Pointers.antt =====
-- Chains of pointers: what a read through them returns, how much fuel is enough, and that a cycle is
-- never left.
use autoschematic.Prelude.{
  ℕ, zero, suc, ◌≡◌, ◌<◌, refl, Option, none, some, Text, nat_equality, list_equality, arith,
}
use autoschematic.Prelude.Dict
use autoschematic.FilePath.{FilePath}
use autoschematic.Disk.{Disk}
use autoschematic.Outputs.{
  Json, OutputMap, OutputMapFile, pointer_to_virtual, output_map, ok, diverged, read, read_recurse,
  resolve, get,
}

abbrev pub as_file : Option OutputMap → Option OutputMapFile
as_file none = none
as_file (some m) = some (output_map m)

abbrev pub as_addr : FilePath → Option OutputMap → Option FilePath
as_addr last none = none
as_addr last (some m) = some last

abbrev pub value_in : Text → Option OutputMap → Option Text
value_in key none = none
value_in key (some m) = Dict.get key m

module _ (json : Json) (prefix : FilePath) (d : Disk) where
  -- The output file at `addr` is a pointer to `virt_addr`.
  abbrev pub PointsTo : FilePath → FilePath → Type 0
  PointsTo addr virt_addr = read json prefix addr d ≡ ok (some (pointer_to_virtual virt_addr))

  -- `Chain n addr last`: from `addr` there are n pointers to `last`.
  pub data Chain : ℕ → FilePath → FilePath → Type 0 where
    here : {addr : FilePath} → Chain 0 addr addr
    next :
        {n : ℕ} {addr virt_addr last : FilePath}
        → PointsTo addr virt_addr
        → Chain n virt_addr last
        → Chain (suc n) addr last

  -- What stands at the end of a chain: no pointer.
  pub data End (last : FilePath) : Option OutputMap → Type 0 where
    missing : read json prefix last d ≡ ok none → End last none
    at_map :
        {m : OutputMap} → read json prefix last d ≡ ok (some (output_map m)) → End last (some m)

  -- With more fuel than the chain has pointers, the file at its end is read.
  pub read_recurse-Chain :
      {n : ℕ} (fuel : ℕ) {addr last : FilePath} {o : Option OutputMap}
      → n < fuel
      → Chain n addr last
      → End last o
      → read_recurse json fuel prefix addr d ≡ ok (as_file o)
  unfolding read_recurse
  read_recurse-Chain zero h c e = absurd (omega arith)
  read_recurse-Chain (suc fuel) h here (missing e) = ground (arith, e)
  read_recurse-Chain (suc fuel) h here (at_map e) = ground (arith, e)
  read_recurse-Chain (suc fuel) h (next {virt_addr} p c) e =
      rw (p, read_recurse) (read_recurse-Chain fuel {addr = virt_addr} (omega arith) c e)

  get-Chain :
      {n : ℕ} (fuel : ℕ) {addr last : FilePath} {o : Option OutputMap} (key : Text)
      → n < fuel
      → Chain n addr last
      → End last o
      → get json fuel prefix addr key d ≡ ok (value_in key o)
  unfolding get
  get-Chain zero key h c e = absurd (omega arith)
  get-Chain (suc fuel) key h here (missing e) = ground (arith, e)
  get-Chain (suc fuel) key h here (at_map e) = ground (arith, e)
  get-Chain (suc fuel) key h (next {virt_addr} p c) e =
      rw (p, get) (get-Chain fuel {addr = virt_addr} key (omega arith) c e)

  resolve-Chain :
      {n : ℕ} (fuel : ℕ) {addr last : FilePath} {o : Option OutputMap}
      → n < fuel
      → Chain n addr last
      → End last o
      → resolve json fuel prefix addr d ≡ ok (as_addr last o)
  unfolding resolve
  resolve-Chain zero h c e = absurd (omega arith)
  resolve-Chain (suc fuel) h here (missing e) = ground (arith, e)
  resolve-Chain (suc fuel) h here (at_map e) = ground (arith, e)
  resolve-Chain (suc fuel) h (next {virt_addr} p c) e =
      rw (p, resolve) (resolve-Chain fuel {addr = virt_addr} (omega arith) c e)

  -- Where a chain of n pointers from an address ends at a missing file or at a map, any fuel above n
  -- is enough: `read_recurse` returns what stands there, `resolve` returns the address of the map,
  -- and `get` returns the value that the map has for the key.
  pub pointers_followed :
      (n fuel : ℕ) (addr last : FilePath) (o : Option OutputMap) (key : Text)
      → n < fuel
      → Chain n addr last
      → End last o
      → (read_recurse json fuel prefix addr d ≡ ok (as_file o))
        × (resolve json fuel prefix addr d ≡ ok (as_addr last o))
        × (get json fuel prefix addr key d ≡ ok (value_in key o))
  pointers_followed n fuel addr last o key h c e =
      (read_recurse-Chain fuel h c e, resolve-Chain fuel h c e, get-Chain fuel key h c e)

  Chain-snoc : {n : ℕ} {a b c : FilePath} → Chain n a b → PointsTo b c → (m : ℕ) × Chain (suc m) a c
  Chain-snoc here p = (0, next p here)
  Chain-snoc (next q c) p = let (m, r) = Chain-snoc c p in (suc m, next q r)

  -- Some pointers lead from the address back to it.
  abbrev pub Cyclic : FilePath → Type 0
  Cyclic addr = (n : ℕ) × Chain (suc n) addr addr

  Cyclic-step : {addr : FilePath} → Cyclic addr → (v : FilePath) × PointsTo addr v × Cyclic v
  Cyclic-step (n, next {virt_addr} p c) = (virt_addr, p, Chain-snoc c p)

  -- On a cycle of pointers no fuel is enough: `read_recurse`, `resolve` and `get` do not return.
  pub cycle_diverges :
      (fuel : ℕ) (addr : FilePath) (key : Text)
      → Cyclic addr
      → (read_recurse json fuel prefix addr d ≡ diverged)
        × (resolve json fuel prefix addr d ≡ diverged)
        × (get json fuel prefix addr key d ≡ diverged)
  unfolding read_recurse resolve get
  cycle_diverges zero addr key c = (refl, refl, refl)
  cycle_diverges (suc fuel) addr key c =
      let (v, p, c') = Cyclic-step c in
      let (a, b, e) = cycle_diverges fuel v key c' in
      (rw (p, read_recurse) a, rw (p, resolve) b, rw (p, get) e)
