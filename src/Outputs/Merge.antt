-- ===== src/Outputs/Merge.antt =====
-- Merging the outputs of an operation: `apply_output_map` against reads through the pointers.
use autoschematic.Prelude.{
  ℕ, zero, suc, ◌≡◌, ◌≢◌, ◌<◌, ◌⊎◌, inl, inr, refl, ap, fun_ext, ◌∙◌, subst, Option, none, some, [],
  ◌∷◌, Text, nat_equality, list_equality, ◌==◌, ==_iff, Bool-cases, arith,
}
use autoschematic.Prelude.Dict
use autoschematic.Prelude.Dict.{Dict, HasDistinctKeys, get-insert, get-insert_self, get-remove}
use autoschematic.FilePath.{FilePath, component_equality}
use autoschematic.Disk.{Disk, file, write_file}
use autoschematic.Outputs.{
  Json, OutputMap, OutputMapExec, OutputMapFile, output_map, ok, read, get, write_recurse,
  output_path, merge, original_map, store_map, apply_output_map,
}
use autoschematic.Outputs.Pointers.{
  PointsTo, Chain, here, next, End, missing, at_map, value_in, as_file, pointers_followed,
  read_recurse-Chain,
}

-- What a key holds after the merge: what is set, nothing if it is deleted, else what it held.
abbrev pub merged : Option (Option Text) → Option Text → Option Text
merged none old = old
merged (some new) old = new

get-merge :
    (exec : OutputMapExec) (m : OutputMap) (key : Text)
    → HasDistinctKeys exec
    → Dict.get key (merge exec m) ≡ merged (Dict.get key exec) (Dict.get key m)
unfolding merge Dict.get
get-merge [] m key h = refl
get-merge ((k, some v) ∷ exec) m key (f, h) =
    ground (arith, get-merge exec (Dict.insert k v m) key h, get-insert k key v m, ==_iff k key)
get-merge ((k, none) ∷ exec) m key (f, h) =
    ground (arith, get-merge exec (Dict.remove k m) key h, get-remove k key m, ==_iff k key)

module _ (json : Json) (prefix : FilePath) where
  read_written :
      (addr : FilePath) (o : OutputMapFile) (d : Disk)
      → read json prefix addr (write_file (output_path prefix addr) (json.encode o) d) ≡ ok (some o)
  unfolding read
  read_written addr o d =
      ground
        (arith, get-insert_self (output_path prefix addr) (json.encode o) d, json.decode-encode o)

  pub read_elsewhere :
      (addr other : FilePath) (s : Text) (d : Disk)
      → output_path prefix addr ≢ output_path prefix other
      → read json prefix other (write_file (output_path prefix addr) s d) ≡ read json prefix other d
  unfolding read
  read_elsewhere addr other s d ne = ground (
    arith,
    get-insert (output_path prefix addr) (output_path prefix other) s d,
    ==_iff (output_path prefix addr) (output_path prefix other),
  )

  read_by_path :
      (a b : FilePath) (d : Disk)
      → output_path prefix a ≡ output_path prefix b
      → read json prefix a d ≡ read json prefix b d
  unfolding read
  read_by_path a b d e = ground (arith, e)

  End-no_pointer :
      (d : Disk) {last v : FilePath} {o : Option OutputMap}
      → End json prefix d last o
      → PointsTo json prefix d last v
      → ⊥
  End-no_pointer d (missing e) p = cc
  End-no_pointer d (at_map e) p = cc

  module _ (d : Disk) {last : FilePath} {o : Option OutputMap} (m : OutputMap)
      (e : End json prefix d last o) where
    abbrev after : Disk
    after = write_file (output_path prefix last) (json.encode (output_map m)) d

    -- The write at the end of a chain leaves its pointers.
    keeps_pointer : (a v : FilePath) → PointsTo json prefix d a v → PointsTo json prefix after a v
    keeps_pointer a v p =
        read_elsewhere last a (json.encode (output_map m)) d
          (λ same. End-no_pointer d {v = v} e (read_by_path last a d same ∙ p))
        ∙ p

    keeps_Chain :
        {n : ℕ} {a : FilePath} → Chain json prefix d n a last → Chain json prefix after n a last
    keeps_Chain here = here
    keeps_Chain (next {addr} {virt_addr} p c) =
        next (keeps_pointer addr virt_addr p) (keeps_Chain c)

    write_at-End :
        (k : ℕ) {o' : Option OutputMap}
        → End json prefix d last o'
        → write_recurse json (suc k) (output_map m) prefix last d ≡ ok after
    unfolding write_recurse
    write_at-End k (missing x) = ground (arith, x)
    write_at-End k (at_map x) = ground (arith, x)

    write_recurse-Chain :
        {n : ℕ} (fuel : ℕ) {addr : FilePath}
        → n < fuel
        → Chain json prefix d n addr last
        → write_recurse json fuel (output_map m) prefix addr d ≡ ok after
    unfolding write_recurse
    write_recurse-Chain zero h c = absurd (omega arith)
    write_recurse-Chain (suc fuel) h here = write_at-End fuel e
    write_recurse-Chain (suc fuel) h (next {virt_addr} p c) =
        rw (p, write_recurse) (write_recurse-Chain fuel {addr = virt_addr} (omega arith) c)

  abbrev held : Option OutputMap → OutputMap
  held none = []
  held (some m) = m

  -- The disk after a merge, by the map that is to be stored.
  abbrev stored : FilePath → OutputMap → Disk → Disk
  stored last [] d = d
  stored last (e ∷ m) d = write_file (output_path prefix last) (json.encode (output_map (e ∷ m))) d

  abbrev reported : FilePath → OutputMap → Option FilePath
  reported addr [] = none
  reported addr (e ∷ m) = some (output_path prefix addr)

  store_map-Chain :
      (d : Disk) {n : ℕ} (fuel : ℕ) {addr last : FilePath} {o : Option OutputMap} (m : OutputMap)
      → n < fuel
      → Chain json prefix d n addr last
      → End json prefix d last o
      → store_map json fuel prefix addr m d ≡ ok (reported addr m, stored last m d)
  unfolding store_map
  store_map-Chain d fuel [] h c e = refl
  store_map-Chain d fuel {addr} (x ∷ m) h c e =
      rw (write_recurse-Chain d (x ∷ m) e fuel {addr = addr} h c) refl

  held_lem : (o : Option OutputMap) → original_map (as_file o) ≡ ok (held o)
  unfolding original_map
  held_lem none = refl
  held_lem (some m) = refl

  get-held : (o : Option OutputMap) (key : Text) → Dict.get key (held o) ≡ value_in key o
  unfolding Dict.get
  get-held none key = refl
  get-held (some m) key = refl

  apply_output_map-Chain :
      (d : Disk) {n : ℕ} (fuel : ℕ) {addr last : FilePath} {o : Option OutputMap}
      (exec : OutputMapExec)
      → n < fuel
      → Chain json prefix d n addr last
      → End json prefix d last o
      → apply_output_map json fuel prefix addr exec d
        ≡ ok (reported addr (merge exec (held o)), stored last (merge exec (held o)) d)
  unfolding apply_output_map
  apply_output_map-Chain d fuel {addr} {last} {o} exec h c e =
      rw (read_recurse-Chain json prefix d fuel h c e, held_lem o)
        (store_map-Chain d fuel (merge exec (held o)) h c e)

  untouched :
      (d : Disk) (last : FilePath) (m : OutputMap) (p : FilePath)
      → (output_path prefix last ≡ p) ⊎ (file (stored last m d) p ≡ file d p)
  untouched d last [] p = inr refl
  untouched d last (x ∷ m) p = elim (Bool-cases (output_path prefix last == p)) [
    | inl e ↦ inl ((==_iff (output_path prefix last) p).0 e)
    | inr e ↦
        inr
          (get-insert (output_path prefix last) p (json.encode (output_map (x ∷ m))) d ∙ rw e refl)
  ]

  -- What the caller learns: the path of the output file and the values behind it, or that no key is
  -- left and nothing was written.
  abbrev pub Reported : Disk → ℕ → FilePath → (Text → Option Text) → Option FilePath → Disk → Type 0
  Reported d fuel addr value path d' =
      ((path ≡ some (output_path prefix addr))
        × ((key : Text) → get json fuel prefix addr key d' ≡ ok (value key)))
      ⊎ ((path ≡ none) × (d' ≡ d) × ((key : Text) → value key ≡ none))

  reported_lem :
      (d : Disk) {n : ℕ} (fuel : ℕ) {addr last : FilePath} {o : Option OutputMap} (m : OutputMap)
      → n < fuel
      → Chain json prefix d n addr last
      → End json prefix d last o
      → Reported d fuel addr (λ key. Dict.get key m) (reported addr m) (stored last m d)
  unfolding Dict.get
  reported_lem d fuel [] h c e = inr (refl, refl, λ key. refl)
  reported_lem d {n} fuel {addr} {last} (x ∷ m) h c e = inl (
    refl,
    λ key.
        (pointers_followed json prefix (after d (x ∷ m) e) n fuel addr last (some (x ∷ m)) key h
          (keeps_Chain d (x ∷ m) e c) (at_map (read_written last (output_map (x ∷ m)) d))).2,
  )

  -- Where a chain of n pointers from the address ends at a missing file or at a map, and the fuel is
  -- above n, `apply_output_map` returns. It may report the output file of the address; then `get`
  -- through the pointers yields for each key what the operation sets, nothing if it deletes the key,
  -- and else what was there. Or it reports none; then no key is left by the merge and the disk is as
  -- it was. No file but the one at the end of the chain changes.
  pub apply_output_map_lem :
      (d : Disk) (n fuel : ℕ) (addr last : FilePath) (o : Option OutputMap) (exec : OutputMapExec)
      → n < fuel
      → Chain json prefix d n addr last
      → End json prefix d last o
      → HasDistinctKeys exec
      → (path : Option FilePath) × (d' : Disk) × (apply_output_map json fuel prefix addr exec d
          ≡ ok (path, d'))
        × Reported d fuel addr (λ key. merged (Dict.get key exec) (value_in key o)) path d'
        × ((p : FilePath) → (output_path prefix last ≡ p) ⊎ (file d' p ≡ file d p))
  apply_output_map_lem d n fuel addr last o exec h c e distinct =
      let m : OutputMap = merge exec (held o) in
      let value : (key : Text) → Dict.get key m ≡ merged (Dict.get key exec) (value_in key o) =
        λ key.
          get-merge exec (held o) key distinct ∙ ap (merged (Dict.get key exec)) (get-held o key) in
      (
        reported addr m,
        stored last m d,
        apply_output_map-Chain d fuel exec h c e,
        subst (λ f. Reported d fuel addr f (reported addr m) (stored last m d)) (fun_ext value)
            (reported_lem d fuel m h c e),
        untouched d last m,
      )
