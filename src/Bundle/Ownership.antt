-- ===== src/Bundle/Ownership.antt =====
-- Files of other bundles are left alone, and the two writers agree.
use autoschematic.Prelude.{
  ◌≡◌, ◌≢◌, ◌⊎◌, inl, inr, refl, sym, subst, ◌∙◌, Bool, true, false, none, some, List, [], ◌∷◌,
  nat_equality, list_equality, ==_iff, All, arith,
}
use autoschematic.Prelude.Dict.{get-insert, get-remove}
use autoschematic.FilePath.{FilePath, component_equality, join}
use autoschematic.Disk.{Disk, file, is_file, write_file, remove_file}
use autoschematic.Bundle.{
  Ron, child_of, Outcome, ok, bad_ron, other_bundle, not_in_bundle, diverged, bundle_path, Element,
  check_owner, check_element, read, write, write_link, write_unbundle_element, write_elements,
}

module _ (ron : Ron) (prefix addr : FilePath) where
  -- The rest of the loop, from what one call of `write_unbundle_element` returns.
  abbrev pub go_on :
      List Element → Bool → Disk → Outcome (List FilePath × Disk) → Outcome Unit × Disk
  go_on rest overbundle d (ok (staged, d')) = write_elements ron prefix addr rest overbundle d'
  go_on rest overbundle d bad_ron = (bad_ron, d)
  go_on rest overbundle d other_bundle = (other_bundle, d)
  go_on rest overbundle d not_in_bundle = (not_in_bundle, d)
  go_on rest overbundle d diverged = (diverged, d)

  -- A round of `write_to_disk` does what `write_unbundle_element` does, staging or not: it goes on
  -- from the disk which that returns, and where that fails it fails alike and writes nothing more.
  pub write_elements-cons :
      (element : Element) (rest : List Element) (overbundle git_stage : Bool) (d : Disk)
      → write_elements ron prefix addr (element ∷ rest) overbundle d
        ≡ go_on rest overbundle d
            (write_unbundle_element ron prefix addr element overbundle git_stage d)
  unfolding write_elements write_unbundle_element
  write_elements-cons element rest overbundle git_stage d =
      by_check (check_element ron prefix addr element overbundle d) refl
    where
      by_check :
          (c : Outcome Unit)
          → check_element ron prefix addr element overbundle d ≡ c
          → write_elements ron prefix addr (element ∷ rest) overbundle d
            ≡ go_on rest overbundle d
                (write_unbundle_element ron prefix addr element overbundle git_stage d)
      by_check (ok tt) e = rw (e, write_elements, write_unbundle_element) refl
      by_check bad_ron e = rw (e, write_elements, write_unbundle_element) refl
      by_check other_bundle e = rw (e, write_elements, write_unbundle_element) refl
      by_check not_in_bundle e = rw (e, write_elements, write_unbundle_element) refl
      by_check diverged e = rw (e, write_elements, write_unbundle_element) refl

  -- The file at `a` belongs to no bundle, or to another one.
  pub data IsForeign (a : FilePath) (d : Disk) : Type 0 where
    in_none : read ron prefix a d ≡ ok none → IsForeign a d
    in_other :
        {p : FilePath} → read ron prefix a d ≡ ok (some (child_of p)) → p ≢ addr → IsForeign a d

  -- Writing an element touches neither the file at `a` nor its map file.
  abbrev pub IsApart : FilePath → Element → Type 0
  IsApart a e =
      (join prefix e.addr ≢ join prefix a)
      × (join prefix e.addr ≢ bundle_path prefix a)
      × (bundle_path prefix e.addr ≢ join prefix a)
      × (bundle_path prefix e.addr ≢ bundle_path prefix a)

  abbrev after_element : Element → Disk → Disk
  after_element e d =
      (write_link ron prefix e.addr addr (write_file (join prefix e.addr) e.contents d)).1

  file_apart :
      (e : Element) (d : Disk) (p : FilePath)
      → join prefix e.addr ≢ p
      → bundle_path prefix e.addr ≢ p
      → file (after_element e d) p ≡ file d p
  unfolding write_link write
  file_apart e d p ne nb = ground (
    arith,
    get-insert (bundle_path prefix e.addr) p (ron.encode (child_of addr))
        (remove_file (bundle_path prefix e.addr) (write_file (join prefix e.addr) e.contents d)),
    get-remove (bundle_path prefix e.addr) p (write_file (join prefix e.addr) e.contents d),
    get-insert (join prefix e.addr) p e.contents d,
    ==_iff (join prefix e.addr) p,
    ==_iff (bundle_path prefix e.addr) p,
  )

  refused :
      (e : Element) (d : Disk)
      → IsForeign e.addr d
      → is_file d (join prefix e.addr) ≡ true
      → check_element ron prefix addr e false d ≢ ok tt
  unfolding check_element
  refused e d (in_none h) f r = cc (rw (f, h, check_owner) at r)
  refused e d (in_other {p} h ne) f r =
      absurd (ne ((==_iff p addr).0 (ground (arith, rw (f, h, check_owner) at r))))

  read_same :
      (a : FilePath) (d d' : Disk)
      → file d' (bundle_path prefix a) ≡ file d (bundle_path prefix a)
      → read ron prefix a d' ≡ read ron prefix a d
  unfolding read
  read_same a d d' e = ground (arith, e)

  IsForeign-apart :
      (a : FilePath) (e : Element) (d : Disk)
      → IsApart a e
      → IsForeign a d
      → IsForeign a (after_element e d)
  IsForeign-apart a e d (n1, n2, n3, n4) (in_none h) =
      in_none (read_same a d (after_element e d) (file_apart e d (bundle_path prefix a) n2 n4) ∙ h)
  IsForeign-apart a e d (n1, n2, n3, n4) (in_other h ne) =
      in_other (read_same a d (after_element e d) (file_apart e d (bundle_path prefix a) n2 n4) ∙ h)
        ne

  -- One round, given that the rest of the loop leaves the file alone.
  protects_step :
      (a : FilePath) (e : Element) (rest : List Element) (d : Disk) (c : Outcome Unit)
      → check_element ron prefix addr e false d ≡ c
      → (c ≡ ok tt
          → file (write_elements ron prefix addr rest false (after_element e d)).1 (join prefix a)
            ≡ file d (join prefix a))
      → file (write_elements ron prefix addr (e ∷ rest) false d).1 (join prefix a)
        ≡ file d (join prefix a)
  unfolding write_elements
  protects_step a e rest d (ok tt) p ih = rw (p, write_elements) (ih refl)
  protects_step a e rest d bad_ron p ih = rw (p, write_elements) refl
  protects_step a e rest d other_bundle p ih = rw (p, write_elements) refl
  protects_step a e rest d not_in_bundle p ih = rw (p, write_elements) refl
  protects_step a e rest d diverged p ih = rw (p, write_elements) refl

  is_file_same :
      (d d' : Disk) (p : FilePath) → file d' p ≡ file d p → is_file d p ≡ true → is_file d' p ≡ true
  is_file_same d d' p e f = ground (arith, e, f)

  -- Without `overbundle`, a file that exists and belongs to no bundle or to another one keeps its
  -- content, if each element is the one of its address, or else is apart from it: neither the
  -- element's file nor its map file is the file or its map file.
  pub write_elements_protects :
      (a : FilePath) (elements : List Element) (d : Disk)
      → IsForeign a d
      → is_file d (join prefix a) ≡ true
      → All (λ e. (e.addr ≡ a) ⊎ IsApart a e) elements
      → file (write_elements ron prefix addr elements false d).1 (join prefix a)
        ≡ file d (join prefix a)
  unfolding write_elements
  write_elements_protects a [] d h f w = refl
  write_elements_protects a (e ∷ rest) d h f (inl same, ws) =
      protects_step a e rest d (check_element ron prefix addr e false d) refl λ r. absurd (
        refused e d (subst (λ x. IsForeign x d) (sym same) h)
          (subst (λ x. is_file d (join prefix x) ≡ true) (sym same) f) r)
  write_elements_protects a (e ∷ rest) d h f (inr apart, ws) =
      let (n1, n2, n3, n4) = apart in
      let kept = file_apart e d (join prefix a) n1 n3 in
      protects_step a e rest d (check_element ron prefix addr e false d) refl λ r.
        write_elements_protects a rest (after_element e d) (IsForeign-apart a e d apart h)
          (is_file_same d (after_element e d) (join prefix a) kept f) ws
        ∙ kept
