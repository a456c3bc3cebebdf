-- ===== src/Prefixes/Split.antt =====
-- Addresses below a prefix, and what the checks of the prefixes ensure.
use autoschematic.Prelude.{
  ℕ, ◌≡◌, ◌≢◌, ◌⊎◌, ◌↔◌, refl, ap, sym, ◌∙◌, false, Option, none, some, List, [], ◌∷◌, ◌++◌, ◌==◌,
  ==_iff, Bool-cases, Option-cases, inl, inr, In, All, Text, text, trim, trim, starts_with, Result,
  ok, err, length, list_equality, nat_equality, arith, subst,
}
use mathlib.Core.Option
use autoschematic.FilePath.{
  normal, FilePath, component_equality, components, strip_prefix, AllNormal,
}
use autoschematic.FilePath.Laws.{strip_prefix_sound, strip_prefix-append}
use autoschematic.Prefixes.{
  PrefixError, check_components, check_prefix, check_each, check_against, check_overlap,
  check_prefixes, norm_prefix, split_prefix_addr,
}

abbrev prefix_path : Text → FilePath
prefix_path p = components (norm_prefix p)

-- A prefix that is found is one of the configuration, and its path followed by the address is the
-- path that was split.
pub split_prefix_addr_sound :
    (ps : List Text) (path : FilePath) (p : Text) (addr : FilePath)
    → split_prefix_addr ps path ≡ some (p, addr)
    → In p ps × (components (norm_prefix p) ++ addr ≡ path)
unfolding split_prefix_addr
split_prefix_addr_sound [] path p addr h = absurd (cc)
split_prefix_addr_sound (q ∷ ps) path p addr h =
    elim (Option-cases (strip_prefix path (prefix_path q))) [
      | inl e ↦
          let (i, s) = split_prefix_addr_sound ps path p addr (rw (e, split_prefix_addr) at h) in
          (inr i, s)
      | inr (a, e) ↦
          let same : ◌≡◌ {A = Option (Text × FilePath)} (some (q, a)) (some (p, addr)) =
            rw (e, split_prefix_addr) at h in
          let q_eq : q ≡ p = cc in
          (
            inl q_eq,
            subst (λ x. prefix_path x ++ addr ≡ path) q_eq
                (strip_prefix_sound path (prefix_path q)
                  (e ∙ ap (λ t. Option.map (λ (x : Text × FilePath). x.1) t) same)),
          )
    ]

none≢some : {A : Type 0} {a : A} → none ≢ some a
none≢some h = cc

strip_prefix_at :
    (q : Text) (path addr : FilePath)
    → prefix_path q ++ addr ≡ path
    → strip_prefix path (prefix_path q) ≡ some addr
strip_prefix_at q path addr h = rw (← h) (strip_prefix-append (prefix_path q) addr)

-- No prefix is found exactly where no prefix of the configuration holds the path.
pub split_prefix_addr-none :
    (ps : List Text) (path : FilePath)
    → (split_prefix_addr ps path ≡ none)
      ↔ All (λ p. (addr : FilePath) → components (norm_prefix p) ++ addr ≢ path) ps
unfolding split_prefix_addr
split_prefix_addr-none [] path = (λ h. tt, λ h. refl)
split_prefix_addr-none (q ∷ ps) path = elim (Option-cases (strip_prefix path (prefix_path q))) [
  | inl e ↦ (
    λ h. (
      λ addr at_path. absurd (none≢some (sym e ∙ strip_prefix_at q path addr at_path)),
      (split_prefix_addr-none ps path).0 (rw (e, split_prefix_addr) at h),
    ),
    λ (out, later). rw (e, split_prefix_addr) ((split_prefix_addr-none ps path).1 later),
  )
  | inr (a, e) ↦ (
    λ h. cc (rw (e, split_prefix_addr) at h),
    λ (out, later). absurd (out a (strip_prefix_sound path (prefix_path q) e)),
  )
]

-- What the first loop asks of a prefix, given the number of prefixes.
abbrev pub IsPrefixName : ℕ → Text → Type 0
IsPrefixName n p =
    (trim p ≡ p) × (((p ≡ text "/") × (n ≡ 1)) ⊎ ((p ≢ text "/") × AllNormal (components p)))

check_components_iff : (p : Text) (cs : FilePath) → (check_components p cs ≡ ok tt) ↔ AllNormal cs
unfolding check_components
check_components_iff p [] = (λ h. tt, λ h. refl)
check_components_iff p (normal s ∷ cs) =
    (λ h. (refl, (check_components_iff p cs).0 h), λ (n, h). (check_components_iff p cs).1 h)
check_components_iff p (c ∷ cs) = (λ h. cc, λ (n, h). cc)

check_prefix_iff : (n : ℕ) (p : Text) → (check_prefix n p ≡ ok tt) ↔ IsPrefixName n p
unfolding check_prefix
check_prefix_iff n p =
    ground (arith, ==_iff (trim p) p, ==_iff p (text "/"), check_components_iff p (components p))

ok_cases : (r : Result PrefixError Unit) → (r ≡ ok tt) ⊎ ((e : PrefixError) × (r ≡ err e))
ok_cases (ok tt) = inl refl
ok_cases (err e) = inr (e, refl)

check_each_iff : (n : ℕ) (ps : List Text) → (check_each n ps ≡ ok tt) ↔ All (IsPrefixName n) ps
unfolding check_each
check_each_iff n [] = (λ h. tt, λ h. refl)
check_each_iff n (p ∷ ps) = elim (ok_cases (check_prefix n p)) [
  | inl e ↦ (
    λ h. ((check_prefix_iff n p).0 e, (check_each_iff n ps).0 (rw (e, check_each) at h)),
    λ (a, later). rw (e, check_each) ((check_each_iff n ps).1 later),
  )
  | inr (x, e) ↦ (λ h. cc (rw (e, check_each) at h), λ (a, later). cc ((check_prefix_iff n p).1 a))
]

check_against_iff :
    (p : Text) (qs : List Text)
    → (check_against p qs ≡ ok tt) ↔ All (λ q. (p ≡ q) ⊎ (starts_with p q ≡ false)) qs
unfolding check_against
check_against_iff p [] = (λ h. tt, λ h. refl)
check_against_iff p (q ∷ qs) = elim (Bool-cases (p == q)) [
  | inl e ↦ (
    λ h. (inl ((==_iff p q).0 e), (check_against_iff p qs).0 (ground arith)),
    λ (out, later). rw e ((check_against_iff p qs).1 later),
  )
  | inr e ↦ elim (Bool-cases (starts_with p q)) [
    | inl s ↦ (λ h. absurd (ground arith), λ (out, later). absurd (ground (arith, ==_iff p q)))
    | inr s ↦ (
      λ h. (inr s, (check_against_iff p qs).0 (ground arith)),
      λ (out, later). rw (e, s) ((check_against_iff p qs).1 later),
    )
  ]
]

check_overlap_iff :
    (all_prefixes ps : List Text)
    → (check_overlap all_prefixes ps ≡ ok tt)
      ↔ All (λ p. All (λ q. (p ≡ q) ⊎ (starts_with p q ≡ false)) all_prefixes) ps
unfolding check_overlap
check_overlap_iff as' [] = (λ h. tt, λ h. refl)
check_overlap_iff as' (p ∷ ps) = elim (ok_cases (check_against p as')) [
  | inl e ↦ (
    λ h. ((check_against_iff p as').0 e, (check_overlap_iff as' ps).0 (rw (e, check_overlap) at h)),
    λ (a, later). rw (e, check_overlap) ((check_overlap_iff as' ps).1 later),
  )
  | inr (x, e) ↦
      (λ h. cc (rw (e, check_overlap) at h), λ (a, later). cc ((check_against_iff p as').1 a))
]

-- The checks pass exactly where every prefix is free of outer white space and is either `/`, alone,
-- or a path of normal components only, and no prefix is, as text, the start of a different one.
pub check_prefixes_iff :
    (ps : List Text)
    → (check_prefixes ps ≡ ok tt) ↔ (
        All (IsPrefixName (length ps)) ps
        × All (λ p. All (λ q. (p ≡ q) ⊎ (starts_with p q ≡ false)) ps) ps)
unfolding check_prefixes
check_prefixes_iff ps = elim (ok_cases (check_each (length ps) ps)) [
  | inl e ↦ (
    λ h. (
      (check_each_iff (length ps) ps).0 e,
      (check_overlap_iff ps ps).0 (rw (e, check_prefixes) at h),
    ),
    λ (a, b). rw (e, check_prefixes) ((check_overlap_iff ps ps).1 b),
  )
  | inr (x, e) ↦
      (λ h. cc (rw (e, check_prefixes) at h), λ (a, b). cc ((check_each_iff (length ps) ps).1 a))
]
