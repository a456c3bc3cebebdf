-- ===== src/Template/Resolved.antt =====
-- What `template_config` fills in and what it reports as missing.
use autoschematic.Prelude.{
  ℕ, ◌≡◌, ◌≢◌, ◌↔◌, ◌⊎◌, inl, inr, refl, sym, ap, subst, ◌∙◌, Option, none, some, List, [], ◌∷◌,
  ◌++◌, Text, any, ◌==◌, ==_iff, In, In-append, All, nat_equality, list_equality, pair_equality,
  append-nil, append_assoc, Bool-cases, any_sound, In-append_left, In-append_right,
}
use autoschematic.FilePath.{FilePath, component_equality, components}
use autoschematic.Disk.{Disk}
use autoschematic.Outputs.{Json, Outcome, ok, bad_json, link_file, diverged, ◌>>=◌, get}
use autoschematic.Template.{
  Piece, literal, reference, piece_text, OutRegex, ReadOutput, TemplateResourceResult, with_value,
  without_value, add_missing, outputs_of, get_read_outputs, replaced, replace_all, template_config,
}

abbrev pub found_value : Outcome (Option Text) → Option Text
found_value (ok o) = o
found_value _ = none

module _ (json : Json) (fuel : ℕ) (prefix : FilePath) (d : Disk) where
  -- The value of a reference, if `get` returns one.
  abbrev pub value : ReadOutput → Option Text
  value (addr, key) = found_value (get json fuel prefix addr key d)

  -- All reads come to an end.
  abbrev pub Returns : ReadOutput → Type 0
  Returns (addr, key) = get json fuel prefix addr key d ≢ diverged

  abbrev or_else : Option Text → Text → Text
  or_else none s = s
  or_else (some v) s = v

  -- The text with the values filled in that there are.
  abbrev pub filled : List Piece → Text
  filled [] = []
  filled (literal s ∷ ps) = s ++ filled ps
  filled (reference addr key ∷ ps) =
      or_else (value (components addr, key)) (piece_text (reference addr key)) ++ filled ps

  In-add_missing :
      (q : ReadOutput) (rs : List ReadOutput) (r : ReadOutput)
      → In r (add_missing q rs) ↔ (In r rs ⊎ (q ≡ r))
  unfolding add_missing
  In-add_missing q rs r = elim (Bool-cases (any (λ x. x == q) rs)) [
    | inl e ↦
        let (a, i, same) = any_sound (λ x. x == q) rs e in
        rw e (λ h. inl h, either_way (subst (λ x. In x rs) ((==_iff a q).0 same) i))
    | inr e ↦ rw e (
      to_end,
      λ h. elim h [
        | inl i ↦ In-append_left rs (q ∷ []) r i
        | inr same ↦ In-append_right rs (q ∷ []) r (inl same)
      ],
    )
  ]
    where
      either_way : In q rs → In r rs ⊎ (q ≡ r) → In r rs
      either_way i (inl j) = j
      either_way i (inr same) = subst (λ x. In x rs) same i

      to_end : In r (rs ++ q ∷ []) → In r rs ⊎ (q ≡ r)
      to_end h = elim (In-append rs (q ∷ []) r h) [
        | inl i ↦ inl i
        | inr (inl same) ↦ inr same
        | inr (inr none_left) ↦ absurd none_left
      ]

  -- What the loop over the pieces comes to, from what is gathered before.
  abbrev Gathered : List Piece → TemplateResourceResult → Outcome TemplateResourceResult → Type 0
  Gathered ps t result =
      (t' : TemplateResourceResult) × (result ≡ ok t')
      × (t'.body ≡ t.body ++ filled ps)
      × ((r : ReadOutput)
          → In r t'.missing ↔ (In r t.missing ⊎ (In r (outputs_of ps) × (value r ≡ none))))

  no_pieces : (t : TemplateResourceResult) → Gathered [] t (ok t)
  unfolding outputs_of
  no_pieces t = (
    t,
    refl,
    sym (append-nil t.body),
    λ r. (λ h. inl h, λ h. elim h [ inl i ↦ i | inr (i, e) ↦ absurd i ]),
  )

  after_literal :
      (s : Text) (ps : List Piece) (t : TemplateResourceResult) (o : Outcome TemplateResourceResult)
      → Gathered ps (record t { body = t.body ++ s }) o
      → Gathered (literal s ∷ ps) t o
  unfolding outputs_of
  after_literal s ps t o (t', e, b, missing) =
      (t', e, b ∙ append_assoc t.body s (filled ps), missing)

  after_found :
      (addr key val : Text) (ps : List Piece) (t t1 : TemplateResourceResult)
      (o : Outcome TemplateResourceResult)
      → value (components addr, key) ≡ some val
      → t1.body ≡ t.body ++ val
      → t1.missing ≡ t.missing
      → Gathered ps t1 o
      → Gathered (reference addr key ∷ ps) t o
  unfolding outputs_of
  after_found addr key val ps t t1 o v b1 m1 (t', e, b, missing) = (
    t',
    e,
    b ∙ rw (v, b1) (append_assoc t.body val (filled ps)),
    λ r. (
      λ i. elim ((missing r).0 i) [
        | inl old ↦ inl (subst (In r) m1 old)
        | inr (later, n) ↦ inr (inr later, n)
      ],
      λ h. (missing r).1 (earlier r h),
    ),
  )
    where
      earlier :
          (r : ReadOutput)
          → In r t.missing
            ⊎ (((components addr, key) ≡ r) ⊎ In r (outputs_of ps)) × (value r ≡ none)
          → In r t1.missing ⊎ (In r (outputs_of ps) × (value r ≡ none))
      earlier r (inl old) = inl (subst (In r) (sym m1) old)
      earlier r (inr (inl same, n)) = absurd (cc (sym v ∙ ap value same ∙ n))
      earlier r (inr (inr later, n)) = inr (later, n)

  after_missing :
      (addr key : Text) (ps : List Piece) (t t1 : TemplateResourceResult)
      (o : Outcome TemplateResourceResult)
      → value (components addr, key) ≡ none
      → t1.body ≡ t.body ++ piece_text (reference addr key)
      → t1.missing ≡ add_missing (components addr, key) t.missing
      → Gathered ps t1 o
      → Gathered (reference addr key ∷ ps) t o
  unfolding outputs_of
  after_missing addr key ps t t1 o v b1 m1 (t', e, b, missing) = (
    t',
    e,
    b ∙ rw (v, b1) (append_assoc t.body (piece_text (reference addr key)) (filled ps)),
    λ r. (
      λ i. elim ((missing r).0 i) [
        | inl h ↦ elim ((In-add_missing x t.missing r).0 (subst (In r) m1 h)) [
          | inl old ↦ inl old
          | inr same ↦ inr (inl same, sym (ap value same) ∙ v)
        ]
        | inr (later, n) ↦ inr (inr later, n)
      ],
      λ h. (missing r).1 (earlier r h),
    ),
  )
    where
      x : ReadOutput
      x = (components addr, key)

      added_now : (r : ReadOutput) → In r t.missing ⊎ (x ≡ r) → In r t1.missing
      added_now r h = subst (In r) (sym m1) ((In-add_missing x t.missing r).1 h)

      earlier :
          (r : ReadOutput)
          → In r t.missing ⊎ ((x ≡ r) ⊎ In r (outputs_of ps)) × (value r ≡ none)
          → In r t1.missing ⊎ (In r (outputs_of ps) × (value r ≡ none))
      earlier r (inl old) = inl (added_now r (inl old))
      earlier r (inr (inl same, n)) = inl (added_now r (inr same))
      earlier r (inr (inr later, n)) = inr (later, n)

  reference_step :
      (addr key : Text) (ps : List Piece) (t : TemplateResourceResult) (g : Outcome (Option Text))
      → get json fuel prefix (components addr) key d ≡ g
      → replace_all json fuel prefix d (reference addr key ∷ ps) t
        ≡ (replaced json fuel prefix d addr key g t >>= replace_all json fuel prefix d ps)
  unfolding replace_all
  reference_step addr key ps t g e =
      ap (λ x. replaced json fuel prefix d addr key x t >>= replace_all json fuel prefix d ps) e

  -- One reference, given what the rest of the pieces comes to.
  after_reference :
      (addr key : Text) (ps : List Piece) (t : TemplateResourceResult)
      → Returns (components addr, key)
      → ((t1 : TemplateResourceResult) → Gathered ps t1 (replace_all json fuel prefix d ps t1))
      → (g : Outcome (Option Text)) → get json fuel prefix (components addr) key d ≡ g
      → Gathered
          (reference addr key ∷ ps)
          t
          (replace_all json fuel prefix d (reference addr key ∷ ps) t)
  unfolding replace_all replaced
  after_reference addr key ps t returns rest (ok (some val)) e =
      subst (Gathered (reference addr key ∷ ps) t) (sym (reference_step addr key ps t _ e)) (
        after_found addr key val ps t (with_value addr key val t) _ (ap found_value e) refl refl
          (rest (with_value addr key val t)))
  after_reference addr key ps t returns rest (ok none) e =
      subst (Gathered (reference addr key ∷ ps) t) (sym (reference_step addr key ps t _ e)) (
        after_missing addr key ps t (without_value addr key t) _ (ap found_value e) refl refl
          (rest (without_value addr key t)))
  after_reference addr key ps t returns rest bad_json e =
      subst (Gathered (reference addr key ∷ ps) t) (sym (reference_step addr key ps t _ e)) (
        after_missing addr key ps t (without_value addr key t) _ (ap found_value e) refl refl
          (rest (without_value addr key t)))
  after_reference addr key ps t returns rest link_file e =
      subst (Gathered (reference addr key ∷ ps) t) (sym (reference_step addr key ps t _ e)) (
        after_missing addr key ps t (without_value addr key t) _ (ap found_value e) refl refl
          (rest (without_value addr key t)))
  after_reference addr key ps t returns rest diverged e = absurd (returns e)

  gather :
      (ps : List Piece) (t : TemplateResourceResult)
      → All Returns (outputs_of ps)
      → Gathered ps t (replace_all json fuel prefix d ps t)
  unfolding outputs_of replace_all
  gather [] t h = no_pieces t
  gather (literal s ∷ ps) t h =
      after_literal s ps t _ (gather ps (record t { body = t.body ++ s }) h)
  gather (reference addr key ∷ ps) t (returns, h) =
      after_reference addr key ps t returns (λ t1. gather ps t1 h)
        (get json fuel prefix (components addr) key d) refl

  -- Where the reads of all references in a text return, `template_config` returns: its body is the
  -- text with the value in place of each reference that has one, and its missing outputs are exactly
  -- the references of the text, as `get_read_outputs` lists them, that have none.
  pub template_config_lem :
      (regex : OutRegex) (config : Text)
      → All Returns (get_read_outputs regex config)
      → (t : TemplateResourceResult) × (template_config json fuel prefix d regex config ≡ ok t)
        × (t.body ≡ filled (regex.pieces config))
        × ((r : ReadOutput)
            → In r t.missing ↔ (In r (get_read_outputs regex config) × (value r ≡ none)))
  unfolding template_config get_read_outputs
  template_config_lem regex config h =
      let (t, e, b, missing) =
        gather (regex.pieces config) (record { body = []; found = []; missing = [] }) h in
      (t, e, b, λ r. (λ i. only_new r ((missing r).0 i), λ n. (missing r).1 (inr n)))
    where
      only_new :
          (r : ReadOutput)
          → ⊥ ⊎ (In r (outputs_of (regex.pieces config)) × (value r ≡ none))
          → In r (outputs_of (regex.pieces config)) × (value r ≡ none)
      only_new r (inl empty) = absurd empty
      only_new r (inr n) = n
