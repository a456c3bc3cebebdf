-- ===== src/RonPath/Shaped.antt =====
-- On trees of the grammar's shape `find_strings` returns, and gathers all the strings of the tree.
use autoschematic.Prelude.{
  ℕ, ◌+◌, ◌≡◌, ◌⊎◌, inl, inr, refl, sym, ap, subst, ◌∙◌, Bool, true, false, Option, none, some,
  List, [], ◌∷◌, ◌++◌, Text, take, length, if◌then◌else◌, append-nil, append_assoc,
}
use autoschematic.RonPath.{
  Component, RonPath, Rule, ron, value, named_struct, tuple_struct, unit_struct, named_field, list,
  tuple, map_rule, enum_variant_named, enum_variant_tuple, enum_variant_unit, ident, string_std,
  other, Pair, pair, Pairs, nil, cons, name, key, index, rule_of, text_of, Found, pushed,
  named_root, then_popped, unquoted, record_string, ◌>>=◌, is_value, descend_find_strings, in_all,
  in_struct, in_field, in_values, in_entries, in_variant,
}

abbrev pub contents : List (RonPath × Text) → List Text
contents [] = []
contents ((path, s) ∷ l) = s ∷ contents l

-- A text without its first and its last character.
unfoldable pub without_last : Text → Text
without_last [] = []
without_last (c ∷ []) = []
without_last (c ∷ d ∷ s) = c ∷ without_last (d ∷ s)

abbrev pub between : Text → Text
between [] = []
between (c ∷ s) = without_last s

-- The strings of a tree, in the order of the text.
unfoldable mutual
  pub strings_of : Pair → List Text
  strings_of (pair string_std lo hi s inner) = between s ∷ []
  strings_of (pair _ lo hi s inner) = strings_of_all inner

  pub strings_of_all : Pairs → List Text
  strings_of_all nil = []
  strings_of_all (cons p ps) = strings_of p ++ strings_of_all ps

-- The text has its two quotes.
abbrev pub IsQuoted : Text → Type 0
IsQuoted (c ∷ d ∷ s) = Unit
IsQuoted _ = ⊥

-- A field and a variant start with a name, in which there is no string.
abbrev pub HasName : Pairs → Type 0
HasName nil = ⊥
HasName (cons p ps) = strings_of p ≡ []

-- A child of a list that is no value has no string.
abbrev pub AllValues : Pairs → Type 0
AllValues nil = Unit
AllValues (cons p ps) = ((is_value (rule_of p) ≡ true) ⊎ (strings_of p ≡ [])) × AllValues ps

-- An entry of a map is a key and a value.
abbrev pub HasKeyAndValue : Pair → Type 0
HasKeyAndValue (pair other lo hi s (cons k (cons v nil))) = Unit
HasKeyAndValue _ = ⊥

abbrev pub AllEntries : Pairs → Type 0
AllEntries nil = Unit
AllEntries (cons p ps) = HasKeyAndValue p × AllEntries ps

-- What the rule of a pair asks of its text and of its inner pairs.
abbrev pub FitsRule : Rule → Text → Pairs → Type 0
FitsRule string_std s inner = IsQuoted s
FitsRule ident s inner = strings_of_all inner ≡ []
FitsRule named_field s inner = HasName inner
FitsRule enum_variant_named s inner = HasName inner
FitsRule enum_variant_tuple s inner = HasName inner
FitsRule enum_variant_unit s inner = HasName inner
FitsRule list s inner = AllValues inner
FitsRule tuple s inner = AllValues inner
FitsRule map_rule s inner = AllEntries inner
FitsRule _ s inner = Unit

-- Every pair of the tree fits its rule.
unfoldable mutual
  pub IsShaped : Pair → Type 0
  IsShaped (pair r lo hi s inner) = FitsRule r s inner × AllShaped inner

  pub AllShaped : Pairs → Type 0
  AllShaped nil = Unit
  AllShaped (cons p ps) = IsShaped p × AllShaped ps

-- The traversal returns, and has added strings of these contents.
abbrev Adds : Found → List Text → Option Found → Type 0
Adds f l none = ⊥
Adds f l (some g) = contents g.strings ≡ contents f.strings ++ l

Adds-list : (f : Found) (l m : List Text) (o : Option Found) → l ≡ m → Adds f l o → Adds f m o
Adds-list f l m o e h = subst (λ x. Adds f x o) e h

after-Adds :
    (f g : Found) (l m : List Text) (o : Option Found)
    → contents g.strings ≡ contents f.strings ++ l
    → Adds g m o
    → Adds f (l ++ m) o
after-Adds f g l m none e h = h
after-Adds f g l m (some x) e h = h ∙ ap (λ c. c ++ m) e ∙ append_assoc (contents f.strings) l m

then-Adds :
    (f : Found) (l m : List Text) (o : Option Found) (k : Found → Option Found)
    → Adds f l o
    → ((g : Found) → Adds g m (k g))
    → Adds f (l ++ m) (o >>= k)
then-Adds f l m (some g) k h ih = after-Adds f g l m (k g) h (ih g)
then-Adds f l m none k h ih = h

then_popped-Adds :
    (f : Found) (l : List Text) (o : Option Found) → Adds f l o → Adds f l (then_popped o)
then_popped-Adds f l (some g) h = h
then_popped-Adds f l none h = h

nothing-Adds : (f : Found) → Adds f [] (some f)
nothing-Adds f = sym (append-nil (contents f.strings))

take-without_last : (d : ℕ) (s : Text) → take (length s) (d ∷ s) ≡ without_last (d ∷ s)
unfolding without_last
take-without_last d [] = refl
take-without_last d (c ∷ s) = ap (λ x. d ∷ x) (take-without_last c s)

contents-append : (l m : List (RonPath × Text)) → contents (l ++ m) ≡ contents l ++ contents m
contents-append [] m = refl
contents-append ((path, s) ∷ l) m = ap (λ x. s ∷ x) (contents-append l m)

record_string-Adds :
    (s : Text) (f : Found) → IsQuoted s → Adds f (between s ∷ []) (record_string (unquoted s) f)
record_string-Adds (c ∷ d ∷ s) f h =
    contents-append f.strings ((f.trail, take (length s) (d ∷ s)) ∷ [])
    ∙ ap (λ x. contents f.strings ++ x ∷ []) (take-without_last d s)
record_string-Adds (c ∷ []) f h = h
record_string-Adds [] f h = h

in_value-Adds :
    (b : Bool) (f : Found) (l m : List Text) (o : Option Found) (k : Found → Option Found)
    (skip : Option Found)
    → ((b ≡ true) ⊎ (l ≡ []))
    → Adds f l o
    → ((g : Found) → Adds g m (k g))
    → Adds f m skip
    → Adds f (l ++ m) (if b then (then_popped o >>= k) else skip)
in_value-Adds true f l m o k skip q h ih hs =
    then-Adds f l m (then_popped o) k (then_popped-Adds f l o h) ih
in_value-Adds false f l m o k skip (inl e) h ih hs = cc
in_value-Adds false f l m o k skip (inr e) h ih hs =
    Adds-list f m (l ++ m) skip (sym (ap (λ x. x ++ m) e)) hs

in_entry-Adds :
    (f : Found) (l m n : List Text) (o : Option Found) (c : Component) (v k : Found → Option Found)
    → Adds f l o
    → ((g : Found) → Adds g m (v g))
    → ((g : Found) → Adds g n (k g))
    → Adds f ((l ++ (m ++ [])) ++ n) (o >>= λ g. then_popped (v (pushed c g)) >>= k)
in_entry-Adds f l m n o c v k h hv ih =
    Adds-list f (l ++ (m ++ n)) ((l ++ (m ++ [])) ++ n) _
      (sym (append_assoc l (m ++ []) n ∙ ap (λ x. l ++ (x ++ n)) (append-nil m)))
      (then-Adds f l (m ++ n) o (λ g. then_popped (v (pushed c g)) >>= k) h
        (λ g.
          then-Adds g m n (then_popped (v (pushed c g))) k
            (then_popped-Adds g m (v (pushed c g)) (hv (pushed c g))) ih))

mutual
  unfolding descend_find_strings IsShaped strings_of

  descend-Adds :
      (p : Pair) (f : Found) → IsShaped p → Adds f (strings_of p) (descend_find_strings p f)
  descend-Adds (pair string_std lo hi s inner) f (q, h) = record_string-Adds s f q
  descend-Adds (pair named_struct lo hi s inner) f (q, h) = in_struct-Adds inner f h
  descend-Adds (pair tuple_struct lo hi s inner) f (q, h) = in_struct-Adds inner f h
  descend-Adds (pair unit_struct lo hi s inner) f (q, h) = in_struct-Adds inner f h
  descend-Adds (pair named_field lo hi s inner) f (q, h) = in_field-Adds inner f q h
  descend-Adds (pair list lo hi s inner) f (q, h) = in_values-Adds 0 inner f q h
  descend-Adds (pair tuple lo hi s inner) f (q, h) = in_values-Adds 0 inner f q h
  descend-Adds (pair map_rule lo hi s inner) f (q, h) = in_entries-Adds inner f q h
  descend-Adds (pair enum_variant_named lo hi s inner) f (q, h) = in_variant-Adds inner f q h
  descend-Adds (pair enum_variant_tuple lo hi s inner) f (q, h) = in_variant-Adds inner f q h
  descend-Adds (pair enum_variant_unit lo hi s inner) f (q, h) = in_variant-Adds inner f q h
  descend-Adds (pair ron lo hi s inner) f (q, h) = in_all-Adds inner f h
  descend-Adds (pair value lo hi s inner) f (q, h) = in_all-Adds inner f h
  descend-Adds (pair ident lo hi s inner) f (q, h) = in_all-Adds inner f h
  descend-Adds (pair other lo hi s inner) f (q, h) = in_all-Adds inner f h

  in_all-Adds : (ps : Pairs) (f : Found) → AllShaped ps → Adds f (strings_of_all ps) (in_all ps f)
  in_all-Adds nil f h = nothing-Adds f
  in_all-Adds (cons p ps) f (h, hs) =
      then-Adds f (strings_of p) (strings_of_all ps) (descend_find_strings p f) (in_all ps)
        (descend-Adds p f h) (λ g. in_all-Adds ps g hs)

  in_struct-Adds :
      (ps : Pairs) (f : Found) → AllShaped ps → Adds f (strings_of_all ps) (in_struct ps f)
  in_struct-Adds nil f h = nothing-Adds f
  in_struct-Adds (cons (pair ident lo hi s inner) ps) f ((q, h), hs) =
      Adds-list f (strings_of_all ps) (strings_of_all inner ++ strings_of_all ps) _
        (sym (ap (λ x. x ++ strings_of_all ps) q))
        (then_popped-Adds f (strings_of_all ps) (in_all ps (named_root s f))
          (in_all-Adds ps (named_root s f) hs))
  in_struct-Adds (cons p ps) f (h, hs) =
      then-Adds f (strings_of p) (strings_of_all ps) (descend_find_strings p f) (in_all ps)
        (descend-Adds p f h) (λ g. in_all-Adds ps g hs)

  in_field-Adds :
      (ps : Pairs) (f : Found)
      → HasName ps
      → AllShaped ps
      → Adds f (strings_of_all ps) (in_field ps f)
  in_field-Adds nil f q h = q
  in_field-Adds (cons p ps) f q (h, hs) =
      Adds-list f (strings_of_all ps) (strings_of p ++ strings_of_all ps) _
        (sym (ap (λ x. x ++ strings_of_all ps) q))
        (then_popped-Adds f (strings_of_all ps) (in_all ps (pushed (name (text_of p)) f))
          (in_all-Adds ps (pushed (name (text_of p)) f) hs))

  in_values-Adds :
      (i : ℕ) (ps : Pairs) (f : Found)
      → AllValues ps
      → AllShaped ps
      → Adds f (strings_of_all ps) (in_values i ps f)
  in_values-Adds i nil f q h = nothing-Adds f
  in_values-Adds i (cons p ps) f (q, qs) (h, hs) =
      in_value-Adds (is_value (rule_of p)) f (strings_of p) (strings_of_all ps)
        (descend_find_strings p (pushed (index i) f)) (in_values (i + 1) ps) (in_values i ps f) q
        (descend-Adds p (pushed (index i) f) h) (λ g. in_values-Adds (i + 1) ps g qs hs)
        (in_values-Adds i ps f qs hs)

  in_entries-Adds :
      (ps : Pairs) (f : Found)
      → AllEntries ps
      → AllShaped ps
      → Adds f (strings_of_all ps) (in_entries ps f)
  in_entries-Adds nil f q h = nothing-Adds f
  in_entries-Adds (cons (pair other lo hi s (cons k (cons v nil))) ps) f (q, qs)
        ((fits, (hk, (hv, hr))), hs) =
      in_entry-Adds f (strings_of k) (strings_of v) (strings_of_all ps) (descend_find_strings k f)
        (key (text_of k)) (descend_find_strings v) (in_entries ps) (descend-Adds k f hk)
        (λ g. descend-Adds v g hv) (λ g. in_entries-Adds ps g qs hs)
  in_entries-Adds (cons p ps) f (q, qs) h = elim q [ ]

  in_variant-Adds :
      (ps : Pairs) (f : Found)
      → HasName ps
      → AllShaped ps
      → Adds f (strings_of_all ps) (in_variant ps f)
  in_variant-Adds nil f q h = q
  in_variant-Adds (cons p ps) f q (h, hs) =
      Adds-list f (strings_of_all ps) (strings_of p ++ strings_of_all ps) _
        (sym (ap (λ x. x ++ strings_of_all ps) q))
        (then_popped-Adds f (strings_of_all ps) (in_all ps (named_root (text_of p) f))
          (in_all-Adds ps (named_root (text_of p) f) hs))
