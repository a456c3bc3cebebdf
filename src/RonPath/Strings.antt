-- ===== src/RonPath/Strings.antt =====
-- What `find_strings` gathers on its way down the tree.
use autoschematic.Prelude.{
  ℕ, ◌+◌, ◌≡◌, ◌⊎◌, inl, inr, refl, sym, ap, ◌∙◌, Bool, true, false, Option, none, some, List, [],
  ◌∷◌, ◌++◌, Text, if◌then◌else◌, append-nil, append_assoc,
}
use autoschematic.RonPath.{
  Component, RonPath, ron, value, named_struct, tuple_struct, unit_struct, named_field, list, tuple,
  map_rule, enum_variant_named, enum_variant_tuple, enum_variant_unit, ident, string_std, other,
  Pair, pair, Pairs, nil, cons, name, key, index, rule_of, text_of, Found, pushed, named_root,
  then_popped, unquoted, record_string, root_or, ◌>>=◌, is_value, descend_find_strings, in_all,
  in_struct, in_field, in_values, in_entries, in_variant,
}

-- The root's name, once it is set, stays; the strings found before stay in front.
abbrev pub Extends : Found → Found → Type 0
Extends f f' =
    ((f.root ≡ none) ⊎ (f'.root ≡ f.root))
    × (new : List (RonPath × Text)) × (f'.strings ≡ f.strings ++ new)

-- The traversal panics, or what it returns extends what there was.
abbrev pub Grows : Found → Option Found → Type 0
Grows f none = Unit
Grows f (some f') = Extends f f'

Extends-refl : (f : Found) → Extends f f
Extends-refl f = (inr refl, [], sym (append-nil f.strings))

Extends-trans : (f g h : Found) → Extends f g → Extends g h → Extends f h
Extends-trans f g h (r, new, e) (q, more, d) =
    (roots r q, new ++ more, d ∙ ap (λ l. l ++ more) e ∙ append_assoc f.strings new more)
  where
    roots :
        (f.root ≡ none) ⊎ (g.root ≡ f.root)
        → (g.root ≡ none) ⊎ (h.root ≡ g.root)
        → (f.root ≡ none) ⊎ (h.root ≡ f.root)
    roots (inl a) b = inl a
    roots (inr a) (inl b) = inl (sym a ∙ b)
    roots (inr a) (inr b) = inr (b ∙ a)

after-Grows : (f g : Found) (o : Option Found) → Extends f g → Grows g o → Grows f o
after-Grows f g none e h = tt
after-Grows f g (some x) e h = Extends-trans f g x e h

then-Grows :
    (f : Found) (o : Option Found) (k : Found → Option Found)
    → Grows f o
    → ((g : Found) → Grows g (k g))
    → Grows f (o >>= k)
then-Grows f none k h ih = tt
then-Grows f (some g) k h ih = after-Grows f g (k g) h (ih g)

then_popped-Grows : (f : Found) (o : Option Found) → Grows f o → Grows f (then_popped o)
then_popped-Grows f none h = tt
then_popped-Grows f (some g) h = h

named_root-Extends : (s : Text) (f : Found) → Extends f (named_root s f)
named_root-Extends s f = (stays f.root, [], sym (append-nil f.strings))
  where
    stays : (r : Option Text) → (r ≡ none) ⊎ (root_or r s ≡ r)
    stays none = inl refl
    stays (some r) = inr refl

record_string-Grows : (o : Option Text) (f : Found) → Grows f (record_string o f)
record_string-Grows none f = tt
record_string-Grows (some content) f = (inr refl, (f.trail, content) ∷ [], refl)

-- One value of a list, or a child that is none.
in_value-Grows :
    (b : Bool) (f : Found) (o : Option Found) (k : Found → Option Found) (skip : Option Found)
    → Grows f o
    → ((g : Found) → Grows g (k g))
    → Grows f skip
    → Grows f (if b then (then_popped o >>= k) else skip)
in_value-Grows true f o k skip h ih hs = then-Grows f (then_popped o) k (then_popped-Grows f o h) ih
in_value-Grows false f o k skip h ih hs = hs

in_entry-Grows :
    (f : Found) (o : Option Found) (c : Component) (v k : Found → Option Found)
    → Grows f o
    → ((g : Found) → Grows g (v g))
    → ((g : Found) → Grows g (k g))
    → Grows f (o >>= λ g. then_popped (v (pushed c g)) >>= k)
in_entry-Grows f o c v k h hv ih =
    then-Grows f o (λ g. then_popped (v (pushed c g)) >>= k) h
      λ g.
        then-Grows g (then_popped (v (pushed c g))) k
          (then_popped-Grows g (v (pushed c g)) (hv (pushed c g))) ih

mutual
  unfolding descend_find_strings

  descend-Grows : (p : Pair) (f : Found) → Grows f (descend_find_strings p f)
  descend-Grows (pair string_std lo hi s inner) f = record_string-Grows (unquoted s) f
  descend-Grows (pair named_struct lo hi s inner) f = in_struct-Grows inner f
  descend-Grows (pair tuple_struct lo hi s inner) f = in_struct-Grows inner f
  descend-Grows (pair unit_struct lo hi s inner) f = in_struct-Grows inner f
  descend-Grows (pair named_field lo hi s inner) f = in_field-Grows inner f
  descend-Grows (pair list lo hi s inner) f = in_values-Grows 0 inner f
  descend-Grows (pair tuple lo hi s inner) f = in_values-Grows 0 inner f
  descend-Grows (pair map_rule lo hi s inner) f = in_entries-Grows inner f
  descend-Grows (pair enum_variant_named lo hi s inner) f = in_variant-Grows inner f
  descend-Grows (pair enum_variant_tuple lo hi s inner) f = in_variant-Grows inner f
  descend-Grows (pair enum_variant_unit lo hi s inner) f = in_variant-Grows inner f
  descend-Grows (pair ron lo hi s inner) f = in_all-Grows inner f
  descend-Grows (pair value lo hi s inner) f = in_all-Grows inner f
  descend-Grows (pair ident lo hi s inner) f = in_all-Grows inner f
  descend-Grows (pair other lo hi s inner) f = in_all-Grows inner f

  in_all-Grows : (ps : Pairs) (f : Found) → Grows f (in_all ps f)
  in_all-Grows nil f = Extends-refl f
  in_all-Grows (cons p ps) f =
      then-Grows f (descend_find_strings p f) (in_all ps) (descend-Grows p f) (in_all-Grows ps)

  in_struct-Grows : (ps : Pairs) (f : Found) → Grows f (in_struct ps f)
  in_struct-Grows nil f = Extends-refl f
  in_struct-Grows (cons (pair ident lo hi s inner) ps) f =
      then_popped-Grows f (in_all ps (named_root s f)) (
        after-Grows f (named_root s f) (in_all ps (named_root s f)) (named_root-Extends s f)
          (in_all-Grows ps (named_root s f)))
  in_struct-Grows (cons p ps) f =
      then-Grows f (descend_find_strings p f) (in_all ps) (descend-Grows p f) (in_all-Grows ps)

  in_field-Grows : (ps : Pairs) (f : Found) → Grows f (in_field ps f)
  in_field-Grows nil f = tt
  in_field-Grows (cons p ps) f =
      then_popped-Grows f (in_all ps (pushed (name (text_of p)) f))
        (in_all-Grows ps (pushed (name (text_of p)) f))

  in_values-Grows : (i : ℕ) (ps : Pairs) (f : Found) → Grows f (in_values i ps f)
  in_values-Grows i nil f = Extends-refl f
  in_values-Grows i (cons p ps) f =
      in_value-Grows (is_value (rule_of p)) f (descend_find_strings p (pushed (index i) f))
        (in_values (i + 1) ps) (in_values i ps f) (descend-Grows p (pushed (index i) f))
        (in_values-Grows (i + 1) ps) (in_values-Grows i ps f)

  in_entries-Grows : (ps : Pairs) (f : Found) → Grows f (in_entries ps f)
  in_entries-Grows nil f = Extends-refl f
  in_entries-Grows (cons (pair r lo hi s (cons k (cons v rest))) ps) f =
      in_entry-Grows f (descend_find_strings k f) (key (text_of k)) (descend_find_strings v)
        (in_entries ps) (descend-Grows k f) (descend-Grows v) (in_entries-Grows ps)
  in_entries-Grows (cons (pair r lo hi s (cons k nil)) ps) f = tt
  in_entries-Grows (cons (pair r lo hi s nil) ps) f = tt

  in_variant-Grows : (ps : Pairs) (f : Found) → Grows f (in_variant ps f)
  in_variant-Grows nil f = tt
  in_variant-Grows (cons p ps) f = then_popped-Grows f (in_all ps (named_root (text_of p) f)) (
      after-Grows f (named_root (text_of p) f) (in_all ps (named_root (text_of p) f))
        (named_root-Extends (text_of p) f) (in_all-Grows ps (named_root (text_of p) f)))

pub descend_find_strings-Grows : (p : Pair) (f : Found) → Grows f (descend_find_strings p f)
descend_find_strings-Grows p f = descend-Grows p f
