-- ===== src/RonPath.antt =====
-- Paths into RON files: autoschematic-core/src/ron/path_at.rs. The parser that `pest` generates is a
-- parameter: a pair is a node of the tree it returns, with its rule, its span, its text and its inner
-- pairs. A panic of the source (`unwrap`, a slice out of range) is `none`.
pub mod Strings
pub mod Position
pub mod Shaped
use autoschematic.Prelude.{
  ℕ, zero, suc, ◌+◌, ◌-◌, Bool, true, false, ◌&&◌, Option, none, some, List, [], ◌∷◌, ◌++◌, Text,
  text, take, drop, length, leb, ltb, if◌then◌else◌,
}

pub data Component : Type 0 where
  name key : Text → Component
  index : ℕ → Component

abbrev pub RonPath : Type 0
RonPath = List Component

-- The rules that the code tells apart.
pub data Rule : Type 0 where
  ron value named_struct tuple_struct unit_struct named_field list tuple map_rule : Rule
  enum_variant_named enum_variant_tuple enum_variant_unit ident string_std other : Rule

mutual
  pub data Pair : Type 0 where
    pair : Rule → (lo hi : ℕ) → Text → Pairs → Pair

  pub data Pairs : Type 0 where
    nil : Pairs
    cons : Pair → Pairs → Pairs

abbrev pub rule_of : Pair → Rule
rule_of (pair r lo hi s inner) = r

abbrev pub text_of : Pair → Text
text_of (pair r lo hi s inner) = s

-- `covers`, on the span of a pair.
unfoldable pub covers : Pair → ℕ → Bool
covers (pair r lo hi s inner) pos = leb lo pos && ltb pos hi

-- The root's name, the trail, and the strings found so far with their paths.
pub record Found : Type 0 where
  pub root : Option Text
  pub trail : RonPath
  pub strings : List (RonPath × Text)

-- `Vec::pop`, whose result is dropped.
unfoldable pub pop_last : RonPath → RonPath
pop_last [] = []
pop_last (c ∷ []) = []
pop_last (c ∷ d ∷ p) = c ∷ pop_last (d ∷ p)

abbrev pub pushed : Component → Found → Found
pushed c f = record f { trail = f.trail ++ c ∷ [] }

abbrev pub popped : Found → Found
popped f = record f { trail = pop_last f.trail }

abbrev root_or : Option Text → Text → Option Text
root_or none s = some s
root_or (some r) s = some r

abbrev pub named_root : Text → Found → Found
named_root s f = record f { root = root_or f.root s }

-- `raw[1..raw.len() - 1]`
abbrev pub unquoted : Text → Option Text
unquoted [] = none
unquoted (c ∷ []) = none
unquoted (c ∷ d ∷ s) = some (take (length s) (d ∷ s))

abbrev pub record_string : Option Text → Found → Option Found
record_string none f = none
record_string (some content) f = some (record f { strings = f.strings ++ (f.trail, content) ∷ [] })

abbrev then_popped : Option Found → Option Found
then_popped none = none
then_popped (some f) = some (popped f)

infixl 10 ◌>>=◌
abbrev pub ◌>>=◌ : {A B : Type 0} → Option A → (A → Option B) → Option B
none >>= f = none
some a >>= f = f a

abbrev pub is_value : Rule → Bool
is_value value = true
is_value _ = false

unfoldable mutual
  pub descend_find_strings : Pair → Found → Option Found
  descend_find_strings (pair string_std lo hi s inner) f = record_string (unquoted s) f
  descend_find_strings (pair named_struct lo hi s inner) f = in_struct inner f
  descend_find_strings (pair tuple_struct lo hi s inner) f = in_struct inner f
  descend_find_strings (pair unit_struct lo hi s inner) f = in_struct inner f
  descend_find_strings (pair named_field lo hi s inner) f = in_field inner f
  descend_find_strings (pair list lo hi s inner) f = in_values 0 inner f
  descend_find_strings (pair tuple lo hi s inner) f = in_values 0 inner f
  descend_find_strings (pair map_rule lo hi s inner) f = in_entries inner f
  descend_find_strings (pair enum_variant_named lo hi s inner) f = in_variant inner f
  descend_find_strings (pair enum_variant_tuple lo hi s inner) f = in_variant inner f
  descend_find_strings (pair enum_variant_unit lo hi s inner) f = in_variant inner f
  descend_find_strings (pair ron lo hi s inner) f = in_all inner f
  descend_find_strings (pair value lo hi s inner) f = in_all inner f
  descend_find_strings (pair ident lo hi s inner) f = in_all inner f
  descend_find_strings (pair other lo hi s inner) f = in_all inner f

  -- `for child in pair.into_inner()`
  in_all : Pairs → Found → Option Found
  in_all nil f = some f
  in_all (cons p ps) f = descend_find_strings p f >>= λ f'. in_all ps f'

  -- A struct's name is not pushed, but the trail is popped after its fields.
  in_struct : Pairs → Found → Option Found
  in_struct nil f = some f
  in_struct (cons (pair ident lo hi s inner) ps) f = then_popped (in_all ps (named_root s f))
  in_struct (cons p ps) f = descend_find_strings p f >>= λ f'. in_all ps f'

  in_field : Pairs → Found → Option Found
  in_field nil f = none
  in_field (cons field_name ps) f = then_popped (in_all ps (pushed (name (text_of field_name)) f))

  -- The values of a list or a tuple, numbered.
  in_values : ℕ → Pairs → Found → Option Found
  in_values i nil f = some f
  in_values i (cons p ps) f =
      if is_value (rule_of p)
      then (then_popped (descend_find_strings p (pushed (index i) f)) >>= λ f'.
          in_values (i + 1) ps f')
      else in_values i ps f

  in_entries : Pairs → Found → Option Found
  in_entries nil f = some f
  in_entries (cons (pair r lo hi s (cons k (cons v rest))) ps) f =
      descend_find_strings k f >>= λ f'.
      then_popped (descend_find_strings v (pushed (key (text_of k)) f')) >>= λ f''.
      in_entries ps f''
  in_entries (cons _ ps) f = none

  -- A variant's name is not pushed either, and the trail is popped.
  in_variant : Pairs → Found → Option Found
  in_variant nil f = none
  in_variant (cons variant_name ps) f =
      then_popped (in_all ps (named_root (text_of variant_name) f))

-- `find_strings`, on the tree that the parser returns.
unfoldable pub find_strings : Pair → Option Found
unfolding descend_find_strings
find_strings root_pair =
    descend_find_strings root_pair (record { root = none; trail = []; strings = [] })
