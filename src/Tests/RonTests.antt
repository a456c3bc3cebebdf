-- ===== src/Tests/RonTests.antt =====
-- Tests of autoschematic-core/src/ron/path_at.rs.
use autoschematic.Prelude.{◌≡◌, refl, none, some, [], ◌∷◌, Text, text, nat_equality}
use autoschematic.RonPath.Position.{pos_byte_index}
use autoschematic.RonPath.{
  name, key, index, Rule, value, named_struct, unit_struct, named_field, list, map_rule, ident,
  string_std, Pair, pair, Pairs, nil, cons, Found, pop_last, find_strings,
}

-- Spans do not matter for the strings.
abbrev node : Rule → Text → Pairs → Pair
node r s inner = pair r 0 0 s inner

abbrev string_of : Text → Pair
string_of s = node value s (cons (node string_std s nil) nil)

abbrev field : Text → Pair → Pair
field s v = node named_field s (cons (node ident s nil) (cons v nil))

abbrev empty_struct : Text → Pair
empty_struct s = node value s (cons (node unit_struct s (cons (node ident s nil) nil)) nil)

-- `Vpc(tags: {"a": "b"}, ids: ["c"])`
abbrev vpc : Pair
vpc = node named_struct [] (
    cons (node ident (text "Vpc") nil) (
      cons
        (field (text "tags") (
          node map_rule [] (
            cons
              (node value []
                (cons (string_of (text "\"a\"")) (cons (string_of (text "\"b\"")) nil)))
              nil)))
        (cons (field (text "ids") (node list [] (cons (string_of (text "\"c\"")) nil))) nil)))

all_strings :
    find_strings vpc
    ≡ some (record {
      root = some (text "Vpc");
      trail = [];
      strings =
          (name (text "tags") ∷ [], text "a")
          ∷ (name (text "tags") ∷ key (text "\"a\"") ∷ [], text "b")
          ∷ (name (text "ids") ∷ index 0 ∷ [], text "c")
          ∷ [];
    })
unfolding find_strings pop_last
all_strings = refl

-- `Vpc(p: Peer(x: Default(), y: "s"))`: the field `p` is missing in the path of the string, since the
-- inner structs pop the trail without having pushed.
abbrev nested : Pair
nested = node named_struct [] (
    cons (node ident (text "Vpc") nil) (
      cons
        (field (text "p") (
          node named_struct [] (
            cons (node ident (text "Peer") nil) (
              cons (field (text "x") (empty_struct (text "Default")))
                (cons (field (text "y") (string_of (text "\"s\""))) nil)))))
        nil))

lost_field :
    find_strings nested
    ≡ some (record {
      root = some (text "Vpc");
      trail = [];
      strings = (name (text "y") ∷ [], text "s") ∷ [];
    })
unfolding find_strings pop_last
lost_field = refl

abbrev start : Found
start = record { root = none; trail = []; strings = [] }

abbrev strings : Pair
strings = node list [] (cons (string_of (text "\"c\"")) (cons (string_of (text "\"d\"")) nil))

-- The end of a text of 7 characters is column 8; the offset is the one before.
end_of_text : pos_byte_index 1 8 (text "Vpc(id)") ≡ some 6
unfolding pos_byte_index
end_of_text = refl
