-- ===== src/Tests/UnescapeTests.antt =====
-- Tests of autoschematic-core/src/unescape.rs.
use autoschematic.Prelude.{
  Text, inl, inr, ◌≡◌, refl, none, some, [], ◌∷◌, text, nat_equality, arith,
}
use autoschematic.Unescape.{unescape, try_unescape}
use autoschematic.Unescape.Numbers.{escape_numbers, unescape-escape_numbers}
use autoschematic.Unescape.Roundtrip.{escape, unescape-escape}

-- An octal digit, a byte, a character by its number, and a short escape.
escapes : unescape (text "\\101\\x42\\u0043\\n\\7z") ≡ none
unfolding unescape
escapes = refl

all_kinds : unescape (text "\\101\\x42\\u0043\\t\\71") ≡ some (65 ∷ 66 ∷ 67 ∷ 9 ∷ 57 ∷ [])
unfolding unescape
all_kinds = refl

-- The standard library reads a sign, so `\x+1` is the character 1.
signed_byte : unescape (text "\\x+1") ≡ some (1 ∷ [])
unfolding unescape
signed_byte = refl

surrogate : try_unescape (text "\\ud800") ≡ text "\\ud800"
unfolding try_unescape
surrogate = refl

unescape-escape_example : unescape (escape (text "say \"no\"\n")) ≡ some (text "say \"no\"\n")
unescape-escape_example = unescape-escape (text "say \"no\"\n")

-- An ASCII letter, a letter beyond it, and a character behind the surrogates.
abbrev letters : Text
letters = 97 ∷ 0x3bb ∷ 0xfffd ∷ []

unescape-escape_numbers_example : unescape (escape_numbers letters) ≡ some letters
unescape-escape_numbers_example =
    unescape-escape_numbers letters
      (inl (omega arith), (inl (omega arith), (inr (omega arith, omega arith), tt)))
