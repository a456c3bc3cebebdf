-- ===== src/Prelude/Texts.antt =====
-- Text that the program takes apart, as a list of code points, and what the code uses of `str`.
use Prim.Native.Char.{code}
use Prim.Native.Nat.{ℕ}
use Prim.Native.String.{String}
use mathlib.Core.Path.{◌≡◌, refl}
use mathlib.Core.Bool.{Bool, true, false, ◌&&◌, ◌||◌}
use mathlib.Core.List.{List, [], ◌∷◌, ◌++◌, reverse}
use mathlib.Core.Option.{Option, none, some}
use native.Mathlib.Omega.{arith}
use autoschematic.Prelude.Tests.{nat_eq, leb, if◌then◌else◌}

abbrev pub Text : Type 0
Text = List ℕ

-- A literal.
abbrev pub text : String → Text
text String.[] = []
text (String.◌∷◌ c s) = code c ∷ text s

-- `char::is_whitespace`: the Unicode property White_Space.
unfoldable pub is_whitespace : ℕ → Bool
is_whitespace c =
    (leb 9 c && leb c 13)
    || nat_eq c 32
    || nat_eq c 0x85
    || nat_eq c 0xa0
    || nat_eq c 0x1680
    || (leb 0x2000 c && leb c 0x200a)
    || nat_eq c 0x2028
    || nat_eq c 0x2029
    || nat_eq c 0x202f
    || nat_eq c 0x205f
    || nat_eq c 0x3000

unfoldable pub trim_start : Text → Text
unfolding is_whitespace
trim_start [] = []
trim_start (c ∷ s) = let rest = trim_start s in if is_whitespace c then rest else c ∷ s

unfoldable pub trim_end : Text → Text
unfolding trim_start
trim_end s = reverse (trim_start (reverse s))

unfoldable pub trim : Text → Text
unfolding trim_start trim_end
trim s = trim_end (trim_start s)

-- `strip_prefix` on text; `some` of the rest.
unfoldable pub strip_text : Text → Text → Option Text
strip_text [] s = some s
strip_text (p ∷ ps) [] = none
strip_text (p ∷ ps) (c ∷ s) = if nat_eq p c then strip_text ps s else none

unfoldable pub starts_with : Text → Text → Bool
unfolding strip_text
starts_with s p = elim (strip_text p s) [ none ↦ false | some _ ↦ true ]

-- The part before the first `c` and the part after it.
unfoldable pub split_once : ℕ → Text → Option (Text × Text)
split_once c [] = none
split_once c (x ∷ s) =
    let rest = split_once c s in
    if nat_eq x c then some ([], s) else elim rest [ none ↦ none | some (a, b) ↦ some (x ∷ a, b) ]

-- `str::lines`: the pieces between line feeds; a last piece that is empty is dropped, and so is one
-- carriage return before a line feed.
abbrev trim_cr : Text → Text
trim_cr [] = []
trim_cr (c ∷ []) = if nat_eq c 13 then [] else c ∷ []
trim_cr (c ∷ d ∷ s) = c ∷ trim_cr (d ∷ s)

lines_from : Text → Text → List Text
lines_from [] [] = []
lines_from (c ∷ cur) [] = reverse (c ∷ cur) ∷ []
lines_from cur (c ∷ s) =
    let closed = trim_cr (reverse cur) ∷ lines_from [] s in
    let longer = lines_from (c ∷ cur) s in if nat_eq c 10 then closed else longer

unfoldable pub lines : Text → List Text
unfolding lines_from
lines s = lines_from [] s

pub strip_text_sound : (p s : Text) {rest : Text} → strip_text p s ≡ some rest → p ++ rest ≡ s
unfolding strip_text
strip_text_sound [] s h = ground arith
strip_text_sound (x ∷ p) [] h = cc
strip_text_sound (x ∷ p) (c ∷ s) {rest} h = ground (arith, strip_text_sound p s {rest = rest})

pub strip_text-append : (p rest : Text) → strip_text p (p ++ rest) ≡ some rest
unfolding strip_text
strip_text-append [] rest = refl
strip_text-append (x ∷ p) rest = ground (arith, strip_text-append p rest)
