-- ===== src/Unescape.antt =====
-- Backslash escapes: autoschematic-core/src/unescape.rs. The queue of characters is a list; the loop
-- runs on fuel, and the length of the text is enough.
pub mod Numbers
pub mod Roundtrip
use autoschematic.Prelude.{
  ℕ, zero, suc, ◌+◌, ◌*◌, ◌-◌, ◌≤◌, Bool, true, false, ◌&&◌, ◌||◌, Option, none, some, List, [],
  ◌∷◌, Text, length, leb, ltb, ◌==◌, nat_equality, list_equality, if◌then◌else◌,
}

infixl 10 ◌>>=◌
abbrev pub ◌>>=◌ : {A B : Type 0} → Option A → (A → Option B) → Option B
none >>= f = none
some a >>= f = f a

-- `char::to_digit`, without the bound by the radix.
abbrev pub digit_value : ℕ → Option ℕ
digit_value c =
    if leb b'0' c && leb c b'9'
    then some (c - b'0')
    else if leb b'a' c && leb c b'z'
    then some (c - b'a' + 10)
    else if leb b'A' c && leb c b'Z'
    then some (c - b'A' + 10)
    else none

abbrev pub to_digit : ℕ → ℕ → Option ℕ
to_digit radix c = elim (digit_value c) [
  | none ↦ none
  | some v ↦ if ltb v radix then some v else none
]

unfoldable pub digits : ℕ → ℕ → Text → Option ℕ
digits radix acc [] = some acc
digits radix acc (c ∷ s) = elim (to_digit radix c) [
  | none ↦ none
  | some v ↦ digits radix (acc * radix + v) s
]

-- `u32::from_str_radix` on a text of at most four characters, which does not overflow: digits, after
-- a sign `+` if there is one.
unfoldable pub from_str_radix : ℕ → Text → Option ℕ
from_str_radix radix [] = none
from_str_radix radix (c ∷ []) = digits radix 0 (c ∷ [])
from_str_radix radix (c ∷ d ∷ s) =
    if c == b'+' then digits radix 0 (d ∷ s) else digits radix 0 (c ∷ d ∷ s)

-- `char::from_u32`: no surrogates, and at most 0x10ffff.
unfoldable pub from_u32 : ℕ → Option ℕ
from_u32 u = if leb u 0xd7ff || (leb 0xe000 u && leb u 0x10ffff) then some u else none

abbrev pub char_of : ℕ → Text → Option ℕ
char_of radix s = from_str_radix radix s >>= from_u32

abbrev pub with_rest : Text → Option ℕ → Option (ℕ × Text)
with_rest queue none = none
with_rest queue (some ch) = some (ch, queue)

-- The character, and the queue after it.
unfoldable pub unescape_unicode : Text → Option (ℕ × Text)
unfolding from_str_radix from_u32 digits
unescape_unicode (a ∷ b ∷ c ∷ d ∷ queue) = with_rest queue (char_of 16 (a ∷ b ∷ c ∷ d ∷ []))
unescape_unicode _ = none

unfoldable pub unescape_byte : Text → Option (ℕ × Text)
unfolding from_str_radix from_u32 digits
unescape_byte (a ∷ b ∷ queue) = with_rest queue (char_of 16 (a ∷ b ∷ []))
unescape_byte _ = none

unfoldable pub unescape_octal_leading : ℕ → Text → Option ℕ
unfolding from_str_radix from_u32 digits
unescape_octal_leading c (a ∷ b ∷ queue) =
    if leb b'0' c && leb c b'3' then char_of 8 (c ∷ a ∷ b ∷ []) else none
unescape_octal_leading c _ = none

unfoldable pub unescape_octal_no_leading : ℕ → Text → Option (ℕ × Text)
unfolding from_str_radix from_u32 digits
unescape_octal_no_leading c [] = none
unescape_octal_no_leading c (a ∷ queue) = with_rest queue (char_of 8 (c ∷ a ∷ []))

-- `pop_front`, and the result dropped.
abbrev pop_front : Text → Text
pop_front [] = []
pop_front (_ ∷ queue) = queue

unfoldable pub unescape_octal : ℕ → Text → Option (ℕ × Text)
unfolding unescape_octal_leading unescape_octal_no_leading
unescape_octal c queue = elim (unescape_octal_leading c queue) [
  | some ch ↦ some (ch, pop_front (pop_front queue))
  | none ↦ unescape_octal_no_leading c queue
]

-- What follows a backslash.
unfoldable pub pop_escape : Text → Option (ℕ × Text)
unfolding unescape_unicode unescape_byte unescape_octal
pop_escape [] = none
pop_escape (c ∷ queue) =
    if c == b'b'
    then some (8, queue)
    else if c == b'f'
    then some (12, queue)
    else if c == b'n'
    then some (10, queue)
    else if c == b'r'
    then some (13, queue)
    else if c == b't'
    then some (9, queue)
    else if c == 39
    then some (39, queue)
    else if c == b'"'
    then some (b'"', queue)
    else if c == 92
    then some (92, queue)
    else if c == b'u'
    then unescape_unicode queue
    else if c == b'x'
    then unescape_byte queue
    else if leb b'0' c && leb c b'7'
    then unescape_octal c queue
    else none

abbrev pub push : ℕ → Option Text → Option Text
push c none = none
push c (some s) = some (c ∷ s)

-- The loop; each round takes at least one character from the queue.
unfoldable pub unescape_loop : ℕ → Text → Option Text
unfolding pop_escape
unescape_loop fuel [] = some []
unescape_loop zero (c ∷ queue) = none
unescape_loop (suc fuel) (c ∷ queue) =
    if c == 92
    then (elim (pop_escape queue) [ none ↦ none | some e ↦ push (e.0) (unescape_loop fuel (e.1)) ])
    else push c (unescape_loop fuel queue)

unfoldable pub unescape : Text → Option Text
unfolding unescape_loop
unescape s = unescape_loop (length s) s

-- The text itself, where it does not unescape.
unfoldable pub try_unescape : Text → Text
unfolding unescape
try_unescape s = elim (unescape s) [ some out ↦ out | none ↦ s ]
