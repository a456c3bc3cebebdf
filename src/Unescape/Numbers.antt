-- ===== src/Unescape/Numbers.antt =====
-- Characters that are written by their number.
use autoschematic.Prelude.{
  ℕ, suc, ◌+◌, ◌*◌, ◌-◌, ◌<◌, ◌≡◌, ◌⊎◌, refl, ap, ◌∙◌, false, some, [], ◌∷◌, Text, ltb, ◌==◌,
  nat_equality, if◌then◌else◌, arith, ◌/◌, ◌%◌, length, ◌++◌,
}
use autoschematic.Unescape.{
  ◌>>=◌, to_digit, digits, from_str_radix, from_u32, char_of, with_rest, unescape_unicode,
  pop_escape, push, unescape_loop, unescape,
}
use autoschematic.Unescape.Roundtrip.{unescape_loop_enough}

-- A digit below 16, with small letters.
abbrev pub hex : ℕ → ℕ
hex v = if ltb v 10 then b'0' + v else b'a' + (v - 10)

to_digit-hex : (v : ℕ) → v < 16 → to_digit 16 (hex v) ≡ some v
to_digit-hex v h = ground (arith, h)

hex_no_sign : (v : ℕ) → v < 16 → (hex v == b'+') ≡ false
hex_no_sign v h = ground (arith, h)

number : (n : ℕ) → n < 65536 → ((n / 4096 * 16 + n / 256 % 16) * 16 + n / 16 % 16) * 16 + n % 16 ≡ n
number n h = omega (arith, h)

digits-hex :
    (acc v : ℕ) (s : Text) → v < 16 → digits 16 acc (hex v ∷ s) ≡ digits 16 (acc * 16 + v) s
unfolding digits
digits-hex acc v s h = rw (to_digit-hex v h, digits) refl

-- A character of the first plane that is no surrogate.
abbrev pub IsPlain : ℕ → Type 0
IsPlain c = (c < 0xd800) ⊎ ((0xdfff < c) × (c < 0x10000))

from_u32_plain : (c : ℕ) → IsPlain c → from_u32 c ≡ some c
unfolding from_u32
from_u32_plain c h = ground (arith, h)

plain_small : (c : ℕ) → IsPlain c → c < 65536
plain_small c h = ground (arith, h)

abbrev pub hex_digits : ℕ → Text
hex_digits c = hex (c / 4096) ∷ hex (c / 256 % 16) ∷ hex (c / 16 % 16) ∷ hex (c % 16) ∷ []

four_digits :
    (a b c d : ℕ)
    → a < 16
    → b < 16
    → c < 16
    → d < 16
    → digits 16 0 (hex a ∷ hex b ∷ hex c ∷ hex d ∷ [])
      ≡ some ((((0 * 16 + a) * 16 + b) * 16 + c) * 16 + d)
unfolding digits
four_digits a b c d ha hb hc hd =
    digits-hex 0 a (hex b ∷ hex c ∷ hex d ∷ []) ha
    ∙ digits-hex (0 * 16 + a) b (hex c ∷ hex d ∷ []) hb
    ∙ digits-hex ((0 * 16 + a) * 16 + b) c (hex d ∷ []) hc
    ∙ digits-hex (((0 * 16 + a) * 16 + b) * 16 + c) d [] hd

char_of-hex_digits : (c : ℕ) → IsPlain c → char_of 16 (hex_digits c) ≡ some c
unfolding from_str_radix digits
char_of-hex_digits c h =
    let small = plain_small c h in
    let whole : (((0 * 16 + c / 4096) * 16 + c / 256 % 16) * 16 + c / 16 % 16) * 16 + c % 16 ≡ c =
      omega (arith, number c small) in
    rw (hex_no_sign (c / 4096) (omega (arith, small)), from_str_radix)
      (ap (λ x. x >>= from_u32)
          (four_digits (c / 4096) (c / 256 % 16) (c / 16 % 16) (c % 16) (omega (arith, small))
              (omega arith) (omega arith) (omega arith)
            ∙ ap some whole)
        ∙ from_u32_plain c h)

-- Every character is written by its number, as `\u` and four digits.
unfoldable pub escape_numbers : Text → Text
escape_numbers [] = []
escape_numbers (c ∷ s) =
    92
    ∷ b'u'
    ∷ hex (c / 4096)
    ∷ hex (c / 256 % 16)
    ∷ hex (c / 16 % 16)
    ∷ hex (c % 16)
    ∷ escape_numbers s

abbrev pub AllPlain : Text → Type 0
AllPlain [] = Unit
AllPlain (c ∷ s) = IsPlain c × AllPlain s

pop_escape-hex_digits :
    (c : ℕ) (queue : Text)
    → IsPlain c
    → pop_escape (b'u' ∷ (hex_digits c ++ queue)) ≡ some (c, queue)
unfolding pop_escape unescape_unicode
pop_escape-hex_digits c queue h = ap (with_rest queue) (char_of-hex_digits c h)

loop-hex_digits :
    (fuel c : ℕ) (queue : Text)
    → IsPlain c
    → unescape_loop (suc fuel) (92 ∷ b'u' ∷ (hex_digits c ++ queue))
      ≡ push c (unescape_loop fuel queue)
unfolding unescape_loop
loop-hex_digits fuel c queue h = rw (pop_escape-hex_digits c queue h) refl

-- A text of characters below 0x10000, without surrogates, is had back where every character is written
-- by its number in four hexadecimal digits.
pub unescape-escape_numbers : (s : Text) → AllPlain s → unescape (escape_numbers s) ≡ some s
unfolding escape_numbers unescape unescape_loop
unescape-escape_numbers [] h = refl
unescape-escape_numbers (c ∷ s) (h, hs) =
    let n = length (b'u' ∷ (hex_digits c ++ escape_numbers s)) in
    loop-hex_digits n c (escape_numbers s) h
    ∙ ap (push c) (
        unescape_loop_enough n (length (escape_numbers s)) (escape_numbers s) (omega arith)
          (omega arith)
        ∙ unescape-escape_numbers s hs)
