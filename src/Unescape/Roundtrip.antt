-- ===== src/Unescape/Roundtrip.antt =====
-- The loop ends, and it undoes the writing of escapes.
use autoschematic.Prelude.{
  ℕ, zero, suc, ◌≡◌, ◌≤◌, refl, sym, ap, ◌∙◌, Bool, true, false, Option, none, some, [], ◌∷◌, Text,
  length, leb, ◌&&◌, ◌==◌, ==_iff, nat_equality, list_equality, if◌then◌else◌, Bool-cases,
  Option-cases, inl, inr, arith,
}
use autoschematic.Unescape.{
  unescape_unicode, unescape_byte, unescape_octal, unescape_octal_leading,
  unescape_octal_no_leading, pop_escape, push, unescape_loop, unescape, with_rest, char_of,
  pop_front,
}

-- What a queue comes to is not longer than it was.
abbrev Shrinks : Text → Option (ℕ × Text) → Type 0
Shrinks queue none = Unit
Shrinks queue (some e) = length e.1 ≤ length queue

with_rest-Shrinks :
    (queue rest : Text) (o : Option ℕ)
    → length rest ≤ length queue
    → Shrinks queue (with_rest rest o)
with_rest-Shrinks queue rest none h = tt
with_rest-Shrinks queue rest (some ch) h = h

unescape_unicode-Shrinks : (queue : Text) → Shrinks queue (unescape_unicode queue)
unfolding unescape_unicode
unescape_unicode-Shrinks [] = tt
unescape_unicode-Shrinks (a ∷ []) = tt
unescape_unicode-Shrinks (a ∷ b ∷ []) = tt
unescape_unicode-Shrinks (a ∷ b ∷ c ∷ []) = tt
unescape_unicode-Shrinks (a ∷ b ∷ c ∷ d ∷ queue) =
    with_rest-Shrinks (a ∷ b ∷ c ∷ d ∷ queue) queue (char_of 16 (a ∷ b ∷ c ∷ d ∷ [])) (omega arith)

unescape_byte-Shrinks : (queue : Text) → Shrinks queue (unescape_byte queue)
unfolding unescape_byte
unescape_byte-Shrinks [] = tt
unescape_byte-Shrinks (a ∷ []) = tt
unescape_byte-Shrinks (a ∷ b ∷ queue) =
    with_rest-Shrinks (a ∷ b ∷ queue) queue (char_of 16 (a ∷ b ∷ [])) (omega arith)

length-pop_front : (queue : Text) → length (pop_front queue) ≤ length queue
length-pop_front [] = omega arith
length-pop_front (a ∷ queue) = omega arith

no_leading-Shrinks : (c : ℕ) (queue : Text) → Shrinks queue (unescape_octal_no_leading c queue)
unfolding unescape_octal_no_leading
no_leading-Shrinks c [] = tt
no_leading-Shrinks c (a ∷ queue) =
    with_rest-Shrinks (a ∷ queue) queue (char_of 8 (c ∷ a ∷ [])) (omega arith)

unescape_octal-Shrinks : (c : ℕ) (queue : Text) → Shrinks queue (unescape_octal c queue)
unfolding unescape_octal
unescape_octal-Shrinks c queue = elim (Option-cases (unescape_octal_leading c queue)) [
  | inl e ↦ rw (e, unescape_octal) (no_leading-Shrinks c queue)
  | inr (ch, e) ↦
      rw (e, unescape_octal)
        (omega (arith, length-pop_front queue, length-pop_front (pop_front queue)))
]

if-Shrinks :
    (queue : Text) (b : Bool) (x y : Option (ℕ × Text))
    → Shrinks queue x
    → Shrinks queue y
    → Shrinks queue (if b then x else y)
if-Shrinks queue true x y h k = h
if-Shrinks queue false x y h k = k

longer-Shrinks :
    (c : ℕ) (queue : Text) (o : Option (ℕ × Text)) → Shrinks queue o → Shrinks (c ∷ queue) o
longer-Shrinks c queue none h = tt
longer-Shrinks c queue (some e) h = omega (arith, h)

pop_escape-Shrinks : (queue : Text) → Shrinks queue (pop_escape queue)
unfolding pop_escape
pop_escape-Shrinks [] = tt
pop_escape-Shrinks (c ∷ queue) =
    let q : Text = c ∷ queue in
    let one : length queue ≤ length q = omega arith in
    if-Shrinks q (c == b'b') _ _ one (
      if-Shrinks q (c == b'f') _ _ one (
        if-Shrinks q (c == b'n') _ _ one (
          if-Shrinks q (c == b'r') _ _ one (
            if-Shrinks q (c == b't') _ _ one (
              if-Shrinks q (c == 39) _ _ one (
                if-Shrinks q (c == b'"') _ _ one (
                  if-Shrinks q (c == 92) _ _ one (
                    if-Shrinks q (c == b'u') _ _
                      (longer-Shrinks c queue (unescape_unicode queue)
                        (unescape_unicode-Shrinks queue))
                      (if-Shrinks q (c == b'x') _ _
                        (longer-Shrinks c queue (unescape_byte queue) (unescape_byte-Shrinks queue))
                        (if-Shrinks q (leb b'0' c && leb c b'7') _ _
                          (longer-Shrinks c queue (unescape_octal c queue)
                            (unescape_octal-Shrinks c queue))
                          tt))))))))))

-- Two fuels that are both enough lead to the same result.
pub unescape_loop_enough :
    (n m : ℕ) (s : Text) → length s ≤ n → length s ≤ m → unescape_loop n s ≡ unescape_loop m s
unfolding unescape_loop
unescape_loop_enough n m [] h k = refl
unescape_loop_enough zero m (c ∷ s) h k = absurd (omega (arith, h))
unescape_loop_enough (suc n) zero (c ∷ s) h k = absurd (omega (arith, k))
unescape_loop_enough (suc n) (suc m) (c ∷ s) h k = elim (Bool-cases (c == 92)) [
  | inl e ↦ rw e (
      by_escape (pop_escape s) (pop_escape-Shrinks s) (λ rest (l : length rest ≤ length s).
        unescape_loop_enough n m rest (omega (arith, l, h)) (omega (arith, l, k))))
  | inr e ↦ rw e (ap (push c) (unescape_loop_enough n m s (omega (arith, h)) (omega (arith, k))))
]
  where
    by_escape :
        (o : Option (ℕ × Text))
        → Shrinks s o
        → ((rest : Text) → length rest ≤ length s → unescape_loop n rest ≡ unescape_loop m rest)
        → (elim o as (λ x. Option Text) [
          | none ↦ none
          | some e ↦ push (e.0) (unescape_loop n (e.1))
        ])
          ≡ (elim o as (λ x. Option Text) [
            | none ↦ none
            | some e ↦ push (e.0) (unescape_loop m (e.1))
          ])
    by_escape none shrinks ih = refl
    by_escape (some e) shrinks ih = ap (push e.0) (ih e.1 shrinks)

-- Writes the eight characters that have a short escape with a backslash.
abbrev escape_char : ℕ → Text → Text
escape_char c s =
    if c == 8
    then 92 ∷ b'b' ∷ s
    else if c == 12
    then 92 ∷ b'f' ∷ s
    else if c == 10
    then 92 ∷ b'n' ∷ s
    else if c == 13
    then 92 ∷ b'r' ∷ s
    else if c == 9
    then 92 ∷ b't' ∷ s
    else if c == 39
    then 92 ∷ 39 ∷ s
    else if c == b'"'
    then 92 ∷ b'"' ∷ s
    else if c == 92
    then 92 ∷ 92 ∷ s
    else c ∷ s

pub escape : Text → Text
escape [] = []
escape (c ∷ s) = escape_char c (escape s)

-- A short escape, or a character that stands for itself.
data Escaped (c : ℕ) (s : Text) : Text → Type 0 where
  short : {d : ℕ} → pop_escape (d ∷ s) ≡ some (c, s) → Escaped c s (92 ∷ d ∷ s)
  itself : (c == 92) ≡ false → Escaped c s (c ∷ s)

-- One test of `escape_char`.
if-Escaped :
    (c k d : ℕ) (s other : Text)
    → pop_escape (d ∷ s) ≡ some (k, s)
    → Escaped c s other
    → Escaped c s (if c == k then 92 ∷ d ∷ s else other)
if-Escaped c k d s other e h = elim (Bool-cases (c == k)) [
  | inl same ↦ rw same (short (e ∙ ap (λ x. some (x, s)) (sym ((==_iff c k).0 same))))
  | inr differs ↦ rw differs h
]

backslash-Escaped : (c : ℕ) (s : Text) → Escaped c s (if c == 92 then 92 ∷ 92 ∷ s else c ∷ s)
unfolding pop_escape
backslash-Escaped c s = elim (Bool-cases (c == 92)) [
  | inl same ↦ rw same (short (ap (λ x. some (x, s)) (sym ((==_iff c 92).0 same))))
  | inr differs ↦ rw differs (itself differs)
]

escape_char-Escaped : (c : ℕ) (s : Text) → Escaped c s (escape_char c s)
unfolding pop_escape
escape_char-Escaped c s = if-Escaped c 8 b'b' s _ refl (
    if-Escaped c 12 b'f' s _ refl (
      if-Escaped c 10 b'n' s _ refl (
        if-Escaped c 13 b'r' s _ refl (
          if-Escaped c 9 b't' s _ refl (
            if-Escaped c 39 39 s _ refl
              (if-Escaped c b'"' b'"' s _ refl (backslash-Escaped c s)))))))

loop-Escaped :
    (c : ℕ) (s t out : Text) → Escaped c s t → unescape s ≡ some out → unescape t ≡ some (c ∷ out)
unfolding unescape unescape_loop
loop-Escaped c s t out (short {d} e) h = rw e (
    ap (push c)
      (unescape_loop_enough (suc (length s)) (length s) s (omega arith) (omega arith) ∙ h))
loop-Escaped c s t out (itself e) h = rw e (ap (push c) h)

-- Whatever the text, it is had back from the text with short escapes.
pub unescape-escape : (s : Text) → unescape (escape s) ≡ some s
unfolding escape unescape unescape_loop
unescape-escape [] = refl
unescape-escape (c ∷ s) =
    loop-Escaped c (escape s) (escape_char c (escape s)) s (escape_char-Escaped c (escape s))
      (unescape-escape s)
