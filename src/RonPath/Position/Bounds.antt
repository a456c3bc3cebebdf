-- ===== src/RonPath/Position/Bounds.antt =====
-- The offset that `pos_byte_index` returns for the place of a character, or of the end of the text.
use autoschematic.Prelude.{
  ℕ, suc, ◌+◌, [], ◌∷◌, Text, take, length, ◌==◌, nat_equality, if◌then◌else◌,
}
use autoschematic.RonPath.Position.{len_utf8}

-- The length of a text in UTF-8.
unfoldable pub byte_len : Text → ℕ
byte_len [] = 0
byte_len (c ∷ s) = len_utf8 c + byte_len s

unfoldable pub newlines : Text → ℕ
newlines [] = 0
newlines (c ∷ s) = if c == b'\n' then suc (newlines s) else newlines s

-- What follows the last newline, or the whole text.
unfoldable pub last_line : Text → Text
last_line [] = []
last_line (c ∷ s) = if newlines s == 0 then (if c == b'\n' then s else c ∷ s) else last_line s

-- The line and the column of what follows the text, counted from 1.
abbrev pub line_after : Text → ℕ
line_after s = suc (newlines s)

abbrev pub col_after : Text → ℕ
col_after s = suc (length (last_line s))

-- The column after a text that starts in a column.
col_from : ℕ → Text → ℕ
col_from col s = if newlines s == 0 then col + length s else col_after s

-- The offset of the last character of the text, if there is one.
abbrev last_start : ℕ → ℕ → Text → ℕ
last_start i b [] = i
last_start i b (c ∷ s) = b + byte_len (take (length s) (c ∷ s))
