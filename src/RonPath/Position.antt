-- ===== src/RonPath/Position.antt =====
-- From a cursor to an offset in bytes: `pos_byte_index` of autoschematic-core/src/ron/path_at.rs.
pub mod Bounds
use autoschematic.Prelude.{
  ℕ, suc, ◌+◌, Bool, true, false, ◌&&◌, Option, none, some, List, [], ◌∷◌, Text, ltb, ◌==◌,
  nat_equality, if◌then◌else◌,
}

-- `char::len_utf8`
abbrev pub len_utf8 : ℕ → ℕ
len_utf8 c = if ltb c 0x80 then 1 else if ltb c 0x800 then 2 else if ltb c 0x10000 then 3 else 4

abbrev pub newline : ℕ → Bool
newline ch = ch == b'\n'

abbrev pub next_line : ℕ → ℕ → ℕ
next_line line_no ch = if newline ch then suc line_no else line_no

abbrev pub next_col : ℕ → ℕ → ℕ
next_col col_no ch = if newline ch then 1 else suc col_no

-- The loop: the line and the column of the next character, the offset `i` to be returned, and the
-- offset of the next character.
pos_loop : (line col line_no col_no i byte_idx : ℕ) → Text → Option ℕ
pos_loop line col line_no col_no i byte_idx [] =
    if line_no == line && col_no == col then some i else none
pos_loop line col line_no col_no i byte_idx (ch ∷ s) =
    let rest =
      pos_loop line col (next_line line_no ch) (next_col col_no ch) byte_idx
        (byte_idx + len_utf8 ch) s in
    if line_no == line && col_no == col then some i else rest

unfoldable pub pos_byte_index : (line col : ℕ) → Text → Option ℕ
unfolding pos_loop
pos_byte_index line col s = pos_loop line col 1 1 0 0 s
