-- ===== src/FilePath.antt =====
-- What the code uses of `std::path`: a path is the list of its components, on Unix.
pub mod Laws
use autoschematic.Prelude.{
  ℕ, ◌≡◌, ◌↔◌, refl, Bool, true, false, ◌&&◌, Option, none, some, List, [], ◌∷◌, ◌++◌, Text, text,
  Eq, ◌==◌, ==_iff, nat_equality, list_equality, if◌then◌else◌, arith,
}

pub data Component : Type 0 where
  drive_prefix : Text → Component
  root_dir cur_dir parent_dir : Component
  normal : Text → Component

abbrev pub component_eq : Component → Component → Bool
component_eq (drive_prefix a) (drive_prefix b) = a == b
component_eq (normal a) (normal b) = a == b
component_eq root_dir root_dir = true
component_eq cur_dir cur_dir = true
component_eq parent_dir parent_dir = true
component_eq _ _ = false

pub component_eq_iff : (a b : Component) → (component_eq a b ≡ true) ↔ (a ≡ b)
component_eq_iff (drive_prefix a) (drive_prefix b) = ground (arith, ==_iff a b)
component_eq_iff (normal a) (normal b) = ground (arith, ==_iff a b)
component_eq_iff root_dir root_dir = ground arith
component_eq_iff cur_dir cur_dir = ground arith
component_eq_iff parent_dir parent_dir = ground arith
component_eq_iff _ _ = ground arith

instance abbrev pub component_equality : Eq Component
component_equality = record { beq = component_eq; beq_iff = component_eq_iff }

abbrev pub FilePath : Type 0
FilePath = List Component

abbrev pub is_normal : Component → Bool
is_normal (normal _) = true
is_normal _ = false

-- `Path::is_absolute`
abbrev pub is_absolute : FilePath → Bool
is_absolute (root_dir ∷ _) = true
is_absolute _ = false

-- A piece between slashes; `.` counts only at the start of a relative path.
abbrev piece : Bool → Text → FilePath
piece first s =
    if s == []
    then []
    else if s == text "."
    then (if first then cur_dir ∷ [] else [])
    else if s == text ".."
    then parent_dir ∷ []
    else normal s ∷ []

pieces : Bool → Text → Text → FilePath
pieces first cur [] = piece first cur
pieces first cur (c ∷ s) =
    let closed = piece first cur ++ pieces false [] s in
    let longer = pieces first (cur ++ c ∷ []) s in if c == b'/' then closed else longer

-- `Path::components` of a path written as text.
unfoldable pub components : Text → FilePath
unfolding pieces
components [] = []
components (c ∷ s) = if c == b'/' then root_dir ∷ pieces false [] s else pieces true [] (c ∷ s)

abbrev drop_cur_dir : FilePath → FilePath
drop_cur_dir (cur_dir ∷ p) = p
drop_cur_dir p = p

-- `Path::join`: an absolute path replaces the base.
unfoldable pub join : FilePath → FilePath → FilePath
join [] p = p
join (c ∷ base) p = if is_absolute p then p else (c ∷ base) ++ drop_cur_dir p

-- `Path::parent`
unfoldable pub parent : FilePath → Option FilePath
parent [] = none
parent (root_dir ∷ []) = none
parent (drive_prefix _ ∷ []) = none
parent (c ∷ []) = some []
parent (c ∷ d ∷ p) = elim (parent (d ∷ p)) [ none ↦ some (c ∷ []) | some q ↦ some (c ∷ q) ]

-- `Path::file_name`: the last component, if it is a normal one.
unfoldable pub file_name : FilePath → Option Text
file_name [] = none
file_name (normal s ∷ []) = some s
file_name (c ∷ []) = none
file_name (c ∷ d ∷ p) = file_name (d ∷ p)

-- `path.strip_prefix(base)`
unfoldable pub strip_prefix : FilePath → FilePath → Option FilePath
strip_prefix p [] = some p
strip_prefix [] (b ∷ base) = none
strip_prefix (c ∷ p) (b ∷ base) = if c == b then strip_prefix p base else none

-- `Path::is_absolute` is false of what follows: only normal components.
abbrev pub AllNormal : FilePath → Type 0
AllNormal [] = Unit
AllNormal (c ∷ p) = (is_normal c ≡ true) × AllNormal p
