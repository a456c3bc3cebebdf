-- ===== src/FilePath/Laws.antt =====
-- Laws of paths as lists of components.
use autoschematic.Prelude.{◌≡◌, refl, some, [], ◌∷◌, ◌++◌, Text, arith}
use autoschematic.FilePath.{
  normal, component_equality, component_eq_iff, FilePath, parent, file_name, strip_prefix,
}

pub strip_prefix_sound :
    (p base : FilePath) {rest : FilePath} → strip_prefix p base ≡ some rest → base ++ rest ≡ p
unfolding strip_prefix
strip_prefix_sound p [] h = ground arith
strip_prefix_sound [] (b ∷ base) h = cc
strip_prefix_sound (c ∷ p) (b ∷ base) {rest} h =
    ground (arith, component_eq_iff c b, strip_prefix_sound p base {rest = rest})

pub strip_prefix-append : (base rest : FilePath) → strip_prefix (base ++ rest) base ≡ some rest
unfolding strip_prefix
strip_prefix-append [] rest = refl
strip_prefix-append (b ∷ base) rest =
    ground (arith, component_eq_iff b b, strip_prefix-append base rest)

pub parent_snoc : (p : FilePath) (s : Text) → parent (p ++ normal s ∷ []) ≡ some p
unfolding parent
parent_snoc [] s = refl
parent_snoc (c ∷ []) s = refl
parent_snoc (c ∷ d ∷ p) s = ground (arith, parent_snoc (d ∷ p) s)

pub file_name_snoc : (p : FilePath) (s : Text) → file_name (p ++ normal s ∷ []) ≡ some s
unfolding file_name
file_name_snoc [] s = refl
file_name_snoc (c ∷ []) s = refl
file_name_snoc (c ∷ d ∷ p) s = ground (arith, file_name_snoc (d ∷ p) s)
