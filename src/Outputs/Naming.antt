-- ===== src/Outputs/Naming.antt =====
-- Different addresses have different output files, where they consist of normal components.
use autoschematic.Prelude.{◌≡◌, refl, sym, ap, ◌∙◌, some, [], ◌∷◌, ◌++◌, Text, text}
use mathlib.Core.List.{append_cancel_left, append_cancel_right}
use autoschematic.FilePath.{Component, normal, FilePath, AllNormal, join, parent, file_name}
use autoschematic.FilePath.Laws.{parent_snoc, file_name_snoc}
use autoschematic.Outputs.{output_path, normal_only}

normal_only-AllNormal : (p : FilePath) → AllNormal p → normal_only p ≡ p
unfolding normal_only
normal_only-AllNormal [] h = refl
normal_only-AllNormal (normal s ∷ p) (n, h) = ap (λ q. normal s ∷ q) (normal_only-AllNormal p h)
normal_only-AllNormal (c ∷ p) (n, h) = cc

abbrev out_name : Text → Component
out_name s = normal (s ++ text ".out.json")

output_path_snoc :
    (prefix dir : FilePath) (name : Text)
    → AllNormal dir
    → output_path prefix (dir ++ normal name ∷ [])
      ≡ join (normal (text ".autoschematic") ∷ []) prefix ++ (dir ++ out_name name ∷ [])
unfolding output_path
output_path_snoc prefix dir name h =
    rw (parent_snoc dir name, file_name_snoc dir name)
      (ap (λ q. join (normal (text ".autoschematic") ∷ []) prefix ++ (q ++ out_name name ∷ []))
        (normal_only-AllNormal dir h))

-- Two addresses that consist of normal components and have the same output file under a prefix are
-- the same address.
pub output_path-injective :
    (prefix dir dir' : FilePath) (name name' : Text)
    → AllNormal dir
    → AllNormal dir'
    → output_path prefix (dir ++ normal name ∷ []) ≡ output_path prefix (dir' ++ normal name' ∷ [])
    → dir ++ normal name ∷ [] ≡ dir' ++ normal name' ∷ []
output_path-injective prefix dir dir' name name' h h' e =
    let base : FilePath = join (normal (text ".autoschematic") ∷ []) prefix in
    let same : dir ++ out_name name ∷ [] ≡ dir' ++ out_name name' ∷ [] =
      append_cancel_left base (dir ++ out_name name ∷ []) (dir' ++ out_name name' ∷ [])
        (sym (output_path_snoc prefix dir name h) ∙ e ∙ output_path_snoc prefix dir' name' h') in
    let dirs : some dir ≡ some dir' =
      sym (parent_snoc dir _) ∙ ap parent same ∙ parent_snoc dir' _ in
    let names : some (name ++ text ".out.json") ≡ some (name' ++ text ".out.json") =
      sym (file_name_snoc dir _) ∙ ap file_name same ∙ file_name_snoc dir' _ in
    let dir_eq : dir ≡ dir' = cc in
    let full_eq : name ++ text ".out.json" ≡ name' ++ text ".out.json" = cc in
    let name_eq : name ≡ name' = append_cancel_right name name' (text ".out.json") full_eq in cc
