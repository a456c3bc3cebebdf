-- ===== src/Template.antt =====
-- References to outputs in resource files: `template_config` and `get_read_outputs` of
-- autoschematic-core/src/template.rs. The `regex` crate is a parameter that cuts a text into the
-- matches of `out://addr[key]` and what stands between them.
pub mod Resolved
use autoschematic.Prelude.{
  ℕ, ◌≡◌, ◌≢◌, refl, Bool, true, false, Option, none, some, List, [], ◌∷◌, ◌++◌, Text, text, any,
  ◌==◌, Eq, nat_equality, list_equality, pair_equality, if◌then◌else◌,
}
use autoschematic.Prelude.Dict
use autoschematic.Prelude.Dict.{Dict}
use autoschematic.FilePath.{FilePath, component_equality, components}
use autoschematic.Disk.{Disk}
use autoschematic.Outputs.{Json, Outcome, ok, bad_json, link_file, diverged, ◌>>=◌, get}

-- A match with its groups, or what stands between two.
pub data Piece : Type 0 where
  literal : Text → Piece
  reference : (addr key : Text) → Piece

abbrev pub piece_text : Piece → Text
piece_text (literal s) = s
piece_text (reference addr key) = text "out://" ++ (addr ++ (text "[" ++ (key ++ text "]")))

abbrev pub join_pieces : List Piece → Text
join_pieces [] = []
join_pieces (p ∷ ps) = piece_text p ++ join_pieces ps

-- The matches are parts of the text, which is cut and not changed.
pub record OutRegex : Type 0 where
  pub pieces : Text → List Piece
  pub join-pieces : (s : Text) → join_pieces (pieces s) ≡ s

-- `ReadOutput`: an address and a key.
abbrev pub ReadOutput : Type 0
ReadOutput = FilePath × Text

pub record TemplateResourceResult : Type 0 where
  pub body : Text
  pub found : Dict ReadOutput Text
  pub missing : List ReadOutput

-- `HashSet::insert`
unfoldable pub add_missing : ReadOutput → List ReadOutput → List ReadOutput
add_missing r rs = if any (λ q. q == r) rs then rs else rs ++ r ∷ []

outputs_of : List Piece → List ReadOutput
outputs_of [] = []
outputs_of (literal s ∷ ps) = outputs_of ps
outputs_of (reference addr key ∷ ps) = (components addr, key) ∷ outputs_of ps

unfoldable pub get_read_outputs : OutRegex → Text → List ReadOutput
unfolding outputs_of
get_read_outputs regex config = outputs_of (regex.pieces config)

-- The closure records a value that is found, or a reference that is missing.
abbrev pub with_value : Text → Text → Text → TemplateResourceResult → TemplateResourceResult
with_value addr key val t = record {
  body = t.body ++ val;
  found = Dict.insert (components addr, key) val t.found;
  missing = t.missing;
}

abbrev pub without_value : Text → Text → TemplateResourceResult → TemplateResourceResult
without_value addr key t = record {
  body = t.body ++ piece_text (reference addr key);
  found = t.found;
  missing = add_missing (components addr, key) t.missing;
}

module _ (json : Json) (fuel : ℕ) (prefix : FilePath) (d : Disk) where
  -- What the closure returns for a reference and records; an error counts as missing.
  replaced :
      (addr key : Text)
      → Outcome (Option Text)
      → TemplateResourceResult
      → Outcome TemplateResourceResult
  replaced addr key (ok (some val)) t = ok (with_value addr key val t)
  replaced addr key diverged t = diverged
  replaced addr key _ t = ok (without_value addr key t)

  -- `replace_all`, over the pieces from left to right.
  replace_all : List Piece → TemplateResourceResult → Outcome TemplateResourceResult
  replace_all [] t = ok t
  replace_all (literal s ∷ ps) t = replace_all ps (record t { body = t.body ++ s })
  replace_all (reference addr key ∷ ps) t = do
    t' ← replaced addr key (get json fuel prefix (components addr) key d) t
    replace_all ps t'

  unfoldable pub template_config : OutRegex → Text → Outcome TemplateResourceResult
  unfolding replace_all replaced add_missing
  template_config regex config =
      replace_all (regex.pieces config) (record { body = []; found = []; missing = [] })
