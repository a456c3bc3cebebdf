-- ===== src/Tests/Codec.antt =====
-- A concrete encoding of output files and bundle maps as text, in place of `serde_json` and `ron`.
use autoschematic.Prelude.{
  ℕ, zero, suc, ◌≡◌, refl, ap, Option, none, some, List, [], ◌∷◌, ◌++◌, Text, length, take, drop,
  append_assoc,
}
use autoschematic.FilePath.{
  Component, drive_prefix, root_dir, cur_dir, parent_dir, normal, FilePath,
}
use autoschematic.Outputs.{OutputMapFile, pointer_to_virtual, output_map, Json}
use autoschematic.Bundle.{BundleMapFile, bundle, child_of, Ron}

-- A decoder returns a value and the rest.
abbrev Decoder : Type 0 → Type 0
Decoder A = Text → Option (A × Text)

infixl 10 ◌>>=◌
abbrev ◌>>=◌ : {A B : Type 0} → Option A → (A → Option B) → Option B
none >>= f = none
some a >>= f = f a

-- What is encoded is decoded, whatever follows.
abbrev RoundTrip : {A : Type 0} → (A → Text) → Decoder A → Type 0
RoundTrip {A} enc dec = (a : A) (rest : Text) → dec (enc a ++ rest) ≡ some (a, rest)

enc_text : Text → Text
enc_text s = length s ∷ s

dec_text : Decoder Text
dec_text [] = none
dec_text (n ∷ r) = some (take n r, drop n r)

take-append : (s r : Text) → take (length s) (s ++ r) ≡ s
take-append [] r = refl
take-append (c ∷ s) r = ap (λ t. c ∷ t) (take-append s r)

drop-append : (s r : Text) → drop (length s) (s ++ r) ≡ r
drop-append [] r = refl
drop-append (c ∷ s) r = drop-append s r

dec-enc_text : RoundTrip enc_text dec_text
unfolding enc_text dec_text
dec-enc_text s rest = rw (take-append s rest, drop-append s rest) refl

module _ {A : Type 0} (enc : A → Text) (dec : Decoder A) where
  enc_items : List A → Text
  enc_items [] = []
  enc_items (a ∷ as') = enc a ++ enc_items as'

  dec_items : ℕ → Decoder (List A)
  dec_items zero s = some ([], s)
  dec_items (suc n) s = do (a, r) ← dec s; (as', r') ← dec_items n r; some (a ∷ as', r')

  enc_list : List A → Text
  enc_list as' = length as' ∷ enc_items as'

  dec_list : Decoder (List A)
  dec_list [] = none
  dec_list (n ∷ r) = dec_items n r

  dec-enc_items :
      RoundTrip enc dec
      → (as' : List A) (rest : Text)
      → dec_items (length as') (enc_items as' ++ rest) ≡ some (as', rest)
  unfolding enc_items dec_items
  dec-enc_items h [] rest = refl
  dec-enc_items h (a ∷ as') rest =
      rw
        (
          append_assoc (enc a) (enc_items as') rest,
          h a (enc_items as' ++ rest),
          dec-enc_items h as' rest,
        )
        refl

  dec-enc_list : RoundTrip enc dec → RoundTrip enc_list dec_list
  unfolding enc_list dec_list
  dec-enc_list h as' rest = dec-enc_items h as' rest

enc_component : Component → Text
enc_component (drive_prefix s) = 0 ∷ enc_text s
enc_component root_dir = 1 ∷ []
enc_component cur_dir = 2 ∷ []
enc_component parent_dir = 3 ∷ []
enc_component (normal s) = 4 ∷ enc_text s

dec_component : Decoder Component
dec_component [] = none
dec_component (zero ∷ r) = do (s, r') ← dec_text r; some (drive_prefix s, r')
dec_component (suc zero ∷ r) = some (root_dir, r)
dec_component (suc (suc zero) ∷ r) = some (cur_dir, r)
dec_component (suc (suc (suc zero)) ∷ r) = some (parent_dir, r)
dec_component (suc (suc (suc (suc n))) ∷ r) = do (s, r') ← dec_text r; some (normal s, r')

dec-enc_component : RoundTrip enc_component dec_component
unfolding enc_component dec_component
dec-enc_component (drive_prefix s) rest = rw (dec-enc_text s rest) refl
dec-enc_component root_dir rest = refl
dec-enc_component cur_dir rest = refl
dec-enc_component parent_dir rest = refl
dec-enc_component (normal s) rest = rw (dec-enc_text s rest) refl

abbrev enc_path : FilePath → Text
enc_path = enc_list enc_component dec_component

abbrev dec_path : Decoder FilePath
dec_path = dec_list enc_component dec_component

abbrev enc_pair : Text × Text → Text
enc_pair p = enc_text p.0 ++ enc_text p.1

abbrev dec_pair : Decoder (Text × Text)
dec_pair s = do (a, r) ← dec_text s; (b, r') ← dec_text r; some ((a, b), r')

dec-enc_pair : RoundTrip enc_pair dec_pair
dec-enc_pair (a, b) rest =
    rw
      (
        append_assoc (enc_text a) (enc_text b) rest,
        dec-enc_text a (enc_text b ++ rest),
        dec-enc_text b rest,
      )
      refl

unfoldable pub encode_output : OutputMapFile → Text
unfolding enc_list enc_items enc_text enc_component dec_list dec_items dec_text dec_component
encode_output (pointer_to_virtual p) = 0 ∷ (enc_path p ++ [])
encode_output (output_map m) = 1 ∷ (enc_list enc_pair dec_pair m ++ [])

unfoldable pub decode_output : Text → Option OutputMapFile
unfolding enc_list enc_items enc_text enc_component dec_list dec_items dec_text dec_component
decode_output [] = none
decode_output (zero ∷ r) = do (p, r') ← dec_path r; some (pointer_to_virtual p)
decode_output (suc n ∷ r) = do (m, r') ← dec_list enc_pair dec_pair r; some (output_map m)

pub decode-encode_output : (o : OutputMapFile) → decode_output (encode_output o) ≡ some o
unfolding encode_output decode_output
decode-encode_output (pointer_to_virtual p) =
    rw (dec-enc_list enc_component dec_component dec-enc_component p []) refl
decode-encode_output (output_map m) = rw (dec-enc_list enc_pair dec_pair dec-enc_pair m []) refl

abbrev pub json : Json
json = record {
  encode = encode_output;
  decode = decode_output;
  decode-encode = decode-encode_output;
}

unfoldable pub encode_bundle : BundleMapFile → Text
unfolding enc_list enc_items enc_text enc_component dec_list dec_items dec_text dec_component
encode_bundle bundle = 0 ∷ []
encode_bundle (child_of p) = 1 ∷ (enc_path p ++ [])

unfoldable pub decode_bundle : Text → Option BundleMapFile
unfolding enc_list enc_items enc_text enc_component dec_list dec_items dec_text dec_component
decode_bundle [] = none
decode_bundle (zero ∷ r) = some bundle
decode_bundle (suc n ∷ r) = do (p, r') ← dec_path r; some (child_of p)

pub decode-encode_bundle : (b : BundleMapFile) → decode_bundle (encode_bundle b) ≡ some b
unfolding encode_bundle decode_bundle
decode-encode_bundle bundle = refl
decode-encode_bundle (child_of p) =
    rw (dec-enc_list enc_component dec_component dec-enc_component p []) refl

abbrev pub ron : Ron
ron = record {
  encode = encode_bundle;
  decode = decode_bundle;
  decode-encode = decode-encode_bundle;
}
