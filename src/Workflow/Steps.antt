-- ===== src/Workflow/Steps.antt =====
-- Reasoning on steps: what a step ensures of its answer, and what it leaves as it is.
use autoschematic.Prelude.{◌≡◌, refl, ◌∙◌}
use autoschematic.FilePath.{FilePath}
use autoschematic.Disk.{file}
use autoschematic.Workflow.{Answer, ok, err, State, Step, ◌>>=◌, go_on}

-- Where an answer is a value, the value has the property.
abbrev pub Answers : {A : Type 0} → (A → Type 0) → Answer A → Type 0
Answers P (ok a) = P a
Answers P (err e) = Unit

nothing_asked : {A : Type 0} (a : Answer A) → Answers (λ x. Unit) a
nothing_asked (ok a) = tt
nothing_asked (err e) = tt

module _ {R : Type 0} where
  abbrev pub Ensures : {A : Type 0} → (A → Type 0) → Step R A → Type 0
  Ensures P m = (s : State R) → Answers P (m s).0

  go_on-Answers :
      {A B : Type 0} (P : A → Type 0) (Q : B → Type 0) (f : A → Step R B) (x : Answer A × State R)
      → Answers P x.0
      → ((a : A) → P a → Ensures Q (f a))
      → Answers Q (go_on f x).0
  go_on-Answers P Q f (ok a, s) h k = k a h s
  go_on-Answers P Q f (err e, s) h k = tt

  pub then-Ensures :
      {A B : Type 0} (P : A → Type 0) (Q : B → Type 0) (m : Step R A) (f : A → Step R B)
      → Ensures P m
      → ((a : A) → P a → Ensures Q (f a))
      → Ensures Q (m >>= f)
  then-Ensures P Q m f h k s = go_on-Answers P Q f (m s) (h s) k

  pub afterwards :
      {A B : Type 0} (Q : B → Type 0) (m : Step R A) (f : A → Step R B)
      → ((a : A) → Ensures Q (f a))
      → Ensures Q (m >>= f)
  afterwards Q m f k = then-Ensures (λ a. Unit) Q m f (λ s. nothing_asked (m s).0) (λ a u. k a)

-- A step that leaves the file at a path as it is.
abbrev pub Keeps : {R A : Type 0} → FilePath → Step R A → Type 0
Keeps {R} p m = (s : State R) → file (m s).1.disk p ≡ file s.disk p

module _ {R : Type 0} (p : FilePath) where
  go_on-Keeps :
      {A B : Type 0} (f : A → Step R B) (x : Answer A × State R)
      → ((a : A) → Keeps p (f a))
      → file (go_on f x).1.disk p ≡ file x.1.disk p
  go_on-Keeps f (ok a, s) h = h a s
  go_on-Keeps f (err e, s) h = refl

  pub then-Keeps :
      {A B : Type 0} (m : Step R A) (f : A → Step R B)
      → Keeps p m
      → ((a : A) → Keeps p (f a))
      → Keeps p (m >>= f)
  then-Keeps m f h k s = go_on-Keeps f (m s) k ∙ h s
