-- ===== src/ChangeSet/Opened.antt =====
-- Opening a changeset: `ChangeSet::from_pull_request` of autoschematic-server/src/changeset.rs. GitHub's
-- pull request and its list of changed files are arguments; the temporary directory is left out.
pub mod Changes
use autoschematic.Prelude.{
  Bool, true, false, Option, none, some, List, [], ◌∷◌, ◌++◌, Text, text, String, Result, ok, err,
  ◌==◌, list_equality, nat_equality, option_equality, if◌then◌else◌,
}
use autoschematic.FilePath.{FilePath}
use autoschematic.Objects.{DiffStatus, removed, Object, sort_objects_by_apply_order}

-- The states of octocrab that the code tells apart.
pub data MergeableState : Type 0 where
  unstable unknown clean other : MergeableState

pub record PullRequest : Type 0 where
  pub default_branch : Option Text
  pub base_label : Option Text
  pub mergeable_state : Option MergeableState

-- An entry of the list of changed files.
pub record DiffEntry : Type 0 where
  pub filename : FilePath
  pub previous_filename : Option FilePath
  pub status : DiffStatus

pub data OpenError : Type 0 where
  no_default_branch wrong_base not_mergeable github_failed : OpenError

abbrev pub is_mergeable : Option MergeableState → Bool
is_mergeable (some unstable) = true
is_mergeable (some unknown) = true
is_mergeable (some clean) = true
is_mergeable _ = false

module _ (owner repo head_sha : String) where
  abbrev pub object_at : FilePath → DiffStatus → Object
  object_at filename status = record {
    owner = owner;
    repo = repo;
    head_sha = head_sha;
    filename = filename;
    diff_status = status;
  }

  -- The old name of a file that is moved counts as a file that is removed.
  abbrev pub previous : Option FilePath → List Object
  previous none = []
  previous (some old) = object_at old removed ∷ []

  unfoldable pub objects_of : List DiffEntry → List Object
  objects_of [] = []
  objects_of (diff ∷ diffs) =
      previous diff.previous_filename ++ object_at diff.filename diff.status ∷ objects_of diffs

  -- A pull request that cannot be merged gets a comment, which may fail.
  abbrev pub refused : Bool → Result OpenError (List Object)
  refused true = err not_mergeable
  refused false = err github_failed

  abbrev pub listed : Option (List DiffEntry) → Result OpenError (List Object)
  listed none = err github_failed
  listed (some diffs) = ok (sort_objects_by_apply_order (objects_of diffs))

  abbrev pub mergeable :
      Bool → PullRequest → Option (List DiffEntry) → Result OpenError (List Object)
  mergeable comment pull_request list_files =
      if is_mergeable pull_request.mergeable_state then listed list_files else refused comment

  -- The objects of the changeset; `login` is the owner as text.
  unfoldable pub from_pull_request :
      Text → Bool → PullRequest → Option (List DiffEntry) → Result OpenError (List Object)
  from_pull_request login comment pull_request list_files = elim pull_request.default_branch [
    | none ↦ err no_default_branch
    | some branch ↦
        if some (login ++ b':' ∷ branch) == pull_request.base_label
        then mergeable comment pull_request list_files
        else err wrong_base
  ]
