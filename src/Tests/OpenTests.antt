-- ===== src/Tests/OpenTests.antt =====
-- Tests of opening a changeset.
use autoschematic.Prelude.{◌≡◌, ◌↔◌, true, some, List, [], ◌∷◌, ◌++◌, Text, text, In, ok}
use autoschematic.FilePath.{components}
use autoschematic.Objects.{Object, modified}
use autoschematic.ChangeSet.Opened.{PullRequest, DiffEntry, clean, is_mergeable, from_pull_request}
use autoschematic.ChangeSet.Opened.Changes.{IsChange, from_pull_request_iff}

abbrev moved : DiffEntry
moved = record {
  filename = components (text "aws/net.ron");
  previous_filename = some (components (text "aws/vpc.ron"));
  status = modified;
}

abbrev pull_request : PullRequest
pull_request = record {
  default_branch = some (text "main");
  base_label = some (text "acme:main");
  mergeable_state = some clean;
}

from_pull_request_iff_example :
    ((objects : List Object) × (from_pull_request "acme" "infra" "c0ffee"
          (text "acme")
          true
          pull_request
          (some (moved ∷ []))
        ≡ ok objects)
      × ((o : Object) → In o objects ↔ IsChange "acme" "infra" "c0ffee" (moved ∷ []) o))
    ↔ ((branch : Text) × (pull_request.default_branch ≡ some branch)
        × (pull_request.base_label ≡ some (text "acme" ++ b':' ∷ branch))
        × (is_mergeable pull_request.mergeable_state ≡ true))
from_pull_request_iff_example =
    from_pull_request_iff "acme" "infra" "c0ffee" (text "acme") true pull_request (moved ∷ [])
