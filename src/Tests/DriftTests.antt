-- ===== src/Tests/DriftTests.antt =====
-- Tests of the check for drift.
use autoschematic.Prelude.{ℕ, ok, ◌==◌, list_equality, nat_equality}
use autoschematic.Prelude.Dict
use autoschematic.FilePath.{component_equality}
use autoschematic.Workflow.{Answer}
use autoschematic.Commands.Drift.{Equality}

abbrev same_body : Equality ℕ
same_body addr a b disk remote = (Answer.ok (a == b), remote)
