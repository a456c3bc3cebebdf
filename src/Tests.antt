-- ===== src/Tests.antt =====
-- Tests of the definitions, and the theorems at concrete inputs.
mod Codec
mod RbacTests
mod PathTests
mod OutputTests
mod BundleTests
mod CacheTests
mod TraceTests
mod DriftTests
mod EnvTests
mod RonTests
mod ChangesetTests
mod UnescapeTests
mod WorkflowTests
mod PullRequestTests
mod ObjectTests
mod OpenTests
mod CommandTests
mod ImportTests
mod GrpcTests
