-- ===== src/Lib.antt =====
-- Autoschematic: the core of the infrastructure tool, modelled file by file.
--
-- A repository holds prefixes; a prefix holds resource files and names its connectors, programs that
-- read and change resources. Running a plan or an apply finds the prefix of a path, gets a connector from
-- the cache, asks it about the address, and stores the outputs of its operations in output files.
--
-- Prelude: tests, lists, texts, maps (Prelude/Dict) and equality. Texts are lists of character codes.
-- Rbac: autoschematic-core/src/config_rbac.rs, with the functions' names.
-- FilePath: what the code uses of std::path on Unix; a path is the list of its components.
-- Disk: the files below the working directory, a map from path to content.
-- Glob: autoschematic-core/src/glob.rs.
-- Prefixes: the checks of load_autoschematic_config, split_prefix_addr and path_relative_from of
--   autoschematic-core/src/util.rs. The map of prefixes is given in the order of a visit.
-- Environment: parse_env_file, passthrough_secrets_from_env, passthrough_env_from_env of the same file.
-- Outputs: OutputMapFile of autoschematic-core/src/connector.rs. A chain of pointers is followed on
--   fuel; more fuel than the chain has pointers is enough, and on a cycle no fuel is.
-- Bundle: BundleMapFile of autoschematic-core/src/bundle.rs, write_to_disk of
--   autoschematic-core/src/report.rs, write_unbundle_element of
--   autoschematic-core/src/workflow/unbundle.rs.
-- ConnectorCache: autoschematic-core/src/connector_cache.rs; a method is one step on the maps of the
--   cache, and what connectors and the operating system answer is the record World.
-- TraceStore: autoschematic-server/src/tracestore.rs; a method is one step, since it holds the lock.
-- Objects: sort_objects_by_apply_order of autoschematic-server/src/object.rs.
-- ChangeSet: the changeset of a pull request. ChangeSet/Plan: ChangeSet::plan of
--   autoschematic-server/src/changeset/plan.rs; ChangeSet/Apply: ChangeSet::apply of changeset/apply.rs;
--   ChangeSet/Reviews: get_pr_approvals of changeset/util.rs; ChangeSet/Opened:
--   ChangeSet::from_pull_request of changeset.rs. A command is a step on the changeset, the
--   files, the remote state, the check runs, the calls of git and the traces; GitHub, git and the
--   connectors answer through the record Host. Rbac, ConnectorCache, Template, TraceStore and Workflow
--   are called as the code calls them.
-- Resource: GetResourceResponse::write of autoschematic-core/src/connector.rs.
-- Template: template_config and get_read_outputs of autoschematic-core/src/template.rs; regex cuts a text
--   into matches and what stands between them.
-- Workflow: plan_connector of autoschematic-core/src/workflow/plan.rs (Workflow/Plan) and apply_connector
--   of autoschematic-core/src/workflow/apply.rs (Workflow/Apply), as steps on the files and the remote
--   state; a connector is a record of functions.
-- GrpcBridge: autoschematic-core/src/grpc_bridge.rs, the service (GrpcBridge/Server) and the client
--   (GrpcBridge/Client); what is sent arrives as it is.
-- Import: import_resource and the loop of import_all over listed addresses, of
--   autoschematic-core/src/workflow/import.rs; the tasks run one after the other.
-- Commands: apply of autoschematic-core/src/workflow/apply.rs, rename of
--   autoschematic-core/src/workflow/rename.rs (Commands/Rename) and check_drift of
--   autoschematic-core/src/workflow/check_drift.rs (Commands/Drift), with the cache and the files.
-- Unescape: autoschematic-core/src/unescape.rs; the loop runs on fuel, and the length of the text is
--   enough.
-- Changesets: autoschematic-server/src/changeset_cache.rs; a changeset is a value of a parameter type.
-- RonPath: find_strings, on the tree that pest returns, and pos_byte_index (RonPath/Position), of
--   autoschematic-core/src/ron/path_at.rs.
-- Tests: the definitions and the theorems at concrete inputs.
--
-- Not modelled: code that is not in the repository (serde_json, ron, regex, git, tokio) enters as
-- parameters; paths with `..` that name one file in two ways, failures of input and output, the
-- network, processes, the generated code, the dashboard and the command line are left out, and so are
-- calls that interleave within a method of the cache.
pub mod Prelude
pub mod Rbac
pub mod FilePath
pub mod Glob
pub mod Prefixes
pub mod Disk
pub mod Outputs
pub mod Bundle
pub mod Environment
pub mod ConnectorCache
pub mod TraceStore
pub mod Objects
pub mod Resource
pub mod Unescape
pub mod Changesets
pub mod RonPath
pub mod Template
pub mod Workflow
pub mod ChangeSet
pub mod GrpcBridge
pub mod Import
pub mod Commands
pub mod Tests
