-- ===== src/Tests/CommandTests.antt =====
-- Tests of the commands that find the connector themselves.
use autoschematic.Prelude.{
  ℕ, ◌≡◌, ◌≢◌, refl, none, some, [], ◌∷◌, text, ok, strip_text, nat_equality, list_equality,
}
use autoschematic.Prelude.Dict
use autoschematic.FilePath.{
  normal, FilePath, component_equality, join, strip_prefix, components, parent, file_name,
}
use autoschematic.Disk.{file}
use autoschematic.Prefixes.{split_prefix_addr, norm_prefix}
use autoschematic.Outputs.{
  output_map, Outcome, output_path, read, read_recurse, write, write_link, normal_only,
}
use autoschematic.ConnectorCache.{
  Answer as Cached, World, Config, get_or_spawn_connector, connector_env, add_env, filter_cached,
  lookup_filter,
}
use autoschematic.ChangeSet.Plan.{resource_response}
use autoschematic.Commands.{Tool, visit}
use autoschematic.Commands.Rename.{
  move_file, with_outputs, rename_response, rename_resource, rename_with, rename,
}
use autoschematic.Commands.Rename.Moved.{moved, rename_resource_lem}
use autoschematic.Tests.Codec.{json, encode_output, decode_output}
use autoschematic.Tests.WorkflowTests.{connector, vpc, vpc_1, prefix, outputs, disk, connector_def}

abbrev net : FilePath
net = normal (text "net.ron") ∷ []

abbrev vpc_file : FilePath
vpc_file = normal (text "aws") ∷ normal (text "vpc.ron") ∷ []

abbrev net_file : FilePath
net_file = normal (text "aws") ∷ normal (text "net.ron") ∷ []

abbrev pub tool : Tool Unit ℕ
tool = record {
  cache = record { cache = []; init_status = []; filter_cache = [] };
  files = record { disk = (vpc_file, text "Vpc()") ∷ disk; remote = 0 };
}

found : read_recurse json 2 prefix vpc tool.files.disk ≡ Outcome.ok (some (output_map outputs))
unfolding read_recurse read output_path normal_only join parent file_name Dict.get encode_output
    decode_output
found = refl

no_output_file : (addr : FilePath) → output_path prefix addr ≢ join prefix vpc
unfolding output_path join
no_output_file addr h = cc

rename_resource_lem_example :
    ((rename_resource json 2 prefix vpc net connector tool).0 ≡ ok tt)
    × ((p : FilePath)
        → file (rename_resource json 2 prefix vpc net connector tool).1.files.disk p
          ≡ moved json prefix vpc net vpc_1 (output_map outputs) (text "Vpc()") tool.files.disk p)
unfolding join Dict.get
rename_resource_lem_example =
    rename_resource_lem json 2 prefix vpc net vpc_1 connector tool 0 (output_map outputs)
      (text "Vpc()") refl found refl (no_output_file net) (no_output_file vpc_1)

abbrev pub world : World Unit
world = record {
  read_file = λ f. none;
  spawn = λ key env. Cached.ok tt;
  check_version = λ c. Cached.ok tt;
  init = λ c. none;
  filter = λ c addr. Cached.ok resource_response;
}

abbrev pub config : Config
config = (text "aws", record { connectors = connector_def ∷ []; env_file = none; env = [] }) ∷ []

-- The whole command finds the prefix, the connector and the address.
renamed_file :
    file
      (rename (λ i. world) (λ c. connector) config json 2 vpc_file net_file tool).1.files.disk
      net_file
    ≡ some (text "Vpc()")
unfolding rename rename_with rename_resource rename_response with_outputs move_file visit
    split_prefix_addr norm_prefix strip_text strip_prefix components get_or_spawn_connector
    connector_env add_env filter_cached lookup_filter read_recurse read write write_link output_path
    normal_only join parent file_name Dict.get Dict.insert Dict.remove encode_output decode_output
renamed_file = refl
