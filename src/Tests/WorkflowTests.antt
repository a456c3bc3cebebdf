-- ===== src/Tests/WorkflowTests.antt =====
-- Tests of templates, written resources, plans and applies.
use autoschematic.Prelude.{
  ℕ, ◌≡◌, ◌≢◌, ◌↔◌, inr, refl, Bool, true, false, none, some, List, [], ◌∷◌, Text, text, In, All,
  length, arith, ◌==◌, ==_iff, nat_equality, list_equality, append-nil,
}
use autoschematic.Prelude.Dict
use autoschematic.FilePath.{
  normal, FilePath, component_equality, join, parent, file_name, components,
}
use autoschematic.Disk.{Disk, file}
use autoschematic.Outputs.{
  OutputMap, output_map, ok, output_path, read, get, apply_output_map, read_recurse, write_recurse,
  merge, write, write_link, normal_only,
}
use autoschematic.Resource.{GetResourceResponse, address_of, write_resource}
use autoschematic.Resource.Roundtrip.{write_resource_lem}
use autoschematic.Template.{
  OutRegex, Piece, literal, reference, join_pieces, ReadOutput, TemplateResourceResult,
  get_read_outputs, template_config,
}
use autoschematic.Template.Resolved.{value, Returns, filled, template_config_lem}
use autoschematic.ConnectorCache.{ConnectorDef}
use autoschematic.Workflow.{
  present, PlanResponseElement, PlanReport, plan_report, Connector, State, Answer,
}
use autoschematic.Workflow.Steps.{Answers}
use autoschematic.Workflow.Apply.{apply_connector}
use autoschematic.Workflow.Apply.Safety.{file-apply_connector}
use autoschematic.Workflow.Plan.{plan_connector}
use autoschematic.Workflow.Plan.Reported.{Reported, plan_connector_lem}
use autoschematic.Tests.Codec.{json, encode_output, decode_output}

abbrev pub prefix : FilePath
prefix = normal (text "aws") ∷ []

abbrev pub vpc : FilePath
vpc = normal (text "vpc.ron") ∷ []

abbrev pub vpc_1 : FilePath
vpc_1 = normal (text "vpc-1.ron") ∷ []

abbrev pub outputs : OutputMap
outputs = (text "id", text "vpc-1") ∷ []

abbrev pub vpc_path : FilePath
vpc_path =
    normal (text ".autoschematic") ∷ normal (text "aws") ∷ normal (text "vpc.ron.out.json") ∷ []

abbrev pub disk : Disk
disk = (vpc_path, json.encode (output_map outputs)) ∷ []

-- Matches of one reference; other texts have none.
abbrev pub id_text : Text
id_text = text "out://vpc.ron[id]"

abbrev pub cut : Bool → Text → List Piece
cut true s = reference (text "vpc.ron") (text "id") ∷ []
cut false s = literal s ∷ []

pub join-cut : (b : Bool) (s : Text) → (b ≡ true → id_text ≡ s) → join_pieces (cut b s) ≡ s
join-cut true s h = h refl
join-cut false s h = append-nil s

abbrev pub regex : OutRegex
regex = record {
  pieces = λ s. cut (id_text == s) s;
  join-pieces = λ s. join-cut (id_text == s) s (λ e. (==_iff id_text s).0 e);
}

vpc_id : get json 2 prefix (components (text "vpc.ron")) (text "id") disk ≡ ok (some (text "vpc-1"))
unfolding get read components output_path join parent file_name Dict.get encode_output decode_output
vpc_id = refl

returns : All (Returns json 2 prefix disk) (get_read_outputs regex id_text)
unfolding get_read_outputs
returns = ((λ h. cc (vpc_id, h)), tt)

template_config_lem_example :
    (t : TemplateResourceResult) × (template_config json 2 prefix disk regex id_text ≡ ok t)
    × (t.body ≡ filled json 2 prefix disk (regex.pieces id_text))
    × ((r : ReadOutput)
        → In r t.missing
          ↔ (In r (get_read_outputs regex id_text) × (value json 2 prefix disk r ≡ none)))
template_config_lem_example = template_config_lem json 2 prefix disk regex id_text returns

-- A resource that hints at its virtual address.
abbrev resource : GetResourceResponse
resource = record {
  resource_definition = text "Vpc()";
  virt_addr = some vpc;
  outputs = some outputs;
}

hinted_address : address_of resource vpc_1 vpc_1 ≡ vpc
unfolding address_of
hinted_address = refl

different : (p q : FilePath) → (p == q) ≡ false → p ≢ q
different p q e h = ground (arith, ==_iff p q, e)

write_resource_lem_example :
    ((key : Text)
      → (get json 2 prefix
            (address_of resource vpc_1 vpc_1)
            key
            (write_resource json resource prefix vpc_1 vpc_1 []).1
          ≡ ok (Dict.get key outputs))
        × (get json 2 prefix vpc_1 key (write_resource json resource prefix vpc_1 vpc_1 []).1
            ≡ ok (Dict.get key outputs)))
    × (file
          (write_resource json resource prefix vpc_1 vpc_1 []).1
          (join prefix (address_of resource vpc_1 vpc_1))
        ≡ some (text "Vpc()"))
unfolding address_of output_path normal_only join parent file_name
write_resource_lem_example =
    write_resource_lem json prefix resource vpc_1 vpc_1 (text "id", text "vpc-1") [] [] refl
      (inr (different (output_path prefix vpc_1) (output_path prefix vpc) refl))
      (different (output_path prefix vpc) (join prefix vpc) refl)
      (different (output_path prefix vpc_1) (join prefix vpc) refl)

abbrev pub create : PlanResponseElement
create = record { op_definition = text "Create"; writes_outputs = []; friendly_message = none }

-- A connector with one resource, whose remote state counts the operations.
abbrev pub connector : Connector ℕ
connector = record {
  addr_virt_to_phy = λ addr d r. (Answer.ok (present vpc_1), r);
  get = λ addr d r. (Answer.ok none, r);
  plan = λ addr current desired d r. (Answer.ok (create ∷ []), r);
  op_exec = λ addr o d r. (
    Answer.ok
        (record { outputs = some ((text "arn", some (text "a")) ∷ []); friendly_message = none }),
    r,
  );
}

abbrev pub connector_def : ConnectorDef
connector_def = record { shortname = text "ec2"; env_file = none; env = [] }

abbrev plan : PlanReport
plan = plan_report connector_def prefix vpc (create ∷ []) []

abbrev pub start : State ℕ
start = record { disk = disk; remote = 0 }

-- The one operation is executed, and its output is merged into the file of the virtual address.
applied :
    Answers
      (λ report. (length report.outputs ≡ 1) × (length report.wrote_files ≡ 2))
      (apply_connector json 2 connector plan start).0
unfolding apply_connector apply_output_map read_recurse write_recurse merge read write_link write
    output_path normal_only join parent file_name Dict.get Dict.insert Dict.remove encode_output
    decode_output
applied = (refl, refl)

-- The file of a resource of another prefix.
abbrev gcp_file : FilePath
gcp_file = normal (text "gcp") ∷ normal (text "vpc.ron") ∷ []

no_output_file : (addr : FilePath) → output_path prefix addr ≢ gcp_file
unfolding output_path join
no_output_file addr h = cc

file-apply_connector_example :
    file (apply_connector json 2 connector plan start).1.disk gcp_file ≡ file disk gcp_file
file-apply_connector_example =
    file-apply_connector json 2 connector plan gcp_file no_output_file start

planned :
    (plan_connector json 2 regex (λ s. some s) connector connector_def prefix vpc start).0
    ≡ Answer.ok plan
unfolding plan_connector read_recurse read output_path normal_only join parent file_name Dict.get
    template_config
planned = refl

plan_connector_lem_example :
    Reported json 2 regex (λ s. some s) connector connector_def prefix vpc disk 0 plan
plan_connector_lem_example =
    plan_connector_lem json 2 regex (λ s. some s) connector connector_def prefix vpc disk 0 plan
      planned
