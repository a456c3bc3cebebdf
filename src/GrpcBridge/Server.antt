-- ===== src/GrpcBridge/Server.antt =====
-- The side of the connector: the service `GrpcConnectorServer` of autoschematic-core/src/grpc_bridge.rs.
use autoschematic.Prelude.{
  ℕ, true, false, Option, none, some, List, [], ◌∷◌, Text, text, ok, err, map,
}
use autoschematic.Prelude.Dict.{Dict}
use autoschematic.GrpcBridge.{
  PathBuf, GetResourceResponse, PlanResponseElement, OpExecResponse, DocIdent, GetDocResponse,
  Diagnostic, TaskExecResponse, Call, Connector, Status, internal, invalid_argument, GetReply,
  PlanOp, OpExecReply, PhyToVirtReply, GetDocReply, DiagnosticMessage, TaskExecReply, Service,
  or_empty, non_empty, map_result,
}

abbrev pub send_resource : Option GetResourceResponse → GetReply
send_resource none = record {
  exists = false;
  resource_definition = [];
  virt_addr = [];
  outputs = [];
}
send_resource (some r) = record {
  exists = true;
  resource_definition = r.resource_definition;
  virt_addr = or_empty r.virt_addr;
  outputs = or_empty r.outputs;
}

abbrev pub send_op : PlanResponseElement → PlanOp
send_op op = record {
  op_definition = op.op_definition;
  writes_outputs = op.writes_outputs;
  friendly_message = or_empty op.friendly_message;
}

-- `filter_map(|(k, v)| v.map(|s| (k, s)))`
unfoldable pub present_values : Dict Text (Option Text) → Dict Text Text
present_values [] = []
present_values ((k, none) ∷ m) = present_values m
present_values ((k, some v) ∷ m) = (k, v) ∷ present_values m

abbrev pub send_outputs : Option (Dict Text (Option Text)) → Dict Text Text
send_outputs none = []
send_outputs (some m) = present_values m

abbrev pub send_op_exec : OpExecResponse → OpExecReply
send_op_exec r = record {
  outputs = send_outputs r.outputs;
  friendly_message = or_empty r.friendly_message;
}

abbrev pub send_phy_to_virt : Option PathBuf → PhyToVirtReply
send_phy_to_virt none = (false, [])
send_phy_to_virt (some virt) = (true, virt)

abbrev pub send_doc : Option GetDocResponse → GetDocReply
send_doc none = record { has_doc = false; kind = []; markdown = []; fields = [] }
send_doc (some r) = record {
  has_doc = true;
  kind = r.kind;
  markdown = r.markdown;
  fields = r.fields;
}

abbrev pub send_diagnostic : Diagnostic → DiagnosticMessage
send_diagnostic d = record {
  severity = d.severity;
  span = some (some d.span_start, some d.span_end);
  message = d.message;
}

abbrev pub send_diagnostics : Option (List Diagnostic) → List DiagnosticMessage
send_diagnostics none = []
send_diagnostics (some ds) = map send_diagnostic ds

-- A secret without a value is sent as an empty text.
abbrev pub send_secret : PathBuf × Option Text → Text × Text
send_secret (k, v) = (k, or_empty v)

abbrev pub or_zero : Option ℕ → ℕ
or_zero none = 0
or_zero (some n) = n

abbrev pub send_task : TaskExecResponse → TaskExecReply
send_task r = record {
  next_state = or_empty r.next_state;
  modified_files = or_empty r.modified_files;
  outputs = send_outputs r.outputs;
  secrets = map send_secret (or_empty r.secrets);
  friendly_message = or_empty r.friendly_message;
  delay_until = or_zero r.delay_until;
}

-- The text of an error is a parameter.
module _ {S E : Type 0} (to_text : E → Text) (c : Connector S E) where
  abbrev pub answer : {A B : Type 0} → (A → B) → Call S E A → Call S Status B
  answer f call s = map_result (λ e. internal (to_text e)) (λ a. ok (f a)) (call s)

  abbrev pub answer_docstring : Text → Option (Option DocIdent) → Call S Status GetDocReply
  answer_docstring addr none s = (err (invalid_argument (text "no ident")), s)
  answer_docstring addr (some none) s = (err (invalid_argument (text "no ident")), s)
  answer_docstring addr (some (some ident)) s = answer send_doc (c.get_docstring addr ident) s

  unfoldable pub serve : Service S
  serve = record {
    init = answer (λ u. u) c.init;
    version = answer (λ v. v) c.version;
    filter = λ addr. answer (λ n. n) (c.filter addr);
    list = λ subpath. answer (λ ps. ps) (c.list subpath);
    subpaths = answer (λ ps. ps) c.subpaths;
    get = λ addr. answer send_resource (c.get addr);
    plan = λ addr current desired.
        answer (map send_op) (c.plan addr (non_empty current) (non_empty desired));
    op_exec = λ addr op. answer send_op_exec (c.op_exec addr op);
    addr_virt_to_phy = λ addr. answer some (c.addr_virt_to_phy addr);
    addr_phy_to_virt = λ addr. answer send_phy_to_virt (c.addr_phy_to_virt addr);
    get_skeletons = answer (λ l. l) c.get_skeletons;
    get_docstring = answer_docstring;
    eq = λ addr a b. answer (λ e. e) (c.eq addr a b);
    diag = λ addr a. answer send_diagnostics (c.diag addr a);
    task_exec = λ addr body arg state.
        answer send_task (c.task_exec addr body (non_empty arg) (non_empty state));
    unbundle = λ addr bundle. answer (λ l. l) (c.unbundle addr bundle);
  }
