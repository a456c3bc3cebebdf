-- ===== src/GrpcBridge/Client.antt =====
-- The side of the host: the connector `GrpcConnectorClient` of autoschematic-core/src/grpc_bridge.rs.
use autoschematic.Prelude.{
  ℕ, true, false, Option, none, some, List, [], ◌∷◌, Text, Result, ok, err, map, ltb, if◌then◌else◌,
}
use autoschematic.Prelude.Dict.{Dict}
use autoschematic.GrpcBridge.{
  PathBuf, GetResourceResponse, PlanResponseElement, OpExecResponse, VirtToPhyResponse,
  GetDocResponse, DiagnosticPosition, Diagnostic, TaskExecResponse, Call, Connector, Status,
  GetReply, PlanOp, OpExecReply, PhyToVirtReply, GetDocReply, DiagnosticMessage, TaskExecReply,
  Service, or_empty, non_empty, map_result,
}

-- A status of the service, a reply without a result, and `unwrap` of a field that is absent.
pub data ClientError : Type 0 where
  failed : Status → ClientError
  no_result panicked : ClientError

abbrev pub receive_resource : GetReply → Option GetResourceResponse
receive_resource r = elim r.exists [
  | false ↦ none
  | true ↦ some (record {
    resource_definition = r.resource_definition;
    virt_addr = non_empty r.virt_addr;
    outputs = non_empty r.outputs;
  })
]

abbrev pub receive_op : PlanOp → PlanResponseElement
receive_op o = record {
  op_definition = o.op_definition;
  writes_outputs = o.writes_outputs;
  friendly_message = non_empty o.friendly_message;
}

abbrev pub with_some : Text × Text → Text × Option Text
with_some (k, v) = (k, some v)

abbrev pub receive_op_exec : OpExecReply → OpExecResponse
receive_op_exec r = record {
  outputs = non_empty (map with_some r.outputs);
  friendly_message = non_empty r.friendly_message;
}

abbrev pub receive_phy_to_virt : PhyToVirtReply → Option PathBuf
receive_phy_to_virt (true, virt) = some virt
receive_phy_to_virt (false, _) = none

abbrev pub receive_doc : GetDocReply → Option GetDocResponse
receive_doc r = elim r.has_doc [
  | false ↦ none
  | true ↦ some (record { kind = r.kind; markdown = r.markdown; fields = r.fields })
]

-- `u8::try_from(severity).unwrap_or(1)`
abbrev pub to_severity : ℕ → ℕ
to_severity n = if ltb n 256 then n else 1

abbrev pub receive_span :
    DiagnosticMessage
    → Option (Option DiagnosticPosition × Option DiagnosticPosition)
    → Option Diagnostic
receive_span d (some (some start, some end)) = some (record {
  severity = to_severity d.severity;
  span_start = start;
  span_end = end;
  message = d.message;
})
receive_span d _ = none

abbrev cons_diagnostic : Option Diagnostic → Option (List Diagnostic) → Option (List Diagnostic)
cons_diagnostic (some d) (some ds) = some (d ∷ ds)
cons_diagnostic _ _ = none

-- `none` is the panic of an `unwrap`.
unfoldable pub receive_each : List DiagnosticMessage → Option (List Diagnostic)
receive_each [] = some []
receive_each (d ∷ ds) = cons_diagnostic (receive_span d d.span) (receive_each ds)

abbrev or_panic : Option (List Diagnostic) → Result ClientError (Option (List Diagnostic))
or_panic none = err panicked
or_panic (some ds) = ok (some ds)

abbrev pub receive_diagnostics :
    List DiagnosticMessage → Result ClientError (Option (List Diagnostic))
receive_diagnostics [] = ok none
receive_diagnostics (d ∷ ds) = or_panic (receive_each (d ∷ ds))

-- The loop that leaves out what is empty.
unfoldable pub non_empty_values : Dict Text Text → Dict Text (Option Text)
non_empty_values [] = []
non_empty_values ((k, []) ∷ m) = non_empty_values m
non_empty_values ((k, c ∷ v) ∷ m) = (k, some (c ∷ v)) ∷ non_empty_values m

abbrev pub non_zero : ℕ → Option ℕ
non_zero n = if ltb 0 n then some n else none

abbrev pub receive_task : TaskExecReply → TaskExecResponse
receive_task r = record {
  next_state = non_empty r.next_state;
  modified_files = non_empty r.modified_files;
  outputs = some (non_empty_values r.outputs);
  secrets = some (non_empty_values r.secrets);
  friendly_message = non_empty r.friendly_message;
  delay_until = non_zero r.delay_until;
}

abbrev pub with_result : Option VirtToPhyResponse → Result ClientError VirtToPhyResponse
with_result none = err no_result
with_result (some r) = ok r

module _ {S : Type 0} (s : Service S) where
  abbrev pub ask :
      {A B : Type 0} → (A → Result ClientError B) → Call S Status A → Call S ClientError B
  ask f call t = map_result failed f (call t)

  unfoldable pub client : Connector S ClientError
  client = record {
    init = ask ok s.init;
    version = ask ok s.version;
    filter = λ addr. ask ok (s.filter addr);
    list = λ subpath. ask ok (s.list subpath);
    subpaths = ask ok s.subpaths;
    get = λ addr. ask (λ r. ok (receive_resource r)) (s.get addr);
    plan = λ addr current desired.
        ask (λ ops. ok (map receive_op ops)) (s.plan addr (or_empty current) (or_empty desired));
    op_exec = λ addr op. ask (λ r. ok (receive_op_exec r)) (s.op_exec addr op);
    addr_virt_to_phy = λ addr. ask with_result (s.addr_virt_to_phy addr);
    addr_phy_to_virt = λ addr. ask (λ r. ok (receive_phy_to_virt r)) (s.addr_phy_to_virt addr);
    get_skeletons = ask ok s.get_skeletons;
    get_docstring =
        λ addr ident. ask (λ r. ok (receive_doc r)) (s.get_docstring addr (some (some ident)));
    eq = λ addr a b. ask ok (s.eq addr a b);
    diag = λ addr a. ask receive_diagnostics (s.diag addr a);
    task_exec = λ addr body arg state.
        ask (λ r. ok (receive_task r)) (s.task_exec addr body (or_empty arg) (or_empty state));
    unbundle = λ addr bundle. ask ok (s.unbundle addr bundle);
  }
