-- ===== src/GrpcBridge/Roundtrip.antt =====
-- A connector behind the bridge of autoschematic-core/src/grpc_bridge.rs against the connector itself.
use autoschematic.Prelude.{
  ℕ, ◌≡◌, refl, ap, Option, none, some, List, [], ◌∷◌, Text, Result, ok, err, map,
}
use autoschematic.Prelude.Dict.{Dict}
use autoschematic.GrpcBridge.{
  PathBuf, GetResourceResponse, PlanResponseElement, OpExecResponse, GetDocResponse, Diagnostic,
  TaskExecResponse, Connector, internal, or_empty, non_empty, map_result,
}
use autoschematic.GrpcBridge.Server.{
  send_resource, send_op, present_values, send_outputs, send_op_exec, send_phy_to_virt, send_doc,
  send_diagnostic, send_diagnostics, send_secret, or_zero, send_task, serve,
}
use autoschematic.GrpcBridge.Client.{
  ClientError, failed, receive_resource, receive_op, with_some, receive_op_exec,
  receive_phy_to_virt, receive_doc, receive_each, receive_diagnostics, non_empty_values, non_zero,
  receive_task, with_result, client,
}
use autoschematic.GrpcBridge.Tidy.{
  tidied, tidy_resource, tidy_op, valued, tidy_outputs, tidy_op_exec, filled, tidy_delay, tidy_task,
  tidy_diagnostic, tidy_diagnostics, tidy_each, tidy, AgreesWith,
}

non_empty-or_empty : {A : Type 0} (o : Option (List A)) → non_empty (or_empty o) ≡ tidied o
non_empty-or_empty none = refl
non_empty-or_empty (some xs) = refl

receive_resource_lem :
    (r : Option GetResourceResponse)
    → receive_resource (send_resource r) ≡ tidy_each tidy_resource r
receive_resource_lem none = refl
receive_resource_lem (some r) =
    rw (non_empty-or_empty r.virt_addr, non_empty-or_empty r.outputs) refl

receive_op_lem :
    (ops : List PlanResponseElement) → map receive_op (map send_op ops) ≡ map tidy_op ops
receive_op_lem [] = refl
receive_op_lem (op ∷ ops) = rw (non_empty-or_empty op.friendly_message, receive_op_lem ops) refl

valued_lem : (m : Dict Text (Option Text)) → map with_some (present_values m) ≡ valued m
unfolding present_values
valued_lem [] = refl
valued_lem ((k, none) ∷ m) = valued_lem m
valued_lem ((k, some v) ∷ m) = ap (λ r. (k, some v) ∷ r) (valued_lem m)

tidy_outputs_lem :
    (o : Option (Dict Text (Option Text)))
    → non_empty (map with_some (send_outputs o)) ≡ tidy_outputs o
tidy_outputs_lem none = refl
tidy_outputs_lem (some m) = ap non_empty (valued_lem m)

filled_lem : (m : Dict Text (Option Text)) → non_empty_values (present_values m) ≡ filled m
unfolding present_values non_empty_values
filled_lem [] = refl
filled_lem ((k, none) ∷ m) = filled_lem m
filled_lem ((k, some []) ∷ m) = filled_lem m
filled_lem ((k, some (c ∷ v)) ∷ m) = ap (λ r. (k, some (c ∷ v)) ∷ r) (filled_lem m)

task_outputs_lem :
    (o : Option (Dict Text (Option Text))) → non_empty_values (send_outputs o) ≡ filled (or_empty o)
unfolding non_empty_values
task_outputs_lem none = refl
task_outputs_lem (some m) = filled_lem m

secrets_lem : (m : Dict Text (Option Text)) → non_empty_values (map send_secret m) ≡ filled m
unfolding non_empty_values
secrets_lem [] = refl
secrets_lem ((k, none) ∷ m) = secrets_lem m
secrets_lem ((k, some []) ∷ m) = secrets_lem m
secrets_lem ((k, some (c ∷ v)) ∷ m) = ap (λ r. (k, some (c ∷ v)) ∷ r) (secrets_lem m)

delay_lem : (o : Option ℕ) → non_zero (or_zero o) ≡ tidy_delay o
delay_lem none = refl
delay_lem (some n) = refl

receive_each_lem :
    (ds : List Diagnostic) → receive_each (map send_diagnostic ds) ≡ some (map tidy_diagnostic ds)
unfolding receive_each
receive_each_lem [] = refl
receive_each_lem (d ∷ ds) = rw (receive_each_lem ds) refl

diagnostics_lem :
    (o : Option (List Diagnostic))
    → receive_diagnostics (send_diagnostics o) ≡ ok (tidy_diagnostics o)
diagnostics_lem none = refl
diagnostics_lem (some []) = refl
diagnostics_lem (some (d ∷ ds)) = rw (receive_each_lem (d ∷ ds)) refl

task_lem : (r : TaskExecResponse) → receive_task (send_task r) ≡ tidy_task r
task_lem r =
    rw
      (
        non_empty-or_empty r.next_state,
        non_empty-or_empty r.modified_files,
        non_empty-or_empty r.friendly_message,
        task_outputs_lem r.outputs,
        secrets_lem (or_empty r.secrets),
        delay_lem r.delay_until,
      )
      refl

op_exec_lem : (r : OpExecResponse) → receive_op_exec (send_op_exec r) ≡ tidy_op_exec r
op_exec_lem r = rw (tidy_outputs_lem r.outputs, non_empty-or_empty r.friendly_message) refl

phy_to_virt_lem : (o : Option PathBuf) → receive_phy_to_virt (send_phy_to_virt o) ≡ o
phy_to_virt_lem none = refl
phy_to_virt_lem (some p) = refl

doc_lem : (o : Option GetDocResponse) → receive_doc (send_doc o) ≡ o
doc_lem none = refl
doc_lem (some r) = refl

module _ {S E : Type 0} (to_text : E → Text) where
  -- An answer that is sent and received.
  passed :
      {A B D : Type 0} (f : A → B) (g : B → Result ClientError D) (h : A → D) (x : Result E A × S)
      → ((a : A) → g (f a) ≡ ok (h a))
      → map_result failed g (map_result (λ e. internal (to_text e)) (λ a. ok (f a)) x)
        ≡ map_result (λ e. failed (internal (to_text e))) (λ a. ok (h a)) x
  passed f g h (ok a, s) k = ap (λ r. (r, s)) (k a)
  passed f g h (err e, s) k = refl

  -- An answer that is sent as it is.
  kept :
      {A : Type 0} (x : Result E A × S)
      → map_result failed ok (map_result (λ e. internal (to_text e)) (λ a. ok a) x)
        ≡ map_result (λ e. failed (internal (to_text e))) (λ a. ok a) x
  kept x = passed (λ a. a) ok (λ a. a) x (λ a. refl)

  -- Behind the bridge a connector answers what it answers to tidied arguments, tidied: a list, text or
  -- map that is present but empty is absent, an operation's entries without a value are lost, a task
  -- keeps the entries with a value that is not empty and has its maps always present, a delay until 0
  -- is none, and the severity of a diagnostic, here a number and in the program a byte, is 1 where it
  -- is no byte. An error arrives as its text, and the bridge itself does not fail. The paths, the
  -- resource bodies, the resolved addresses, the documentation and the unbundled files arrive as they
  -- are.
  pub client-serve : (c : Connector S E) → AgreesWith (client (serve to_text c)) (tidy to_text c)
  unfolding client serve
  client-serve c = record {
    init = λ s. kept (c.init s);
    version = λ s. kept (c.version s);
    filter = λ addr s. kept (c.filter addr s);
    list = λ subpath s. kept (c.list subpath s);
    subpaths = λ s. kept (c.subpaths s);
    get = λ addr s.
        passed send_resource (λ r. ok (receive_resource r)) (tidy_each tidy_resource) (c.get addr s)
          (λ r. ap ok (receive_resource_lem r));
    plan = λ addr current desired s.
        rw (non_empty-or_empty current, non_empty-or_empty desired)
          (passed (map send_op) (λ ops. ok (map receive_op ops)) (map tidy_op)
            (c.plan addr (tidied current) (tidied desired) s) (λ ops. ap ok (receive_op_lem ops)));
    op_exec = λ addr op s.
        passed send_op_exec (λ r. ok (receive_op_exec r)) tidy_op_exec (c.op_exec addr op s)
          (λ r. ap ok (op_exec_lem r));
    addr_virt_to_phy =
        λ addr s. passed some with_result (λ r. r) (c.addr_virt_to_phy addr s) (λ r. refl);
    addr_phy_to_virt = λ addr s.
        passed send_phy_to_virt (λ r. ok (receive_phy_to_virt r)) (λ r. r)
          (c.addr_phy_to_virt addr s) (λ r. ap ok (phy_to_virt_lem r));
    get_skeletons = λ s. kept (c.get_skeletons s);
    get_docstring = λ addr ident s.
        passed send_doc (λ r. ok (receive_doc r)) (λ r. r) (c.get_docstring addr ident s)
          (λ r. ap ok (doc_lem r));
    eq = λ addr a b s. kept (c.eq addr a b s);
    diag = λ addr a s.
        passed send_diagnostics receive_diagnostics tidy_diagnostics (c.diag addr a s)
          diagnostics_lem;
    task_exec = λ addr body arg state s.
        rw (non_empty-or_empty arg, non_empty-or_empty state)
          (passed send_task (λ r. ok (receive_task r)) tidy_task
            (c.task_exec addr body (tidied arg) (tidied state) s) (λ r. ap ok (task_lem r)));
    unbundle = λ addr bundle s. kept (c.unbundle addr bundle s);
  }
