-- ===== src/GrpcBridge/Tidy.antt =====
-- What a connector is behind the bridge of autoschematic-core/src/grpc_bridge.rs.
use autoschematic.Prelude.{ℕ, ◌≡◌, Option, none, some, List, [], ◌∷◌, Text, ok, map}
use autoschematic.Prelude.Dict.{Dict}
use autoschematic.GrpcBridge.{
  Bytes, PathBuf, GetResourceResponse, PlanResponseElement, OpExecResponse, DocIdent, Diagnostic,
  TaskExecResponse, Call, Connector, internal, or_empty, non_empty, map_result,
}
use autoschematic.GrpcBridge.Client.{ClientError, failed, to_severity, non_zero}

-- What is present but empty is absent.
abbrev pub tidied : {A : Type 0} → Option (List A) → Option (List A)
tidied none = none
tidied (some xs) = non_empty xs

abbrev pub tidy_resource : GetResourceResponse → GetResourceResponse
tidy_resource r = record r { virt_addr = tidied r.virt_addr; outputs = tidied r.outputs }

abbrev pub tidy_op : PlanResponseElement → PlanResponseElement
tidy_op op = record op { friendly_message = tidied op.friendly_message }

-- The entries with a value; those that say that a key is to be deleted are lost.
abbrev pub valued : Dict Text (Option Text) → Dict Text (Option Text)
valued [] = []
valued ((k, none) ∷ m) = valued m
valued ((k, some v) ∷ m) = (k, some v) ∷ valued m

abbrev pub tidy_outputs : Option (Dict Text (Option Text)) → Option (Dict Text (Option Text))
tidy_outputs none = none
tidy_outputs (some m) = non_empty (valued m)

abbrev pub tidy_op_exec : OpExecResponse → OpExecResponse
tidy_op_exec r = record {
  outputs = tidy_outputs r.outputs;
  friendly_message = tidied r.friendly_message;
}

-- The entries with a value that is not empty.
abbrev pub filled : Dict Text (Option Text) → Dict Text (Option Text)
filled [] = []
filled ((k, none) ∷ m) = filled m
filled ((k, some []) ∷ m) = filled m
filled ((k, some (c ∷ v)) ∷ m) = (k, some (c ∷ v)) ∷ filled m

-- A delay until 0 is none.
abbrev pub tidy_delay : Option ℕ → Option ℕ
tidy_delay none = none
tidy_delay (some n) = non_zero n

abbrev pub tidy_task : TaskExecResponse → TaskExecResponse
tidy_task r = record {
  next_state = tidied r.next_state;
  modified_files = tidied r.modified_files;
  outputs = some (filled (or_empty r.outputs));
  secrets = some (filled (or_empty r.secrets));
  friendly_message = tidied r.friendly_message;
  delay_until = tidy_delay r.delay_until;
}

abbrev pub tidy_diagnostic : Diagnostic → Diagnostic
tidy_diagnostic d = record d { severity = to_severity d.severity }

abbrev pub tidy_diagnostics : Option (List Diagnostic) → Option (List Diagnostic)
tidy_diagnostics none = none
tidy_diagnostics (some ds) = non_empty (map tidy_diagnostic ds)

abbrev pub tidy_each : {A : Type 0} → (A → A) → Option A → Option A
tidy_each f none = none
tidy_each f (some a) = some (f a)

module _ {S E : Type 0} (to_text : E → Text) where
  abbrev pub told : {A B : Type 0} → (A → B) → Call S E A → Call S ClientError B
  told f call s = map_result (λ e. failed (internal (to_text e))) (λ a. ok (f a)) (call s)

  -- The connector with arguments and answers that are tidied up, and its errors as texts.
  abbrev pub tidy : Connector S E → Connector S ClientError
  tidy c = record {
    init = told (λ u. u) c.init;
    version = told (λ v. v) c.version;
    filter = λ addr. told (λ n. n) (c.filter addr);
    list = λ subpath. told (λ ps. ps) (c.list subpath);
    subpaths = told (λ ps. ps) c.subpaths;
    get = λ addr. told (tidy_each tidy_resource) (c.get addr);
    plan =
        λ addr current desired. told (map tidy_op) (c.plan addr (tidied current) (tidied desired));
    op_exec = λ addr op. told tidy_op_exec (c.op_exec addr op);
    addr_virt_to_phy = λ addr. told (λ r. r) (c.addr_virt_to_phy addr);
    addr_phy_to_virt = λ addr. told (λ r. r) (c.addr_phy_to_virt addr);
    get_skeletons = told (λ l. l) c.get_skeletons;
    get_docstring = λ addr ident. told (λ r. r) (c.get_docstring addr ident);
    eq = λ addr a b. told (λ e. e) (c.eq addr a b);
    diag = λ addr a. told tidy_diagnostics (c.diag addr a);
    task_exec =
        λ addr body arg state. told tidy_task (c.task_exec addr body (tidied arg) (tidied state));
    unbundle = λ addr bundle. told (λ l. l) (c.unbundle addr bundle);
  }

-- Two connectors answer alike.
pub record AgreesWith {S E : Type 0} (c d : Connector S E) : Type 0 where
  pub init : (s : S) → c.init s ≡ d.init s
  pub version : (s : S) → c.version s ≡ d.version s
  pub filter : (addr : PathBuf) (s : S) → c.filter addr s ≡ d.filter addr s
  pub list : (subpath : PathBuf) (s : S) → c.list subpath s ≡ d.list subpath s
  pub subpaths : (s : S) → c.subpaths s ≡ d.subpaths s
  pub get : (addr : PathBuf) (s : S) → c.get addr s ≡ d.get addr s
  pub plan :
      (addr : PathBuf) (current desired : Option Bytes) (s : S)
      → c.plan addr current desired s ≡ d.plan addr current desired s
  pub op_exec : (addr : PathBuf) (op : Text) (s : S) → c.op_exec addr op s ≡ d.op_exec addr op s
  pub addr_virt_to_phy :
      (addr : PathBuf) (s : S) → c.addr_virt_to_phy addr s ≡ d.addr_virt_to_phy addr s
  pub addr_phy_to_virt :
      (addr : PathBuf) (s : S) → c.addr_phy_to_virt addr s ≡ d.addr_phy_to_virt addr s
  pub get_skeletons : (s : S) → c.get_skeletons s ≡ d.get_skeletons s
  pub get_docstring :
      (addr : PathBuf) (ident : DocIdent) (s : S)
      → c.get_docstring addr ident s ≡ d.get_docstring addr ident s
  pub eq : (addr : PathBuf) (a b : Bytes) (s : S) → c.eq addr a b s ≡ d.eq addr a b s
  pub diag : (addr : PathBuf) (a : Bytes) (s : S) → c.diag addr a s ≡ d.diag addr a s
  pub task_exec :
      (addr : PathBuf) (body : Bytes) (arg state : Option Bytes) (s : S)
      → c.task_exec addr body arg state s ≡ d.task_exec addr body arg state s
  pub unbundle :
      (addr : PathBuf) (bundle : Bytes) (s : S)
      → c.unbundle addr bundle s ≡ d.unbundle addr bundle s
