-- ===== src/GrpcBridge.antt =====
-- The bridge between the host and a connector in a process of its own:
-- autoschematic-core/src/grpc_bridge.rs. Here are the connector's interface, with the types of
-- autoschematic-core/src/connector.rs, and the service with the messages that the bridge exchanges. What
-- is sent arrives as it is; a path is its text, which `to_string_lossy` and `PathBuf::from` keep.
pub mod Server
pub mod Client
pub mod Tidy
pub mod Roundtrip
use autoschematic.Prelude.{
  ℕ, Bool, true, false, Option, none, some, List, [], ◌∷◌, Text, Result, ok, err, map,
}
use autoschematic.Prelude.Dict.{Dict}

-- Bytes and texts.
abbrev pub Bytes : Type 0
Bytes = List ℕ

abbrev pub PathBuf : Type 0
PathBuf = Text

pub record GetResourceResponse : Type 0 where
  pub resource_definition : Bytes
  pub virt_addr : Option PathBuf
  pub outputs : Option (Dict Text Text)

pub record PlanResponseElement : Type 0 where
  pub op_definition : Text
  pub writes_outputs : List Text
  pub friendly_message : Option Text

pub record OpExecResponse : Type 0 where
  pub outputs : Option (Dict Text (Option Text))
  pub friendly_message : Option Text

-- An address and a key.
abbrev pub ReadOutput : Type 0
ReadOutput = PathBuf × Text

pub data VirtToPhyResponse : Type 0 where
  not_present : VirtToPhyResponse
  deferred : List ReadOutput → VirtToPhyResponse
  present null : PathBuf → VirtToPhyResponse

-- An address and a body.
abbrev pub SkeletonResponse : Type 0
SkeletonResponse = PathBuf × Bytes

pub data DocIdent : Type 0 where
  struct_named : Text → DocIdent
  enum_variant field : Text → Text → DocIdent

pub record GetDocResponse : Type 0 where
  pub kind : Text
  pub markdown : Text
  pub fields : List Text

-- A line and a column.
abbrev pub DiagnosticPosition : Type 0
DiagnosticPosition = ℕ × ℕ

pub record Diagnostic : Type 0 where
  pub severity : ℕ
  pub span_start : DiagnosticPosition
  pub span_end : DiagnosticPosition
  pub message : Text

pub record TaskExecResponse : Type 0 where
  pub next_state : Option Bytes
  pub modified_files : Option (List PathBuf)
  pub outputs : Option (Dict Text (Option Text))
  pub secrets : Option (Dict PathBuf (Option Text))
  pub friendly_message : Option Text
  pub delay_until : Option ℕ

-- An address and the contents.
abbrev pub UnbundleResponseElement : Type 0
UnbundleResponseElement = PathBuf × Bytes

-- A call may fail, and it may change the state of the connector.
abbrev pub Call : Type 0 → Type 0 → Type 0 → Type 0
Call S E A = S → Result E A × S

-- The methods of a connector that the bridge passes on.
pub record Connector (S E : Type 0) : Type 0 where
  pub init : Call S E Unit
  pub version : Call S E Text
  pub filter : PathBuf → Call S E ℕ
  pub list : PathBuf → Call S E (List PathBuf)
  pub subpaths : Call S E (List PathBuf)
  pub get : PathBuf → Call S E (Option GetResourceResponse)
  pub plan : PathBuf → Option Bytes → Option Bytes → Call S E (List PlanResponseElement)
  pub op_exec : PathBuf → Text → Call S E OpExecResponse
  pub addr_virt_to_phy : PathBuf → Call S E VirtToPhyResponse
  pub addr_phy_to_virt : PathBuf → Call S E (Option PathBuf)
  pub get_skeletons : Call S E (List SkeletonResponse)
  pub get_docstring : PathBuf → DocIdent → Call S E (Option GetDocResponse)
  pub eq : PathBuf → Bytes → Bytes → Call S E Bool
  pub diag : PathBuf → Bytes → Call S E (Option (List Diagnostic))
  pub task_exec : PathBuf → Bytes → Option Bytes → Option Bytes → Call S E TaskExecResponse
  pub unbundle : PathBuf → Bytes → Call S E (List UnbundleResponseElement)

-- `Status`
pub data Status : Type 0 where
  internal invalid_argument : Text → Status

pub record GetReply : Type 0 where
  pub exists : Bool
  pub resource_definition : Bytes
  pub virt_addr : Text
  pub outputs : Dict Text Text

pub record PlanOp : Type 0 where
  pub op_definition : Text
  pub writes_outputs : List Text
  pub friendly_message : Text

pub record OpExecReply : Type 0 where
  pub outputs : Dict Text Text
  pub friendly_message : Text

-- `has_virt` and the address.
abbrev pub PhyToVirtReply : Type 0
PhyToVirtReply = Bool × Text

-- `has_doc` and the parts of the answer.
pub record GetDocReply : Type 0 where
  pub has_doc : Bool
  pub kind : Text
  pub markdown : Text
  pub fields : List Text

-- A field of a message that is itself a message may be absent.
pub record DiagnosticMessage : Type 0 where
  pub severity : ℕ
  pub span : Option (Option DiagnosticPosition × Option DiagnosticPosition)
  pub message : Text

pub record TaskExecReply : Type 0 where
  pub next_state : Bytes
  pub modified_files : List Text
  pub outputs : Dict Text Text
  pub secrets : Dict Text Text
  pub friendly_message : Text
  pub delay_until : ℕ

-- The remote procedures; a request of several parts is the list of its parts.
pub record Service (S : Type 0) : Type 0 where
  pub init : Call S Status Unit
  pub version : Call S Status Text
  pub filter : Text → Call S Status ℕ
  pub list : Text → Call S Status (List Text)
  pub subpaths : Call S Status (List Text)
  pub get : Text → Call S Status GetReply
  pub plan : Text → Bytes → Bytes → Call S Status (List PlanOp)
  pub op_exec : Text → Text → Call S Status OpExecReply
  pub addr_virt_to_phy : Text → Call S Status (Option VirtToPhyResponse)
  pub addr_phy_to_virt : Text → Call S Status PhyToVirtReply
  pub get_skeletons : Call S Status (List (Text × Bytes))
  pub get_docstring : Text → Option (Option DocIdent) → Call S Status GetDocReply
  pub eq : Text → Bytes → Bytes → Call S Status Bool
  pub diag : Text → Bytes → Call S Status (List DiagnosticMessage)
  pub task_exec : Text → Bytes → Bytes → Bytes → Call S Status TaskExecReply
  pub unbundle : Text → Bytes → Call S Status (List (Text × Bytes))

-- `unwrap_or_default`, of a list or a text.
abbrev pub or_empty : {A : Type 0} → Option (List A) → List A
or_empty none = []
or_empty (some xs) = xs

-- `if xs.is_empty() { None } else { Some(xs) }`
abbrev pub non_empty : {A : Type 0} → List A → Option (List A)
non_empty [] = none
non_empty (x ∷ xs) = some (x ∷ xs)

module _ {S E F A B : Type 0} where
  abbrev pub map_result : (E → F) → (A → Result F B) → Result E A × S → Result F B × S
  map_result on_err on_ok (ok a, s) = (on_ok a, s)
  map_result on_err on_ok (err e, s) = (err (on_err e), s)
