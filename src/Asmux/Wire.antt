-- ===== src/Asmux/Wire.antt =====
-- The messages that crates/asmux/src/server.rs exchanges. The FlatBuffers code is generated: a
-- request here is what its accessors return, with `none` where one gives nothing, and a frame is
-- the message that the encoder is given.
use agent_workspace.Prelude.{
  ℕ, String, Option, none, some, List, [], ◌∷◌, str_eq, if◌then◌else◌, unwrap_or, ℤ,
}
use agent_workspace.Asmux.Session.{SessionRecord}

-- The codes of an `Error` frame (`frame::code`).
pub data Code : Type 0 where
  unknown_session session_not_alive session_alive buffer_gap invalid_argument spawn_failed : Code
  alloc_failed capacity_out_of_range protocol_mismatch not_attached frame_too_large internal : Code
  session_exists input_overflow memory_limit : Code

pub data DetachReason : Type 0 where
  superseded backpressure : DetachReason

pub data Frame : Type 0 where
  hello_response : ℕ → ℤ → String → ℕ → ℕ → ℕ → String → Frame
  create_response : ℕ → SessionRecord → Frame
  kill_response : ℕ → Frame
  purge_response : ℕ → Frame
  list_response : ℕ → List SessionRecord → Frame
  update_metadata_response : ℕ → SessionRecord → Frame
  resize_response : ℕ → Frame
  read_buffer_response : ℕ → ℕ → ℕ → List ℕ → Frame
  attach_response : ℕ → ℕ → Frame
  detach_response : ℕ → Frame
  session_exited : String → ℤ → ℤ → ℕ → Frame
  session_detached : String → DetachReason → ℕ → Frame
  session_output : String → ℕ → List ℕ → Frame
  error : ℕ → Code → Option String → ℕ → Frame

pub data AttachMode : Type 0 where
  live_only from_earliest from_cursor : AttachMode

pub record HelloRequest : Type 0 where
  pub rpc_id : Option ℕ
  pub protocol_min : Option ℕ
  pub protocol_max : Option ℕ

-- A key and a value as the accessors return them; the whole is `none` where it does not decode.
abbrev pub Kv : Type 0
Kv = Option (Option String × Option String)

pub record CreateRequest : Type 0 where
  pub rpc_id : Option ℕ
  pub session_id : Option String
  pub command : Option String
  pub args : List (Option String)
  pub cwd : Option String
  pub env : List Kv
  pub cols : Option ℕ
  pub rows : Option ℕ
  pub ring_capacity : Option ℕ
  pub metadata : List Kv

pub record SessionRequest : Type 0 where
  pub rpc_id : Option ℕ
  pub session_id : Option String

pub record KillRequest : Type 0 where
  pub target : SessionRequest
  pub signal : Option ℤ

pub record UpdateMetadataRequest : Type 0 where
  pub target : SessionRequest
  pub patch : List Kv

pub record ResizeRequest : Type 0 where
  pub target : SessionRequest
  pub cols : Option ℕ
  pub rows : Option ℕ

pub record ReadBufferRequest : Type 0 where
  pub target : SessionRequest
  pub from_cursor : Option ℕ
  pub max_bytes : Option ℕ

pub record AttachRequest : Type 0 where
  pub target : SessionRequest
  pub mode : Option AttachMode
  pub from_cursor : Option ℕ

pub record SessionInput : Type 0 where
  pub session_id : Option String
  pub input : Option (List ℕ)

unfoldable pub read_string_vec : List (Option String) → List String
read_string_vec [] = []
read_string_vec (none ∷ v) = read_string_vec v
read_string_vec (some s ∷ v) = s ∷ read_string_vec v

unfoldable pub read_kv_pairs : List Kv → List (String × String)
read_kv_pairs [] = []
read_kv_pairs (none ∷ v) = read_kv_pairs v
read_kv_pairs (some (k, x) ∷ v) = (unwrap_or "" k, unwrap_or "" x) ∷ read_kv_pairs v

-- A value sets the key, also to the empty text; none deletes it. An empty key is passed over.
unfoldable pub read_kv_patch : List Kv → List (String × Option String)
read_kv_patch [] = []
read_kv_patch (none ∷ v) = read_kv_patch v
read_kv_patch (some (k, x) ∷ v) =
    let rest = read_kv_patch v in
    if str_eq (unwrap_or "" k) "" then rest else (unwrap_or "" k, x) ∷ rest

-- The rpc that a frame answers; an event and an error about no rpc answer 0.
abbrev pub rpc_of : Frame → ℕ
rpc_of (hello_response rpc pid sha protocol count started instance_id) = rpc
rpc_of (create_response rpc s) = rpc
rpc_of (kill_response rpc) = rpc
rpc_of (purge_response rpc) = rpc
rpc_of (list_response rpc ss) = rpc
rpc_of (update_metadata_response rpc s) = rpc
rpc_of (resize_response rpc) = rpc
rpc_of (read_buffer_response rpc from head input) = rpc
rpc_of (attach_response rpc head) = rpc
rpc_of (detach_response rpc) = rpc
rpc_of (session_exited sid code signal head) = 0
rpc_of (session_detached sid reason last) = 0
rpc_of (session_output sid head input) = 0
rpc_of (error rpc code sid earliest) = rpc
