-- ===== src/Asmux/Samples.antt =====
-- A small server and its connections, on which the runs and the instances are evaluated.
use agent_workspace.Prelude.{ℕ, refl, true, false, none, some, List, [], ◌∷◌, arith, lookup, pos}
use agent_workspace.Asmux.Ring.{Ring}
use agent_workspace.Asmux.Ring.History.{Holds}
use agent_workspace.Asmux.Session.{Session, exited}
use agent_workspace.Asmux.Session.Spawn.{SpawnSpec, started_session}
use agent_workspace.Asmux.Registry.Totals.{total}
use agent_workspace.Asmux.Registry.Eviction.{IsRegistry}
use agent_workspace.Asmux.Dispatch.Sizes.{IsSound, all_in_range}
use agent_workspace.Asmux.Wire.{
  from_earliest, from_cursor, HelloRequest, CreateRequest, SessionRequest, UpdateMetadataRequest,
  ReadBufferRequest, AttachRequest, SessionInput,
}
use agent_workspace.Asmux.Server.{Server, Conn, World, StreamTask}
use agent_workspace.Asmux.Dispatch.{Decoders}

abbrev pub spec : SpawnSpec
spec = record {
  session_id = "s";
  command = "sh";
  args = [];
  cwd = "";
  env = [];
  cols = 80;
  rows = 24;
  ring_capacity = 4;
  metadata = [];
  fingerprint = 1;
  created_at_unix_ms = 0;
}

-- Six bytes have been written to a ring of four; connection 1 is attached.
abbrev pub sent : List ℕ
sent = 1 ∷ 2 ∷ 3 ∷ 4 ∷ 5 ∷ 6 ∷ []

abbrev pub ring : Ring
ring = record { cap = 4; buf = 3 ∷ 4 ∷ 5 ∷ 6 ∷ []; head = 6 }

pub ring-Holds : Holds ring sent
ring-Holds = record {
  valid = record { small = omega arith; bounded = omega arith; counted = omega arith };
  counts = refl;
  holds = refl;
}

abbrev pub session : Session
session = record (started_session spec (pos 100)) {
  ring = ring;
  attacher = some (record { conn_id = 1; cancel = 7 });
}

abbrev pub server : Server
server = record {
  registry = record {
    sessions = ("s", session) ∷ [];
    used_bytes = 4;
    tick = 1;
    access = ("s", 1) ∷ [];
    instance_id = "i";
    started_at_unix_ms = 0;
    limit = 64;
  };
  server_pid = pos 1;
  binary_sha256 = "";
  next_cancel = 8;
}

-- The same, with a ring of a capacity that a create allows.
abbrev pub wide : Server
wide = record server {
  registry = record server.registry {
    sessions = ("s", record session { ring = record { cap = 16384; buf = []; head = 0 } }) ∷ [];
    used_bytes = 16384;
    limit = 32768;
  };
}

wide-IsRegistry : IsRegistry wide.registry
unfolding total lookup
wide-IsRegistry = record {
  unique = (refl, tt);
  accounted = refl;
  within = omega arith;
  small = omega arith;
}

pub wide-IsSound : IsSound wide.registry
unfolding all_in_range
wide-IsSound = record { registry = wide-IsRegistry; sizes = refl }

abbrev pub owner : Conn
owner = record { id = 1; hello_done = true; streams = ("s", 7) ∷ [] }

abbrev pub other : Conn
other = record { id = 2; hello_done = true; streams = [] }

abbrev pub fresh : Conn
fresh = record { id = 3; hello_done = false; streams = [] }

abbrev pub world : World
world = record {
  new_uuid = "u";
  now_ms = 0;
  os = record {
    openpty_error = none;
    spawn_error = none;
    child_pid = some 100;
    reader_error = none;
    writer_error = none;
    waiter_error = none;
    reader_thread_error = none;
    writer_thread_error = none;
  };
  fingerprint = λ command args cwd env. 1;
  is_unix = true;
  is_signal = λ n. true;
  resize_accepted = true;
  split = 2;
}

abbrev pub target : SessionRequest
target = record { rpc_id = some 5; session_id = some "s" }

abbrev pub earliest_request : AttachRequest
earliest_request = record { target = target; mode = some from_earliest; from_cursor = none }

abbrev pub stale_request : AttachRequest
stale_request = record { target = target; mode = some from_cursor; from_cursor = some 1 }

abbrev pub input_request : SessionInput
input_request = record { session_id = some "s"; input = some (9 ∷ []) }

abbrev pub hello_request : HelloRequest
hello_request = record { rpc_id = some 4; protocol_min = some 1; protocol_max = some 2 }

abbrev pub small_create : CreateRequest
small_create = record {
  rpc_id = some 6;
  session_id = some "t";
  command = some "sh";
  args = [];
  cwd = none;
  env = [];
  cols = none;
  rows = none;
  ring_capacity = some 4;
  metadata = [];
}

abbrev pub buffer_request : ReadBufferRequest
buffer_request = record { target = target; from_cursor = some 3; max_bytes = some 2 }

abbrev pub patch_request : UpdateMetadataRequest
patch_request = record { target = target; patch = some (some "k", some "v") ∷ [] }

-- Each body decodes as the request of the test, where there is one.
abbrev pub decoders : Decoders
decoders = record {
  as_hello = λ body. some hello_request;
  as_create = λ body. some small_create;
  as_kill = λ body. none;
  as_purge = λ body. some target;
  as_list = λ body. some (some 9);
  as_update_metadata = λ body. some patch_request;
  as_resize = λ body. none;
  as_read_buffer = λ body. some buffer_request;
  as_attach = λ body. some earliest_request;
  as_detach = λ body. some target;
  as_input = λ body. some input_request;
}

abbrev pub task : StreamTask
task = record { sid = "s"; cursor = 2; cancel = 7; is_live_attach = true; reported_drops = 0 }

abbrev pub tombstone : Session
tombstone = record session { status = exited (pos 3) (pos 0) }

abbrev pub caught : StreamTask
caught = record task { cursor = 6 }
