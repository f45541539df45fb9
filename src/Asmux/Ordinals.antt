-- ===== src/Asmux/Ordinals.antt =====
-- crates/asmux/src/frame.rs: the ordinals of the frames that a client sends (`frame::ord`).
use agent_workspace.Prelude.{ℕ}

abbrev pub hello_request : ℕ
hello_request = 0

abbrev pub create_request : ℕ
create_request = 2

abbrev pub kill_request : ℕ
kill_request = 4

abbrev pub purge_request : ℕ
purge_request = 6

abbrev pub list_request : ℕ
list_request = 8

abbrev pub update_metadata_request : ℕ
update_metadata_request = 10

abbrev pub resize_request : ℕ
resize_request = 12

abbrev pub read_buffer_request : ℕ
read_buffer_request = 14

abbrev pub attach_request : ℕ
attach_request = 16

abbrev pub detach_request : ℕ
detach_request = 20

abbrev pub session_input : ℕ
session_input = 300

abbrev pub heartbeat : ℕ
heartbeat = 400
