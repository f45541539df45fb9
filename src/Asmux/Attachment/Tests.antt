-- ===== src/Asmux/Attachment/Tests.antt =====
-- crates/asmux/src/server.rs: instances of the theorems on attaching.
use agent_workspace.Prelude.{ℕ, ◌≡◌, refl, some, [], ◌∷◌, arith, lookup, map_option}
use agent_workspace.Asmux.Wire.{session_detached, superseded}
use agent_workspace.Asmux.Server.{StreamTask}
use agent_workspace.Asmux.Attachment.{start_cursor, handle_attach}
use agent_workspace.Asmux.Attachment.Takeover.{frames_to, attacher_of, handle_attach_takeover}
use agent_workspace.Asmux.Samples.{session, server, other, earliest_request}

handle_attach_takeover_example :
    let r = handle_attach server other (some earliest_request) in
    (attacher_of r.server "s" ≡ some (record { conn_id = 2; cancel = 8 }))
    × (lookup "s" r.conn.streams ≡ some 8)
    × (map_option {B = ℕ × ℕ} (λ (t : StreamTask). (t.cursor, t.cancel)) r.stream ≡ some (2, 8))
    × (frames_to 1 r.sent ≡ session_detached "s" superseded 6 ∷ [])
    × (r.cancelled ≡ 7 ∷ [])
unfolding lookup start_cursor
handle_attach_takeover_example =
    handle_attach_takeover server other earliest_request session 2 1 refl refl (omega arith)
