-- ===== src/Relay/Control/Tests.antt =====
-- asm-relay's server.rs: an instance of the theorem on a control connection.
use agent_workspace.Prelude.{true, none, some, List, [], ◌∷◌}
use agent_workspace.Relay.Nodes.{DownstreamInfo}
use agent_workspace.Relay.Control.{downstreams, ping, text, closes, other, Timed}

abbrev near : DownstreamInfo
near = record { node_id = "d"; label = "near"; reachable = true }

abbrev frames : List Timed
frames =
    (2, text (some (ping 1)))
    ∷ (3, other)
    ∷ (4, text (some (downstreams (near ∷ []))))
    ∷ (5, text none)
    ∷ (6, text (some (ping 2)))
    ∷ (7, closes)
    ∷ (8, text (some (ping 3)))
    ∷ []
