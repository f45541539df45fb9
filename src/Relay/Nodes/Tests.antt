-- ===== src/Relay/Nodes/Tests.antt =====
-- asm-relay's server.rs: instances of the theorems.
use agent_workspace.Prelude.{◌≡◌, refl, true, false, some, [], ◌∷◌, arith, lookup}
use agent_workspace.Relay.Nodes.{
  DownstreamInfo, NodeState, Relay, Route, register, route, find_gateway, find_downstream,
  ctrl_if_online, refused, asked, open_stream,
}
use agent_workspace.Relay.Nodes.Takeover.{touches, sets, disconnects, act_all, register-act_all}
use agent_workspace.Relay.Nodes.Routing.{open_stream_asked}

abbrev near : DownstreamInfo
near = record { node_id = "d"; label = "near"; reachable = true }

abbrev gate : NodeState
gate = record {
  label = "gate";
  downstreams = near ∷ [];
  last_seen = 100;
  connected = true;
  generation = 3;
}

abbrev relay : Relay
relay = record { nodes = ("g", gate) ∷ []; pending = []; next_gen = 4 }

abbrev via_gate : Route
via_gate = record { via = "g"; target = "d"; is_downstream = true; reachable = true }

register-act_all_example :
    let (g, r') = register 200 relay "g" "again" [] in
    lookup "g"
      (act_all r' (sets 210 "g" 3 (near ∷ []) ∷ touches 220 "g" 2 ∷ disconnects "g" 3 ∷ [])).nodes
    ≡ some (record {
      label = "again";
      downstreams = [];
      last_seen = 200;
      connected = true;
      generation = g;
    })
register-act_all_example =
    register-act_all 200 relay "g" "again" []
      (sets 210 "g" 3 (near ∷ []) ∷ touches 220 "g" 2 ∷ disconnects "g" 3 ∷ [])
      (omega arith, (omega arith, (omega arith, tt)))

open_stream_asked_example :
    let (o, r') = open_stream 200 true relay "d" "x" 5 in
    (elim o [ refused e ↦ false | asked ctrl rt ↦ true ] ≡ true) × (lookup "x" r'.pending ≡ some 5)
unfolding lookup route find_gateway find_downstream open_stream ctrl_if_online
open_stream_asked_example = open_stream_asked 200 true relay "d" "x" "x" 5 (refl, tt) refl

abbrev waiting : Relay
waiting = record relay { pending = ("x", 5) ∷ [] }
