-- ===== src/Relay/Control.antt =====
-- crates/asm-relay/src/server.rs: a node's control connection, `register_conn`.
-- A text frame is what `serde_json` makes of it, with none where it does not decode; each frame
-- comes with the time at which it is read.
pub mod Lifetime
mod Tests
use agent_workspace.Prelude.{ℕ, String, Option, none, some, List, [], ◌∷◌, ◌==◌, if◌then◌else◌}
use agent_workspace.Relay.Nodes.{
  DownstreamInfo, Relay, register, touch, set_downstreams, disconnect,
}

abbrev pub proto_version : ℕ
proto_version = 1

pub data NodeMsg : Type 0 where
  hello : ℕ → String → String → List DownstreamInfo → NodeMsg
  downstreams : List DownstreamInfo → NodeMsg
  ping : ℕ → NodeMsg

pub data RelayMsg : Type 0 where
  pong : ℕ → RelayMsg
  open_request : String → String → RelayMsg
  error : String → RelayMsg

-- A message of the WebSocket; `other` is binary, ping or pong.
pub data Message : Type 0 where
  text : Option NodeMsg → Message
  closes : Message
  other : Message
  broken : Message

abbrev pub Timed : Type 0
Timed = ℕ × Message

-- The first text, and what follows it.
unfoldable pub next_text : List Timed → Option (Option NodeMsg × ℕ × List Timed)
next_text [] = none
next_text ((now, text t) ∷ ms) = some (t, now, ms)
next_text ((now, closes) ∷ ms) = none
next_text ((now, broken) ∷ ms) = none
next_text ((now, other) ∷ ms) = next_text ms

-- The loop over the control frames, up to the one that ends it. The replies are in order.
unfoldable pub pump : Relay → String → ℕ → List Timed → List RelayMsg × Relay
pump r node_id generation [] = ([], r)
pump r node_id generation ((now, text (some (ping seq))) ∷ ms) =
    let (sent, last) = pump (touch now r node_id generation) node_id generation ms in
    (pong seq ∷ sent, last)
pump r node_id generation ((now, text (some (downstreams ds))) ∷ ms) =
    pump (set_downstreams now r node_id generation ds) node_id generation ms
pump r node_id generation ((now, text (some (hello proto id label ds))) ∷ ms) =
    pump r node_id generation ms
pump r node_id generation ((now, text none) ∷ ms) = pump r node_id generation ms
pump r node_id generation ((now, closes) ∷ ms) = ([], r)
pump r node_id generation ((now, other) ∷ ms) = pump r node_id generation ms
pump r node_id generation ((now, broken) ∷ ms) = ([], r)

abbrev bad_hello : Relay → List RelayMsg × Relay
bad_hello r = (error "bad_hello" ∷ [], r)

abbrev pub serve_node :
    ℕ → Relay → String → String → List DownstreamInfo → List Timed → List RelayMsg × Relay
serve_node now r node_id label ds ms =
    let (generation, r') = register now r node_id label ds in
    let (sent, last) = pump r' node_id generation ms in (sent, disconnect last node_id generation)

abbrev greet : Relay → Option NodeMsg × ℕ × List Timed → List RelayMsg × Relay
greet r (some (hello proto node_id label ds), now, ms) =
    if proto == proto_version then serve_node now r node_id label ds ms else bad_hello r
greet r (some (downstreams ds), now, ms) = bad_hello r
greet r (some (ping seq), now, ms) = bad_hello r
greet r (none, now, ms) = bad_hello r

-- A whole connection, with no other one in between.
unfoldable pub register_conn : Relay → List Timed → List RelayMsg × Relay
register_conn r ms = elim (next_text ms) [ none ↦ ([], r) | some h ↦ greet r h ]
