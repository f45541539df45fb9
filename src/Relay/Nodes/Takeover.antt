-- ===== src/Relay/Nodes/Takeover.antt =====
-- asm-relay's server.rs: a node that registers again is not disturbed by its earlier connections.
use agent_workspace.Prelude.{
  ℕ, ◌<◌, String, ◌≡◌, true, false, some, List, [], ◌∷◌, arith, eq_iff, lookup, adjust,
  lookup-insert, lookup-adjust,
}
use agent_workspace.Relay.Nodes.{
  DownstreamInfo, NodeState, Relay, register, touch, set_downstreams, disconnect, if_current,
}

-- What a control connection of an earlier registration may still do.
pub data Late : Type 0 where
  touches : ℕ → String → ℕ → Late
  sets : ℕ → String → ℕ → List DownstreamInfo → Late
  disconnects : String → ℕ → Late

abbrev pub generation_of : Late → ℕ
generation_of (touches now id g) = g
generation_of (sets now id g ds) = g
generation_of (disconnects id g) = g

unfoldable pub act : Relay → Late → Relay
act r (touches now id g) = touch now r id g
act r (sets now id g ds) = set_downstreams now r id g ds
act r (disconnects id g) = disconnect r id g

unfoldable pub act_all : Relay → List Late → Relay
act_all r [] = r
act_all r (l ∷ ls) = act_all (act r l) ls

abbrev pub Before : ℕ → List Late → Type 0
Before g [] = Unit
Before g (l ∷ ls) = (generation_of l < g) × Before g ls

adjusted :
    (r : Relay) (id k : String) (g : ℕ) (f : NodeState → NodeState) (s : NodeState)
    → lookup k r.nodes ≡ some s
    → g < s.generation
    → lookup k (adjust id (if_current g f) r.nodes) ≡ some s
adjusted r id k g f s e older = ground (arith, lookup-adjust id k (if_current g f) r.nodes)

act_inert :
    (r : Relay) (l : Late) (k : String) (s : NodeState)
    → lookup k r.nodes ≡ some s
    → generation_of l < s.generation
    → lookup k (act r l).nodes ≡ some s
unfolding act touch set_downstreams disconnect
act_inert r (touches now id g) k s e older =
    adjusted r id k g (λ t. record t { last_seen = now }) s e older
act_inert r (sets now id g ds) k s e older =
    adjusted r id k g (λ t. record t { downstreams = ds; last_seen = now }) s e older
act_inert r (disconnects id g) k s e older =
    adjusted r id k g (λ t. record t { connected = false }) s e older

act_all_inert :
    (r : Relay) (ls : List Late) (k : String) (s : NodeState)
    → lookup k r.nodes ≡ some s
    → Before s.generation ls
    → lookup k (act_all r ls).nodes ≡ some s
unfolding act_all
act_all_inert r [] k s e older = e
act_all_inert r (l ∷ ls) k s e older =
    act_all_inert (act r l) ls k s (act_inert r l k s e older.0) older.1

-- Once a node has registered, nothing that control connections of earlier generations do, in any
-- order, changes its entry: it stays connected, with the label and the downstreams of this
-- registration.
pub register-act_all :
    (now : ℕ) (r : Relay) (id label : String) (ds : List DownstreamInfo) (ls : List Late)
    → Before r.next_gen ls
    → let (g, r') = register now r id label ds in
      lookup id (act_all r' ls).nodes
      ≡ some (record {
        label = label;
        downstreams = ds;
        last_seen = now;
        connected = true;
        generation = g;
      })
unfolding register
register-act_all now r id label ds ls older =
    let s : NodeState = record {
      label = label;
      downstreams = ds;
      last_seen = now;
      connected = true;
      generation = r.next_gen;
    } in
    act_all_inert (register now r id label ds).1 ls id s
      (ground (arith, lookup-insert id id s r.nodes, eq_iff id id)) older
