-- ===== src/Relay/Nodes.antt =====
-- crates/asm-relay/src/server.rs: the registry of nodes, and the routing of proxied requests.
-- Times are in nanoseconds of the system clock. A control channel is the generation of the
-- registration that made it, and a waiting request is a number. The order in which the maps are
-- walked is that of the association list.
pub mod Takeover
pub mod Routing
mod Tests
use agent_workspace.Prelude.{
  ℕ, ◌-◌, ◌*◌, ◌^◌, String, Bool, true, false, not, ◌&&◌, Option, none, some, List, [], ◌∷◌, ◌++◌,
  str_eq, ltb, leb, ◌==◌, if◌then◌else◌, Assoc, lookup, insert, remove, adjust, map, contains,
  wrap_add,
}

-- From crates/asm-relay/src/protocol.rs.
abbrev pub offline_after : ℕ
offline_after = 45 * 10 ^ 9

pub record DownstreamInfo : Type 0 where
  pub node_id : String
  pub label : String
  pub reachable : Bool

pub data NodeKind : Type 0 where
  leaf gateway : NodeKind

pub record NodeEntry : Type 0 where
  pub node_id : String
  pub label : String
  pub kind : NodeKind
  pub via : Option String
  pub online : Bool
  pub last_seen : ℕ

pub data RelayError : Type 0 where
  unauthorized unknown_node node_offline downstream_unreachable : RelayError

pub record NodeState : Type 0 where
  pub label : String
  pub downstreams : List DownstreamInfo
  pub last_seen : ℕ
  pub connected : Bool
  pub generation : ℕ

-- A clock that was set back gives no elapsed time, and the node is offline.
abbrev pub is_online : ℕ → NodeState → Bool
is_online now s = s.connected && (leb s.last_seen now && ltb (now - s.last_seen) offline_after)

abbrev pub kind_of : NodeState → NodeKind
kind_of s = elim s.downstreams [ [] ↦ leaf | d ∷ ds ↦ gateway ]

pub record Route : Type 0 where
  pub via : String
  pub target : String
  pub is_downstream : Bool
  pub reachable : Bool

pub record Relay : Type 0 where
  pub nodes : Assoc NodeState
  pub pending : Assoc ℕ
  pub next_gen : ℕ

abbrev pub new : Relay
new = record { nodes = []; pending = []; next_gen = 1 }

-- `fetch_add` wraps. The registration's generation is returned.
unfoldable pub register : ℕ → Relay → String → String → List DownstreamInfo → ℕ × Relay
register now r node_id label downstreams = (
  r.next_gen,
  record r {
    next_gen = wrap_add r.next_gen 1;
    nodes =
        insert node_id
          (record {
            label = label;
            downstreams = downstreams;
            last_seen = now;
            connected = true;
            generation = r.next_gen;
          })
          r.nodes;
  },
)

-- A change to the node's entry, if it is still of this generation.
abbrev pub if_current : ℕ → (NodeState → NodeState) → NodeState → NodeState
if_current generation f s = if s.generation == generation then f s else s

unfoldable pub touch : ℕ → Relay → String → ℕ → Relay
touch now r node_id generation = record r {
  nodes = adjust node_id (if_current generation (λ s. record s { last_seen = now })) r.nodes;
}

unfoldable pub set_downstreams : ℕ → Relay → String → ℕ → List DownstreamInfo → Relay
set_downstreams now r node_id generation ds = record r {
  nodes =
      adjust node_id (if_current generation (λ s. record s { downstreams = ds; last_seen = now }))
        r.nodes;
}

unfoldable pub disconnect : Relay → String → ℕ → Relay
disconnect r node_id generation = record r {
  nodes = adjust node_id (if_current generation (λ s. record s { connected = false })) r.nodes;
}

-- `downstreams.iter().find(...)`
unfoldable pub find_downstream : String → List DownstreamInfo → Option DownstreamInfo
find_downstream node_id [] = none
find_downstream node_id (d ∷ ds) =
    let rest = find_downstream node_id ds in if str_eq d.node_id node_id then some d else rest

unfoldable pub find_gateway : String → Assoc NodeState → Option Route
find_gateway node_id [] = none
find_gateway node_id ((gw_id, st) ∷ nodes) =
    let rest = find_gateway node_id nodes in
    elim (find_downstream node_id st.downstreams) [
      | none ↦ rest
      | some d ↦
          some (record {
            via = gw_id;
            target = node_id;
            is_downstream = true;
            reachable = d.reachable;
          })
    ]

unfoldable pub route : Relay → String → Option Route
route r node_id =
    if contains node_id r.nodes
    then some (record { via = node_id; target = node_id; is_downstream = false; reachable = true })
    else find_gateway node_id r.nodes

-- The control channel of a node, if it is online.
unfoldable pub ctrl_if_online : ℕ → Relay → String → Option ℕ
ctrl_if_online now r node_id = elim (lookup node_id r.nodes) [
  | none ↦ none
  | some s ↦ if is_online now s then some s.generation else none
]

unfoldable pub take_pending : Relay → String → Option ℕ × Relay
take_pending r stream_id =
    (lookup stream_id r.pending, record r { pending = remove stream_id r.pending })

abbrev pub downstream_entry : ℕ → String → NodeState → DownstreamInfo → NodeEntry
downstream_entry now id st d = record {
  node_id = d.node_id;
  label = d.label;
  kind = leaf;
  via = some id;
  online = is_online now st && d.reachable;
  last_seen = st.last_seen;
}

abbrev pub node_entry : ℕ → String → NodeState → NodeEntry
node_entry now id st = record {
  node_id = id;
  label = st.label;
  kind = kind_of st;
  via = none;
  online = is_online now st;
  last_seen = st.last_seen;
}

unfoldable pub snapshot : ℕ → Assoc NodeState → List NodeEntry
snapshot now [] = []
snapshot now ((id, st) ∷ nodes) =
    node_entry now id st ∷ map (downstream_entry now id st) st.downstreams ++ snapshot now nodes

-- How `proxy` goes: refused, or waiting for the node that was asked to dial back for the target.
pub data Opened : Type 0 where
  refused : RelayError → Opened
  asked : ℕ → Route → Opened

-- The error to surface when the routed node fails to produce a stream.
abbrev pub unreachable : Route → RelayError
unreachable rt = if rt.is_downstream then downstream_unreachable else node_offline

-- `proxy` up to the wait. `is_sent` is whether the control channel takes the `Open`.
unfoldable pub open_stream : ℕ → Bool → Relay → String → String → ℕ → Opened × Relay
open_stream now is_sent r node_id stream_id waiter = elim (route r node_id) [
  | none ↦ (refused unknown_node, r)
  | some rt ↦ elim (ctrl_if_online now r rt.via) [
    | none ↦ (refused node_offline, r)
    | some ctrl ↦
        if rt.is_downstream && not rt.reachable
        then (refused downstream_unreachable, r)
        else if is_sent
        then (asked ctrl rt, record r { pending = insert stream_id waiter r.pending })
        else (
          refused node_offline,
          record r { pending = remove stream_id (insert stream_id waiter r.pending) },
        )
  ]
]

-- `proxy` after the wait: `dialled` is whether the data stream came in time, and `forwarded`
-- whether the request went through it.
unfoldable pub finish_stream : Bool → Bool → Relay → Route → String → Option RelayError × Relay
finish_stream dialled forwarded r rt stream_id =
    if dialled
    then (if forwarded then none else some (unreachable rt), r)
    else (some (unreachable rt), record r { pending = remove stream_id r.pending })
