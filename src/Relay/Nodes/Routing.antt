-- ===== src/Relay/Nodes/Routing.antt =====
-- asm-relay's server.rs: which node serves a request, and what a client is told.
use agent_workspace.Prelude.{
  ℕ, suc, ◌+◌, String, ◌≡◌, refl, ap, ◌∙◌, inl, inr, Bool, true, false, not, ◌&&◌, ◌||◌, Option,
  none, some, List, [], ◌∷◌, ◌++◌, arith, str_eq, eq_iff, if◌then◌else◌, Option-cases, length,
  length-append, Assoc, lookup, insert, lookup-insert, lookup-remove, map, map_option, is_some,
  IsUnique, contains,
}
use agent_workspace.Relay.Nodes.{
  DownstreamInfo, NodeEntry, NodeState, Route, Relay, is_online, find_downstream, find_gateway,
  route, ctrl_if_online, snapshot, downstream_entry, Opened, refused, asked, unreachable,
  open_stream, finish_stream,
}

-- Whether a gateway in the list advertises the node.
unfoldable pub advertised : String → Assoc NodeState → Bool
advertised node_id [] = false
advertised node_id ((gw, st) ∷ nodes) =
    let rest = advertised node_id nodes in is_some (find_downstream node_id st.downstreams) || rest

found_id :
    (node_id : String) (ds : List DownstreamInfo) (d : DownstreamInfo)
    → find_downstream node_id ds ≡ some d
    → d.node_id ≡ node_id
unfolding find_downstream
found_id node_id [] d e = cc
found_id node_id (a ∷ ds) d e = ground (arith, found_id node_id ds d, eq_iff a.node_id node_id)

gateway_found :
    (node_id : String) (nodes : Assoc NodeState)
    → is_some (find_gateway node_id nodes) ≡ advertised node_id nodes
unfolding find_gateway advertised
gateway_found node_id [] = refl
gateway_found node_id ((gw, st) ∷ nodes) = ground (arith, gateway_found node_id nodes)

-- A request finds a route exactly when its node is registered or some node advertises it.
pub route_found :
    (r : Relay) (node_id : String)
    → is_some (route r node_id) ≡ contains node_id r.nodes || advertised node_id r.nodes
unfolding route
route_found r node_id = ground (arith, gateway_found node_id r.nodes)

-- What a node last heard of a downstream that it advertises.
abbrev pub heard : Assoc NodeState → String → String → Option Bool
heard nodes via node_id = elim (lookup via nodes) [
  | none ↦ none
  | some st ↦
      map_option (λ (d : DownstreamInfo). d.reachable) (find_downstream node_id st.downstreams)
]

gateway_sound :
    (node_id : String) (nodes : Assoc NodeState) (rt : Route)
    → IsUnique nodes
    → find_gateway node_id nodes ≡ some rt
    → (rt.target ≡ node_id)
      × (rt.is_downstream ≡ true)
      × (heard nodes rt.via node_id ≡ some rt.reachable)
unfolding find_gateway lookup
gateway_sound node_id [] rt u e = cc
gateway_sound node_id ((gw, st) ∷ nodes) rt u e =
    elim (Option-cases (find_downstream node_id st.downstreams)) [
      | inl absent ↦ ground (arith, gateway_sound node_id nodes rt u.1, eq_iff gw rt.via, u.0)
      | inr (d, found) ↦ ground (arith, eq_iff gw gw)
    ]

-- Where the node ids are unique, the route of a registered node goes to that node itself; any other
-- goes through a registered node that advertises the target, with what that node last heard of it.
pub route_sound :
    (r : Relay) (node_id : String) (rt : Route)
    → IsUnique r.nodes
    → route r node_id ≡ some rt
    → (rt.target ≡ node_id)
      × (rt.is_downstream ≡ not (contains node_id r.nodes))
      × ((if rt.is_downstream then heard r.nodes rt.via node_id else some true) ≡ some rt.reachable)
      × (contains rt.via r.nodes ≡ true)
unfolding route
route_sound r node_id rt u e = ground (arith, gateway_sound node_id r.nodes rt u)

abbrev is_asked : Opened → Bool
is_asked (asked ctrl rt) = true
is_asked (refused e) = false

abbrev is_online_at : ℕ → Relay → String → Bool
is_online_at now r via = elim (lookup via r.nodes) [ none ↦ false | some st ↦ is_online now st ]

-- Where the node ids are unique and the stream's id is new, a request has its node dial back
-- exactly when it has a route, through a node that is online and has not found the target
-- unreachable, and the node's channel takes the message. A request that is refused leaves no
-- waiting stream behind.
pub open_stream_asked :
    (now : ℕ) (is_sent : Bool) (r : Relay) (node_id stream_id k : String) (waiter : ℕ)
    → IsUnique r.nodes
    → lookup stream_id r.pending ≡ none
    → let (o, r') = open_stream now is_sent r node_id stream_id waiter in
      (is_asked o ≡ (elim (route r node_id) [
        | none ↦ false
        | some rt ↦ is_online_at now r rt.via && (rt.reachable && is_sent)
      ]))
      × (lookup k r'.pending
          ≡ (if is_asked o && str_eq stream_id k then some waiter else lookup k r.pending))
unfolding open_stream ctrl_if_online
open_stream_asked now is_sent r node_id stream_id k waiter u absent =
    elim (Option-cases (route r node_id)) [
      | inl e ↦ ground arith
      | inr (rt, e) ↦ ground (
        arith,
        route_sound r node_id rt u e,
        lookup-insert stream_id k waiter r.pending,
        lookup-remove stream_id k (insert stream_id waiter r.pending),
        eq_iff stream_id k,
      )
    ]

-- A wait that ends without a data stream takes its entry away, and every other one stays.
pub finish_stream_pending :
    (dialled forwarded : Bool) (r : Relay) (rt : Route) (stream_id k : String)
    → let (e, r') = finish_stream dialled forwarded r rt stream_id in
      (lookup k r'.pending
        ≡ (if not dialled && str_eq stream_id k then none else lookup k r.pending))
      × (e ≡ (if dialled && forwarded then none else some (unreachable rt)))
unfolding finish_stream
finish_stream_pending dialled forwarded r rt stream_id k =
    ground (arith, lookup-remove stream_id k r.pending)

-- The entries of a snapshot that name the node itself, not a gateway that reaches it.
unfoldable pub direct : List NodeEntry → List (String × Bool)
direct [] = []
direct (e ∷ es) =
    let rest = direct es in if is_some e.via then rest else (e.node_id, e.online) ∷ rest

direct-append : (es fs : List NodeEntry) → direct (es ++ fs) ≡ direct es ++ direct fs
unfolding direct
direct-append [] fs = refl
direct-append (e ∷ es) fs = ground (arith, direct-append es fs)

direct-downstreams :
    (now : ℕ) (id : String) (st : NodeState) (ds : List DownstreamInfo)
    → direct (map (downstream_entry now id st) ds) ≡ []
unfolding direct
direct-downstreams now id st [] = refl
direct-downstreams now id st (d ∷ ds) = direct-downstreams now id st ds

abbrev pub registered : ℕ → Assoc NodeState → List (String × Bool)
registered now [] = []
registered now ((id, st) ∷ nodes) = (id, is_online now st) ∷ registered now nodes

unfoldable pub advertised_count : Assoc NodeState → ℕ
advertised_count [] = 0
advertised_count ((id, st) ∷ nodes) = length st.downstreams + advertised_count nodes

length-map :
    (now : ℕ) (id : String) (st : NodeState) (ds : List DownstreamInfo)
    → length (map (downstream_entry now id st) ds) ≡ length ds
length-map now id st [] = refl
length-map now id st (d ∷ ds) = ap suc (length-map now id st ds)

-- The directory lists each registered node once, online or not, and one further entry for each
-- downstream that is advertised.
pub snapshot_lem :
    (now : ℕ) (nodes : Assoc NodeState)
    → (direct (snapshot now nodes) ≡ registered now nodes)
      × (length (snapshot now nodes) ≡ length nodes + advertised_count nodes)
unfolding snapshot direct advertised_count
snapshot_lem now [] = (refl, refl)
snapshot_lem now ((id, st) ∷ nodes) = (
  ap (◌∷◌ (id, is_online now st)) (
      direct-append (map (downstream_entry now id st) st.downstreams) (snapshot now nodes)
      ∙ ap (λ es. es ++ direct (snapshot now nodes)) (direct-downstreams now id st st.downstreams)
      ∙ (snapshot_lem now nodes).0),
  omega (
    arith,
    length-append (map (downstream_entry now id st) st.downstreams) (snapshot now nodes),
    length-map now id st st.downstreams,
    (snapshot_lem now nodes).1,
  ),
)
