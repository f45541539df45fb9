-- ===== src/Relay/Control/Lifetime.antt =====
-- asm-relay's server.rs: what a control connection leaves, from its hello to its end.
use agent_workspace.Prelude.{
  ℕ, String, ◌≡◌, refl, ap, ◌∙◌, Bool, true, false, Option, none, some, List, [], ◌∷◌, arith,
  eq_iff, lookup, lookup-insert, lookup-adjust, map,
}
use agent_workspace.Relay.Nodes.{
  DownstreamInfo, Relay, register, touch, set_downstreams, disconnect, if_current,
}
use agent_workspace.Relay.Control.{
  hello, downstreams, ping, pong, text, closes, other, broken, Timed, proto_version, next_text,
  pump, register_conn,
}

-- The pings that are read before the connection ends.
unfoldable pub pings_of : List Timed → List ℕ
pings_of [] = []
pings_of ((now, text (some (ping seq))) ∷ ms) = seq ∷ pings_of ms
pings_of ((now, closes) ∷ ms) = []
pings_of ((now, broken) ∷ ms) = []
pings_of ((now, _) ∷ ms) = pings_of ms

-- The last downstreams that are announced before the connection ends.
unfoldable pub last_announced : List DownstreamInfo → List Timed → List DownstreamInfo
last_announced ds [] = ds
last_announced ds ((now, text (some (downstreams new))) ∷ ms) = last_announced new ms
last_announced ds ((now, closes) ∷ ms) = ds
last_announced ds ((now, broken) ∷ ms) = ds
last_announced ds ((now, _) ∷ ms) = last_announced ds ms

-- What a look at a node shows, but for the time.
abbrev pub seen : Relay → String → Option (String × List DownstreamInfo × Bool × ℕ)
seen r id = elim (lookup id r.nodes) [
  | none ↦ none
  | some s ↦ some (s.label, s.downstreams, s.connected, s.generation)
]

seen-touch : (now : ℕ) (r : Relay) (id : String) (g : ℕ) → seen (touch now r id g) id ≡ seen r id
unfolding touch
seen-touch now r id g =
    ground (arith, lookup-adjust id id (if_current g (λ s. record s { last_seen = now })) r.nodes)

seen-set_downstreams :
    (now : ℕ) (r : Relay) (id label : String) (g : ℕ) (old ds : List DownstreamInfo) (b : Bool)
    → seen r id ≡ some (label, old, b, g)
    → seen (set_downstreams now r id g ds) id ≡ some (label, ds, b, g)
unfolding set_downstreams
seen-set_downstreams now r id label g old ds b e = ground (
  arith,
  eq_iff id id,
  lookup-adjust id id (if_current g (λ s. record s { downstreams = ds; last_seen = now })) r.nodes,
)

seen-pump :
    (r : Relay) (id label : String) (g : ℕ) (ds : List DownstreamInfo) (b : Bool) (ms : List Timed)
    → seen r id ≡ some (label, ds, b, g)
    → seen (pump r id g ms).1 id ≡ some (label, last_announced ds ms, b, g)
unfolding pump last_announced
seen-pump r id label g ds b [] e = e
seen-pump r id label g ds b ((now, text (some (ping seq))) ∷ ms) e =
    seen-pump (touch now r id g) id label g ds b ms (seen-touch now r id g ∙ e)
seen-pump r id label g ds b ((now, text (some (downstreams new))) ∷ ms) e =
    seen-pump (set_downstreams now r id g new) id label g new b ms
      (seen-set_downstreams now r id label g ds new b e)
seen-pump r id label g ds b ((now, text (some (hello p i l d))) ∷ ms) e =
    seen-pump r id label g ds b ms e
seen-pump r id label g ds b ((now, text none) ∷ ms) e = seen-pump r id label g ds b ms e
seen-pump r id label g ds b ((now, closes) ∷ ms) e = e
seen-pump r id label g ds b ((now, other) ∷ ms) e = seen-pump r id label g ds b ms e
seen-pump r id label g ds b ((now, broken) ∷ ms) e = e

pump_pongs :
    (r : Relay) (id : String) (g : ℕ) (ms : List Timed)
    → (pump r id g ms).0 ≡ map pong (pings_of ms)
unfolding pump pings_of
pump_pongs r id g [] = refl
pump_pongs r id g ((now, text (some (ping seq))) ∷ ms) =
    ap (◌∷◌ (pong seq)) (pump_pongs (touch now r id g) id g ms)
pump_pongs r id g ((now, text (some (downstreams new))) ∷ ms) =
    pump_pongs (set_downstreams now r id g new) id g ms
pump_pongs r id g ((now, text (some (hello p i l d))) ∷ ms) = pump_pongs r id g ms
pump_pongs r id g ((now, text none) ∷ ms) = pump_pongs r id g ms
pump_pongs r id g ((now, closes) ∷ ms) = refl
pump_pongs r id g ((now, other) ∷ ms) = pump_pongs r id g ms
pump_pongs r id g ((now, broken) ∷ ms) = refl

seen-register :
    (now : ℕ) (r : Relay) (id label : String) (ds : List DownstreamInfo)
    → seen (register now r id label ds).1 id ≡ some (label, ds, true, r.next_gen)
unfolding register
seen-register now r id label ds = ground (
  arith,
  eq_iff id id,
  lookup-insert id id
      (record {
        label = label;
        downstreams = ds;
        last_seen = now;
        connected = true;
        generation = r.next_gen;
      })
      r.nodes,
)

seen-disconnect :
    (r : Relay) (id label : String) (g : ℕ) (ds : List DownstreamInfo) (b : Bool)
    → seen r id ≡ some (label, ds, b, g)
    → seen (disconnect r id g) id ≡ some (label, ds, false, g)
unfolding disconnect
seen-disconnect r id label g ds b e = ground (
  arith,
  eq_iff id id,
  lookup-adjust id id (if_current g (λ s. record s { connected = false })) r.nodes,
)

-- A control connection with a hello of the right version, and no other connection of the node in
-- between: each ping that it reads is answered by the pong of its number, in order, and when it
-- has ended the node is registered but not connected, with the downstreams that were announced
-- last.
pub register_conn_lem :
    (r : Relay) (now : ℕ) (id label : String) (ds : List DownstreamInfo) (ms : List Timed)
    → let (sent, last) =
        register_conn r ((now, text (some (hello proto_version id label ds))) ∷ ms) in
      (sent ≡ map pong (pings_of ms))
      × (seen last id ≡ some (label, last_announced ds ms, false, r.next_gen))
unfolding register_conn next_text register
register_conn_lem r now id label ds ms =
    let begun : Relay = (register now r id label ds).1 in
    (
      pump_pongs begun id r.next_gen ms,
      seen-disconnect (pump begun id r.next_gen ms).1 id label r.next_gen (last_announced ds ms)
          true (seen-pump begun id label r.next_gen ds true ms (seen-register now r id label ds)),
    )
