-- ===== src/Asmux/Dispatch/Tests.antt =====
-- crates/asmux/src/server.rs: instances of the theorems on requests and on the whole server.
use agent_workspace.Prelude.{◌≡◌, refl, none, List, [], ◌∷◌, arith, ok, pos}
use agent_workspace.Asmux.Session.{Session, exited}
use agent_workspace.Asmux.Dispatch.Sizes.{IsSound}
use agent_workspace.Asmux.Frame.{frame}
use agent_workspace.Asmux.Server.Replies.{replies_to}
use agent_workspace.Asmux.Dispatch.{dispatch, read_turn}
use agent_workspace.Asmux.Dispatch.Gate.{request_rpc, dispatch_one_reply, read_turn_gate}
use agent_workspace.Asmux.Dispatch.Accounting.{Event, reads, ends, changes, serve, serve-IsSound}
use agent_workspace.Asmux.Samples.{
  session, server, wide, wide-IsSound, owner, other, fresh, world, decoders,
}

abbrev patched : Session
patched = record session { metadata = ("k", "v") ∷ [] }

dispatch_one_reply_example : replies_to 2 (dispatch world decoders server other 16 []).sent ≡ 5 ∷ []
unfolding request_rpc
dispatch_one_reply_example =
    dispatch_one_reply world decoders server other 16 [] (omega arith) (omega arith)

read_turn_gate_example :
    let r = read_turn world decoders server fresh (ok (frame 16 [])) in
    (r.server ≡ server) × (r.is_open ≡ r.conn.hello_done) × (r.stream ≡ none) × (r.cancelled ≡ [])
read_turn_gate_example = read_turn_gate world decoders server fresh (ok (frame 16 [])) refl

abbrev events : List Event
events =
    reads world fresh (ok (frame 0 []))
    ∷ reads world owner (ok (frame 2 []))
    ∷ reads world other (ok (frame 16 []))
    ∷ changes "s" (λ s. record s { status = exited (pos 0) (pos 0) }) (λ s. refl)
    ∷ ends 2 (("s", 8) ∷ [])
    ∷ reads world owner (ok (frame 6 []))
    ∷ []

serve-IsSound_example : IsSound (serve decoders wide events).registry
serve-IsSound_example = serve-IsSound decoders wide events wide-IsSound
