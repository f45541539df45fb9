-- ===== src/Asmux/Session/Input.antt =====
-- crates/asmux/src/session.rs: the bounded input queue between a connection and the writer thread.
use agent_workspace.Prelude.{
  ℕ, ◌+◌, ◌≤◌, ◌≡◌, refl, sym, ap, ◌∙◌, ◌⊎◌, true, false, not, ◌||◌, Option, none, some, List, [],
  ◌∷◌, ◌++◌, append-nil, append_assoc, arith, ltb, if◌then◌else◌, u64_max, length, is_some,
}
use agent_workspace.Asmux.Session.{
  Session, is_alive, InputOutcome, queued, overflow, not_alive, send_input, input_queue_bytes,
  release_child_handles,
}
use agent_workspace.Asmux.Session.Threads.{put_through, writer_take, writer_done}

abbrev pub total : List (List ℕ) → ℕ
total [] = 0
total (x ∷ xs) = length x + total xs

abbrev pub in_flight : Option (List ℕ) → List (List ℕ)
in_flight none = []
in_flight (some x) = x ∷ []

-- The counter is the size of what waits or is being written, and within the bound; a writer that
-- has gone left an empty, closed channel.
pub record IsQueue (s : Session) : Type 0 where
  pub counted : s.input_queued ≡ total (in_flight s.writing) + total s.pending
  pub bounded : s.input_queued ≤ input_queue_bytes
  pub open_ended : (s.has_writer ≡ true) ⊎ ((s.pending ≡ []) × (s.holds_input_tx ≡ false))

-- What the threads do to the queue, in the order in which they do it.
pub data Event : Type 0 where
  send : List ℕ → Event
  take_next : Event
  write_done : Option ℕ → Event
  close : Event

-- A session with the inputs that it accepted, those that the writer is done with, each with the
-- result of its write, and the bytes that reached the child.
pub record Trace : Type 0 where
  pub session : Session
  pub accepted : List (List ℕ)
  pub tried : List (List ℕ × Option ℕ)
  pub reached : List ℕ

abbrev pub inputs_of : List (List ℕ × Option ℕ) → List (List ℕ)
inputs_of [] = []
inputs_of ((input, result) ∷ rs) = input ∷ inputs_of rs

-- What writes with these results put through, one after the other.
abbrev pub bytes_of : List (List ℕ × Option ℕ) → List ℕ
bytes_of [] = []
bytes_of ((input, result) ∷ rs) = put_through input result ++ bytes_of rs

abbrev with_result : Option ℕ → Option (List ℕ) → List (List ℕ × Option ℕ)
with_result result none = []
with_result result (some input) = (input, result) ∷ []

abbrev add_if_queued : InputOutcome → List ℕ → List (List ℕ) → List (List ℕ)
add_if_queued queued x xs = xs ++ x ∷ []
add_if_queued _ x xs = xs

-- The writer takes the next input when it has written the last one, and while it runs.
unfoldable pub step : Trace → Event → Trace
step t (send input) =
    let (o, s) = send_input t.session input in
    record t { session = s; accepted = add_if_queued o input t.accepted }
step t take_next =
    if is_some t.session.writing || not t.session.has_writer
    then t
    else record t { session = writer_take t.session }
step t (write_done result) =
    let (bytes, s) = writer_done result t.session in
    record t {
      session = s;
      tried = t.tried ++ with_result result t.session.writing;
      reached = t.reached ++ bytes;
    }
step t close = record t { session = release_child_handles t.session }

unfoldable pub run : Trace → List Event → Trace
run t [] = t
run t (e ∷ es) = run (step t e) es

total-append : (xs ys : List (List ℕ)) → total (xs ++ ys) ≡ total xs + total ys
total-append [] ys = omega arith
total-append (x ∷ xs) ys = omega (arith, total-append xs ys)

send_input-IsQueue : (s : Session) (input : List ℕ) → IsQueue s → IsQueue (send_input s input).1
unfolding send_input
send_input-IsQueue s input q = ground (arith, total-append s.pending (input ∷ []))

writer_take-IsQueue :
    (s : Session) → s.writing ≡ none → s.has_writer ≡ true → IsQueue s → IsQueue (writer_take s)
unfolding writer_take
writer_take-IsQueue s idle here q = ground arith

writer_done-IsQueue :
    (result : Option ℕ) (s : Session) → IsQueue s → IsQueue (writer_done result s).1
unfolding writer_done
writer_done-IsQueue result s q = ground arith

close-IsQueue : (s : Session) → IsQueue s → IsQueue (release_child_handles s)
close-IsQueue s q = ground arith

step-IsQueue : (t : Trace) (e : Event) → IsQueue t.session → IsQueue (step t e).session
unfolding step
step-IsQueue t (send input) q = send_input-IsQueue t.session input q
step-IsQueue t take_next q = ground (arith, writer_take-IsQueue t.session)
step-IsQueue t (write_done result) q = writer_done-IsQueue result t.session q
step-IsQueue t close q = close-IsQueue t.session q

-- If the input counter is exact and within the bound, then it is so after any interleaving of the
-- connection, the writer and the reaper.
pub run-IsQueue : (t : Trace) (es : List Event) → IsQueue t.session → IsQueue (run t es).session
unfolding run
run-IsQueue t [] q = q
run-IsQueue t (e ∷ es) q = run-IsQueue (step t e) es (step-IsQueue t e q)

-- What was accepted is what the writer is done with, then what is being written, then what waits;
-- and what has reached the child is what the finished writes put through.
abbrev pub InOrder : Trace → Type 0
InOrder t =
    (t.accepted ≡ inputs_of t.tried ++ (in_flight t.session.writing ++ t.session.pending))
    × (t.reached ≡ bytes_of t.tried)

inputs-append :
    (rs ss : List (List ℕ × Option ℕ)) → inputs_of (rs ++ ss) ≡ inputs_of rs ++ inputs_of ss
inputs-append [] ss = refl
inputs-append ((input, result) ∷ rs) ss = ap (◌∷◌ input) (inputs-append rs ss)

bytes-append : (rs ss : List (List ℕ × Option ℕ)) → bytes_of (rs ++ ss) ≡ bytes_of rs ++ bytes_of ss
bytes-append [] ss = refl
bytes-append ((input, result) ∷ rs) ss =
    ap (◌++◌ (put_through input result)) (bytes-append rs ss)
    ∙ sym (append_assoc (put_through input result) (bytes_of rs) (bytes_of ss))

send-InOrder : (t : Trace) (input : List ℕ) → InOrder t → InOrder (step t (send input))
unfolding step send_input
send-InOrder t input h = ground (
  arith,
  append_assoc (inputs_of t.tried) (in_flight t.session.writing ++ t.session.pending) (input ∷ []),
  append_assoc (in_flight t.session.writing) t.session.pending (input ∷ []),
)

writer_done_bytes :
    (result : Option ℕ) (s : Session)
    → (writer_done result s).0 ≡ bytes_of (with_result result s.writing)
unfolding writer_done
writer_done_bytes result s = by_writing s.writing refl
  where
    by_writing :
        (o : Option (List ℕ))
        → s.writing ≡ o
        → (writer_done result s).0 ≡ bytes_of (with_result result s.writing)
    by_writing none e = ground arith
    by_writing (some input) e = ground (arith, append-nil (put_through input result))

writer_done_rest :
    (result : Option ℕ) (s : Session)
    → ((writer_done result s).1.pending ≡ s.pending) × ((writer_done result s).1.writing ≡ none)
unfolding writer_done
writer_done_rest result s = ground arith

done-InOrder : (t : Trace) (result : Option ℕ) → InOrder t → InOrder (step t (write_done result))
unfolding step
done-InOrder t result h = ground (
  arith,
  inputs-append t.tried (with_result result t.session.writing),
  bytes-append t.tried (with_result result t.session.writing),
  append_assoc (inputs_of t.tried) (in_flight t.session.writing) t.session.pending,
  inputs_with t.session.writing,
  writer_done_bytes result t.session,
  writer_done_rest result t.session,
)
  where
    inputs_with : (o : Option (List ℕ)) → inputs_of (with_result result o) ≡ in_flight o
    inputs_with none = refl
    inputs_with (some input) = refl

step-InOrder : (t : Trace) (e : Event) → InOrder t → InOrder (step t e)
unfolding step writer_take
step-InOrder t (send input) h = send-InOrder t input h
step-InOrder t take_next h = ground arith
step-InOrder t (write_done result) h = done-InOrder t result h
step-InOrder t close h = h

-- If what was accepted is what the writer is done with, then what is being written, then what
-- waits, and what has reached the child is what the finished writes put through, in order, each the
-- whole input or, where it failed, a start of it, then both are so after any interleaving of
-- inputs, the writer's steps, failed writes among them, and closing the channel: the writer takes
-- each accepted input once and in order, and does not write again what a failed write left out.
pub run-InOrder : (t : Trace) (es : List Event) → InOrder t → InOrder (run t es)
unfolding run
run-InOrder t [] h = h
run-InOrder t (e ∷ es) h = run-InOrder (step t e) es (step-InOrder t e h)

-- Every answer to an input, with what it leaves: rejected on a dead session or a closed channel,
-- dropped where the queue has no room, and otherwise last in the queue.
pub send_input-outcomes :
    (s : Session) (input : List ℕ)
    → IsQueue s
    → length input ≤ u64_max
    → send_input s input ≡ (
        if not (is_alive s)
        then (not_alive, s)
        else if ltb input_queue_bytes (s.input_queued + length input)
        then (overflow, s)
        else if s.holds_input_tx
        then (
          queued,
          record s {
            input_queued = s.input_queued + length input;
            pending = s.pending ++ input ∷ [];
          },
        )
        else (not_alive, s))
unfolding send_input
send_input-outcomes s input q h = ground arith
