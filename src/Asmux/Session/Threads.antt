-- ===== src/Asmux/Session/Threads.antt =====
-- crates/asmux/src/session.rs: the reader thread, the reaping of the child and the writer thread.
use agent_workspace.Prelude.{
  ℕ, Bool, true, false, Option, none, some, List, [], ◌∷◌, if◌then◌else◌, length, take, ℤ, pos,
  negsuc, wrap_sub,
}
use agent_workspace.Asmux.Ring
use agent_workspace.Asmux.Ring.{RingError}
use agent_workspace.Asmux.Session.{
  Status, exited, Session, note_output_dropped, release_child_handles,
}

-- What one `read` of the pseudoterminal returns; with a chunk, what the ring's `try_reserve` will
-- answer for it.
pub data Read : Type 0 where
  chunk : Bool → List ℕ → Read
  interrupted : Read
  failed : Read

abbrev after_push : Session → List ℕ → Option RingError → Session
after_push s input none = record s { data_signal = true }
after_push s input (some e) = record (note_output_dropped s (length input)) { data_signal = true }

-- One chunk: into the ring, or counted as dropped.
unfoldable pub store_chunk : Bool → Session → List ℕ → Session
store_chunk reserved s input =
    let (e, ring) = Ring.push reserved s.ring input in after_push (record s { ring = ring }) input e

-- The loop ends at the end of the input, at an empty read, or at an error.
unfoldable pub read_chunks : Session → List Read → Session
read_chunks s [] = s
read_chunks s (chunk reserved [] ∷ rs) = s
read_chunks s (chunk reserved (b ∷ bs) ∷ rs) = read_chunks (store_chunk reserved s (b ∷ bs)) rs
read_chunks s (interrupted ∷ rs) = read_chunks s rs
read_chunks s (failed ∷ rs) = s

-- `final_status` is what reaping the child returns.
unfoldable pub reader_loop : Session → List Read → Status → Session
reader_loop s rs final_status =
    let drained = read_chunks s rs in
    record (release_child_handles (record drained { status = final_status })) { data_signal = true }

-- The answer of `waitpid`, and of `portable_pty` where that gives none.
pub data WaitStatus : Type 0 where
  wait_exited : ℤ → WaitStatus
  wait_signaled : ℤ → WaitStatus
  wait_other : WaitStatus

pub data ChildWait : Type 0 where
  success : ChildWait
  failure : ℤ → ChildWait
  wait_error : ChildWait

abbrev wait_child : ChildWait → Status
wait_child success = exited (pos 0) (pos 0)
wait_child (failure code) = exited code (pos 0)
wait_child wait_error = exited (negsuc 0) (pos 0)

-- On Windows there is no `waitpid`.
unfoldable pub reap : Bool → WaitStatus → ChildWait → Status
reap true (wait_exited code) child = exited code (pos 0)
reap true (wait_signaled signal) child = exited (negsuc 0) signal
reap true wait_other child = wait_child child
reap false w child = wait_child child

-- The writer thread's `blocking_recv`: it takes the oldest input; with none left it exits once the
-- channel is closed, and waits until then.
unfoldable pub writer_take : Session → Session
writer_take s = elim s.pending [
  | [] ↦ if s.holds_input_tx then s else record s { has_writer = false }
  | input ∷ rest ↦ record s { pending = rest; writing = some input }
]

-- What `write_all` and `flush` put through: all of the input, or where they fail, a start of it.
abbrev pub put_through : List ℕ → Option ℕ → List ℕ
put_through input none = input
put_through input (some n) = take n input

-- The end of its write, with the bytes that reached the child. Its result is ignored: after a
-- failure as after a success the input is let go.
unfoldable pub writer_done : Option ℕ → Session → List ℕ × Session
writer_done result s = elim s.writing [
  | none ↦ ([], s)
  | some input ↦ (
    put_through input result,
    record s { writing = none; input_queued = wrap_sub s.input_queued (length input) },
  )
]
