-- ===== src/Asmux/Session/Exit.antt =====
-- crates/asmux/src/session.rs: what the reader thread leaves behind when the child is gone.
use agent_workspace.Prelude.{
  ℕ, ◌+◌, ◌-◌, ◌≤◌, ◌≡◌, refl, sym, ap, drop, ◌∙◌, ◌≢◌, ◌⊎◌, inl, inr, Bool, true, false, ◌||◌,
  Option, none, some, List, [], ◌∷◌, ◌++◌, append-nil, append_assoc, arith, u64_max, length,
  length-append, All, ℤ, pos, negsuc,
}
use agent_workspace.Asmux.Ring
use agent_workspace.Asmux.Ring.{RingError}
use agent_workspace.Asmux.Ring.History.{Holds, recorded, push-Holds, IsFull, push-IsFull}
use agent_workspace.Asmux.Ring.Window.{push-cap, Holds-HoldsEnd}
use agent_workspace.Asmux.Session.{
  Status, exited, Session, not_alive, nothing, send_input, resize, kill, note_output_dropped,
}
use agent_workspace.Asmux.Session.Threads.{
  Read, chunk, interrupted, failed, store_chunk, read_chunks, reader_loop, WaitStatus, wait_exited,
  wait_signaled, wait_other, ChildWait, reap,
}

-- The bytes that the loop reads before it ends.
unfoldable pub consumed : List Read → List ℕ
consumed [] = []
consumed (chunk reserved [] ∷ rs) = []
consumed (chunk reserved (b ∷ bs) ∷ rs) = (b ∷ bs) ++ consumed rs
consumed (interrupted ∷ rs) = consumed rs
consumed (failed ∷ rs) = []

-- The bytes that the ring records after the history `h`.
unfoldable pub kept : Session → List ℕ → List Read → List ℕ
kept s h [] = h
kept s h (chunk reserved [] ∷ rs) = h
kept s h (chunk reserved (b ∷ bs) ∷ rs) =
    kept (store_chunk reserved s (b ∷ bs))
      (recorded (Ring.push reserved s.ring (b ∷ bs)).0 h (b ∷ bs)) rs
kept s h (interrupted ∷ rs) = kept s h rs
kept s h (failed ∷ rs) = h

store_chunk_ring :
    (reserved : Bool) (s : Session) (input : List ℕ)
    → (store_chunk reserved s input).ring ≡ (Ring.push reserved s.ring input).1
unfolding store_chunk note_output_dropped
store_chunk_ring reserved s input = ground arith

store_chunk_counts :
    (reserved : Bool) (s : Session) (h input : List ℕ)
    → s.dropped_bytes + length input ≤ u64_max
    → length (recorded (Ring.push reserved s.ring input).0 h input)
        + (store_chunk reserved s input).dropped_bytes
      ≡ length h + length input + s.dropped_bytes
unfolding store_chunk note_output_dropped
store_chunk_counts reserved s h input fits = ground (arith, length-append h input)

dropped-store_chunk-le :
    (reserved : Bool) (s : Session) (input : List ℕ)
    → s.dropped_bytes + length input ≤ u64_max
    → (store_chunk reserved s input).dropped_bytes ≤ s.dropped_bytes + length input
unfolding store_chunk note_output_dropped
dropped-store_chunk-le reserved s input fits = ground arith

length-recorded-le :
    (e : Option RingError) (h input : List ℕ)
    → length (recorded e h input) ≤ length h + length input
length-recorded-le none h input = omega (arith, length-append h input)
length-recorded-le (some e) h input = omega arith

read_chunks-Holds :
    (s : Session) (h : List ℕ) (rs : List Read)
    → Holds s.ring h
    → length h + length (consumed rs) ≤ u64_max
    → Holds (read_chunks s rs).ring (kept s h rs)
unfolding read_chunks consumed kept
read_chunks-Holds s h [] w fits = w
read_chunks-Holds s h (chunk reserved [] ∷ rs) w fits = w
read_chunks-Holds s h (chunk reserved (b ∷ bs) ∷ rs) w fits =
    let e = (Ring.push reserved s.ring (b ∷ bs)).0 in
    read_chunks-Holds (store_chunk reserved s (b ∷ bs)) (recorded e h (b ∷ bs)) rs
      (rw (store_chunk_ring reserved s (b ∷ bs)) (
        push-Holds reserved s.ring h (b ∷ bs) w
          (omega (arith, length-append (b ∷ bs) (consumed rs)))))
      (omega (arith, length-append (b ∷ bs) (consumed rs), length-recorded-le e h (b ∷ bs)))
read_chunks-Holds s h (interrupted ∷ rs) w fits = read_chunks-Holds s h rs w fits
read_chunks-Holds s h (failed ∷ rs) w fits = w

read_chunks_counts :
    (s : Session) (h : List ℕ) (rs : List Read)
    → s.dropped_bytes + length (consumed rs) ≤ u64_max
    → length (kept s h rs) + (read_chunks s rs).dropped_bytes
      ≡ length h + length (consumed rs) + s.dropped_bytes
unfolding read_chunks consumed kept
read_chunks_counts s h [] fits = omega arith
read_chunks_counts s h (chunk reserved [] ∷ rs) fits = omega arith
read_chunks_counts s h (chunk reserved (b ∷ bs) ∷ rs) fits =
    let e = (Ring.push reserved s.ring (b ∷ bs)).0 in
    let joined = length-append (b ∷ bs) (consumed rs) in
    omega (
      arith,
      joined,
      store_chunk_counts reserved s h (b ∷ bs) (omega (arith, joined)),
      read_chunks_counts (store_chunk reserved s (b ∷ bs)) (recorded e h (b ∷ bs)) rs (
          omega
            (arith, joined, dropped-store_chunk-le reserved s (b ∷ bs) (omega (arith, joined)))),
    )
read_chunks_counts s h (interrupted ∷ rs) fits = read_chunks_counts s h rs fits
read_chunks_counts s h (failed ∷ rs) fits = omega arith

-- When the reader thread ends, with its counters within a u64, the ring holds what it recorded, and
-- each byte that it read is counted either by the ring's head or by the dropped bytes.
pub reader_loop_accounts :
    (s : Session) (h : List ℕ) (rs : List Read) (final_status : Status)
    → Holds s.ring h
    → length h + length (consumed rs) ≤ u64_max
    → s.dropped_bytes + length (consumed rs) ≤ u64_max
    → let t = reader_loop s rs final_status in
      Holds t.ring (kept s h rs)
      × (t.ring.head + t.dropped_bytes ≡ length h + length (consumed rs) + s.dropped_bytes)
unfolding reader_loop
reader_loop_accounts s h rs final_status w fits counts =
    let held = read_chunks-Holds s h rs w fits in
    (held, omega (arith, held.counts, read_chunks_counts s h rs counts))

abbrev pub IsReserved : Read → Type 0
IsReserved (chunk reserved input) = reserved ≡ true
IsReserved interrupted = Unit
IsReserved failed = Unit

push-reserved : (r : Ring.Ring) (input : List ℕ) → (Ring.push true r input).0 ≡ none
unfolding Ring.push
push-reserved r input = ground arith

kept-consumed :
    (s : Session) (h : List ℕ) (rs : List Read) → All IsReserved rs → kept s h rs ≡ h ++ consumed rs
unfolding kept consumed
kept-consumed s h [] a = sym (append-nil h)
kept-consumed s h (chunk reserved [] ∷ rs) a = sym (append-nil h)
kept-consumed s h (chunk true (b ∷ bs) ∷ rs) a = rw (push-reserved s.ring (b ∷ bs)) (
    kept-consumed (store_chunk true s (b ∷ bs)) (h ++ b ∷ bs) rs a.1
    ∙ append_assoc h (b ∷ bs) (consumed rs))
kept-consumed s h (chunk false (b ∷ bs) ∷ rs) a = absurd (cc (a.0))
kept-consumed s h (interrupted ∷ rs) a = kept-consumed s h rs a.1
kept-consumed s h (failed ∷ rs) a = sym (append-nil h)

read_chunks-IsFull :
    (s : Session) (h : List ℕ) (rs : List Read)
    → Holds s.ring h
    → IsFull s.ring
    → length h + length (consumed rs) ≤ u64_max
    → All IsReserved rs
    → IsFull (read_chunks s rs).ring × ((read_chunks s rs).ring.cap ≡ s.ring.cap)
unfolding read_chunks consumed
read_chunks-IsFull s h [] w full fits a = (full, refl)
read_chunks-IsFull s h (chunk reserved [] ∷ rs) w full fits a = (full, refl)
read_chunks-IsFull s h (chunk true (b ∷ bs) ∷ rs) w full fits a =
    let joined = length-append (b ∷ bs) (consumed rs) in
    let small : length h + length (b ∷ bs) ≤ u64_max = omega (arith, joined) in
    let stored = store_chunk_ring true s (b ∷ bs) in
    let held : Holds (store_chunk true s (b ∷ bs)).ring (h ++ b ∷ bs) =
      rw stored
        (rw (push-reserved s.ring (b ∷ bs)) at (push-Holds true s.ring h (b ∷ bs) w small)) in
    let still : IsFull (store_chunk true s (b ∷ bs)).ring =
      rw stored (push-IsFull s.ring (b ∷ bs) w.valid (omega (arith, small, w.counts)) full) in
    let rest =
      read_chunks-IsFull (store_chunk true s (b ∷ bs)) (h ++ b ∷ bs) rs held still
        (omega (arith, joined, length-append h (b ∷ bs))) a.1 in
    (rest.0, rest.1 ∙ ap (λ r. r.cap) stored ∙ push-cap true s.ring (b ∷ bs))
read_chunks-IsFull s h (chunk false (b ∷ bs) ∷ rs) w full fits a = absurd (cc (a.0))
read_chunks-IsFull s h (interrupted ∷ rs) w full fits a = read_chunks-IsFull s h rs w full fits a.1
read_chunks-IsFull s h (failed ∷ rs) w full fits a = (full, refl)

-- Where the ring held as much of the earlier output as its capacity allows, the allocator stood by every write, and the
-- bytes stay within a u64: the tombstone's head counts what was output before and then all that the
-- reads gave, and its ring holds exactly the end of these bytes, as many as its capacity.
pub reader_loop_complete :
    (s : Session) (h : List ℕ) (rs : List Read) (final_status : Status)
    → Holds s.ring h
    → IsFull s.ring
    → length h + length (consumed rs) ≤ u64_max
    → All IsReserved rs
    → let t = reader_loop s rs final_status in
      (t.ring.head ≡ length (h ++ consumed rs))
      × (t.ring.buf ≡ drop (length (h ++ consumed rs) - s.ring.cap) (h ++ consumed rs))
unfolding reader_loop
reader_loop_complete s h rs final_status w full fits a =
    let read = read_chunks-IsFull s h rs w full fits a in
    let end =
      Holds-HoldsEnd (read_chunks s rs).ring (h ++ consumed rs)
        (rw (kept-consumed s h rs a) at (read_chunks-Holds s h rs w fits)) read.0 in
    (end.0, end.1 ∙ ap (λ k. drop (length (h ++ consumed rs) - k) (h ++ consumed rs)) read.1)

-- Once the reader thread has recorded the exit, the session is a tombstone: it holds no handle,
-- refuses input and resizes without a change, and sends no signal; the streamer is woken.
pub reader_loop_tombstone :
    (s : Session) (rs : List Read) (code signal : ℤ) (input : List ℕ) (cols rows : ℕ)
    (accepted is_unix : Bool) (is_signal : ℤ → Bool) (number : ℤ)
    → let t = reader_loop s rs (exited code signal) in
      (t.status ≡ exited code signal)
      × (t.holds_master || (t.holds_killer || t.holds_input_tx) ≡ false)
      × (t.data_signal ≡ true)
      × (send_input t input ≡ (not_alive, t))
      × (resize accepted t cols rows ≡ (not_alive, t))
      × (kill is_unix is_signal t number ≡ nothing)
unfolding reader_loop send_input resize kill
reader_loop_tombstone s rs code signal input cols rows accepted is_unix is_signal number =
    (refl, refl, refl, refl, refl, refl)

-- How a child died on Unix, as `waitpid` tells it: a signalled child has its signal and the code
-- -1, any other the code it exited with and no signal.
pub reap_unix :
    (w : WaitStatus) (child : ChildWait) (code signal : ℤ)
    → w ≢ wait_other
    → reap true w child ≡ exited code signal
    → ((w ≡ wait_exited code) × (signal ≡ pos 0)) ⊎ ((w ≡ wait_signaled signal) × (code ≡ negsuc 0))
unfolding reap
reap_unix (wait_exited c) child code signal o e = inl (cc, cc)
reap_unix (wait_signaled g) child code signal o e = inr (cc, cc)
reap_unix wait_other child code signal o e = absurd (o refl)
