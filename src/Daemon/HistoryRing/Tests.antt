-- ===== src/Daemon/HistoryRing/Tests.antt =====
-- crates/daemon/src/backend/mod.rs: an instance of the theorem on the ring of chunks.
use agent_workspace.Prelude.{ℕ, ◌≤◌, ◌≡◌, refl, ◌⊎◌, List, [], ◌∷◌, ◌++◌, length}
use agent_workspace.Daemon.HistoryRing.{new, concat, evict, push}
use agent_workspace.Daemon.HistoryRing.Kept.{Overflows, push_all, new-push_all}

abbrev chunks : List (List ℕ)
chunks = (1 ∷ 2 ∷ []) ∷ (3 ∷ 4 ∷ 5 ∷ []) ∷ (6 ∷ []) ∷ []

new-push_all_example :
    let r = push_all (new 4) chunks in
    (r.bytes ≡ length (concat r.chunks))
    × ((r.bytes ≤ 4) ⊎ (length r.chunks ≤ 1))
    × ((chunks ≡ []) ⊎ (1 ≤ length r.chunks))
    × ((gone : List (List ℕ)) × (chunks ≡ gone ++ r.chunks) × Overflows 4 r.bytes gone)
new-push_all_example = new-push_all 4 chunks

-- The first chunk has gone.
last_two : concat (push_all (new 4) chunks).chunks ≡ 3 ∷ 4 ∷ 5 ∷ 6 ∷ []
unfolding push_all new push evict concat
last_two = refl
