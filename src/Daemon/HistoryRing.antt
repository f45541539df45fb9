-- ===== src/Daemon/HistoryRing.antt =====
-- crates/daemon/src/backend/mod.rs: the chunks of output that a session keeps for its attachments.
pub mod Kept
mod Tests
use agent_workspace.Prelude.{ℕ, ◌+◌, ◌-◌, List, [], ◌∷◌, ◌++◌, ltb, if◌then◌else◌, length}

pub record HistoryRing : Type 0 where
  pub chunks : List (List ℕ)
  pub bytes : ℕ
  pub cap : ℕ

unfoldable pub new : ℕ → HistoryRing
new cap = record { chunks = []; bytes = 0; cap = cap }

-- Whole chunks go from the front, but the last one stays.
unfoldable pub evict : ℕ → ℕ → List (List ℕ) → List (List ℕ) × ℕ
evict cap bytes [] = ([], bytes)
evict cap bytes (c ∷ []) = (c ∷ [], bytes)
evict cap bytes (c ∷ d ∷ cs) =
    let rest = evict cap (bytes - length c) (d ∷ cs) in
    if ltb cap bytes then rest else (c ∷ d ∷ cs, bytes)

unfoldable pub push : HistoryRing → List ℕ → HistoryRing
push r chunk =
    let kept = evict r.cap (r.bytes + length chunk) (r.chunks ++ chunk ∷ []) in
    record r { chunks = kept.0; bytes = kept.1 }

-- The chunks, one after the other.
unfoldable pub concat : List (List ℕ) → List ℕ
concat [] = []
concat (c ∷ cs) = c ++ concat cs

-- What an attachment is sent, after what it has.
unfoldable pub extend_into : HistoryRing → List ℕ → List ℕ
extend_into r out = out ++ concat r.chunks
