-- ===== src/Daemon/Worktrees/Sweeping.antt =====
-- crates/daemon/src/session_manager/workspaces.rs: a sweep leaves alone what the sessions own.
use Prim.Native.String.{◌++◌ as ◌++ˢ◌}
use text.Mathlib.Text.{get?}
use agent_workspace.Prelude.{String, ◌≡◌, ◌⊎◌, some, starts_with, false, List, [], ◌∷◌}
use agent_workspace.Daemon.Domain.{Session}

-- One of these sessions has an id of which these are the first eight bytes.
abbrev pub IsStartOf : String → List Session → Type 0
IsStartOf start [] = ⊥
IsStartOf start (s ∷ ss) = (get? s.id 0 8 ≡ some start) ⊎ IsStartOf start ss

-- A branch whose name does not begin as those of the sessions do, or the own branch of a session.
abbrev pub IsSpared : List Session → String → Type 0
IsSpared ss b =
    (starts_with b "asm-session/" ≡ false)
    ⊎ ((start : String) × (b ≡ "asm-session/" ++ˢ start) × IsStartOf start ss)
