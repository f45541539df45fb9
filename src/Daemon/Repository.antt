-- ===== src/Daemon/Repository.antt =====
-- A repository for the runs: the list of the worktrees, the branches and the marks that it has.
-- The mark `dirty` stands for uncommitted changes, and `unmerged` for unmerged commits.
use agent_workspace.Prelude.{
  String, Bool, true, false, not, ◌||◌, none, some, List, [], ◌∷◌, str_eq, if◌then◌else◌, ok,
}
use agent_workspace.Daemon.Worktrees.{GitOps}
use agent_workspace.Daemon.Worktrees.Branches.{BranchOps}
use agent_workspace.Daemon.Creation.{WorktreeOps}

abbrev pub Repo : Type 0
Repo = List String

abbrev has : String → Repo → Bool
has name [] = false
has name (n ∷ ns) = str_eq n name || has name ns

abbrev without : String → Repo → Repo
without name [] = []
without name (n ∷ ns) = let rest = without name ns in if str_eq n name then rest else n ∷ rest

abbrev pub git : GitOps Repo
git = record {
  is_dirty = λ g path. has "dirty" g;
  branch_exists = λ g root b. has b g;
  branch_is_merged = λ g root b. not (has "unmerged" g);
  remove_worktree = λ g root path force. (true, without path g);
  delete_branch = λ g root b force. (true, without b g);
}

abbrev pub branches : BranchOps Repo
branches = record {
  worktree_for_branch = λ g root b. ok none;
  unmerged_commit_count = λ g root b. if has "unmerged" g then 1 else 0;
  merge_branches = λ g root source target. (ok "merged", without source g);
  rebase_branch = λ g root b onto. (ok "rebased", without onto g);
}

abbrev pub trees : WorktreeOps Repo
trees = record {
  create_worktree = λ g root path spec. (some (some "b"), path ∷ g);
  is_git_repo = λ g root. true;
}
