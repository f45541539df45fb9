-- ===== src/Asmux/Session/Metadata.antt =====
-- crates/asmux/src/session.rs: what a metadata patch leaves under each key.
use agent_workspace.Prelude.{
  String, ◌≡◌, refl, Option, none, some, List, [], ◌∷◌, ◌++◌, arith, str_eq, eq_iff, if◌then◌else◌,
  lookup, remove, lookup-remove, IsUnique, lookup-append, IsUnique-remove, IsUnique-snoc,
}
use agent_workspace.Asmux.Session.{patch_pairs}

-- The last entry of the patch for the key: set to a value, or deleted.
unfoldable pub last_for : String → List (String × Option String) → Option (Option String)
last_for k [] = none
last_for k ((j, v) ∷ patch) = elim (last_for k patch) [
  | none ↦ if str_eq j k then some v else none
  | some w ↦ some w
]

-- After a patch each key has what the patch's last entry for it says, and keeps its value if it
-- has none.
pub lookup-patch_pairs :
    (k : String) (patch : List (String × Option String)) (md : List (String × String))
    → lookup k (patch_pairs patch md)
      ≡ (elim (last_for k patch) [ none ↦ lookup k md | some v ↦ v ])
unfolding patch_pairs last_for lookup
lookup-patch_pairs k [] md = refl
lookup-patch_pairs k ((j, none) ∷ patch) md =
    ground (arith, lookup-patch_pairs k patch (remove j md), lookup-remove j k md)
lookup-patch_pairs k ((j, some v) ∷ patch) md = ground (
  arith,
  lookup-patch_pairs k patch (remove j md ++ (j, v) ∷ []),
  lookup-append k (remove j md) ((j, v) ∷ []),
  lookup-remove j k md,
)

-- A patch never leaves a key twice.
pub patch_pairs-IsUnique :
    (patch : List (String × Option String)) (md : List (String × String))
    → IsUnique md
    → IsUnique (patch_pairs patch md)
unfolding patch_pairs
patch_pairs-IsUnique [] md u = u
patch_pairs-IsUnique ((k, none) ∷ patch) md u =
    patch_pairs-IsUnique patch (remove k md) (IsUnique-remove k md u)
patch_pairs-IsUnique ((k, some v) ∷ patch) md u =
    patch_pairs-IsUnique patch (remove k md ++ (k, v) ∷ []) (
      IsUnique-snoc k v (remove k md) (ground (arith, lookup-remove k k md, eq_iff k k))
        (IsUnique-remove k md u))
