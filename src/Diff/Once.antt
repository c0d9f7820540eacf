-- ===== src/Diff/Once.antt =====
-- A node is in one group of the differences at most.
use acbackup.Prelude.{
  ℕ, ◌≡◌, refl, Bool, true, false, ◌&&◌, none, some, List, [], arith, Result, ok, throw, >>=-eq-ok,
  contains, inl, inr, subst, Bool-cases,
}
use acbackup.Node.{HashAlgorithm}
use acbackup.BackupIndex.{BackupNodeIndex, as_file_system_index}
use acbackup.SourceIndex.{Digest}
use acbackup.Diff.{
  AnyIndex, nodes_of, Differences, Change, new_data, new_metadata, moved_from, compute_difference,
  compute_deleted, change_of, compute_node_differences, remove_moved, resolve_differences,
  compute_diff,
}
use acbackup.Diff.Moves.{find_moved, Sorted, compute_node_differences_lem}

abbrev is_moved : ℕ → Differences → Bool
is_moved i d = elim (find_moved i d.moved) [ some j ↦ true | none ↦ false ]

-- No two of the groups have the node.
abbrev pub InOneGroup : ℕ → Differences → Type 0
InOneGroup i d =
    ((contains i d.different_data && contains i d.different_metadata) ≡ false)
    × ((contains i d.different_data && is_moved i d) ≡ false)
    × ((contains i d.different_metadata && is_moved i d) ≡ false)

abbrev only_deleted : List ℕ → Differences
only_deleted deleted = record {
  deleted = deleted;
  different_data = [];
  different_metadata = [];
  moved = [];
}

module _ (h : HashAlgorithm) (digest : Digest) (left : BackupNodeIndex) (right : AnyIndex) where
  Sorted-once :
      (tasks deleted : List ℕ) (d : Differences) (i : ℕ) (r : Result Change)
      → change_of h digest left right i ≡ r
      → Sorted h digest left right tasks (only_deleted deleted) d i
      → InOneGroup i d
  unfolding find_moved
  Sorted-once tasks deleted d i (ok new_data) e s = elim (Bool-cases (contains i tasks)) [
    | inl t ↦ ground arith
    | inr t ↦ ground arith
  ]
  Sorted-once tasks deleted d i (ok new_metadata) e s = elim (Bool-cases (contains i tasks)) [
    | inl t ↦ ground arith
    | inr t ↦ ground arith
  ]
  Sorted-once tasks deleted d i (ok (moved_from j)) e s = elim (Bool-cases (contains i tasks)) [
    | inl t ↦ ground arith
    | inr t ↦ ground arith
  ]
  Sorted-once tasks deleted d i (throw x) e s = elim (Bool-cases (contains i tasks)) [
    | inl t ↦ ground arith
    | inr t ↦ ground arith
  ]

  -- Whenever `ComputeDiff` returns, no node of the right index is in two of the groups for new data, updates of the metadata and moves.
  pub compute_diff-InOneGroup :
      (d : Differences) (i : ℕ) → compute_diff h digest left right ≡ ok d → InOneGroup i d
  unfolding compute_diff resolve_differences
  compute_diff-InOneGroup d i e =
      let (l, el, ed) =
        >>=-eq-ok (compute_difference (as_file_system_index left.nodes) (nodes_of right)) _ e in
      let (r, er, ed') =
        >>=-eq-ok (compute_difference (nodes_of right) (as_file_system_index left.nodes)) _ ed in
      let (gone, eg, ed'') =
        >>=-eq-ok (compute_deleted (as_file_system_index left.nodes) (nodes_of right) l []) _ ed' in
      let (d', en, eq) =
        >>=-eq-ok (compute_node_differences h digest left right r (only_deleted gone)) _ ed'' in
      let once =
        Sorted-once r gone d' i _ refl
          (compute_node_differences_lem h digest left right r (only_deleted gone) d' en i) in
      let is : record d' { deleted = remove_moved d'.moved d'.deleted } ≡ d = ground arith in
      subst (InOneGroup i) is once
