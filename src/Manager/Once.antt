-- ===== src/Manager/Once.antt =====
-- No node of the source goes into a new snapshot twice.
use acbackup.Prelude.{
  ℕ, ◌≡◌, Bool, true, false, Option, none, some, List, [], ◌∷◌, arith, ok, >>=-eq-ok, insert,
  contains-insert, inl, inr, subst, ap, if◌then◌else◌, Bool-cases, ℕ_discrete, ◌∙◌, range_from,
}
use acbackup.Node.{HashAlgorithm}
use acbackup.Index.{number_of_nodes}
use acbackup.BackupIndex.{BackupNodeIndex}
use acbackup.SourceIndex.{SourceIndex, Digest}
use acbackup.Diff.{of_source, Differences, compute_diff}
use acbackup.Diff.Moves.{find_moved}
use acbackup.Diff.Once.{InOneGroup, compute_diff-InOneGroup}
use acbackup.Manager.{update_default, compute_source_difference}
use acbackup.Manager.Coverage.{is_included}

abbrev default_step : ℕ → Differences → Differences
default_step t d =
    if is_included t d then d else record d { different_metadata = insert t d.different_metadata }

default_step-InOneGroup :
    (i t : ℕ) (d : Differences) → InOneGroup i d → InOneGroup i (default_step t d)
default_step-InOneGroup i t d g = elim (Bool-cases (is_included t d)) [
  | inl k ↦ rw k g
  | inr k ↦ rw k (elim (ℕ_discrete i t) [
    | yes e ↦
        let k' : is_included i d ≡ false = ap (λ n. is_included n d) e ∙ k in
        ground (arith, contains-insert i t d.different_metadata)
    | no n ↦ ground (arith, contains-insert i t d.different_metadata)
  ])
]

update_default-InOneGroup :
    (tasks : List ℕ) (d : Differences) (i : ℕ)
    → InOneGroup i d
    → InOneGroup i (update_default tasks d)
unfolding update_default
update_default-InOneGroup [] d i g = g
update_default-InOneGroup (t ∷ ts) d i g =
    update_default-InOneGroup ts (default_step t d) i (default_step-InOneGroup i t d g)

default_if-InOneGroup :
    (updates : Bool) (tasks : List ℕ) (d : Differences) (i : ℕ)
    → InOneGroup i d
    → InOneGroup i (if updates then update_default tasks d else d)
default_if-InOneGroup true tasks d i g = update_default-InOneGroup tasks d i g
default_if-InOneGroup false tasks d i g = g

-- Whenever the differences to the last index can be computed, with the default of an update or
-- without, or there is no last index, no node is in two of the groups that `AddSnapshot` goes
-- through.
pub compute_source_difference-InOneGroup :
    (h : HashAlgorithm) (digest : Digest) (last : Option BackupNodeIndex) (source : SourceIndex)
    (updates : Bool) (d : Differences) (i : ℕ)
    → compute_source_difference h digest last source updates ≡ ok d
    → InOneGroup i d
unfolding compute_source_difference find_moved
compute_source_difference-InOneGroup h digest none source updates d i e = ground arith
compute_source_difference-InOneGroup h digest (some last) source updates d i e =
    let (d', e', q) = >>=-eq-ok (compute_diff h digest last (of_source source)) _ e in
    let tasks = range_from 0 (number_of_nodes source.nodes) in
    let is : (if updates then update_default tasks d' else d') ≡ d = ground arith in
    subst (InOneGroup i) is (
      default_if-InOneGroup updates tasks d' i
        (compute_diff-InOneGroup h digest last (of_source source) d' i e'))
