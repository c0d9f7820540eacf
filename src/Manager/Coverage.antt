-- ===== src/Manager/Coverage.antt =====
-- Every node of the source goes into a new snapshot.
use acbackup.Prelude.{
  ℕ, ◌<◌, ◌≡◌, refl, ap, subst, ◌∙◌, ◌||◌, Bool, true, Option, none, some, List, [], ◌∷◌, arith, ok,
  >>=-eq-ok, contains, insert, contains-insert, contains-range_from, range_from, if◌then◌else◌,
  Bool-cases, ℕ_discrete, inl, inr,
}
use acbackup.Node.{HashAlgorithm}
use acbackup.Index.{number_of_nodes}
use acbackup.BackupIndex.{BackupNodeIndex}
use acbackup.SourceIndex.{SourceIndex, Digest}
use acbackup.Diff.{of_source, Differences, compute_diff}
use acbackup.Manager.{has_move, update_default, insert_all, compute_source_difference}

-- The node is in one of the groups that `AddSnapshot` goes through.
abbrev pub is_included : ℕ → Differences → Bool
is_included i d =
    contains i d.different_data || contains i d.different_metadata || has_move i d.moved

one_default :
    (t : ℕ) (ts : List ℕ) (d : Differences) (i : ℕ)
    → (contains i (t ∷ ts) || is_included i d) ≡ true
    → (contains i ts
        || is_included i (
            if is_included t d
            then d
            else record d { different_metadata = insert t d.different_metadata }))
      ≡ true
one_default t ts d i h = elim (Bool-cases (is_included t d)) [
  | inl k ↦ rw k (elim (ℕ_discrete i t) [
    | yes e ↦ let k' : is_included i d ≡ true = ap (λ n. is_included n d) e ∙ k in ground arith
    | no n ↦ ground arith
  ])
  | inr k ↦ rw k (ground (arith, contains-insert i t d.different_metadata))
]

update_default-includes :
    (tasks : List ℕ) (d : Differences) (i : ℕ)
    → (contains i tasks || is_included i d) ≡ true
    → is_included i (update_default tasks d) ≡ true
unfolding update_default
update_default-includes [] d i h = h
update_default-includes (t ∷ ts) d i h =
    update_default-includes ts
      (if is_included t d
        then d
        else record d { different_metadata = insert t d.different_metadata })
      i (one_default t ts d i h)

insert_all-contains :
    (tasks s : List ℕ) (i : ℕ)
    → contains i (insert_all tasks s) ≡ (contains i tasks || contains i s)
unfolding insert_all
insert_all-contains [] s i = refl
insert_all-contains (t ∷ ts) s i =
    ground (arith, insert_all-contains ts (insert t s) i, contains-insert i t s)

-- Whenever the differences to the last index can be computed, every node of the source is in one of
-- the groups that `AddSnapshot` backs up: new data, an update of the metadata or a move. So it is
-- for the first snapshot.
pub compute_source_difference-includes :
    (h : HashAlgorithm) (digest : Digest) (last : Option BackupNodeIndex) (source : SourceIndex)
    (d : Differences) (i : ℕ)
    → compute_source_difference h digest last source true ≡ ok d
    → i < number_of_nodes source.nodes
    → is_included i d ≡ true
unfolding compute_source_difference
compute_source_difference-includes h digest none source d i e b = ground (
  arith,
  insert_all-contains (range_from 0 (number_of_nodes source.nodes)) [] i,
  contains-range_from i 0 (number_of_nodes source.nodes),
)
compute_source_difference-includes h digest (some last) source d i e b =
    let (d', e', q) = >>=-eq-ok (compute_diff h digest last (of_source source)) _ e in
    let tasks = range_from 0 (number_of_nodes source.nodes) in
    let listed : contains i tasks ≡ true =
      ground (arith, contains-range_from i 0 (number_of_nodes source.nodes)) in
    let all = update_default-includes tasks d' i (rw listed refl) in
    let same : update_default tasks d' ≡ d = ground arith in
    subst (λ x. is_included i x ≡ true) same all
