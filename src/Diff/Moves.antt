-- ===== src/Diff/Moves.antt =====
-- How the nodes that differ are sorted into new, updated and moved ones.
use acbackup.Prelude.{
  ℕ, ◌<◌, ◌≡◌, ◌≢◌, refl, sym, subst, ap, ◌∙◌, inl, inr, ◌⊎◌, Bool, true, false, ◌&&◌, ◌||◌, Option,
  none, some, List, [], ◌∷◌, arith, String, String_discrete, ℕ_discrete, get_elem?, Result, ok,
  throw, Result-cases, >>=-eq-ok, ◌>>=◌, length, contains, contains-insert, lt_of_get_elem?, ◌==◌,
  if◌then◌else◌,
}
use acbackup.Node.{
  NodeAttributes, BackupNodeAttributes, HashAlgorithm, FileType, directory, file, link, find_hash,
}
use acbackup.Index.{get_node_attributes, get_node_path}
use acbackup.BackupIndex.{BackupNodeIndex, generate_hash_index, find_node_index_by_hash, uint32_max}
use acbackup.BackupIndex.Hashes.{IsNewest, find_node_index_by_hash_lem}
use acbackup.SourceIndex.{Digest}
use acbackup.Diff.{
  AnyIndex, nodes_of, Differences, Change, new_data, new_metadata, moved_from, put_moved,
  add_change, change_by_hash, change_of_type, change_of, compute_node_differences,
  retrieve_node_hash,
}

unfoldable pub find_moved : ℕ → List (ℕ × ℕ) → Option ℕ
find_moved i [] = none
find_moved i ((k, v) ∷ m) = if i == k then some v else find_moved i m

abbrev is_new_data : Result Change → Bool
is_new_data (ok new_data) = true
is_new_data (ok _) = false
is_new_data (throw e) = false

abbrev is_new_metadata : Result Change → Bool
is_new_metadata (ok new_metadata) = true
is_new_metadata (ok _) = false
is_new_metadata (throw e) = false

abbrev moved_or : Result Change → Option ℕ → Option ℕ
moved_or (ok (moved_from j)) old = some j
moved_or (ok _) old = old
moved_or (throw e) old = old

find_moved-put_moved :
    (i k v : ℕ) (m : List (ℕ × ℕ))
    → find_moved i (put_moved k v m) ≡ (if i == k then some v else find_moved i m)
unfolding find_moved put_moved
find_moved-put_moved i k v [] = refl
find_moved-put_moved i k v ((j, w) ∷ m) = ground (arith, find_moved-put_moved i k v m)

module _ (h : HashAlgorithm) (digest : Digest) (left : BackupNodeIndex) (right : AnyIndex)
    (read_in : left.hash_index ≡ generate_hash_index h left.nodes) where
  -- The node `j` of the left index is the last with the hash value of node `i` of the right.
  pub HasSameData : ℕ → ℕ → Type 0
  HasSameData i j =
      (v : String) × (retrieve_node_hash h digest i right ≡ ok v) × IsNewest h v left.nodes j

  -- Node `i` of the right index is not a directory.
  pub HasContents : ℕ → Type 0
  HasContents i =
      (a : NodeAttributes) × (get_node_attributes (nodes_of right) i ≡ ok a) × (a.type ≢ directory)

  -- Node `i` of the right index is a directory, or it is none and no node of the left index has its
  -- hash value.
  pub IsNew : ℕ → Type 0
  IsNew i =
      ((a : NodeAttributes) × (get_node_attributes (nodes_of right) i ≡ ok a)
        × (a.type ≡ directory))
      ⊎ (HasContents i
          × ((v : String) × (retrieve_node_hash h digest i right ≡ ok v)
              × ((k : ℕ) (a : BackupNodeAttributes)
                  → get_elem? left.nodes.attributes k ≡ some a
                  → find_hash h a.hashes ≢ some v)))

  abbrev pub Explains : ℕ → Change → Type 0
  Explains i new_data = IsNew i
  Explains i new_metadata =
      HasContents i
      × ((j : ℕ) × HasSameData i j
          × (get_node_path left.nodes j ≡ get_node_path (nodes_of right) i))
  Explains i (moved_from j) =
      HasContents i
      × HasSameData i j
      × (get_node_path left.nodes j ≢ get_node_path (nodes_of right) i)

  found_lem :
      (i j : ℕ) (v : String) (c : Change)
      → HasContents i
      → j < uint32_max
      → retrieve_node_hash h digest i right ≡ ok v
      → IsNewest h v left.nodes j
      → change_by_hash h digest left right i j ≡ ok c
      → Explains i c
  unfolding change_by_hash HasSameData
  found_lem i j v c o b e newest q = elim (Result-cases (get_node_path (nodes_of right) i)) [
    | inr (x, ep) ↦ absurd (ground arith)
    | inl (p, ep) ↦ elim (Result-cases (get_node_path left.nodes j)) [
      | inr (x, eo) ↦ absurd (ground arith)
      | inl (from, eo) ↦ elim (String_discrete from p) [
        | yes s ↦
            let is : new_metadata ≡ c = ground arith in
            subst (Explains i) is (o, (j, (v, e, newest), eo ∙ ap ok s ∙ sym ep))
        | no n ↦
            let is : moved_from j ≡ c = ground arith in
            subst (Explains i) is (o, (v, e, newest), λ s. ground arith)
      ]
    ]
  ]

  change_by_hash_lem :
      (i : ℕ) (v : String) (c : Change)
      → HasContents i
      → length left.nodes.attributes < uint32_max
      → retrieve_node_hash h digest i right ≡ ok v
      → change_by_hash h digest left right i (find_node_index_by_hash left v) ≡ ok c
      → Explains i c
  unfolding IsNew
  change_by_hash_lem i v c o b e q = elim (find_node_index_by_hash_lem h v left read_in) [
    | inl newest ↦
        let (a, g, f) = newest.0 in
        found_lem i (find_node_index_by_hash left v) v c o
          (omega (arith, lt_of_get_elem? left.nodes.attributes _ a g)) e newest q
    | inr (m, absent) ↦
        let is : new_data ≡ c = unfold change_by_hash in ground arith in
        subst (Explains i) is (inr (o, (v, e, absent)))
  ]

  by_hash :
      (i : ℕ) (c : Change)
      → HasContents i
      → length left.nodes.attributes < uint32_max
      → (retrieve_node_hash h digest i right >>= λ v.
          change_by_hash h digest left right i (find_node_index_by_hash left v))
        ≡ ok c
      → Explains i c
  by_hash i c o b q =
      let (v, ev, qv) = >>=-eq-ok (retrieve_node_hash h digest i right) _ q in
      change_by_hash_lem i v c o b ev qv

  by_type :
      (i : ℕ) (c : Change) (a : NodeAttributes) (t : FileType)
      → length left.nodes.attributes < uint32_max
      → get_node_attributes (nodes_of right) i ≡ ok a
      → a.type ≡ t
      → change_of_type h digest left right i t ≡ ok c
      → Explains i c
  unfolding change_of_type IsNew
  by_type i c a directory b ea et q =
      let is : new_data ≡ c = ground arith in subst (Explains i) is (inl (a, ea, et))
  by_type i c a file b ea et q = by_hash i c (unfold HasContents in (a, ea, λ d. ground arith)) b q
  by_type i c a link b ea et q = by_hash i c (unfold HasContents in (a, ea, λ d. ground arith)) b q

  -- What the task of `ComputeNodeDifferences` makes of a node, for a left index that was read in
  -- and has fewer than 2^32 - 1 nodes: a directory is new, and so is a file or link whose hash
  -- value no left node has. For any other, the last left node with that hash value decides: it is
  -- an update of the metadata if it has the same path, and a move from it if not.
  pub change_of-Explains :
      (i : ℕ) (c : Change)
      → length left.nodes.attributes < uint32_max
      → change_of h digest left right i ≡ ok c
      → Explains i c
  unfolding change_of
  change_of-Explains i c b q =
      let (a, ea, qa) = >>=-eq-ok (get_node_attributes (nodes_of right) i) _ q in
      by_type i c a a.type b ea refl qa

module _ (h : HashAlgorithm) (digest : Digest) (left : BackupNodeIndex) (right : AnyIndex) where
  abbrev change : ℕ → Result Change
  change i = change_of h digest left right i

  -- What a set of results says of node `i`, after tasks that began with another.
  abbrev pub Sorted : List ℕ → Differences → Differences → ℕ → Type 0
  Sorted tasks start d i =
      (contains i d.different_data
        ≡ (contains i start.different_data || (contains i tasks && is_new_data (change i))))
      × (contains i d.different_metadata ≡ (
          contains i start.different_metadata || (contains i tasks && is_new_metadata (change i))))
      × (find_moved i d.moved ≡ (
          if contains i tasks
          then moved_or (change i) (find_moved i start.moved)
          else find_moved i start.moved))
      × (d.deleted ≡ start.deleted)

  Sorted-task :
      (t : ℕ) (ts : List ℕ) (start d : Differences) (i : ℕ) (c : Change)
      → change t ≡ ok c
      → Sorted ts (add_change t c start) d i
      → Sorted (t ∷ ts) start d i
  Sorted-task t ts start d i new_data e s = elim (ℕ_discrete i t) [
    | yes q ↦
        let ei : change i ≡ ok new_data = ap change q ∙ e in
        ground (arith, contains-insert i t start.different_data)
    | no q ↦ ground (arith, contains-insert i t start.different_data)
  ]
  Sorted-task t ts start d i new_metadata e s = elim (ℕ_discrete i t) [
    | yes q ↦
        let ei : change i ≡ ok new_metadata = ap change q ∙ e in
        ground (arith, contains-insert i t start.different_metadata)
    | no q ↦ ground (arith, contains-insert i t start.different_metadata)
  ]
  Sorted-task t ts start d i (moved_from j) e s = elim (ℕ_discrete i t) [
    | yes q ↦
        let ei : change i ≡ ok (moved_from j) = ap change q ∙ e in
        ground (arith, find_moved-put_moved i t j start.moved)
    | no q ↦ ground (arith, find_moved-put_moved i t j start.moved)
  ]

  -- Every node that `ComputeNodeDifferences` is given is sorted by its change, in whatever order
  -- the tasks run: it is in the set of new nodes, in that of updates or a key of the moves exactly
  -- if it was there before or was given and its change says so, and the value of a move is the left
  -- node of the change.
  pub compute_node_differences_lem :
      (tasks : List ℕ) (start d : Differences)
      → compute_node_differences h digest left right tasks start ≡ ok d
      → (i : ℕ) → Sorted tasks start d i
  unfolding compute_node_differences
  compute_node_differences_lem [] start d e i =
      let same : start ≡ d = ground arith in subst (λ x. Sorted [] start x i) same (ground arith)
  compute_node_differences_lem (t ∷ ts) start d e i =
      let (c, ec, ed) = >>=-eq-ok (change t) _ e in
      Sorted-task t ts start d i c ec
        (compute_node_differences_lem ts (add_change t c start) d ed i)
