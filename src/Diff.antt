-- ===== src/Diff.antt =====
-- src/NodeIndexDifferenceResolver.{hpp,cpp}: what has changed from a snapshot's index, the left one,
-- to another index, the right one.
pub mod Changed
pub mod Deleted
pub mod Moves
pub mod Once
use acbackup.Prelude.{
  ℕ, ite, Bool, true, false, not, Option, none, some, List, [], ◌∷◌, String, String_discrete, ◌==◌,
  ltb, if◌then◌else◌, Result, ok, throw, not_implemented, ◌>>=◌, insert, remove, range_from, ◌&&◌,
  ◌||◌,
}
use acbackup.Node.{
  FilePath, HashAlgorithm, NodeAttributes, FileType, directory, file, link, same_attributes,
  hash_of,
}
use acbackup.Index.{
  Index, number_of_nodes, get_node_attributes, get_node_index, get_node_path, has_node_index,
}
use acbackup.BackupIndex.{
  BackupNodeIndex, as_file_system_index, find_node_index_by_hash, uint32_max,
}
use acbackup.SourceIndex.{SourceIndex, Digest, compute_node_hash}

-- The class of an index, which `RetrieveNodeHash` asks for by `dynamic_cast`.
pub data AnyIndex : Type 0 where
  of_backup : BackupNodeIndex → AnyIndex
  of_source : SourceIndex → AnyIndex
  of_other : Index NodeAttributes → AnyIndex

abbrev pub nodes_of : AnyIndex → Index NodeAttributes
nodes_of (of_backup x) = as_file_system_index x.nodes
nodes_of (of_source x) = x.nodes
nodes_of (of_other x) = x

-- `NodeIndexDifferences`: `deleted` holds numbers of the left index, and the others of the right.
-- `moved` maps numbers of the right index to numbers of the left.
pub record Differences : Type 0 where
  pub deleted : List ℕ
  pub different_data : List ℕ
  pub different_metadata : List ℕ
  pub moved : List (ℕ × ℕ)

abbrev is_empty {ℓ} : {A : Type ℓ} → List A → Bool
is_empty [] = true
is_empty (x ∷ xs) = false

-- `Exist`.
pub exist : Differences → Bool
exist d = not (
    is_empty d.deleted
    && is_empty d.different_data
    && is_empty d.different_metadata
    && is_empty d.moved)

-- The task of `ComputeDifference` for one node: whether it goes into the result.
unfoldable pub differs : Index NodeAttributes → Index NodeAttributes → ℕ → Result Bool
differs left right i = do
  path ← get_node_path left i
  a ← get_node_attributes left i
  if has_node_index right path
      then (do
        j ← get_node_index right path
        b ← get_node_attributes right j
        ok (not (same_attributes a b)))
      else ok true

-- The tasks, in the order in which the thread pool gets to them.
unfoldable pub run_difference_tasks :
    Index NodeAttributes → Index NodeAttributes → List ℕ → List ℕ → Result (List ℕ)
run_difference_tasks left right [] diff = ok diff
run_difference_tasks left right (i ∷ is) diff = do
  include ← differs left right i
  run_difference_tasks left right is (if include then insert i diff else diff)

-- `ComputeDifference`, its tasks in order.
unfoldable pub compute_difference : Index NodeAttributes → Index NodeAttributes → Result (List ℕ)
compute_difference left right =
    run_difference_tasks left right (range_from 0 (number_of_nodes left)) []

-- `ComputeDeleted`. For a node that the right index has, the code reads the size of the right
-- index's node of the same number, for the progress display.
unfoldable pub compute_deleted :
    Index NodeAttributes → Index NodeAttributes → List ℕ → List ℕ → Result (List ℕ)
compute_deleted left right [] deleted = ok deleted
compute_deleted left right (i ∷ is) deleted = do
  path ← get_node_path left i
  if has_node_index right path
      then (do b ← get_node_attributes right i; compute_deleted left right is deleted)
      else (do a ← get_node_attributes left i; compute_deleted left right is (insert i deleted))

-- `RetrieveNodeHash`.
unfoldable pub retrieve_node_hash : HashAlgorithm → Digest → ℕ → AnyIndex → Result String
retrieve_node_hash h digest i (of_backup x) = do a ← get_node_attributes x.nodes i; hash_of h a
retrieve_node_hash h digest i (of_source x) = compute_node_hash digest x i
retrieve_node_hash h digest i (of_other x) = throw not_implemented

-- What becomes of a node of the right index.
pub data Change : Type 0 where
  new_data : Change
  new_metadata : Change
  moved_from : ℕ → Change

-- A `BinaryTreeMap` with ascending keys.
unfoldable pub put_moved : ℕ → ℕ → List (ℕ × ℕ) → List (ℕ × ℕ)
put_moved i j [] = (i, j) ∷ []
put_moved i j ((k, v) ∷ m) =
    if ltb i k
    then (i, j) ∷ (k, v) ∷ m
    else (if i == k then (i, j) ∷ m else (k, v) ∷ put_moved i j m)

abbrev pub add_change : ℕ → Change → Differences → Differences
add_change i new_data d = record d { different_data = insert i d.different_data }
add_change i new_metadata d = record d { different_metadata = insert i d.different_metadata }
add_change i (moved_from j) d = record d { moved = put_moved i j d.moved }

module _ (h : HashAlgorithm) (digest : Digest) (left : BackupNodeIndex) (right : AnyIndex) where
  -- A file or link whose hash value was found at node `j` of the left index.
  unfoldable pub change_by_hash : ℕ → ℕ → Result Change
  change_by_hash i j = if j == uint32_max then ok new_data else (do
    path ← get_node_path (nodes_of right) i
    old ← get_node_path left.nodes j
    ok (ite (String_discrete old path) new_metadata (moved_from j)))

  -- The `switch` on the type of the node.
  unfoldable pub change_of_type : ℕ → FileType → Result Change
  unfolding change_by_hash
  change_of_type i directory = ok new_data
  change_of_type i _ = do
    v ← retrieve_node_hash h digest i right
    change_by_hash i (find_node_index_by_hash left v)

  -- The task of `ComputeNodeDifferences` for one node.
  unfoldable pub change_of : ℕ → Result Change
  unfolding change_of_type
  change_of i = do a ← get_node_attributes (nodes_of right) i; change_of_type i a.type

  -- `ComputeNodeDifferences`, its tasks in the order in which the thread pool gets to them.
  unfoldable pub compute_node_differences : List ℕ → Differences → Result Differences
  compute_node_differences [] d = ok d
  compute_node_differences (i ∷ is) d = do
    c ← change_of i
    compute_node_differences is (add_change i c d)

-- Everything that was moved was not deleted.
unfoldable pub remove_moved : List (ℕ × ℕ) → List ℕ → List ℕ
remove_moved [] deleted = deleted
remove_moved ((i, j) ∷ m) deleted = remove_moved m (remove j deleted)

module _ (h : HashAlgorithm) (digest : Digest) (left : BackupNodeIndex) (right : AnyIndex) where
  -- `ResolveDifferences`.
  unfoldable pub resolve_differences : List ℕ → List ℕ → Result Differences
  resolve_differences left_to_right right_to_left = do
    deleted ← compute_deleted (as_file_system_index left.nodes) (nodes_of right) left_to_right []
    d ←
        compute_node_differences h digest left right right_to_left
          (record { deleted = deleted; different_data = []; different_metadata = []; moved = [] })
    ok (record d { deleted = remove_moved d.moved d.deleted })

  -- `ComputeDiff`.
  unfoldable pub compute_diff : Result Differences
  unfolding resolve_differences
  compute_diff = do
    left_to_right ← compute_difference (as_file_system_index left.nodes) (nodes_of right)
    right_to_left ← compute_difference (nodes_of right) (as_file_system_index left.nodes)
    resolve_differences left_to_right right_to_left
