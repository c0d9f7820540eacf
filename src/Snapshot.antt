-- ===== src/Snapshot.antt =====
-- src/backup/Snapshot.{hpp,cpp}: the nodes that a new snapshot takes over from the one before, and
-- the search for the snapshot that holds the data of a node.
pub mod References
pub mod Kept
pub mod Linked
use acbackup.Prelude.{
  ℕ, Bool, true, false, not, Option, none, some, List, [], ◌∷◌, String, if◌then◌else◌, Result, ok,
  throw, null_pointer, ◌>>=◌,
}
use acbackup.Node.{FilePath, NodeAttributes, BackupNodeAttributes, copy_from}
use acbackup.Index.{Index, add_node, get_node_attributes, get_node_index, get_node_path}
use acbackup.BackupIndex.{Nodes, has_node_data, compute_sum_of_owned_block_sizes}

-- A snapshot by its name and the nodes of its index. Its `prev` members are a list: the snapshot
-- itself, the one before it, and so on to the oldest.
pub record Snapshot : Type 0 where
  pub name : String
  pub index : Nodes

-- The old attributes with the source node's type, size and time. They do not own their blocks.
pub metadata_attributes : BackupNodeAttributes → NodeAttributes → BackupNodeAttributes
metadata_attributes old new = record old { base = copy_from old.base new; owns_blocks = false }

-- `BackupNodeMetadata`.
pub backup_node_metadata :
    (FilePath → Bool) → Snapshot → ℕ → BackupNodeAttributes → Index NodeAttributes → Result Snapshot
unfolding metadata_attributes
backup_node_metadata is_absolute s i old source = do
  path ← get_node_path source i
  new ← get_node_attributes source i
  ok (record s { index = add_node is_absolute s.index path (metadata_attributes old new) })

pub move_attributes : BackupNodeAttributes → NodeAttributes → FilePath → BackupNodeAttributes
move_attributes old new old_path = record old {
  base = copy_from old.base new;
  owns_blocks = false;
  back_reference_target = some old_path;
}

-- `BackupMove`.
pub backup_move :
    (FilePath → Bool)
    → Snapshot
    → ℕ
    → Index NodeAttributes
    → BackupNodeAttributes
    → FilePath
    → Result Snapshot
unfolding move_attributes
backup_move is_absolute s i source old old_path = do
  path ← get_node_path source i
  new ← get_node_attributes source i
  ok (record s { index = add_node is_absolute s.index path (move_attributes old new old_path) })

abbrev path_or : Option FilePath → Result FilePath → Result FilePath
path_or (some p) own = ok p
path_or none own = own

-- `this->prev->index->GetNodeIndex(path)`.
abbrev pub index_in_previous : List Snapshot → FilePath → Result ℕ
index_in_previous [] p = throw null_pointer
index_in_previous (s ∷ older) p = get_node_index s.index p

-- `FindDataSnapshot`: the snapshot that is found, with those before it, and the path of the node in
-- it.
unfoldable pub find_data_snapshot : List Snapshot → ℕ → Result (List Snapshot × FilePath)
find_data_snapshot [] i = throw null_pointer
find_data_snapshot (s ∷ older) i = do
  a ← get_node_attributes s.index i
  if has_node_data a then (do p ← get_node_path s.index i; ok (s ∷ older, p)) else (do
    p ← path_or a.back_reference_target (get_node_path s.index i)
    j ← index_in_previous older p
    find_data_snapshot older j)

-- `ComputeSize`.
unfoldable compute_size : Snapshot → ℕ
compute_size s = compute_sum_of_owned_block_sizes s.index
