-- ===== src/Snapshot/Kept.antt =====
-- Where the nodes that a snapshot takes over from the one before lead to: a moved node and one
-- whose metadata was updated have their data where the old node has it, but for a node that was
-- moved in the snapshot before.
use acbackup.Prelude.{
  ℕ, ◌≡◌, ◌≢◌, refl, ◌∙◌, Bool, true, false, none, some, List, ◌∷◌, arith, ok, throw, ◌>>=◌, length,
  get_elem?-append_last, missing_key,
}
use acbackup.Node.{FilePath, NodeAttributes, BackupNodeAttributes, copy_from}
use acbackup.Index.{
  Index, find_index, find_path, add_node, get_node_attributes, get_node_index, get_node_path,
}
use acbackup.BackupIndex.{has_node_data}
use acbackup.Snapshot.{
  Snapshot, find_data_snapshot, metadata_attributes, move_attributes, backup_node_metadata,
  backup_move,
}
use acbackup.Snapshot.References.{reference, find_data_snapshot_before}

module _ (is_absolute : FilePath → Bool) (s t : Snapshot) (rest : List Snapshot)
    (source : Index NodeAttributes) (i : ℕ) (path : FilePath) (new : NodeAttributes)
    (old : BackupNodeAttributes) (path_is_absolute : is_absolute path ≡ true)
    (source_path : get_node_path source i ≡ ok path)
    (source_attributes : get_node_attributes source i ≡ ok new) (is_stored : new.size ≢ 0) where
  abbrev added : BackupNodeAttributes → Snapshot
  added a = record s { index = add_node is_absolute s.index path a }

  abbrev number : ℕ
  number = length s.index.attributes

  -- A new node without data is looked up in the snapshot before.
  added-reference :
      (a : BackupNodeAttributes)
      → has_node_data a ≡ false
      → find_data_snapshot (added a ∷ t ∷ rest) number
        ≡ (get_node_index t.index (reference a path) >>= λ j. find_data_snapshot (t ∷ rest) j)
  unfolding add_node find_path
  added-reference a d =
      find_data_snapshot_before (added a) (t ∷ rest) number a path
        (get_elem?-append_last s.index.attributes a number refl) (ground arith) d

  -- For a source node with an absolute path and a size other than zero, `BackupMove` from a path of
  -- the snapshot before returns, and the search for the data of the new node is that of the node at
  -- the old path in the snapshot before.
  pub backup_move-finds :
      (j : ℕ) (old_path : FilePath)
      → get_node_index t.index old_path ≡ ok j
      → (s' : Snapshot) × (backup_move is_absolute s i source old old_path ≡ ok s')
        × (find_data_snapshot (s' ∷ t ∷ rest) number ≡ find_data_snapshot (t ∷ rest) j)
  unfolding backup_move
  backup_move-finds j old_path e = (
    added (move_attributes old new old_path),
    rw (source_path, source_attributes),
    added-reference (move_attributes old new old_path)
          (unfold move_attributes has_node_data copy_from in ground arith)
        ∙ (unfold move_attributes in rw e),
  )

  -- For a source node with an absolute path and a size other than zero, whose path the snapshot
  -- before has, `BackupNodeMetadata` of old attributes without a reference to another path returns,
  -- and the search for the data of the new node is that of the node at the same path in the
  -- snapshot before.
  pub backup_node_metadata-finds :
      (j : ℕ)
      → old.back_reference_target ≡ none
      → get_node_index t.index path ≡ ok j
      → (s' : Snapshot) × (backup_node_metadata is_absolute s i old source ≡ ok s')
        × (find_data_snapshot (s' ∷ t ∷ rest) number ≡ find_data_snapshot (t ∷ rest) j)
  unfolding backup_node_metadata
  backup_node_metadata-finds j n e = (
    added (metadata_attributes old new),
    rw (source_path, source_attributes),
    added-reference (metadata_attributes old new)
          (unfold metadata_attributes has_node_data copy_from in ground arith)
        ∙ (unfold metadata_attributes in rw (n, e)),
  )

  -- For a source node with an absolute path and a size other than zero, `BackupNodeMetadata` of old
  -- attributes that refer to another path, as after a move, returns and keeps that reference. If
  -- the snapshot before does not have that path, the search for the data of the new node fails.
  pub backup_node_metadata-loses :
      (old_path : FilePath)
      → old.back_reference_target ≡ some old_path
      → find_index old_path t.index.path_map ≡ none
      → (s' : Snapshot) × (backup_node_metadata is_absolute s i old source ≡ ok s')
        × (find_data_snapshot (s' ∷ t ∷ rest) number ≡ throw missing_key)
  unfolding backup_node_metadata
  backup_node_metadata-loses old_path m e = (
    added (metadata_attributes old new),
    rw (source_path, source_attributes),
    added-reference (metadata_attributes old new)
          (unfold metadata_attributes has_node_data copy_from in ground arith)
        ∙ (unfold metadata_attributes get_node_index in rw (m, e)),
  )

  -- For a source node with an absolute path and a size other than zero, `BackupNodeMetadata` of old
  -- attributes that refer to another path returns and keeps that reference. If the snapshot before
  -- has a node at that path, the search for the data of the new node is that of that node.
  pub backup_node_metadata-mistakes :
      (old_path : FilePath) (k : ℕ)
      → old.back_reference_target ≡ some old_path
      → find_index old_path t.index.path_map ≡ some k
      → (s' : Snapshot) × (backup_node_metadata is_absolute s i old source ≡ ok s')
        × (find_data_snapshot (s' ∷ t ∷ rest) number ≡ find_data_snapshot (t ∷ rest) k)
  unfolding backup_node_metadata
  backup_node_metadata-mistakes old_path k m e = (
    added (metadata_attributes old new),
    rw (source_path, source_attributes),
    added-reference (metadata_attributes old new)
          (unfold metadata_attributes has_node_data copy_from in ground arith)
        ∙ (unfold metadata_attributes get_node_index in rw (m, e)),
  )
