-- ===== src/Snapshot/Linked.antt =====
-- A new snapshot whose nodes were taken over from the one before stays linked to it, so that the
-- search for data goes on to return.
use acbackup.Prelude.{
  ℕ, ◌≡◌, refl, ◌∙◌, Bool, true, false, none, some, List, [], ◌∷◌, ◌++◌, arith, ok, length,
  get_elem?-append_last, get_elem?-append_left, length-append, ℕ_discrete, sym, lt_of_get_elem?,
}
use acbackup.Node.{FilePath, NodeAttributes, BackupNodeAttributes, copy_from}
use acbackup.Index.{
  Index, find_index, find_path, absolute_path, add_node, get_node_attributes, get_node_index,
  get_node_path,
}
use acbackup.Index.WellFormed.{add_node-IsWellFormed}
use acbackup.Snapshot.{
  Snapshot, metadata_attributes, move_attributes, backup_node_metadata, backup_move,
}
use acbackup.Snapshot.References.{reference, AllReferred, IsLinked}

module _ (is_absolute : FilePath → Bool) (s t : Snapshot) (rest : List Snapshot)
    (source : Index NodeAttributes) (i : ℕ) (path : FilePath) (new : NodeAttributes)
    (path_is_absolute : is_absolute path ≡ true) (source_path : get_node_path source i ≡ ok path)
    (source_attributes : get_node_attributes source i ≡ ok new)
    (is_new : find_index path s.index.path_map ≡ none) (linked : IsLinked (s ∷ t ∷ rest)) where
  abbrev added : BackupNodeAttributes → Snapshot
  added a = record s { index = add_node is_absolute s.index path a }

  same_path : absolute_path is_absolute path ≡ path
  unfolding absolute_path
  same_path = rw path_is_absolute refl

  -- One more node, whose reference is there.
  added-AllReferred :
      (a : BackupNodeAttributes) (j : ℕ)
      → get_node_index t.index (reference a path) ≡ ok j
      → AllReferred (added a) (t ∷ rest)
  unfolding add_node find_path
  added-AllReferred a j e k b p eb ep d = elim (ℕ_discrete k (length s.index.attributes)) [
    | yes q ↦
        let is : a ≡ b = ground (arith, get_elem?-append_last s.index.attributes a k q) in
        let at : path ≡ p = ground (arith, same_path) in (j, rw (← is, ← at) e)
    | no n ↦
        let bound = lt_of_get_elem? (s.index.attributes ++ a ∷ []) k b eb in
        linked.1 k b p
          (sym (
              get_elem?-append_left s.index.attributes (a ∷ []) k
                (omega (arith, length-append s.index.attributes (a ∷ []))))
            ∙ eb)
          (ground arith) d
  ]

  added-IsLinked :
      (a : BackupNodeAttributes) (j : ℕ)
      → get_node_index t.index (reference a path) ≡ ok j
      → IsLinked (added a ∷ t ∷ rest)
  added-IsLinked a j e = (
    add_node-IsWellFormed is_absolute s.index path a (rw same_path is_new) linked.0,
    added-AllReferred a j e,
    linked.2,
  )

  -- In a chain whose references all lead into the snapshot before, `BackupMove` of a source node
  -- with an absolute path that the new snapshot does not have, from a path of the last snapshot,
  -- returns and leaves such a chain.
  pub backup_move-IsLinked :
      (old : BackupNodeAttributes) (j : ℕ) (old_path : FilePath)
      → get_node_index t.index old_path ≡ ok j
      → (s' : Snapshot) × (backup_move is_absolute s i source old old_path ≡ ok s')
        × IsLinked (s' ∷ t ∷ rest)
  unfolding backup_move
  backup_move-IsLinked old j old_path e = (
    added (move_attributes old new old_path),
    rw (source_path, source_attributes),
    added-IsLinked (move_attributes old new old_path) j (unfold move_attributes in e),
  )

  -- What `BackupNodeMetadata` makes of the node: the type, size and time of the source, and the rest
  -- of the old attributes, without the blocks being owned.
  pub record IsUpdated (old : BackupNodeAttributes) (s' : Snapshot) : Type 0 where
    pub node : ℕ
    pub attributes : BackupNodeAttributes
    pub at_path : get_node_index s'.index path ≡ ok node
    pub of_node : get_node_attributes s'.index node ≡ ok attributes
    pub type : attributes.base.type ≡ new.type
    pub size : attributes.base.size ≡ new.size
    pub time : attributes.base.last_modified_time ≡ new.last_modified_time
    pub permissions : attributes.base.permissions ≡ old.base.permissions
    pub blocks : attributes.blocks ≡ old.blocks
    pub hashes : attributes.hashes ≡ old.hashes
    pub compression : attributes.compression_setting ≡ old.compression_setting
    pub owner : attributes.owns_blocks ≡ false

  added-find_path :
      (a : BackupNodeAttributes)
      → find_path (length s.index.attributes) (added a).index.path_map ≡ some path
  unfolding add_node find_path
  added-find_path a = ground (arith, same_path)

  added-at_path :
      (a : BackupNodeAttributes) (j : ℕ)
      → get_node_index t.index (reference a path) ≡ ok j
      → get_node_index (added a).index path ≡ ok (length s.index.attributes)
  unfolding get_node_index
  added-at_path a j e =
      let w = (added-IsLinked a j e).0 in
      rw (w.to_index (length s.index.attributes) path (added-find_path a)) refl

  added-of_node :
      (a : BackupNodeAttributes)
      → get_node_attributes (added a).index (length s.index.attributes) ≡ ok a
  unfolding get_node_attributes add_node
  added-of_node a =
      rw (get_elem?-append_last s.index.attributes a (length s.index.attributes) refl) refl

  -- In a chain whose references all lead into the snapshot before, for a source node with an
  -- absolute path that the new snapshot does not have and the last one has, `BackupNodeMetadata` of
  -- old attributes without a reference to another path returns. The node is there with the type,
  -- size and time of the source and otherwise the old attributes, without owning its blocks, and
  -- the references of the chain all lead into the snapshot before.
  pub backup_node_metadata-IsLinked :
      (old : BackupNodeAttributes) (j : ℕ)
      → old.back_reference_target ≡ none
      → get_node_index t.index path ≡ ok j
      → (s' : Snapshot) × (backup_node_metadata is_absolute s i old source ≡ ok s')
        × IsUpdated old s'
        × IsLinked (s' ∷ t ∷ rest)
  unfolding backup_node_metadata metadata_attributes copy_from
  backup_node_metadata-IsLinked old j none_kept e =
      let a = metadata_attributes old new in
      let e' : get_node_index t.index (reference a path) ≡ ok j = rw none_kept e in
      (
        added a,
        rw (source_path, source_attributes),
        record {
          node = length s.index.attributes;
          attributes = a;
          at_path = added-at_path a j e';
          of_node = added-of_node a;
          type = refl;
          size = refl;
          time = refl;
          permissions = refl;
          blocks = refl;
          hashes = refl;
          compression = refl;
          owner = refl;
        },
        added-IsLinked a j e',
      )
