-- ===== src/Mount.antt =====
-- src/backup/VirtualSnapshotFilesystem.cpp: a snapshot as a file system that can be mounted.
pub mod Children
use acbackup.Prelude.{
  ℕ, ◌+◌, ◌<◌, ite, Bool, true, false, Option, none, some, List, [], ◌∷◌, String, String_discrete,
  ◌==◌, ltb, if◌then◌else◌, Result, ok, throw, null_pointer, missing_key, or_throw, ◌>>=◌, length,
  get_elem?, range_from,
}
use acbackup.Node.{
  FilePath, DateTime, HashAlgorithm, FileType, Permissions, BackupNodeAttributes,
  sum_of_block_sizes,
}
use acbackup.Index.{
  get_node_attributes, get_node_index, get_node_path, has_node_index, number_of_nodes,
}
use acbackup.BackupIndex.{Nodes}
use acbackup.Reading.{Reading, Delivers}
use acbackup.Snapshot.{Snapshot, find_data_snapshot}
use acbackup.Backup.{Library}
use acbackup.Backup.Read.{FileInput, open_file_for_reading}

-- `Path::GetParent` and `Path::GetName`.
pub record PathParts : Type 0 where
  pub get_parent : FilePath → FilePath
  pub get_name : FilePath → String

module _ (parts : PathParts) where
  -- The loop of `EnumerateChildren` over the nodes that the list names.
  unfoldable pub children_among : Nodes → FilePath → ℕ → List ℕ → Result (List ℕ)
  children_among x path node [] = ok []
  children_among x path node (i ∷ is) =
      let rest = children_among x path node is in
      if i == node then rest else (do
        p ← get_node_path x i
        cs ← rest
        ok (ite (String_discrete (parts.get_parent p) path) (i ∷ cs) cs))

  -- `EnumerateChildren`: the children that the enumerator goes through.
  unfoldable pub enumerate_children : Nodes → FilePath → Result (Option (List ℕ))
  unfolding children_among
  enumerate_children x path =
      if has_node_index x path
      then (do
        node ← get_node_index x path
        cs ← children_among x path node (range_from 0 (number_of_nodes x))
        ok (some cs))
      else ok none

  pub record DirectoryEntry : Type 0 where
    pub type : FileType
    pub name : String

  -- `VirtualDirectoryEnumerator`. The position is `currentIndex + 1`.
  pub record DirectoryEnumerator : Type 0 where
    pub children : List ℕ
    pub position : ℕ
    pub entry : Option DirectoryEntry

  unfoldable pub begin_enumeration : List ℕ → DirectoryEnumerator
  begin_enumeration cs = record { children = cs; position = 0; entry = none }

  -- `MoveForward`.
  unfoldable pub move_forward : Nodes → DirectoryEnumerator → Result (DirectoryEnumerator × Bool)
  move_forward x e = elim (ltb e.position (length e.children)) [
    | true ↦ do
      node ← or_throw (get_elem? e.children e.position) missing_key
      a ← get_node_attributes x node
      p ← get_node_path x node
      ok (
        record e {
          position = e.position + 1;
          entry = some (record { type = a.base.type; name = parts.get_name p });
        },
        true,
      )
    | false ↦ ok (e, false)
  ]

-- `FileInfo`, with the size that is stored.
pub record VirtualFileInfo : Type 0 where
  pub type : FileType
  pub size : ℕ
  pub last_modified_time : Option DateTime
  pub permissions : Permissions
  pub stored_size : ℕ

-- `QueryFileInfo`.
unfoldable pub query_file_info : Nodes → FilePath → Result (Option VirtualFileInfo)
query_file_info x path =
    if has_node_index x path
    then (do
      i ← get_node_index x path
      a ← get_node_attributes x i
      ok (
          some (record {
            type = a.base.type;
            size = a.base.size;
            last_modified_time = a.base.last_modified_time;
            permissions = a.base.permissions;
            stored_size = sum_of_block_sizes a.blocks;
          })))
    else ok none

module _ (library : Library) (hash_algorithm : HashAlgorithm) (delivers : Delivers)
    (reading : String → Reading) where
  -- `dataSnapshot->Filesystem().OpenFileForReading(snapshotPath, true)`, with the name of the snapshot.
  unfoldable pub open_data : List Snapshot → FilePath → Result (String × Reading × FileInput)
  open_data [] path = throw null_pointer
  open_data (s ∷ older) path = do
    i ← get_node_index s.index path
    (r, input) ←
        open_file_for_reading library hash_algorithm delivers s.index i true (reading s.name)
    ok (s.name, r, input)

  -- `OpenFileForReading`.
  unfoldable pub open_virtual_file :
      Snapshot → List Snapshot → FilePath → Result (Option (String × Reading × FileInput))
  unfolding open_data
  open_virtual_file s older path =
      if has_node_index s.index path
      then (do
        i ← get_node_index s.index path
        (found, p) ← find_data_snapshot (s ∷ older) i
        opened ← open_data found p
        ok (some opened))
      else ok none
