-- ===== src/Backup/Restore.antt =====
-- src/backup/Snapshot.cpp, `Restore`: a snapshot is written to a directory.
use Prim.Native.String.{◌++◌ as str_append}
use acbackup.Prelude.{
  ℕ, Bool, true, some, List, [], ◌∷◌, ◌++◌, String, ◌==◌, if◌then◌else◌, Result, ok, throw,
  not_implemented, null_pointer, stream_piping_failed, ◌>>=◌, Call, and_then, length, range_from,
}
use acbackup.Node.{
  FilePath, HashAlgorithm, FileType, directory, file, link, Permissions, BackupNodeAttributes,
}
use acbackup.Node.Blocks.{Volumes}
use acbackup.Index.{get_node_attributes, get_node_index, get_node_path, number_of_nodes}
use acbackup.BackupIndex.{Nodes}
use acbackup.Reading.{Reading, Delivers}
use acbackup.Snapshot.{Snapshot, find_data_snapshot}
use acbackup.Backup.{Library}
use acbackup.Backup.Read.{open_file_for_reading, flush_input}

-- What `Restore` does to the disk.
pub data Effect : Type 0 where
  made_directory : FilePath → Permissions → Effect
  wrote_file : FilePath → List ℕ → Permissions → Effect
  made_link : FilePath → FilePath → Effect

-- `FlatVolumesFileSystem::ReadLinkTarget`.
unfoldable pub read_link_target : FilePath → Result FilePath
read_link_target p = throw not_implemented

-- The volume files of each snapshot on disk, and the calls of StdXX that are made of paths: whether
-- the name is empty, the parent, and the entries of the path map in the order of the tree map.
pub record Disk : Type 0 where
  pub files : String → Volumes
  pub has_empty_name : FilePath → Bool
  pub get_parent : FilePath → FilePath
  pub in_order : List (FilePath × ℕ) → List (FilePath × ℕ)

-- What a task finds when it starts: the volumes for reading of the snapshot with the data, and the
-- requests of the streams.
pub record Task : Type 0 where
  pub reading : Reading
  pub requests : List ℕ

module _ (library : Library) (hash_algorithm : HashAlgorithm) (delivers : Delivers) (disk : Disk)
    (restore_point : FilePath) where
  unfoldable pub node_restore_path : FilePath → FilePath
  node_restore_path p =
      let q = str_append restore_point p in if disk.has_empty_name q then disk.get_parent q else q

  abbrev with_directory : FilePath → BackupNodeAttributes → List Effect → List Effect
  with_directory p a effects = elim a.base.type [
    | directory ↦ made_directory (node_restore_path p) a.base.permissions ∷ effects
    | _ ↦ effects
  ]

  -- The first loop, over the path map in its order.
  unfoldable pub restore_directories : Nodes → List (FilePath × ℕ) → Result (List Effect)
  unfolding node_restore_path
  restore_directories x [] = ok []
  restore_directories x (kv ∷ kvs) = do
    i ← get_node_index x kv.0
    a ← get_node_attributes x i
    effects ← restore_directories x kvs
    ok (with_directory kv.0 a effects)

  -- The data of a node, by `OpenFileForReading` of the snapshot that has it.
  unfoldable pub read_data : ℕ → Task → List Snapshot → FilePath → Call (List ℕ)
  read_data fuel task [] p = some (throw null_pointer)
  read_data fuel task (s ∷ older) p = and_then (some (get_node_index s.index p)) (λ j.
      and_then
        (some (open_file_for_reading library hash_algorithm delivers s.index j true task.reading))
        (λ opened.
          flush_input library hash_algorithm delivers fuel (disk.files s.name) task.requests
            opened.0 opened.1))

  -- The cases by type in the task for a node.
  unfoldable pub restore_by_type :
      ℕ → Task → List Snapshot → ℕ → FilePath → BackupNodeAttributes → FileType → Call (List Effect)
  unfolding read_data read_link_target node_restore_path
  restore_by_type fuel task chain i path a directory = some (ok [])
  restore_by_type fuel task chain i path a file =
      and_then (some (find_data_snapshot chain i)) (λ found.
        and_then (read_data fuel task found.0 found.1) (λ bytes.
          if length bytes == a.base.size
          then some (ok (wrote_file (node_restore_path path) bytes a.base.permissions ∷ []))
          else some (throw stream_piping_failed)))
  restore_by_type fuel task chain i path a link =
      and_then (some (find_data_snapshot chain i)) (λ found.
        and_then (some (read_link_target found.1))
          (λ target. some (ok (made_link (node_restore_path path) target ∷ []))))

  -- The task for a node.
  unfoldable pub restore_node : ℕ → Task → Snapshot → List Snapshot → ℕ → Call (List Effect)
  unfolding restore_by_type
  restore_node fuel task s older i = and_then (some (get_node_attributes s.index i)) (λ a.
      and_then (some (get_node_path s.index i))
        (λ path. restore_by_type fuel task (s ∷ older) i path a a.base.type))

  -- The tasks of the nodes that the list names.
  unfoldable pub restore_nodes :
      ℕ → (ℕ → Task) → Snapshot → List Snapshot → List ℕ → Call (List Effect)
  unfolding restore_node
  restore_nodes fuel tasks s older [] = some (ok [])
  restore_nodes fuel tasks s older (i ∷ is) =
      and_then (restore_node fuel (tasks i) s older i) (λ effects.
        and_then (restore_nodes fuel tasks s older is) (λ more. some (ok (effects ++ more))))

  -- `Restore`.
  unfoldable pub restore : ℕ → (ℕ → Task) → Snapshot → List Snapshot → Call (List Effect)
  unfolding restore_directories restore_nodes
  restore fuel tasks s older =
      and_then (some (restore_directories s.index (disk.in_order s.index.path_map))) (λ directories.
        and_then (restore_nodes fuel tasks s older (range_from 0 (number_of_nodes s.index)))
          (λ effects. some (ok (directories ++ effects))))
