-- ===== src/SourceIndex/Walk.antt =====
-- src/indexing/OSFileSystemNodeIndex.cpp: the directory that is backed up is walked.
use Prim.Native.String.{◌++◌ as str_append}
use acbackup.Prelude.{
  Bool, true, not, ◌||◌, String, if◌then◌else◌, Result, ok, throw, link_points_out_of_index_dir,
  ◌>>=◌,
}
use acbackup.Node.{
  FilePath, FileType, directory, file, link, FileInfo, NodeAttributes, of_file_info,
}
use acbackup.Index.{Index, add_node}
use acbackup.Status.{ProcessStatus, add_total_size, inc_file_count}
use acbackup.SourceIndex.Filters.{FileOnDisk, ReadLines, desktop_ini_matches, thumbs_db_matches}

-- A file of the operating system: what it says of it, the file's bytes, the target of a link, and the
-- children of a directory in the order in which they are listed.
mutual
  pub data OsFile : Type 0 where
    os_file : FileInfo → FileOnDisk → FilePath → OsChildren → OsFile

  pub data OsChildren : Type 0 where
    no_more : OsChildren
    child : String → OsFile → OsChildren → OsChildren

-- StdXX's paths: `operator/`, `GetParent`, `IsRelative`, `IsParentOf` and `IsAbsolute`.
pub record Paths : Type 0 where
  pub join : FilePath → FilePath → FilePath
  pub get_parent : FilePath → FilePath
  pub is_relative : FilePath → Bool
  pub is_parent_of : FilePath → FilePath → Bool
  pub is_absolute : FilePath → Bool

-- The index and the status of the search.
pub record Walk : Type 0 where
  pub nodes : Index NodeAttributes
  pub find_status : ProcessStatus

-- The filters for Apple's files are not in the repository, and so are arguments, which come first.
module _ (paths : Paths) (read_lines : ReadLines)
    (apple_store_matches apple_double_matches : FileOnDisk → Bool) (base_path : FilePath) where
  -- `MapNodePathToFileSystemPath`.
  unfoldable pub map_node_path : FilePath → FilePath
  map_node_path p = str_append base_path p

  -- `ShouldFileBeIndexed`.
  unfoldable pub should_file_be_indexed : FileOnDisk → Bool
  should_file_be_indexed f = not (
      apple_store_matches f
      || apple_double_matches f
      || desktop_ini_matches read_lines f
      || thumbs_db_matches f)

  -- The test of `VerifyThatLinkPointsInsideBackupPath`.
  unfoldable pub points_inside : FilePath → FilePath → Bool
  unfolding map_node_path
  points_inside path target = paths.is_parent_of base_path (
      if paths.is_relative target
      then map_node_path (paths.join (paths.get_parent path) target)
      else target)

  -- The guards of `IndexFile`: whether the file is indexed, or the exception.
  unfoldable pub admits : FileType → FilePath → FileOnDisk → FilePath → Result Bool
  unfolding should_file_be_indexed points_inside
  admits file path f target = ok (should_file_be_indexed f)
  admits link path f target =
      if points_inside path target then ok true else throw link_points_out_of_index_dir
  admits directory path f target = ok true

  -- The node is added, and counted.
  unfoldable pub add_to_walk : FilePath → FileInfo → Walk → Walk
  add_to_walk path info w = record {
    nodes = add_node paths.is_absolute w.nodes path (of_file_info info);
    find_status = inc_file_count (add_total_size (of_file_info info).size w.find_status);
  }

  -- The body of `IndexFile`, where the last step is the one for the children.
  unfoldable pub index_by_type :
      FileType
      → FilePath
      → FileInfo
      → FileOnDisk
      → FilePath
      → (Walk → Result Walk)
      → Walk
      → Result Walk
  unfolding admits add_to_walk
  index_by_type type path info f target index_children w = do
    indexed ← admits type path f target
    if indexed
        then (elim type [
          | directory ↦ index_children (add_to_walk path info w)
          | _ ↦ ok (add_to_walk path info w)
        ])
        else ok w

  -- `IndexFile` and `IndexDirectoryChildren`.
  unfoldable mutual
    unfolding index_by_type

    pub index_file : FilePath → OsFile → Walk → Result Walk
    index_file path (os_file info f target cs) w =
        index_by_type info.type path info f target (λ v. index_directory_children path cs v) w

    pub index_directory_children : FilePath → OsChildren → Walk → Result Walk
    index_directory_children path no_more w = ok w
    index_directory_children path (child name f cs) w = do
      w' ← index_file (paths.join path name) f w
      index_directory_children path cs w'
