-- ===== src/Backup/IndexFile.antt =====
-- src/backup/Snapshot.cpp, `Serialize` and `Deserialize`, and src/backup/SnapshotManager.cpp,
-- `ReadInSnapshots`: the compressed file of an index, and the file with its hash value.
pub mod Protected
pub mod Checked
use acbackup.Prelude.{
  ℕ, ite, Bool, true, false, Option, none, some, List, [], ◌∷◌, ◌++◌, String, String_discrete,
  Result, ok, throw, stream_piping_failed, or_throw, ◌>>=◌, Call, and_then,
}
use acbackup.Node.{FilePath, HashAlgorithm, FileType, file, directory, link}
use acbackup.BackupIndex.{Nodes, BackupNodeIndex}
use acbackup.BackupIndex.Archive.{
  Element, Elements, Reader, Dates, serialize_index, algorithm_name, algorithm_of_name,
}
use acbackup.BackupIndex.Archive.Read.{deserialize_index}
use acbackup.Backup.{Library}
use acbackup.Snapshot.{Snapshot}

-- The text of an XML document: as it is written, and as it is read, with the bytes that the reader
-- takes.
pub record XmlText : Type 0 where
  pub print : Element → List ℕ
  pub parse : List ℕ → Result (Elements × List ℕ)

-- The members of the JSON object of `HashAlgorithmAndValue`.
pub record Protection : Type 0 where
  pub hash_algorithm : String
  pub hash_value : String

-- The file of the index, and the one with its hash value.
pub record IndexFiles : Type 0 where
  pub index_file : List ℕ
  pub index_hash_file : Protection

-- The snapshot that was read, if there is one, goes to the others.
unfoldable pub push_snapshot : Option Snapshot → List Snapshot → List Snapshot
push_snapshot none snapshots = snapshots
push_snapshot (some s) snapshots = s ∷ snapshots

-- `ListSnapshotMetadataFiles`, for the entries of the directory. What sorts the names is an argument.
unfoldable pub metadata_files : List (FileType × String) → List String
metadata_files [] = []
metadata_files ((file, name) ∷ entries) = name ∷ metadata_files entries
metadata_files ((directory, name) ∷ entries) = metadata_files entries
metadata_files ((link, name) ∷ entries) = metadata_files entries

unfoldable pub list_snapshot_metadata_files :
    (List String → List String) → List (FileType × String) → List String
unfolding metadata_files
list_snapshot_metadata_files sort entries = sort (metadata_files entries)

module _ (library : Library) (xml : XmlText) (dates : Dates) (md5 sha512_256 : HashAlgorithm) where
  -- `Serialize`, for the hash algorithm and the level of the configuration.
  unfoldable pub serialize : HashAlgorithm → ℕ → Nodes → Result IndexFiles
  serialize h level x = do
    e ← serialize_index md5 sha512_256 dates.to_iso x
    n ← algorithm_name md5 sha512_256 h
    ok (record {
      index_file = library.compress level (xml.print e);
      index_hash_file = record { hash_algorithm = n; hash_value = library.digest h (xml.print e) };
    })

  module _ (reader : Reader) (is_absolute is_root : FilePath → Bool)
      (get_parent : FilePath → FilePath) (get_title get_file_extension : FilePath → String)
      (configured : HashAlgorithm) where
    -- The index as it was read, if the bytes that were taken for it have the hash value.
    unfoldable pub check_protection :
        HashAlgorithm → Protection → String → List ℕ → BackupNodeIndex → Result (Option Snapshot)
    check_protection h p name taken index =
        ite (String_discrete p.hash_value (library.digest h taken))
          (ok (some (record { name = name; index = index.nodes }))) (throw stream_piping_failed)

    -- `Deserialize`, for the files of the path as they are opened.
    unfoldable pub deserialize : ℕ → FilePath → Result IndexFiles → Call (Option Snapshot)
    unfolding check_protection
    deserialize fuel path opened =
        ite (String_discrete (get_file_extension path) "lzma")
          (and_then (some opened) (λ f.
            and_then (some (algorithm_of_name md5 sha512_256 f.index_hash_file.hash_algorithm))
              (λ h. and_then (some (library.decompress f.index_file)) (λ bytes.
                and_then (some (xml.parse bytes)) (λ document.
                  and_then
                    (deserialize_index reader dates md5 sha512_256 is_absolute is_root get_parent
                      configured fuel document.0)
                    (λ index. some (
                      check_protection h f.index_hash_file (get_title (get_title path)) document.1
                        index)))))))
          (some (ok none))

    module _ (join : FilePath → String → FilePath) (open_files : FilePath → Result IndexFiles) where
      -- The loop of `ReadInSnapshots`, with the snapshots from the newest to the oldest, as
      -- `Previous` links them.
      unfoldable pub read_in_snapshots :
          ℕ → FilePath → List String → List Snapshot → Call (List Snapshot)
      unfolding deserialize
      read_in_snapshots fuel index_path [] snapshots = some (ok snapshots)
      read_in_snapshots fuel index_path (entry ∷ entries) snapshots =
          and_then (deserialize fuel (join index_path entry) (open_files (join index_path entry)))
            (λ s. read_in_snapshots fuel index_path entries (push_snapshot s snapshots))
