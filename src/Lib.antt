-- ===== src/Lib.antt =====
-- A model of ACBackup, which backs up a directory as a chain of snapshots. A snapshot has an index of
-- nodes, and its data lies in numbered volume files of a bounded size. A node that did not change
-- refers to the snapshot before. Paths below are those of the repository.
--
-- The parts, and how they work together:
--   Node         src/indexing/FileSystemNodeAttributes.hpp, src/backup/BackupNodeAttributes.{hpp,cpp}:
--                what an index keeps of a node, and the blocks that hold its data.
--   Index        src/indexing/FileSystemNodeIndex.{hpp,cpp}: nodes by number and by path.
--   BackupIndex  src/backup/BackupNodeIndex.{hpp,cpp}: the index of a snapshot, with the map from
--                hash values to nodes. Archive is its XML form (with src/Serialization.hpp), as a tree
--                of elements that is written and read.
--   Volumes      src/backupfilesystem/FlatVolumesFileSystem.{hpp,cpp}, VolumesOutputStream.{hpp,cpp}:
--                the streams of several threads write into volumes, each into one of its own
--                (FindStream, WriteBytes, BytesWereWrittenToVolume, CloseFile). They add blocks to
--                the index.
--   Reading      src/backupfilesystem/FlatVolumesFileSystem.{hpp,cpp} and
--                FlatVolumesBlockInputStream.{hpp,cpp}: the blocks of a node are read from the
--                volumes one after another, and volumes that nothing reads any more are closed.
--   SourceIndex  src/indexing/OSFileSystemNodeIndex.{hpp,cpp}: the hash of a node of the directory,
--                the walk over the directory (Walk) and src/indexing/Filtering/ (Filters).
--   Status       src/status/ProcessStatus.{hpp,cpp}, StatusTrackingOutputStream.cpp: how far a process
--                is, which the walk counts.
--   Diff         src/NodeIndexDifferenceResolver.{hpp,cpp}: which nodes are new, deleted, moved or
--                updated from one index to the next.
--   Snapshot     src/backup/Snapshot.{hpp,cpp}: BackupMove and BackupNodeMetadata, which make nodes
--                without data of their own, and FindDataSnapshot, which follows them.
--   Statistics   src/config/CompressionStatistics.{hpp,cpp}: how well files with an extension
--                compress.
--   Backup       src/backup/Snapshot.cpp, and OpenFileForReading of FlatVolumesFileSystem.cpp: the
--                data of a node goes from the source through the compressor into the volumes
--                (BackupNode), and back (VerifyNode in Read, Restore). IndexFile is the compressed file
--                of an index with its hash value, and ReadInSnapshots of SnapshotManager.cpp.
--   Mount        src/backup/VirtualSnapshotFilesystem.cpp: a snapshot as a file system that is read.
--   Configuration  src/config/ConfigManager.{hpp,cpp}, Config.hpp: the configuration, as it is read
--                from a JSON document.
--   Manager      src/backup/SnapshotManager.{hpp,cpp}: what AddSnapshot takes over, and
--                VerifySnapshot.
--   Prelude      names, lists, results and sets that the other modules share.
--   Tests        runs at concrete inputs.
--
-- How the code is read. A call that may throw returns a `Result`; the access of a container outside
-- its keys or bounds is the error `missing_key`, and the call through a null pointer `null_pointer`.
-- Where the code holds a mutex for the whole of a call, the call is one step, and threads are
-- interleaved by lists of steps (`Volumes.run`, and the lists of tasks in Diff). The loop of WriteBytes
-- is on fuel; one round for each byte and one more are enough, since a round writes at least a byte.
-- The loops of both ReadBytes are on fuel too: a round of the stream reads a byte or leaves a block.
-- So are the loops over the children of an XML element, with a round for each child and one more.
-- StdXX's streams are known by the bytes that they hand on; in what pieces they ask for bytes or give
-- them is an argument (`WriteCalls`, and the requests of a reading).
-- `uint64` arithmetic wraps. The numbers of nodes are `uint32` in the code, and natural numbers here;
-- the hash index uses the largest `uint32` for a missing value, which results state as a bound.
--
-- Parameters stand for code outside the repository: how many bytes the operating system's file stream
-- takes of those that it is given and gives of those asked for, the hash function, the compressor and
-- its inverse, the tests of paths, the contents of the source's files, the text of an XML document
-- and the way through it, floating-point numbers, and clocks.
--
-- Not modelled: the display of the progress, the file of the statistics, commands, the viewer,
-- mounting, and the operating system's files beyond their bytes. The filters for Apple's files are not
-- in the repository.
pub mod Prelude
pub mod Node
pub mod Index
pub mod BackupIndex
pub mod Volumes
pub mod Reading
pub mod Status
pub mod SourceIndex
pub mod Diff
pub mod Snapshot
pub mod Manager
pub mod Statistics
pub mod Backup
pub mod Mount
pub mod Configuration
pub mod Tests
