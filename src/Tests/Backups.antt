-- ===== src/Tests/Backups.antt =====
-- One file is backed up, verified and restored.
use acbackup.Prelude.{
  ℕ, ◌≡◌, ◌≢◌, refl, true, false, Option, none, some, List, [], ◌∷◌, ◌++◌, arith, ok, throw,
  malformed_index, Result, String_discrete, append-nil, ℕ_discrete,
}
use acbackup.Node.{FilePath, NodeAttributes, lzma}
use acbackup.Index.{
  Index, find_index, find_path, get_node_path, get_node_attributes, number_of_nodes,
}
use acbackup.BackupIndex.{has_node_data}
use acbackup.BackupIndex.Changes.{blocks_at, without_blocks}
use acbackup.Volumes.{init}
use acbackup.Volumes.Chunk.{IsConsistent, stored}
use acbackup.Volumes.Init.{init-IsConsistent}
use acbackup.Snapshot.{Snapshot, find_data_snapshot}
use acbackup.Statistics.{get_compression_rate, get_compression_level, find_rate}
use acbackup.Backup.{
  Config, SourceFiles, Library, BackupState, NodeInput, open_node, choose_level, backup_node,
}
use acbackup.Backup.Read.{verify_node}
use acbackup.Backup.Writes.{joined}
use acbackup.Backup.Requests.{sum}
use acbackup.Backup.Stores.{encoded, setting_for, IsFaithful, BackedUp}
use acbackup.Backup.Nodes.{backup_node-BackedUp}
use acbackup.Backup.Verified.{verify_node-BackedUp}
use acbackup.Backup.Restore.{Disk, Task, wrote_file, node_restore_path, restore_node}
use acbackup.Backup.Restored.{restore_node-BackedUp}
use acbackup.Tests.Data.{plain, any_path, one_node, no_nodes, no_nodes-IsWellFormed}
use acbackup.Tests.Rates.{whole, same_text}
use acbackup.Tests.Streams.{takes_all, takes_all-IsLawful, takes_all-IsLively}
use acbackup.Tests.Readers.{
  gives_all, gives_all-IsExact, two_volumes, written, written-IsConsistent,
}

unfoldable pub without_mark : List ℕ → Result (List ℕ)
without_mark [] = throw malformed_index
without_mark (b ∷ bs) = ok bs

-- A compressor that puts a mark in front, and a buffer that holds everything back until the end.
abbrev pub library : Library
library = record {
  digest = λ h bytes. "d";
  compress = λ level bytes. 9 ∷ bytes;
  decompress = without_mark;
  write_calls = λ size level bytes. record {
    piped = [];
    flushed = (elim level [ some l ↦ 9 ∷ bytes | none ↦ bytes ]) ∷ [];
  };
}

pub library-IsFaithful : IsFaithful library
unfolding joined encoded without_mark
library-IsFaithful = record { hands_on = hands_on; undoes = λ level bytes. refl }
  where
    hands_on :
        (size : ℕ) (level : Option ℕ) (bytes : List ℕ)
        → joined [] ++ joined ((elim level [ some l ↦ 9 ∷ bytes | none ↦ bytes ]) ∷ [])
          ≡ encoded library level bytes
    hands_on size none bytes = append-nil bytes
    hands_on size (some l) bytes = append-nil (9 ∷ bytes)

abbrev pub config : Config
config = record {
  block_size = 4;
  max_compression_level = 6;
  hash_algorithm = 0;
  compression_setting = lzma;
}

abbrev files : SourceFiles
files = record { open_file = λ p. ok (1 ∷ 2 ∷ 3 ∷ []); open_link_target = λ p. ok [] }

abbrev state : BackupState whole same_text same_text library config takes_all any_path
state = record { volumes = init 4 no_nodes; statistics = [] }

abbrev input : NodeInput whole same_text same_text library config takes_all any_path
input = record { bytes = 1 ∷ 2 ∷ 3 ∷ []; rate = 0; statistics = ("/a", 0) ∷ [] }

abbrev source : Index NodeAttributes
source = one_node "/a" (plain 3 1)

state-IsConsistent : IsConsistent (init 4 no_nodes)
unfolding blocks_at find_index
state-IsConsistent =
    init-IsConsistent 4 no_nodes (omega arith) (omega arith) no_nodes-IsWellFormed (λ p. refl)

backup_node-BackedUp_example :
    (t : BackupState whole same_text same_text library config takes_all any_path) × (backup_node
        whole same_text same_text library config takes_all any_path 9 true 1 files 0 source state
      ≡ some (ok t))
    × BackedUp library config "/a" 0 (plain 3 1) (1 ∷ 2 ∷ 3 ∷ []) (some 6) t.volumes
    × ((p : FilePath) → p ≢ "/a" → stored t.volumes p ≡ stored (init 4 no_nodes) p)
unfolding get_node_path get_node_attributes find_path find_index open_node get_compression_rate
    find_rate choose_level get_compression_level encoded init number_of_nodes
backup_node-BackedUp_example =
    backup_node-BackedUp whole same_text same_text library config takes_all any_path
      takes_all-IsLawful takes_all-IsLively library-IsFaithful 9 true 1 files 0 source state "/a"
      (plain 3 1) input refl refl refl refl refl refl state-IsConsistent (omega arith) (omega arith)
      (omega arith)

-- The file of two bytes, which was not compressed.
abbrev two_bytes : NodeAttributes
two_bytes = plain 2 1

pub written-BackedUp : BackedUp library config "/a" 0 two_bytes (7 ∷ 8 ∷ []) none written
unfolding stored blocks_at find_index String_discrete encoded setting_for without_blocks ℕ_discrete
written-BackedUp = record {
  consistent = written-IsConsistent;
  holds = refl;
  known = refl;
  node = _;
  at = refl;
  like = refl;
}

pub verified :
    verify_node library 0 gives_all 9 written.files written.index (2 ∷ []) two_volumes "/a"
    ≡ some (ok true)
unfolding stored blocks_at find_index String_discrete ℕ_discrete sum
verified =
    verify_node-BackedUp library config gives_all gives_all-IsExact library-IsFaithful 9 written
      "/a" 0 two_bytes (7 ∷ 8 ∷ []) none (2 ∷ []) two_volumes written-BackedUp refl (omega arith)
      (omega arith, tt) (omega arith) (omega arith)

verify_node-BackedUp_example :
    verify_node library 0 gives_all 9 written.files written.index (2 ∷ []) two_volumes "/a"
    ≡ some (ok true)
unfolding stored blocks_at find_index String_discrete ℕ_discrete sum
verify_node-BackedUp_example =
    verify_node-BackedUp library config gives_all gives_all-IsExact library-IsFaithful 9 written
      "/a" 0 two_bytes (7 ∷ 8 ∷ []) none (2 ∷ []) two_volumes written-BackedUp refl (omega arith)
      (omega arith, tt) (omega arith) (omega arith)

abbrev pub disk : Disk
disk = record {
  files = λ name. written.files;
  has_empty_name = λ p. false;
  get_parent = λ p. p;
  in_order = λ m. m;
}

abbrev pub task : Task
task = record { reading = two_volumes; requests = 2 ∷ [] }

abbrev pub snapshot : Snapshot
snapshot = record { name = "1"; index = written.index }

pub restored_node :
    restore_node library 0 gives_all disk "/out" 9 task snapshot [] 0
    ≡ some (
        ok (
          wrote_file
            (node_restore_path library 0 gives_all disk "/out" "/a")
            (7 ∷ 8 ∷ [])
            two_bytes.permissions
          ∷ []))
unfolding stored blocks_at find_index String_discrete ℕ_discrete sum get_node_attributes
    get_node_path find_path find_data_snapshot has_node_data
restored_node =
    restore_node-BackedUp library config gives_all disk "/out" gives_all-IsExact library-IsFaithful
      9 task snapshot [] [] "1" written 0 0 "/a" "/a" _ two_bytes (7 ∷ 8 ∷ []) none refl refl refl
      refl written-BackedUp refl refl (omega arith) (omega arith, tt) (omega arith) (omega arith)

restore_node-BackedUp_example :
    restore_node library 0 gives_all disk "/out" 9 task snapshot [] 0
    ≡ some (
        ok (
          wrote_file
            (node_restore_path library 0 gives_all disk "/out" "/a")
            (7 ∷ 8 ∷ [])
            two_bytes.permissions
          ∷ []))
unfolding stored blocks_at find_index String_discrete ℕ_discrete sum get_node_attributes
    get_node_path find_path find_data_snapshot has_node_data
restore_node-BackedUp_example =
    restore_node-BackedUp library config gives_all disk "/out" gives_all-IsExact library-IsFaithful
      9 task snapshot [] [] "1" written 0 0 "/a" "/a" _ two_bytes (7 ∷ 8 ∷ []) none refl refl refl
      refl written-BackedUp refl refl (omega arith) (omega arith, tt) (omega arith) (omega arith)
