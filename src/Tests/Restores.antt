-- ===== src/Tests/Restores.antt =====
-- A snapshot without nodes is restored, and a file is verified.
use acbackup.Prelude.{
  ℕ, ◌≡◌, ◌≢◌, refl, true, false, none, some, List, [], ◌∷◌, ok, arith, length, String_discrete,
}
use acbackup.Node.{BackupNodeAttributes, hash_of, link, posix}
use acbackup.Index.{get_node_attributes, get_node_index, number_of_nodes, find_index}
use acbackup.Reading.{Reading}
use acbackup.Backup.Read.{FileInput, open_file_for_reading, flush_input}
use acbackup.Backup.Intact.{verify_node-returns_true}
use acbackup.Backup.Restore.{
  Effect, wrote_file, node_restore_path, restore, restore_directories, restore_nodes,
}
use acbackup.Backup.Restored.{restore-no_link}
use acbackup.Tests.Data.{plain, backed_up}
use acbackup.Tests.Readers.{gives_all, two_volumes, written}
use acbackup.Tests.Backups.{library, config, disk, task, verified, snapshot, restored_node}

verify_node-returns_true_example :
    (i : ℕ) × (a : BackupNodeAttributes) × (bytes : List ℕ) × (r' : Reading) × (input : FileInput)
    × (get_node_index written.index "/a" ≡ ok i)
    × (get_node_attributes written.index i ≡ ok a)
    × (open_file_for_reading library 0 gives_all written.index i false two_volumes ≡ ok (r', input))
    × (flush_input library 0 gives_all 9 written.files (2 ∷ []) r' input ≡ some (ok bytes))
    × (length bytes ≡ a.base.size)
    × (hash_of 0 a ≡ ok (library.digest 0 bytes))
verify_node-returns_true_example =
    verify_node-returns_true library 0 gives_all 9 written.files written.index (2 ∷ []) two_volumes
      "/a" verified

abbrev written_node : BackupNodeAttributes
written_node =
    backed_up (plain 2 1) true none (record { volume_number = 0; offset = 0; size = 2 } ∷ [])
      ((0, "d") ∷ [])

abbrev effects : List Effect
effects =
    wrote_file (node_restore_path library 0 gives_all disk "/out" "/a") (7 ∷ 8 ∷ []) (posix 0 0 420)
    ∷ []

restored : restore library 0 gives_all disk "/out" 9 (λ i. task) snapshot [] ≡ some (ok effects)
unfolding restore restore_directories restore_nodes number_of_nodes get_node_index
    get_node_attributes find_index String_discrete
restored = rw restored_node refl

restore-no_link_example : written_node.base.type ≢ link
unfolding number_of_nodes get_node_attributes
restore-no_link_example =
    restore-no_link library config gives_all disk "/out" 9 (λ i. task) snapshot [] effects restored
      0 written_node (omega arith) refl
