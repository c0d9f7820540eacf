-- ===== src/Manager.antt =====
-- src/backup/SnapshotManager.{hpp,cpp}: which nodes of the source go into a new snapshot and how, the
-- verification of a snapshot, and the list of the snapshots.
pub mod Coverage
pub mod Once
pub mod Verify
pub mod Intact
use acbackup.Prelude.{
  ℕ, ite, Bool, true, false, not, Option, none, some, List, [], ◌∷◌, ◌++◌, String, String_discrete,
  if◌then◌else◌, Result, ok, throw, verification_failed, null_pointer, Call, and_then, ◌>>=◌, ◌||◌,
  ◌&&◌, ◌==◌, contains, insert, range_from, length,
}
use acbackup.Node.{FilePath, HashAlgorithm, NodeAttributes, FileType, directory, file, link}
use acbackup.Index.{Index, number_of_nodes, get_node_attributes, get_node_index, get_node_path}
use acbackup.BackupIndex.{BackupNodeIndex}
use acbackup.SourceIndex.{SourceIndex, Digest}
use acbackup.Diff.{AnyIndex, of_source, Differences, compute_diff, exist}
use acbackup.Diff.Moves.{find_moved}
use acbackup.Node.Blocks.{Volumes}
use acbackup.Reading.{Delivers}
use acbackup.Backup.{Library}
use acbackup.Backup.Read.{verify_node}
use acbackup.Backup.Restore.{Task}
use acbackup.Snapshot.{Snapshot, find_data_snapshot, backup_node_metadata, backup_move}

abbrev pub has_move : ℕ → List (ℕ × ℕ) → Bool
has_move i m = elim (find_moved i m) [ some j ↦ true | none ↦ false ]

-- Nodes that no difference was found for are taken as updates of the metadata.
unfoldable pub update_default : List ℕ → Differences → Differences
update_default [] d = d
update_default (i ∷ is) d = update_default is (
    if contains i d.different_data || contains i d.different_metadata || has_move i d.moved
    then d
    else record d { different_metadata = insert i d.different_metadata })

pub insert_all : List ℕ → List ℕ → List ℕ
insert_all [] s = s
insert_all (i ∷ is) s = insert_all is (insert i s)

-- `ComputeDifference` against the last index, if there is one. With none, every node is new.
unfoldable pub compute_source_difference :
    HashAlgorithm → Digest → Option BackupNodeIndex → SourceIndex → Bool → Result Differences
unfolding update_default insert_all
compute_source_difference h digest (some last) source updates = do
  d ← compute_diff h digest last (of_source source)
  ok (if updates then update_default (range_from 0 (number_of_nodes source.nodes)) d else d)
compute_source_difference h digest none source updates = ok (record {
  deleted = [];
  different_data = insert_all (range_from 0 (number_of_nodes source.nodes)) [];
  different_metadata = [];
  moved = [];
})

-- `EnsureNoDifferenceExists`.
unfoldable ensure_no_difference_exists :
    HashAlgorithm → Digest → Option BackupNodeIndex → SourceIndex → Result (Unit {0})
ensure_no_difference_exists h digest last source = do
  d ← compute_source_difference h digest last source false
  if exist d then throw verification_failed else ok tt

module _ (is_absolute : FilePath → Bool) (last : Snapshot) (source : Index NodeAttributes) where
  -- The second loop of `AddSnapshot`, over the updates of metadata.
  unfoldable add_metadata_nodes : List ℕ → Snapshot → Result Snapshot
  add_metadata_nodes [] s = ok s
  add_metadata_nodes (i ∷ is) s = do
    path ← get_node_path source i
    j ← get_node_index last.index path
    old ← get_node_attributes last.index j
    s' ← backup_node_metadata is_absolute s i old source
    add_metadata_nodes is s'

  -- The third loop, over the moves.
  unfoldable add_moved_nodes : List (ℕ × ℕ) → Snapshot → Result Snapshot
  add_moved_nodes [] s = ok s
  add_moved_nodes ((i, j) ∷ m) s = do
    old ← get_node_attributes last.index j
    old_path ← get_node_path last.index j
    s' ← backup_move is_absolute s i source old old_path
    add_moved_nodes m s'

-- `FindSnapshot`.
unfoldable find_snapshot : String → List Snapshot → Option Snapshot
find_snapshot name [] = none
find_snapshot name (s ∷ ss) = ite (String_discrete s.name name) (some s) (find_snapshot name ss)

-- The volume files of a snapshot lie under its name. A task is what is found when the task for a node
-- starts: the volumes for reading of the snapshot with the data, and the requests of the streams.
module _ (library : Library) (hash_algorithm : HashAlgorithm) (delivers : Delivers)
    (files : String → Volumes) where
  -- `dataSnapshot->VerifyNode`.
  unfoldable pub verify_found : ℕ → Task → List Snapshot → FilePath → Call Bool
  verify_found fuel task [] path = some (throw null_pointer)
  verify_found fuel task (s ∷ older) path =
      verify_node library hash_algorithm delivers fuel (files s.name) s.index task.requests
        task.reading path

  -- The task of `VerifySnapshot` for a file or link: whether it failed. Only a full verification
  -- follows the references to older snapshots.
  unfoldable pub verify_data : ℕ → Task → List Snapshot → Bool → ℕ → Call Bool
  unfolding verify_found
  verify_data fuel task chain full i = and_then (some (find_data_snapshot chain i)) (λ found.
      if full || (length found.0 == length chain)
      then and_then (verify_found fuel task found.0 found.1) (λ good. some (ok (not good)))
      else some (ok false))

  unfoldable pub verify_type : ℕ → Task → List Snapshot → Bool → ℕ → FileType → Call Bool
  unfolding verify_data
  verify_type fuel task chain full i directory = some (ok false)
  verify_type fuel task chain full i _ = verify_data fuel task chain full i

  -- `VerifySnapshot` of the first snapshot of the list: the numbers of the nodes that failed.
  unfoldable pub verify_nodes :
      ℕ → (ℕ → Task) → Snapshot → List Snapshot → Bool → List ℕ → List ℕ → Call (List ℕ)
  unfolding verify_type
  verify_nodes fuel tasks s older full [] failed = some (ok failed)
  verify_nodes fuel tasks s older full (i ∷ is) failed =
      and_then (some (get_node_attributes s.index i)) (λ a.
        and_then (verify_type fuel (tasks i) (s ∷ older) full i a.base.type) (λ bad.
          verify_nodes fuel tasks s older full is (if bad then failed ++ i ∷ [] else failed)))

  unfoldable pub verify_snapshot : ℕ → (ℕ → Task) → Snapshot → List Snapshot → Bool → Call (List ℕ)
  unfolding verify_nodes
  verify_snapshot fuel tasks s older full =
      verify_nodes fuel tasks s older full (range_from 0 (number_of_nodes s.index)) []
