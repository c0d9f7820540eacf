-- ===== src/Manager/Intact.antt =====
-- A snapshot whose data was backed up passes the verification.
use mathlib.Core.Bool.{false≢true}
use acbackup.Prelude.{
  ℕ, ◌+◌, ◌^◌, ◌≤◌, ◌<◌, ◌≡◌, ◌≢◌, refl, subst, ◌∙◌, ap, true, Option, some, List, [], ◌∷◌, arith,
  ok, length, get_elem?, String, All, contains,
}
use acbackup.Node.{FilePath, NodeAttributes, BackupNodeAttributes, directory}
use acbackup.Node.Blocks.{Volumes}
use acbackup.BackupIndex.Changes.{blocks_at}
use acbackup.Volumes.{FlatVolumes}
use acbackup.Volumes.Chunk.{stored}
use acbackup.Reading.{Delivers}
use acbackup.Reading.Bytes.{IsExact}
use acbackup.Backup.{Library, Config}
use acbackup.Backup.Read.{verify_node}
use acbackup.Backup.Requests.{sum}
use acbackup.Backup.Stores.{IsFaithful, BackedUp}
use acbackup.Backup.Verified.{verify_node-BackedUp}
use acbackup.Backup.Restore.{Task}
use acbackup.Snapshot.{Snapshot, find_data_snapshot}
use acbackup.Snapshot.References.{IsLinked}
use acbackup.Manager.{verify_found, verify_snapshot}
use acbackup.Manager.Verify.{IsCorrupt, AllAnswer, verify_snapshot-IsCorrupt}

empty_of_contains : (xs : List ℕ) → ((i : ℕ) → contains i xs ≡ true → ⊥) → xs ≡ []
empty_of_contains [] h = refl
empty_of_contains (x ∷ xs) h = absurd (h x (ground arith))

module _ (library : Library) (config : Config) (delivers : Delivers) (exact : IsExact delivers)
    (faithful : IsFaithful library) (files : String → Volumes) (fuel : ℕ) (tasks : ℕ → Task) where
  -- The first snapshot of those that were found has the data of node `i`, as it was backed up, at
  -- the path, within the limits of a reading.
  pub record IsStored (i : ℕ) (found : List Snapshot) (path : FilePath) : Type 0 where
    pub holder : Snapshot
    pub before : List Snapshot
    pub first : found ≡ holder ∷ before
    pub volumes : FlatVolumes
    pub same_files : volumes.files ≡ files holder.name
    pub same_index : volumes.index ≡ holder.index
    pub node : ℕ
    pub attributes : NodeAttributes
    pub bytes : List ℕ
    pub level : Option ℕ
    pub backed_up : BackedUp library config path node attributes bytes level volumes
    pub has_size : length bytes ≡ attributes.size
    pub few : length (blocks_at volumes.index path) < 2 ^ 32
    pub opened :
        All (λ b. b.volume_number < length (tasks i).reading.volumes) (blocks_at volumes.index path)
    pub requested : length (stored volumes path) ≤ sum (tasks i).requests
    pub enough : sum (tasks i).requests + length (blocks_at volumes.index path) + 1 < fuel

  verify_found-IsStored :
      (i : ℕ) (found : List Snapshot) (path : FilePath)
      → IsStored i found path
      → verify_found library config.hash_algorithm delivers files fuel (tasks i) found path
        ≡ some (ok true)
  unfolding verify_found
  verify_found-IsStored i found path h =
      let e =
        verify_node-BackedUp library config delivers exact faithful fuel h.volumes path h.node
          h.attributes h.bytes h.level (tasks i).requests (tasks i).reading h.backed_up h.has_size
          h.few h.opened h.requested h.enough in
      let e' =
        subst
          (λ v.
            verify_node library config.hash_algorithm delivers fuel v h.volumes.index
              (tasks i).requests (tasks i).reading path
            ≡ some (ok true))
          h.same_files e in
      let e'' =
        subst
          (λ x.
            verify_node library config.hash_algorithm delivers fuel (files h.holder.name) x
              (tasks i).requests (tasks i).reading path
            ≡ some (ok true))
          h.same_index e' in
      rw h.first e''

  -- On a disk that reads as many bytes as are asked for or as there are, and with a decompressor
  -- that undoes the compressor: for a snapshot whose references all lead into the snapshot before,
  -- where the data of each file and link was backed up at the path and in the snapshot that
  -- `FindDataSnapshot` answers with, in volumes with the files and the index of that snapshot, with
  -- the size of its attributes, in fewer than 2^32 blocks in volumes that are among those for
  -- reading, where the streams ask for at least the bytes stored, with fuel for a round for each
  -- byte asked for and each block and two more, a full verification returns and reports no node.
  pub verify_snapshot-IsStored :
      (s : Snapshot) (older : List Snapshot)
      → IsLinked (s ∷ older)
      → ((i : ℕ) (a : BackupNodeAttributes) (found : List Snapshot) (path : FilePath)
          → get_elem? s.index.attributes i ≡ some a
          → a.base.type ≢ directory
          → find_data_snapshot (s ∷ older) i ≡ ok (found, path)
          → IsStored i found path)
      → verify_snapshot library config.hash_algorithm delivers files fuel tasks s older true
        ≡ some (ok [])
  verify_snapshot-IsStored s older linked all_stored =
      let answers : AllAnswer library config.hash_algorithm delivers files fuel tasks s older =
        λ i a found path ea n e.
          (true, verify_found-IsStored i found path (all_stored i a found path ea n e)) in
      let (d, e, h) =
        verify_snapshot-IsCorrupt library config.hash_algorithm delivers files fuel tasks s older
          linked answers in
      let none_failed : d ≡ [] = empty_of_contains d (λ i q. sound i ((h i).0 q).1) in
      e ∙ ap (λ xs. some (ok xs)) none_failed
    where
      sound :
          (i : ℕ) → IsCorrupt library config.hash_algorithm delivers files fuel tasks s older i → ⊥
      sound i c =
          let good =
            verify_found-IsStored i c.found c.path
              (all_stored i c.attributes c.found c.path c.of_node c.has_data c.finds) in
          false≢true (cc (good, c.unreadable))
