-- ===== src/Backup/Restored.antt =====
-- What `Restore` writes for a file, and that it fails on a link.
use acbackup.Prelude.{
  ℕ, zero, suc, ◌+◌, ◌^◌, ◌≤◌, ◌<◌, ◌≡◌, ◌≢◌, refl, sym, ap, subst, ◌∙◌, true, Option, some, List,
  [], ◌∷◌, arith, ok, length, String, Call, and_then, and_then-eq-ok, ◌==◌, range_from, All,
  ℕ_discrete,
}
use acbackup.Node.{FilePath, file, link, NodeAttributes, BackupNodeAttributes}
use acbackup.Index.{get_node_attributes, get_node_path, get_node_index, number_of_nodes}
use acbackup.BackupIndex.Changes.{blocks_at}
use acbackup.Volumes.{FlatVolumes}
use acbackup.Volumes.Chunk.{stored}
use acbackup.Reading.{Reading, Delivers}
use acbackup.Reading.Bytes.{IsExact}
use acbackup.Snapshot.{Snapshot, find_data_snapshot}
use acbackup.Backup.{Library, Config}
use acbackup.Backup.Read.{FileInput, open_file_for_reading, flush_input}
use acbackup.Backup.Requests.{sum}
use acbackup.Backup.Stores.{IsFaithful, BackedUp}
use acbackup.Backup.Verified.{open_file_for_reading-BackedUp}
use acbackup.Backup.Restore.{
  Disk, Task, Effect, wrote_file, read_link_target, node_restore_path, restore_directories,
  read_data, restore_by_type, restore_node, restore_nodes, restore,
}

module _ (library : Library) (config : Config) (delivers : Delivers) (disk : Disk)
    (restore_point : FilePath) where
  -- `restore` and its parts with these arguments.
  abbrev task_of : ℕ → Task → Snapshot → List Snapshot → ℕ → Call (List Effect)
  task_of = restore_node library config.hash_algorithm delivers disk restore_point

  link_fails :
      (fuel : ℕ) (task : Task) (chain : List Snapshot) (i : ℕ) (path : FilePath)
      (a : BackupNodeAttributes) (effects : List Effect)
      → restore_by_type library config.hash_algorithm delivers disk restore_point fuel task chain i
          path a link
        ≢ some (ok effects)
  unfolding restore_by_type read_link_target
  link_fails fuel task chain i path a effects e =
      let (found, e1, e2) = and_then-eq-ok (some (find_data_snapshot chain i)) _ effects e in cc

  restore_node-no_link :
      (fuel : ℕ) (task : Task) (s : Snapshot) (older : List Snapshot) (i : ℕ)
      (effects : List Effect)
      → task_of fuel task s older i ≡ some (ok effects)
      → (a : BackupNodeAttributes) → get_node_attributes s.index i ≡ ok a
      → a.base.type ≢ link
  unfolding restore_node
  restore_node-no_link fuel task s older i effects e a ea is_link =
      let (b, eb, e1) = and_then-eq-ok (some (get_node_attributes s.index i)) _ effects e in
      let (path, ep, e2) = and_then-eq-ok (some (get_node_path s.index i)) _ effects e1 in
      let b_is : b ≡ a = cc in
      let b_link : b.base.type ≡ link =
        ap (λ (c : BackupNodeAttributes). c.base.type) b_is ∙ is_link in
      link_fails fuel task (s ∷ older) i path b effects (
        subst
          (λ t.
            restore_by_type library config.hash_algorithm delivers disk restore_point fuel task
              (s ∷ older) i path b t
            ≡ some (ok effects))
          b_link e2)

  restore_nodes-no_link :
      (fuel : ℕ) (tasks : ℕ → Task) (s : Snapshot) (older : List Snapshot) (first count : ℕ)
      (effects : List Effect)
      → restore_nodes library config.hash_algorithm delivers disk restore_point fuel tasks s older
          (range_from first count)
        ≡ some (ok effects)
      → (i : ℕ) (a : BackupNodeAttributes) → first ≤ i
      → i < first + count
      → get_node_attributes s.index i ≡ ok a
      → a.base.type ≢ link
  unfolding restore_nodes
  restore_nodes-no_link fuel tasks s older first zero effects e i a h h' ea = absurd (omega arith)
  restore_nodes-no_link fuel tasks s older first (suc count) effects e i a h h' ea =
      let (x, ex, e1) = and_then-eq-ok (task_of fuel (tasks first) s older first) _ effects e in
      let (y, ey, e2) =
        and_then-eq-ok
          (restore_nodes library config.hash_algorithm delivers disk restore_point fuel tasks s
            older (range_from (first + 1) count))
          _ effects e1 in
      elim (ℕ_discrete first i) [
        | yes q ↦
            restore_node-no_link fuel (tasks first) s older first x ex a
              (subst (λ j. get_node_attributes s.index j ≡ ok a) (sym q) ea)
        | no n ↦
            restore_nodes-no_link fuel tasks s older (first + 1) count y ey i a (omega arith)
              (omega arith) ea
      ]

  -- If `Restore` of a snapshot returns, no node of the snapshot is a link.
  pub restore-no_link :
      (fuel : ℕ) (tasks : ℕ → Task) (s : Snapshot) (older : List Snapshot) (effects : List Effect)
      → restore library config.hash_algorithm delivers disk restore_point fuel tasks s older
        ≡ some (ok effects)
      → (i : ℕ) (a : BackupNodeAttributes) → i < number_of_nodes s.index
      → get_node_attributes s.index i ≡ ok a
      → a.base.type ≢ link
  unfolding restore
  restore-no_link fuel tasks s older effects e i a h ea =
      let (x, ex, e1) =
        and_then-eq-ok
          (some (
            restore_directories library config.hash_algorithm delivers disk restore_point s.index
              (disk.in_order s.index.path_map)))
          _ effects e in
      let (y, ey, e2) =
        and_then-eq-ok
          (restore_nodes library config.hash_algorithm delivers disk restore_point fuel tasks s
            older (range_from 0 (number_of_nodes s.index)))
          _ effects e1 in
      restore_nodes-no_link fuel tasks s older 0 (number_of_nodes s.index) y ey i a (omega arith)
        (omega arith) ea

  module _ (exact : IsExact delivers) (faithful : IsFaithful library) where
    restore_node_lem :
        (fuel : ℕ) (task : Task) (s t : Snapshot) (older rest : List Snapshot) (i n : ℕ)
        (path p : FilePath) (a : BackupNodeAttributes) (r' : Reading) (input : FileInput)
        (bytes : List ℕ)
        → get_node_attributes s.index i ≡ ok a
        → get_node_path s.index i ≡ ok path
        → a.base.type ≡ file
        → find_data_snapshot (s ∷ older) i ≡ ok (t ∷ rest, p)
        → get_node_index t.index p ≡ ok n
        → open_file_for_reading library config.hash_algorithm delivers t.index n true task.reading
          ≡ ok (r', input)
        → flush_input library config.hash_algorithm delivers fuel
            (disk.files t.name)
            task.requests
            r'
            input
          ≡ some (ok bytes)
        → (length bytes == a.base.size) ≡ true
        → task_of fuel task s older i
          ≡ some (
              ok (
                wrote_file
                  (node_restore_path library config.hash_algorithm delivers disk restore_point path)
                  bytes
                  a.base.permissions
                ∷ []))
    unfolding restore_node restore_by_type read_data
    restore_node_lem fuel task s t older rest i n path p a r' input bytes e1 e2 e3 e4 e5 e6 e7 e8 =
        rw
          (
            e1, and_then, e2, and_then, e3, restore_by_type, e4, and_then, read_data, e5, and_then,
            e6, and_then, e7, and_then, e8,
          )
          refl

    -- On a disk that reads as many bytes as are asked for or as there are, and with a decompressor
    -- that undoes the compressor: for a file of the snapshot, where `FindDataSnapshot` answers with
    -- a snapshot and a path whose data was backed up there, with the size of the file, in fewer
    -- than 2^32 blocks in volumes that are among those for reading, where the streams ask for at
    -- least the bytes stored, with fuel for a round for each byte asked for and each block and two
    -- more, the task of `Restore` writes one file: the bytes that were backed up, under the restore
    -- path and with the permissions of the file.
    pub restore_node-BackedUp :
        (fuel : ℕ) (task : Task) (s : Snapshot) (older rest : List Snapshot) (name : String)
        (v : FlatVolumes) (i n : ℕ) (path p : FilePath) (a : BackupNodeAttributes)
        (new : NodeAttributes) (bytes : List ℕ) (level : Option ℕ)
        → get_node_attributes s.index i ≡ ok a
        → get_node_path s.index i ≡ ok path
        → a.base.type ≡ file
        → find_data_snapshot (s ∷ older) i ≡ ok (record { name = name; index = v.index } ∷ rest, p)
        → BackedUp library config p n new bytes level v
        → disk.files name ≡ v.files
        → length bytes ≡ a.base.size
        → length (blocks_at v.index p) < 2 ^ 32
        → All (λ b. b.volume_number < length task.reading.volumes) (blocks_at v.index p)
        → length (stored v p) ≤ sum task.requests
        → sum task.requests + length (blocks_at v.index p) + 1 < fuel
        → task_of fuel task s older i
          ≡ some (
              ok (
                wrote_file
                  (node_restore_path library config.hash_algorithm delivers disk restore_point path)
                  bytes
                  a.base.permissions
                ∷ []))
    unfolding get_node_index
    restore_node-BackedUp fuel task s older rest name v i n path p a new bytes level e1 e2 e3 e4 b
          files size few opened all enough =
        let (r', input, e, e') =
          open_file_for_reading-BackedUp library config delivers exact faithful fuel v p n new bytes
            level true task.requests task.reading b few opened all enough in
        restore_node_lem fuel task s (record { name = name; index = v.index }) older rest i n path p
          a r' input bytes e1 e2 e3 e4 (rw b.known refl) e (rw files e') (ground arith)
