-- ===== src/Backup.antt =====
-- src/backup/Snapshot.cpp: the data of a node goes through StdXX's streams into the volumes and comes
-- back. Each stream of StdXX is known by the bytes that it hands on.
pub mod Read
pub mod Writes
pub mod Attributes
pub mod Stores
pub mod Nodes
pub mod Requests
pub mod Verified
pub mod Intact
pub mod Restore
pub mod Restored
pub mod IndexFile
use acbackup.Prelude.{
  ℕ, zero, suc, ◌^◌, ite, Bool, true, false, Option, none, some, List, [], ◌∷◌, ◌++◌, String, ltb,
  ◌==◌, if◌then◌else◌, Result, ok, throw, stream_piping_failed, or_throw, ◌>>=◌, Call, and_then,
  length, ℕ_discrete,
}
use acbackup.Node.{
  FilePath, HashAlgorithm, FileType, directory, file, link, CompressionSetting, NodeAttributes,
  BackupNodeAttributes, of_node_attributes, sum_of_block_sizes, add_hash_value,
}
use acbackup.Index.{
  Index, add_node, change_node, number_of_nodes, get_node_attributes, get_node_path,
}
use acbackup.Volumes.{FlatVolumes, Writer, Accepts, write_bytes, close_file}
use acbackup.Statistics.{
  Floats, Rates, add_compression_rate_sample, get_compression_level, get_compression_rate,
}

-- The members of `Config` that the data depends on, and the setting of the `ConfigManager`.
pub record Config : Type 0 where
  pub block_size : ℕ
  pub max_compression_level : ℕ
  pub hash_algorithm : HashAlgorithm
  pub compression_setting : CompressionSetting

-- The source files, by `OpenFile` and `OpenLinkTargetAsStream`.
pub record SourceFiles : Type 0 where
  pub open_file : FilePath → Result (List ℕ)
  pub open_link_target : FilePath → Result (List ℕ)

-- The `WriteBytes` calls that come out of the buffer, and out of the compressor before it if there is
-- one: those while the source is piped, and those from `Finalize` and `Flush`.
pub record WriteCalls : Type 0 where
  pub piped : List (List ℕ)
  pub flushed : List (List ℕ)

-- StdXX's hash functions, with the digest in lower case, and its compressors, by their level.
pub record Library : Type 0 where
  pub digest : HashAlgorithm → List ℕ → String
  pub compress : ℕ → List ℕ → List ℕ
  pub decompress : List ℕ → Result (List ℕ)
  pub write_calls : ℕ → Option ℕ → List ℕ → WriteCalls

module _ (floats : Floats) (to_lowercase get_file_extension : String → String) (library : Library)
    (config : Config) (accepts : Accepts) (is_absolute : FilePath → Bool) where
  -- What the new snapshot's file system holds, and the statistics, which all snapshots share.
  pub record BackupState : Type 0 where
    pub volumes : FlatVolumes
    pub statistics : Rates floats to_lowercase

  -- An input stream with the rate by which its file compresses.
  pub record NodeInput : Type 0 where
    pub bytes : List ℕ
    pub rate : floats.Float
    pub statistics : Rates floats to_lowercase

  -- The cases by type at the head of `BackupNode`. A directory has no data.
  unfoldable pub open_node :
      SourceFiles → FileType → FilePath → ℕ → Rates floats to_lowercase → Result (Option NodeInput)
  open_node source file path size statistics = do
    bytes ← source.open_file path
    let (rate, statistics') =
        get_compression_rate floats to_lowercase (get_file_extension path) statistics
    ok (
        some (record {
          bytes = bytes;
          rate = if size == 0 then floats.of_nat 1 else rate;
          statistics = statistics';
        }))
  open_node source link path size statistics = do
    bytes ← source.open_link_target path
    ok (
        some (record {
          bytes = bytes;
          rate = if ltb 100 size then floats.of_nat 0 else floats.of_nat 1;
          statistics = statistics;
        }))
  open_node source directory path size statistics = ok none

  -- The level of the compressor, if the rate is at most 0.9.
  unfoldable pub choose_level : floats.Float → Option ℕ
  choose_level rate =
      if floats.at_most rate (floats.divided (floats.of_nat 9) (floats.of_nat 10))
      then some (get_compression_level floats to_lowercase config.max_compression_level rate)
      else none

  -- The calls of `WriteBytes` one after another.
  pub write_all : ℕ → FlatVolumes → Writer → List (List ℕ) → Call FlatVolumes
  write_all fuel s w [] = some (ok s)
  write_all fuel s w (c ∷ cs) =
      and_then (write_bytes accepts fuel s w c) (λ t. write_all fuel t w cs)

  -- A change of the new attributes, which the index has under the number.
  abbrev change_attributes :
      ℕ → (BackupNodeAttributes → BackupNodeAttributes) → FlatVolumes → FlatVolumes
  change_attributes n f s = record s { index = change_node s.index n f }

  -- `attributes->CompressionSetting(...)`, if there is a compressor.
  pub set_compression : Option ℕ → ℕ → FlatVolumes → FlatVolumes
  set_compression none n s = s
  set_compression (some level) n s =
      change_attributes n (λ a. record a { compression_setting = some config.compression_setting })
        s

  -- A sample of how well a file compressed.
  unfoldable pub sample_rate :
      Option ℕ
      → FileType
      → FilePath
      → BackupNodeAttributes
      → Rates floats to_lowercase
      → Rates floats to_lowercase
  sample_rate (some level) file path a m =
      add_compression_rate_sample floats to_lowercase (get_file_extension path)
        (floats.divided (floats.of_nat (sum_of_block_sizes a.blocks)) (floats.of_nat a.base.size)) m
  sample_rate _ type path a m = m

  -- What follows the piping: a sample, and the hash value, and the end of the output stream.
  pub finish_node :
      Option ℕ
      → ℕ
      → Writer
      → NodeAttributes
      → List ℕ
      → Rates floats to_lowercase
      → FlatVolumes
      → Result BackupState
  unfolding sample_rate
  finish_node level n w new bytes statistics s = do
    a ← get_node_attributes s.index n
    a' ← add_hash_value config.hash_algorithm (library.digest config.hash_algorithm bytes) a
    let s' = change_attributes n (λ b. a') s
    ok (record {
      volumes = record s' { open_volumes = close_file w.address s'.open_volumes };
      statistics = sample_rate level new.type w.path a statistics;
    })

  -- The data of a node, from the choice of the compressor on.
  pub store_node : ℕ → ℕ → Writer → NodeAttributes → NodeInput → FlatVolumes → Call BackupState
  unfolding choose_level set_compression write_all finish_node
  store_node fuel n w new input s =
      let level = choose_level input.rate in
      let calls = library.write_calls config.block_size level input.bytes in
      and_then (write_all fuel (set_compression level n s) w calls.piped) (λ s'.
        if length input.bytes == new.size
        then and_then (write_all fuel s' w calls.flushed)
            (λ s''. some (finish_node level n w new input.bytes input.statistics s''))
        else some (throw stream_piping_failed))

  -- `BackupNode`. The writer's address and the uninitialised memory of `ownsBlocks` are arguments.
  pub backup_node :
      ℕ → Bool → ℕ → SourceFiles → ℕ → Index NodeAttributes → BackupState → Call BackupState
  unfolding open_node store_node
  backup_node fuel uninitialized address files i source state =
      and_then (some (get_node_path source i)) (λ path.
        and_then (some (get_node_attributes source i)) (λ new.
          let s : FlatVolumes = record state.volumes {
            index =
                add_node is_absolute state.volumes.index path
                  (of_node_attributes uninitialized new);
          } in
          and_then (some (open_node files new.type path new.size state.statistics)) (λ opened.
            elim opened [
              | none ↦ some (ok (record state { volumes = s }))
              | some input ↦
                  store_node fuel (number_of_nodes state.volumes.index)
                    (record { address = address; path = path }) new input s
            ])))
