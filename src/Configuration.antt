-- ===== src/Configuration.antt =====
-- src/config/ConfigManager.{hpp,cpp} and Config.hpp: the configuration as a JSON document, which is
-- read and written.
pub mod Limits
use acbackup.Prelude.{
  ℕ, ◌*◌, ◌%◌, ◌^◌, ite, Bool, true, false, String, String_discrete, ltb, if◌then◌else◌, Result, ok,
  throw, invalid_config, malformed_index, ◌>>=◌,
}
use acbackup.Node.{FilePath, HashAlgorithm, CompressionSetting, lzma}
use acbackup.BackupIndex.Archive.{setting_of_name, algorithm_of_name}

pub data StatusTrackerType : Type 0 where
  terminal web : StatusTrackerType

-- The members of the JSON object, in the order in which they are read.
pub record ConfigDocument : Type 0 where
  pub source_path : FilePath
  pub block_size : ℕ
  pub volume_size : ℕ
  pub compression : String
  pub max_compression_level : ℕ
  pub hash_algorithm : String
  pub status_tracker : String
  pub status_tracker_port : ℕ

-- `CompressionSettings`, by StdXX's names.
pub data CompressionAlgorithm : Type 0 where
  lzma_algorithm : CompressionAlgorithm

pub data CompressionStreamFormat : Type 0 where
  lzma_format : CompressionStreamFormat

-- `Config`, with the paths that follow from the path of the backup.
pub record FullConfig : Type 0 where
  pub compression_algorithm : CompressionAlgorithm
  pub compression_stream_format : CompressionStreamFormat
  pub source_path : FilePath
  pub block_size : ℕ
  pub volume_size : ℕ
  pub max_compression_level : ℕ
  pub hash_algorithm : HashAlgorithm
  pub status_tracker_type : StatusTrackerType
  pub status_tracker_port : ℕ
  pub backup_path : FilePath
  pub data_path : FilePath
  pub index_path : FilePath

-- The `StringMapping` of the type of the status tracker.
unfoldable pub tracker_of_name : String → Result StatusTrackerType
tracker_of_name s =
    ite (String_discrete s "terminal") (ok terminal)
      (ite (String_discrete s "web") (ok web) (throw malformed_index))

-- `GetCompressionSettings`.
unfoldable pub get_compression_settings :
    CompressionSetting → CompressionAlgorithm × CompressionStreamFormat
get_compression_settings lzma = (lzma_algorithm, lzma_format)

-- `ConfigManager::Write`.
unfoldable pub write_config : FilePath → ConfigDocument
write_config source_path = record {
  source_path = source_path;
  block_size = 1024;
  volume_size = 100;
  compression = "lzma";
  max_compression_level = 6;
  hash_algorithm = "sha512/256";
  status_tracker = "web";
  status_tracker_port = 8080;
}

-- The sizes are multiplied, in `uint32` and `uint64`.
unfoldable pub scale_sizes : FullConfig → FullConfig
scale_sizes c = record c {
  block_size = (c.block_size * 1024) % 2 ^ 32;
  volume_size = (c.volume_size * 1048576) % 2 ^ 64;
}

module _ (md5 sha512_256 : HashAlgorithm) (join : FilePath → String → FilePath) where
  -- `Archive`, for a configuration whose paths are set.
  unfoldable pub archive_config :
      FilePath → FilePath → FilePath → ConfigDocument → Result FullConfig
  unfolding get_compression_settings scale_sizes
  archive_config backup_path data_path index_path d = do
    setting ← setting_of_name d.compression
    algorithm ← algorithm_of_name md5 sha512_256 d.hash_algorithm
    tracker ← tracker_of_name d.status_tracker
    let settings = get_compression_settings setting
    if ltb 9 d.max_compression_level
        then throw invalid_config
        else ok (
            scale_sizes (record {
              compression_algorithm = settings.0;
              compression_stream_format = settings.1;
              source_path = d.source_path;
              block_size = d.block_size;
              volume_size = d.volume_size;
              max_compression_level = d.max_compression_level;
              hash_algorithm = algorithm;
              status_tracker_type = tracker;
              status_tracker_port = d.status_tracker_port;
              backup_path = backup_path;
              data_path = data_path;
              index_path = index_path;
            }))

  -- The constructor for a backup that exists, with `SetPathsInConfig`.
  unfoldable pub read_config : FilePath → ConfigDocument → Result FullConfig
  unfolding archive_config
  read_config backup_path d =
      archive_config backup_path (join backup_path "data") (join backup_path "index") d
