-- ===== src/Tests/Configurations.antt =====
-- The configuration that is written at first is read.
use acbackup.Prelude.{◌*◌, ◌^◌, ◌<◌, ◌≤◌, ◌≡◌, refl, ok, arith, String_discrete}
use acbackup.BackupIndex.Archive.{setting_of_name, algorithm_of_name}
use acbackup.Node.{FilePath}
use acbackup.Configuration.{
  FullConfig, web, lzma_algorithm, lzma_format, write_config, read_config, tracker_of_name,
}
use acbackup.Configuration.Limits.{read_config-bounds}

abbrev first : FullConfig
first = record {
  compression_algorithm = lzma_algorithm;
  compression_stream_format = lzma_format;
  source_path = "/home";
  block_size = 1048576;
  volume_size = 104857600;
  max_compression_level = 6;
  hash_algorithm = 1;
  status_tracker_type = web;
  status_tracker_port = 8080;
  backup_path = "/backup";
  data_path = "data";
  index_path = "index";
}

abbrev last_part : FilePath → FilePath → FilePath
last_part p q = q

reads_what_was_written : read_config 0 1 last_part "/backup" (write_config "/home") ≡ ok first
unfolding read_config write_config setting_of_name algorithm_of_name tracker_of_name String_discrete
reads_what_was_written = refl

read_config-bounds_example :
    (first.max_compression_level ≤ 9)
    × (first.block_size ≡ 1024 * 1024)
    × (first.volume_size ≡ 100 * 1048576)
    × (first.volume_size < 2 ^ 32)
unfolding write_config
read_config-bounds_example =
    read_config-bounds 0 1 last_part "/backup" (write_config "/home") first (omega arith)
      (omega arith) reads_what_was_written
