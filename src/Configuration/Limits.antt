-- ===== src/Configuration/Limits.antt =====
-- The limits of the numbers in the configuration.
use acbackup.Prelude.{
  ◌*◌, ◌^◌, ◌<◌, ◌≤◌, ◌≡◌, refl, Bool, true, false, arith, String, ltb, ok, throw, invalid_config,
  subst, if◌then◌else◌, >>=-eq-ok,
}
use acbackup.Node.{FilePath, HashAlgorithm}
use acbackup.BackupIndex.Archive.{setting_of_name, algorithm_of_name}
use acbackup.Configuration.{
  ConfigDocument, FullConfig, archive_config, read_config, scale_sizes, tracker_of_name,
}

module _ (md5 sha512_256 : HashAlgorithm) (join : FilePath → String → FilePath) where
  -- The sizes in bytes, and the level within its interval.
  abbrev InBytes : ConfigDocument → FullConfig → Type 0
  InBytes d c =
      (c.max_compression_level ≤ 9)
      × (c.block_size ≡ d.block_size * 1024)
      × (c.volume_size ≡ d.volume_size * 1048576)
      × (c.volume_size < 2 ^ 32)

  scaled-InBytes :
      (d : ConfigDocument) (r c : FullConfig) (refused : Bool)
      → d.block_size < 2 ^ 22
      → d.volume_size < 2 ^ 12
      → ltb 9 d.max_compression_level ≡ refused
      → r.block_size ≡ d.block_size
      → r.volume_size ≡ d.volume_size
      → r.max_compression_level ≡ d.max_compression_level
      → (if refused then throw invalid_config else ok (scale_sizes r)) ≡ ok c
      → InBytes d c
  unfolding scale_sizes
  scaled-InBytes d r c true small few t b v l e = cc
  scaled-InBytes d r c false small few t b v l e =
      let same : scale_sizes r ≡ c = cc in
      subst (InBytes d) same
        (ground arith, rw b (omega arith), rw v (omega arith), rw v (omega arith))

  -- If the configuration of a backup is read from a document with a block size of less than 2^22
  -- KiB and a volume size of less than 2^12 MiB, the compression level is at most 9, the sizes are
  -- those of the document in bytes without wrapping around, and a volume is smaller than 4 GiB.
  pub read_config-bounds :
      (backup_path : FilePath) (d : ConfigDocument) (c : FullConfig)
      → d.block_size < 2 ^ 22
      → d.volume_size < 2 ^ 12
      → read_config md5 sha512_256 join backup_path d ≡ ok c
      → (c.max_compression_level ≤ 9)
        × (c.block_size ≡ d.block_size * 1024)
        × (c.volume_size ≡ d.volume_size * 1048576)
        × (c.volume_size < 2 ^ 32)
  unfolding read_config archive_config
  read_config-bounds backup_path d c small few e =
      let (setting, e1, e2) = >>=-eq-ok (setting_of_name d.compression) _ e in
      let (algorithm, e3, e4) =
        >>=-eq-ok (algorithm_of_name md5 sha512_256 d.hash_algorithm) _ e2 in
      let (tracker, e5, e6) = >>=-eq-ok (tracker_of_name d.status_tracker) _ e4 in
      scaled-InBytes d _ c (ltb 9 d.max_compression_level) small few refl refl refl refl e6
