-- ===== src/Backup/Read.antt =====
-- src/backupfilesystem/FlatVolumesFileSystem.cpp, `OpenFileForReading`, and src/backup/Snapshot.cpp,
-- `VerifyNode`: the data of a node is read and compared with its hash value and its size.
use acbackup.Prelude.{
  ℕ, ite, Bool, true, false, Option, none, some, List, [], ◌∷◌, String, String_discrete, ◌==◌,
  Result, ok, throw, verification_failed, ◌>>=◌, Call, and_then, length,
}
use acbackup.Node.{
  FilePath, HashAlgorithm, Block, CompressionSetting, BackupNodeAttributes, hash_of,
}
use acbackup.Node.Blocks.{Volumes}
use acbackup.Index.{get_node_attributes, get_node_index}
use acbackup.BackupIndex.{Nodes}
use acbackup.Reading.{
  Reading, Delivers, BlockStream, start, increment_volume_counters, stream_read_bytes, prepend,
}
use acbackup.Backup.{Library}

-- The chain of streams that `OpenFileForReading` makes: the blocks, whether a decompressor follows,
-- and the hash value that is expected at the end.
pub record FileInput : Type 0 where
  pub blocks : List Block
  pub decompresses : Bool
  pub expected : Option String

abbrev pub has_value : Option CompressionSetting → Bool
has_value none = false
has_value (some setting) = true

module _ (library : Library) (hash_algorithm : HashAlgorithm) (delivers : Delivers) where
  abbrev pub expected_hash : Bool → BackupNodeAttributes → Result (Option String)
  expected_hash false a = ok none
  expected_hash true a = do h ← hash_of hash_algorithm a; ok (some h)

  -- `OpenFileForReading`.
  unfoldable pub open_file_for_reading : Nodes → ℕ → Bool → Reading → Result (Reading × FileInput)
  unfolding increment_volume_counters
  open_file_for_reading x i verify r = do
    a ← get_node_attributes x i
    r' ← increment_volume_counters r a.blocks
    h ← expected_hash verify a
    ok (
      r',
      record { blocks = a.blocks; decompresses = has_value a.compression_setting; expected = h },
    )

  -- The calls of `ReadBytes` on the blocks, for the numbers of bytes that the streams behind ask for.
  unfoldable pub read_requests :
      ℕ → Volumes → List Block → Reading → BlockStream → List ℕ → Call (Reading × List ℕ)
  read_requests fuel files blocks r s [] = some (ok (r, []))
  read_requests fuel files blocks r s (n ∷ ns) =
      and_then (stream_read_bytes delivers files fuel blocks r s n)
        (λ x. prepend x.1 (read_requests fuel files blocks x.0.0 x.0.1 ns))

  abbrev pub decompressed : Bool → List ℕ → Result (List ℕ)
  decompressed true bytes = library.decompress bytes
  decompressed false bytes = ok bytes

  -- What the `CheckedHashingInputStream` does at its end.
  abbrev pub checked : Option String → List ℕ → Result (List ℕ)
  checked none bytes = ok bytes
  checked (some h) bytes =
      ite (String_discrete (library.digest hash_algorithm bytes) h) (ok bytes)
        (throw verification_failed)

  -- `FlushTo` of the chain.
  unfoldable pub flush_input : ℕ → Volumes → List ℕ → Reading → FileInput → Call (List ℕ)
  unfolding read_requests
  flush_input fuel files requests r input =
      and_then (read_requests fuel files input.blocks r start requests)
        (λ x. some (do bytes ← decompressed input.decompresses x.1; checked input.expected bytes))

  -- The `catch` clause.
  abbrev pub caught : Call Bool → Call Bool
  caught (some (throw verification_failed)) = some (ok false)
  caught call = call

  -- `VerifyNode`, which opens a link in the same way as a file.
  unfoldable pub verify_node : ℕ → Volumes → Nodes → List ℕ → Reading → FilePath → Call Bool
  unfolding open_file_for_reading flush_input
  verify_node fuel files x requests r path = and_then (some (get_node_index x path)) (λ i.
      and_then (some (open_file_for_reading x i true r)) (λ input. caught (
        and_then (flush_input fuel files requests input.0 input.1) (λ bytes.
          and_then (some (get_node_index x path)) (λ j.
            and_then (some (get_node_attributes x j))
              (λ a. some (ok (length bytes == a.base.size))))))))
