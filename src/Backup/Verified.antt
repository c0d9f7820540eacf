-- ===== src/Backup/Verified.antt =====
-- What `BackupNode` stored reads back, and passes the verification.
use acbackup.Prelude.{
  ℕ, ◌+◌, ◌^◌, ◌≤◌, ◌<◌, ◌≡◌, refl, sym, ap, subst, ◌∙◌, Bool, true, false, Option, none, some,
  List, [], ◌∷◌, arith, ok, length, get_elem?, String, and_then, All, ◌==◌,
}
use acbackup.Node.{
  FilePath, HashAlgorithm, NodeAttributes, BackupNodeAttributes, hash_of, find_hash,
}
use acbackup.Index.{find_index, get_node_attributes, get_node_index}
use acbackup.BackupIndex.Changes.{blocks_at, blocks_of, without_blocks}
use acbackup.Volumes.{FlatVolumes}
use acbackup.Volumes.Chunk.{stored}
use acbackup.Reading.{Reading, Delivers, start}
use acbackup.Reading.Bytes.{IsExact, SameVolumes}
use acbackup.Backup.{Library, Config}
use acbackup.Backup.Read.{
  FileInput, has_value, open_file_for_reading, flush_input, read_requests, decompressed, checked,
  verify_node,
}
use acbackup.Backup.Attributes.{blocks_at_there}
use acbackup.Backup.Requests.{sum, increment_volume_counters_ok, read_requests-stored}
use acbackup.Backup.Stores.{encoded, IsFaithful, setting_for, BackedUp}

module _ (library : Library) (config : Config) (delivers : Delivers) (exact : IsExact delivers)
    (faithful : IsFaithful library) where
  decompressed-encoded :
      (level : Option ℕ) (bytes : List ℕ)
      → decompressed library config.hash_algorithm delivers
          (has_value (setting_for config level))
          (encoded library level bytes)
        ≡ ok bytes
  unfolding encoded setting_for
  decompressed-encoded none bytes = refl
  decompressed-encoded (some level) bytes = faithful.undoes level bytes

  hash_of_single :
      (h : HashAlgorithm) (v : String) (a : BackupNodeAttributes)
      → a.hashes ≡ (h, v) ∷ []
      → hash_of h a ≡ ok v
  unfolding hash_of find_hash
  hash_of_single h v a e = rw e (ground arith)

  -- The chain of streams for a node.
  abbrev input_for : BackupNodeAttributes → Option String → FileInput
  input_for a h = record {
    blocks = a.blocks;
    decompresses = has_value a.compression_setting;
    expected = h;
  }

  -- What a caller may expect from the hash value in the chain.
  abbrev hash_for : Bool → String → Option String
  hash_for true v = some v
  hash_for false v = none

  open_file_for_reading_lem :
      (s : FlatVolumes) (n : ℕ) (verify : Bool) (a : BackupNodeAttributes) (v : String)
      (r : Reading)
      → get_elem? s.index.attributes n ≡ some a
      → a.hashes ≡ (config.hash_algorithm, v) ∷ []
      → All (λ b. b.volume_number < length r.volumes) a.blocks
      → (r' : Reading) × (open_file_for_reading library config.hash_algorithm delivers s.index n
            verify r
          ≡ ok (r', input_for a (hash_for verify v)))
        × SameVolumes r r'
  unfolding open_file_for_reading get_node_attributes
  open_file_for_reading_lem s n true a v r at hashes opened =
      let (r', e, l) =
        increment_volume_counters_ok library config.hash_algorithm delivers exact a.blocks r
          opened in
      (r', rw (at, e, hash_of_single config.hash_algorithm v a hashes) refl, l)
  open_file_for_reading_lem s n false a v r at hashes opened =
      let (r', e, l) =
        increment_volume_counters_ok library config.hash_algorithm delivers exact a.blocks r
          opened in
      (r', rw (at, e) refl, l)

  flush_input_lem :
      (fuel : ℕ) (s : FlatVolumes) (requests : List ℕ) (r r' : Reading) (input : FileInput)
      (read bytes : List ℕ)
      → read_requests library config.hash_algorithm delivers fuel s.files input.blocks r start
          requests
        ≡ some (ok (r', read))
      → decompressed library config.hash_algorithm delivers input.decompresses read ≡ ok bytes
      → checked library config.hash_algorithm delivers input.expected bytes ≡ ok bytes
      → flush_input library config.hash_algorithm delivers fuel s.files requests r input
        ≡ some (ok bytes)
  unfolding flush_input
  flush_input_lem fuel s requests r r' input read bytes e d c = rw (e, and_then, d, c) refl

  checked_lem :
      (verify : Bool) (bytes : List ℕ)
      → checked library config.hash_algorithm delivers
          (hash_for verify (library.digest config.hash_algorithm bytes))
          bytes
        ≡ ok bytes
  checked_lem true bytes = ground arith
  checked_lem false bytes = refl

  -- The chain of streams for a node that was backed up gives the data, with the verification or
  -- without it.
  pub open_file_for_reading-BackedUp :
      (fuel : ℕ) (s : FlatVolumes) (path : FilePath) (n : ℕ) (new : NodeAttributes) (bytes : List ℕ)
      (level : Option ℕ) (verify : Bool) (requests : List ℕ) (r : Reading)
      → BackedUp library config path n new bytes level s
      → length (blocks_at s.index path) < 2 ^ 32
      → All (λ b. b.volume_number < length r.volumes) (blocks_at s.index path)
      → length (stored s path) ≤ sum requests
      → sum requests + length (blocks_at s.index path) + 1 < fuel
      → (r' : Reading) × (input : FileInput) × (open_file_for_reading library config.hash_algorithm
            delivers s.index n verify r
          ≡ ok (r', input))
        × (flush_input library config.hash_algorithm delivers fuel s.files requests r' input
            ≡ some (ok bytes))
  open_file_for_reading-BackedUp fuel s path n new bytes level verify requests r b few opened all
        enough =
      let v = library.digest config.hash_algorithm bytes in
      let same : b.node.blocks ≡ blocks_at s.index path =
        sym (blocks_at_there s.index path n b.known ∙ ap blocks_of b.at) in
      let hashes : b.node.hashes ≡ (config.hash_algorithm, v) ∷ [] =
        unfold without_blocks in ap (λ (a : BackupNodeAttributes). a.hashes) b.like in
      let setting : b.node.compression_setting ≡ setting_for config level =
        unfold without_blocks in ap (λ (a : BackupNodeAttributes). a.compression_setting) b.like in
      let (r', e, l) =
        open_file_for_reading_lem s n verify b.node v r b.at hashes
          (subst (All (λ c. c.volume_number < length r.volumes)) (sym same) opened) in
      let (r'', e') =
        read_requests-stored library config.hash_algorithm delivers exact s path b.node.blocks r'
          fuel requests same b.consistent (rw same few)
          (subst (λ k. All (λ c. c.volume_number < k) b.node.blocks) (sym l)
            (subst (All (λ c. c.volume_number < length r.volumes)) (sym same) opened))
          all (rw same enough) in
      (
        r',
        input_for b.node (hash_for verify v),
        e,
        flush_input_lem fuel s requests r' r'' (input_for b.node (hash_for verify v))
            (stored s path) bytes e' (rw (b.holds, setting) (decompressed-encoded level bytes))
            (checked_lem verify bytes),
      )

  verify_node_lem :
      (fuel : ℕ) (s : FlatVolumes) (path : FilePath) (n : ℕ) (requests : List ℕ) (r r' : Reading)
      (input : FileInput) (bytes : List ℕ) (a : BackupNodeAttributes)
      → find_index path s.index.path_map ≡ some n
      → open_file_for_reading library config.hash_algorithm delivers s.index n true r
        ≡ ok (r', input)
      → flush_input library config.hash_algorithm delivers fuel s.files requests r' input
        ≡ some (ok bytes)
      → get_elem? s.index.attributes n ≡ some a
      → (length bytes == a.base.size) ≡ true
      → verify_node library config.hash_algorithm delivers fuel s.files s.index requests r path
        ≡ some (ok true)
  unfolding verify_node get_node_index get_node_attributes
  verify_node_lem fuel s path n requests r r' input bytes a e1 e2 e3 e4 e5 =
      rw (e1, and_then, e2, and_then, e3, and_then, e4, e5) refl

  -- On a disk that reads as many bytes as are asked for or as there are, and with a decompressor
  -- that undoes the compressor: for a node whose data was backed up, with the size of its
  -- attributes, in fewer than 2^32 blocks in volumes that are among those for reading, where the
  -- streams ask for at least the bytes stored, with fuel for a round for each byte asked for and
  -- each block and two more, `VerifyNode` answers true.
  pub verify_node-BackedUp :
      (fuel : ℕ) (s : FlatVolumes) (path : FilePath) (n : ℕ) (new : NodeAttributes) (bytes : List ℕ)
      (level : Option ℕ) (requests : List ℕ) (r : Reading)
      → BackedUp library config path n new bytes level s
      → length bytes ≡ new.size
      → length (blocks_at s.index path) < 2 ^ 32
      → All (λ b. b.volume_number < length r.volumes) (blocks_at s.index path)
      → length (stored s path) ≤ sum requests
      → sum requests + length (blocks_at s.index path) + 1 < fuel
      → verify_node library config.hash_algorithm delivers fuel s.files s.index requests r path
        ≡ some (ok true)
  verify_node-BackedUp fuel s path n new bytes level requests r b size few opened all enough =
      let (r', input, e, e') =
        open_file_for_reading-BackedUp fuel s path n new bytes level true requests r b few opened
          all enough in
      let base : b.node.base ≡ new =
        unfold without_blocks in ap (λ (a : BackupNodeAttributes). a.base) b.like in
      verify_node_lem fuel s path n requests r r' input bytes b.node b.known e e' b.at (
        let q : b.node.base.size ≡ new.size = ap (λ (a : NodeAttributes). a.size) base in
        ground arith)
