-- ===== src/Reading.antt =====
-- src/backupfilesystem/FlatVolumesFileSystem.{hpp,cpp} and FlatVolumesBlockInputStream.{hpp,cpp}, the
-- reading half: the blocks of a node are read from the volume files, one after another.
pub mod Bytes
pub mod Blocks
pub mod Stream
pub mod Stored
pub mod Short
use acbackup.Prelude.{
  Call, and_then, ℕ, zero, suc, ◌+◌, ◌-◌, ◌%◌, ◌^◌, min, Bool, true, false, not, ◌&&◌, Option, none,
  some, List, [], ◌∷◌, ◌++◌, ◌==◌, ltb, if◌then◌else◌, Result, ok, throw, missing_key, or_throw,
  ◌>>=◌, length, take, drop, get_elem?,
}
use acbackup.Node.{Block, add_uint64}
use acbackup.Node.Blocks.{Volumes}
use acbackup.Index.{modify}

-- Whether the `FileInputStream` of the volume is there, and how many blocks are to be read from it.
pub record VolumeForReading : Type 0 where
  pub is_open : Bool
  pub counter : ℕ

-- The `reading` members; `nOpenVolumes` is a `uint16`.
pub record Reading : Type 0 where
  pub volumes : List VolumeForReading
  pub n_open_volumes : ℕ

-- A change of `(*this->reading.volumes)[volumeNumber]`.
unfoldable pub change_volume : (VolumeForReading → VolumeForReading) → ℕ → Reading → Reading
unfolding modify
change_volume f n r = record r { volumes = modify f r.volumes n }

-- `DecrementVolumeCount`.
pub decrement_volume_count : Reading → ℕ → Result Reading
unfolding change_volume
decrement_volume_count r n = do
  v ← or_throw (get_elem? r.volumes n) missing_key
  ok (change_volume (λ u. record u { counter = (u.counter + 2 ^ 64 - 1) % 2 ^ 64 }) n r)

-- `IncrementVolumeCounters`.
unfoldable pub increment_volume_counters : Reading → List Block → Result Reading
unfolding change_volume
increment_volume_counters r [] = ok r
increment_volume_counters r (b ∷ bs) = do
  v ← or_throw (get_elem? r.volumes b.volume_number) missing_key
  increment_volume_counters
      (change_volume (λ u. record u { counter = add_uint64 u.counter 1 }) b.volume_number r) bs

-- `LockVolumeStream`, which opens the volume if it is not open.
pub lock_volume_stream : Reading → ℕ → Result Reading
unfolding change_volume
lock_volume_stream r n = do
  v ← or_throw (get_elem? r.volumes n) missing_key
  ok (
      if v.is_open then r else record (change_volume (λ u. record u { is_open = true }) n r) {
        n_open_volumes = (r.n_open_volumes + 1) % 2 ^ 16;
      })

-- The loop of `CloseUnusedVolumes`: the volumes and the number of those that are open.
pub close_volumes : List VolumeForReading → ℕ → List VolumeForReading × ℕ
close_volumes [] n = ([], n)
close_volumes (v ∷ vs) n =
    let closes = (v.counter == 0) && v.is_open in
    let (us, m) = close_volumes vs (if closes then (n + 2 ^ 16 - 1) % 2 ^ 16 else n) in
    ((if closes then record v { is_open = false } else v) ∷ us, m)

-- `CloseUnusedVolumes`.
pub close_unused_volumes : Reading → Reading
unfolding close_volumes
close_unused_volumes r =
    if ltb 100 r.n_open_volumes
    then (let (vs, n) = close_volumes r.volumes r.n_open_volumes in
        record { volumes = vs; n_open_volumes = n })
    else r

-- Bytes in front of those that a later call reads.
abbrev pub prepend : {A : Type 0} → List ℕ → Call (A × List ℕ) → Call (A × List ℕ)
prepend bytes c = and_then c (λ x. some (ok (x.0, bytes ++ x.1)))

-- The operating system's `FileInputStream`: how many of the bytes asked for it reads, by those that
-- lie between its position and the end of the file.
abbrev pub Delivers : Type 0
Delivers = List ℕ → ℕ → ℕ

-- `FlatVolumesBlockInputStream`, but for the blocks.
pub record BlockStream : Type 0 where
  pub current_block_index : ℕ
  pub block_offset : ℕ

unfoldable pub start : BlockStream
start = record { current_block_index = 0; block_offset = 0 }

-- `IsAtEnd`.
pub is_at_end : List Block → BlockStream → Bool
is_at_end blocks s = not (ltb s.current_block_index (length blocks))

-- The `if` at the head of the loop of `ReadBytes`, which goes on to the next block.
pub next_block : List Block → Reading → BlockStream → Result (Reading × BlockStream)
unfolding is_at_end decrement_volume_count
next_block blocks r s = do
  b ← or_throw (get_elem? blocks s.current_block_index) missing_key
  let t : BlockStream = record s { current_block_index = (s.current_block_index + 1) % 2 ^ 32 }
  if ltb s.block_offset b.size then ok (r, s) else (do
    r' ← decrement_volume_count r b.volume_number
    ok (r', if is_at_end blocks t then t else record t { block_offset = 0 }))

module _ (delivers : Delivers) (files : Volumes) where
  -- The loop of `FlatVolumesFileSystem::ReadBytes`, which seeks to the same offset in each round.
  pub read_loop : ℕ → Reading → ℕ → ℕ → ℕ → Call (Reading × List ℕ)
  unfolding lock_volume_stream
  read_loop zero r n offset count = none
  read_loop (suc fuel) r n offset zero = some (ok (r, []))
  read_loop (suc fuel) r n offset (suc count) =
      let behind = drop offset (files n) in
      let n_bytes_read = delivers behind (suc count) in
      and_then (some (lock_volume_stream r n)) (λ r'.
        prepend (take n_bytes_read behind) (read_loop fuel r' n offset (suc count - n_bytes_read)))

  -- `FlatVolumesFileSystem::ReadBytes`.
  pub read_volume : ℕ → Reading → ℕ → ℕ → ℕ → Call (Reading × List ℕ)
  unfolding read_loop close_unused_volumes
  read_volume fuel r n offset count = read_loop fuel (close_unused_volumes r) n offset count

  -- What is read of the current block in one round of the loop.
  pub read_block : ℕ → List Block → Reading → BlockStream → ℕ → Call (Reading × List ℕ)
  unfolding read_volume
  read_block fuel blocks r s count =
      and_then (some (or_throw (get_elem? blocks s.current_block_index) missing_key)) (λ b.
        read_volume fuel r b.volume_number (add_uint64 b.offset s.block_offset)
          (min count (min ((b.size + 2 ^ 64 - s.block_offset) % 2 ^ 64) (2 ^ 32 - 1))))

  -- The loop of `FlatVolumesBlockInputStream::ReadBytes`. The stream is at its end only if it has gone
  -- on to the next block.
  pub read_blocks :
      ℕ → List Block → Reading → BlockStream → ℕ → Call ((Reading × BlockStream) × List ℕ)
  unfolding next_block read_block
  read_blocks zero blocks r s count = none
  read_blocks (suc fuel) blocks r s zero = some (ok ((r, s), []))
  read_blocks (suc fuel) blocks r s (suc count) = and_then (some (next_block blocks r s)) (λ x.
      elim (is_at_end blocks x.1) [
        | true ↦ some (ok (x, []))
        | false ↦ and_then (read_block fuel blocks x.0 x.1 (suc count)) (λ y.
            let n = length y.1 in
            let s' : BlockStream = record x.1 { block_offset = add_uint64 x.1.block_offset n } in
            prepend y.1 (read_blocks fuel blocks y.0 s' (suc count - n)))
      ])

  -- `FlatVolumesBlockInputStream::ReadBytes`.
  pub stream_read_bytes :
      ℕ → List Block → Reading → BlockStream → ℕ → Call ((Reading × BlockStream) × List ℕ)
  unfolding is_at_end read_blocks
  stream_read_bytes fuel blocks r s count = elim (is_at_end blocks s) [
    | true ↦ some (ok ((r, s), []))
    | false ↦ read_blocks fuel blocks r s count
  ]
