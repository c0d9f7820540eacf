-- ===== src/Reading/Stored.antt =====
-- What the writing half has stored for a path is read back from its blocks.
use acbackup.Prelude.{
  ℕ, ◌+◌, ◌^◌, ◌<◌, ◌≡◌, refl, ap, ◌∙◌, ◌⊎◌, inl, inr, true, some, List, [], ◌∷◌, arith, ok, length,
  All, take_of_length-le,
}
use acbackup.Node.{FilePath, Block}
use acbackup.Node.Blocks.{Volumes, Within}
use acbackup.BackupIndex.Changes.{blocks_at}
use acbackup.Volumes.{FlatVolumes}
use acbackup.Volumes.Chunk.{stored, IsConsistent}
use acbackup.Reading.{Reading, Delivers, BlockStream, start, is_at_end, stream_read_bytes}
use acbackup.Reading.Bytes.{IsExact}
use acbackup.Reading.Stream.{Inside, stream_read_bytes-rest}

pub All-both :
    (files : Volumes) (n : ℕ) (blocks : List Block)
    → All (Within files) blocks
    → All (λ b. b.volume_number < n) blocks
    → All (λ b. Within files b × (b.volume_number < n)) blocks
All-both files n [] a b = tt
All-both files n (x ∷ xs) a b = ((a.0, b.0), All-both files n xs a.1 b.1)

module _ (delivers : Delivers) (exact : IsExact delivers) where
  pub start-valid :
      (files : Volumes) (small : (n : ℕ) → length (files n) < 2 ^ 64) (blocks : List Block)
      (few : length blocks < 2 ^ 32)
      → Inside delivers exact files small blocks few start ⊎ (is_at_end blocks start ≡ true)
  unfolding start is_at_end
  start-valid files small [] few = inr refl
  start-valid files small (b ∷ bs) few =
      inl (record { block = b; here = refl; inside = omega arith })

  -- On a disk that reads as many bytes as are asked for or as there are, where the volumes are
  -- consistent and a node has fewer than 2^32 blocks, in volumes that are among those for reading,
  -- a new stream over the blocks reads back exactly the bytes stored for the path, with fuel for a
  -- round for each byte and each block and two more.
  pub stream_read_bytes-stored :
      (s : FlatVolumes) (p : FilePath) (r : Reading) (fuel : ℕ)
      → IsConsistent s
      → length (blocks_at s.index p) < 2 ^ 32
      → All (λ b. b.volume_number < length r.volumes) (blocks_at s.index p)
      → length (stored s p) + length (blocks_at s.index p) + 1 < fuel
      → (r' : Reading) × (t : BlockStream) × (stream_read_bytes delivers s.files fuel
            (blocks_at s.index p)
            r
            start
            (length (stored s p))
          ≡ some (ok ((r', t), stored s p)))
  unfolding stored start
  stream_read_bytes-stored s p r fuel c few opened enough =
      let blocks = blocks_at s.index p in
      let small : (n : ℕ) → length (s.files n) < 2 ^ 64 =
        λ n. omega (arith, c.room.bounded n, c.room.small) in
      let (r', t, e, left, valid, l) =
        stream_read_bytes-rest delivers exact s.files small blocks few fuel r start
          (length (stored s p)) (start-valid s.files small blocks few)
          (All-both s.files (length r.volumes) blocks (c.within p) opened) enough in
      (
        r',
        t,
        e
            ∙ ap (λ x. some (ok ((r', t), x)))
                (take_of_length-le (length (stored s p)) (stored s p) (omega arith)),
      )
