-- ===== src/Volumes/Chunk.antt =====
-- One round of the loop of `WriteBytes`: the invariant of the volumes, and what a round stores.
use acbackup.Prelude.{
  ℕ, ◌+◌, ◌%◌, ◌^◌, ◌≤◌, ◌<◌, min, ◌≡◌, refl, sym, ap, subst, ◌∙◌, ◌≢◌, List, [], map, ◌++◌, arith,
  length, take, drop, All, ℕ_discrete, ok, length-append, length-take, append-nil, ap₂,
  String_discrete,
}
use acbackup.Node.{FilePath, Block, push_block}
use acbackup.Node.Blocks.{Volumes, slice, Within, block_bytes, blocks_bytes, push_block-bytes}
use acbackup.Index.WellFormed.{IsWellFormed}
use acbackup.BackupIndex.{Nodes}
use acbackup.BackupIndex.Changes.{
  without_blocks, blocks_at, Knows, AddsBlock, index_add_block-AddsBlock,
}
use acbackup.Volumes.{
  FlatVolumes, Writer, Stream, Accepts, count_written, update_file, find_stream, bytes_were_written,
  write_chunk,
}
use acbackup.Volumes.Extends.{Extends, slice-append_right, All-Within-Extends, blocks_bytes-Extends}
use acbackup.Volumes.Assign.{HasRoom, Assigned}
use acbackup.Volumes.Streams.{
  IsOpen, All-Holds, Holds-first_owned, Distinct-count_written, count_written-IsOpen,
}

-- The bytes stored for a path.
unfoldable pub stored : FlatVolumes → FilePath → List ℕ
stored s p = blocks_bytes s.files (blocks_at s.index p)

-- The index names only stretches that lie inside the files.
pub record IsConsistent (s : FlatVolumes) : Type 0 where
  pub room : HasRoom s
  pub well_formed : IsWellFormed s.index
  pub within : (p : FilePath) → All (Within s.files) (blocks_at s.index p)

-- What a round with the given source leaves: the first bytes of it are stored for the writer's path,
-- the rest is handed back, and no other path is touched.
pub record Stores (s : FlatVolumes) (w : Writer) (src : List ℕ) (count : ℕ) (t : FlatVolumes)
    (rest : List ℕ) : Type 0 where
  pub consistent : IsConsistent t
  pub added : stored t w.path ≡ stored s w.path ++ take count src
  pub left : rest ≡ drop count src
  pub kept : (p : FilePath) → p ≢ w.path → stored t p ≡ stored s p
  pub paths : t.index.path_map ≡ s.index.path_map
  pub size : t.volume_size ≡ s.volume_size
  pub next :
      (s.next_volume_number ≤ t.next_volume_number)
      × (t.next_volume_number ≤ s.next_volume_number + 1)
  pub same : map without_blocks t.index.attributes ≡ map without_blocks s.index.attributes

-- The second half of a round: `n` bytes go to the end of the file of the writer's volume, and
-- `BytesWereWrittenToVolume` is told.
module _ (s : FlatVolumes) (w : Writer) (src : List ℕ) (n : ℕ) (t : FlatVolumes) (stream : Stream)
    (c : IsConsistent s) (known : Knows s.index w.path) (a : Assigned s w.address t stream)
    (fits : n ≤ stream.left_size) (enough : n ≤ length src) where
  abbrev grown : Volumes
  unfolding update_file
  grown = update_file t.files stream.number (t.files stream.number ++ take n src)

  abbrev new_block : Block
  new_block = record {
    volume_number = stream.number;
    offset = length (t.files stream.number);
    size = n;
  }

  grown_self : grown stream.number ≡ t.files stream.number ++ take n src
  unfolding update_file
  grown_self = ground arith

  grown_other : (m : ℕ) → m ≢ stream.number → grown m ≡ t.files m
  unfolding update_file
  grown_other m h = ground arith

  grown-Extends : Extends s.files grown
  grown-Extends m = elim (ℕ_discrete m stream.number) [
    | yes e ↦ (take n src, rw e (grown_self ∙ ap (λ x. x ++ take n src) (a.files stream.number)))
    | no e ↦ ([], grown_other m e ∙ a.files m ∙ sym (append-nil (s.files m)))
  ]

  length-grown : length (grown stream.number) ≡ length (t.files stream.number) + n
  length-grown = omega (
    arith,
    ap length grown_self,
    length-append (t.files stream.number) (take n src),
    length-take n src,
  )

  IsOpen-volume : IsOpen t.volume_size t.next_volume_number t.files a.volume
  IsOpen-volume =
      All-Holds (IsOpen t.volume_size t.next_volume_number t.files) a.volume t.open_volumes
        a.room.open_volumes (Holds-first_owned w.address a.volume t.open_volumes a.owner)

  abbrev after : Nodes → FlatVolumes
  after y = record t {
    files = grown;
    index = y;
    open_volumes = count_written w.address n t.open_volumes;
  }

  after-HasRoom : (y : Nodes) → HasRoom (after y)
  after-HasRoom y = record {
    positive = a.room.positive;
    small = a.room.small;
    open_volumes =
        count_written-IsOpen w.address n t.volume_size t.next_volume_number t.files grown a.volume
          a.room.small (omega (arith, a.left)) (rw a.number length-grown) (rw a.number grown_other)
          t.open_volumes a.owner a.room.distinct a.room.open_volumes;
    distinct = Distinct-count_written w.address n t.open_volumes a.room.distinct;
    bounded = λ m. elim (ℕ_discrete m stream.number) [
      | yes e ↦ rw e (rw a.number at open_volume_bound)
      | no e ↦ rw (grown_other m e) (a.room.bounded m)
    ];
    fresh = λ m h. grown_other m (λ e. omega (arith, IsOpen-volume, a.number)) ∙ a.room.fresh m h;
  }
    where
      open_volume_bound : length (grown a.volume.number) ≤ t.volume_size
      open_volume_bound = rw a.number (
          omega (arith, length-grown, IsOpen-volume, a.left, ap (λ k. length (t.files k)) a.number))

  new_block-bytes : block_bytes grown new_block ≡ take n src
  new_block-bytes =
      ap (slice (length (t.files stream.number)) n) grown_self
      ∙ slice-append_right n (t.files stream.number) src enough

  still-Within : (p : FilePath) → All (Within grown) (blocks_at s.index p)
  still-Within p = All-Within-Extends s.files grown grown-Extends (blocks_at s.index p) (c.within p)

  still_bytes : (p : FilePath) → blocks_bytes grown (blocks_at s.index p) ≡ stored s p
  unfolding stored
  still_bytes p =
      blocks_bytes-Extends s.files grown grown-Extends (blocks_at s.index p) (c.within p)

  module _ (y : Nodes) (changed : AddsBlock w.path new_block t.index y) where
    blocks_self : blocks_at y w.path ≡ push_block new_block (blocks_at s.index w.path)
    blocks_self = changed.grown ∙ ap (λ x. push_block new_block (blocks_at x w.path)) a.index

    blocks_kept : (p : FilePath) → p ≢ w.path → blocks_at y p ≡ blocks_at s.index p
    blocks_kept p h = changed.kept p h ∙ ap (λ x. blocks_at x p) a.index

    pushed :
        (blocks_bytes grown (push_block new_block (blocks_at s.index w.path))
          ≡ blocks_bytes grown (blocks_at s.index w.path) ++ block_bytes grown new_block)
        × All (Within grown) (push_block new_block (blocks_at s.index w.path))
    pushed =
        push_block-bytes grown
          (λ m. let room = after-HasRoom y in omega (arith, room.bounded m, room.small)) new_block
          (blocks_at s.index w.path) (still-Within w.path) (omega (arith, length-grown))

    after-IsConsistent : IsConsistent (after y)
    after-IsConsistent = record {
      room = after-HasRoom y;
      well_formed = changed.well_formed;
      within = λ p. elim (String_discrete p w.path) [
        | yes e ↦ rw (e, blocks_self) pushed.1
        | no e ↦ rw (blocks_kept p e) (still-Within p)
      ];
    }

    after-Stores : Stores s w src n (after y) (drop n src)
    unfolding stored
    after-Stores = record {
      consistent = after-IsConsistent;
      added =
          ap (blocks_bytes grown) blocks_self
          ∙ pushed.0
          ∙ ap₂ ◌++◌ (still_bytes w.path) new_block-bytes;
      left = refl;
      kept = λ p h. ap (blocks_bytes grown) (blocks_kept p h) ∙ still_bytes p;
      paths = changed.same_paths ∙ ap (λ (x : Nodes). x.path_map) a.index;
      size = a.size;
      next = a.next;
      same = changed.same ∙ ap (λ (x : Nodes). map without_blocks x.attributes) a.index;
    }

  bytes_were_written-Stores :
      (u : FlatVolumes) × (bytes_were_written
          (record t { files = grown })
          w
          (length (t.files stream.number))
          n
        ≡ ok u)
      × Stores s w src n u (drop n src)
      × (u.open_volumes ≡ count_written w.address n t.open_volumes)
  unfolding bytes_were_written
  bytes_were_written-Stores =
      let (y, e, changed) =
        index_add_block-AddsBlock w.path new_block t.index
          (subst IsWellFormed (sym a.index) c.well_formed)
          (subst (λ x. Knows x w.path) (sym a.index) known) in
      (after y, rw (a.owner, bytes_were_written) (rw a.number (rw e)), after-Stores y changed, refl)

-- What a stream takes is at most what it is given, and something if it is given something.
abbrev pub IsLawful : Accepts → Type 0
IsLawful accepts = (bytes : List ℕ) (n : ℕ) → accepts bytes n ≤ n

abbrev pub IsLively : Accepts → Type 0
IsLively accepts = (bytes : List ℕ) (n : ℕ) → 0 < n → 0 < accepts bytes n

-- How many bytes a round writes.
abbrev pub round_count : Accepts → FlatVolumes → Writer → List ℕ → ℕ
round_count accepts s w src =
    let (t, stream) = find_stream s w.address in
    accepts (t.files stream.number) (min (stream.left_size % 2 ^ 32) (length src))

-- A round of the loop never throws for a path that the index knows; it stores the first bytes of
-- the source.
pub write_chunk-Stores :
    (accepts : Accepts) (s : FlatVolumes) (w : Writer) (src : List ℕ)
    → IsLawful accepts
    → IsConsistent s
    → Knows s.index w.path
    → Assigned s w.address (find_stream s w.address).0 (find_stream s w.address).1
    → (u : FlatVolumes) × (write_chunk accepts s w src
        ≡ ok (u, drop (round_count accepts s w src) src))
      × Stores s w src (round_count accepts s w src) u (drop (round_count accepts s w src) src)
      × (u.open_volumes
          ≡ count_written w.address
              (round_count accepts s w src)
              (find_stream s w.address).0.open_volumes)
unfolding write_chunk
write_chunk-Stores accepts s w src lawful c known a =
    let (t, stream) = find_stream s w.address in
    let bytes = t.files stream.number in
    let asked = min (stream.left_size % 2 ^ 32) (length src) in
    let n = accepts bytes asked in
    let (u, e, stores, v) =
      bytes_were_written-Stores s w src n t stream c known a (omega (arith, lawful bytes asked))
        (omega (arith, lawful bytes asked)) in
    (u, rw e, stores, v)
