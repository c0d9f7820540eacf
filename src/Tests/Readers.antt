-- ===== src/Tests/Readers.antt =====
-- Reading from volumes of four bytes.
use acbackup.Prelude.{
  ℕ, ◌^◌, ◌<◌, ◌≡◌, refl, ◌⊎◌, inl, min, true, false, none, some, List, [], ◌∷◌, arith, ok,
  String_discrete, ℕ_discrete, length, take, drop, All, ite, subst, sym,
}
use acbackup.Node.{FilePath, Block}
use acbackup.Node.Blocks.{Volumes, Within}
use acbackup.Index.{find_index}
use acbackup.BackupIndex.{Nodes}
use acbackup.BackupIndex.Changes.{blocks_at}
use acbackup.Volumes.{FlatVolumes}
use acbackup.Volumes.Chunk.{IsConsistent, stored}
use acbackup.Reading.{
  Reading, Delivers, BlockStream, start, is_at_end, stream_read_bytes, read_volume,
}
use acbackup.Reading.Bytes.{IsExact, SameVolumes}
use acbackup.Reading.Stream.{Inside, rest, stream_read_bytes-rest}
use acbackup.Reading.Stored.{stream_read_bytes-stored}
use acbackup.Reading.Short.{read_volume_endless}
use acbackup.Tests.Data.{plain, backed_up, one_node, one_node-IsWellFormed}

abbrev pub gives_all : Delivers
gives_all behind n = min n (length behind)

pub gives_all-IsExact : IsExact gives_all
gives_all-IsExact behind n = refl

abbrev pub two_volumes : Reading
two_volumes = record {
  volumes = record { is_open = false; counter = 1 } ∷ record { is_open = true; counter = 2 } ∷ [];
  n_open_volumes = 1;
}

abbrev full_files : Volumes
full_files n = 1 ∷ 2 ∷ 3 ∷ 4 ∷ []

abbrev two_blocks : List Block
two_blocks =
    record { volume_number = 0; offset = 1; size = 3 }
    ∷ record { volume_number = 1; offset = 0; size = 2 }
    ∷ []

full_files_small : (n : ℕ) → length (full_files n) < 2 ^ 64
full_files_small n = omega arith

two_blocks_few : length two_blocks < 2 ^ 32
two_blocks_few = omega arith

-- One byte of the first block has been read.
abbrev begun : BlockStream
begun = record { current_block_index = 0; block_offset = 1 }

abbrev begun_rest : List ℕ
begun_rest =
    rest gives_all gives_all-IsExact full_files full_files_small two_blocks two_blocks_few begun

stream_read_bytes-rest_example :
    (r' : Reading) × (t : BlockStream) × (stream_read_bytes gives_all full_files 9 two_blocks
        two_volumes begun 3
      ≡ some (ok ((r', t), take 3 begun_rest)))
    × (rest gives_all gives_all-IsExact full_files full_files_small two_blocks two_blocks_few t
        ≡ drop 3 begun_rest)
    × (Inside gives_all gives_all-IsExact full_files full_files_small two_blocks two_blocks_few t
        ⊎ (is_at_end two_blocks t ≡ true))
    × SameVolumes two_volumes r'
stream_read_bytes-rest_example =
    stream_read_bytes-rest gives_all gives_all-IsExact full_files full_files_small two_blocks
      two_blocks_few 9 two_volumes begun 3
      (inl (record {
        block = record { volume_number = 0; offset = 1; size = 3 };
        here = refl;
        inside = omega arith;
      }))
      ((omega arith, omega arith), ((omega arith, omega arith), tt)) (omega arith)

abbrev pub nodes : Nodes
nodes = one_node "/a" (
    backed_up (plain 2 1) true none (record { volume_number = 0; offset = 0; size = 2 } ∷ [])
      ((0, "d") ∷ []))

-- Two bytes were written, and the volume is free.
abbrev pub written : FlatVolumes
written = record {
  volume_size = 4;
  created_data_dir = true;
  next_volume_number = 1;
  open_volumes = record { number = 0; left_size = 2; owned_writer = none } ∷ [];
  files = λ n. ite (ℕ_discrete n 0) (7 ∷ 8 ∷ []) [];
  index = nodes;
}

written-Within : (p : FilePath) → All (Within written.files) (blocks_at nodes p)
unfolding blocks_at find_index ℕ_discrete
written-Within p = elim (String_discrete p "/a") [
  | yes e ↦
      let q : blocks_at nodes p ≡ record { volume_number = 0; offset = 0; size = 2 } ∷ [] =
        ground arith in
      subst (All (Within written.files)) (sym q) (omega arith, tt)
  | no n ↦
      let q : blocks_at nodes p ≡ [] = ground arith in subst (All (Within written.files)) (sym q) tt
]

pub written-IsConsistent : IsConsistent written
unfolding ℕ_discrete
written-IsConsistent = record {
  room = record {
    positive = omega arith;
    small = omega arith;
    open_volumes = ((omega arith, refl, omega arith), tt);
    distinct = (tt, tt);
    bounded = λ n. elim (ℕ_discrete n 0) [ yes e ↦ ground arith | no e ↦ ground arith ];
    fresh = λ n h. elim (ℕ_discrete n 0) [ yes e ↦ ground arith | no e ↦ ground arith ];
  };
  well_formed = one_node-IsWellFormed "/a" _;
  within = written-Within;
}

stream_read_bytes-stored_example :
    (r' : Reading) × (t : BlockStream) × (stream_read_bytes gives_all written.files 5
        (blocks_at nodes "/a")
        two_volumes
        start
        (length (stored written "/a"))
      ≡ some (ok ((r', t), stored written "/a")))
unfolding blocks_at find_index String_discrete stored ℕ_discrete
stream_read_bytes-stored_example =
    stream_read_bytes-stored gives_all gives_all-IsExact written "/a" two_volumes 5
      written-IsConsistent (omega arith) (omega arith, tt) (omega arith)

-- The volume file is empty, but the block has a byte.
read_volume_endless_example : read_volume gives_all (λ n. []) 7 two_volumes 0 0 1 ≡ none
read_volume_endless_example =
    read_volume_endless gives_all (λ n. []) 7 two_volumes 0 0 0 (λ n. omega arith) (omega arith)
      (omega arith)
