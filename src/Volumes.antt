-- ===== src/Volumes.antt =====
-- src/backupfilesystem/FlatVolumesFileSystem.{hpp,cpp} and VolumesOutputStream.{hpp,cpp}, the
-- writing half: files are written into numbered volumes of a bounded size, and several streams
-- write at once, each into a volume of its own.
pub mod Streams
pub mod Others
pub mod Extends
pub mod Assign
pub mod Chunk
pub mod Init
pub mod Write
pub mod Stall
pub mod Schedule
use acbackup.Prelude.{
  ℕ, zero, suc, ◌+◌, ◌-◌, ◌%◌, ◌^◌, min, ite, Bool, true, false, Option, none, some, List, [], ◌∷◌,
  ◌++◌, ◌==◌, if◌then◌else◌, ℕ_discrete, Result, ok, throw, ◌>>=◌, length, take, drop,
}
use acbackup.Node.{FilePath, Block, add_uint64}
use acbackup.Node.Blocks.{Volumes}
use acbackup.BackupIndex.{Nodes, index_add_block}

-- `VolumesOutputStream`: its address, by which a volume knows its owner, and the path of its node.
pub record Writer : Type 0 where
  pub address : ℕ
  pub path : FilePath

-- `OpenVolumeForWriting`; the file is the one with the volume's number.
pub record OpenVolume : Type 0 where
  pub number : ℕ
  pub left_size : ℕ
  pub owned_writer : Option ℕ

-- The `writing` members, the index that the file system refers to, and the volume files on disk.
pub record FlatVolumes : Type 0 where
  pub volume_size : ℕ
  pub created_data_dir : Bool
  pub next_volume_number : ℕ
  pub open_volumes : List OpenVolume
  pub files : Volumes
  pub index : Nodes

unfoldable pub init : ℕ → Nodes → FlatVolumes
init volume_size index = record {
  volume_size = volume_size;
  created_data_dir = false;
  next_volume_number = 0;
  open_volumes = [];
  files = λ n. [];
  index = index;
}

-- What the loop of `FindStream` ends with: the writer's volume, or a volume without an owner, the
-- last one that the loop came by, or neither.
pub data Found : Type 0 where
  owned : OpenVolume → Found
  free : OpenVolume → Found
  nothing : Found

abbrev end_of_loop : Option OpenVolume → Found
end_of_loop (some v) = free v
end_of_loop none = nothing

unfoldable pub scan : ℕ → Option OpenVolume → List OpenVolume → Found
scan w candidate [] = end_of_loop candidate
scan w candidate (v ∷ vs) = elim v.owned_writer [
  | some o ↦ elim (o == w) [ true ↦ owned v | false ↦ scan w candidate vs ]
  | none ↦ scan w (some v) vs
]

-- `free->ownedWriter = writer`.
pub take_over : ℕ → ℕ → List OpenVolume → List OpenVolume
take_over number w [] = []
take_over number w (v ∷ vs) =
    if v.number == number
    then record v { owned_writer = some w } ∷ vs
    else v ∷ take_over number w vs

pub update_file : Volumes → ℕ → List ℕ → Volumes
update_file files n bytes = λ m. ite (ℕ_discrete m n) bytes (files m)

-- The volume that a call of `FindStream` answers with: its number and its `leftSize`.
pub record Stream : Type 0 where
  pub number : ℕ
  pub left_size : ℕ

-- A new volume, in a new file, with the writer as its owner. The directory is made before the first.
pub create_volume : FlatVolumes → ℕ → FlatVolumes
unfolding update_file
create_volume s w = record s {
  created_data_dir = true;
  next_volume_number = add_uint64 s.next_volume_number 1;
  open_volumes = s.open_volumes ++ volume ∷ [];
  files = update_file s.files s.next_volume_number [];
}
  where
    volume : OpenVolume
    volume = record {
      number = s.next_volume_number;
      left_size = s.volume_size;
      owned_writer = some w;
    }

-- `FindStream`.
unfoldable pub find_stream : FlatVolumes → ℕ → FlatVolumes × Stream
unfolding scan take_over create_volume
find_stream s w = elim (scan w none s.open_volumes) [
  | owned v ↦ (s, record { number = v.number; left_size = v.left_size })
  | free v ↦ (
    record s { open_volumes = take_over v.number w s.open_volumes },
    record { number = v.number; left_size = v.left_size },
  )
  | nothing ↦
      (create_volume s w, record { number = s.next_volume_number; left_size = s.volume_size })
]

abbrev pub is_owned_by : ℕ → Option ℕ → Bool
is_owned_by w (some o) = o == w
is_owned_by w none = false

pub first_owned : ℕ → List OpenVolume → Option OpenVolume
first_owned w [] = none
first_owned w (v ∷ vs) = if is_owned_by w v.owned_writer then some v else first_owned w vs

-- The writer's volume has `n` bytes less left, and is closed when none are left.
pub count_written : ℕ → ℕ → List OpenVolume → List OpenVolume
count_written w n [] = []
count_written w n (v ∷ vs) =
    let left = (v.left_size + 2 ^ 64 - n) % 2 ^ 64 in
    if is_owned_by w v.owned_writer
    then (if left == 0 then vs else record v { left_size = left } ∷ vs)
    else v ∷ count_written w n vs

-- `BytesWereWrittenToVolume`.
pub bytes_were_written : FlatVolumes → Writer → ℕ → ℕ → Result FlatVolumes
unfolding first_owned count_written
bytes_were_written s w offset n = elim (first_owned w.address s.open_volumes) [
  | some v ↦ do
    index ←
        index_add_block w.path (record { volume_number = v.number; offset = offset; size = n })
          s.index
    ok (record s { index = index; open_volumes = count_written w.address n s.open_volumes })
  | none ↦ ok s
]

-- `CloseFile`.
pub close_file : ℕ → List OpenVolume → List OpenVolume
close_file w [] = []
close_file w (v ∷ vs) =
    if is_owned_by w v.owned_writer
    then record v { owned_writer = none } ∷ vs
    else v ∷ close_file w vs

-- The operating system's `FileOutputStream` at the end of a file: how many of the bytes that it is
-- given it takes, by what the file holds.
abbrev pub Accepts : Type 0
Accepts = List ℕ → ℕ → ℕ

module _ (accepts : Accepts) where
  -- The body of the loop of `WriteBytes`, with what is left of the source behind it.
  pub write_chunk : FlatVolumes → Writer → List ℕ → Result (FlatVolumes × List ℕ)
  unfolding find_stream bytes_were_written update_file
  write_chunk s w src =
      let (s', stream) = find_stream s w.address in
      let bytes = s'.files stream.number in
      let bytes_to_write = min (stream.left_size % 2 ^ 32) (length src) in
      let written = accepts bytes bytes_to_write in
      let s'' : FlatVolumes = record s' {
        files = update_file s'.files stream.number (bytes ++ take written src);
      } in
      do t ← bytes_were_written s'' w (length bytes) written; ok (t, drop written src)

  -- `WriteBytes`, which loops until the source is used up; `none` means that the fuel ran out.
  pub write_bytes : ℕ → FlatVolumes → Writer → List ℕ → Option (Result FlatVolumes)
  write_bytes zero s w src = none
  write_bytes (suc fuel) s w [] = some (ok s)
  write_bytes (suc fuel) s w (b ∷ bs) = elim (write_chunk s w (b ∷ bs)) [
    | ok (t, rest) ↦ write_bytes fuel t w rest
    | throw e ↦ some (throw e)
  ]

-- What the streams do, in the order in which they get to it: a round of the loop of `WriteBytes`,
-- or the end of a stream, whose destructor calls `CloseFile`.
pub data Event : Type 0 where
  writes : Writer → List ℕ → Event
  closes : Writer → Event

-- The volumes after the events, and what each round took, with the path that it is for.
pub run : Accepts → FlatVolumes → List Event → Result (FlatVolumes × List (FilePath × List ℕ))
unfolding write_chunk close_file
run accepts s [] = ok (s, [])
run accepts s (writes w src ∷ es) = do
  (t, rest) ← write_chunk accepts s w src
  (u, taken) ← run accepts t es
  ok (u, (w.path, take (length src - length rest) src) ∷ taken)
run accepts s (closes w ∷ es) =
    run accepts (record s { open_volumes = close_file w.address s.open_volumes }) es
