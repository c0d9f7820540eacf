-- ===== src/Tests/Streams.antt =====
-- Two streams into volumes of four bytes.
use acbackup.Prelude.{
  ℕ, ◌^◌, ◌<◌, ◌≡◌, ◌≢◌, refl, false, none, some, List, [], ◌∷◌, ◌++◌, arith, ok, String_discrete,
}
use acbackup.Node.{FilePath, BackupNodeAttributes}
use acbackup.Index.{find_index}
use acbackup.Index.WellFormed.{IsWellFormed}
use acbackup.BackupIndex.{Nodes}
use acbackup.BackupIndex.Changes.{blocks_at, Knows}
use acbackup.Volumes.{
  FlatVolumes, Writer, Accepts, init, Event, writes, closes, run, write_bytes, find_stream, scan,
}
use acbackup.Volumes.Chunk.{IsConsistent, IsLawful, IsLively, stored}
use acbackup.Volumes.Init.{init-IsConsistent}
use acbackup.Volumes.Write.{write_bytes-stored}
use acbackup.Volumes.Stall.{write_bytes_endless}
use acbackup.Volumes.Schedule.{run-stored, taken_for}
use acbackup.Tests.Data.{plain, backed_up, two_nodes, two_nodes-IsWellFormed}

abbrev a_file : BackupNodeAttributes
a_file = backed_up (plain 9 1) false none [] []

abbrev nodes : Nodes
nodes = two_nodes "/a" a_file "/b" a_file

nodes-IsWellFormed : IsWellFormed nodes
nodes-IsWellFormed =
    two_nodes-IsWellFormed "/a" a_file "/b" a_file (unfold find_index String_discrete in refl)

no_blocks : (p : FilePath) → blocks_at nodes p ≡ []
unfolding blocks_at find_index
no_blocks p = ground arith

start-IsConsistent : (size : ℕ) → 0 < size → size < 2 ^ 64 → IsConsistent (init size nodes)
start-IsConsistent size positive small =
    init-IsConsistent size nodes positive small nodes-IsWellFormed no_blocks

-- A disk that takes all that it is given.
abbrev pub takes_all : Accepts
takes_all bytes n = n

pub takes_all-IsLawful : IsLawful takes_all
takes_all-IsLawful bytes n = omega arith

pub takes_all-IsLively : IsLively takes_all
takes_all-IsLively bytes n h = h

abbrev first_writer : Writer
first_writer = record { address = 1; path = "/a" }

abbrev second_writer : Writer
second_writer = record { address = 2; path = "/b" }

abbrev turns : List Event
turns =
    writes first_writer (1 ∷ 2 ∷ 3 ∷ [])
    ∷ writes second_writer (11 ∷ 12 ∷ 13 ∷ 14 ∷ 15 ∷ 16 ∷ [])
    ∷ writes first_writer (4 ∷ 5 ∷ [])
    ∷ writes second_writer (15 ∷ 16 ∷ [])
    ∷ closes second_writer
    ∷ writes first_writer (5 ∷ [])
    ∷ []

Knows-first : Knows nodes "/a"
Knows-first = (0, unfold find_index String_discrete in refl)

Knows-second : Knows nodes "/b"
Knows-second = (1, unfold find_index String_discrete in refl)

abbrev small_start : FlatVolumes
small_start = init 4 nodes

run-stored_example :
    (t : FlatVolumes) × (log : List (FilePath × List ℕ)) × (run takes_all small_start turns
      ≡ ok (t, log))
    × IsConsistent t
    × ((p : FilePath) → stored t p ≡ stored small_start p ++ taken_for p log)
unfolding init
run-stored_example =
    run-stored takes_all takes_all-IsLawful small_start turns
      (start-IsConsistent 4 (omega arith) (omega arith))
      (Knows-first, (Knows-second, (Knows-first, (Knows-second, (Knows-first, tt))))) (omega arith)

write_bytes-stored_example :
    (t : FlatVolumes) × (write_bytes takes_all 8 small_start first_writer
        (1 ∷ 2 ∷ 3 ∷ 4 ∷ 5 ∷ 6 ∷ [])
      ≡ some (ok t))
    × IsConsistent t
    × (stored t "/a" ≡ stored small_start "/a" ++ (1 ∷ 2 ∷ 3 ∷ 4 ∷ 5 ∷ 6 ∷ []))
    × ((p : FilePath) → p ≢ "/a" → stored t p ≡ stored small_start p)
unfolding init
write_bytes-stored_example =
    write_bytes-stored takes_all takes_all-IsLawful takes_all-IsLively 8 small_start first_writer
      (1 ∷ 2 ∷ 3 ∷ 4 ∷ 5 ∷ 6 ∷ []) (start-IsConsistent 4 (omega arith) (omega arith)) Knows-first
      (omega arith) (omega arith) (omega arith)

-- Volumes of 4 GiB.
abbrev large_start : FlatVolumes
large_start = init (2 ^ 32) nodes

write_bytes_endless_example : write_bytes takes_all 8 large_start first_writer (1 ∷ []) ≡ none
unfolding init find_stream scan
write_bytes_endless_example =
    write_bytes_endless takes_all takes_all-IsLawful 8 large_start first_writer 1 []
      (start-IsConsistent (2 ^ 32) (omega arith) (omega arith)) Knows-first (omega arith)
      (omega arith)
