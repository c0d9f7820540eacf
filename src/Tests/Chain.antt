-- ===== src/Tests/Chain.antt =====
-- A chain of three snapshots: a file is written, then moved, then changed in its metadata.
use acbackup.Prelude.{
  ◌≡◌, refl, if◌then◌else◌, ◌==◌, true, false, none, some, List, [], ◌∷◌, ◌++◌, arith, ok, throw,
  missing_key, String_discrete, zero, suc,
}
use acbackup.Node.{FilePath, NodeAttributes, BackupNodeAttributes}
use acbackup.Index.{
  Index, find_index, find_path, get_node_attributes, get_node_index, get_node_path,
}
use acbackup.BackupIndex.{has_node_data}
use acbackup.Snapshot.{Snapshot, find_data_snapshot, backup_move, backup_node_metadata}
use acbackup.Snapshot.Linked.{IsUpdated, backup_move-IsLinked, backup_node_metadata-IsLinked}
use acbackup.Snapshot.References.{
  IsLinked, HoldsData, AllReferred, LeadsTo, find_data_snapshot-HoldsData,
}
use acbackup.Snapshot.Kept.{
  backup_move-finds, backup_node_metadata-finds, backup_node_metadata-loses,
  backup_node_metadata-mistakes,
}
use acbackup.Volumes.{OpenVolume, init, find_stream, FlatVolumes}
use acbackup.Volumes.Assign.{Assigned, HasRoom, find_stream-Assigned}
use acbackup.Tests.Data.{
  plain, backed_up, any_path, one_node, two_nodes, one_node-IsWellFormed, no_nodes,
  no_nodes-IsWellFormed,
}

abbrev written : BackupNodeAttributes
written = backed_up (plain 3 1) true none [] []

abbrev moved : BackupNodeAttributes
moved = backed_up (plain 3 1) false (some "/a") [] []

abbrev oldest : Snapshot
oldest = record { name = "1"; index = one_node "/a" written }

abbrev middle : Snapshot
middle = record { name = "2"; index = one_node "/b" moved }

-- A snapshot that nothing was added to yet.
abbrev fresh : Snapshot
fresh = record { name = "3"; index = no_nodes }

abbrev source : Index NodeAttributes
source = one_node "/b" (plain 3 2)

oldest-AllReferred : AllReferred oldest []
unfolding has_node_data
oldest-AllReferred zero a p ea ep d = absurd (ground arith)
oldest-AllReferred (suc i) a p ea ep d = absurd (ground arith)

middle-AllReferred : AllReferred middle (oldest ∷ [])
unfolding has_node_data get_node_index find_index String_discrete
middle-AllReferred zero a p ea ep d = let same : moved ≡ a = ground arith in (0, rw (← same) refl)
middle-AllReferred (suc i) a p ea ep d = absurd (ground arith)

linked : IsLinked (middle ∷ oldest ∷ [])
linked = (
  one_node-IsWellFormed "/b" moved,
  middle-AllReferred,
  (one_node-IsWellFormed "/a" written, oldest-AllReferred, tt),
)

find_data_snapshot-HoldsData_example :
    (found : List Snapshot) × (p : FilePath) × (find_data_snapshot (middle ∷ oldest ∷ []) 0
      ≡ ok (found, p))
    × HoldsData found p
    × LeadsTo (middle ∷ oldest ∷ []) 0 found p
    × ((newer : List Snapshot) × (newer ++ found ≡ middle ∷ oldest ∷ []))
find_data_snapshot-HoldsData_example =
    find_data_snapshot-HoldsData middle (oldest ∷ []) 0 linked (omega arith)

source_path : get_node_path source 0 ≡ ok "/b"
unfolding get_node_path find_path
source_path = refl

source_attributes : get_node_attributes source 0 ≡ ok (plain 3 2)
unfolding get_node_attributes
source_attributes = refl

backup_move-finds_example :
    (s' : Snapshot) × (backup_move any_path fresh 0 source written "/a" ≡ ok s')
    × (find_data_snapshot (s' ∷ oldest ∷ []) 0 ≡ find_data_snapshot (oldest ∷ []) 0)
backup_move-finds_example =
    backup_move-finds any_path fresh oldest [] source 0 "/b" (plain 3 2) written refl source_path
      source_attributes (omega arith) 0 "/a"
      (unfold get_node_index find_index String_discrete in refl)

-- The file was written at its present path.
abbrev in_place : Snapshot
in_place = record { name = "2"; index = one_node "/b" written }

backup_node_metadata-finds_example :
    (s' : Snapshot) × (backup_node_metadata any_path fresh 0 written source ≡ ok s')
    × (find_data_snapshot (s' ∷ in_place ∷ []) 0 ≡ find_data_snapshot (in_place ∷ []) 0)
backup_node_metadata-finds_example =
    backup_node_metadata-finds any_path fresh in_place [] source 0 "/b" (plain 3 2) written refl
      source_path source_attributes (omega arith) 0 refl
      (unfold get_node_index find_index String_discrete in refl)

backup_node_metadata-loses_example :
    (s' : Snapshot) × (backup_node_metadata any_path fresh 0 moved source ≡ ok s')
    × (find_data_snapshot (s' ∷ middle ∷ oldest ∷ []) 0 ≡ throw missing_key)
backup_node_metadata-loses_example =
    backup_node_metadata-loses any_path fresh middle (oldest ∷ []) source 0 "/b" (plain 3 2) moved
      refl source_path source_attributes (omega arith) "/a" refl
      (unfold find_index String_discrete in refl)

-- When the file was moved, another took its place.
abbrev replaced : Snapshot
replaced = record { name = "2"; index = two_nodes "/b" moved "/a" written }

backup_node_metadata-mistakes_example :
    (s' : Snapshot) × (backup_node_metadata any_path fresh 0 moved source ≡ ok s')
    × (find_data_snapshot (s' ∷ replaced ∷ oldest ∷ []) 0
        ≡ find_data_snapshot (replaced ∷ oldest ∷ []) 1)
backup_node_metadata-mistakes_example =
    backup_node_metadata-mistakes any_path fresh replaced (oldest ∷ []) source 0 "/b" (plain 3 2)
      moved refl source_path source_attributes (omega arith) "/a" 1 refl
      (unfold find_index String_discrete in refl)

fresh-AllReferred : (t : Snapshot) → AllReferred fresh (t ∷ [])
fresh-AllReferred t i a p ea ep d = absurd (ground arith)

fresh_after_oldest : IsLinked (fresh ∷ oldest ∷ [])
fresh_after_oldest = (
  no_nodes-IsWellFormed,
  fresh-AllReferred oldest,
  (one_node-IsWellFormed "/a" written, oldest-AllReferred, tt),
)

b_is_new : find_index "/b" [] ≡ none
unfolding find_index
b_is_new = refl

a_is_there : get_node_index oldest.index "/a" ≡ ok 0
unfolding get_node_index find_index String_discrete
a_is_there = refl

backup_move-IsLinked_example :
    (s' : Snapshot) × (backup_move any_path fresh 0 source written "/a" ≡ ok s')
    × IsLinked (s' ∷ oldest ∷ [])
backup_move-IsLinked_example =
    backup_move-IsLinked any_path fresh oldest [] source 0 "/b" (plain 3 2) refl source_path
      source_attributes b_is_new fresh_after_oldest written 0 "/a" a_is_there

b_is_there : get_node_index in_place.index "/b" ≡ ok 0
unfolding get_node_index find_index String_discrete
b_is_there = refl

in_place-AllReferred : AllReferred in_place []
unfolding has_node_data
in_place-AllReferred zero a p ea ep d = absurd (ground arith)
in_place-AllReferred (suc i) a p ea ep d = absurd (ground arith)

fresh_after_in_place : IsLinked (fresh ∷ in_place ∷ [])
fresh_after_in_place = (
  no_nodes-IsWellFormed,
  fresh-AllReferred in_place,
  (one_node-IsWellFormed "/b" written, in_place-AllReferred, tt),
)

backup_node_metadata-IsLinked_example :
    (s' : Snapshot) × (backup_node_metadata any_path fresh 0 written source ≡ ok s')
    × IsUpdated any_path fresh in_place [] source 0 "/b"
        (plain 3 2)
        refl
        source_path
        source_attributes
        b_is_new
        fresh_after_in_place
        written
        s'
    × IsLinked (s' ∷ in_place ∷ [])
backup_node_metadata-IsLinked_example =
    backup_node_metadata-IsLinked any_path fresh in_place [] source 0 "/b" (plain 3 2) refl
      source_path source_attributes b_is_new fresh_after_in_place written 0 refl b_is_there

-- One volume of another writer, and a free one.
abbrev busy : OpenVolume
busy = record { number = 0; left_size = 3; owned_writer = some 2 }

abbrev idle : OpenVolume
idle = record { number = 1; left_size = 4; owned_writer = none }

abbrev volumes : FlatVolumes
volumes = record (init 4 no_nodes) {
  next_volume_number = 2;
  files = λ n. if n == 0 then 7 ∷ [] else [];
  open_volumes = busy ∷ idle ∷ [];
}

volumes-HasRoom : HasRoom volumes
unfolding init
volumes-HasRoom = record {
  positive = omega arith;
  small = omega arith;
  open_volumes = ((omega arith, refl, omega arith), ((omega arith, refl, omega arith), tt));
  distinct = ((omega arith, tt), (tt, tt));
  bounded = λ n. ground arith;
  fresh = λ n h. ground arith;
}

find_stream-Assigned_example :
    Assigned volumes 1 (find_stream volumes 1).0 (find_stream volumes 1).1
find_stream-Assigned_example = find_stream-Assigned volumes 1 volumes-HasRoom (omega arith)
