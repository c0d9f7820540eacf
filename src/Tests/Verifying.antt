-- ===== src/Tests/Verifying.antt =====
-- Snapshots of one file are verified.
use acbackup.Prelude.{
  ℕ, ℕ_discrete, ◌<◌, ◌≡◌, ◌≢◌, ◌↔◌, refl, subst, true, false, none, some, List, [], ◌∷◌, ok, arith,
  contains, String, String_discrete, get_elem?, zero, suc,
}
use acbackup.Node.{FilePath, BackupNodeAttributes, directory}
use acbackup.Node.Blocks.{Volumes}
use acbackup.Index.{find_index, find_path, get_node_attributes, get_node_index, get_node_path}
use acbackup.BackupIndex.{has_node_data}
use acbackup.BackupIndex.Changes.{blocks_at}
use acbackup.Volumes.Chunk.{stored}
use acbackup.Backup.Requests.{sum}
use acbackup.Snapshot.{Snapshot, find_data_snapshot}
use acbackup.Snapshot.References.{AllReferred, IsLinked}
use acbackup.Manager.{verify_found, verify_snapshot}
use acbackup.Manager.Verify.{AllAnswer, IsCorrupt, verify_snapshot-IsCorrupt}
use acbackup.Manager.Intact.{IsStored, verify_snapshot-IsStored}
use acbackup.Tests.Data.{plain, backed_up, one_node, one_node-IsWellFormed}
use acbackup.Tests.Readers.{gives_all, gives_all-IsExact, written, written-IsConsistent}
use acbackup.Tests.Backups.{
  library, config, library-IsFaithful, written-BackedUp, task, verified, snapshot,
}

abbrev files : String → Volumes
files name = written.files

snapshot-AllReferred : AllReferred snapshot []
unfolding has_node_data
snapshot-AllReferred zero a p ea ep d = absurd (ground arith)
snapshot-AllReferred (suc i) a p ea ep d = absurd (ground arith)

snapshot-IsLinked : IsLinked (snapshot ∷ [])
snapshot-IsLinked = (written-IsConsistent.well_formed, snapshot-AllReferred, tt)

finds_here : find_data_snapshot (snapshot ∷ []) 0 ≡ ok (snapshot ∷ [], "/a")
unfolding find_data_snapshot get_node_attributes get_node_path find_path has_node_data
finds_here = refl

verified_here : verify_found library 0 gives_all files 9 task (snapshot ∷ []) "/a" ≡ some (ok true)
unfolding verify_found
verified_here = verified

all_answer : AllAnswer library 0 gives_all files 9 (λ i. task) snapshot []
all_answer zero a found path ea n e =
    let at : snapshot ∷ [] ≡ found = cc (finds_here, e) in
    let p : "/a" ≡ path = cc (finds_here, e) in (true, rw (← at, ← p) verified_here)
all_answer (suc i) a found path ea n e = absurd (ground arith)

verify_snapshot-IsCorrupt_example :
    (d : List ℕ) × (verify_snapshot library 0 gives_all files 9 (λ i. task) snapshot [] true
      ≡ some (ok d))
    × ((i : ℕ)
        → (contains i d ≡ true)
          ↔ ((i < 1) × IsCorrupt library 0 gives_all files 9 (λ i. task) snapshot [] i))
verify_snapshot-IsCorrupt_example =
    verify_snapshot-IsCorrupt library 0 gives_all files 9 (λ i. task) snapshot [] snapshot-IsLinked
      all_answer

-- The file was moved.
abbrev renamed : BackupNodeAttributes
renamed = backed_up (plain 2 1) false (some "/a") [] []

abbrev newer : Snapshot
newer = record { name = "2"; index = one_node "/b" renamed }

newer-AllReferred : AllReferred newer (snapshot ∷ [])
unfolding has_node_data get_node_index find_index String_discrete
newer-AllReferred zero a p ea ep d = let same : renamed ≡ a = ground arith in (0, rw (← same) refl)
newer-AllReferred (suc i) a p ea ep d = absurd (ground arith)

newer-IsLinked : IsLinked (newer ∷ snapshot ∷ [])
newer-IsLinked = (one_node-IsWellFormed "/b" renamed, newer-AllReferred, snapshot-IsLinked)

finds_before : find_data_snapshot (newer ∷ snapshot ∷ []) 0 ≡ ok (snapshot ∷ [], "/a")
unfolding find_data_snapshot get_node_attributes get_node_path get_node_index find_index find_path
    has_node_data String_discrete
finds_before = refl

abbrev Present : ℕ → List Snapshot → FilePath → Type 0
Present = IsStored library config gives_all gives_all-IsExact library-IsFaithful files 9 (λ i. task)

stored_before : Present 0 (snapshot ∷ []) "/a"
unfolding stored blocks_at find_index String_discrete ℕ_discrete sum
stored_before = record {
  holder = snapshot;
  before = [];
  first = refl;
  volumes = written;
  same_files = refl;
  same_index = refl;
  node = 0;
  attributes = plain 2 1;
  bytes = 7 ∷ 8 ∷ [];
  level = none;
  backed_up = written-BackedUp;
  has_size = refl;
  few = omega arith;
  opened = (omega arith, tt);
  requested = omega arith;
  enough = omega arith;
}

all_stored :
    (i : ℕ) (a : BackupNodeAttributes) (found : List Snapshot) (path : FilePath)
    → get_elem? newer.index.attributes i ≡ some a
    → a.base.type ≢ directory
    → find_data_snapshot (newer ∷ snapshot ∷ []) i ≡ ok (found, path)
    → Present i found path
all_stored zero a found path ea n e =
    let at : snapshot ∷ [] ≡ found = cc (finds_before, e) in
    let p : "/a" ≡ path = cc (finds_before, e) in
    subst (λ f. Present 0 f path) at (subst (Present 0 (snapshot ∷ [])) p stored_before)
all_stored (suc i) a found path ea n e = absurd (ground arith)

verify_snapshot-IsStored_example :
    verify_snapshot library 0 gives_all files 9 (λ i. task) newer (snapshot ∷ []) true
    ≡ some (ok [])
verify_snapshot-IsStored_example =
    verify_snapshot-IsStored library config gives_all gives_all-IsExact library-IsFaithful files 9
      (λ i. task) newer (snapshot ∷ []) newer-IsLinked all_stored
