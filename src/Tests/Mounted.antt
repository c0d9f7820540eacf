-- ===== src/Tests/Mounted.antt =====
-- A directory with one child.
use acbackup.Prelude.{
  ℕ, ◌<◌, ◌≡◌, ◌↔◌, refl, true, none, some, List, [], ok, contains, String_discrete,
}
use acbackup.Index.{find_index, number_of_nodes}
use acbackup.BackupIndex.{Nodes}
use acbackup.Mount.{PathParts, enumerate_children}
use acbackup.Mount.Children.{IsChild, enumerate_children_lem}
use acbackup.Tests.Data.{plain, backed_up, two_nodes, two_nodes-IsWellFormed}

abbrev parts : PathParts
parts = record { get_parent = λ p. "/a"; get_name = λ p. p }

abbrev nodes : Nodes
nodes =
    two_nodes "/a" (backed_up (plain 0 1) true none [] []) "/a/b"
      (backed_up (plain 3 1) true none [] [])

enumerate_children_lem_example :
    (cs : List ℕ) × (enumerate_children parts nodes "/a" ≡ ok (some cs))
    × ((i : ℕ)
        → (contains i cs ≡ true) ↔ ((i < number_of_nodes nodes) × IsChild parts nodes "/a" 0 i))
unfolding find_index String_discrete
enumerate_children_lem_example =
    enumerate_children_lem parts nodes "/a" 0 (two_nodes-IsWellFormed "/a" _ "/a/b" _ refl) refl
