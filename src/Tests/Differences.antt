-- ===== src/Tests/Differences.antt =====
-- The differences between indexes of one and two nodes.
use acbackup.Prelude.{
  ℕ, ◌<◌, ◌≡◌, ◌≢◌, ◌↔◌, ◌⊎◌, refl, true, none, some, List, [], ◌∷◌, ◌++◌, arith, ok, throw,
  missing_key, String_discrete, contains, insert, remove, get_elem?, All,
}
use acbackup.Node.{
  Block, NodeAttributes, BackupNodeAttributes, same_attributes, find_hash, push_block,
}
use acbackup.Node.Blocks.{Volumes, Within, blocks_bytes, block_bytes, push_block-bytes}
use acbackup.Index.{
  Index, absolute_path, find_index, find_path, get_node_attributes, get_node_index, get_node_path,
  has_node_index, number_of_nodes, add_node,
}
use acbackup.Index.WellFormed.{IsWellFormed, add_node-IsWellFormed}
use acbackup.BackupIndex.{
  Nodes, BackupNodeIndex, as_file_system_index, find_text, put_text, hash_index_from,
  generate_hash_index, find_node_index_by_hash, uint32_max,
}
use acbackup.BackupIndex.Hashes.{IsNewest, find_node_index_by_hash_lem}
use acbackup.SourceIndex.{SourceIndex, Digest, hash_contents, compute_node_hash}
use acbackup.Diff.{
  of_source, Differences, differs, run_difference_tasks, compute_difference, compute_deleted,
  retrieve_node_hash, moved_from, put_moved, change_by_hash, change_of_type, change_of,
  compute_node_differences, remove_moved, resolve_differences, compute_diff,
}
use acbackup.Diff.Changed.{IsUnchanged, compute_difference_lem}
use acbackup.Diff.Deleted.{HasCounterpart, compute_deleted_lem, compute_diff_fails}
use acbackup.Diff.Moves.{
  Explains, Sorted, change_of-Explains, compute_node_differences_lem, find_moved,
}
use acbackup.Manager.{update_default, compute_source_difference}
use acbackup.Diff.Once.{InOneGroup}
use acbackup.Manager.Once.{compute_source_difference-InOneGroup}
use acbackup.Manager.Coverage.{is_included, compute_source_difference-includes}
use acbackup.Tests.Data.{
  plain, backed_up, any_path, one_node, two_nodes, one_node-IsWellFormed, two_nodes-IsWellFormed,
}

-- The last snapshot has two files, with hash values for the algorithm 0.
abbrev last_nodes : Nodes
last_nodes =
    two_nodes "/a" (backed_up (plain 3 1) true none [] ((0, "x") ∷ [])) "/b"
      (backed_up (plain 3 1) true none [] ((0, "y") ∷ []))

abbrev last : BackupNodeIndex
last = record {
  nodes = last_nodes;
  node_children = [];
  hash_index = generate_hash_index 0 last_nodes;
}

abbrev last_index : Index NodeAttributes
last_index = as_file_system_index last_nodes

-- The second file has been moved, and the first is gone.
abbrev source : SourceIndex
source = record { nodes = one_node "/c" (plain 3 1); contents = λ p. 7 ∷ 8 ∷ 9 ∷ [] }

-- The second file has been changed, and the first is gone.
abbrev changed : SourceIndex
changed = record { nodes = one_node "/b" (plain 4 2); contents = λ p. 6 ∷ 7 ∷ 8 ∷ 9 ∷ [] }

abbrev digest : Digest
digest bytes = "y"

b_is_new : find_index "/b" (("/a", 0) ∷ []) ≡ none
unfolding find_index String_discrete
b_is_new = refl

last-IsWellFormed : IsWellFormed last_index
last-IsWellFormed = two_nodes-IsWellFormed "/a" (plain 3 1) "/b" (plain 3 1) b_is_new

add_node-IsWellFormed_example :
    IsWellFormed (add_node any_path (one_node "/a" (plain 3 1)) "/b" (plain 4 2))
unfolding absolute_path
add_node-IsWellFormed_example =
    add_node-IsWellFormed any_path (one_node "/a" (plain 3 1)) "/b" (plain 4 2) b_is_new
      (one_node-IsWellFormed "/a" (plain 3 1))

compute_difference_lem_example :
    (d : List ℕ) × (compute_difference last_index source.nodes ≡ ok d)
    × ((i : ℕ) → (contains i d ≡ true) ↔ ((i < 2) × ¬ IsUnchanged last_index source.nodes i))
compute_difference_lem_example =
    compute_difference_lem last_index source.nodes last-IsWellFormed
      (one_node-IsWellFormed "/c" (plain 3 1))

compute_deleted_lem_example :
    (d : List ℕ) × (compute_deleted last_index source.nodes (0 ∷ []) [] ≡ ok d)
    × ((i : ℕ)
        → (contains i d ≡ true) ↔ (
            (contains i [] ≡ true)
            ⊎ ((contains i (0 ∷ []) ≡ true) × ¬ HasCounterpart last_index source.nodes i)))
compute_deleted_lem_example =
    compute_deleted_lem last_index source.nodes last-IsWellFormed (0 ∷ []) [] (omega arith, tt)
      (omega arith, tt)

b-HasCounterpart : HasCounterpart last_index changed.nodes 1
unfolding find_index find_path String_discrete
b-HasCounterpart = record { path = "/b"; other = 0; left_path = refl; right_index = refl }

b_differs : ¬ IsUnchanged last_index changed.nodes 1
b_differs u =
    let a : 3 ≡ u.a.size = ground arith in
    let b : 4 ≡ u.b.size = ground arith in let same = u.same_size in absurd (omega arith)

compute_diff_fails_example : compute_diff 0 digest last (of_source changed) ≡ throw missing_key
compute_diff_fails_example =
    compute_diff_fails 0 digest last (of_source changed) 1 last-IsWellFormed
      (one_node-IsWellFormed "/b" (plain 4 2)) (omega arith) (omega arith) b-HasCounterpart
      b_differs

find_node_index_by_hash_lem_example :
    IsNewest 0 "y" last_nodes (find_node_index_by_hash last "y")
    ⊎ ((find_node_index_by_hash last "y" ≡ uint32_max)
        × ((k : ℕ) (a : BackupNodeAttributes)
            → get_elem? last_nodes.attributes k ≡ some a
            → find_hash 0 a.hashes ≢ some "y"))
find_node_index_by_hash_lem_example = find_node_index_by_hash_lem 0 "y" last refl

is_a_move : change_of 0 digest last (of_source source) 0 ≡ ok (moved_from 1)
unfolding change_of change_of_type change_by_hash retrieve_node_hash compute_node_hash hash_contents
    get_node_attributes get_node_path find_path find_node_index_by_hash find_text
    generate_hash_index hash_index_from put_text find_hash String_discrete
is_a_move = refl

change_of-Explains_example : Explains 0 digest last (of_source source) refl 0 (moved_from 1)
change_of-Explains_example =
    change_of-Explains 0 digest last (of_source source) refl 0 (moved_from 1) (omega arith)
      is_a_move

abbrev none_found : Differences
none_found = record {
  deleted = 0 ∷ 1 ∷ [];
  different_data = [];
  different_metadata = [];
  moved = [];
}

abbrev move_found : Differences
move_found = record none_found { moved = (0, 1) ∷ [] }

sorts_the_move :
    compute_node_differences 0 digest last (of_source source) (0 ∷ []) none_found ≡ ok move_found
unfolding compute_node_differences put_moved
sorts_the_move = rw is_a_move refl

compute_node_differences_lem_example :
    Sorted 0 digest last (of_source source) (0 ∷ []) none_found move_found 0
compute_node_differences_lem_example =
    compute_node_differences_lem 0 digest last (of_source source) (0 ∷ []) none_found move_found
      sorts_the_move 0

abbrev expected : Differences
expected = record {
  deleted = 0 ∷ [];
  different_data = [];
  different_metadata = [];
  moved = (0, 1) ∷ [];
}

whole_run : compute_source_difference 0 digest (some last) source true ≡ ok expected
unfolding compute_source_difference update_default compute_diff resolve_differences
    compute_difference run_difference_tasks differs compute_deleted compute_node_differences
    change_of change_of_type change_by_hash retrieve_node_hash compute_node_hash hash_contents
    get_node_attributes get_node_path get_node_index has_node_index number_of_nodes find_path
    find_index find_node_index_by_hash find_text generate_hash_index hash_index_from put_text
    put_moved remove_moved find_hash String_discrete insert remove find_moved same_attributes
whole_run = refl

compute_source_difference-includes_example : is_included 0 expected ≡ true
compute_source_difference-includes_example =
    compute_source_difference-includes 0 digest (some last) source expected 0 whole_run
      (unfold number_of_nodes in omega arith)

compute_source_difference-InOneGroup_example : InOneGroup 0 expected
compute_source_difference-InOneGroup_example =
    compute_source_difference-InOneGroup 0 digest (some last) source true expected 0 whole_run

abbrev one_file : Volumes
one_file n = 1 ∷ 2 ∷ 3 ∷ 4 ∷ 5 ∷ 6 ∷ []

abbrev front : Block
front = record { volume_number = 0; offset = 0; size = 2 }

abbrev middle : Block
middle = record { volume_number = 0; offset = 2; size = 3 }

push_block-bytes_example :
    (blocks_bytes one_file (push_block middle (front ∷ []))
      ≡ blocks_bytes one_file (front ∷ []) ++ block_bytes one_file middle)
    × All (Within one_file) (push_block middle (front ∷ []))
push_block-bytes_example =
    push_block-bytes one_file (λ n. omega arith) middle (front ∷ []) (omega arith, tt) (omega arith)
