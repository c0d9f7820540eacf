-- ===== src/BackupIndex.antt =====
-- src/backup/BackupNodeIndex.{hpp,cpp}: the index of a snapshot.
pub mod Changes
pub mod Hashes
pub mod Archive
use acbackup.Prelude.{
  ℕ, zero, suc, ◌^◌, ◌-◌, ite, Bool, true, false, ◌||◌, Option, none, some, List, [], ◌∷◌, map,
  ◌++◌, String, String_discrete, ◌==◌, if◌then◌else◌, Result, ok, throw, missing_key, or_throw,
  length, get_elem?, range_from, ◌>>=◌,
}
use acbackup.Node.{
  FilePath, HashAlgorithm, NodeAttributes, BackupNodeAttributes, Block, FileType, Permissions,
  DateTime, add_uint64, add_block, sum_from, sum_of_block_sizes, find_hash, hash_of,
}
use acbackup.Index.{
  Index, find_index, find_path, number_of_nodes, get_node_attributes, get_node_index, get_node_path,
  has_node_index, change_node,
}

abbrev pub Nodes : Type 0
Nodes = Index BackupNodeAttributes

-- A `BackupNodeIndex` where the code expects a `FileSystemNodeIndex`.
abbrev pub as_file_system_index : Nodes → Index NodeAttributes
as_file_system_index x = record {
  attributes = map (λ a. a.base) x.attributes;
  path_map = x.path_map;
}

-- The members that are computed when an index has been read in: the children of each directory,
-- and the last node with each hash value.
pub record BackupNodeIndex : Type 0 where
  pub nodes : Nodes
  pub node_children : List (ℕ × List ℕ)
  pub hash_index : List (String × ℕ)

-- `AddBlock`.
pub index_add_block : FilePath → Block → Nodes → Result Nodes
index_add_block p b x = do
  i ← get_node_index x p
  a ← get_node_attributes x i
  ok (change_node x i (add_block b))

-- `HasNodeData`.
unfoldable pub has_node_data : BackupNodeAttributes → Bool
has_node_data a = a.owns_blocks || (a.base.size == 0)

unfoldable sum_of_blocks_from : ℕ → List BackupNodeAttributes → ℕ
sum_of_blocks_from sum [] = sum
sum_of_blocks_from sum (a ∷ as') = sum_of_blocks_from (sum_from sum a.blocks) as'

-- `ComputeSumOfBlockSizes`.
unfoldable compute_sum_of_block_sizes : Nodes → ℕ
unfolding sum_of_blocks_from
compute_sum_of_block_sizes x = sum_of_blocks_from 0 x.attributes

unfoldable sum_of_owned_from : ℕ → List BackupNodeAttributes → ℕ
sum_of_owned_from sum [] = sum
sum_of_owned_from sum (a ∷ as') =
    sum_of_owned_from (if a.owns_blocks then sum_from sum a.blocks else sum) as'

-- `ComputeSumOfOwnedBlockSizes`.
unfoldable pub compute_sum_of_owned_block_sizes : Nodes → ℕ
unfolding sum_of_owned_from
compute_sum_of_owned_block_sizes x = sum_of_owned_from 0 x.attributes

-- `BinaryTreeMap<String, uint32>`.
unfoldable pub find_text : String → List (String × ℕ) → Option ℕ
find_text k [] = none
find_text k ((j, v) ∷ m) = ite (String_discrete k j) (some v) (find_text k m)

unfoldable pub put_text : String → ℕ → List (String × ℕ) → List (String × ℕ)
put_text k v [] = (k, v) ∷ []
put_text k v ((j, w) ∷ m) = ite (String_discrete k j) ((k, v) ∷ m) ((j, w) ∷ put_text k v m)

-- `GenerateHashIndex` from node `i` on: a later node takes the hash value over.
unfoldable pub hash_index_from :
    HashAlgorithm → ℕ → List BackupNodeAttributes → List (String × ℕ) → List (String × ℕ)
hash_index_from h i [] m = m
hash_index_from h i (a ∷ as') m =
    hash_index_from h (suc i) as'
      (elim (find_hash h a.hashes) [ some v ↦ put_text v i m | none ↦ m ])

unfoldable pub generate_hash_index : HashAlgorithm → Nodes → List (String × ℕ)
unfolding hash_index_from
generate_hash_index h x = hash_index_from h 0 x.attributes []

abbrev pub uint32_max : ℕ
uint32_max = 2 ^ 32 - 1

-- `FindNodeIndexByHash`, which answers `Unsigned<uint32>::Max()` for a value that is not there.
unfoldable pub find_node_index_by_hash : BackupNodeIndex → String → ℕ
find_node_index_by_hash x v = elim (find_text v x.hash_index) [ some i ↦ i | none ↦ uint32_max ]

-- `this->nodeChildren[parent].Push(i)`.
unfoldable pub push_child : ℕ → ℕ → List (ℕ × List ℕ) → List (ℕ × List ℕ)
push_child parent i [] = (parent, i ∷ []) ∷ []
push_child parent i ((d, cs) ∷ m) =
    if d == parent then (d, cs ++ i ∷ []) ∷ m else (d, cs) ∷ push_child parent i m

-- `ComputeNodeChildren` over the nodes that the list names. `Path::IsRoot` and `Path::GetParent`
-- are arguments.
unfoldable pub children_from :
    (FilePath → Bool)
    → (FilePath → FilePath)
    → Nodes
    → List ℕ
    → List (ℕ × List ℕ)
    → Result (List (ℕ × List ℕ))
children_from is_root get_parent x [] m = ok m
children_from is_root get_parent x (i ∷ is) m = do
  path ← get_node_path x i
  let rest = λ (m' : List (ℕ × List ℕ)). children_from is_root get_parent x is m'
  if is_root path then rest m else elim (find_index (get_parent path) x.path_map) [
    | some parent ↦ rest (push_child parent i m)
    | none ↦ rest m
  ]

unfoldable pub compute_node_children :
    (FilePath → Bool) → (FilePath → FilePath) → Nodes → Result (List (ℕ × List ℕ))
unfolding children_from
compute_node_children is_root get_parent x =
    children_from is_root get_parent x (range_from 0 (number_of_nodes x)) []

-- `ChildrenOf`.
unfoldable children_of : BackupNodeIndex → ℕ → List ℕ
children_of x d = look x.node_children
  where
    look : List (ℕ × List ℕ) → List ℕ
    look [] = []
    look ((e, cs) ∷ m) = if e == d then cs else look m

-- `GetFileSystemNodeInfo`: size, stored size and time.
unfoldable get_file_system_node_info : Nodes → ℕ → Result (ℕ × ℕ × Option DateTime)
get_file_system_node_info x i = do
  a ← get_node_attributes x i
  ok (a.base.size, sum_of_block_sizes a.blocks, a.base.last_modified_time)
