-- ===== src/Index.antt =====
-- src/indexing/FileSystemNodeIndex.{hpp,cpp}: nodes by number and by path.
pub mod WellFormed
use Prim.Native.String.{◌++◌ as str_append}
use acbackup.Prelude.{
  ℕ, zero, suc, ite, Bool, true, false, Option, none, some, List, [], ◌∷◌, ◌++◌, map,
  String_discrete, ◌==◌, if◌then◌else◌, Result, ok, throw, missing_key, or_throw, length, get_elem?,
  range_from, ◌>>=◌,
}
use acbackup.Node.{FilePath, NodeAttributes, add_uint64}

-- The array of attributes, and the `BijectiveMap` between paths and positions.
pub record Index {ℓ} (A : Type ℓ) : Type ℓ where
  pub attributes : List A
  pub path_map : List (FilePath × ℕ)

unfoldable pub find_index : FilePath → List (FilePath × ℕ) → Option ℕ
find_index p [] = none
find_index p ((q, i) ∷ m) = ite (String_discrete p q) (some i) (find_index p m)

unfoldable pub find_path : ℕ → List (FilePath × ℕ) → Option FilePath
find_path i [] = none
find_path i ((p, j) ∷ m) = if i == j then some p else find_path i m

-- A path that is not absolute gets a leading slash.
unfoldable pub absolute_path : (FilePath → Bool) → FilePath → FilePath
absolute_path is_absolute p = if is_absolute p then p else str_append "/" p

module _ {ℓ} {A : Type ℓ} where
  unfoldable pub number_of_nodes : Index A → ℕ
  number_of_nodes x = length x.attributes

  unfoldable pub get_node_attributes : Index A → ℕ → Result A
  get_node_attributes x i = or_throw (get_elem? x.attributes i) missing_key

  unfoldable pub get_node_index : Index A → FilePath → Result ℕ
  get_node_index x p = or_throw (find_index p x.path_map) missing_key

  unfoldable pub get_node_path : Index A → ℕ → Result FilePath
  get_node_path x i = or_throw (find_path i x.path_map) missing_key

  unfoldable pub has_node_index : Index A → FilePath → Bool
  has_node_index x p = elim (find_index p x.path_map) [ some i ↦ true | none ↦ false ]

  -- `AddNode`, under the test `Path::IsAbsolute`.
  unfoldable pub add_node : (FilePath → Bool) → Index A → FilePath → A → Index A
  unfolding absolute_path
  add_node is_absolute x p a = record {
    attributes = x.attributes ++ a ∷ [];
    path_map = (absolute_path is_absolute p, length x.attributes) ∷ x.path_map;
  }

  -- `GetChangeableNodeAttributes` followed by a change of what it refers to.
  unfoldable pub modify : (A → A) → List A → ℕ → List A
  modify f [] i = []
  modify f (a ∷ xs) zero = f a ∷ xs
  modify f (a ∷ xs) (suc i) = a ∷ modify f xs i

  unfoldable pub change_node : Index A → ℕ → (A → A) → Index A
  unfolding modify
  change_node x i f = record x { attributes = modify f x.attributes i }

-- `ComputeTotalSize` of the nodes that the list names, in `uint64`.
unfoldable pub total_size_from : Index NodeAttributes → ℕ → List ℕ → Result ℕ
total_size_from x sum [] = ok sum
total_size_from x sum (i ∷ is) = do
  a ← get_node_attributes x i
  total_size_from x (add_uint64 sum a.size) is

unfoldable compute_total_size : Index NodeAttributes → List ℕ → Result ℕ
compute_total_size x indices = total_size_from x 0 indices

unfoldable pub compute_total_size_all : Index NodeAttributes → Result ℕ
compute_total_size_all x = total_size_from x 0 (range_from 0 (number_of_nodes x))
