-- ===== src/Tests/Data.antt =====
-- Indexes of a few nodes.
use acbackup.Prelude.{ℕ, ◌≡◌, refl, Bool, true, Option, none, some, List, [], ◌∷◌, arith, String}
use acbackup.Node.{
  FilePath, file, NodeAttributes, BackupNodeAttributes, posix, HashAlgorithm, Block,
}
use acbackup.Index.{Index, find_index, find_path, absolute_path, add_node}
use acbackup.Index.WellFormed.{IsWellFormed, add_node-IsWellFormed}

abbrev pub any_path : FilePath → Bool
any_path p = true

abbrev pub no_nodes {ℓ} : {A : Type ℓ} → Index A
no_nodes = record { attributes = []; path_map = [] }

-- A file with a size and a time.
abbrev pub plain : ℕ → ℕ → NodeAttributes
plain size time = record {
  type = file;
  size = size;
  permissions = posix 0 0 420;
  last_modified_time = some time;
}

abbrev pub backed_up :
    NodeAttributes
    → Bool
    → Option FilePath
    → List Block
    → List (HashAlgorithm × String)
    → BackupNodeAttributes
backed_up base owns target blocks hashes = record {
  base = base;
  owns_blocks = owns;
  compression_setting = none;
  back_reference_target = target;
  blocks = blocks;
  hashes = hashes;
}

abbrev pub one_node {ℓ} : {A : Type ℓ} → FilePath → A → Index A
one_node p a = record { attributes = a ∷ []; path_map = (p, 0) ∷ [] }

abbrev pub two_nodes {ℓ} : {A : Type ℓ} → FilePath → A → FilePath → A → Index A
two_nodes p a q b = record { attributes = a ∷ b ∷ []; path_map = (q, 1) ∷ (p, 0) ∷ [] }

module _ {ℓ} {A : Type ℓ} where
  pub no_nodes-IsWellFormed : IsWellFormed {A = A} no_nodes
  unfolding find_index find_path
  no_nodes-IsWellFormed = record {
    to_path = λ p i e. absurd (ground arith);
    to_index = λ i p e. absurd (ground arith);
    named = λ i h. absurd (omega arith);
    bounded = λ i p e. absurd (ground arith);
  }

  pub one_node-IsWellFormed : (p : FilePath) (a : A) → IsWellFormed (one_node p a)
  unfolding add_node absolute_path find_index
  one_node-IsWellFormed p a = add_node-IsWellFormed any_path no_nodes p a refl no_nodes-IsWellFormed

  pub two_nodes-IsWellFormed :
      (p : FilePath) (a : A) (q : FilePath) (b : A)
      → find_index q ((p, 0) ∷ []) ≡ none
      → IsWellFormed (two_nodes p a q b)
  unfolding add_node absolute_path
  two_nodes-IsWellFormed p a q b e =
      add_node-IsWellFormed any_path (one_node p a) q b e (one_node-IsWellFormed p a)
