-- ===== src/Index/WellFormed.antt =====
-- When an index is in order, and that adding nodes keeps it so.
use acbackup.Prelude.{
  Bool, ℕ, ◌<◌, ◌≡◌, none, some, [], ◌∷◌, arith, length, ℕ_discrete, length-append,
}
use acbackup.Node.{FilePath}
use acbackup.Index.{Index, find_index, find_path, absolute_path, add_node}

-- Paths and numbers are in bijection, and the numbers are those of the array.
pub record IsWellFormed {ℓ} {A : Type ℓ} (x : Index A) : Type ℓ where
  pub to_path :
      (p : FilePath) (i : ℕ) → find_index p x.path_map ≡ some i → find_path i x.path_map ≡ some p
  pub to_index :
      (i : ℕ) (p : FilePath) → find_path i x.path_map ≡ some p → find_index p x.path_map ≡ some i
  pub named : (i : ℕ) → i < length x.attributes → (p : FilePath) × (find_path i x.path_map ≡ some p)
  pub bounded : (i : ℕ) (p : FilePath) → find_path i x.path_map ≡ some p → i < length x.attributes

module _ {ℓ} {A : Type ℓ} (is_absolute : FilePath → Bool) (x : Index A) (p : FilePath) (a : A) where
  -- Adding a node under a path that the index does not have keeps paths and numbers in bijection,
  -- and the numbers those of the array.
  pub add_node-IsWellFormed :
      find_index (absolute_path is_absolute p) x.path_map ≡ none
      → IsWellFormed x
      → IsWellFormed (add_node is_absolute x p a)
  unfolding add_node find_index find_path
  add_node-IsWellFormed new w = record {
    to_path =
        λ q i. ground (arith, w.to_path q i, w.bounded i q, length-append x.attributes (a ∷ []));
    to_index =
        λ i q. ground (arith, w.to_index i q, w.bounded i q, length-append x.attributes (a ∷ []));
    named = λ i h. elim (ℕ_discrete i (length x.attributes)) [
      | yes e ↦ (absolute_path is_absolute p, ground arith)
      | no n ↦
          let old = w.named i (omega (arith, length-append x.attributes (a ∷ []))) in
          (old.0, ground (arith, old.1))
    ];
    bounded = λ i q. ground (arith, w.bounded i q, length-append x.attributes (a ∷ []));
  }
