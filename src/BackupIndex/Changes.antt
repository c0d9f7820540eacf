-- ===== src/BackupIndex/Changes.antt =====
-- `AddBlock` on an index changes the blocks of one path.
use acbackup.Prelude.{
  ℕ, zero, suc, false, ◌≡◌, refl, ap, ◌≢◌, Option, none, some, List, [], ◌∷◌, map, arith, length,
  get_elem?, ok, Option-cases, inl, inr, get_elem?_of_lt,
}
use acbackup.Node.{FilePath, BackupNodeAttributes, Block, push_block, add_block}
use acbackup.Index.{find_index, modify, change_node, get_node_index, get_node_attributes}
use acbackup.Index.WellFormed.{IsWellFormed}
use acbackup.BackupIndex.{Nodes, index_add_block}

abbrev pub blocks_of : Option BackupNodeAttributes → List Block
blocks_of (some a) = a.blocks
blocks_of none = []

abbrev attributes_at : Nodes → FilePath → Option BackupNodeAttributes
attributes_at x p = elim (find_index p x.path_map) [
  | some i ↦ get_elem? x.attributes i
  | none ↦ none
]

-- The blocks of the node at a path, and none where there is no node.
unfoldable pub blocks_at : Nodes → FilePath → List Block
blocks_at x p = blocks_of (attributes_at x p)

abbrev pub Knows : Nodes → FilePath → Type 0
Knows x p = (i : ℕ) × (find_index p x.path_map ≡ some i)

module _ {ℓ} {A : Type ℓ} (f : A → A) where
  pub get_elem?-modify_self :
      (xs : List A) (i : ℕ) (a : A)
      → get_elem? xs i ≡ some a
      → get_elem? (modify f xs i) i ≡ some (f a)
  unfolding modify
  get_elem?-modify_self [] i a h = cc
  get_elem?-modify_self (x ∷ xs) zero a h = ground arith
  get_elem?-modify_self (x ∷ xs) (suc i) a h = get_elem?-modify_self xs i a h

  pub get_elem?-modify_ne :
      (xs : List A) (i j : ℕ) → i ≢ j → get_elem? (modify f xs i) j ≡ get_elem? xs j
  unfolding modify
  get_elem?-modify_ne [] i j h = refl
  get_elem?-modify_ne (x ∷ xs) zero zero h = absurd (h refl)
  get_elem?-modify_ne (x ∷ xs) zero (suc j) h = refl
  get_elem?-modify_ne (x ∷ xs) (suc i) zero h = refl
  get_elem?-modify_ne (x ∷ xs) (suc i) (suc j) h = get_elem?-modify_ne xs i j (λ e. h (ap suc e))

  pub length-modify : (xs : List A) (i : ℕ) → length (modify f xs i) ≡ length xs
  unfolding modify
  length-modify [] i = refl
  length-modify (x ∷ xs) zero = refl
  length-modify (x ∷ xs) (suc i) = ap suc (length-modify xs i)

-- The attributes but for the blocks.
unfoldable pub without_blocks : BackupNodeAttributes → BackupNodeAttributes
without_blocks a = record a { owns_blocks = false; blocks = [] }

map-modify :
    (f g : BackupNodeAttributes → BackupNodeAttributes) (xs : List BackupNodeAttributes) (i : ℕ)
    → ((a : BackupNodeAttributes) → f (g a) ≡ f a)
    → map f (modify g xs i) ≡ map f xs
unfolding modify
map-modify f g [] i h = refl
map-modify f g (x ∷ xs) zero h = ap (λ y. y ∷ map f xs) (h x)
map-modify f g (x ∷ xs) (suc i) h = ap (◌∷◌ (f x)) (map-modify f g xs i h)

-- What `AddBlock` on the index of a known path does.
pub record AddsBlock (p : FilePath) (b : Block) (x y : Nodes) : Type 0 where
  pub same_paths : y.path_map ≡ x.path_map
  pub well_formed : IsWellFormed y
  pub grown : blocks_at y p ≡ push_block b (blocks_at x p)
  pub kept : (q : FilePath) → q ≢ p → blocks_at y q ≡ blocks_at x q
  pub same : map without_blocks y.attributes ≡ map without_blocks x.attributes

module _ (p : FilePath) (b : Block) (x : Nodes) (w : IsWellFormed x) where
  changed-AddsBlock :
      (i : ℕ) (a : BackupNodeAttributes)
      → find_index p x.path_map ≡ some i
      → get_elem? x.attributes i ≡ some a
      → AddsBlock p b x (change_node x i (add_block b))
  unfolding change_node blocks_at add_block without_blocks
  changed-AddsBlock i a e f = record {
    same_paths = refl;
    well_formed = record {
      to_path = w.to_path;
      to_index = w.to_index;
      named = λ j h. w.named j (omega (arith, length-modify (add_block b) x.attributes i));
      bounded = λ j q h. omega (arith, w.bounded j q h, length-modify (add_block b) x.attributes i);
    };
    grown = ground (arith, get_elem?-modify_self (add_block b) x.attributes i a f);
    kept = λ q n. elim (Option-cases (find_index q x.path_map)) [
      | inl m ↦ ground arith
      | inr (j, m) ↦ ground (
        arith,
        get_elem?-modify_ne (add_block b) x.attributes i j,
        w.to_path q j m,
        w.to_path p i e,
      )
    ];
    same = map-modify without_blocks (add_block b) x.attributes i (λ c. refl);
  }

  pub index_add_block-AddsBlock :
      Knows x p → (y : Nodes) × (index_add_block p b x ≡ ok y) × AddsBlock p b x y
  unfolding index_add_block get_node_index get_node_attributes
  index_add_block-AddsBlock (i, e) =
      let (a, f) = get_elem?_of_lt x.attributes i (w.bounded i p (w.to_path p i e)) in
      (change_node x i (add_block b), rw (e, f), changed-AddsBlock i a e f)
