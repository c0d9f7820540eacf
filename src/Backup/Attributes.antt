-- ===== src/Backup/Attributes.antt =====
-- What changes of the new attributes do to the index and to the stored bytes.
use acbackup.Prelude.{
  ℕ, zero, suc, ◌<◌, ◌≡◌, ◌≢◌, refl, sym, ap, subst, ◌∙◌, Bool, true, Option, none, some, List, [],
  ◌∷◌, map, arith, length, get_elem?, String_discrete, ℕ_discrete, inl, inr, Option-cases,
  get_elem?-append_left, get_elem?-append_last, All,
}
use acbackup.Node.{FilePath, BackupNodeAttributes}
use acbackup.Node.Blocks.{Within, blocks_bytes}
use acbackup.Index.{find_index, absolute_path, add_node, change_node, modify}
use acbackup.Index.WellFormed.{IsWellFormed, add_node-IsWellFormed}
use acbackup.BackupIndex.{Nodes}
use acbackup.BackupIndex.Changes.{
  blocks_at, blocks_of, without_blocks, get_elem?-modify_self, get_elem?-modify_ne, length-modify,
}
use acbackup.Volumes.{FlatVolumes}
use acbackup.Volumes.Chunk.{stored, IsConsistent}

get_elem?-map :
    (f : BackupNodeAttributes → BackupNodeAttributes) (xs ys : List BackupNodeAttributes) (i : ℕ)
    (a : BackupNodeAttributes)
    → map f ys ≡ map f xs
    → get_elem? xs i ≡ some a
    → (b : BackupNodeAttributes) × (get_elem? ys i ≡ some b) × (f b ≡ f a)
get_elem?-map f (x ∷ xs) (y ∷ ys) zero a e q = (y, refl, cc)
get_elem?-map f (x ∷ xs) (y ∷ ys) (suc i) a e q =
    let e' : map f ys ≡ map f xs = cc in get_elem?-map f xs ys i a e' q
get_elem?-map f [] ys i a e q = absurd (ground arith)
get_elem?-map f (x ∷ xs) [] i a e q = cc

blocks_at_absent : (x : Nodes) (p : FilePath) → find_index p x.path_map ≡ none → blocks_at x p ≡ []
unfolding blocks_at
blocks_at_absent x p e = ground arith

pub blocks_at_there :
    (x : Nodes) (p : FilePath) (j : ℕ)
    → find_index p x.path_map ≡ some j
    → blocks_at x p ≡ blocks_of (get_elem? x.attributes j)
unfolding blocks_at
blocks_at_there x p j e = ground arith

-- Nodes that are the same but for their blocks.
pub same_node :
    (x y : Nodes) (i : ℕ) (a : BackupNodeAttributes)
    → map without_blocks y.attributes ≡ map without_blocks x.attributes
    → get_elem? x.attributes i ≡ some a
    → (b : BackupNodeAttributes) × (get_elem? y.attributes i ≡ some b)
      × (without_blocks b ≡ without_blocks a)
same_node x y i a e q = get_elem?-map without_blocks x.attributes y.attributes i a e q

module _ (x : Nodes) (n : ℕ) (a : BackupNodeAttributes)
    (f : BackupNodeAttributes → BackupNodeAttributes) (at : get_elem? x.attributes n ≡ some a)
    (keeps : (f a).blocks ≡ a.blocks) where
  blocks_at-change_node : (p : FilePath) → blocks_at (change_node x n f) p ≡ blocks_at x p
  unfolding change_node
  blocks_at-change_node p = elim (Option-cases (find_index p x.path_map)) [
    | inl m ↦ blocks_at_absent (change_node x n f) p m ∙ sym (blocks_at_absent x p m)
    | inr (j, m) ↦
        blocks_at_there (change_node x n f) p j m ∙ changed j ∙ sym (blocks_at_there x p j m)
  ]
    where
      changed :
          (j : ℕ)
          → blocks_of (get_elem? (modify f x.attributes n) j) ≡ blocks_of (get_elem? x.attributes j)
      changed j = elim (ℕ_discrete n j) [
        | yes e ↦ let self = get_elem?-modify_self f x.attributes n a at in rw (← e, self, at) keeps
        | no e ↦ ap blocks_of (get_elem?-modify_ne f x.attributes n j e)
      ]

  change_node-IsWellFormed : IsWellFormed x → IsWellFormed (change_node x n f)
  unfolding change_node
  change_node-IsWellFormed w = record {
    to_path = w.to_path;
    to_index = w.to_index;
    named = λ j h. w.named j (omega (arith, length-modify f x.attributes n));
    bounded = λ j q h. omega (arith, w.bounded j q h, length-modify f x.attributes n);
  }

-- A change of attributes that keeps the blocks keeps the volumes consistent, and what is stored.
pub change_node-stored :
    (s : FlatVolumes) (n : ℕ) (a : BackupNodeAttributes)
    (f : BackupNodeAttributes → BackupNodeAttributes)
    → IsConsistent s
    → get_elem? s.index.attributes n ≡ some a
    → (f a).blocks ≡ a.blocks
    → IsConsistent (record s { index = change_node s.index n f })
      × ((p : FilePath) → stored (record s { index = change_node s.index n f }) p ≡ stored s p)
unfolding stored
change_node-stored s n a f c at keeps = (
  record {
    room = record {
      positive = c.room.positive;
      small = c.room.small;
      open_volumes = c.room.open_volumes;
      distinct = c.room.distinct;
      bounded = c.room.bounded;
      fresh = c.room.fresh;
    };
    well_formed = change_node-IsWellFormed s.index n a f at keeps c.well_formed;
    within = λ p.
        subst (All (Within s.files)) (sym (blocks_at-change_node s.index n a f at keeps p))
          (c.within p);
  },
  λ p. ap (blocks_bytes s.files) (blocks_at-change_node s.index n a f at keeps p),
)

module _ (is_absolute : FilePath → Bool) (x : Nodes) (path : FilePath) (a : BackupNodeAttributes)
    (absolute : is_absolute path ≡ true) (w : IsWellFormed x)
    (new : find_index path x.path_map ≡ none) (empty : a.blocks ≡ []) where
  added-find_index :
      find_index path (add_node is_absolute x path a).path_map ≡ some (length x.attributes)
  unfolding add_node absolute_path find_index
  added-find_index = ground arith

  added-get_elem? :
      get_elem? (add_node is_absolute x path a).attributes (length x.attributes) ≡ some a
  unfolding add_node
  added-get_elem? = get_elem?-append_last x.attributes a (length x.attributes) refl

  added-IsWellFormed : IsWellFormed (add_node is_absolute x path a)
  unfolding absolute_path
  added-IsWellFormed = add_node-IsWellFormed is_absolute x path a (rw absolute new) w

  blocks_at-add_node_self : blocks_at (add_node is_absolute x path a) path ≡ []
  blocks_at-add_node_self =
      blocks_at_there (add_node is_absolute x path a) path (length x.attributes) added-find_index
      ∙ ap blocks_of added-get_elem?
      ∙ empty

  blocks_at-add_node_ne :
      (p : FilePath) → p ≢ path → blocks_at (add_node is_absolute x path a) p ≡ blocks_at x p
  blocks_at-add_node_ne p n = elim (Option-cases (find_index p x.path_map)) [
    | inl m ↦
        blocks_at_absent (add_node is_absolute x path a) p (other none m)
        ∙ sym (blocks_at_absent x p m)
    | inr (j, m) ↦
        blocks_at_there (add_node is_absolute x path a) p j (other (some j) m)
        ∙ ap blocks_of (kept j (w.bounded j p (w.to_path p j m)))
        ∙ sym (blocks_at_there x p j m)
  ]
    where
      other :
          (o : Option ℕ)
          → find_index p x.path_map ≡ o
          → find_index p (add_node is_absolute x path a).path_map ≡ o
      other o m = unfold add_node absolute_path find_index in ground arith

      kept :
          (j : ℕ)
          → j < length x.attributes
          → get_elem? (add_node is_absolute x path a).attributes j ≡ get_elem? x.attributes j
      kept j h = unfold add_node in get_elem?-append_left x.attributes (a ∷ []) j h

-- A new node without blocks keeps the volumes consistent, and has nothing stored.
pub add_node-stored :
    (is_absolute : FilePath → Bool) (s : FlatVolumes) (path : FilePath) (a : BackupNodeAttributes)
    → is_absolute path ≡ true
    → IsConsistent s
    → find_index path s.index.path_map ≡ none
    → a.blocks ≡ []
    → IsConsistent (record s { index = add_node is_absolute s.index path a })
      × (stored (record s { index = add_node is_absolute s.index path a }) path ≡ [])
      × ((p : FilePath)
          → p ≢ path
          → stored (record s { index = add_node is_absolute s.index path a }) p ≡ stored s p)
      × (find_index path (add_node is_absolute s.index path a).path_map
          ≡ some (length s.index.attributes))
      × (get_elem? (add_node is_absolute s.index path a).attributes (length s.index.attributes)
          ≡ some a)
unfolding stored
add_node-stored is_absolute s path a absolute c new empty =
    let w = c.well_formed in
    let self = blocks_at-add_node_self is_absolute s.index path a absolute w new empty in
    let others = blocks_at-add_node_ne is_absolute s.index path a absolute w new empty in
    (
      record {
        room = record {
          positive = c.room.positive;
          small = c.room.small;
          open_volumes = c.room.open_volumes;
          distinct = c.room.distinct;
          bounded = c.room.bounded;
          fresh = c.room.fresh;
        };
        well_formed = added-IsWellFormed is_absolute s.index path a absolute w new empty;
        within = λ p. elim (String_discrete p path) [
          | yes e ↦
              subst (All (Within s.files))
                (sym (ap (blocks_at (add_node is_absolute s.index path a)) e ∙ self)) tt
          | no n ↦ subst (All (Within s.files)) (sym (others p n)) (c.within p)
        ];
      },
      ap (blocks_bytes s.files) self,
      λ p n. ap (blocks_bytes s.files) (others p n),
      added-find_index is_absolute s.index path a absolute w new empty,
      added-get_elem? is_absolute s.index path a absolute w new empty,
    )
