-- ===== src/Mount/Children.antt =====
-- What the enumeration of a directory goes through.
use acbackup.Prelude.{
  ℕ, zero, suc, ◌+◌, ◌<◌, ◌≤◌, ◌≡◌, ◌≢◌, ◌↔◌, refl, ite, Bool, true, false, Option, none, some,
  List, [], ◌∷◌, String_discrete, ◌==◌, ltb, not, ◌&&◌, if◌then◌else◌, ok, length, range_from,
  contains, contains-range_from, All, arith, Bool-cases, Option-cases, inl, inr,
}
use acbackup.Node.{FilePath}
use acbackup.Index.{
  find_index, find_path, get_node_index, get_node_path, has_node_index, number_of_nodes,
}
use acbackup.Index.WellFormed.{IsWellFormed}
use acbackup.BackupIndex.{Nodes}
use acbackup.Mount.{PathParts, children_among, enumerate_children}

module _ (parts : PathParts) where
  abbrev lies_in : FilePath → Option FilePath → Bool
  lies_in path none = false
  lies_in path (some p) = ite (String_discrete (parts.get_parent p) path) true false

  -- A node whose parent is the path, and not the node of the path itself.
  unfoldable pub is_child : Nodes → FilePath → ℕ → ℕ → Bool
  is_child x path node i = not (i == node) && lies_in path (find_path i x.path_map)

  unfoldable with_child : Bool → ℕ → List ℕ → List ℕ
  with_child b i cs = if b then i ∷ cs else cs

  children_among_next :
      (x : Nodes) (path : FilePath) (node i : ℕ) (is cs : List ℕ) (p : FilePath)
      → find_path i x.path_map ≡ some p
      → children_among parts x path node is ≡ ok cs
      → children_among parts x path node (i ∷ is) ≡ ok (with_child (is_child x path node i) i cs)
  unfolding children_among get_node_path is_child with_child
  children_among_next x path node i is cs p named e = elim (Bool-cases (i == node)) [
    | inl q ↦ rw (q, e) refl
    | inr q ↦ elim (String_discrete (parts.get_parent p) path) [
      | yes h ↦ rw (q, named, e, h) (ground arith)
      | no h ↦ rw (q, named, e) (ground arith)
    ]
  ]

  contains-with_child :
      (f : ℕ → Bool) (j i : ℕ) (is cs : List ℕ)
      → contains j cs ≡ (contains j is && f j)
      → contains j (with_child (f i) i cs) ≡ (contains j (i ∷ is) && f j)
  unfolding with_child
  contains-with_child f j i is cs e = ground arith

  -- Every node has a path.
  abbrev Named : Nodes → List ℕ → Type 0
  Named x is = All (λ i. (p : FilePath) × (find_path i x.path_map ≡ some p)) is

  children_among_lem :
      (x : Nodes) (path : FilePath) (node : ℕ) (is : List ℕ)
      → Named x is
      → (cs : List ℕ) × (children_among parts x path node is ≡ ok cs)
        × ((j : ℕ) → contains j cs ≡ (contains j is && is_child x path node j))
  children_among_lem x path node [] named = ([], unfold children_among in refl, λ j. refl)
  children_among_lem x path node (i ∷ is) ((p, e), named) =
      let (cs, e', h) = children_among_lem x path node is named in
      (
        with_child (is_child x path node i) i cs,
        children_among_next x path node i is cs p e e',
        λ j. contains-with_child (is_child x path node) j i is cs (h j),
      )

  range_from-Named :
      (x : Nodes) (first count : ℕ)
      → IsWellFormed x
      → first + count ≤ length x.attributes
      → Named x (range_from first count)
  range_from-Named x first zero w h = tt
  range_from-Named x first (suc count) w h =
      (w.named first (omega arith), range_from-Named x (first + 1) count w (omega arith))

  -- The children of a node, as the enumeration is to give them.
  abbrev pub IsChild : Nodes → FilePath → ℕ → ℕ → Type 0
  IsChild x path node i =
      (i ≢ node)
      × ((p : FilePath) × (find_path i x.path_map ≡ some p) × (parts.get_parent p ≡ path))

  is_child-IsChild :
      (x : Nodes) (path : FilePath) (node i : ℕ)
      → (is_child x path node i ≡ true) ↔ IsChild x path node i
  unfolding is_child
  is_child-IsChild x path node i = (to_child, λ h. from_child h)
    where
      to_child : is_child x path node i ≡ true → IsChild x path node i
      to_child h = elim (Option-cases (find_path i x.path_map)) [
        | inl e ↦ absurd (ground arith)
        | inr (p, e) ↦ elim (String_discrete (parts.get_parent p) path) [
          | yes q ↦ (ground arith, (p, e, q))
          | no n ↦ absurd (ground arith)
        ]
      ]

      from_child : IsChild x path node i → is_child x path node i ≡ true
      from_child (n, (p, e, q)) = rw e (ground arith)

  enumerate_children_there :
      (x : Nodes) (path : FilePath) (node : ℕ) (cs : List ℕ)
      → find_index path x.path_map ≡ some node
      → children_among parts x path node (range_from 0 (number_of_nodes x)) ≡ ok cs
      → enumerate_children parts x path ≡ ok (some cs)
  unfolding enumerate_children has_node_index get_node_index
  enumerate_children_there x path node cs e e' = rw (has_node_index, e, e') refl

  -- For a path of a well-formed index, `EnumerateChildren` returns a list of numbers. In it are the
  -- numbers of just those nodes of the index, but for the path's own, whose parent is the path.
  pub enumerate_children_lem :
      (x : Nodes) (path : FilePath) (node : ℕ)
      → IsWellFormed x
      → find_index path x.path_map ≡ some node
      → (cs : List ℕ) × (enumerate_children parts x path ≡ ok (some cs))
        × ((i : ℕ) → (contains i cs ≡ true) ↔ ((i < number_of_nodes x) × IsChild x path node i))
  enumerate_children_lem x path node w e =
      let (cs, e', h) =
        children_among_lem x path node (range_from 0 (number_of_nodes x))
          (range_from-Named x 0 (number_of_nodes x) w (unfold number_of_nodes in omega arith)) in
      (cs, enumerate_children_there x path node cs e e', λ i. member cs i (h i))
    where
      member :
          (cs : List ℕ) (i : ℕ)
          → contains i cs
            ≡ (contains i (range_from 0 (number_of_nodes x)) && is_child x path node i)
          → (contains i cs ≡ true) ↔ ((i < number_of_nodes x) × IsChild x path node i)
      member cs i e =
          let r = contains-range_from i 0 (number_of_nodes x) in
          let c = is_child-IsChild x path node i in
          (
            λ h.
                let b : (ltb i (number_of_nodes x) && is_child x path node i) ≡ true =
                  ground arith in
                (ground arith, c.0 (ground arith)),
            λ h. let q = c.1 h.1 in let l = h.0 in ground arith,
          )
