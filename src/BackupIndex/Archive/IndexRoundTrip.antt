-- ===== src/BackupIndex/Archive/IndexRoundTrip.antt =====
-- An index that was written as XML is read back.
use acbackup.Prelude.{
  ℕ, zero, suc, ◌+◌, ◌<◌, ◌≡◌, ◌≢◌, refl, sym, ◌∙◌, Bool, true, some, List, [], ◌∷◌, arith, ok,
  length, get_elem?, and_then, inl, inr, range_from, get_elem?_of_lt, get_elem?-append_left,
  get_elem?-append_last, length-append, ℕ_discrete, Option-cases, Bool-cases, subst, All,
}
use acbackup.Node.{FilePath, HashAlgorithm, BackupNodeAttributes}
use acbackup.Index.{
  add_node, find_index, find_path, absolute_path, number_of_nodes, get_node_attributes,
  get_node_path,
}
use acbackup.Index.WellFormed.{IsWellFormed}
use acbackup.BackupIndex.{Nodes, children_from, push_child}
use acbackup.BackupIndex.Archive.{
  Element, Elements, end, next, name_of, Reader, Dates, serialize_node, node_elements,
}
use acbackup.BackupIndex.Archive.Read.{node_of_element, read_nodes}
use acbackup.BackupIndex.Archive.Document.{FollowsDocument, kept, IsWritable}
use acbackup.BackupIndex.Archive.NodeRoundTrip.{NodeWritten, serialize_node-NodeWritten}

module _ (x : Nodes) where
  -- The first nodes of the index have come back, under their numbers and paths.
  pub record Restored (k : ℕ) (y : Nodes) : Type 0 where
    pub count : length y.attributes ≡ k
    pub values :
        (i : ℕ) (a : BackupNodeAttributes)
        → i < k
        → get_elem? x.attributes i ≡ some a
        → get_elem? y.attributes i ≡ some (kept a)
    pub paths : (i : ℕ) → i < k → find_path i y.path_map ≡ find_path i x.path_map
    pub found :
        (p : FilePath) (i : ℕ)
        → find_index p y.path_map ≡ some i
        → (i < k) × (find_path i x.path_map ≡ some p)
    pub finds :
        (p : FilePath) (i : ℕ)
        → i < k
        → find_path i x.path_map ≡ some p
        → find_index p y.path_map ≡ some i

  pub none-Restored : Restored 0 (record { attributes = []; path_map = [] })
  unfolding find_index
  none-Restored = record {
    count = refl;
    values = λ i a h e. absurd (omega arith);
    paths = λ i h. absurd (omega arith);
    found = λ p i e. cc;
    finds = λ p i h e. absurd (omega arith);
  }

  add_node-Restored :
      (is_absolute : FilePath → Bool) (k : ℕ) (y : Nodes) (p : FilePath) (a : BackupNodeAttributes)
      → IsWellFormed x
      → find_path k x.path_map ≡ some p
      → get_elem? x.attributes k ≡ some a
      → is_absolute p ≡ true
      → Restored k y
      → Restored (suc k) (add_node is_absolute y p (kept a))
  unfolding add_node absolute_path find_index find_path
  add_node-Restored is_absolute k y p a w named e absolute r =
      let n = r.count in
      record {
        count = omega (arith, length-append y.attributes (kept a ∷ []), n);
        values = λ i b h e'. elim (ℕ_discrete i k) [
          | yes q ↦ get_elem?-append_last y.attributes (kept a) i (omega arith) ∙ cc
          | no q ↦
              get_elem?-append_left y.attributes (kept a ∷ []) i (omega (arith, n))
              ∙ r.values i b (omega arith) e'
        ];
        paths = λ i h. ground (arith, n, r.paths i);
        found = λ q i e'. ground (arith, n, r.found q i);
        finds = λ q i h e'. ground (arith, n, r.finds q i, w.to_index i q, w.to_index k p);
      }

  -- Each path leads to the number that it had.
  pub Restored-find_index :
      (y : Nodes)
      → IsWellFormed x
      → Restored (number_of_nodes x) y
      → (p : FilePath) → find_index p y.path_map ≡ find_index p x.path_map
  unfolding number_of_nodes
  Restored-find_index y w r p = elim (Option-cases (find_index p x.path_map)) [
    | inr (i, e) ↦ let path = w.to_path p i e in r.finds p i (w.bounded i p path) path ∙ sym e
    | inl e ↦ elim (Option-cases (find_index p y.path_map)) [
      | inr (i, e') ↦ let again = w.to_index i p (r.found p i e').1 in cc
      | inl e' ↦ e' ∙ sym e
    ]
  ]

children_from_next :
    (is_root : FilePath → Bool) (get_parent : FilePath → FilePath) (y : Nodes) (i : ℕ) (is : List ℕ)
    (m : List (ℕ × List ℕ)) (p : FilePath)
    → find_path i y.path_map ≡ some p
    → (m' : List (ℕ × List ℕ)) × (children_from is_root get_parent y (i ∷ is) m
        ≡ children_from is_root get_parent y is m')
unfolding children_from get_node_path
children_from_next is_root get_parent y i is m p named = elim (Bool-cases (is_root p)) [
  | inl root ↦ (m, rw (named, root) refl)
  | inr below ↦ elim (Option-cases (find_index (get_parent p) y.path_map)) [
    | inl absent ↦ (m, rw (named, below, absent) refl)
    | inr (parent, there) ↦ (push_child parent i m, rw (named, below, there) refl)
  ]
]

pub children_from_returns :
    (is_root : FilePath → Bool) (get_parent : FilePath → FilePath) (y : Nodes) (is : List ℕ)
    (m : List (ℕ × List ℕ))
    → All (λ i. (p : FilePath) × (find_path i y.path_map ≡ some p)) is
    → (m' : List (ℕ × List ℕ)) × (children_from is_root get_parent y is m ≡ ok m')
children_from_returns is_root get_parent y [] m h = (m, unfold children_from in refl)
children_from_returns is_root get_parent y (i ∷ is) m ((p, named), h) =
    let (m', e) = children_from_next is_root get_parent y i is m p named in
    let (last, e') = children_from_returns is_root get_parent y is m' h in (last, e ∙ e')

module _ (reader : Reader) (follows : FollowsDocument reader) (dates : Dates)
    (md5 sha512_256 : HashAlgorithm) (differ : md5 ≢ sha512_256)
    (is_absolute : FilePath → Bool) where
  read_nodes_next :
      (fuel : ℕ) (e : Element) (es : Elements) (y z : Nodes) (p : FilePath)
      (a : BackupNodeAttributes)
      → name_of e ≡ "Node"
      → node_of_element reader dates md5 sha512_256 fuel e ≡ some (ok (p, a))
      → read_nodes reader dates md5 sha512_256 is_absolute fuel es (add_node is_absolute y p a)
        ≡ some (ok z)
      → read_nodes reader dates md5 sha512_256 is_absolute (suc fuel) (next e es) y ≡ some (ok z)
  unfolding read_nodes
  read_nodes_next fuel e es y z p a named read more =
      let taken : reader.take_child "Node" (next e es) ≡ some (e, es) =
        subst (λ n. reader.take_child n (next e es) ≡ some (e, es)) named
          (follows.takes_next e es) in
      rw (taken, and_then, read, and_then, more) refl

  read_nodes_end :
      (fuel : ℕ) (y : Nodes)
      → 0 < fuel
      → read_nodes reader dates md5 sha512_256 is_absolute fuel end y ≡ some (ok y)
  read_nodes_end zero y f = absurd (omega arith)
  read_nodes_end (suc fuel) y f = unfold read_nodes in refl

  node_elements_next :
      (x : Nodes) (i : ℕ) (is : List ℕ) (p : FilePath) (a : BackupNodeAttributes) (e : Element)
      (es : Elements)
      → find_path i x.path_map ≡ some p
      → get_elem? x.attributes i ≡ some a
      → serialize_node md5 sha512_256 dates.to_iso p a ≡ ok e
      → node_elements md5 sha512_256 dates.to_iso x is ≡ ok es
      → node_elements md5 sha512_256 dates.to_iso x (i ∷ is) ≡ ok (next e es)
  unfolding node_elements get_node_path get_node_attributes
  node_elements_next x i is p a e es named at written more = rw (named, at, written, more) refl

  -- The nodes of an index can be written, and read within the fuel.
  pub record CanBeWritten (m : ℕ) (x : Nodes) : Type 0 where
    pub well_formed : IsWellFormed x
    pub all_absolute :
        (i : ℕ) (p : FilePath) → find_path i x.path_map ≡ some p → is_absolute p ≡ true
    pub all_writable :
        (i : ℕ) (a : BackupNodeAttributes)
        → get_elem? x.attributes i ≡ some a
        → IsWritable md5 sha512_256 dates a
    pub all_short :
        (i : ℕ) (a : BackupNodeAttributes)
        → get_elem? x.attributes i ≡ some a
        → (length a.blocks < m) × (length a.hashes < m)

  -- What was written for the nodes from the given number on.
  pub record NodesWritten (m : ℕ) (x : Nodes) (k c : ℕ) : Type 0 where
    pub written : Elements
    pub writes : node_elements md5 sha512_256 dates.to_iso x (range_from k c) ≡ ok written
    pub reads :
        (fuel : ℕ) (y : Nodes)
        → c + m < fuel
        → Restored x k y
        → (z : Nodes) × (read_nodes reader dates md5 sha512_256 is_absolute fuel written y
            ≡ some (ok z))
          × Restored x (k + c) z

  pub node_elements-NodesWritten :
      (m : ℕ) (x : Nodes) (k c : ℕ)
      → CanBeWritten m x
      → k + c ≡ number_of_nodes x
      → NodesWritten m x k c
  node_elements-NodesWritten m x k zero w h = record {
    written = end;
    writes = unfold node_elements in refl;
    reads = λ fuel y f r.
        (y, read_nodes_end fuel y (omega arith), subst (λ n. Restored x n y) (omega arith) r);
  }
  node_elements-NodesWritten m x k (suc c) w h =
      let below : k < length x.attributes = unfold number_of_nodes in omega (arith, h) in
      let (p, named) = w.well_formed.named k below in
      let (a, at) = get_elem?_of_lt x.attributes k below in
      let n =
        serialize_node-NodeWritten reader follows dates md5 sha512_256 differ p a
          (w.all_writable k a at) in
      let rest = node_elements-NodesWritten m x (k + 1) c w (omega (arith, h)) in
      record {
        written = next n.written rest.written;
        writes =
            node_elements_next x k (range_from (k + 1) c) p a n.written rest.written named at
              n.writes rest.writes;
        reads = read p a named at n rest;
      }
    where
      read :
          (p : FilePath) (a : BackupNodeAttributes)
          → find_path k x.path_map ≡ some p
          → get_elem? x.attributes k ≡ some a
          → (n : NodeWritten reader follows dates md5 sha512_256 differ p a)
          → (rest : NodesWritten m x (k + 1) c) → (fuel : ℕ) (y : Nodes) → suc c + m < fuel
          → Restored x k y
          → (z : Nodes) × (read_nodes reader dates md5 sha512_256 is_absolute fuel
                (next n.written rest.written)
                y
              ≡ some (ok z))
            × Restored x (k + suc c) z
      read p a named at n rest zero y f r = absurd (omega arith)
      read p a named at n rest (suc fuel) y f r =
          let (blocks, hashes) = w.all_short k a at in
          let r' =
            add_node-Restored x is_absolute k y p a w.well_formed named at
              (w.all_absolute k p named) r in
          let (z, reads, restored) =
            rest.reads fuel (add_node is_absolute y p (kept a)) (omega arith)
              (subst (λ j. Restored x j (add_node is_absolute y p (kept a))) (omega arith) r') in
          (
            z,
            read_nodes_next fuel n.written rest.written y z p (kept a) n.is_node
                (n.reads fuel (omega arith) (omega arith)) reads,
            subst (λ j. Restored x j z) (omega arith) restored,
          )
