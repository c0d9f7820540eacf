-- ===== src/BackupIndex/Archive/RoundTrip.antt =====
-- The constructor of an index reads what `Serialize` wrote.
use acbackup.Prelude.{
  ℕ, suc, ◌+◌, ◌<◌, ◌≡◌, ◌≢◌, refl, ap, ◌∙◌, subst, Bool, some, List, [], arith, ok, length,
  get_elem?, and_then, or_throw, range_from, missing_key, All, zero, ◌≤◌, inl, inr, Option-cases,
  lt_of_get_elem?,
}
use acbackup.Node.{FilePath, HashAlgorithm, BackupNodeAttributes}
use acbackup.Index.{find_path, number_of_nodes, get_node_attributes, get_node_index}
use acbackup.Index.WellFormed.{IsWellFormed}
use acbackup.BackupIndex.{Nodes, BackupNodeIndex, compute_node_children, generate_hash_index}
use acbackup.BackupIndex.Archive.{
  Element, Elements, element, end, next, Reader, Dates, node_elements, serialize_index,
}
use acbackup.BackupIndex.Archive.Read.{read_nodes, nodes_of_document, deserialize_index}
use acbackup.BackupIndex.Archive.Document.{FollowsDocument, kept}
use acbackup.BackupIndex.Archive.IndexRoundTrip.{
  Restored, none-Restored, Restored-find_index, children_from_returns, CanBeWritten,
  node_elements-NodesWritten,
}

-- An index that reads like the written one, up to what is not written of a node.
pub record ReadsLike (x y : Nodes) : Type 0 where
  pub same_count : number_of_nodes y ≡ number_of_nodes x
  pub same_paths : (p : FilePath) → get_node_index y p ≡ get_node_index x p
  pub same_nodes :
      (i : ℕ) (a : BackupNodeAttributes)
      → get_node_attributes x i ≡ ok a
      → get_node_attributes y i ≡ ok (kept a)

module _ (reader : Reader) (follows : FollowsDocument reader) (dates : Dates)
    (md5 sha512_256 : HashAlgorithm) (differ : md5 ≢ sha512_256)
    (is_absolute : FilePath → Bool) where
  Restored-ReadsLike :
      (m : ℕ) (x y : Nodes)
      → CanBeWritten reader follows dates md5 sha512_256 differ is_absolute m x
      → Restored x (number_of_nodes x) y
      → ReadsLike x y
  unfolding number_of_nodes get_node_index get_node_attributes
  Restored-ReadsLike m x y w r = record {
    same_count = r.count;
    same_paths = λ p. ap (λ o. or_throw o missing_key) (Restored-find_index x y w.well_formed r p);
    same_nodes = λ i a e. values i a e;
  }
    where
      values :
          (i : ℕ) (a : BackupNodeAttributes)
          → or_throw (get_elem? x.attributes i) missing_key ≡ ok a
          → or_throw (get_elem? y.attributes i) missing_key ≡ ok (kept a)
      values i a e = elim (Option-cases (get_elem? x.attributes i)) [
        | inl q ↦ cc
        | inr (b, q) ↦
            let v = r.values i b (unfold number_of_nodes in lt_of_get_elem? x.attributes i b q) q in
            cc
      ]

  paths_of_range :
      (n first count : ℕ) (x y : Nodes)
      → IsWellFormed x
      → Restored x n y
      → n ≡ length x.attributes
      → first + count ≤ n
      → All (λ i. (p : FilePath) × (find_path i y.path_map ≡ some p)) (range_from first count)
  paths_of_range n first zero x y w r e h = tt
  paths_of_range n first (suc count) x y w r e h =
      let (p, named) = w.named first (omega arith) in
      (
        (p, r.paths first (omega arith) ∙ named),
        paths_of_range n (first + 1) count x y w r e (omega arith),
      )

  children_return :
      (is_root : FilePath → Bool) (get_parent : FilePath → FilePath) (m : ℕ) (x y : Nodes)
      → CanBeWritten reader follows dates md5 sha512_256 differ is_absolute m x
      → Restored x (number_of_nodes x) y
      → (c : List (ℕ × List ℕ)) × (compute_node_children is_root get_parent y ≡ ok c)
  unfolding compute_node_children
  children_return is_root get_parent m x y w r =
      let n = r.count in
      children_from_returns is_root get_parent y (range_from 0 (number_of_nodes y)) [] (
        paths_of_range (number_of_nodes x) 0 (number_of_nodes y) x y w.well_formed r
          (unfold number_of_nodes in refl) (unfold number_of_nodes in omega (arith, n)))

  deserialize_index_lem :
      (is_root : FilePath → Bool) (get_parent : FilePath → FilePath) (h : HashAlgorithm) (fuel : ℕ)
      (es : Elements) (y : Nodes) (c : List (ℕ × List ℕ))
      → read_nodes reader dates md5 sha512_256 is_absolute fuel es
          (record { attributes = []; path_map = [] })
        ≡ some (ok y)
      → compute_node_children is_root get_parent y ≡ ok c
      → deserialize_index reader dates md5 sha512_256 is_absolute is_root get_parent h fuel
          (next (element "SnapshotIndex" [] (next (element "Nodes" [] es) end)) end)
        ≡ some (ok (record { nodes = y; node_children = c; hash_index = generate_hash_index h y }))
  unfolding deserialize_index nodes_of_document
  deserialize_index_lem is_root get_parent h fuel es y c read children =
      let nodes : Element = element "Nodes" [] es in
      let index : Element = element "SnapshotIndex" [] (next nodes end) in
      rw
        (
          follows.takes_next index end,
          and_then,
          nodes_of_document,
          follows.takes_next nodes end,
          and_then,
          read,
          and_then,
          children,
        )
        refl

  serialize_index_lem :
      (x : Nodes) (es : Elements)
      → node_elements md5 sha512_256 dates.to_iso x (range_from 0 (number_of_nodes x)) ≡ ok es
      → serialize_index md5 sha512_256 dates.to_iso x
        ≡ ok (element "SnapshotIndex" [] (next (element "Nodes" [] es) end))
  unfolding serialize_index
  serialize_index_lem x es e = rw e refl

  -- With a deserializer that finds an element of the document by its name where it comes next, and
  -- two hash algorithms that differ: for a well-formed index with absolute paths, whose nodes have
  -- POSIX permissions, at most one hash value for each of the two algorithms and a time whose text
  -- is read back, `Serialize` returns a document. With fuel for each node and for the blocks and
  -- hash values of any node, the constructor reads it. The index that is read has as many nodes,
  -- the same number for each path, and for each node the same attributes, but for the size of a
  -- directory and for the owner, the compression setting and the ownership of no blocks. Its hash
  -- index and its children are computed from the nodes.
  pub deserialize_index-serialize_index :
      (is_root : FilePath → Bool) (get_parent : FilePath → FilePath) (h : HashAlgorithm) (m : ℕ)
      (x : Nodes)
      → CanBeWritten reader follows dates md5 sha512_256 differ is_absolute m x
      → (fuel : ℕ) → number_of_nodes x + m < fuel
      → (e : Element) × (serialize_index md5 sha512_256 dates.to_iso x ≡ ok e)
        × ((r : BackupNodeIndex) × (deserialize_index reader dates md5 sha512_256 is_absolute
                is_root get_parent h fuel
                (next e end)
              ≡ some (ok r))
            × ReadsLike x r.nodes
            × (r.hash_index ≡ generate_hash_index h r.nodes)
            × (compute_node_children is_root get_parent r.nodes ≡ ok r.node_children))
  deserialize_index-serialize_index is_root get_parent h m x w fuel f =
      let n =
        node_elements-NodesWritten reader follows dates md5 sha512_256 differ is_absolute m x 0
          (number_of_nodes x) w (omega arith) in
      let (y, read, restored) =
        n.reads fuel (record { attributes = []; path_map = [] }) f (none-Restored x) in
      let restored' = subst (λ k. Restored x k y) (omega arith) restored in
      let (c, children) = children_return is_root get_parent m x y w restored' in
      (
        _,
        serialize_index_lem x n.written n.writes,
        (
          _,
          deserialize_index_lem is_root get_parent h fuel n.written y c read children,
          Restored-ReadsLike m x y w restored',
          refl,
          children,
        ),
      )
