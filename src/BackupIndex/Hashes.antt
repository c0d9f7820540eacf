-- ===== src/BackupIndex/Hashes.antt =====
-- `GenerateHashIndex` and `FindNodeIndexByHash` against the nodes of the index.
use acbackup.Prelude.{
  ℕ, zero, suc, ◌+◌, ◌≤◌, ◌≡◌, ◌≢◌, refl, subst, inl, inr, ◌⊎◌, ite, none, some, List, [], ◌∷◌,
  arith, String, String_discrete, get_elem?, Option-cases,
}
use acbackup.Node.{BackupNodeAttributes, HashAlgorithm, find_hash}
use acbackup.BackupIndex.{
  Nodes, BackupNodeIndex, find_text, put_text, hash_index_from, generate_hash_index,
  find_node_index_by_hash, uint32_max,
}

find_text-put_text :
    (v k : String) (i : ℕ) (m : List (String × ℕ))
    → find_text v (put_text k i m) ≡ ite (String_discrete v k) (some i) (find_text v m)
unfolding find_text put_text
find_text-put_text v k i [] = refl
find_text-put_text v k i ((j, w) ∷ m) = ground (arith, find_text-put_text v k i m)

-- Node `j` of the nodes that begin with number `i` has the hash value.
abbrev HasHash : HashAlgorithm → String → ℕ → List BackupNodeAttributes → ℕ → Type 0
HasHash h v i as' j =
    (k : ℕ) × (a : BackupNodeAttributes) × (j ≡ i + k)
    × (get_elem? as' k ≡ some a)
    × (find_hash h a.hashes ≡ some v)

module _ (h : HashAlgorithm) (v : String) where
  next_map : ℕ → BackupNodeAttributes → List (String × ℕ) → List (String × ℕ)
  next_map i a m = elim (find_hash h a.hashes) [ some w ↦ put_text w i m | none ↦ m ]

  find_text-next_map :
      (i j : ℕ) (a : BackupNodeAttributes) (m : List (String × ℕ))
      → find_text v (next_map i a m) ≡ some j
      → (find_text v m ≡ some j) ⊎ ((find_hash h a.hashes ≡ some v) × (j ≡ i))
  unfolding next_map
  find_text-next_map i j a m e = elim (Option-cases (find_hash h a.hashes)) [
    | inl n ↦ inl (ground arith)
    | inr (w, q) ↦ elim (String_discrete v w) [
      | yes s ↦ inr (ground arith, ground (arith, find_text-put_text v w i m))
      | no s ↦ inl (ground (arith, find_text-put_text v w i m))
    ]
  ]

  hash_index_from_sound :
      (i j : ℕ) (as' : List BackupNodeAttributes) (m : List (String × ℕ))
      → find_text v (hash_index_from h i as' m) ≡ some j
      → (find_text v m ≡ some j) ⊎ HasHash h v i as' j
  unfolding hash_index_from next_map
  hash_index_from_sound i j [] m e = inl e
  hash_index_from_sound i j (a ∷ as') m e =
      elim (hash_index_from_sound (suc i) j as' (next_map i a m) e) [
        | inr (k, b, q, g, f) ↦ inr (suc k, b, omega arith, g, f)
        | inl x ↦ elim (find_text-next_map i j a m x) [
          | inl old ↦ inl old
          | inr (f, q) ↦ inr (zero, a, omega arith, refl, f)
        ]
      ]

  next_map_keeps :
      (i j : ℕ) (a : BackupNodeAttributes) (m : List (String × ℕ))
      → find_text v m ≡ some j
      → j ≤ i
      → (k : ℕ) × (find_text v (next_map i a m) ≡ some k) × (j ≤ k) × (k ≤ i)
  unfolding next_map
  next_map_keeps i j a m e b = elim (Option-cases (find_hash h a.hashes)) [
    | inl n ↦ (j, ground arith, omega arith, b)
    | inr (w, q) ↦ elim (String_discrete v w) [
      | yes s ↦ (i, ground (arith, find_text-put_text v w i m), b, omega arith)
      | no s ↦ (j, ground (arith, find_text-put_text v w i m), omega arith, b)
    ]
  ]

  next_map_self :
      (i : ℕ) (a : BackupNodeAttributes) (m : List (String × ℕ))
      → find_hash h a.hashes ≡ some v
      → find_text v (next_map i a m) ≡ some i
  unfolding next_map
  next_map_self i a m e = ground (arith, find_text-put_text v v i m)

  hash_index_from_keeps :
      (i j : ℕ) (as' : List BackupNodeAttributes) (m : List (String × ℕ))
      → find_text v m ≡ some j
      → j ≤ i
      → (k : ℕ) × (find_text v (hash_index_from h i as' m) ≡ some k) × (j ≤ k)
  unfolding hash_index_from next_map
  hash_index_from_keeps i j [] m e b = (j, e, omega arith)
  hash_index_from_keeps i j (a ∷ as') m e b =
      let (k, e', l, u) = next_map_keeps i j a m e b in
      let (r, q, l') = hash_index_from_keeps (suc i) k as' (next_map i a m) e' (omega arith) in
      (r, q, omega arith)

  hash_index_from_complete :
      (i k : ℕ) (a : BackupNodeAttributes) (as' : List BackupNodeAttributes) (m : List (String × ℕ))
      → get_elem? as' k ≡ some a
      → find_hash h a.hashes ≡ some v
      → (r : ℕ) × (find_text v (hash_index_from h i as' m) ≡ some r) × (i + k ≤ r)
  unfolding hash_index_from next_map
  hash_index_from_complete i k a [] m g f = cc
  hash_index_from_complete i zero a (b ∷ bs) m g f =
      let here = next_map_self i b m (ground arith) in
      let (r, q, l) = hash_index_from_keeps (suc i) i bs (next_map i b m) here (omega arith) in
      (r, q, omega arith)
  hash_index_from_complete i (suc k) a (b ∷ bs) m g f =
      let (r, q, l) = hash_index_from_complete (suc i) k a bs (next_map i b m) g f in
      (r, q, omega arith)

no_entry : (v : String) (j : ℕ) → find_text v [] ≡ some j → ⊥
unfolding find_text
no_entry v j o = cc

-- The answer is the number of the last node with the hash value.
abbrev pub IsNewest : HashAlgorithm → String → Nodes → ℕ → Type 0
IsNewest h v x j =
    ((a : BackupNodeAttributes) × (get_elem? x.attributes j ≡ some a)
      × (find_hash h a.hashes ≡ some v))
    × ((k : ℕ) (a : BackupNodeAttributes)
        → get_elem? x.attributes k ≡ some a
        → find_hash h a.hashes ≡ some v
        → k ≤ j)

-- In an index that was read in, `FindNodeIndexByHash` answers with the last node that has the hash
-- value, and with `Unsigned<uint32>::Max()` if no node has it.
pub find_node_index_by_hash_lem :
    (h : HashAlgorithm) (v : String) (x : BackupNodeIndex)
    → x.hash_index ≡ generate_hash_index h x.nodes
    → IsNewest h v x.nodes (find_node_index_by_hash x v)
      ⊎ ((find_node_index_by_hash x v ≡ uint32_max)
          × ((k : ℕ) (a : BackupNodeAttributes)
              → get_elem? x.nodes.attributes k ≡ some a
              → find_hash h a.hashes ≢ some v))
unfolding find_node_index_by_hash generate_hash_index
find_node_index_by_hash_lem h v x e = elim (Option-cases (find_text v x.hash_index)) [
  | inl n ↦ inr (
    ground arith,
    λ k a g f.
        let (r, q, l) = hash_index_from_complete h v 0 k a x.nodes.attributes [] g f in
        ground arith,
  )
  | inr (j, q) ↦ elim (hash_index_from_sound h v 0 j x.nodes.attributes [] (rw (← e) q)) [
    | inl old ↦ absurd (no_entry v j old)
    | inr (k, a, jk, g, f) ↦
        let same : k ≡ j = omega arith in
        inl (
          rw (q, find_node_index_by_hash)
            (
              (a, subst (λ n. get_elem? x.nodes.attributes n ≡ some a) same g, f),
              λ k' a' g' f'.
                  let (r, q', l) =
                    hash_index_from_complete h v 0 k' a' x.nodes.attributes [] g' f' in
                  let e' : r ≡ j = ground arith in omega arith,
            ))
  ]
]
