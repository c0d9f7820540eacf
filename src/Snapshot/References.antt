-- ===== src/Snapshot/References.antt =====
-- The chain of snapshots: where every reference leads to data.
use acbackup.Prelude.{
  ℕ, ◌<◌, ◌≡◌, refl, ◌∙◌, inl, inr, true, false, none, some, List, [], ◌∷◌, ◌++◌, ap, arith, ok,
  ◌>>=◌, length, get_elem?, get_elem?_of_lt, Bool-cases, Option-cases,
}
use acbackup.Node.{FilePath, BackupNodeAttributes}
use acbackup.Index.{find_index, find_path, get_node_attributes, get_node_index, get_node_path}
use acbackup.Index.WellFormed.{IsWellFormed}
use acbackup.BackupIndex.{has_node_data}
use acbackup.Snapshot.{Snapshot, find_data_snapshot, index_in_previous}

-- The path by which a node without data is looked up in the snapshot before.
abbrev pub reference : BackupNodeAttributes → FilePath → FilePath
reference a own = elim a.back_reference_target [ some p ↦ p | none ↦ own ]

-- Every node without data has its reference in the snapshot before.
abbrev pub AllReferred : Snapshot → List Snapshot → Type 0
AllReferred s older =
    (i : ℕ) (a : BackupNodeAttributes) (p : FilePath)
    → get_elem? s.index.attributes i ≡ some a
    → find_path i s.index.path_map ≡ some p
    → has_node_data a ≡ false
    → (j : ℕ) × (index_in_previous older (reference a p) ≡ ok j)

abbrev pub IsLinked : List Snapshot → Type 0
IsLinked [] = Unit {0}
IsLinked (s ∷ older) = IsWellFormed s.index × AllReferred s older × IsLinked older

-- One step of `FindDataSnapshot`.
module _ (s : Snapshot) (older : List Snapshot) (i : ℕ) (a : BackupNodeAttributes) (p : FilePath)
    (ea : get_elem? s.index.attributes i ≡ some a)
    (ep : find_path i s.index.path_map ≡ some p) where
  find_data_snapshot_here :
      has_node_data a ≡ true → find_data_snapshot (s ∷ older) i ≡ ok (s ∷ older, p)
  unfolding find_data_snapshot get_node_attributes get_node_path
  find_data_snapshot_here d = rw (ea, d, ep)

  pub find_data_snapshot_before :
      has_node_data a ≡ false
      → find_data_snapshot (s ∷ older) i
        ≡ (index_in_previous older (reference a p) >>= λ j. find_data_snapshot older j)
  unfolding find_data_snapshot get_node_attributes get_node_path
  find_data_snapshot_before d = elim (Option-cases a.back_reference_target) [
    | inl n ↦ ground arith
    | inr (q, e) ↦ ground arith
  ]

-- The node at the path in the first snapshot of the list has data.
pub record HoldsData (found : List Snapshot) (p : FilePath) : Type 0 where
  pub snapshot : Snapshot
  pub older : List Snapshot
  pub first : found ≡ snapshot ∷ older
  pub node : ℕ
  pub attributes : BackupNodeAttributes
  pub at_path : find_index p snapshot.index.path_map ≡ some node
  pub of_node : get_elem? snapshot.index.attributes node ≡ some attributes
  pub data_there : has_node_data attributes ≡ true

holds_here :
    (s : Snapshot) (older : List Snapshot) (i : ℕ) (a : BackupNodeAttributes) (p : FilePath)
    → IsWellFormed s.index
    → get_elem? s.index.attributes i ≡ some a
    → find_path i s.index.path_map ≡ some p
    → has_node_data a ≡ true
    → HoldsData (s ∷ older) p
holds_here s older i a p w ea ep d = record {
  snapshot = s;
  older = older;
  first = refl;
  node = i;
  attributes = a;
  at_path = w.to_index i p ep;
  of_node = ea;
  data_there = d;
}

index_bound :
    (s : Snapshot) (j : ℕ) (p : FilePath)
    → IsWellFormed s.index
    → get_node_index s.index p ≡ ok j
    → j < length s.index.attributes
unfolding get_node_index
index_bound s j p w e = elim (Option-cases (find_index p s.index.path_map)) [
  | inl n ↦ absurd (ground arith)
  | inr (k, q) ↦ let same : k ≡ j = ground arith in rw (← same) (w.bounded k p (w.to_path p k q))
]

-- Where the references lead: from a node with data nowhere else, and from one without to the node of
-- its reference in the snapshot before.
pub data LeadsTo : List Snapshot → ℕ → List Snapshot → FilePath → Type 0 where
  has_data :
      {s : Snapshot} {older : List Snapshot} {i : ℕ} {a : BackupNodeAttributes} {p : FilePath}
      → get_elem? s.index.attributes i ≡ some a
      → find_path i s.index.path_map ≡ some p
      → has_node_data a ≡ true
      → LeadsTo (s ∷ older) i (s ∷ older) p
  refers :
      {s : Snapshot} {older found : List Snapshot} {i j : ℕ} {a : BackupNodeAttributes}
      {p q : FilePath}
      → get_elem? s.index.attributes i ≡ some a
      → find_path i s.index.path_map ≡ some p
      → has_node_data a ≡ false
      → index_in_previous older (reference a p) ≡ ok j
      → LeadsTo older j found q
      → LeadsTo (s ∷ older) i found q

-- In a chain whose references all lead into the snapshot before, `FindDataSnapshot` returns for
-- every node of the newest snapshot. What it finds is where the references lead: the snapshot is
-- one of the chain, with those that stand before it there, and the path is that of a node there
-- which has data.
pub find_data_snapshot-HoldsData :
    (s : Snapshot) (older : List Snapshot) (i : ℕ)
    → IsLinked (s ∷ older)
    → i < length s.index.attributes
    → (found : List Snapshot) × (p : FilePath) × (find_data_snapshot (s ∷ older) i ≡ ok (found, p))
      × HoldsData found p
      × LeadsTo (s ∷ older) i found p
      × ((newer : List Snapshot) × (newer ++ found ≡ s ∷ older))
find_data_snapshot-HoldsData s [] i l b =
    let (p, ep) = l.0.named i b in
    let (a, ea) = get_elem?_of_lt s.index.attributes i b in
    elim (Bool-cases (has_node_data a)) [
      | inl d ↦ (
        s ∷ [],
        p,
        find_data_snapshot_here s [] i a p ea ep d,
        holds_here s [] i a p l.0 ea ep d,
        has_data ea ep d,
        ([], refl),
      )
      | inr n ↦ let (j, e) = l.1 i a p ea ep n in absurd (ground arith)
    ]
find_data_snapshot-HoldsData s (t ∷ rest) i l b =
    let (p, ep) = l.0.named i b in
    let (a, ea) = get_elem?_of_lt s.index.attributes i b in
    elim (Bool-cases (has_node_data a)) [
      | inl d ↦ (
        s ∷ t ∷ rest,
        p,
        find_data_snapshot_here s (t ∷ rest) i a p ea ep d,
        holds_here s (t ∷ rest) i a p l.0 ea ep d,
        has_data ea ep d,
        ([], refl),
      )
      | inr n ↦
          let (j, e) = l.1 i a p ea ep n in
          let (found, q, e', h, leads, (newer, parts)) =
            find_data_snapshot-HoldsData t rest j l.2 (index_bound t j (reference a p) l.2.0 e) in
          (
            found,
            q,
            find_data_snapshot_before s (t ∷ rest) i a p ea ep n ∙ (rw e e'),
            h,
            refers ea ep n e leads,
            (s ∷ newer, ap (λ c. s ∷ c) parts),
          )
    ]
