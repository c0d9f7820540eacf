-- ===== src/Manager/Verify.antt =====
-- What `VerifySnapshot` reports.
use mathlib.Core.Bool.{false≢true}
use acbackup.Prelude.{
  ℕ, ◌<◌, ◌≡◌, ◌≢◌, refl, subst, ◌↔◌, ◌⊎◌, inl, inr, ◌||◌, not, Bool, true, false, some, String,
  Call, and_then, List, [], ◌∷◌, ◌++◌, arith, ok, length, contains, contains-range_from,
  range_from-All, range_from, ◌==◌, if◌then◌else◌, Bool-cases, All, get_elem?, get_elem?_of_lt,
}
use acbackup.Node.{FilePath, FileType, directory, file, link, HashAlgorithm, BackupNodeAttributes}
use acbackup.Index.{number_of_nodes, get_node_attributes}
use acbackup.Snapshot.{Snapshot, find_data_snapshot}
use acbackup.Snapshot.References.{IsLinked, find_data_snapshot-HoldsData}
use acbackup.Node.Blocks.{Volumes}
use acbackup.Reading.{Delivers}
use acbackup.Backup.{Library}
use acbackup.Backup.Restore.{Task}
use acbackup.Manager.{verify_found, verify_data, verify_type, verify_nodes, verify_snapshot}

contains-append_last :
    (i j : ℕ) (xs : List ℕ) → contains i (xs ++ j ∷ []) ≡ (contains i xs || i == j)
contains-append_last i j [] = ground arith
contains-append_last i j (x ∷ xs) = ground (arith, contains-append_last i j xs)

module _ (library : Library) (hash_algorithm : HashAlgorithm) (delivers : Delivers)
    (files : String → Volumes) (fuel : ℕ) (tasks : ℕ → Task) (s : Snapshot)
    (older : List Snapshot) where
  -- `VerifyNode` of the data of node `i`, at a path of the snapshot that holds it.
  abbrev pub verifies : ℕ → List Snapshot → FilePath → Call Bool
  verifies i found path =
      verify_found library hash_algorithm delivers files fuel (tasks i) found path

  -- `VerifyNode` answers for the data of each file and link, where the search finds it.
  abbrev pub AllAnswer : Type 0
  AllAnswer =
      (i : ℕ) (a : BackupNodeAttributes) (found : List Snapshot) (path : FilePath)
      → get_elem? s.index.attributes i ≡ some a
      → a.base.type ≢ directory
      → find_data_snapshot (s ∷ older) i ≡ ok (found, path)
      → (good : Bool) × (verifies i found path ≡ some (ok good))

  -- Node `i` is a file or link for whose data, in the snapshot that holds it, `VerifyNode` answers
  -- false.
  pub record IsCorrupt (i : ℕ) : Type 0 where
    pub attributes : BackupNodeAttributes
    pub of_node : get_elem? s.index.attributes i ≡ some attributes
    pub has_data : attributes.base.type ≢ directory
    pub found : List Snapshot
    pub path : FilePath
    pub finds : find_data_snapshot (s ∷ older) i ≡ ok (found, path)
    pub unreadable : verifies i found path ≡ some (ok false)

  abbrev Says : ℕ → Bool → Type 0
  Says i b = (b ≡ true) ↔ IsCorrupt i

  step :
      (i t : ℕ) (ts failed d : List ℕ) (b : Bool)
      → Says t b
      → ((contains i d ≡ true) ↔ (
          (contains i (if b then failed ++ t ∷ [] else failed) ≡ true)
          ⊎ ((contains i ts ≡ true) × IsCorrupt i)))
      → ((contains i d ≡ true)
          ↔ ((contains i failed ≡ true) ⊎ ((contains i (t ∷ ts) ≡ true) × IsCorrupt i)))
  step i t ts failed d true task h = elim (Bool-cases (i == t)) [
    | inl e ↦
        let same : t ≡ i = ground arith in
        let bad : IsCorrupt i = subst IsCorrupt same (task.0 refl) in
        (
          λ q. inr (rw e refl, bad),
          λ q. h.1 (inl (ground (arith, contains-append_last i t failed))),
        )
    | inr n ↦ (
      λ q. elim (h.0 q) [
        | inl x ↦ inl (ground (arith, contains-append_last i t failed))
        | inr x ↦ inr (rw n x.0, x.1)
      ],
      λ q. elim q [
        | inl x ↦ h.1 (inl (ground (arith, contains-append_last i t failed)))
        | inr x ↦ h.1 (inr (rw n at x.0, x.1))
      ],
    )
  ]
  step i t ts failed d false task h = elim (Bool-cases (i == t)) [
    | inl e ↦
        let same : i ≡ t = ground arith in
        let good : ¬ IsCorrupt i = λ c. false≢true (task.1 (subst IsCorrupt same c)) in
        (
          λ q. elim (h.0 q) [ inl x ↦ inl x | inr x ↦ absurd (good x.1) ],
          λ q. elim q [ inl x ↦ h.1 (inl x) | inr x ↦ absurd (good x.1) ],
        )
    | inr n ↦ (
      λ q. elim (h.0 q) [ inl x ↦ inl x | inr x ↦ inr (rw n x.0, x.1) ],
      λ q. elim q [ inl x ↦ h.1 (inl x) | inr x ↦ h.1 (inr (rw n at x.0, x.1)) ],
    )
  ]

  module _ (linked : IsLinked (s ∷ older)) (answers : AllAnswer) where
    data-Says :
        (i : ℕ) (a : BackupNodeAttributes)
        → get_elem? s.index.attributes i ≡ some a
        → a.base.type ≢ directory
        → i < length s.index.attributes
        → (b : Bool) × (verify_data library hash_algorithm delivers files fuel
              (tasks i)
              (s ∷ older)
              true
              i
            ≡ some (ok b))
          × Says i b
    unfolding verify_data
    data-Says i a ea n h =
        let (found, path, e, _, _, _) = find_data_snapshot-HoldsData s older i linked h in
        let (good, answer) = answers i a found path ea n e in
        (
          not good,
          rw (e, and_then, answer, and_then) refl,
          (
            λ q. record {
              attributes = a;
              of_node = ea;
              has_data = n;
              found = found;
              path = path;
              finds = e;
              unreadable = ground (arith, answer);
            },
            λ c. ground (arith, c.finds, c.unreadable),
          ),
        )

    type-Says :
        (i : ℕ) (a : BackupNodeAttributes) (t : FileType)
        → get_elem? s.index.attributes i ≡ some a
        → a.base.type ≡ t
        → i < length s.index.attributes
        → (b : Bool) × (verify_type library hash_algorithm delivers files fuel
              (tasks i)
              (s ∷ older)
              true
              i
              t
            ≡ some (ok b))
          × Says i b
    unfolding verify_type
    type-Says i a directory ea et h =
        (false, refl, (λ e. absurd (false≢true e), λ c. ground (arith, c.of_node, c.has_data)))
    type-Says i a file ea et h = data-Says i a ea (λ q. ground arith) h
    type-Says i a link ea et h = data-Says i a ea (λ q. ground arith) h

    verify_nodes_lem :
        (numbers failed : List ℕ)
        → All (λ i. i < length s.index.attributes) numbers
        → (d : List ℕ) × (verify_nodes library hash_algorithm delivers files fuel tasks s older true
              numbers failed
            ≡ some (ok d))
          × ((i : ℕ)
              → (contains i d ≡ true)
                ↔ ((contains i failed ≡ true) ⊎ ((contains i numbers ≡ true) × IsCorrupt i)))
    unfolding verify_nodes get_node_attributes
    verify_nodes_lem [] failed a = (failed, refl, λ i. (λ e. inl e, λ e. ground arith))
    verify_nodes_lem (t ∷ ts) failed a =
        let (x, ex) = get_elem?_of_lt s.index.attributes t a.0 in
        let (b, eb, task) = type-Says t x x.base.type ex refl a.0 in
        let (d, ed, h) = verify_nodes_lem ts (if b then failed ++ t ∷ [] else failed) a.1 in
        (d, rw (ex, and_then, eb, and_then) ed, λ i. step i t ts failed d b task (h i))

    -- For a snapshot whose references all lead into the snapshot before, if `VerifyNode` answers
    -- for the data of each file and link, in the snapshot where the search finds it, then a full
    -- verification returns, and reports exactly the files and links for which it answers false.
    pub verify_snapshot-IsCorrupt :
        (d : List ℕ) × (verify_snapshot library hash_algorithm delivers files fuel tasks s older
            true
          ≡ some (ok d))
        × ((i : ℕ) → (contains i d ≡ true) ↔ ((i < length s.index.attributes) × IsCorrupt i))
    unfolding verify_snapshot number_of_nodes
    verify_snapshot-IsCorrupt =
        let n = length s.index.attributes in
        let (d, e, h) = verify_nodes_lem (range_from 0 n) [] (range_from-All 0 n n (omega arith)) in
        let listed = λ (i : ℕ). contains-range_from i 0 n in
        (
          d,
          e,
          λ i. (
            λ q. elim ((h i).0 q) [
              | inl x ↦ absurd (false≢true x)
              | inr x ↦ (ground (arith, x.0, listed i), x.1)
            ],
            λ q. (h i).1 (inr (ground (arith, q.0, listed i), q.1)),
          ),
        )
