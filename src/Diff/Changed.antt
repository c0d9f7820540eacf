-- ===== src/Diff/Changed.antt =====
-- Which nodes `ComputeDifference` reports.
use mathlib.Core.Bool.{false≢true}
use acbackup.Prelude.{
  ℕ, ◌<◌, ◌≡◌, refl, sym, subst, inl, inr, ◌⊎◌, ◌↔◌, Bool, true, false, not, some, List, [], ◌∷◌,
  arith, ok, length, get_elem?, get_elem?_of_lt, insert, contains, contains-insert,
  contains-range_from, range_from-All, range_from, ◌==◌, if◌then◌else◌, Bool-cases, Option-cases,
  All,
}
use acbackup.Node.{FilePath, NodeAttributes, same_attributes, FileType_discrete, Time_discrete}
use acbackup.Index.{
  Index, find_index, find_path, number_of_nodes, get_node_attributes, get_node_index, get_node_path,
  has_node_index,
}
use acbackup.Index.WellFormed.{IsWellFormed}
use acbackup.Diff.{differs, run_difference_tasks, compute_difference}

-- What `operator==` says: the type, the size and the time are the same.
abbrev AreSame : NodeAttributes → NodeAttributes → Type 0
AreSame a b = (a.type ≡ b.type) × (a.size ≡ b.size) × (a.last_modified_time ≡ b.last_modified_time)

same_attributes-AreSame : (a b : NodeAttributes) → (same_attributes a b ≡ true) ↔ AreSame a b
unfolding same_attributes
same_attributes-AreSame a b = elim (FileType_discrete a.type b.type) [
  | no n ↦ (λ e. absurd (ground arith), λ s. absurd (n s.0))
  | yes t ↦ elim (Time_discrete a.last_modified_time b.last_modified_time) [
    | no n ↦ (λ e. absurd (ground arith), λ s. absurd (n s.2))
    | yes u ↦ (λ e. (t, ground arith, u), λ s. ground (arith, s.1))
  ]
]

-- The right index has a node of the same path with the same type, size and time.
pub record IsUnchanged (left right : Index NodeAttributes) (i : ℕ) : Type 0 where
  pub path : FilePath
  pub other : ℕ
  pub a : NodeAttributes
  pub b : NodeAttributes
  pub left_path : find_path i left.path_map ≡ some path
  pub right_path : find_path other right.path_map ≡ some path
  pub left_attributes : get_elem? left.attributes i ≡ some a
  pub right_attributes : get_elem? right.attributes other ≡ some b
  pub same_type : a.type ≡ b.type
  pub same_size : a.size ≡ b.size
  pub same_time : a.last_modified_time ≡ b.last_modified_time

-- A set after one task, and after the tasks that follow, for any property `U` that leaves a node out.
module _ (U : ℕ → Type 0) (i t : ℕ) (ts diff d : List ℕ) where
  abbrev After : List ℕ → List ℕ → Type 0
  After tasks before =
      (contains i d ≡ true) ↔ ((contains i before ≡ true) ⊎ ((contains i tasks ≡ true) × ¬ U i))

  pub After-task :
      (b : Bool)
      → ((b ≡ false) ↔ U t)
      → After ts (if b then insert t diff else diff)
      → After (t ∷ ts) diff
  After-task false decides h = elim (Bool-cases (i == t)) [
    | inl e ↦
        let same : t ≡ i = ground arith in
        let out : U i = subst U same (decides.0 refl) in
        (
          λ q. elim (h.0 q) [ inl x ↦ inl x | inr x ↦ absurd (x.1 out) ],
          λ q. elim q [ inl x ↦ h.1 (inl x) | inr x ↦ absurd (x.1 out) ],
        )
    | inr n ↦ (
      λ q. elim (h.0 q) [ inl x ↦ inl x | inr x ↦ inr (rw n x.0, x.1) ],
      λ q. elim q [ inl x ↦ h.1 (inl x) | inr x ↦ h.1 (inr (rw n at x.0, x.1)) ],
    )
  ]
  After-task true decides h = elim (Bool-cases (i == t)) [
    | inl e ↦
        let same : i ≡ t = ground arith in
        (
          λ q. inr (rw e refl, λ u. false≢true (sym (decides.1 (subst U same u)))),
          λ q. h.1 (inl (rw (contains-insert i t diff, e) refl)),
        )
    | inr n ↦ (
      λ q. elim (h.0 q) [
        | inl x ↦ inl (rw n at (rw (contains-insert i t diff) at x))
        | inr x ↦ inr (rw n x.0, x.1)
      ],
      λ q. elim q [
        | inl x ↦ h.1 (inl (rw (contains-insert i t diff, n) x))
        | inr x ↦ h.1 (inr (rw n at x.0, x.1))
      ],
    )
  ]

module _ (left right : Index NodeAttributes) (wl : IsWellFormed left)
    (wr : IsWellFormed right) where
  IsUnchanged-false :
      (i j : ℕ) (p : FilePath) (a b : NodeAttributes)
      → find_path i left.path_map ≡ some p
      → get_elem? left.attributes i ≡ some a
      → find_index p right.path_map ≡ some j
      → get_elem? right.attributes j ≡ some b
      → (not (same_attributes a b) ≡ false) ↔ IsUnchanged left right i
  IsUnchanged-false i j p a b ep ea ej eb = (
    λ e.
        let s = (same_attributes-AreSame a b).0 (ground arith) in
        record {
          path = p;
          other = j;
          a = a;
          b = b;
          left_path = ep;
          right_path = wr.to_path p j ej;
          left_attributes = ea;
          right_attributes = eb;
          same_type = s.0;
          same_size = s.1;
          same_time = s.2;
        },
    λ u. ground (
      arith,
      u.left_path,
      u.left_attributes,
      u.right_attributes,
      (same_attributes-AreSame u.a u.b).1 (u.same_type, u.same_size, u.same_time),
      wr.to_index u.other u.path u.right_path,
    ),
  )

  -- The task for a node of the left index returns, and leaves the node out exactly if the right
  -- index has the same.
  differs_lem :
      (i : ℕ)
      → i < length left.attributes
      → (b : Bool) × (differs left right i ≡ ok b) × ((b ≡ false) ↔ IsUnchanged left right i)
  unfolding differs get_node_path get_node_attributes has_node_index get_node_index
  differs_lem i h =
      let (p, ep) = wl.named i h in
      let (a, ea) = get_elem?_of_lt left.attributes i h in
      elim (Option-cases (find_index p right.path_map)) [
        | inl none_there ↦ (
          true,
          ground arith,
          (λ e. cc, λ u. ground (arith, u.left_path, wr.to_index u.other u.path u.right_path)),
        )
        | inr (j, ej) ↦
            let (b, eb) = get_elem?_of_lt right.attributes j (wr.bounded j p (wr.to_path p j ej)) in
            (not (same_attributes a b), ground arith, IsUnchanged-false i j p a b ep ea ej eb)
      ]

  -- The tasks, in whatever order they run, add the nodes that differ.
  run_difference_tasks_lem :
      (tasks diff : List ℕ)
      → All (λ i. i < length left.attributes) tasks
      → (d : List ℕ) × (run_difference_tasks left right tasks diff ≡ ok d)
        × ((i : ℕ)
            → (contains i d ≡ true) ↔ (
                (contains i diff ≡ true)
                ⊎ ((contains i tasks ≡ true) × ¬ IsUnchanged left right i)))
  unfolding run_difference_tasks
  run_difference_tasks_lem [] diff a = (diff, refl, λ i. (λ e. inl e, λ e. ground arith))
  run_difference_tasks_lem (t ∷ ts) diff a =
      let (b, e, decides) = differs_lem t a.0 in
      let (d, e', h) = run_difference_tasks_lem ts (if b then insert t diff else diff) a.1 in
      (d, rw (e, e'), λ i. After-task (IsUnchanged left right) i t ts diff d b decides (h i))

  -- `ComputeDifference` of two well-formed indexes returns, and holds exactly the numbers of the
  -- left nodes for which the right index has no node of the same path with the same type, size and
  -- time.
  pub compute_difference_lem :
      (d : List ℕ) × (compute_difference left right ≡ ok d)
      × ((i : ℕ)
          → (contains i d ≡ true) ↔ ((i < length left.attributes) × ¬ IsUnchanged left right i))
  unfolding compute_difference number_of_nodes
  compute_difference_lem =
      let n = length left.attributes in
      let (d, e, h) =
        run_difference_tasks_lem (range_from 0 n) [] (range_from-All 0 n n (omega arith)) in
      let listed = λ (i : ℕ). contains-range_from i 0 n in
      (
        d,
        e,
        λ i. (
          λ q. elim ((h i).0 q) [
            | inl x ↦ absurd (false≢true x)
            | inr x ↦ (ground (arith, x.0, listed i), x.1)
          ],
          λ q. (h i).1 (inr (ground (arith, q.0, listed i), q.1)),
        ),
      )
