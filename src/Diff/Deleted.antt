-- ===== src/Diff/Deleted.antt =====
-- `ComputeDeleted`: what it reports, and where it reads past the end of the right index.
use mathlib.Core.Bool.{false≢true}
use acbackup.Prelude.{
  ℕ, zero, suc, ◌≤◌, ◌<◌, ◌≡◌, refl, sym, subst, ◌∙◌, dec_le, inl, inr, ◌⊎◌, ◌↔◌, true, false, none,
  some, List, [], ◌∷◌, arith, ok, throw, missing_key, length, get_elem?, get_elem?_of_lt, insert,
  contains, ◌==◌, Bool-cases, Option-cases, All,
}
use acbackup.Node.{FilePath, NodeAttributes, HashAlgorithm}
use acbackup.Index.{
  Index, find_index, find_path, get_node_attributes, get_node_path, has_node_index,
}
use acbackup.Index.WellFormed.{IsWellFormed}
use acbackup.BackupIndex.{BackupNodeIndex, as_file_system_index}
use acbackup.SourceIndex.{Digest}
use acbackup.Diff.{AnyIndex, nodes_of, compute_deleted, compute_diff}
use acbackup.Diff.Changed.{IsUnchanged, After-task, compute_difference_lem}

-- The right index has a node of the same path as node `i` of the left.
pub record HasCounterpart (left right : Index NodeAttributes) (i : ℕ) : Type 0 where
  pub path : FilePath
  pub other : ℕ
  pub left_path : find_path i left.path_map ≡ some path
  pub right_index : find_index path right.path_map ≡ some other

module _ (left right : Index NodeAttributes) (wl : IsWellFormed left) where
  -- One round of the loop: the node has no counterpart and goes in, or it has one.
  abbrev Round : ℕ → List ℕ → List ℕ → Type 0
  Round i is deleted =
      (HasCounterpart left right i
        × ((length right.attributes ≤ i
              → compute_deleted left right (i ∷ is) deleted ≡ throw missing_key)
            × (i < length right.attributes
                → compute_deleted left right (i ∷ is) deleted
                  ≡ compute_deleted left right is deleted)))
      ⊎ (¬ HasCounterpart left right i
          × (compute_deleted left right (i ∷ is) deleted
              ≡ compute_deleted left right is (insert i deleted)))

  out_of_range : {A : Type 0} (xs : List A) (i : ℕ) → length xs ≤ i → get_elem? xs i ≡ none
  out_of_range [] i h = refl
  out_of_range (x ∷ xs) zero h = absurd (omega arith)
  out_of_range (x ∷ xs) (suc i) h = out_of_range xs i (omega arith)

  round : (i : ℕ) (is deleted : List ℕ) → i < length left.attributes → Round i is deleted
  unfolding compute_deleted get_node_path get_node_attributes has_node_index
  round i is deleted h =
      let (p, ep) = wl.named i h in
      let (a, ea) = get_elem?_of_lt left.attributes i h in
      elim (Option-cases (find_index p right.path_map)) [
        | inl miss ↦ inr (
          (λ (c : HasCounterpart left right i). ground (arith, c.left_path, c.right_index)),
          ground arith,
        )
        | inr (j, ej) ↦ inl (
          record { path = p; other = j; left_path = ep; right_index = ej },
          (
            λ b. ground (arith, out_of_range right.attributes i b),
            λ b. ground (arith, get_elem?_of_lt right.attributes i b),
          ),
        )
      ]

  -- For numbers of nodes of a well-formed left index which are also numbers of nodes of the right
  -- index, `ComputeDeleted` returns, and adds to the set exactly those whose path the right index
  -- does not have.
  pub compute_deleted_lem :
      (tasks deleted : List ℕ)
      → All (λ i. i < length left.attributes) tasks
      → All (λ i. i < length right.attributes) tasks
      → (d : List ℕ) × (compute_deleted left right tasks deleted ≡ ok d)
        × ((i : ℕ)
            → (contains i d ≡ true) ↔ (
                (contains i deleted ≡ true)
                ⊎ ((contains i tasks ≡ true) × ¬ HasCounterpart left right i)))
  compute_deleted_lem [] deleted a b =
      unfold compute_deleted in (deleted, refl, λ i. (λ e. inl e, λ e. ground arith))
  compute_deleted_lem (t ∷ ts) deleted a b = elim (round t ts deleted a.0) [
    | inl (c, k) ↦
        let (d, e, h) = compute_deleted_lem ts deleted a.1 b.1 in
        (
          d,
          k.1 b.0 ∙ e,
          λ i.
              After-task (HasCounterpart left right) i t ts deleted d false (λ q. c, λ q. refl)
                (h i),
        )
    | inr (n, k) ↦
        let (d, e, h) = compute_deleted_lem ts (insert t deleted) a.1 b.1 in
        (
          d,
          k ∙ e,
          λ i.
              After-task (HasCounterpart left right) i t ts deleted d true
                (λ q. absurd (false≢true (sym q)), λ q. absurd (n q)) (h i),
        )
  ]

  -- One number beyond the right index whose path the right index has is enough for it to fail.
  compute_deleted_fails :
      (i : ℕ) (tasks deleted : List ℕ)
      → All (λ j. j < length left.attributes) tasks
      → contains i tasks ≡ true
      → HasCounterpart left right i
      → length right.attributes ≤ i
      → compute_deleted left right tasks deleted ≡ throw missing_key
  compute_deleted_fails i [] deleted a m c b = absurd (false≢true m)
  compute_deleted_fails i (t ∷ ts) deleted a m c b = elim (round t ts deleted a.0) [
    | inl (c', k) ↦ elim (dec_le (length right.attributes) t) [
      | yes q ↦ k.0 q
      | no q ↦ k.1 (omega arith) ∙ compute_deleted_fails i ts deleted a.1 (ground arith) c b
    ]
    | inr (n, k) ↦ k ∙ compute_deleted_fails i ts (insert t deleted) a.1 (later n) c b
  ]
    where
      later : ¬ HasCounterpart left right t → contains i ts ≡ true
      later n = elim (Bool-cases (i == t)) [
        | inl e ↦
            let same : i ≡ t = ground arith in absurd (n (subst (HasCounterpart left right) same c))
        | inr f ↦ rw f at m
      ]

All-of_contains : (P : ℕ → Type 0) (xs : List ℕ) → ((i : ℕ) → contains i xs ≡ true → P i) → All P xs
All-of_contains P [] h = tt
All-of_contains P (x ∷ xs) h =
    (h x (ground arith), All-of_contains P xs (λ i e. h i (ground arith)))

-- For two well-formed indexes, where a node of the left index has a number beyond the right index,
-- and the right index has a node of its path but none of its path with the same type, size and
-- time, `ComputeDiff` fails on the access of the right index by that number.
pub compute_diff_fails :
    (h : HashAlgorithm) (digest : Digest) (left : BackupNodeIndex) (right : AnyIndex) (i : ℕ)
    → IsWellFormed (as_file_system_index left.nodes)
    → IsWellFormed (nodes_of right)
    → i < length (as_file_system_index left.nodes).attributes
    → length (nodes_of right).attributes ≤ i
    → HasCounterpart (as_file_system_index left.nodes) (nodes_of right) i
    → ¬ IsUnchanged (as_file_system_index left.nodes) (nodes_of right) i
    → compute_diff h digest left right ≡ throw missing_key
unfolding compute_diff
compute_diff_fails h digest left right i wl wr small beyond c changed =
    let l = as_file_system_index left.nodes in
    let r = nodes_of right in
    let (d, e, m) = compute_difference_lem l r wl wr in
    let (d', e', m') = compute_difference_lem r l wr wl in
    let inside = All-of_contains (λ j. j < length l.attributes) d (λ j q. ((m j).0 q).0) in
    let fails = compute_deleted_fails l r wl i d [] inside ((m i).1 (small, changed)) c beyond in
    rw (e, e', fails)
