-- ===== src/SourceIndex/Counted.antt =====
-- The status of the search agrees with the index that the walk makes.
use acbackup.Prelude.{
  ℕ, ◌+◌, ◌%◌, ◌^◌, ◌≡◌, refl, sym, ap, ◌∙◌, Bool, true, false, some, List, [], ◌∷◌, ◌++◌, arith,
  if◌then◌else◌, Result, ok, throw, link_points_out_of_index_dir, length, length-append,
  append_assoc, range_from, get_elem?, String, subst,
}
use acbackup.Node.{FilePath, FileInfo, DateTime, NodeAttributes, of_file_info, add_uint64}
use acbackup.Index.{
  Index, add_node, number_of_nodes, get_node_attributes, total_size_from, compute_total_size_all,
}
use acbackup.Status.{begin_process, add_total_size, inc_file_count}
use acbackup.SourceIndex.Filters.{FileOnDisk, ReadLines}
use acbackup.SourceIndex.Walk.{OsFile, Paths, Walk, add_to_walk, index_file}
use acbackup.SourceIndex.Listing.{listed, add_all, index_file_lem}

-- The sum of the sizes, in `uint64`.
sum_sizes : ℕ → List NodeAttributes → ℕ
sum_sizes sum [] = sum
sum_sizes sum (a ∷ as') = sum_sizes (add_uint64 sum a.size) as'

sum_sizes-append :
    (sum : ℕ) (xs : List NodeAttributes) (a : NodeAttributes)
    → sum_sizes sum (xs ++ a ∷ []) ≡ add_uint64 (sum_sizes sum xs) a.size
unfolding sum_sizes
sum_sizes-append sum [] a = refl
sum_sizes-append sum (x ∷ xs) a = sum_sizes-append (add_uint64 sum x.size) xs a

get_elem?-middle :
    (xs ys : List NodeAttributes) (a : NodeAttributes)
    → get_elem? (xs ++ a ∷ ys) (length xs) ≡ some a
get_elem?-middle [] ys a = refl
get_elem?-middle (x ∷ xs) ys a = get_elem?-middle xs ys a

total_size_from_next :
    (x : Index NodeAttributes) (sum i : ℕ) (is : List ℕ) (a : NodeAttributes)
    → get_elem? x.attributes i ≡ some a
    → total_size_from x sum (i ∷ is) ≡ total_size_from x (add_uint64 sum a.size) is
unfolding total_size_from get_node_attributes
total_size_from_next x sum i is a e = rw e refl

total_size_from-rest :
    (x : Index NodeAttributes) (sum : ℕ) (before after : List NodeAttributes)
    → x.attributes ≡ before ++ after
    → total_size_from x sum (range_from (length before) (length after)) ≡ ok (sum_sizes sum after)
unfolding sum_sizes
total_size_from-rest x sum before [] e = unfold total_size_from in refl
total_size_from-rest x sum before (a ∷ after) e =
    let l : length (before ++ a ∷ []) ≡ length before + 1 = length-append before (a ∷ []) in
    total_size_from_next x sum (length before) _ a (rw e (get_elem?-middle before after a))
    ∙ subst
        (λ k.
          total_size_from x (add_uint64 sum a.size) (range_from k (length after))
          ≡ ok (sum_sizes (add_uint64 sum a.size) after))
        l
        (total_size_from-rest x (add_uint64 sum a.size) (before ++ a ∷ []) after
          (e ∙ sym (append_assoc before (a ∷ []) after)))

if_returns :
    (b : Bool) (r : Result Walk) (v w : Walk)
    → r ≡ (if b then ok v else throw link_points_out_of_index_dir)
    → r ≡ ok w
    → v ≡ w
if_returns true r v w e e' = cc
if_returns false r v w e e' = cc

-- The status counts the nodes, and their size.
record IsCounted (w : Walk) : Type 0 where
  counts : w.find_status.n_files ≡ length w.nodes.attributes % 2 ^ 32
  sums : sum_sizes 0 w.nodes.attributes ≡ w.find_status.total_size

module _ (paths : Paths) (read_lines : ReadLines)
    (apple_store_matches apple_double_matches : FileOnDisk → Bool) (base_path : FilePath) where
  add_to_walk-IsCounted :
      (path : FilePath) (info : FileInfo) (w : Walk)
      → IsCounted w
      → IsCounted (
          add_to_walk paths read_lines apple_store_matches apple_double_matches base_path path info
            w)
  unfolding add_to_walk add_node inc_file_count add_total_size
  add_to_walk-IsCounted path info w c =
      let a = of_file_info info in
      record {
        counts = omega (arith, c.counts, length-append w.nodes.attributes (a ∷ []));
        sums = sum_sizes-append 0 w.nodes.attributes a ∙ ap (λ s. add_uint64 s a.size) c.sums;
      }

  add_all-IsCounted :
      (xs : List (FilePath × FileInfo)) (w : Walk)
      → IsCounted w
      → IsCounted (add_all paths read_lines apple_store_matches apple_double_matches base_path xs w)
  unfolding add_all
  add_all-IsCounted [] w c = c
  add_all-IsCounted ((p, i) ∷ xs) w c = add_all-IsCounted xs _ (add_to_walk-IsCounted p i w c)

  -- If the walk over the source returns an index, the status of the search shows its total size, as
  -- `ComputeTotalSize` computes it from the index, and its number of nodes in `uint32`.
  pub index_file-compute_total_size :
      (path : FilePath) (f : OsFile) (title : String) (now : DateTime) (speed last duration : ℕ)
      (w : Walk)
      → index_file paths read_lines apple_store_matches apple_double_matches base_path path f
          (record {
            nodes = record { attributes = []; path_map = [] };
            find_status = begin_process title now speed last duration;
          })
        ≡ ok w
      → (compute_total_size_all w.nodes ≡ ok w.find_status.total_size)
        × (w.find_status.n_files ≡ number_of_nodes w.nodes % 2 ^ 32)
  unfolding begin_process sum_sizes compute_total_size_all number_of_nodes
  index_file-compute_total_size path f title now speed last duration w e =
      let start : Walk = record {
        nodes = record { attributes = []; path_map = [] };
        find_status = begin_process title now speed last duration;
      } in
      let all = listed paths read_lines apple_store_matches apple_double_matches base_path path f in
      let c : IsCounted
          (add_all paths read_lines apple_store_matches apple_double_matches base_path all start) =
        add_all-IsCounted all start (record { counts = refl; sums = refl }) in
      let lem =
        index_file_lem paths read_lines apple_store_matches apple_double_matches base_path path f
          start in
      let same = if_returns _ _ _ w lem e in
      let c' = subst IsCounted same c in
      (
        total_size_from-rest w.nodes 0 [] w.nodes.attributes refl ∙ ap (λ s. ok s) c'.sums,
        c'.counts,
      )
