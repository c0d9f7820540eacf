-- ===== src/SourceIndex/Entries.antt =====
-- What the walk over the directory adds, as a choice from all of its entries.
use Prim.Native.String.{◌++◌ as str_append}
use acbackup.Prelude.{
  ◌≡◌, refl, sym, ap, ap₂, ◌∙◌, Bool, true, false, ◌||◌, not, List, [], ◌∷◌, ◌++◌, if◌then◌else◌,
  ok, throw, link_points_out_of_index_dir, Bool-cases, arith, inl, inr,
}
use acbackup.Node.{FilePath, FileType, directory, file, link, FileInfo}
use acbackup.SourceIndex.Filters.{FileOnDisk, ReadLines, desktop_ini_matches, thumbs_db_matches}
use acbackup.SourceIndex.Walk.{
  OsFile, OsChildren, os_file, no_more, child, Paths, Walk, should_file_be_indexed, points_inside,
  map_node_path, index_file,
}
use acbackup.SourceIndex.Listing.{
  listed_by_type, listed, listed_children, links_inside_by_type, links_inside,
  children_links_inside, add_all, index_file_lem,
}

-- A file of the directory, with its path below it.
pub record Entry : Type 0 where
  pub path : FilePath
  pub info : FileInfo
  pub on_disk : FileOnDisk
  pub target : FilePath

-- Some filter of the list matches.
unfoldable pub matches_any : List (FileOnDisk → Bool) → FileOnDisk → Bool
matches_any [] f = false
matches_any (m ∷ ms) f = m f || matches_any ms f

module _ (paths : Paths) (read_lines : ReadLines)
    (apple_store_matches apple_double_matches : FileOnDisk → Bool) (base_path : FilePath) where
  unfoldable below : FileType → List Entry → List Entry
  below directory es = es
  below file es = []
  below link es = []

  -- All entries, from the top down. Only directories have others below them.
  unfoldable mutual
    unfolding below

    pub entries : FilePath → OsFile → List Entry
    entries path (os_file info f target cs) =
        record { path = path; info = info; on_disk = f; target = target }
        ∷ below info.type (entries_below path cs)

    pub entries_below : FilePath → OsChildren → List Entry
    entries_below path no_more = []
    entries_below path (child name f cs) = entries (paths.join path name) f ++ entries_below path cs

  -- The four filters.
  abbrev pub filters : List (FileOnDisk → Bool)
  filters =
      apple_store_matches
      ∷ apple_double_matches
      ∷ desktop_ini_matches read_lines
      ∷ thumbs_db_matches
      ∷ []

  -- A file that a filter matches is left out.
  unfoldable pub is_left_out : Entry → Bool
  is_left_out e = elim e.info.type [ file ↦ matches_any filters e.on_disk | _ ↦ false ]

  -- Where a link leads: a relative target is taken from the directory of the link.
  unfoldable pub leads_to : Entry → FilePath
  leads_to e = elim (paths.is_relative e.target) [
    | true ↦ str_append base_path (paths.join (paths.get_parent e.path) e.target)
    | false ↦ e.target
  ]

  unfoldable pub leads_outside : Entry → Bool
  unfolding leads_to
  leads_outside e = elim e.info.type [
    | link ↦ not (paths.is_parent_of base_path (leads_to e))
    | _ ↦ false
  ]

  -- The entries that are not left out.
  unfoldable pub kept : List Entry → List (FilePath × FileInfo)
  unfolding is_left_out
  kept [] = []
  kept (e ∷ es) = if is_left_out e then kept es else (e.path, e.info) ∷ kept es

  -- Some link leads outside.
  unfoldable pub any_outside : List Entry → Bool
  unfolding leads_outside
  any_outside [] = false
  any_outside (e ∷ es) = leads_outside e || any_outside es

  kept-append : (xs ys : List Entry) → kept (xs ++ ys) ≡ kept xs ++ kept ys
  unfolding kept
  kept-append [] ys = refl
  kept-append (x ∷ xs) ys = elim (Bool-cases (is_left_out x)) [
    | inl t ↦ rw t (kept-append xs ys)
    | inr f ↦ rw f (ap (λ k. (x.path, x.info) ∷ k) (kept-append xs ys))
  ]

  any_outside-append :
      (xs ys : List Entry) → any_outside (xs ++ ys) ≡ (any_outside xs || any_outside ys)
  unfolding any_outside
  any_outside-append [] ys = refl
  any_outside-append (x ∷ xs) ys = ground (arith, any_outside-append xs ys)

  abbrev indexed : FileOnDisk → Bool
  indexed =
      should_file_be_indexed paths read_lines apple_store_matches apple_double_matches base_path

  indexed_lem : (f : FileOnDisk) → indexed f ≡ not (matches_any filters f)
  unfolding should_file_be_indexed matches_any
  indexed_lem f = ground arith

  abbrev inside : FilePath → FilePath → Bool
  inside = points_inside paths read_lines apple_store_matches apple_double_matches base_path

  inside_lem : (e : Entry) → inside e.path e.target ≡ paths.is_parent_of base_path (leads_to e)
  unfolding points_inside map_node_path leads_to
  inside_lem e = elim (Bool-cases (paths.is_relative e.target)) [
    | inl t ↦ rw (points_inside, map_node_path, leads_to, t) refl
    | inr f ↦ rw (points_inside, map_node_path, leads_to, f) refl
  ]

  abbrev lists : FilePath → OsFile → List (FilePath × FileInfo)
  lists = listed paths read_lines apple_store_matches apple_double_matches base_path

  abbrev lists_below : FilePath → OsChildren → List (FilePath × FileInfo)
  lists_below = listed_children paths read_lines apple_store_matches apple_double_matches base_path

  listed_by_type-kept :
      (e : Entry) (t : FileType) (es : List Entry)
      → e.info.type ≡ t
      → listed_by_type paths read_lines apple_store_matches apple_double_matches base_path t e.path
          e.info e.on_disk
          (kept es)
        ≡ kept (e ∷ below t es)
  unfolding listed_by_type kept below is_left_out
  listed_by_type-kept e directory es q = rw q refl
  listed_by_type-kept e file es q = elim (Bool-cases (matches_any filters e.on_disk)) [
    | inl m ↦ rw (q, m, indexed_lem e.on_disk, m) refl
    | inr m ↦ rw (q, m, indexed_lem e.on_disk, m) refl
  ]
  listed_by_type-kept e link es q = rw q refl

  mutual
    unfolding listed entries kept

    listed-kept : (path : FilePath) (f : OsFile) → lists path f ≡ kept (entries path f)
    listed-kept path (os_file info f target cs) = rw (listed_children-kept path cs) (
        listed_by_type-kept (record { path = path; info = info; on_disk = f; target = target })
          info.type (entries_below path cs) refl)

    listed_children-kept :
        (path : FilePath) (cs : OsChildren) → lists_below path cs ≡ kept (entries_below path cs)
    listed_children-kept path no_more = refl
    listed_children-kept path (child name f cs) =
        ap₂ (λ xs ys. xs ++ ys) (listed-kept (paths.join path name) f)
          (listed_children-kept path cs)
        ∙ sym (kept-append (entries (paths.join path name) f) (entries_below path cs))

  abbrev all_inside : FilePath → OsFile → Bool
  all_inside = links_inside paths read_lines apple_store_matches apple_double_matches base_path

  abbrev all_inside_below : FilePath → OsChildren → Bool
  all_inside_below =
      children_links_inside paths read_lines apple_store_matches apple_double_matches base_path

  links_inside_by_type_lem :
      (e : Entry) (t : FileType) (es : List Entry)
      → e.info.type ≡ t
      → links_inside_by_type paths read_lines apple_store_matches apple_double_matches base_path t
          e.path e.target
          (not (any_outside es))
        ≡ not (any_outside (e ∷ below t es))
  unfolding links_inside_by_type any_outside below leads_outside
  links_inside_by_type_lem e directory es q = rw q refl
  links_inside_by_type_lem e file es q = rw q refl
  links_inside_by_type_lem e link es q = rw (q, inside_lem e) (ground arith)

  mutual
    unfolding links_inside entries any_outside

    links_inside_lem :
        (path : FilePath) (f : OsFile) → all_inside path f ≡ not (any_outside (entries path f))
    links_inside_lem path (os_file info f target cs) = rw (children_links_inside_lem path cs) (
        links_inside_by_type_lem (record { path = path; info = info; on_disk = f; target = target })
          info.type (entries_below path cs) refl)

    children_links_inside_lem :
        (path : FilePath) (cs : OsChildren)
        → all_inside_below path cs ≡ not (any_outside (entries_below path cs))
    children_links_inside_lem path no_more = refl
    children_links_inside_lem path (child name f cs) = ground (
      arith,
      links_inside_lem (paths.join path name) f,
      children_links_inside_lem path cs,
      any_outside-append (entries (paths.join path name) f) (entries_below path cs),
    )

  -- The entries of a directory are all files below it, from the top down. If some link among them
  -- leads outside of the base path, `IndexFile` throws; a relative target is taken from the
  -- directory of the link. Otherwise it adds exactly the entries that are not left out, in their
  -- order: those left out are the files that one of the four filters matches.
  pub index_file-entries :
      (path : FilePath) (f : OsFile) (w : Walk)
      → index_file paths read_lines apple_store_matches apple_double_matches base_path path f w ≡ (
          if any_outside (entries path f)
          then throw link_points_out_of_index_dir
          else ok (
              add_all paths read_lines apple_store_matches apple_double_matches base_path
                (kept (entries path f))
                w))
  index_file-entries path f w =
      index_file_lem paths read_lines apple_store_matches apple_double_matches base_path path f w
      ∙ rw (links_inside_lem path f, listed-kept path f) (by_cases _ (any_outside (entries path f)))
    where
      by_cases :
          (v : Walk) (b : Bool)
          → (if not b then ok v else throw link_points_out_of_index_dir)
            ≡ (if b then throw link_points_out_of_index_dir else ok v)
      by_cases v true = refl
      by_cases v false = refl
