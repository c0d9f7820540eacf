-- ===== src/SourceIndex/Listing.antt =====
-- The walk adds the nodes of a listing, and counts them.
use acbackup.Prelude.{
  ◌≡◌, refl, sym, ap, ◌∙◌, Bool, true, false, ◌&&◌, List, [], ◌∷◌, ◌++◌, if◌then◌else◌, Result, ok,
  throw, link_points_out_of_index_dir, ◌>>=◌, Bool-cases, inl, inr,
}
use acbackup.Node.{FilePath, FileType, directory, file, link, FileInfo}
use acbackup.SourceIndex.Filters.{FileOnDisk, ReadLines}
use acbackup.SourceIndex.Walk.{
  OsFile, OsChildren, os_file, no_more, child, Paths, Walk, should_file_be_indexed, points_inside,
  admits, add_to_walk, index_file, index_by_type, index_directory_children,
}

module _ (paths : Paths) (read_lines : ReadLines)
    (apple_store_matches apple_double_matches : FileOnDisk → Bool) (base_path : FilePath) where
  abbrev indexed : FileOnDisk → Bool
  indexed =
      should_file_be_indexed paths read_lines apple_store_matches apple_double_matches base_path

  abbrev inside : FilePath → FilePath → Bool
  inside = points_inside paths read_lines apple_store_matches apple_double_matches base_path

  abbrev added : FilePath → FileInfo → Walk → Walk
  added = add_to_walk paths read_lines apple_store_matches apple_double_matches base_path

  abbrev indexes : FilePath → OsFile → Walk → Result Walk
  indexes = index_file paths read_lines apple_store_matches apple_double_matches base_path

  abbrev indexes_children : FilePath → OsChildren → Walk → Result Walk
  indexes_children =
      index_directory_children paths read_lines apple_store_matches apple_double_matches base_path

  unfoldable pub listed_by_type :
      FileType
      → FilePath
      → FileInfo
      → FileOnDisk
      → List (FilePath × FileInfo)
      → List (FilePath × FileInfo)
  listed_by_type directory path info f below = (path, info) ∷ below
  listed_by_type file path info f below = if indexed f then (path, info) ∷ [] else []
  listed_by_type link path info f below = (path, info) ∷ []

  -- A directory, the files below it that no filter matches, and the links, from the top down.
  unfoldable mutual
    unfolding listed_by_type

    pub listed : FilePath → OsFile → List (FilePath × FileInfo)
    listed path (os_file info f target cs) =
        listed_by_type info.type path info f (listed_children path cs)

    pub listed_children : FilePath → OsChildren → List (FilePath × FileInfo)
    listed_children path no_more = []
    listed_children path (child name f cs) =
        listed (paths.join path name) f ++ listed_children path cs

  unfoldable pub links_inside_by_type : FileType → FilePath → FilePath → Bool → Bool
  links_inside_by_type directory path target below = below
  links_inside_by_type file path target below = true
  links_inside_by_type link path target below = inside path target

  -- Every link points inside.
  unfoldable mutual
    unfolding links_inside_by_type

    pub links_inside : FilePath → OsFile → Bool
    links_inside path (os_file info f target cs) =
        links_inside_by_type info.type path target (children_links_inside path cs)

    pub children_links_inside : FilePath → OsChildren → Bool
    children_links_inside path no_more = true
    children_links_inside path (child name f cs) =
        links_inside (paths.join path name) f && children_links_inside path cs

  unfoldable pub add_all : List (FilePath × FileInfo) → Walk → Walk
  add_all [] w = w
  add_all ((p, i) ∷ xs) w = add_all xs (added p i w)

  add_all-append :
      (xs ys : List (FilePath × FileInfo)) (w : Walk)
      → add_all (xs ++ ys) w ≡ add_all ys (add_all xs w)
  unfolding add_all
  add_all-append [] ys w = refl
  add_all-append ((p, i) ∷ xs) ys w = add_all-append xs ys (added p i w)

  -- The result of the walk.
  abbrev outcome : Bool → Walk → Result Walk
  outcome true w = ok w
  outcome false w = throw link_points_out_of_index_dir

  outcome_then :
      (b c : Bool) (w v : Walk) (f : Walk → Result Walk)
      → f w ≡ outcome c v
      → (outcome b w >>= f) ≡ outcome (b && c) v
  outcome_then true c w v f e = e
  outcome_then false c w v f e = refl

  index_by_type_lem :
      (type : FileType) (path : FilePath) (info : FileInfo) (f : FileOnDisk) (target : FilePath)
      (children : Walk → Result Walk) (below : List (FilePath × FileInfo)) (good : Bool) (w : Walk)
      → ((v : Walk) → children v ≡ outcome good (add_all below v))
      → index_by_type paths read_lines apple_store_matches apple_double_matches base_path type path
          info f target children w
        ≡ outcome
            (links_inside_by_type type path target good)
            (add_all (listed_by_type type path info f below) w)
  unfolding index_by_type admits links_inside_by_type listed_by_type add_all
  index_by_type_lem directory path info f target children below good w e = e (added path info w)
  index_by_type_lem file path info f target children below good w e =
      elim (Bool-cases (indexed f)) [ inl q ↦ rw q refl | inr q ↦ rw q refl ]
  index_by_type_lem link path info f target children below good w e =
      elim (Bool-cases (inside path target)) [ inl q ↦ rw q refl | inr q ↦ rw q refl ]

  children_then :
      (path : FilePath) (name : FilePath) (f : OsFile) (cs : OsChildren) (w : Walk)
      → indexes (paths.join path name) f w
        ≡ outcome
            (links_inside (paths.join path name) f)
            (add_all (listed (paths.join path name) f) w)
      → ((v : Walk)
          → indexes_children path cs v
            ≡ outcome (children_links_inside path cs) (add_all (listed_children path cs) v))
      → indexes_children path (child name f cs) w
        ≡ outcome
            (children_links_inside path (child name f cs))
            (add_all (listed_children path (child name f cs)) w)
  unfolding links_inside listed index_file
  children_then path name f cs w first others =
      let v = add_all (listed (paths.join path name) f) w in
      ap (λ r. r >>= (λ u. indexes_children path cs u)) first
      ∙ outcome_then (links_inside (paths.join path name) f) (children_links_inside path cs) v
          (add_all (listed_children path cs) v) (λ u. indexes_children path cs u) (others v)
      ∙ ap (outcome (links_inside (paths.join path name) f && children_links_inside path cs))
          (sym (add_all-append (listed (paths.join path name) f) (listed_children path cs) w))

  mutual
    unfolding links_inside listed index_file add_all

    index_file_outcome :
        (path : FilePath) (f : OsFile) (w : Walk)
        → indexes path f w ≡ outcome (links_inside path f) (add_all (listed path f) w)
    index_file_outcome path (os_file info f target cs) w =
        index_by_type_lem info.type path info f target (λ v. indexes_children path cs v)
          (listed_children path cs) (children_links_inside path cs) w
          (λ v. children_outcome path cs v)

    children_outcome :
        (path : FilePath) (cs : OsChildren) (w : Walk)
        → indexes_children path cs w
          ≡ outcome (children_links_inside path cs) (add_all (listed_children path cs) w)
    children_outcome path no_more w = refl
    children_outcome path (child name f cs) w =
        children_then path name f cs w (index_file_outcome (paths.join path name) f w)
          (λ v. children_outcome path cs v)

  -- `IndexFile` adds exactly the nodes of a listing of the directory, from the top down: each
  -- directory, each file that no filter matches and each link. If a link among them points outside
  -- of the base path, it throws.
  pub index_file_lem :
      (path : FilePath) (f : OsFile) (w : Walk)
      → indexes path f w ≡ (
          if links_inside path f
          then ok (add_all (listed path f) w)
          else throw link_points_out_of_index_dir)
  index_file_lem path f w = index_file_outcome path f w ∙ by_cases (links_inside path f)
    where
      by_cases :
          (b : Bool)
          → outcome b (add_all (listed path f) w)
            ≡ (if b then ok (add_all (listed path f) w) else throw link_points_out_of_index_dir)
      by_cases true = refl
      by_cases false = refl
