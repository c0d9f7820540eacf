-- ===== src/Tests/Walks.antt =====
-- A directory with a file and a link.
use acbackup.Prelude.{
  ℕ, ◌%◌, ◌^◌, ◌≡◌, refl, Bool, true, false, none, [], ◌∷◌, if◌then◌else◌, ok, throw,
  link_points_out_of_index_dir, String_discrete,
}
use acbackup.Node.{FilePath, FileInfo, FileType, directory, file, link, posix}
use acbackup.Index.{number_of_nodes, compute_total_size_all}
use acbackup.Status.{begin_process}
use acbackup.SourceIndex.Filters.{FileOnDisk, ReadLines, desktop_ini_matches, thumbs_db_matches}
use acbackup.SourceIndex.Walk.{OsFile, os_file, no_more, child, Paths, Walk, index_file}
use acbackup.SourceIndex.Listing.{listed, add_all}
use acbackup.SourceIndex.Entries.{entries, kept, any_outside, index_file-entries}
use acbackup.SourceIndex.Counted.{index_file-compute_total_size}

abbrev paths : Paths
paths = record {
  join = λ p n. n;
  get_parent = λ p. p;
  is_relative = λ p. false;
  is_parent_of = λ p q. true;
  is_absolute = λ p. true;
}

abbrev no_lines : ReadLines
no_lines bytes = ("", "")

abbrev no_match : FileOnDisk → Bool
no_match f = false

abbrev info : FileType → ℕ → FileInfo
info t size = record {
  type = t;
  size = size;
  permissions = posix 0 0 420;
  last_modified_time = none;
}

abbrev on_disk : FilePath → FileOnDisk
on_disk name = record { name = name; bytes = 1 ∷ 2 ∷ []; delivers = λ n. n }

abbrev tree : OsFile
tree = os_file (info directory 0) (on_disk "/") "" (
    child "/a" (os_file (info file 2) (on_disk "a") "" no_more)
      (child "/b" (os_file (info link 2) (on_disk "b") "/a" no_more) no_more))

abbrev begun : Walk
begun = record {
  nodes = record { attributes = []; path_map = [] };
  find_status = begin_process "Reading directory" 1 0 0 0;
}

index_file-entries_example : index_file paths no_lines no_match no_match "" "/" tree begun ≡ (
    if any_outside paths no_lines no_match no_match ""
      (entries paths no_lines no_match no_match "" "/" tree)
    then throw link_points_out_of_index_dir
    else ok (
        add_all paths no_lines no_match no_match ""
          (kept paths no_lines no_match no_match ""
            (entries paths no_lines no_match no_match "" "/" tree))
          begun))
index_file-entries_example = index_file-entries paths no_lines no_match no_match "" "/" tree begun

abbrev ended : Walk
ended =
    add_all paths no_lines no_match no_match ""
      (listed paths no_lines no_match no_match "" "/" tree) begun

walked : index_file paths no_lines no_match no_match "" "/" tree begun ≡ ok ended
unfolding index_file listed add_all String_discrete desktop_ini_matches thumbs_db_matches
walked = refl

index_file-compute_total_size_example :
    (compute_total_size_all ended.nodes ≡ ok ended.find_status.total_size)
    × (ended.find_status.n_files ≡ number_of_nodes ended.nodes % 2 ^ 32)
index_file-compute_total_size_example =
    index_file-compute_total_size paths no_lines no_match no_match "" "/" tree "Reading directory" 1
      0 0 0 ended walked
