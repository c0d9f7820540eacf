-- ===== src/Backup/IndexFile/Checked.antt =====
-- Which index files are read in.
use acbackup.Prelude.{
  ℕ, ◌≡◌, subst, Bool, if_pos, if_neg, Option, none, some, List, [], ◌∷◌, All, String,
  String_discrete, Result, ok, and_then-eq-ok,
}
use acbackup.Node.{FilePath, HashAlgorithm}
use acbackup.BackupIndex.{BackupNodeIndex}
use acbackup.BackupIndex.Archive.{Elements, Reader, Dates, algorithm_of_name}
use acbackup.BackupIndex.Archive.Read.{deserialize_index}
use acbackup.Backup.{Library}
use acbackup.Snapshot.{Snapshot}
use acbackup.Backup.IndexFile.{
  XmlText, Protection, IndexFiles, deserialize, check_protection, read_in_snapshots, push_snapshot,
}

module _ (library : Library) (xml : XmlText) (dates : Dates) (md5 sha512_256 : HashAlgorithm)
    (reader : Reader) (is_absolute is_root : FilePath → Bool) (get_parent : FilePath → FilePath)
    (get_title get_file_extension : FilePath → String) (configured : HashAlgorithm) where
  -- The files of an index whose hash value is that of the bytes which were taken for its document,
  -- from which the snapshot was read.
  pub record IsChecked (fuel : ℕ) (path : FilePath) (f : IndexFiles) (s : Snapshot) : Type 0 where
    pub extension : get_file_extension path ≡ "lzma"
    pub h : HashAlgorithm
    pub bytes : List ℕ
    pub document : Elements
    pub taken : List ℕ
    pub index : BackupNodeIndex
    pub named : algorithm_of_name md5 sha512_256 f.index_hash_file.hash_algorithm ≡ ok h
    pub decompressed : library.decompress f.index_file ≡ ok bytes
    pub parsed : xml.parse bytes ≡ ok (document, taken)
    pub protected : f.index_hash_file.hash_value ≡ library.digest h taken
    pub read :
        deserialize_index reader dates md5 sha512_256 is_absolute is_root get_parent configured fuel
          document
        ≡ some (ok index)
    pub snapshot : s ≡ record { name = get_title (get_title path); index = index.nodes }

  check_protection_lem :
      (h : HashAlgorithm) (p : Protection) (name : String) (taken : List ℕ)
      (index : BackupNodeIndex) (s : Snapshot)
      → check_protection library xml dates md5 sha512_256 reader is_absolute is_root get_parent
          get_title get_file_extension configured h p name taken index
        ≡ ok (some s)
      → (p.hash_value ≡ library.digest h taken) × (s ≡ record { name = name; index = index.nodes })
  unfolding check_protection
  check_protection_lem h p name taken index s e =
      elim (String_discrete p.hash_value (library.digest h taken)) [
        | yes q ↦ (q, (let e' = rw (if_pos _ q) at e in cc))
        | no n ↦ let e' = rw (if_neg _ n) at e in cc
      ]

  opened-IsChecked :
      (fuel : ℕ) (path : FilePath) (opened : Result IndexFiles) (s : Snapshot)
      → get_file_extension path ≡ "lzma"
      → deserialize library xml dates md5 sha512_256 reader is_absolute is_root get_parent get_title
          get_file_extension configured fuel path opened
        ≡ some (ok (some s))
      → (f : IndexFiles) × (opened ≡ ok f) × IsChecked fuel path f s
  unfolding deserialize
  opened-IsChecked fuel path opened s lzma e =
      let (f, e1, e2) = and_then-eq-ok (some opened) _ _ (rw (if_pos _ lzma) at e) in
      let (h, e3, e4) =
        and_then-eq-ok (some (algorithm_of_name md5 sha512_256 f.index_hash_file.hash_algorithm)) _
          _ e2 in
      let (bytes, e5, e6) = and_then-eq-ok (some (library.decompress f.index_file)) _ _ e4 in
      let (document, e7, e8) = and_then-eq-ok (some (xml.parse bytes)) _ _ e6 in
      let (index, read, e9) =
        and_then-eq-ok
          (deserialize_index reader dates md5 sha512_256 is_absolute is_root get_parent configured
            fuel document.0)
          _ _ e8 in
      let (protected, same) =
        check_protection_lem h f.index_hash_file (get_title (get_title path)) document.1 index s
          cc in
      (
        f,
        cc,
        record {
          extension = lzma;
          h = h;
          bytes = bytes;
          document = document.0;
          taken = document.1;
          index = index;
          named = cc;
          decompressed = cc;
          parsed = cc;
          protected = protected;
          read = read;
          snapshot = same;
        },
      )

  abbrev pub Opened : ℕ → FilePath → Result IndexFiles → Snapshot → Type 0
  Opened fuel path opened s = (f : IndexFiles) × (opened ≡ ok f) × IsChecked fuel path f s

  deserialize-IsChecked :
      (fuel : ℕ) (path : FilePath) (opened : Result IndexFiles) (s : Snapshot)
      → deserialize library xml dates md5 sha512_256 reader is_absolute is_root get_parent get_title
          get_file_extension configured fuel path opened
        ≡ some (ok (some s))
      → Opened fuel path opened s
  unfolding deserialize
  deserialize-IsChecked fuel path opened s e =
      elim (String_discrete (get_file_extension path) "lzma") [
        | yes lzma ↦ opened-IsChecked fuel path opened s lzma e
        | no n ↦ let e' = rw (if_neg _ n) at e in cc
      ]

  module _ (join : FilePath → String → FilePath) (open_files : FilePath → Result IndexFiles) where
    abbrev pub FromFiles : ℕ → Snapshot → Type 0
    FromFiles fuel s = (path : FilePath) × Opened fuel path (open_files path) s

    push_snapshot-FromFiles :
        (fuel : ℕ) (path : FilePath) (o : Option Snapshot) (older : List Snapshot)
        → deserialize library xml dates md5 sha512_256 reader is_absolute is_root get_parent
            get_title get_file_extension configured fuel path
            (open_files path)
          ≡ some (ok o)
        → All (FromFiles fuel) older
        → All (FromFiles fuel) (push_snapshot o older)
    unfolding push_snapshot
    push_snapshot-FromFiles fuel path none older e all = all
    push_snapshot-FromFiles fuel path (some s) older e all =
        ((path, deserialize-IsChecked fuel path (open_files path) s e), all)

    -- If `ReadInSnapshots` returns, each snapshot that it adds to the list comes from an opened
    -- index file with the extension of such files and its hash file: the hash value in the latter
    -- is the digest, by the algorithm named there, of the bytes that were taken from the
    -- decompressed file for its document, and the index is what the constructor reads from that
    -- document.
    pub read_in_snapshots-FromFiles :
        (fuel : ℕ) (index_path : FilePath) (entries : List String) (older snapshots : List Snapshot)
        → All (FromFiles fuel) older
        → read_in_snapshots library xml dates md5 sha512_256 reader is_absolute is_root get_parent
            get_title get_file_extension configured join open_files fuel index_path entries older
          ≡ some (ok snapshots)
        → All (FromFiles fuel) snapshots
    unfolding read_in_snapshots
    read_in_snapshots-FromFiles fuel index_path [] older snapshots all e =
        let same : older ≡ snapshots = cc in subst (All (FromFiles fuel)) same all
    read_in_snapshots-FromFiles fuel index_path (entry ∷ entries) older snapshots all e =
        let path = join index_path entry in
        let (o, e1, e2) =
          and_then-eq-ok
            (deserialize library xml dates md5 sha512_256 reader is_absolute is_root get_parent
              get_title get_file_extension configured fuel path (open_files path))
            _ _ e in
        read_in_snapshots-FromFiles fuel index_path entries (push_snapshot o older) snapshots
          (push_snapshot-FromFiles fuel path o older e1 all) e2
