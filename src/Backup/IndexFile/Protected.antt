-- ===== src/Backup/IndexFile/Protected.antt =====
-- The file of an index is read back.
use acbackup.Prelude.{
  ℕ, ◌+◌, ◌<◌, ◌≡◌, ◌≢◌, Bool, refl, if_pos, some, List, String, ◌⊎◌, ok, and_then,
}
use acbackup.Node.{FilePath, HashAlgorithm}
use acbackup.Index.{number_of_nodes}
use acbackup.BackupIndex.{Nodes, BackupNodeIndex}
use acbackup.BackupIndex.Archive.{
  Element, next, end, Reader, Dates, serialize_index, algorithm_name, algorithm_of_name,
}
use acbackup.BackupIndex.Archive.Read.{deserialize_index}
use acbackup.BackupIndex.Archive.Document.{FollowsDocument}
use acbackup.BackupIndex.Archive.HashRoundTrip.{algorithm_of_name-algorithm_name}
use acbackup.BackupIndex.Archive.IndexRoundTrip.{CanBeWritten}
use acbackup.BackupIndex.Archive.RoundTrip.{ReadsLike, deserialize_index-serialize_index}
use acbackup.Backup.{Library}
use acbackup.Backup.IndexFile.{XmlText, IndexFiles, serialize, deserialize, check_protection}

module _ (library : Library) (xml : XmlText) (reader : Reader) (follows : FollowsDocument reader)
    (dates : Dates) (md5 sha512_256 : HashAlgorithm) (differ : md5 ≢ sha512_256)
    (is_absolute is_root : FilePath → Bool) (get_parent : FilePath → FilePath)
    (get_title get_file_extension : FilePath → String) (configured : HashAlgorithm) where
  abbrev protected_file : HashAlgorithm → ℕ → String → Element → IndexFiles
  protected_file h level n e = record {
    index_file = library.compress level (xml.print e);
    index_hash_file = record { hash_algorithm = n; hash_value = library.digest h (xml.print e) };
  }

  serialize_lem :
      (h : HashAlgorithm) (level : ℕ) (x : Nodes) (e : Element) (n : String)
      → serialize_index md5 sha512_256 dates.to_iso x ≡ ok e
      → algorithm_name md5 sha512_256 h ≡ ok n
      → serialize library xml dates md5 sha512_256 h level x ≡ ok (protected_file h level n e)
  unfolding serialize
  serialize_lem h level x e n written name = rw (written, name) refl

  deserialize_lem :
      (h : HashAlgorithm) (level fuel : ℕ) (path : FilePath) (e : Element) (n : String)
      (r : BackupNodeIndex)
      → ((bytes : List ℕ) → library.decompress (library.compress level bytes) ≡ ok bytes)
      → xml.parse (xml.print e) ≡ ok (next e end, xml.print e)
      → get_file_extension path ≡ "lzma"
      → algorithm_of_name md5 sha512_256 n ≡ ok h
      → deserialize_index reader dates md5 sha512_256 is_absolute is_root get_parent configured fuel
          (next e end)
        ≡ some (ok r)
      → deserialize library xml dates md5 sha512_256 reader is_absolute is_root get_parent get_title
          get_file_extension configured fuel path
          (ok (protected_file h level n e))
        ≡ some (ok (some (record { name = get_title (get_title path); index = r.nodes })))
  unfolding deserialize check_protection
  deserialize_lem h level fuel path e n r undoes reads lzma back read =
      rw
        (
          if_pos _ lzma,
          and_then,
          back,
          and_then,
          undoes (xml.print e),
          and_then,
          reads,
          and_then,
          read,
          and_then,
          if_pos _ refl,
        )
        refl

  -- With a deserializer that finds an element of the document by its name where it comes next, two
  -- hash algorithms that differ, a decompressor that undoes the compressor, and a reader of XML
  -- that reads the written document and takes all of it: for one of the two hash algorithms, a path
  -- with the extension of an index file, an index that can be written as for its XML form, and fuel
  -- for each node and for the blocks and hash values of any node, `Serialize` returns the two
  -- files, and `Deserialize` of them returns a snapshot with the name of the path and an index that
  -- reads like the written one.
  pub deserialize-serialize :
      (h : HashAlgorithm) (level m fuel : ℕ) (path : FilePath) (x : Nodes)
      → ((bytes : List ℕ) → library.decompress (library.compress level bytes) ≡ ok bytes)
      → ((e : Element)
          → serialize_index md5 sha512_256 dates.to_iso x ≡ ok e
          → xml.parse (xml.print e) ≡ ok (next e end, xml.print e))
      → (h ≡ md5) ⊎ (h ≡ sha512_256)
      → get_file_extension path ≡ "lzma"
      → CanBeWritten reader follows dates md5 sha512_256 differ is_absolute m x
      → number_of_nodes x + m < fuel
      → (f : IndexFiles) × (serialize library xml dates md5 sha512_256 h level x ≡ ok f)
        × ((y : Nodes) × (deserialize library xml dates md5 sha512_256 reader is_absolute is_root
                get_parent get_title get_file_extension configured fuel path
                (ok f)
              ≡ some (ok (some (record { name = get_title (get_title path); index = y }))))
            × ReadsLike x y)
  deserialize-serialize h level m fuel path x undoes reads named lzma w enough =
      let (e, written, (r, read, like, _, _)) =
        deserialize_index-serialize_index reader follows dates md5 sha512_256 differ is_absolute
          is_root get_parent configured m x w fuel enough in
      let (n, name, back) =
        algorithm_of_name-algorithm_name reader follows dates md5 sha512_256 differ h named in
      (
        protected_file h level n e,
        serialize_lem h level x e n written name,
        (
          r.nodes,
          deserialize_lem h level fuel path e n r undoes (reads e written) lzma back read,
          like,
        ),
      )
