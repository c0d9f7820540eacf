-- ===== src/Tests/IndexFiles.antt =====
-- The files of an index, written and read.
use acbackup.Prelude.{
  ◌≡◌, false, refl, inr, some, [], ◌∷◌, String, ok, Result, ◌>>=◌, All, arith, String_discrete,
}
use acbackup.Node.{FilePath}
use acbackup.Index.{number_of_nodes}
use acbackup.BackupIndex.{Nodes, children_from, compute_node_children, generate_hash_index}
use acbackup.BackupIndex.Archive.{Element, element, next, end, serialize_index, algorithm_of_name}
use acbackup.BackupIndex.Archive.Document.{lacks}
use acbackup.BackupIndex.Archive.RoundTrip.{ReadsLike}
use acbackup.BackupIndex.Archive.Read.{deserialize_index, nodes_of_document, read_nodes}
use acbackup.Backup.{Library}
use acbackup.Backup.IndexFile.{
  XmlText, IndexFiles, serialize, deserialize, check_protection, read_in_snapshots, push_snapshot,
}
use acbackup.Backup.IndexFile.Protected.{deserialize-serialize}
use acbackup.Backup.IndexFile.Checked.{FromFiles, read_in_snapshots-FromFiles}
use acbackup.Tests.Data.{any_path}
use acbackup.Tests.Backups.{library, library-IsFaithful, without_mark}
use acbackup.Tests.Documents.{
  reader, reader-FollowsDocument, dates, index, different, index-CanBeWritten, pick,
}

-- The text of one document.
abbrev text_of : Result Element → XmlText
text_of document = record {
  print = λ e. 1 ∷ [];
  parse = λ bytes. (do e ← document; ok (next e end, bytes));
}

abbrev hashing : Library
hashing = record library { digest = λ h bytes. elim bytes [ [] ↦ "0" | b ∷ bs ↦ "1" ] }

abbrev xml : XmlText
xml = text_of (serialize_index 0 1 dates.to_iso index)

reads_document :
    (e : Element)
    → serialize_index 0 1 dates.to_iso index ≡ ok e
    → xml.parse (xml.print e) ≡ ok (next e end, xml.print e)
reads_document e written = rw written refl

abbrev title : FilePath → String
title p = "monday"

abbrev extension : FilePath → String
extension p = "lzma"

deserialize-serialize_example :
    (f : IndexFiles) × (serialize hashing xml dates 0 1 1 6 index ≡ ok f)
    × ((y : Nodes) × (deserialize hashing xml dates 0 1 reader any_path
            (λ p. false)
            (λ p. p)
            title
            extension
            0
            5
            "/index/monday.xml.lzma"
            (ok f)
          ≡ some (ok (some (record { name = "monday"; index = y }))))
        × ReadsLike index y)
unfolding number_of_nodes
deserialize-serialize_example =
    deserialize-serialize hashing xml reader reader-FollowsDocument dates 0 1 different any_path
      (λ p. false) (λ p. p) title extension 0 1 6 3 5 "/index/monday.xml.lzma" index
      (library-IsFaithful.undoes 6) reads_document (inr refl) refl index-CanBeWritten (omega arith)

abbrev empty_text : XmlText
empty_text = text_of (ok (element "SnapshotIndex" [] (next (element "Nodes" [] end) end)))

abbrev files : FilePath → Result IndexFiles
files p = ok (record {
  index_file = hashing.compress 6 (1 ∷ []);
  index_hash_file = record { hash_algorithm = "md5"; hash_value = hashing.digest 0 (1 ∷ []) };
})

abbrev empty : Nodes
empty = record { attributes = []; path_map = [] }

abbrev last_part : FilePath → String → FilePath
last_part p name = name

reads_in :
    read_in_snapshots hashing empty_text dates 0 1 reader any_path
      (λ p. false)
      (λ p. p)
      title
      extension
      0
      last_part
      files
      2
      "/index"
      ("monday.xml.lzma" ∷ [])
      []
    ≡ some (ok (record { name = "monday"; index = empty } ∷ []))
unfolding read_in_snapshots push_snapshot deserialize check_protection deserialize_index
    nodes_of_document read_nodes algorithm_of_name String_discrete pick lacks compute_node_children
    children_from number_of_nodes generate_hash_index without_mark
reads_in = refl

read_in_snapshots-FromFiles_example :
    All
      (FromFiles hashing empty_text dates 0 1 reader any_path
        (λ p. false)
        (λ p. p)
        title
        extension
        0
        last_part
        files
        2)
      (record { name = "monday"; index = empty } ∷ [])
read_in_snapshots-FromFiles_example =
    read_in_snapshots-FromFiles hashing empty_text dates 0 1 reader any_path (λ p. false) (λ p. p)
      title extension 0 last_part files 2 "/index" ("monday.xml.lzma" ∷ []) []
      (record { name = "monday"; index = empty } ∷ []) tt reads_in
