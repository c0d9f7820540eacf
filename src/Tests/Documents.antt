-- ===== src/Tests/Documents.antt =====
-- The index of one file, as a document and back.
use acbackup.Prelude.{
  ℕ, zero, suc, ◌<◌, ◌≡◌, ◌≢◌, refl, ite, not, true, false, Option, none, some, [], ◌∷◌, arith,
  String, String_discrete, ok, inl, inr, get_elem?, length, subst,
}
use acbackup.Node.{HashAlgorithm, BackupNodeAttributes, put_hash}
use acbackup.Index.{number_of_nodes}
use acbackup.BackupIndex.{Nodes, BackupNodeIndex, compute_node_children, generate_hash_index}
use acbackup.BackupIndex.Archive.{
  Element, Elements, end, next, name_of, Reader, Dates, serialize_index,
}
use acbackup.BackupIndex.Archive.Read.{deserialize_index}
use acbackup.BackupIndex.Archive.Document.{lacks, FollowsDocument, put_all, IsWritable}
use acbackup.BackupIndex.Archive.IndexRoundTrip.{CanBeWritten}
use acbackup.BackupIndex.Archive.RoundTrip.{ReadsLike, deserialize_index-serialize_index}
use acbackup.Tests.Data.{plain, backed_up, any_path, one_node, one_node-IsWellFormed}

-- The first child with the name, and the others.
unfoldable pub pick : String → Elements → Option (Element × Elements)
pick n end = none
pick n (next e es) =
    let rest = pick n es in
    ite (String_discrete n (name_of e)) (some (e, es))
      (elim rest [ some (found, others) ↦ some (found, next e others) | none ↦ none ])

abbrev pub reader : Reader
reader = record { has_child = λ n es. not (lacks n es); take_child = pick }

pub reader-FollowsDocument : FollowsDocument reader
unfolding lacks pick
reader-FollowsDocument = record {
  has_next = λ e es. ground arith;
  takes_next = λ e es. ground arith;
  has_none = λ n es l. rw l refl;
}

abbrev pub dates : Dates
dates = record { to_iso = λ t. "1970-01-01T00:00:01Z"; from_iso = λ s. ok 1 }

abbrev stored : BackupNodeAttributes
stored =
    backed_up (plain 3 1) true none (record { volume_number = 0; offset = 0; size = 3 } ∷ [])
      ((1, "x") ∷ (0, "y") ∷ [])

abbrev pub index : Nodes
index = one_node "/a" stored

pub different : ◌≢◌ {A = HashAlgorithm} 0 1
different = λ e. absurd (omega arith)

stored-IsWritable : IsWritable 0 1 dates stored
unfolding put_all put_hash
stored-IsWritable = record {
  user = 0;
  group = 0;
  mode = 420;
  has_posix = refl;
  named = (inr refl, (inl refl, tt));
  is_map = refl;
  reads_time = λ t e. ground arith;
}

pub index-CanBeWritten :
    CanBeWritten reader reader-FollowsDocument dates 0 1 different any_path 3 index
index-CanBeWritten = record {
  well_formed = one_node-IsWellFormed "/a" stored;
  all_absolute = λ i p e. refl;
  all_writable = writable;
  all_short = short;
}
  where
    writable :
        (i : ℕ) (a : BackupNodeAttributes)
        → get_elem? index.attributes i ≡ some a
        → IsWritable 0 1 dates a
    writable zero a e =
        let same : stored ≡ a = ground arith in subst (IsWritable 0 1 dates) same stored-IsWritable
    writable (suc i) a e = absurd (ground arith)

    short :
        (i : ℕ) (a : BackupNodeAttributes)
        → get_elem? index.attributes i ≡ some a
        → (length a.blocks < 3) × (length a.hashes < 3)
    short zero a e = let same : stored ≡ a = ground arith in rw (← same) (omega arith, omega arith)
    short (suc i) a e = absurd (ground arith)

deserialize_index-serialize_index_example :
    (e : Element) × (serialize_index 0 1 dates.to_iso index ≡ ok e)
    × ((r : BackupNodeIndex) × (deserialize_index reader dates 0 1 any_path
            (λ p. false)
            (λ p. p)
            0
            5
            (next e end)
          ≡ some (ok r))
        × ReadsLike index r.nodes
        × (r.hash_index ≡ generate_hash_index 0 r.nodes)
        × (compute_node_children (λ p. false) (λ p. p) r.nodes ≡ ok r.node_children))
unfolding number_of_nodes
deserialize_index-serialize_index_example =
    deserialize_index-serialize_index reader reader-FollowsDocument dates 0 1 different any_path
      (λ p. false) (λ p. p) 0 3 index index-CanBeWritten 5 (omega arith)
