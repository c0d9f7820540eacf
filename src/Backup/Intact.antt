-- ===== src/Backup/Intact.antt =====
-- Only intact data passes the verification.
use acbackup.Prelude.{
  ℕ, ◌≡◌, sym, ap, subst, ◌∙◌, Bool, true, false, Option, none, some, List, arith, ok, throw,
  length, String, String_discrete, Call, and_then, and_then-eq-ok, >>=-eq-ok, ◌==◌, ◌>>=◌,
}
use acbackup.Node.{FilePath, HashAlgorithm, BackupNodeAttributes, hash_of}
use acbackup.Node.Blocks.{Volumes}
use acbackup.Index.{get_node_attributes, get_node_index}
use acbackup.BackupIndex.{Nodes}
use acbackup.Reading.{Reading, Delivers, start, increment_volume_counters}
use acbackup.Backup.{Library}
use acbackup.Backup.Read.{
  FileInput, has_value, expected_hash, open_file_for_reading, flush_input, read_requests,
  decompressed, checked, caught, verify_node,
}

module _ (library : Library) (h : HashAlgorithm) (delivers : Delivers) where
  caught-true : (c : Call Bool) → caught library h delivers c ≡ some (ok true) → c ≡ some (ok true)
  caught-true none e = cc
  caught-true (some (ok b)) e = e
  caught-true (some (throw error)) e = ground arith

  checked_ok :
      (v : String) (read bytes : List ℕ)
      → checked library h delivers (some v) read ≡ ok bytes
      → (read ≡ bytes) × (library.digest h bytes ≡ v)
  checked_ok v read bytes e = elim (String_discrete (library.digest h read) v) [
    | yes q ↦ ground arith
    | no n ↦ absurd (ground arith)
  ]

  abbrev input_of : BackupNodeAttributes → Option String → FileInput
  input_of a v = record {
    blocks = a.blocks;
    decompresses = has_value a.compression_setting;
    expected = v;
  }

  -- The chain with the verification, and the one without it.
  open_file_for_reading_verified :
      (x : Nodes) (i : ℕ) (r r' : Reading) (input : FileInput)
      → open_file_for_reading library h delivers x i true r ≡ ok (r', input)
      → (a : BackupNodeAttributes) × (v : String) × (get_node_attributes x i ≡ ok a)
        × (hash_of h a ≡ ok v)
        × (input ≡ input_of a (some v))
        × (open_file_for_reading library h delivers x i false r ≡ ok (r', input_of a none))
  unfolding open_file_for_reading
  open_file_for_reading_verified x i r r' input e =
      let (a, ea, e1) = >>=-eq-ok (get_node_attributes x i) _ e in
      let (r'', er, e2) = >>=-eq-ok (increment_volume_counters r a.blocks) _ e1 in
      let (w, ew, e3) = >>=-eq-ok (expected_hash library h delivers true a) _ e2 in
      let (v, ev, e4) = >>=-eq-ok (hash_of h a) _ ew in
      let same : r'' ≡ r' = cc in
      let is_some : some v ≡ w = cc in
      let is_input : input_of a w ≡ input = cc in
      (
        a,
        v,
        ea,
        ev,
        sym is_input ∙ ap (input_of a) (sym is_some),
        rw (ea, er) (ap (λ q. ok (q, input_of a none)) same),
      )

  flush_input_verified :
      (fuel : ℕ) (files : Volumes) (requests : List ℕ) (r : Reading) (a : BackupNodeAttributes)
      (v : String) (bytes : List ℕ)
      → flush_input library h delivers fuel files requests r (input_of a (some v)) ≡ some (ok bytes)
      → (flush_input library h delivers fuel files requests r (input_of a none) ≡ some (ok bytes))
        × (library.digest h bytes ≡ v)
  unfolding flush_input
  flush_input_verified fuel files requests r a v bytes e =
      let (read, er, e1) =
        and_then-eq-ok (read_requests library h delivers fuel files a.blocks r start requests) _
          bytes e in
      let got : (decompressed library h delivers (has_value a.compression_setting) read.1 >>= λ b.
      checked library h delivers (some v) b)
          ≡ ok bytes =
        cc in
      let (plain, ed, e2) =
        >>=-eq-ok (decompressed library h delivers (has_value a.compression_setting) read.1) _
          got in
      let (same, digest) = checked_ok v plain bytes e2 in
      (rw (er, and_then, ed) (ap (λ b. some (ok b)) same), digest)

  -- If `VerifyNode` answers true, the index has the node, its data reads to the end without the
  -- verification as well, as many bytes as the attributes say, and the hash value of the attributes
  -- is the digest of just these bytes.
  pub verify_node-returns_true :
      (fuel : ℕ) (files : Volumes) (x : Nodes) (requests : List ℕ) (r : Reading) (path : FilePath)
      → verify_node library h delivers fuel files x requests r path ≡ some (ok true)
      → (i : ℕ) × (a : BackupNodeAttributes) × (bytes : List ℕ) × (r' : Reading)
        × (input : FileInput) × (get_node_index x path ≡ ok i)
        × (get_node_attributes x i ≡ ok a)
        × (open_file_for_reading library h delivers x i false r ≡ ok (r', input))
        × (flush_input library h delivers fuel files requests r' input ≡ some (ok bytes))
        × (length bytes ≡ a.base.size)
        × (hash_of h a ≡ ok (library.digest h bytes))
  unfolding verify_node
  verify_node-returns_true fuel files x requests r path e =
      let (i, ei, e1) = and_then-eq-ok (some (get_node_index x path)) _ true e in
      let (opened, eo, e2) =
        and_then-eq-ok (some (open_file_for_reading library h delivers x i true r)) _ true e1 in
      let (bytes, eb, e3) =
        and_then-eq-ok (flush_input library h delivers fuel files requests opened.0 opened.1) _ true
          (caught-true _ e2) in
      let (j, ej, e4) = and_then-eq-ok (some (get_node_index x path)) _ true e3 in
      let (a, ea, e5) = and_then-eq-ok (some (get_node_attributes x j)) _ true e4 in
      let (b, v, eb', ev, is_input, plain) =
        open_file_for_reading_verified x i r opened.0 opened.1 cc in
      let (flushed, digest) = flush_input_verified fuel files requests opened.0 b v bytes (
        subst (λ q. flush_input library h delivers fuel files requests opened.0 q ≡ some (ok bytes))
          is_input eb) in
      let i_is : i ≡ j = cc in
      let b_is : b ≡ a = cc in
      let size : (length bytes == b.base.size) ≡ true = rw b_is cc in
      (
        i,
        b,
        bytes,
        opened.0,
        input_of b none,
        cc,
        eb',
        plain,
        flushed,
        ground arith,
        ev ∙ ap (λ d. ok d) (sym digest),
      )
