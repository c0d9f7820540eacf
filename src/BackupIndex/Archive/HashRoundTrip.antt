-- ===== src/BackupIndex/Archive/HashRoundTrip.antt =====
-- The hash values of a node are read back.
use acbackup.Prelude.{
  ℕ, zero, suc, ◌<◌, ◌≡◌, ◌≢◌, refl, true, some, List, [], ◌∷◌, arith, String, String_discrete, ok,
  length, and_then, inl, inr,
}
use acbackup.Node.{HashAlgorithm, put_hash}
use acbackup.BackupIndex.Archive.{
  text, Attributes, Element, Elements, element, end, next, Reader, Dates, find_attribute,
  algorithm_name, algorithm_of_name, hash_elements, serialize_hashes,
}
use acbackup.BackupIndex.Archive.Read.{
  read_hash, read_hashes_loop, hashes_of_element, deserialize_hashes,
}
use acbackup.BackupIndex.Archive.Document.{lacks, FollowsDocument, put_all, IsNamed, AllNamed}

module _ (reader : Reader) (follows : FollowsDocument reader) (dates : Dates)
    (md5 sha512_256 : HashAlgorithm) (differ : md5 ≢ sha512_256) where
  pub algorithm_of_name-algorithm_name :
      (a : HashAlgorithm)
      → IsNamed md5 sha512_256 a
      → (n : String) × (algorithm_name md5 sha512_256 a ≡ ok n)
        × (algorithm_of_name md5 sha512_256 n ≡ ok a)
  unfolding algorithm_name algorithm_of_name String_discrete
  algorithm_of_name-algorithm_name a (inl e) = ("md5", ground arith, ground arith)
  algorithm_of_name-algorithm_name a (inr e) = ("sha512/256", ground arith, ground arith)

  abbrev hash_element : String → String → Element
  hash_element n v = element "Hash" (("algorithm", text n) ∷ ("value", text v) ∷ []) end

  read_hash_lem :
      (n : String) (a : HashAlgorithm) (v : String)
      → algorithm_of_name md5 sha512_256 n ≡ ok a
      → read_hash reader dates md5 sha512_256 (hash_element n v) ≡ ok (a, v)
  unfolding read_hash find_attribute String_discrete
  read_hash_lem n a v e = rw e refl

  read_hashes_loop_next :
      (fuel : ℕ) (e : Element) (es : Elements) (e' : Element) (rest : Elements) (a : HashAlgorithm)
      (v : String) (result m : List (HashAlgorithm × String))
      → reader.take_child "Hash" (next e es) ≡ some (e', rest)
      → read_hash reader dates md5 sha512_256 e' ≡ ok (a, v)
      → read_hashes_loop reader dates md5 sha512_256 fuel rest (put_hash a v result) ≡ some (ok m)
      → read_hashes_loop reader dates md5 sha512_256 (suc fuel) (next e es) result ≡ some (ok m)
  unfolding read_hashes_loop
  read_hashes_loop_next fuel e es e' rest a v result m taken read more =
      rw (taken, and_then, read, and_then, more) refl

  hash_elements_next :
      (a : HashAlgorithm) (v n : String) (hs : List (HashAlgorithm × String)) (es : Elements)
      → algorithm_name md5 sha512_256 a ≡ ok n
      → hash_elements md5 sha512_256 hs ≡ ok es
      → hash_elements md5 sha512_256 ((a, v) ∷ hs) ≡ ok (next (hash_element n v) es)
  unfolding hash_elements
  hash_elements_next a v n hs es named rest = rw (named, rest) refl

  read_hashes_loop-hash_elements :
      (hs : List (HashAlgorithm × String))
      → AllNamed md5 sha512_256 hs
      → (es : Elements) × (hash_elements md5 sha512_256 hs ≡ ok es)
        × ((fuel : ℕ) (result : List (HashAlgorithm × String))
            → length hs < fuel
            → read_hashes_loop reader dates md5 sha512_256 fuel es result
              ≡ some (ok (put_all hs result)))
  unfolding put_all
  read_hashes_loop-hash_elements [] named =
      (end, unfold hash_elements in refl, λ fuel result f. empty fuel result f)
    where
      empty :
          (fuel : ℕ) (result : List (HashAlgorithm × String))
          → 0 < fuel
          → read_hashes_loop reader dates md5 sha512_256 fuel end result ≡ some (ok result)
      empty zero result f = absurd (omega arith)
      empty (suc fuel) result f = unfold read_hashes_loop in refl
  read_hashes_loop-hash_elements ((a, v) ∷ hs) named =
      let (n, en, back) = algorithm_of_name-algorithm_name a named.0 in
      let (es, e, reads) = read_hashes_loop-hash_elements hs named.1 in
      (
        next (hash_element n v) es,
        hash_elements_next a v n hs es en e,
        λ fuel result f. some_fuel n es back reads fuel result f,
      )
    where
      some_fuel :
          (n : String) (es : Elements)
          → algorithm_of_name md5 sha512_256 n ≡ ok a
          → ((fuel : ℕ) (result : List (HashAlgorithm × String))
              → length hs < fuel
              → read_hashes_loop reader dates md5 sha512_256 fuel es result
                ≡ some (ok (put_all hs result)))
          → (fuel : ℕ) (result : List (HashAlgorithm × String)) → suc (length hs) < fuel
          → read_hashes_loop reader dates md5 sha512_256 fuel (next (hash_element n v) es) result
            ≡ some (ok (put_all hs (put_hash a v result)))
      some_fuel n es back reads zero result f = absurd (omega arith)
      some_fuel n es back reads (suc fuel) result f =
          read_hashes_loop_next fuel (hash_element n v) es (hash_element n v) es a v result _
            (follows.takes_next (hash_element n v) es) (read_hash_lem n a v back)
            (reads fuel (put_hash a v result) (omega arith))

  deserialize_hashes_there :
      (fuel : ℕ) (es inner rest : Elements) (as' : Attributes) (m : List (HashAlgorithm × String))
      → reader.has_child "HashValues" es ≡ true
      → reader.take_child "HashValues" es ≡ some (element "HashValues" as' inner, rest)
      → read_hashes_loop reader dates md5 sha512_256 fuel inner [] ≡ some (ok m)
      → deserialize_hashes reader dates md5 sha512_256 fuel es ≡ some (ok (m, rest))
  unfolding hashes_of_element deserialize_hashes
  deserialize_hashes_there fuel es inner rest as' m there taken read =
      rw (deserialize_hashes, there, taken, and_then, hashes_of_element, read) refl

  -- What was written for the hash values, which stands last among the children of a node.
  pub record HashesEnd (hs : List (HashAlgorithm × String)) : Type 0 where
    pub written : Elements
    pub writes : serialize_hashes md5 sha512_256 hs ≡ ok written
    pub reads :
        (fuel : ℕ)
        → length hs < fuel
        → deserialize_hashes reader dates md5 sha512_256 fuel written
          ≡ some (ok (put_all hs [], end))
    pub lacks_time : lacks "LastModified" written ≡ true
    pub lacks_size : lacks "Size" written ≡ true
    pub lacks_blocks : lacks "Blocks" written ≡ true

  pub serialize_hashes-HashesEnd :
      (hs : List (HashAlgorithm × String)) → AllNamed md5 sha512_256 hs → HashesEnd hs
  unfolding lacks String_discrete serialize_hashes deserialize_hashes
  serialize_hashes-HashesEnd [] named = record {
    written = end;
    writes = refl;
    reads = λ fuel f.
        let absent = follows.has_none "HashValues" end refl in
        unfold put_all in rw (deserialize_hashes, absent) refl;
    lacks_time = refl;
    lacks_size = refl;
    lacks_blocks = refl;
  }
  serialize_hashes-HashesEnd (h ∷ hs) named =
      let (es, e, reads) = read_hashes_loop-hash_elements (h ∷ hs) named in
      let e' : Element = element "HashValues" [] es in
      record {
        written = next e' end;
        writes = rw e refl;
        reads = λ fuel f.
            deserialize_hashes_there fuel (next e' end) es end [] _ (follows.has_next e' end)
              (follows.takes_next e' end) (reads fuel [] f);
        lacks_time = refl;
        lacks_size = refl;
        lacks_blocks = refl;
      }
