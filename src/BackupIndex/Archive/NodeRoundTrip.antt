-- ===== src/BackupIndex/Archive/NodeRoundTrip.antt =====
-- A node that was written as XML is read back.
use acbackup.Prelude.{
  ℕ, ◌<◌, ◌≡◌, ◌≢◌, refl, sym, ◌∙◌, subst, Option, some, List, [], ◌∷◌, String, String_discrete, ok,
  length, and_then, ◌>>=◌,
}
use acbackup.Node.{FilePath, DateTime, HashAlgorithm, FileType, Permissions, BackupNodeAttributes}
use acbackup.BackupIndex.Archive.{
  text, Attributes, Element, Elements, element, leaf, end, next, name_of, Reader, Dates, NodeBlocks,
  find_attribute, type_name, type_of_name, text_attribute, serialize_blocks, permissions_element,
  time_element, size_element, serialize_hashes, serialize_node,
}
use acbackup.BackupIndex.Archive.Read.{
  take_text, deserialize_blocks, deserialize_hashes, deserialize_permissions, read_time, read_size,
  node_of_element,
}
use acbackup.BackupIndex.Archive.Document.{FollowsDocument, kept, IsWritable}
use acbackup.BackupIndex.Archive.BlockRoundTrip.{deserialize_blocks-serialize_blocks}
use acbackup.BackupIndex.Archive.HashRoundTrip.{serialize_hashes-HashesEnd}
use acbackup.BackupIndex.Archive.Stages.{
  size_not_blocks, time_not_size, time_not_blocks, time_not_permissions, lacks-serialize_blocks,
  lacks-size_element, lacks_next, type_of_name-type_name, kept_blocks-blocks, PermissionsWritten,
  posix-PermissionsWritten, size_lem, time_lem,
}

module _ (reader : Reader) (follows : FollowsDocument reader) (dates : Dates)
    (md5 sha512_256 : HashAlgorithm) (differ : md5 ≢ sha512_256) where
  node_of_element_lem :
      (fuel : ℕ) (n : String) (as' : Attributes) (es es1 es2 es3 es4 es5 es6 : Elements)
      (t : FileType) (path : FilePath) (time : Option DateTime) (permissions : Permissions)
      (size : ℕ) (b : NodeBlocks) (hashes : List (HashAlgorithm × String))
      → (text_attribute "type" as' >>= type_of_name) ≡ ok t
      → take_text reader dates md5 sha512_256 "Path" es ≡ ok (path, es1)
      → read_time reader dates md5 sha512_256 es1 ≡ ok (time, es2)
      → deserialize_permissions reader dates md5 sha512_256 es2 ≡ ok (permissions, es3)
      → read_size reader dates md5 sha512_256 es3 ≡ ok (size, es4)
      → deserialize_blocks reader dates md5 sha512_256 fuel es4 ≡ some (ok (b, es5))
      → deserialize_hashes reader dates md5 sha512_256 fuel es5 ≡ some (ok (hashes, es6))
      → node_of_element reader dates md5 sha512_256 fuel (element n as' es)
        ≡ some (
            ok (
              path,
              record {
                base = record {
                  type = t;
                  size = size;
                  permissions = permissions;
                  last_modified_time = time;
                };
                owns_blocks = b.owns_blocks;
                compression_setting = b.setting;
                back_reference_target = b.owner;
                blocks = b.blocks;
                hashes = hashes;
              },
            ))
  unfolding node_of_element
  node_of_element_lem fuel n as' es es1 es2 es3 es4 es5 es6 t path time permissions size b hashes e0
        e1 e2 e3 e4 e5 e6 =
      rw (e0, and_then, e1, and_then, e2, and_then, e3, and_then, e4, and_then, e5, and_then, e6)
        refl

  path_lem :
      (path : FilePath) (rest : Elements)
      → take_text reader dates md5 sha512_256 "Path" (next (leaf "Path" (text path)) rest)
        ≡ ok (path, rest)
  path_lem path rest = rw (follows.takes_next (leaf "Path" (text path)) rest) refl

  type_lem :
      (t : FileType)
      → (text_attribute "type" (("type", text (type_name t)) ∷ []) >>= type_of_name) ≡ ok t
  unfolding find_attribute String_discrete
  type_lem t = type_of_name-type_name t

  serialize_node_lem :
      (path : FilePath) (a : BackupNodeAttributes) (permissions : Element) (hashes : Elements)
      → permissions_element a.base.permissions ≡ ok permissions
      → serialize_hashes md5 sha512_256 a.hashes ≡ ok hashes
      → serialize_node md5 sha512_256 dates.to_iso path a
        ≡ ok (
            element "Node" (("type", text (type_name a.base.type)) ∷ []) (
              next (leaf "Path" (text path)) (
                time_element dates.to_iso a.base.last_modified_time (
                  next permissions (
                    size_element a.base.type a.base.size (
                      serialize_blocks a.blocks a.owns_blocks a.compression_setting
                        a.back_reference_target hashes))))))
  unfolding serialize_node
  serialize_node_lem path a permissions hashes e e' = rw (e, e') refl

  -- What was written for a node.
  pub record NodeWritten (path : FilePath) (a : BackupNodeAttributes) : Type 0 where
    pub written : Element
    pub writes : serialize_node md5 sha512_256 dates.to_iso path a ≡ ok written
    pub is_node : name_of written ≡ "Node"
    pub reads :
        (fuel : ℕ)
        → length a.blocks < fuel
        → length a.hashes < fuel
        → node_of_element reader dates md5 sha512_256 fuel written ≡ some (ok (path, kept a))

  pub serialize_node-NodeWritten :
      (path : FilePath) (a : BackupNodeAttributes)
      → IsWritable md5 sha512_256 dates a
      → NodeWritten path a
  unfolding kept
  serialize_node-NodeWritten path a writable =
      let h =
        serialize_hashes-HashesEnd reader follows dates md5 sha512_256 differ a.hashes
          writable.named in
      let p =
        subst (PermissionsWritten reader follows dates md5 sha512_256 differ)
          (sym writable.has_posix)
          (posix-PermissionsWritten reader follows dates md5 sha512_256 differ writable.user
            writable.group writable.mode) in
      let blocks =
        serialize_blocks a.blocks a.owns_blocks a.compression_setting a.back_reference_target
          h.written in
      let rest = size_element a.base.type a.base.size blocks in
      let no_size =
        lacks-serialize_blocks "Size" a.blocks a.owns_blocks a.compression_setting
          a.back_reference_target h.written size_not_blocks h.lacks_size in
      let no_time =
        lacks_next "LastModified" p.written rest (rw p.is_permissions time_not_permissions) (
          lacks-size_element "LastModified" a.base.type a.base.size blocks time_not_size (
            lacks-serialize_blocks "LastModified" a.blocks a.owns_blocks a.compression_setting
              a.back_reference_target h.written time_not_blocks h.lacks_time)) in
      record {
        written = _;
        writes = serialize_node_lem path a p.written h.written p.writes h.writes;
        is_node = refl;
        reads = λ fuel f f'.
            let read =
              node_of_element_lem fuel "Node" _ _ _ _ _ _ h.written end a.base.type path _ _ _ _ _
                (type_lem a.base.type) (path_lem path _)
                (time_lem reader follows dates md5 sha512_256 differ a.base.last_modified_time
                  (next p.written rest) writable.reads_time no_time)
                (p.reads rest)
                (size_lem reader follows dates md5 sha512_256 differ a.base.type a.base.size blocks
                  no_size)
                (deserialize_blocks-serialize_blocks reader follows dates md5 sha512_256 fuel
                  a.blocks a.owns_blocks a.compression_setting a.back_reference_target h.written f
                  h.lacks_blocks)
                (h.reads fuel f') in
            read
            ∙ rw
                (
                  kept_blocks-blocks a.blocks a.owns_blocks a.compression_setting
                      a.back_reference_target,
                  writable.is_map,
                )
                refl;
      }
