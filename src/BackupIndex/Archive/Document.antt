-- ===== src/BackupIndex/Archive/Document.antt =====
-- How a document is read, and the map that its hash values go into.
use acbackup.Prelude.{
  ℕ, ◌≡◌, ite, Bool, true, false, Option, none, some, List, [], ◌∷◌, String, String_discrete, ok,
  All, ◌⊎◌,
}
use acbackup.Node.{
  FilePath, DateTime, HashAlgorithm, FileType, directory, file, link, posix, CompressionSetting,
  Block, BackupNodeAttributes, put_hash,
}
use acbackup.BackupIndex.Archive.{Element, Elements, end, next, name_of, Reader, Dates, NodeBlocks}

-- No element of the list has the name.
unfoldable pub lacks : String → Elements → Bool
lacks n end = true
lacks n (next e es) = ite (String_discrete n (name_of e)) false (lacks n es)

-- How a deserializer reads a document in its order: an element that comes next is found by its name,
-- and one that is not there is not found.
pub record FollowsDocument (reader : Reader) : Type 0 where
  pub has_next : (e : Element) (es : Elements) → reader.has_child (name_of e) (next e es) ≡ true
  pub takes_next :
      (e : Element) (es : Elements) → reader.take_child (name_of e) (next e es) ≡ some (e, es)
  pub has_none : (n : String) (es : Elements) → lacks n es ≡ true → reader.has_child n es ≡ false

-- The map after the values of a list were put into it.
unfoldable pub put_all :
    List (HashAlgorithm × String) → List (HashAlgorithm × String) → List (HashAlgorithm × String)
put_all [] m = m
put_all ((a, v) ∷ hs) m = put_all hs (put_hash a v m)

-- What becomes of the blocks and what goes with them: without blocks, nothing is written.
unfoldable pub kept_blocks :
    List Block → Bool → Option CompressionSetting → Option FilePath → NodeBlocks
kept_blocks [] owns setting owner = record {
  blocks = [];
  owns_blocks = false;
  setting = none;
  owner = none;
}
kept_blocks (b ∷ bs) owns setting owner = record {
  blocks = b ∷ bs;
  owns_blocks = owns;
  setting = setting;
  owner = owner;
}

-- What is kept of a size: a directory's is not written.
unfoldable pub kept_size : FileType → ℕ → ℕ
kept_size directory size = 0
kept_size file size = size
kept_size link size = size

-- The attributes that come back. The owner of a node's blocks and its compression setting are lost
-- where there are no blocks, and so is the size of a directory.
unfoldable pub kept : BackupNodeAttributes → BackupNodeAttributes
unfolding kept_blocks kept_size
kept a = record a {
  base = record a.base { size = kept_size a.base.type a.base.size };
  owns_blocks =
      (kept_blocks a.blocks a.owns_blocks a.compression_setting
        a.back_reference_target).owns_blocks;
  compression_setting =
      (kept_blocks a.blocks a.owns_blocks a.compression_setting a.back_reference_target).setting;
  back_reference_target =
      (kept_blocks a.blocks a.owns_blocks a.compression_setting a.back_reference_target).owner;
}

module _ (md5 sha512_256 : HashAlgorithm) where
  -- An algorithm that has a name.
  abbrev pub IsNamed : HashAlgorithm → Type 0
  IsNamed a = (a ≡ md5) ⊎ (a ≡ sha512_256)

  abbrev pub AllNamed : List (HashAlgorithm × String) → Type 0
  AllNamed hs = All (λ h. IsNamed h.0) hs

  -- Attributes that can be written: the permissions are those of POSIX, each hash algorithm has a
  -- name, none has two values, and the text of the time is read back.
  pub record IsWritable (dates : Dates) (a : BackupNodeAttributes) : Type 0 where
    pub user : ℕ
    pub group : ℕ
    pub mode : ℕ
    pub has_posix : a.base.permissions ≡ posix user group mode
    pub named : AllNamed a.hashes
    pub is_map : put_all a.hashes [] ≡ a.hashes
    pub reads_time :
        (t : DateTime) → a.base.last_modified_time ≡ some t → dates.from_iso (dates.to_iso t) ≡ ok t
