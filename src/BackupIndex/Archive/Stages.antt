-- ===== src/BackupIndex/Archive/Stages.antt =====
-- The parts of a node as XML, each read back.
use acbackup.Prelude.{
  ℕ, ◌≡◌, ◌≢◌, refl, Bool, true, Option, none, some, List, [], ◌∷◌, arith, String, String_discrete,
  ok,
}
use acbackup.Node.{
  FilePath, DateTime, HashAlgorithm, FileType, directory, file, link, Permissions, posix,
  CompressionSetting, Block,
}
use acbackup.BackupIndex.Archive.{
  text, number, Element, Elements, element, leaf, end, next, name_of, Reader, Dates, find_attribute,
  type_name, type_of_name, serialize_blocks, permissions_element, time_element, size_element,
}
use acbackup.BackupIndex.Archive.Read.{
  posix_of, permissions_of_element, deserialize_permissions, read_time, read_size,
}
use acbackup.BackupIndex.Archive.Document.{lacks, FollowsDocument, kept_blocks, kept_size}

pub size_not_blocks : ◌≢◌ {A = String} "Size" "Blocks"
size_not_blocks = cc

pub time_not_size : ◌≢◌ {A = String} "LastModified" "Size"
time_not_size = cc

pub time_not_blocks : ◌≢◌ {A = String} "LastModified" "Blocks"
time_not_blocks = cc

pub time_not_permissions : ◌≢◌ {A = String} "LastModified" "Permissions"
time_not_permissions = cc

pub lacks-serialize_blocks :
    (n : String) (bs : List Block) (owns : Bool) (setting : Option CompressionSetting)
    (owner : Option FilePath) (rest : Elements)
    → n ≢ "Blocks"
    → lacks n rest ≡ true
    → lacks n (serialize_blocks bs owns setting owner rest) ≡ true
unfolding lacks serialize_blocks
lacks-serialize_blocks n [] owns setting owner rest other l = l
lacks-serialize_blocks n (b ∷ bs) owns setting owner rest other l = ground arith

pub lacks-size_element :
    (n : String) (t : FileType) (size : ℕ) (rest : Elements)
    → n ≢ "Size"
    → lacks n rest ≡ true
    → lacks n (size_element t size rest) ≡ true
unfolding lacks
lacks-size_element n directory size rest other l = l
lacks-size_element n file size rest other l = ground arith
lacks-size_element n link size rest other l = ground arith

pub lacks_next :
    (n : String) (e : Element) (rest : Elements)
    → n ≢ name_of e
    → lacks n rest ≡ true
    → lacks n (next e rest) ≡ true
unfolding lacks
lacks_next n e rest other l = ground arith

pub type_of_name-type_name : (t : FileType) → type_of_name (type_name t) ≡ ok t
unfolding type_of_name type_name String_discrete
type_of_name-type_name directory = refl
type_of_name-type_name file = refl
type_of_name-type_name link = refl

pub kept_blocks-blocks :
    (bs : List Block) (owns : Bool) (setting : Option CompressionSetting) (owner : Option FilePath)
    → (kept_blocks bs owns setting owner).blocks ≡ bs
unfolding kept_blocks
kept_blocks-blocks [] owns setting owner = refl
kept_blocks-blocks (b ∷ bs) owns setting owner = refl

module _ (reader : Reader) (follows : FollowsDocument reader) (dates : Dates)
    (md5 sha512_256 : HashAlgorithm) (differ : md5 ≢ sha512_256) where
  -- What was written for the permissions.
  pub record PermissionsWritten (p : Permissions) : Type 0 where
    pub written : Element
    pub writes : permissions_element p ≡ ok written
    pub reads :
        (rest : Elements)
        → deserialize_permissions reader dates md5 sha512_256 (next written rest) ≡ ok (p, rest)
    pub is_permissions : name_of written ≡ "Permissions"

  pub posix-PermissionsWritten : (user group mode : ℕ) → PermissionsWritten (posix user group mode)
  unfolding permissions_element
  posix-PermissionsWritten user group mode =
      let modes = next (leaf "mode" (number mode)) end in
      let groups = next (leaf "group" (number group)) modes in
      let owners = next (leaf "owner" (number user)) groups in
      let e : Element = element "Permissions" (("type", text "POSIX") ∷ []) owners in
      record {
        written = e;
        writes = refl;
        reads = λ rest.
            unfold deserialize_permissions permissions_of_element posix_of find_attribute
              String_discrete in
            rw
              (
                follows.takes_next e rest,
                follows.takes_next (leaf "owner" (number user)) groups,
                follows.takes_next (leaf "group" (number group)) modes,
                follows.takes_next (leaf "mode" (number mode)) end,
              )
              refl;
        is_permissions = refl;
      }

  pub size_lem :
      (t : FileType) (size : ℕ) (rest : Elements)
      → lacks "Size" rest ≡ true
      → read_size reader dates md5 sha512_256 (size_element t size rest)
        ≡ ok (kept_size t size, rest)
  unfolding read_size kept_size
  size_lem directory size rest l =
      let absent = follows.has_none "Size" rest l in rw (read_size, absent) refl
  size_lem file size rest l =
      let e : Element = leaf "Size" (number size) in
      rw (read_size, follows.has_next e rest, follows.takes_next e rest) refl
  size_lem link size rest l =
      let e : Element = leaf "Size" (number size) in
      rw (read_size, follows.has_next e rest, follows.takes_next e rest) refl

  pub time_lem :
      (time : Option DateTime) (rest : Elements)
      → ((t : DateTime) → time ≡ some t → dates.from_iso (dates.to_iso t) ≡ ok t)
      → lacks "LastModified" rest ≡ true
      → read_time reader dates md5 sha512_256 (time_element dates.to_iso time rest)
        ≡ ok (time, rest)
  unfolding read_time
  time_lem none rest back l =
      let absent = follows.has_none "LastModified" rest l in rw (read_time, absent) refl
  time_lem (some t) rest back l =
      let e : Element = leaf "LastModified" (text (dates.to_iso t)) in
      rw (read_time, follows.has_next e rest, follows.takes_next e rest, back t refl) refl
