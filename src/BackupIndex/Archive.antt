-- ===== src/BackupIndex/Archive.antt =====
-- src/backup/BackupNodeIndex.cpp and src/Serialization.hpp: an index as an XML document. What the
-- calls of the serializer describe is a tree of elements; the text form of the tree is StdXX's.
pub mod Read
pub mod Document
pub mod BlockRoundTrip
pub mod HashRoundTrip
pub mod Stages
pub mod NodeRoundTrip
pub mod IndexRoundTrip
pub mod RoundTrip
use acbackup.Prelude.{
  ℕ, zero, suc, range_from, ite, Bool, true, false, Option, none, some, List, [], ◌∷◌, String,
  String_discrete, ◌==◌, if◌then◌else◌, Result, ok, throw, malformed_index, not_implemented,
  or_throw, ◌>>=◌,
}
use acbackup.Node.{
  FilePath, DateTime, HashAlgorithm, FileType, directory, file, link, Permissions, posix, foreign,
  CompressionSetting, lzma, Block, BackupNodeAttributes, put_hash,
}
use acbackup.Index.{Index, number_of_nodes, get_node_attributes, get_node_path, add_node}
use acbackup.BackupIndex.{Nodes}

-- A value as `Binding` hands it over.
pub data Value : Type 0 where
  text : String → Value
  number : ℕ → Value
  flag : Bool → Value

abbrev pub Attributes : Type 0
Attributes = List (String × Value)

-- An element between `EnterElement` and `LeaveElement`, and one that a `Binding` outside of the
-- attributes makes.
mutual
  pub data Element : Type 0 where
    element : String → Attributes → Elements → Element
    leaf : String → Value → Element

  pub data Elements : Type 0 where
    end : Elements
    next : Element → Elements → Elements

abbrev pub name_of : Element → String
name_of (element n as' es) = n
name_of (leaf n v) = n

-- The deserializer among the children of an element that it has not come by: `HasChildElement`, and
-- `EnterElement` with what is left to read after `LeaveElement`.
pub record Reader : Type 0 where
  pub has_child : String → Elements → Bool
  pub take_child : String → Elements → Option (Element × Elements)

-- `DateTime::ToISOString`, and the way back.
pub record Dates : Type 0 where
  pub to_iso : DateTime → String
  pub from_iso : String → Result DateTime

pub find_attribute : String → Attributes → Option Value
find_attribute n [] = none
find_attribute n ((m, v) ∷ as') = ite (String_discrete n m) (some v) (find_attribute n as')

abbrev pub as_text : Value → Result String
as_text (text s) = ok s
as_text _ = throw malformed_index

abbrev pub as_number : Value → Result ℕ
as_number (number n) = ok n
as_number _ = throw malformed_index

abbrev pub as_flag : Value → Result Bool
as_flag (flag b) = ok b
as_flag _ = throw malformed_index

abbrev pub leaf_value : Element → Result Value
leaf_value (leaf n v) = ok v
leaf_value _ = throw malformed_index

abbrev pub text_attribute : String → Attributes → Result String
text_attribute n as' = do v ← or_throw (find_attribute n as') malformed_index; as_text v

abbrev pub number_attribute : String → Attributes → Result ℕ
number_attribute n as' = do v ← or_throw (find_attribute n as') malformed_index; as_number v

-- The `StringMapping` of a file type.
pub type_name : FileType → String
type_name directory = "directory"
type_name file = "file"
type_name link = "link"

pub type_of_name : String → Result FileType
type_of_name s = ite (String_discrete s "directory") (ok directory) (
    ite (String_discrete s "file") (ok file)
      (ite (String_discrete s "link") (ok link) (throw malformed_index)))

pub setting_name : CompressionSetting → String
setting_name lzma = "lzma"

unfoldable pub setting_of_name : String → Result CompressionSetting
setting_of_name s = ite (String_discrete s "lzma") (ok lzma) (throw malformed_index)

-- `CustomArchive` of a block.
pub block_element : Block → Element
block_element b =
    element "Block"
      (("volumeNumber", number b.volume_number)
        ∷ ("offset", number b.offset)
        ∷ ("size", number b.size)
        ∷ [])
      end

pub block_elements : List Block → Elements
unfolding block_element
block_elements [] = end
block_elements (b ∷ bs) = next (block_element b) (block_elements bs)

-- A `Binding` of an `Optional`, which is an attribute if there is a value.
abbrev pub optional_attribute :
    {A : Type 0} → String → (A → String) → Option A → Attributes → Attributes
optional_attribute n f none as' = as'
optional_attribute n f (some a) as' = (n, text (f a)) ∷ as'

-- `SerializeBlocks`, in front of the elements that follow.
pub serialize_blocks :
    List Block → Bool → Option CompressionSetting → Option FilePath → Elements → Elements
unfolding block_elements setting_name
serialize_blocks [] owns setting owner es = es
serialize_blocks (b ∷ bs) owns setting owner es =
    next
      (element "Blocks"
        (("owned", flag owns)
          ∷ optional_attribute "owner" (λ p. p) owner
              (optional_attribute "compression" setting_name setting []))
        (block_elements (b ∷ bs)))
      es

abbrev pub read_optional : {A : Type 0} → (String → Result A) → Option Value → Result (Option A)
read_optional f none = ok none
read_optional f (some v) = do s ← as_text v; a ← f s; ok (some a)

unfoldable pub read_block : Element → Result Block
unfolding find_attribute
read_block (leaf n v) = throw malformed_index
read_block (element n as' es) = do
  v ← number_attribute "volumeNumber" as'
  o ← number_attribute "offset" as'
  s ← number_attribute "size" as'
  ok (record { volume_number = v; offset = o; size = s })

-- What `DeserializeBlocks` gives.
pub record NodeBlocks : Type 0 where
  pub blocks : List Block
  pub owns_blocks : Bool
  pub setting : Option CompressionSetting
  pub owner : Option FilePath

-- `SerializePermissions`.
pub permissions_element : Permissions → Result Element
permissions_element (posix user group mode) = ok (
    element "Permissions" (("type", text "POSIX") ∷ []) (
      next (leaf "owner" (number user))
        (next (leaf "group" (number group)) (next (leaf "mode" (number mode)) end))))
permissions_element foreign = throw not_implemented

-- The element for the time, if there is one.
abbrev pub time_element : (DateTime → String) → Option DateTime → Elements → Elements
time_element to_iso none es = es
time_element to_iso (some t) es = next (leaf "LastModified" (text (to_iso t))) es

-- The element for the size, but for a directory.
abbrev pub size_element : FileType → ℕ → Elements → Elements
size_element directory size es = es
size_element _ size es = next (leaf "Size" (number size)) es

module _ (md5 sha512_256 : HashAlgorithm) where
  -- The `StringMapping` of a hash algorithm.
  pub algorithm_name : HashAlgorithm → Result String
  algorithm_name a =
      if a == md5
      then ok "md5"
      else (if a == sha512_256 then ok "sha512/256" else throw malformed_index)

  unfoldable pub algorithm_of_name : String → Result HashAlgorithm
  algorithm_of_name s =
      ite (String_discrete s "md5") (ok md5)
        (ite (String_discrete s "sha512/256") (ok sha512_256) (throw malformed_index))

  pub hash_elements : List (HashAlgorithm × String) → Result Elements
  unfolding algorithm_name
  hash_elements [] = ok end
  hash_elements ((a, v) ∷ hs) = do
    n ← algorithm_name a
    es ← hash_elements hs
    ok (next (element "Hash" (("algorithm", text n) ∷ ("value", text v) ∷ []) end) es)

  -- `SerializeHashes`.
  pub serialize_hashes : List (HashAlgorithm × String) → Result Elements
  unfolding hash_elements
  serialize_hashes [] = ok end
  serialize_hashes (h ∷ hs) = do
    es ← hash_elements (h ∷ hs)
    ok (next (element "HashValues" [] es) end)

  -- `SerializeNode`.
  pub serialize_node : (DateTime → String) → FilePath → BackupNodeAttributes → Result Element
  unfolding type_name permissions_element serialize_blocks serialize_hashes
  serialize_node to_iso path a = do
    permissions ← permissions_element a.base.permissions
    hashes ← serialize_hashes a.hashes
    ok (
        element "Node" (("type", text (type_name a.base.type)) ∷ []) (
          next (leaf "Path" (text path)) (
            time_element to_iso a.base.last_modified_time (
              next permissions (
                size_element a.base.type a.base.size (
                  serialize_blocks a.blocks a.owns_blocks a.compression_setting
                    a.back_reference_target hashes))))))

  -- The loop of `Serialize` over the nodes that the list names.
  pub node_elements : (DateTime → String) → Nodes → List ℕ → Result Elements
  node_elements to_iso x [] = ok end
  node_elements to_iso x (i ∷ is) = do
    path ← get_node_path x i
    a ← get_node_attributes x i
    e ← serialize_node to_iso path a
    es ← node_elements to_iso x is
    ok (next e es)

  -- `Serialize`.
  pub serialize_index : (DateTime → String) → Nodes → Result Element
  unfolding node_elements
  serialize_index to_iso x = do
    es ← node_elements to_iso x (range_from 0 (number_of_nodes x))
    ok (element "SnapshotIndex" [] (next (element "Nodes" [] es) end))
