-- ===== src/Node.antt =====
-- src/indexing/FileSystemNodeAttributes.hpp, src/backup/BackupNodeAttributes.{hpp,cpp} and
-- src/CompressionSetting.hpp: the attributes that an index keeps of each node.
pub mod Blocks
pub mod HashValues
use acbackup.Prelude.{
  ℕ, ◌+◌, ◌%◌, ◌^◌, ite, Bool, true, false, ◌&&◌, Option, none, some, List, [], ◌∷◌, ◌++◌, String,
  String_discrete, ℕ_discrete, ◌==◌, if◌then◌else◌, Result, ok, throw, missing_key,
  verification_failed, or_throw,
}

-- `FileSystem::Path`, a text. A `DateTime` is a count of ticks, and a `Crypto::HashAlgorithm` the
-- number of the enumerator.
abbrev pub FilePath : Type 0
FilePath = String

abbrev pub DateTime : Type 0
DateTime = ℕ

abbrev pub HashAlgorithm : Type 0
HashAlgorithm = ℕ

-- `uint64` addition.
abbrev pub add_uint64 : ℕ → ℕ → ℕ
add_uint64 a b = (a + b) % 2 ^ 64

pub data FileType : Type 0 where
  directory file link : FileType

pub data CompressionSetting : Type 0 where
  lzma : CompressionSetting

-- `POSIXPermissions` with owner, group and mode, and any other class of permissions.
pub data Permissions : Type 0 where
  posix : ℕ → ℕ → ℕ → Permissions
  foreign : Permissions

pub record NodeAttributes : Type 0 where
  pub type : FileType
  pub size : ℕ
  pub permissions : Permissions
  pub last_modified_time : Option DateTime

-- What the operating system says of a file.
pub record FileInfo : Type 0 where
  pub type : FileType
  pub size : ℕ
  pub permissions : Permissions
  pub last_modified_time : Option DateTime

-- The constructor from a `FileInfo`: a directory has no size of its own.
unfoldable pub of_file_info : FileInfo → NodeAttributes
of_file_info info = record {
  type = info.type;
  size = elim info.type [ directory ↦ 0 | _ ↦ info.size ];
  permissions = info.permissions;
  last_modified_time = info.last_modified_time;
}

pub FileType_discrete : Discrete FileType
FileType_discrete = hlevel

pub Time_discrete : Discrete (Option DateTime)
Time_discrete = hlevel ℕ_discrete

-- `operator==`, which does not look at the permissions.
unfoldable pub same_attributes : NodeAttributes → NodeAttributes → Bool
same_attributes a b =
    ite (FileType_discrete a.type b.type) true false
    && (a.size == b.size)
    && ite (Time_discrete a.last_modified_time b.last_modified_time) true false

-- `CopyFrom`, which keeps the permissions.
unfoldable pub copy_from : NodeAttributes → NodeAttributes → NodeAttributes
copy_from a other = record a {
  type = other.type;
  size = other.size;
  last_modified_time = other.last_modified_time;
}

pub record Block : Type 0 where
  pub volume_number : ℕ
  pub offset : ℕ
  pub size : ℕ

pub record BackupNodeAttributes : Type 0 where
  pub base : NodeAttributes
  pub owns_blocks : Bool
  pub compression_setting : Option CompressionSetting
  pub back_reference_target : Option FilePath
  pub blocks : List Block
  pub hashes : List (HashAlgorithm × String)

-- The constructor from the attributes of a source node. It leaves `ownsBlocks` as it finds the
-- memory, which is the first argument.
unfoldable pub of_node_attributes : Bool → NodeAttributes → BackupNodeAttributes
of_node_attributes uninitialized a = record {
  base = a;
  owns_blocks = uninitialized;
  compression_setting = none;
  back_reference_target = none;
  blocks = [];
  hashes = [];
}

-- The loop body of `AddBlock` on the array: the last block grows if the new one goes on where it
-- ends, and otherwise the new one is pushed.
pub push_block : Block → List Block → List Block
push_block b [] = b ∷ []
push_block b (last ∷ []) =
    if (last.volume_number == b.volume_number) && (add_uint64 last.offset last.size == b.offset)
    then record last { size = add_uint64 last.size b.size } ∷ []
    else last ∷ b ∷ []
push_block b (first ∷ second ∷ rest) = first ∷ push_block b (second ∷ rest)

unfoldable pub add_block : Block → BackupNodeAttributes → BackupNodeAttributes
unfolding push_block
add_block b a = record a { owns_blocks = true; blocks = push_block b a.blocks }

pub sum_from : ℕ → List Block → ℕ
sum_from sum [] = sum
sum_from sum (b ∷ bs) = sum_from (add_uint64 sum b.size) bs

-- `ComputeSumOfBlockSizes`.
pub sum_of_block_sizes : List Block → ℕ
unfolding sum_from
sum_of_block_sizes bs = sum_from 0 bs

-- `BinaryTreeMap<HashAlgorithm, String>`.
unfoldable pub find_hash : HashAlgorithm → List (HashAlgorithm × String) → Option String
find_hash h [] = none
find_hash h ((k, v) ∷ m) = if h == k then some v else find_hash h m

unfoldable pub put_hash :
    HashAlgorithm → String → List (HashAlgorithm × String) → List (HashAlgorithm × String)
put_hash h v [] = (h, v) ∷ []
put_hash h v ((k, w) ∷ m) = if h == k then (h, v) ∷ m else (k, w) ∷ put_hash h v m

unfoldable pub hash_of : HashAlgorithm → BackupNodeAttributes → Result String
hash_of h a = or_throw (find_hash h a.hashes) missing_key

-- A second value for the same algorithm must be the first one.
unfoldable pub add_hash_value :
    HashAlgorithm → String → BackupNodeAttributes → Result BackupNodeAttributes
add_hash_value h v a = elim (find_hash h a.hashes) [
  | some w ↦ ite (String_discrete w v) (ok stored) (throw verification_failed)
  | none ↦ ok stored
]
  where
    stored : BackupNodeAttributes
    stored = record a { hashes = put_hash h v a.hashes }
