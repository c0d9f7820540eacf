-- ===== src/SourceIndex.antt =====
-- src/indexing/OSFileSystemNodeIndex.{hpp,cpp}: the index of the directory that is backed up. Here
-- are its nodes and the hash of a node.
pub mod Filters
pub mod Walk
pub mod Listing
pub mod Entries
pub mod Counted
use acbackup.Prelude.{
  ℕ, List, String, Result, ok, throw, stream_piping_failed, assertion_failed, ◌>>=◌, length, ◌==◌,
  if◌then◌else◌,
}
use acbackup.Node.{FilePath, NodeAttributes, directory}
use acbackup.Index.{Index, get_node_attributes, get_node_path}

-- What `OpenFile` reads of a file, or `OpenLinkTargetAsStream` of a link, to the end.
pub record SourceIndex : Type 0 where
  pub nodes : Index NodeAttributes
  pub contents : FilePath → List ℕ

-- The `Crypto::HashFunction` of the configuration, as the digest in lower case.
abbrev pub Digest : Type 0
Digest = List ℕ → String

-- The end of `ComputeNodeHash`: fewer or more bytes than the index says are an error.
unfoldable pub hash_contents : Digest → ℕ → List ℕ → Result String
hash_contents digest size bytes =
    if length bytes == size then ok (digest bytes) else throw stream_piping_failed

-- `ComputeNodeHash`, which asserts that the node is no directory.
unfoldable pub compute_node_hash : Digest → SourceIndex → ℕ → Result String
unfolding hash_contents
compute_node_hash digest x i = do
  a ← get_node_attributes x.nodes i
  elim a.type [
    | directory ↦ throw assertion_failed
    | _ ↦ do path ← get_node_path x.nodes i; hash_contents digest a.size (x.contents path)
  ]
