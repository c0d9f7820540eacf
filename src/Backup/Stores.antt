-- ===== src/Backup/Stores.antt =====
-- `BackupNode` stores the data of a node, and its hash value.
use acbackup.Prelude.{
  ℕ, ◌≡◌, ◌≢◌, refl, sym, ap, subst, ◌∙◌, Bool, false, Option, none, some, List, [], ◌∷◌, ◌++◌,
  get_elem?, String, ok, Call,
}
use acbackup.Node.{
  FilePath, HashAlgorithm, CompressionSetting, NodeAttributes, BackupNodeAttributes, add_hash_value,
  find_hash, put_hash,
}
use acbackup.Index.{find_index, change_node, get_node_attributes}
use acbackup.BackupIndex.Changes.{without_blocks, get_elem?-modify_self}
use acbackup.Volumes.{FlatVolumes, Writer, Accepts, close_file}
use acbackup.Volumes.Chunk.{stored, IsConsistent, IsLawful, IsLively}
use acbackup.Volumes.Write.{Written}
use acbackup.Volumes.Schedule.{close-IsConsistent}
use acbackup.Statistics.{Floats, Rates}
use acbackup.Backup.{
  Library, Config, NodeInput, BackupState, choose_level, write_all, set_compression, sample_rate,
  finish_node,
}
use acbackup.Backup.Writes.{joined}
use acbackup.Backup.Attributes.{same_node, change_node-stored}

-- The bytes that a node's blocks hold.
unfoldable pub encoded : Library → Option ℕ → List ℕ → List ℕ
encoded library none bytes = bytes
encoded library (some level) bytes = library.compress level bytes

-- The streams hand on what they get, and a decompressor undoes the compressor.
pub record IsFaithful (library : Library) : Type 0 where
  pub hands_on :
      (block_size : ℕ) (level : Option ℕ) (bytes : List ℕ)
      → joined (library.write_calls block_size level bytes).piped
          ++ joined (library.write_calls block_size level bytes).flushed
        ≡ encoded library level bytes
  pub undoes :
      (level : ℕ) (bytes : List ℕ) → library.decompress (library.compress level bytes) ≡ ok bytes

-- The compression setting of a node.
unfoldable pub setting_for : Config → Option ℕ → Option CompressionSetting
setting_for config none = none
setting_for config (some level) = some config.compression_setting

add_hash_value_first :
    (h : HashAlgorithm) (v : String) (a : BackupNodeAttributes)
    → a.hashes ≡ []
    → add_hash_value h v a ≡ ok (record a { hashes = (h, v) ∷ [] })
unfolding add_hash_value find_hash put_hash
add_hash_value_first h v a e = rw (e, find_hash, put_hash) refl

-- The node at a path: its number, the bytes that its blocks hold, and its attributes but for the
-- blocks.
pub record HoldsNode (path : FilePath) (n : ℕ) (new : NodeAttributes)
    (setting : Option CompressionSetting) (hashes : List (HashAlgorithm × String)) (bytes : List ℕ)
    (s : FlatVolumes) : Type 0 where
  pub consistent : IsConsistent s
  pub holds : stored s path ≡ bytes
  pub known : find_index path s.index.path_map ≡ some n
  pub node : BackupNodeAttributes
  pub at : get_elem? s.index.attributes n ≡ some node
  pub like : without_blocks node ≡ record {
    base = new;
    owns_blocks = false;
    compression_setting = setting;
    back_reference_target = none;
    blocks = [];
    hashes = hashes;
  }

-- A node whose data was stored, with its hash value.
abbrev pub BackedUp :
    Library → Config → FilePath → ℕ → NodeAttributes → List ℕ → Option ℕ → FlatVolumes → Type 0
BackedUp library config path n new bytes level t =
    HoldsNode path n new (setting_for config level)
      ((config.hash_algorithm, library.digest config.hash_algorithm bytes) ∷ [])
      (encoded library level bytes) t

-- Other paths keep their bytes.
abbrev pub OthersKept : FilePath → FlatVolumes → FlatVolumes → Type 0
OthersKept path s t = (p : FilePath) → p ≢ path → stored t p ≡ stored s p

module _ (floats : Floats) (to_lowercase get_file_extension : String → String) (library : Library)
    (config : Config) (accepts : Accepts) (is_absolute : FilePath → Bool)
    (lawful : IsLawful accepts) (lively : IsLively accepts) (faithful : IsFaithful library) where
  abbrev State : Type 0
  State = BackupState floats to_lowercase get_file_extension library config accepts is_absolute

  abbrev Input : Type 0
  Input = NodeInput floats to_lowercase get_file_extension library config accepts is_absolute

  abbrev level_for : floats.Float → Option ℕ
  level_for = choose_level floats to_lowercase get_file_extension library config accepts is_absolute

  abbrev compression : Option ℕ → ℕ → FlatVolumes → FlatVolumes
  compression =
      set_compression floats to_lowercase get_file_extension library config accepts is_absolute

  pub set_compression-HoldsNode :
      (path : FilePath) (n : ℕ) (new : NodeAttributes) (level : Option ℕ) (s : FlatVolumes)
      → HoldsNode path n new none [] [] s
      → HoldsNode path n new (setting_for config level) [] [] (compression level n s)
        × OthersKept path s (compression level n s)
        × ((compression level n s).volume_size ≡ s.volume_size)
        × ((compression level n s).next_volume_number ≡ s.next_volume_number)
  unfolding set_compression setting_for without_blocks
  set_compression-HoldsNode path n new none s h = (h, λ p q. refl, refl, refl)
  set_compression-HoldsNode path n new (some level) s h =
      let f : BackupNodeAttributes → BackupNodeAttributes =
        λ a. record a { compression_setting = some config.compression_setting } in
      let (c, same) = change_node-stored s n h.node f h.consistent h.at refl in
      (
        record {
          consistent = c;
          holds = same path ∙ h.holds;
          known = unfold change_node in h.known;
          node = f h.node;
          at = unfold change_node in get_elem?-modify_self f s.index.attributes n h.node h.at;
          like = ap f h.like;
        },
        λ p q. same p,
        refl,
        refl,
      )

  abbrev writes : ℕ → FlatVolumes → Writer → List (List ℕ) → Call FlatVolumes
  writes = write_all floats to_lowercase get_file_extension library config accepts is_absolute

  pub Written-HoldsNode :
      (n : ℕ) (new : NodeAttributes) (setting : Option CompressionSetting)
      (hashes : List (HashAlgorithm × String)) (bytes more : List ℕ) (w : Writer)
      (s t : FlatVolumes)
      → HoldsNode w.path n new setting hashes bytes s
      → Written s w more t
      → HoldsNode w.path n new setting hashes (bytes ++ more) t
  Written-HoldsNode n new setting hashes bytes more w s t h written =
      let (node, at, like) = same_node s.index t.index n h.node written.same h.at in
      record {
        consistent = written.consistent;
        holds = written.added ∙ ap (λ r. r ++ more) h.holds;
        known = subst (λ m. find_index w.path m ≡ some n) (sym written.paths) h.known;
        node = node;
        at = at;
        like = like ∙ h.like;
      }

  pub finish_node-HoldsNode :
      (level : Option ℕ) (n : ℕ) (w : Writer) (new : NodeAttributes)
      (setting : Option CompressionSetting) (bytes held : List ℕ)
      (statistics : Rates floats to_lowercase) (s : FlatVolumes)
      → HoldsNode w.path n new setting [] held s
      → (t : State) × (finish_node floats to_lowercase get_file_extension library config accepts
            is_absolute level n w new bytes statistics s
          ≡ ok t)
        × HoldsNode w.path n new setting
            ((config.hash_algorithm, library.digest config.hash_algorithm bytes) ∷ [])
            held
            t.volumes
        × OthersKept w.path s t.volumes
  unfolding finish_node get_node_attributes without_blocks
  finish_node-HoldsNode level n w new setting bytes held statistics s h =
      let v = library.digest config.hash_algorithm bytes in
      let a' : BackupNodeAttributes = record h.node { hashes = (config.hash_algorithm, v) ∷ [] } in
      let added =
        add_hash_value_first config.hash_algorithm v h.node
          (ap (λ (a : BackupNodeAttributes). a.hashes) h.like) in
      let (c, same) = change_node-stored s n h.node (λ b. a') h.consistent h.at refl in
      let t : State = record {
        volumes = record s {
          index = change_node s.index n (λ b. a');
          open_volumes = close_file w.address s.open_volumes;
        };
        statistics =
            sample_rate floats to_lowercase get_file_extension library config accepts is_absolute
              level new.type w.path h.node statistics;
      } in
      (
        t,
        rw (h.at, added) refl,
        record {
          consistent =
              close-IsConsistent (record s { index = change_node s.index n (λ b. a') }) w.address c;
          holds = unfold stored in same w.path ∙ h.holds;
          known = unfold change_node in h.known;
          node = a';
          at =
              unfold change_node in
              get_elem?-modify_self (λ b. a') s.index.attributes n h.node h.at;
          like =
              ap
                (λ (a : BackupNodeAttributes). record a {
                  hashes = (config.hash_algorithm, v) ∷ [];
                })
                h.like;
        },
        λ p q. unfold stored in same p,
      )
