-- ===== src/BackupIndex/Archive/Read.antt =====
-- src/backup/BackupNodeIndex.cpp: an index is read from an XML document.
use acbackup.Prelude.{
  ℕ, zero, suc, ite, Bool, true, false, Option, none, some, List, [], ◌∷◌, String, String_discrete,
  Result, ok, throw, malformed_index, not_implemented, or_throw, ◌>>=◌, Call, and_then,
}
use acbackup.Node.{
  FilePath, DateTime, HashAlgorithm, Permissions, posix, Block, BackupNodeAttributes, put_hash,
}
use acbackup.Index.{add_node}
use acbackup.BackupIndex.{Nodes, BackupNodeIndex, compute_node_children, generate_hash_index}
use acbackup.BackupIndex.Archive.{
  Value, Element, Elements, element, leaf, end, next, Reader, Dates, NodeBlocks, find_attribute,
  as_text, as_number, as_flag, leaf_value, text_attribute, type_of_name, setting_of_name,
  read_optional, read_block, algorithm_of_name,
}

-- A call without a loop.
abbrev pub once : {A : Type 0} → Result A → Call A
once r = some r

module _ (reader : Reader) (dates : Dates) (md5 sha512_256 : HashAlgorithm) where
  abbrev pub take_element : String → Elements → Result (Element × Elements)
  take_element n es = or_throw (reader.take_child n es) malformed_index

  -- `deserializer & Binding(name, value)`.
  abbrev pub take_value : String → Elements → Result (Value × Elements)
  take_value n es = do (e, rest) ← take_element n es; v ← leaf_value e; ok (v, rest)

  abbrev pub take_number : String → Elements → Result (ℕ × Elements)
  take_number n es = do (v, rest) ← take_value n es; k ← as_number v; ok (k, rest)

  abbrev pub take_text : String → Elements → Result (String × Elements)
  take_text n es = do (v, rest) ← take_value n es; s ← as_text v; ok (s, rest)

  -- The loop of `DeserializeBlocks`, while more children exist.
  unfoldable pub read_blocks_loop : ℕ → Elements → Call (List Block)
  unfolding read_block
  read_blocks_loop zero es = none
  read_blocks_loop (suc fuel) end = some (ok [])
  read_blocks_loop (suc fuel) (next e es) = and_then (once (take_element "Block" (next e es))) (λ x.
      and_then (once (read_block x.0))
        (λ b. and_then (read_blocks_loop fuel x.1) (λ bs. some (ok (b ∷ bs)))))

  unfoldable pub blocks_of_element : ℕ → Element → Call NodeBlocks
  unfolding read_blocks_loop find_attribute setting_of_name
  blocks_of_element fuel (leaf n v) = some (throw malformed_index)
  blocks_of_element fuel (element n as' es) =
      and_then (once (or_throw (find_attribute "owned" as') malformed_index >>= as_flag)) (λ owned.
        and_then (once (read_optional (λ s. ok s) (find_attribute "owner" as'))) (λ owner.
          and_then (once (read_optional setting_of_name (find_attribute "compression" as')))
            (λ setting. and_then (read_blocks_loop fuel es) (λ bs. some (
              ok
                (record { blocks = bs; owns_blocks = owned; setting = setting; owner = owner }))))))

  -- `DeserializeBlocks`.
  unfoldable pub deserialize_blocks : ℕ → Elements → Call (NodeBlocks × Elements)
  unfolding blocks_of_element
  deserialize_blocks fuel es = elim (reader.has_child "Blocks" es) [
    | true ↦
        and_then (once (take_element "Blocks" es))
          (λ x. and_then (blocks_of_element fuel x.0) (λ b. some (ok (b, x.1))))
    | false ↦
        some (ok (record { blocks = []; owns_blocks = false; setting = none; owner = none }, es))
  ]

  unfoldable pub read_hash : Element → Result (HashAlgorithm × String)
  unfolding find_attribute algorithm_of_name
  read_hash (leaf n v) = throw malformed_index
  read_hash (element n as' es) = do
    s ← text_attribute "algorithm" as'
    a ← algorithm_of_name md5 sha512_256 s
    v ← text_attribute "value" as'
    ok (a, v)

  -- The loop of `DeserializeHashes`.
  unfoldable pub read_hashes_loop :
      ℕ → Elements → List (HashAlgorithm × String) → Call (List (HashAlgorithm × String))
  unfolding read_hash
  read_hashes_loop zero es result = none
  read_hashes_loop (suc fuel) end result = some (ok result)
  read_hashes_loop (suc fuel) (next e es) result =
      and_then (once (take_element "Hash" (next e es))) (λ x.
        and_then (once (read_hash x.0)) (λ h. read_hashes_loop fuel x.1 (put_hash h.0 h.1 result)))

  unfoldable pub hashes_of_element : ℕ → Element → Call (List (HashAlgorithm × String))
  unfolding read_hashes_loop
  hashes_of_element fuel (leaf n v) = some (throw malformed_index)
  hashes_of_element fuel (element n as' es) = read_hashes_loop fuel es []

  -- `DeserializeHashes`.
  unfoldable pub deserialize_hashes : ℕ → Elements → Call (List (HashAlgorithm × String) × Elements)
  unfolding hashes_of_element
  deserialize_hashes fuel es = elim (reader.has_child "HashValues" es) [
    | true ↦
        and_then (once (take_element "HashValues" es))
          (λ x. and_then (hashes_of_element fuel x.0) (λ h. some (ok (h, x.1))))
    | false ↦ some (ok ([], es))
  ]

  unfoldable pub posix_of : Elements → Result Permissions
  posix_of es = do
    (user, es') ← take_number "owner" es
    (group, es'') ← take_number "group" es'
    (mode, es''') ← take_number "mode" es''
    ok (posix user group mode)

  unfoldable pub permissions_of_element : Element → Result Permissions
  unfolding find_attribute posix_of
  permissions_of_element (leaf n v) = throw malformed_index
  permissions_of_element (element n as' es) = do
    t ← text_attribute "type" as'
    ite (String_discrete t "POSIX") (posix_of es) (throw not_implemented)

  -- `DeserializePermissions`.
  unfoldable pub deserialize_permissions : Elements → Result (Permissions × Elements)
  unfolding permissions_of_element
  deserialize_permissions es = do
    (e, rest) ← take_element "Permissions" es
    p ← permissions_of_element e
    ok (p, rest)

  unfoldable pub read_time : Elements → Result (Option DateTime × Elements)
  read_time es = elim (reader.has_child "LastModified" es) [
    | true ↦ do (s, rest) ← take_text "LastModified" es; t ← dates.from_iso s; ok (some t, rest)
    | false ↦ ok (none, es)
  ]

  unfoldable pub read_size : Elements → Result (ℕ × Elements)
  read_size es = elim (reader.has_child "Size" es) [
    | true ↦ take_number "Size" es
    | false ↦ ok (0, es)
  ]

  -- `DeserializeNode`, up to the call of `AddNode`.
  unfoldable pub node_of_element : ℕ → Element → Call (FilePath × BackupNodeAttributes)
  unfolding type_of_name read_time deserialize_permissions read_size deserialize_blocks
      deserialize_hashes
  node_of_element fuel (leaf n v) = some (throw malformed_index)
  node_of_element fuel (element n as' es) =
      and_then (once (text_attribute "type" as' >>= type_of_name)) (λ type.
        and_then (once (take_text "Path" es)) (λ path. and_then (once (read_time path.1)) (λ time.
          and_then (once (deserialize_permissions time.1)) (λ permissions.
            and_then (once (read_size permissions.1)) (λ size.
              and_then (deserialize_blocks fuel size.1) (λ blocks.
                and_then (deserialize_hashes fuel blocks.1) (λ hashes. some (
                  ok (
                    path.0,
                    record {
                      base = record {
                        type = type;
                        size = size.0;
                        permissions = permissions.0;
                        last_modified_time = time.0;
                      };
                      owns_blocks = blocks.0.owns_blocks;
                      compression_setting = blocks.0.setting;
                      back_reference_target = blocks.0.owner;
                      blocks = blocks.0.blocks;
                      hashes = hashes.0;
                    },
                  )))))))))

  module _ (is_absolute : FilePath → Bool) where
    -- The loop of the constructor: `DeserializeNode` of each child.
    unfoldable pub read_nodes : ℕ → Elements → Nodes → Call Nodes
    read_nodes zero es x = none
    read_nodes (suc fuel) end x = some (ok x)
    read_nodes (suc fuel) (next e es) x = and_then (once (take_element "Node" (next e es))) (λ c.
        and_then (node_of_element fuel c.0)
          (λ n. read_nodes fuel c.1 (add_node is_absolute x n.0 n.1)))

    unfoldable pub nodes_of_document : ℕ → Element → Call Nodes
    unfolding read_nodes
    nodes_of_document fuel (element n as' es) = and_then (once (take_element "Nodes" es)) (λ c.
        elim c.0 [
          | element m bs nodes ↦ read_nodes fuel nodes (record { attributes = []; path_map = [] })
          | leaf m v ↦ some (throw malformed_index)
        ])
    nodes_of_document fuel (leaf n v) = some (throw malformed_index)

    -- The constructor. `Path::IsRoot` and `Path::GetParent` are arguments.
    unfoldable pub deserialize_index :
        (FilePath → Bool)
        → (FilePath → FilePath)
        → HashAlgorithm
        → ℕ
        → Elements
        → Call BackupNodeIndex
    unfolding nodes_of_document
    deserialize_index is_root get_parent h fuel es =
        and_then (once (take_element "SnapshotIndex" es)) (λ c.
          and_then (nodes_of_document fuel c.0) (λ x.
            and_then (once (compute_node_children is_root get_parent x)) (λ children. some (
              ok (record {
                nodes = x;
                node_children = children;
                hash_index = generate_hash_index h x;
              })))))
