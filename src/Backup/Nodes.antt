-- ===== src/Backup/Nodes.antt =====
-- src/backup/Snapshot.cpp: `BackupNode` as a whole.
use acbackup.Prelude.{
  ℕ, ◌+◌, ◌^◌, ◌<◌, ◌≡◌, refl, sym, ap, subst, ◌∙◌, Bool, true, Option, none, some, List, [], ◌∷◌,
  arith, length, String, ok, Call, and_then, length-append, ◌==◌,
}
use acbackup.Node.{FilePath, NodeAttributes, of_node_attributes}
use acbackup.Index.{
  Index, find_index, add_node, number_of_nodes, get_node_attributes, get_node_path,
}
use acbackup.BackupIndex.Changes.{without_blocks}
use acbackup.Volumes.{FlatVolumes, Writer, Accepts}
use acbackup.Volumes.Chunk.{IsConsistent, IsLawful, IsLively}
use acbackup.Statistics.{Floats}
use acbackup.Backup.{
  Library, Config, SourceFiles, NodeInput, BackupState, open_node, choose_level, write_all,
  set_compression, finish_node, store_node, backup_node,
}
use acbackup.Backup.Writes.{joined, write_all-Written}
use acbackup.Backup.Attributes.{add_node-stored}
use acbackup.Backup.Stores.{
  encoded, IsFaithful, setting_for, HoldsNode, BackedUp, OthersKept, set_compression-HoldsNode,
  Written-HoldsNode, finish_node-HoldsNode,
}

module _ (floats : Floats) (to_lowercase get_file_extension : String → String) (library : Library)
    (config : Config) (accepts : Accepts) (is_absolute : FilePath → Bool)
    (lawful : IsLawful accepts) (lively : IsLively accepts) (faithful : IsFaithful library) where
  abbrev State : Type 0
  State = BackupState floats to_lowercase get_file_extension library config accepts is_absolute

  abbrev Input : Type 0
  Input = NodeInput floats to_lowercase get_file_extension library config accepts is_absolute

  abbrev level_for : floats.Float → Option ℕ
  level_for = choose_level floats to_lowercase get_file_extension library config accepts is_absolute

  abbrev compression : Option ℕ → ℕ → FlatVolumes → FlatVolumes
  compression =
      set_compression floats to_lowercase get_file_extension library config accepts is_absolute

  abbrev writes : ℕ → FlatVolumes → Writer → List (List ℕ) → Call FlatVolumes
  writes = write_all floats to_lowercase get_file_extension library config accepts is_absolute

  store_node_lem :
      (fuel n : ℕ) (w : Writer) (new : NodeAttributes) (input : Input) (s s' s'' : FlatVolumes)
      (t : State)
      → writes fuel
          (compression (level_for input.rate) n s)
          w
          (library.write_calls config.block_size (level_for input.rate) input.bytes).piped
        ≡ some (ok s')
      → (length input.bytes == new.size) ≡ true
      → writes fuel s' w
          (library.write_calls config.block_size (level_for input.rate) input.bytes).flushed
        ≡ some (ok s'')
      → finish_node floats to_lowercase get_file_extension library config accepts is_absolute
          (level_for input.rate)
          n
          w
          new
          input.bytes
          input.statistics
          s''
        ≡ ok t
      → store_node floats to_lowercase get_file_extension library config accepts is_absolute fuel n
          w new input s
        ≡ some (ok t)
  unfolding store_node
  store_node_lem fuel n w new input s s' s'' t e1 e2 e3 e4 =
      rw (e1, and_then, e2, e3, and_then, e4) refl

  store_node-BackedUp :
      (fuel n : ℕ) (w : Writer) (new : NodeAttributes) (input : Input) (s : FlatVolumes)
      → HoldsNode w.path n new none [] [] s
      → length input.bytes ≡ new.size
      → s.volume_size < 2 ^ 32
      → s.next_volume_number + length (encoded library (level_for input.rate) input.bytes) < 2 ^ 64
      → length (encoded library (level_for input.rate) input.bytes) < fuel
      → (t : State) × (store_node floats to_lowercase get_file_extension library config accepts
            is_absolute fuel n w new input s
          ≡ some (ok t))
        × BackedUp library config w.path n new input.bytes (level_for input.rate) t.volumes
        × OthersKept w.path s t.volumes
  store_node-BackedUp fuel n w new input s h size small room enough =
      let level = level_for input.rate in
      let calls = library.write_calls config.block_size level input.bytes in
      let joins = faithful.hands_on config.block_size level input.bytes in
      let l = length-append (joined calls.piped) (joined calls.flushed) in
      let total : length (joined calls.piped) + length (joined calls.flushed)
          ≡ length (encoded library level input.bytes) =
        sym l ∙ ap length joins in
      let (h1, kept1, size1, next1) =
        set_compression-HoldsNode floats to_lowercase get_file_extension library config accepts
          is_absolute lawful lively faithful w.path n new level s h in
      let (s', e', written') =
        write_all-Written floats to_lowercase get_file_extension library config accepts is_absolute
          lawful lively fuel (compression level n s) w calls.piped h1.consistent (n, h1.known)
          (omega (arith, size1)) (omega (arith, next1, total)) (omega (arith, total)) in
      let h2 =
        Written-HoldsNode floats to_lowercase get_file_extension library config accepts is_absolute
          lawful lively faithful n new (setting_for config level) [] [] (joined calls.piped) w _ s'
          h1 written' in
      let (s'', e'', written'') =
        write_all-Written floats to_lowercase get_file_extension library config accepts is_absolute
          lawful lively fuel s' w calls.flushed h2.consistent (n, h2.known)
          (omega (arith, size1, written'.size)) (omega (arith, next1, written'.next, total))
          (omega (arith, total)) in
      let h3 =
        Written-HoldsNode floats to_lowercase get_file_extension library config accepts is_absolute
          lawful lively faithful n new (setting_for config level) [] (joined calls.piped)
          (joined calls.flushed) w s' s'' h2 written'' in
      let (t, done, h4, kept4) =
        finish_node-HoldsNode floats to_lowercase get_file_extension library config accepts
          is_absolute lawful lively faithful level n w new (setting_for config level) input.bytes _
          input.statistics s'' h3 in
      (
        t,
        store_node_lem fuel n w new input s s' s'' t e' (ground arith) e'' done,
        subst
            (λ held.
              HoldsNode w.path n new (setting_for config level)
                ((config.hash_algorithm, library.digest config.hash_algorithm input.bytes) ∷ [])
                held t.volumes)
            joins h4,
        λ p q. kept4 p q ∙ written''.kept p q ∙ written'.kept p q ∙ kept1 p q,
      )

  backup_node_lem :
      (fuel : ℕ) (uninitialized : Bool) (address : ℕ) (files : SourceFiles) (i : ℕ)
      (source : Index NodeAttributes) (state t : State) (path : FilePath) (new : NodeAttributes)
      (input : Input)
      → get_node_path source i ≡ ok path
      → get_node_attributes source i ≡ ok new
      → open_node floats to_lowercase get_file_extension library config accepts is_absolute files
          new.type path new.size state.statistics
        ≡ ok (some input)
      → store_node floats to_lowercase get_file_extension library config accepts is_absolute fuel
          (number_of_nodes state.volumes.index)
          (record { address = address; path = path })
          new
          input
          (record state.volumes {
            index =
                add_node is_absolute state.volumes.index path
                  (of_node_attributes uninitialized new);
          })
        ≡ some (ok t)
      → backup_node floats to_lowercase get_file_extension library config accepts is_absolute fuel
          uninitialized address files i source state
        ≡ some (ok t)
  unfolding backup_node
  backup_node_lem fuel uninitialized address files i source state t path new input e1 e2 e3 e4 =
      rw (e1, and_then, e2, and_then, e3, and_then, e4) refl

  -- On a disk that takes no more bytes than it is given and at least one, with streams that hand on
  -- what they get: for a file or link of the source with an absolute path that the snapshot does
  -- not have, whose data is read and has the size that the index says, into consistent volumes of
  -- less than 4 GiB, with volume numbers left in `uint64` and fuel for each byte that is written,
  -- `BackupNode` returns. The volumes stay consistent. The blocks of the path hold the data,
  -- compressed if the rate is at most 0.9, and its attributes are those of the source with the
  -- compression setting if there is a compressor and the hash value of the data. Every other path
  -- keeps its bytes.
  pub backup_node-BackedUp :
      (fuel : ℕ) (uninitialized : Bool) (address : ℕ) (files : SourceFiles) (i : ℕ)
      (source : Index NodeAttributes) (state : State) (path : FilePath) (new : NodeAttributes)
      (input : Input)
      → get_node_path source i ≡ ok path
      → get_node_attributes source i ≡ ok new
      → open_node floats to_lowercase get_file_extension library config accepts is_absolute files
          new.type path new.size state.statistics
        ≡ ok (some input)
      → length input.bytes ≡ new.size
      → is_absolute path ≡ true
      → find_index path state.volumes.index.path_map ≡ none
      → IsConsistent state.volumes
      → state.volumes.volume_size < 2 ^ 32
      → state.volumes.next_volume_number
          + length (encoded library (level_for input.rate) input.bytes)
        < 2 ^ 64
      → length (encoded library (level_for input.rate) input.bytes) < fuel
      → (t : State) × (backup_node floats to_lowercase get_file_extension library config accepts
            is_absolute fuel uninitialized address files i source state
          ≡ some (ok t))
        × BackedUp library config path
            (number_of_nodes state.volumes.index)
            new
            input.bytes
            (level_for input.rate)
            t.volumes
        × OthersKept path state.volumes t.volumes
  unfolding without_blocks of_node_attributes number_of_nodes
  backup_node-BackedUp fuel uninitialized address files i source state path new input e1 e2 e3 size
        absolute fresh c small room enough =
      let s = state.volumes in
      let a = of_node_attributes uninitialized new in
      let added : FlatVolumes = record s { index = add_node is_absolute s.index path a } in
      let (c', holds, kept, known, at) =
        add_node-stored is_absolute s path a absolute c fresh refl in
      let w : Writer = record { address = address; path = path } in
      let h : HoldsNode path (number_of_nodes s.index) new none [] [] added = record {
        consistent = c';
        holds = holds;
        known = known;
        node = a;
        at = at;
        like = refl;
      } in
      let (t, e, backed_up, others) =
        store_node-BackedUp fuel (number_of_nodes s.index) w new input added h size small room
          enough in
      (
        t,
        backup_node_lem fuel uninitialized address files i source state t path new input e1 e2 e3 e,
        backed_up,
        λ p q. others p q ∙ kept p q,
      )
