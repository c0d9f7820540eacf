-- ===== src/Volumes/Write.antt =====
-- `WriteBytes` ends and stores its whole source, and when it does not end.
use acbackup.Prelude.{
  ℕ, zero, suc, ◌+◌, ◌%◌, ◌^◌, ◌<◌, min, ◌≡◌, refl, sym, ap, subst, ◌∙◌, ◌≢◌, some, List, [], ◌∷◌,
  ◌++◌, map, ◌≤◌, arith, length, take, drop, ok, length-drop, take-append-drop, append-nil,
  append_assoc,
}
use acbackup.Node.{FilePath}
use acbackup.Index.{find_index}
use acbackup.BackupIndex.Changes.{Knows, without_blocks}
use acbackup.Volumes.{FlatVolumes, Writer, Accepts, find_stream, write_chunk, write_bytes}
use acbackup.Volumes.Assign.{Assigned, find_stream-Assigned}
use acbackup.Volumes.Chunk.{
  stored, IsConsistent, IsLawful, IsLively, round_count, write_chunk-Stores,
}
use acbackup.Volumes.Streams.{IsOpen, All-Holds, Holds-first_owned}

-- What the writes of a stream leave: the bytes are stored for its path, other paths keep theirs, and
-- the index is the same but for blocks.
pub record Written (s : FlatVolumes) (w : Writer) (src : List ℕ) (t : FlatVolumes) : Type 0 where
  pub consistent : IsConsistent t
  pub added : stored t w.path ≡ stored s w.path ++ src
  pub kept : (p : FilePath) → p ≢ w.path → stored t p ≡ stored s p
  pub paths : t.index.path_map ≡ s.index.path_map
  pub size : t.volume_size ≡ s.volume_size
  pub next : t.next_volume_number ≤ s.next_volume_number + length src
  pub same : map without_blocks t.index.attributes ≡ map without_blocks s.index.attributes

module _ (accepts : Accepts) (lawful : IsLawful accepts) (lively : IsLively accepts) where
  -- A round takes at least one byte, where the volume size is within the range of `uint32`.
  round_count_pos :
      (s : FlatVolumes) (w : Writer) (src : List ℕ)
      → s.volume_size < 2 ^ 32
      → 0 < length src
      → Assigned s w.address (find_stream s w.address).0 (find_stream s w.address).1
      → 0 < round_count accepts s w src
  round_count_pos s w src small some_bytes a =
      let (t, stream) = find_stream s w.address in
      let v =
        All-Holds (IsOpen t.volume_size t.next_volume_number t.files) a.volume t.open_volumes
          a.room.open_volumes (Holds-first_owned w.address a.volume t.open_volumes a.owner) in
      lively (t.files stream.number) (min (stream.left_size % 2 ^ 32) (length src))
        (omega (arith, v, a.left, a.size))

  write_bytes_cons :
      (fuel : ℕ) (s : FlatVolumes) (w : Writer) (b : ℕ) (bs : List ℕ) (u : FlatVolumes)
      (rest : List ℕ)
      → write_chunk accepts s w (b ∷ bs) ≡ ok (u, rest)
      → write_bytes accepts (suc fuel) s w (b ∷ bs) ≡ write_bytes accepts fuel u w rest
  unfolding write_bytes
  write_bytes_cons fuel s w b bs u rest e = rw (e, write_bytes)

  pub Knows-paths :
      (s t : FlatVolumes) (p : FilePath)
      → t.index.path_map ≡ s.index.path_map
      → Knows s.index p
      → Knows t.index p
  Knows-paths s t p e k = subst (λ m. (i : ℕ) × (find_index p m ≡ some i)) (sym e) k

  pub write_bytes-Written :
      (fuel : ℕ) (s : FlatVolumes) (w : Writer) (src : List ℕ)
      → IsConsistent s
      → Knows s.index w.path
      → s.volume_size < 2 ^ 32
      → s.next_volume_number + length src < 2 ^ 64
      → length src < fuel
      → (t : FlatVolumes) × (write_bytes accepts fuel s w src ≡ some (ok t)) × Written s w src t
  unfolding write_bytes
  write_bytes-Written zero s w src c k small b h = absurd (omega arith)
  write_bytes-Written (suc fuel) s w [] c k small b h = (
    s,
    refl,
    record {
      consistent = c;
      added = sym (append-nil (stored s w.path));
      kept = λ p n. refl;
      paths = refl;
      size = refl;
      next = omega arith;
      same = refl;
    },
  )
  write_bytes-Written (suc fuel) s w (x ∷ xs) c k small b h =
      let src : List ℕ = x ∷ xs in
      let a = find_stream-Assigned s w.address c.room (omega arith) in
      let n = round_count accepts s w src in
      let (u, e, stores, v) = write_chunk-Stores accepts s w src lawful c k a in
      let positive = round_count_pos s w src small (omega arith) a in
      let (t, e', more) =
        write_bytes-Written fuel u w (drop n src) stores.consistent
          (Knows-paths s u w.path stores.paths k) (omega (arith, stores.size))
          (omega (arith, stores.next, length-drop n src)) (omega (arith, length-drop n src)) in
      (
        t,
        write_bytes_cons fuel s w x xs u (drop n src) e ∙ e',
        record {
          consistent = more.consistent;
          added =
              more.added
              ∙ ap (λ r. r ++ drop n src) stores.added
              ∙ append_assoc (stored s w.path) (take n src) (drop n src)
              ∙ ap (λ r. stored s w.path ++ r) (take-append-drop n src);
          kept = λ p q. more.kept p q ∙ stores.kept p q;
          paths = more.paths ∙ stores.paths;
          size = more.size ∙ stores.size;
          next = omega (arith, more.next, stores.next, length-drop n src);
          same = more.same ∙ stores.same;
        },
      )

  -- On a disk that takes no more bytes than it is given and at least one, `WriteBytes` for a path
  -- of the index into consistent volumes of less than 4 GiB, with volume numbers left in `uint64`
  -- for each byte, returns with fuel for a round for each byte and one more. The bytes are stored
  -- behind those that the path had, every other path keeps its bytes, and the volumes stay
  -- consistent.
  pub write_bytes-stored :
      (fuel : ℕ) (s : FlatVolumes) (w : Writer) (src : List ℕ)
      → IsConsistent s
      → Knows s.index w.path
      → s.volume_size < 2 ^ 32
      → s.next_volume_number + length src < 2 ^ 64
      → length src < fuel
      → (t : FlatVolumes) × (write_bytes accepts fuel s w src ≡ some (ok t))
        × IsConsistent t
        × (stored t w.path ≡ stored s w.path ++ src)
        × ((p : FilePath) → p ≢ w.path → stored t p ≡ stored s p)
  write_bytes-stored fuel s w src c k small b h =
      let (t, e, written) = write_bytes-Written fuel s w src c k small b h in
      (t, e, written.consistent, written.added, written.kept)
