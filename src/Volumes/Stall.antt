-- ===== src/Volumes/Stall.antt =====
-- When the loop of `WriteBytes` does not end: it cuts the room of a volume to `uint32`, and
-- nothing is written where that gives zero.
use acbackup.Prelude.{
  ℕ, zero, suc, ◌+◌, ◌-◌, ◌%◌, ◌^◌, ◌<◌, min, ◌≡◌, refl, sym, ap, subst, ◌∙◌, inl, inr, none, some,
  List, [], ◌∷◌, arith, length, Bool-cases, ok, drop-zero_eq,
}
use acbackup.Index.{find_index}
use acbackup.BackupIndex.Changes.{Knows}
use acbackup.Volumes.{
  FlatVolumes, Writer, OpenVolume, Accepts, Found, owned, free, nothing, scan, first_owned,
  is_owned_by, count_written, find_stream, write_chunk, write_bytes,
}
use acbackup.Volumes.Assign.{Assigned, find_stream-Assigned, owned-Assigned}
use acbackup.Volumes.Chunk.{IsConsistent, IsLawful, round_count, write_chunk-Stores}
use acbackup.Volumes.Streams.{IsOpen, Finds, scan-Finds, All-Holds, Holds-first_owned}

find_stream_owned :
    (s : FlatVolumes) (w : ℕ) (v : OpenVolume)
    → first_owned w s.open_volumes ≡ some v
    → find_stream s w ≡ (s, record { number = v.number; left_size = v.left_size })
unfolding find_stream
find_stream_owned s w v e = go (scan w none s.open_volumes) refl (scan-Finds w none s.open_volumes)
  where
    go :
        (f : Found)
        → scan w none s.open_volumes ≡ f
        → Finds w none s.open_volumes f
        → find_stream s w ≡ (s, record { number = v.number; left_size = v.left_size })
    go (owned u) q h = let same : u ≡ v = ground arith in rw (q, find_stream, same)
    go (free u) q h = ground arith
    go nothing q h = ground arith

-- A round that writes nothing leaves the writer's volume as it is.
first_owned-count_written_zero :
    (w n : ℕ) (v : OpenVolume) (vs : List OpenVolume)
    → n ≡ 0
    → 0 < v.left_size
    → v.left_size < 2 ^ 64
    → first_owned w vs ≡ some v
    → (u : OpenVolume) × (first_owned w (count_written w n vs) ≡ some u)
      × (u.left_size ≡ v.left_size)
unfolding first_owned count_written
first_owned-count_written_zero w n v [] z p b e = cc
first_owned-count_written_zero w n v (u ∷ us) z p b e =
    elim (Bool-cases (is_owned_by w u.owned_writer)) [
      | inl t ↦
          (record u { left_size = (u.left_size + 2 ^ 64 - n) % 2 ^ 64 }, ground arith, ground arith)
      | inr f ↦
          let (x, q, l) = first_owned-count_written_zero w n v us z p b (ground arith) in
          (x, rw f (rw f q), l)
    ]

module _ (accepts : Accepts) (lawful : IsLawful accepts) where
  -- The writer has a volume with a multiple of 4 GiB left.
  abbrev IsStalled : FlatVolumes → Writer → Type 0
  IsStalled s w =
      IsConsistent s
      × Knows s.index w.path
      × (v : OpenVolume) × (first_owned w.address s.open_volumes ≡ some v)
      × (v.left_size % 2 ^ 32 ≡ 0)

  IsStalled-round :
      (s : FlatVolumes) (w : Writer) (src : List ℕ)
      → IsConsistent s
      → Knows s.index w.path
      → Assigned s w.address (find_stream s w.address).0 (find_stream s w.address).1
      → (find_stream s w.address).1.left_size % 2 ^ 32 ≡ 0
      → (u : FlatVolumes) × (write_chunk accepts s w src ≡ ok (u, src)) × IsStalled u w
  IsStalled-round s w src c k a z =
      let n = round_count accepts s w src in
      let (t, stream) = find_stream s w.address in
      let zero_bytes : n ≡ 0 =
        omega
          (arith, lawful (t.files stream.number) (min (stream.left_size % 2 ^ 32) (length src))) in
      let (u, e, stores, vs) = write_chunk-Stores accepts s w src lawful c k a in
      let o =
        All-Holds (IsOpen t.volume_size t.next_volume_number t.files) a.volume t.open_volumes
          a.room.open_volumes (Holds-first_owned w.address a.volume t.open_volumes a.owner) in
      let (x, q, l) =
        first_owned-count_written_zero w.address n a.volume t.open_volumes zero_bytes o.2
          (omega (arith, o, a.room.small)) a.owner in
      (
        u,
        e ∙ ap (λ r. ok (u, r)) (drop-zero_eq n src zero_bytes),
        (
          stores.consistent,
          subst (λ m. (i : ℕ) × (find_index w.path m ≡ some i)) (sym stores.paths) k,
          x,
          rw vs q,
          omega (arith, l, a.left),
        ),
      )

  write_bytes_again :
      (fuel : ℕ) (s u : FlatVolumes) (w : Writer) (b : ℕ) (bs : List ℕ)
      → write_chunk accepts s w (b ∷ bs) ≡ ok (u, b ∷ bs)
      → write_bytes accepts (suc fuel) s w (b ∷ bs) ≡ write_bytes accepts fuel u w (b ∷ bs)
  unfolding write_bytes
  write_bytes_again fuel s u w b bs e = rw (e, write_bytes)

  write_bytes_stalled :
      (fuel : ℕ) (s : FlatVolumes) (w : Writer) (b : ℕ) (bs : List ℕ)
      → IsStalled s w
      → write_bytes accepts fuel s w (b ∷ bs) ≡ none
  write_bytes_stalled zero s w b bs h = unfold write_bytes in refl
  write_bytes_stalled (suc fuel) s w b bs (c, k, v, e, z) =
      let found = find_stream_owned s w.address v e in
      let (u, q, h) =
        IsStalled-round s w (b ∷ bs) c k (rw found (owned-Assigned s w.address c.room v e))
          (rw found z) in
      write_bytes_again fuel s u w b bs q ∙ write_bytes_stalled fuel u w b bs h

  -- On a disk that takes no more bytes than it is given, with consistent volumes, a path of the
  -- index and a volume number left in `uint64`: where the volume that `FindStream` hands out has a
  -- multiple of 4 GiB left, as a new volume has if the volume size is such a multiple, `WriteBytes`
  -- of at least one byte does not return, whatever the fuel.
  pub write_bytes_endless :
      (fuel : ℕ) (s : FlatVolumes) (w : Writer) (b : ℕ) (bs : List ℕ)
      → IsConsistent s
      → Knows s.index w.path
      → s.next_volume_number + 1 < 2 ^ 64
      → (find_stream s w.address).1.left_size % 2 ^ 32 ≡ 0
      → write_bytes accepts fuel s w (b ∷ bs) ≡ none
  write_bytes_endless zero s w b bs c k n z = unfold write_bytes in refl
  write_bytes_endless (suc fuel) s w b bs c k n z =
      let (u, q, h) =
        IsStalled-round s w (b ∷ bs) c k (find_stream-Assigned s w.address c.room n) z in
      write_bytes_again fuel s u w b bs q ∙ write_bytes_stalled fuel u w b bs h
