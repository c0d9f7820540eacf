-- ===== src/Backup/Requests.antt =====
-- A node's blocks are read in as many calls as the streams behind make.
use acbackup.Prelude.{
  ℕ, ◌+◌, ◌^◌, ◌≤◌, ◌<◌, ◌≡◌, refl, sym, ap, subst, ◌∙◌, ◌⊎◌, true, some, List, [], ◌∷◌, ◌++◌,
  arith, ok, length, take, take-add, take_of_length-le, All, and_then, get_elem?_of_lt,
}
use acbackup.Node.{FilePath, HashAlgorithm, Block, add_uint64}
use acbackup.Node.Blocks.{Volumes, Within, blocks_bytes}
use acbackup.BackupIndex.Changes.{blocks_at, length-modify}
use acbackup.Volumes.{FlatVolumes}
use acbackup.Volumes.Chunk.{stored, IsConsistent}
use acbackup.Reading.{
  Reading, Delivers, BlockStream, start, is_at_end, increment_volume_counters, change_volume,
  stream_read_bytes,
}
use acbackup.Reading.Bytes.{IsExact, SameVolumes}
use acbackup.Reading.Stream.{rest, Inside, Readable, stream_read_bytes-rest}
use acbackup.Reading.Stored.{All-both, start-valid}
use acbackup.Backup.{Library}
use acbackup.Backup.Read.{read_requests}

unfoldable pub sum : List ℕ → ℕ
sum [] = 0
sum (n ∷ ns) = n + sum ns

module _ (library : Library) (hash_algorithm : HashAlgorithm) (delivers : Delivers)
    (exact : IsExact delivers) where
  increment_volume_counters_next :
      (b : Block) (bs : List Block) (r : Reading)
      → b.volume_number < length r.volumes
      → (r' : Reading) × (increment_volume_counters r (b ∷ bs) ≡ increment_volume_counters r' bs)
        × SameVolumes r r'
  unfolding increment_volume_counters change_volume
  increment_volume_counters_next b bs r h =
      let (v, e) = get_elem?_of_lt r.volumes b.volume_number h in
      (
        change_volume (λ u. record u { counter = add_uint64 u.counter 1 }) b.volume_number r,
        rw e refl,
        length-modify _ r.volumes b.volume_number,
      )

  pub increment_volume_counters_ok :
      (bs : List Block) (r : Reading)
      → All (λ b. b.volume_number < length r.volumes) bs
      → (r' : Reading) × (increment_volume_counters r bs ≡ ok r') × SameVolumes r r'
  increment_volume_counters_ok [] r h = (r, unfold increment_volume_counters in refl, refl)
  increment_volume_counters_ok (b ∷ bs) r h =
      let (r', e, l) = increment_volume_counters_next b bs r h.0 in
      let (r'', e', l') =
        increment_volume_counters_ok bs r'
          (subst (λ n. All (λ b. b.volume_number < n) bs) (sym l) h.1) in
      (r'', e ∙ e', l' ∙ l)

  read_requests_next :
      (fuel : ℕ) (files : Volumes) (blocks : List Block) (r r' r'' : Reading) (s t : BlockStream)
      (n : ℕ) (ns bytes more : List ℕ)
      → stream_read_bytes delivers files fuel blocks r s n ≡ some (ok ((r', t), bytes))
      → read_requests library hash_algorithm delivers fuel files blocks r' t ns
        ≡ some (ok (r'', more))
      → read_requests library hash_algorithm delivers fuel files blocks r s (n ∷ ns)
        ≡ some (ok (r'', bytes ++ more))
  unfolding read_requests
  read_requests_next fuel files blocks r r' r'' s t n ns bytes more e e' = rw (e, and_then, e') refl

  module _ (files : Volumes) (small : (n : ℕ) → length (files n) < 2 ^ 64) (blocks : List Block)
      (few : length blocks < 2 ^ 32) where
    -- What is left before a stream.
    abbrev left : BlockStream → List ℕ
    left s = rest delivers exact files small blocks few s

    read_requests-rest :
        (fuel : ℕ) (ns : List ℕ) (r : Reading) (s : BlockStream)
        → Inside delivers exact files small blocks few s ⊎ (is_at_end blocks s ≡ true)
        → Readable delivers exact files small blocks few r
        → sum ns + length blocks + 1 < fuel
        → (r' : Reading) × (read_requests library hash_algorithm delivers fuel files blocks r s ns
            ≡ some (ok (r', take (sum ns) (left s))))
    unfolding sum
    read_requests-rest fuel [] r s valid readable enough = (r, unfold read_requests in refl)
    read_requests-rest fuel (n ∷ ns) r s valid readable enough =
        let (r', t, e, after, valid', l) =
          stream_read_bytes-rest delivers exact files small blocks few fuel r s n valid readable
            (omega arith) in
        let (r'', e') =
          read_requests-rest fuel ns r' t valid'
            (subst (λ k. All (λ b. Within files b × (b.volume_number < k)) blocks) (sym l) readable)
            (omega arith) in
        (
          r'',
          read_requests_next fuel files blocks r r' r'' s t n ns _ _ e e'
              ∙ ap (λ x. some (ok (r'', x)))
                  (ap (λ x. take n (left s) ++ take (sum ns) x) after
                    ∙ sym (take-add n (sum ns) (n + sum ns) (left s) refl)),
        )

  -- Requests for at least as many bytes as are stored for a path read just them.
  pub read_requests-stored :
      (s : FlatVolumes) (p : FilePath) (blocks : List Block) (r : Reading) (fuel : ℕ)
      (requests : List ℕ)
      → blocks ≡ blocks_at s.index p
      → IsConsistent s
      → length blocks < 2 ^ 32
      → All (λ b. b.volume_number < length r.volumes) blocks
      → length (stored s p) ≤ sum requests
      → sum requests + length blocks + 1 < fuel
      → (r' : Reading) × (read_requests library hash_algorithm delivers fuel s.files blocks r start
            requests
          ≡ some (ok (r', stored s p)))
  unfolding stored start
  read_requests-stored s p blocks r fuel requests same c few opened all enough =
      let small : (n : ℕ) → length (s.files n) < 2 ^ 64 =
        λ n. omega (arith, c.room.bounded n, c.room.small) in
      let within = subst (All (Within s.files)) (sym same) (c.within p) in
      let (r', e) =
        read_requests-rest s.files small blocks few fuel requests r start
          (start-valid delivers exact s.files small blocks few)
          (All-both s.files (length r.volumes) blocks within opened) enough in
      (
        r',
        e
            ∙ ap (λ x. some (ok (r', x)))
                (take_of_length-le (sum requests) (blocks_bytes s.files blocks) (rw same all)
                  ∙ ap (blocks_bytes s.files) same),
      )
