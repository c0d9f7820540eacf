-- ===== src/Reading/Stream.antt =====
-- `FlatVolumesBlockInputStream::ReadBytes` returns, and gives the next bytes of the node.
use acbackup.Prelude.{
  Call, and_then, take-nil, drop-nil, ℕ, zero, suc, ◌+◌, ◌-◌, ◌^◌, ◌<◌, min, ◌≡◌, refl, sym, ap,
  subst, ◌∙◌, ◌⊎◌, inl, inr, true, false, some, List, [], ◌++◌, arith, ok, length, take, drop,
  lt_of_get_elem?, length-drop, length-take, length-append, drop-drop, take-add, All, Bool-cases,
}
use acbackup.Node.{Block, add_uint64}
use acbackup.Node.Blocks.{Volumes, Within, block_bytes, blocks_bytes}
use acbackup.Reading.{
  Reading, Delivers, BlockStream, is_at_end, next_block, read_block, read_blocks, stream_read_bytes,
}
use acbackup.Reading.Bytes.{IsExact, SameVolumes}
use acbackup.Reading.Blocks.{
  ended, remaining, AllReadable, IsInside, GoesOn, All-get_elem?, read_block-remaining,
  next_block-Next, remaining-eq, length-block_bytes,
}

module _ (delivers : Delivers) (exact : IsExact delivers) (files : Volumes)
    (small : (n : ℕ) → length (files n) < 2 ^ 64) (blocks : List Block)
    (few : length blocks < 2 ^ 32) where
  abbrev pub rest : BlockStream → List ℕ
  rest s = remaining delivers exact files small blocks few s

  abbrev pub Readable : Reading → Type 0
  Readable r = AllReadable delivers exact files small blocks few r

  abbrev pub Inside : BlockStream → Type 0
  Inside s = IsInside delivers exact files small blocks few s

  abbrev read : ℕ → Reading → BlockStream → ℕ → Call ((Reading × BlockStream) × List ℕ)
  read fuel r s count = read_blocks delivers files fuel blocks r s count

  Readable-same : (r r' : Reading) → SameVolumes r r' → Readable r → Readable r'
  Readable-same r r' l a =
      subst (λ n. All (λ b. Within files b × (b.volume_number < n)) blocks) (sym l) a

  read_ends :
      (fuel : ℕ) (r r' : Reading) (s t : BlockStream) (count : ℕ)
      → next_block blocks r s ≡ ok (r', t)
      → is_at_end blocks t ≡ true
      → read (suc fuel) r s (suc count) ≡ some (ok ((r', t), []))
  unfolding read_blocks
  read_ends fuel r r' s t count e q = rw (e, and_then, q) refl

  read_goes_on :
      (fuel : ℕ) (r r' r'' : Reading) (s t : BlockStream) (count : ℕ) (bytes more : List ℕ)
      (x : Reading × BlockStream)
      → next_block blocks r s ≡ ok (r', t)
      → is_at_end blocks t ≡ false
      → read_block delivers files fuel blocks r' t (suc count) ≡ some (ok (r'', bytes))
      → read fuel r''
          (record t { block_offset = add_uint64 t.block_offset (length bytes) })
          (suc count - length bytes)
        ≡ some (ok (x, more))
      → read (suc fuel) r s (suc count) ≡ some (ok (x, bytes ++ more))
  unfolding read_blocks
  read_goes_on fuel r r' r'' s t count bytes more x e q b m =
      rw (e, and_then, q, b, and_then, m) refl

  -- What a call from stream `s` leaves.
  abbrev Gives : ℕ → Reading → BlockStream → ℕ → Type 0
  Gives fuel r s count =
      (r' : Reading) × (t : BlockStream) × (read fuel r s count
        ≡ some (ok ((r', t), take count (rest s))))
      × (rest t ≡ drop count (rest s))
      × (Inside t ⊎ (is_at_end blocks t ≡ true))
      × SameVolumes r r'

  -- One block's part of a round, and the rest of the rounds.
  abbrev part : ℕ → (t : BlockStream) → Inside t → ℕ
  part count t i = min count (min (i.block.size - t.block_offset) (2 ^ 32 - 1))

  length-part :
      (count : ℕ) (t : BlockStream) (i : Inside t)
      → Within files i.block
      → length (take (part count t i) (rest t)) ≡ part count t i
  length-part count t i w =
      let b = i.block in
      omega (
        arith,
        length-take (part count t i) (rest t),
        ap length (remaining-eq delivers exact files small blocks few t i w),
        length-append (drop t.block_offset (block_bytes files b))
            (blocks_bytes files (drop (suc t.current_block_index) blocks)),
        length-drop t.block_offset (block_bytes files b),
        length-block_bytes delivers exact files small blocks few b w,
        i.inside,
      )

  abbrev after_part : ℕ → (t : BlockStream) → Inside t → BlockStream
  after_part count t i = record t {
    block_offset = add_uint64 t.block_offset (length (take (part count t i) (rest t)));
  }

  offset-after_part :
      (count : ℕ) (t : BlockStream) (i : Inside t)
      → Within files i.block
      → (after_part count t i).block_offset ≡ t.block_offset + part count t i
  offset-after_part count t i w =
      omega (arith, length-part count t i w, small i.block.volume_number, i.inside)

  after_part-Inside :
      (count : ℕ) (t : BlockStream) (i : Inside t)
      → Within files i.block
      → Inside (after_part count t i)
  after_part-Inside count t i w = record {
    block = i.block;
    here = i.here;
    inside = omega (arith, offset-after_part count t i w, i.inside);
  }

  rest-after_part :
      (count : ℕ) (t : BlockStream) (i : Inside t)
      → Within files i.block
      → rest (after_part count t i) ≡ drop (part count t i) (rest t)
  rest-after_part count t i w = sym (
      drop-drop t.block_offset (part count t i) (after_part count t i).block_offset _
        (offset-after_part count t i w))

  GoesOn-Gives :
      (fuel : ℕ) (r r' r'' : Reading) (s t : BlockStream) (count : ℕ)
      → SameVolumes r r'
      → SameVolumes r' r''
      → next_block blocks r s ≡ ok (r', t)
      → (g : GoesOn delivers exact files small blocks few s t) → Within files g.in_block.block
      → read_block delivers files fuel blocks r' t (suc count)
        ≡ some (ok (r'', take (part (suc count) t g.in_block) (rest t)))
      → Gives fuel r''
          (after_part (suc count) t g.in_block)
          (suc count - length (take (part (suc count) t g.in_block) (rest t)))
      → Gives (suc fuel) r s (suc count)
  GoesOn-Gives fuel r r' r'' s t count l l' e g w b (r''', u, m, left, valid, l'') =
      let i = g.in_block in
      let n = part (suc count) t i in
      let bytes = take n (rest t) in
      let c = suc count - length bytes in
      let sum : suc count ≡ n + c = omega (arith, length-part (suc count) t i w) in
      let tail = rest-after_part (suc count) t i w in
      (
        r''',
        u,
        read_goes_on fuel r r' r'' s t count bytes _ (r''', u) e g.more b m
            ∙ ap (λ x. some (ok ((r''', u), x)))
                (ap (λ x. bytes ++ take c x) tail
                  ∙ sym (take-add n c (suc count) (rest t) sum)
                  ∙ ap (take (suc count)) g.same),
        left
            ∙ ap (drop c) tail
            ∙ drop-drop n c (suc count) (rest t) sum
            ∙ ap (drop (suc count)) g.same,
        valid,
        l'' ∙ l' ∙ l,
      )

  read_blocks-Gives :
      (fuel : ℕ) (r : Reading) (s : BlockStream) (count : ℕ)
      → Inside s
      → Readable r
      → count + (length blocks - s.current_block_index) + 1 < fuel
      → Gives fuel r s count
  unfolding read_blocks
  read_blocks-Gives zero r s count i a f = absurd (omega arith)
  read_blocks-Gives (suc fuel) r s zero i a f = (r, s, refl, refl, inl i, refl)
  read_blocks-Gives (suc fuel) r s (suc count) i a f =
      let (r', t, e, l, next) = next_block-Next delivers exact files small blocks few r s i a in
      elim next [
        | inr (q, empty, empty') ↦ (
          r',
          t,
          read_ends fuel r r' s t count e q
              ∙ ap (λ x. some (ok ((r', t), take (suc count) x))) (sym empty),
          empty' ∙ ap (drop (suc count)) (sym empty),
          inr q,
          l,
        )
        | inl g ↦
            let a' = Readable-same r r' l a in
            let (w, v) =
              All-get_elem? (λ b. Within files b × (b.volume_number < length r'.volumes)) blocks
                t.current_block_index g.in_block.block a' g.in_block.here in
            let (r'', b, l') =
              read_block-remaining delivers exact files small blocks few fuel r' t g.in_block
                (suc count) (part (suc count) t g.in_block) a' refl (omega arith) in
            GoesOn-Gives fuel r r' r'' s t count l l' e g w b (
              read_blocks-Gives fuel r'' (after_part (suc count) t g.in_block) _
                (after_part-Inside (suc count) t g.in_block w) (Readable-same r' r'' l' a')
                (omega (
                  arith,
                  length-part (suc count) t g.in_block w,
                  g.progress,
                  lt_of_get_elem? blocks s.current_block_index i.block i.here,
                  lt_of_get_elem? blocks t.current_block_index g.in_block.block g.in_block.here,
                )))
      ]

  -- On a disk that reads as many bytes as are asked for or as there are, with files in the range of
  -- `uint64`, for a stream inside a block or at its end over fewer than 2^32 blocks, which lie
  -- inside their files and in volumes that are among those for reading, `ReadBytes` returns with
  -- fuel for a round for each byte and each block and two more. It gives the next bytes of the
  -- blocks, as many as asked for or as there are, and leaves the stream before those that follow,
  -- inside a block or at its end.
  pub stream_read_bytes-rest :
      (fuel : ℕ) (r : Reading) (s : BlockStream) (count : ℕ)
      → Inside s ⊎ (is_at_end blocks s ≡ true)
      → Readable r
      → count + length blocks + 1 < fuel
      → (r' : Reading) × (t : BlockStream) × (stream_read_bytes delivers files fuel blocks r s count
          ≡ some (ok ((r', t), take count (rest s))))
        × (rest t ≡ drop count (rest s))
        × (Inside t ⊎ (is_at_end blocks t ≡ true))
        × SameVolumes r r'
  unfolding stream_read_bytes
  stream_read_bytes-rest fuel r s count valid a f = elim (Bool-cases (is_at_end blocks s)) [
    | inl q ↦
        let none_left = ended delivers exact files small blocks few s q in
        (
          r,
          s,
          rw (stream_read_bytes, q) (rw none_left (rw (take-nil count) refl)),
          rw none_left (sym (drop-nil count)),
          inr q,
          refl,
        )
    | inr q ↦ elim valid [
      | inr q' ↦ absurd (ground arith)
      | inl i ↦
          let (r', t, e, left, valid', l) = read_blocks-Gives fuel r s count i a (omega arith) in
          (r', t, rw (stream_read_bytes, q) e, left, valid', l)
    ]
  ]
