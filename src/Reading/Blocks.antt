-- ===== src/Reading/Blocks.antt =====
-- The stream over the blocks of a node gives the bytes that they name, in order.
use acbackup.Prelude.{
  drop-nil, ℕ, zero, suc, ◌+◌, ◌-◌, ◌%◌, ◌^◌, ◌≤◌, ◌<◌, min, ◌≡◌, refl, sym, ap, ◌∙◌, ◌⊎◌, inl, inr,
  true, false, some, List, [], ◌∷◌, ◌++◌, arith, ltb, ok, length, take, drop, get_elem?,
  get_elem?_of_lt, lt_of_get_elem?, length-drop, length-take, drop-drop, All, Bool-cases,
  drop-append_left, take-append_left, drop_of_length-le,
}
use acbackup.Node.{Block, add_uint64}
use acbackup.Node.Blocks.{Volumes, Within, slice, block_bytes, blocks_bytes}
use acbackup.Reading.{
  Reading, Delivers, BlockStream, is_at_end, next_block, read_volume, read_block,
}
use acbackup.Reading.Bytes.{IsExact, SameVolumes, decrement_volume_count_ok, read_volume-slice}

drop-eq-cons {ℓ} :
    {A : Type ℓ} (xs : List A) (i : ℕ) (a : A)
    → get_elem? xs i ≡ some a
    → drop i xs ≡ a ∷ drop (suc i) xs
drop-eq-cons [] i a e = cc
drop-eq-cons (x ∷ xs) zero a e = ground arith
drop-eq-cons (x ∷ xs) (suc i) a e = drop-eq-cons xs i a e

pub All-get_elem? {ℓ κ} :
    {A : Type ℓ} (P : A → Type κ) (xs : List A) (i : ℕ) (a : A)
    → All P xs
    → get_elem? xs i ≡ some a
    → P a
All-get_elem? P [] i a all e = cc
All-get_elem? P (x ∷ xs) zero a all e = let is : x ≡ a = ground arith in rw (← is) all.0
All-get_elem? P (x ∷ xs) (suc i) a all e = All-get_elem? P xs i a all.1 e

take-drop-take :
    (off left size : ℕ) (xs : List ℕ)
    → off + left ≤ size
    → take left (drop off (take size xs)) ≡ take left (drop off xs)
take-drop-take zero zero size xs h = refl
take-drop-take zero (suc left) zero xs h = absurd (omega arith)
take-drop-take zero (suc left) (suc size) [] h = refl
take-drop-take zero (suc left) (suc size) (x ∷ xs) h =
    ap (◌∷◌ x) (take-drop-take zero left size xs (omega arith))
take-drop-take (suc off) left zero xs h = absurd (omega arith)
take-drop-take (suc off) left (suc size) [] h = refl
take-drop-take (suc off) left (suc size) (x ∷ xs) h = take-drop-take off left size xs (omega arith)

module _ (delivers : Delivers) (exact : IsExact delivers) (files : Volumes)
    (small : (n : ℕ) → length (files n) < 2 ^ 64) (blocks : List Block)
    (few : length blocks < 2 ^ 32) where
  -- The bytes that the stream has not given yet.
  abbrev pub remaining : BlockStream → List ℕ
  remaining s = drop s.block_offset (blocks_bytes files (drop s.current_block_index blocks))

  -- Every block lies inside its file, and its volume is among those that are open for reading.
  abbrev pub AllReadable : Reading → Type 0
  AllReadable r = All (λ b. Within files b × (b.volume_number < length r.volumes)) blocks

  -- The stream is inside a block.
  pub record IsInside (s : BlockStream) : Type 0 where
    pub block : Block
    pub here : get_elem? blocks s.current_block_index ≡ some block
    pub inside : s.block_offset ≤ block.size

  pub record GoesOn (s t : BlockStream) : Type 0 where
    pub in_block : IsInside t
    pub more : is_at_end blocks t ≡ false
    pub same : remaining t ≡ remaining s
    pub progress :
        (s.current_block_index < t.current_block_index)
        ⊎ ((s.current_block_index ≡ t.current_block_index) × (t.block_offset < in_block.block.size))

  -- What `next_block` leads to.
  abbrev Next : BlockStream → BlockStream → Type 0
  Next s t = GoesOn s t ⊎ ((is_at_end blocks t ≡ true) × (remaining s ≡ []) × (remaining t ≡ []))

  pub length-block_bytes : (b : Block) → Within files b → length (block_bytes files b) ≡ b.size
  length-block_bytes b w = omega (
    arith,
    length-take b.size (drop b.offset (files b.volume_number)),
    length-drop b.offset (files b.volume_number),
  )

  pub remaining-eq :
      (s : BlockStream) (i : IsInside s)
      → Within files i.block
      → remaining s
        ≡ drop s.block_offset (block_bytes files i.block)
          ++ blocks_bytes files (drop (suc s.current_block_index) blocks)
  remaining-eq s i w = rw (drop-eq-cons blocks s.current_block_index i.block i.here) (
      drop-append_left s.block_offset (block_bytes files i.block) _
        (omega (arith, length-block_bytes i.block w, i.inside)))

  read_block-eq :
      (fuel : ℕ) (r r' : Reading) (s : BlockStream) (count left : ℕ) (b : Block) (bytes : List ℕ)
      → get_elem? blocks s.current_block_index ≡ some b
      → min count (min ((b.size + 2 ^ 64 - s.block_offset) % 2 ^ 64) (2 ^ 32 - 1)) ≡ left
      → read_volume delivers files fuel r b.volume_number (add_uint64 b.offset s.block_offset) left
        ≡ some (ok (r', bytes))
      → read_block delivers files fuel blocks r s count ≡ some (ok (r', bytes))
  unfolding read_block
  read_block-eq fuel r r' s count left b bytes here asked q = rw (here, asked, q) refl

  pub read_block-remaining :
      (fuel : ℕ) (r : Reading) (s : BlockStream) (i : IsInside s) (count left : ℕ)
      → AllReadable r
      → left ≡ min count (min (i.block.size - s.block_offset) (2 ^ 32 - 1))
      → 1 < fuel
      → (r' : Reading) × (read_block delivers files fuel blocks r s count
          ≡ some (ok (r', take left (remaining s))))
        × SameVolumes r r'
  read_block-remaining fuel r s i count left readable e f =
      let b = i.block in
      let (w, v) =
        All-get_elem? (λ b. Within files b × (b.volume_number < length r.volumes)) blocks
          s.current_block_index b readable i.here in
      let offset = add_uint64 b.offset s.block_offset in
      let at : offset ≡ b.offset + s.block_offset =
        omega (arith, small b.volume_number, i.inside) in
      let asked : min count (min ((b.size + 2 ^ 64 - s.block_offset) % 2 ^ 64) (2 ^ 32 - 1))
          ≡ left =
        omega (arith, small b.volume_number, i.inside) in
      let (r', q, l) =
        read_volume-slice delivers exact files fuel r b.volume_number offset left v
          (omega (arith, i.inside)) f in
      let bytes : slice offset left (files b.volume_number) ≡ take left (remaining s) =
        ap (take left) (sym (drop-drop b.offset s.block_offset offset (files b.volume_number) at))
        ∙ sym (
            take-drop-take s.block_offset left b.size (drop b.offset (files b.volume_number))
              (omega (arith, i.inside)))
        ∙ sym (
            take-append_left left (drop s.block_offset (block_bytes files b))
              (blocks_bytes files (drop (suc s.current_block_index) blocks))
              (omega (
                arith,
                length-drop s.block_offset (block_bytes files b),
                length-block_bytes b w,
                i.inside,
              )))
        ∙ ap (take left) (sym (remaining-eq s i w)) in
      (
        r',
        read_block-eq fuel r r' s count left b (take left (remaining s)) i.here asked
            (q ∙ ap (λ x. some (ok (r', x))) bytes),
        l,
      )

  pub ended : (s : BlockStream) → is_at_end blocks s ≡ true → remaining s ≡ []
  unfolding is_at_end
  ended s e =
      rw (drop_of_length-le s.current_block_index blocks (ground arith)) (drop-nil s.block_offset)

  -- The end of a block.
  module _ (s : BlockStream) (i : IsInside s) (over : ltb s.block_offset i.block.size ≡ false)
      (w : Within files i.block) where
    abbrev moved : BlockStream
    moved = record s { current_block_index = (s.current_block_index + 1) % 2 ^ 32 }

    abbrev opened : BlockStream
    opened = record moved { block_offset = 0 }

    next_number : moved.current_block_index ≡ suc s.current_block_index
    next_number = omega (arith, few, lt_of_get_elem? blocks s.current_block_index i.block i.here)

    over-remaining : remaining s ≡ blocks_bytes files (drop moved.current_block_index blocks)
    over-remaining =
        remaining-eq s i w
        ∙ ap (λ x. x ++ blocks_bytes files (drop (suc s.current_block_index) blocks))
            (drop_of_length-le s.block_offset (block_bytes files i.block)
              (ground (arith, length-block_bytes i.block w)))
        ∙ ap (λ n. blocks_bytes files (drop n blocks)) (sym next_number)

    over_end : is_at_end blocks moved ≡ true → Next s moved
    unfolding is_at_end
    over_end e = inr (
      e,
      over-remaining
          ∙ ap (blocks_bytes files)
              (drop_of_length-le moved.current_block_index blocks (ground arith)),
      ended moved e,
    )

    over-GoesOn : is_at_end blocks moved ≡ false → GoesOn s opened
    unfolding is_at_end
    over-GoesOn e =
        let (b, here) = get_elem?_of_lt blocks moved.current_block_index (ground arith) in
        record {
          in_block = record { block = b; here = here; inside = omega arith };
          more = e;
          same = sym over-remaining;
          progress = inl (omega (arith, next_number));
        }

  pub next_block-Next :
      (r : Reading) (s : BlockStream)
      → IsInside s
      → AllReadable r
      → (r' : Reading) × (t : BlockStream) × (next_block blocks r s ≡ ok (r', t))
        × SameVolumes r r'
        × Next s t
  unfolding next_block
  next_block-Next r s i readable = elim (Bool-cases (ltb s.block_offset i.block.size)) [
    | inl within ↦ (
      r,
      s,
      rw (i.here, within) refl,
      refl,
      inl (record {
        in_block = i;
        more =
            unfold is_at_end in
            ground (arith, lt_of_get_elem? blocks s.current_block_index i.block i.here);
        same = refl;
        progress = inr (refl, ground arith);
      }),
    )
    | inr over ↦
        let (w, v) =
          All-get_elem? (λ b. Within files b × (b.volume_number < length r.volumes)) blocks
            s.current_block_index i.block readable i.here in
        let (r', e, l) = decrement_volume_count_ok r i.block.volume_number v in
        elim (Bool-cases (is_at_end blocks (moved s i over w))) [
          | inl q ↦ (r', moved s i over w, rw (i.here, over, e, q) refl, l, over_end s i over w q)
          | inr q ↦ (
            r',
            opened s i over w,
            rw (i.here, over, e, q) refl,
            l,
            inl (over-GoesOn s i over w q),
          )
        ]
  ]
