-- ===== src/Node/Blocks.antt =====
-- What `AddBlock` does to the bytes that a node's blocks hold: the blocks name stretches of volume
-- files, and the bytes of a node are those of its blocks, in order.
use acbackup.Prelude.{
  ℕ, ◌+◌, ◌^◌, ◌≤◌, ◌<◌, ◌≡◌, refl, sym, ap, ◌∙◌, inl, inr, List, [], ◌∷◌, ◌++◌, append_assoc,
  append-nil, arith, Bool, true, length, take, drop, All, take-add, drop-drop, Bool-cases, ◌&&◌,
  ◌==◌,
}
use acbackup.Node.{Block, add_uint64, push_block, sum_from, sum_of_block_sizes}

-- The contents of the volume files, by volume number.
abbrev pub Volumes : Type 0
Volumes = ℕ → List ℕ

abbrev pub slice : ℕ → ℕ → List ℕ → List ℕ
slice offset count bytes = take count (drop offset bytes)

abbrev pub block_bytes : Volumes → Block → List ℕ
block_bytes files b = slice b.offset b.size (files b.volume_number)

abbrev pub blocks_bytes : Volumes → List Block → List ℕ
blocks_bytes files [] = []
blocks_bytes files (b ∷ bs) = block_bytes files b ++ blocks_bytes files bs

-- The block lies inside its volume file.
abbrev pub Within : Volumes → Block → Type 0
Within files b = b.offset + b.size ≤ length (files b.volume_number)

slice-add :
    (offset m n : ℕ) {k end : ℕ} (bytes : List ℕ)
    → k ≡ m + n
    → end ≡ offset + m
    → slice offset k bytes ≡ slice offset m bytes ++ slice end n bytes
slice-add offset m n {k} {end} bytes e f =
    take-add m n k (drop offset bytes) e
    ∙ ap (λ r. take m (drop offset bytes) ++ take n r) (drop-drop offset m end bytes f)

-- A volume file never reaches the end of the `uint64` range.
module _ (files : Volumes) (small : (n : ℕ) → length (files n) < 2 ^ 64) where
  grown-bytes :
      (last b : Block)
      → last.volume_number ≡ b.volume_number
      → last.offset + last.size ≡ b.offset
      → Within files b
      → block_bytes files (record last { size = add_uint64 last.size b.size })
        ≡ block_bytes files last ++ block_bytes files b
  grown-bytes last b v e w =
      slice-add last.offset last.size b.size (files last.volume_number)
        (omega (arith, small b.volume_number)) (sym e)
      ∙ ap (λ n. block_bytes files last ++ slice b.offset b.size (files n)) v

  grown-Within :
      (last b : Block)
      → last.volume_number ≡ b.volume_number
      → last.offset + last.size ≡ b.offset
      → Within files b
      → Within files (record last { size = add_uint64 last.size b.size })
  grown-Within last b v e w =
      let same : length (files last.volume_number) ≡ length (files b.volume_number) =
        ap (λ n. length (files n)) v in
      omega (arith, small b.volume_number, same)

  -- The test of the code finds the case where the new block goes on where the last one ends.
  grows : Block → Block → Bool
  grows last b =
      (last.volume_number == b.volume_number) && (add_uint64 last.offset last.size == b.offset)

  grows_sound :
      (last b : Block)
      → Within files last
      → grows last b ≡ true
      → (last.volume_number ≡ b.volume_number) × (last.offset + last.size ≡ b.offset)
  unfolding grows
  grows_sound last b w h = ground (arith, small last.volume_number)

  abbrev Pushes : Block → List Block → Type 0
  Pushes b bs =
      (blocks_bytes files (push_block b bs) ≡ blocks_bytes files bs ++ block_bytes files b)
      × All (Within files) (push_block b bs)

  push_block-bytes_last :
      (last b : Block) → Within files last → Within files b → Pushes b (last ∷ [])
  unfolding push_block grows
  push_block-bytes_last last b wl wb = elim (Bool-cases (grows last b)) [
    | inl t ↦
        let (v, e) = grows_sound last b wl t in
        rw t (simp append-nil (grown-bytes last b v e wb), (grown-Within last b v e wb, tt))
    | inr f ↦ rw f (simp append-nil, (wl, (wb, tt)))
  ]

  -- Where the volume files are within the range of `uint64`, and the blocks of a node and the new
  -- block lie inside them, `AddBlock` appends the bytes of the new block to those of the node,
  -- whether it grows the last block or adds one, and the blocks still lie inside the files.
  pub push_block-bytes :
      (b : Block) (bs : List Block) → All (Within files) bs → Within files b → Pushes b bs
  unfolding push_block
  push_block-bytes b [] ws w = (append-nil _, (w, tt))
  push_block-bytes b (last ∷ []) ws w = push_block-bytes_last last b ws.0 w
  push_block-bytes b (first ∷ second ∷ rest) ws w =
      let ih = push_block-bytes b (second ∷ rest) ws.1 w in
      (
        ap (◌++◌ (block_bytes files first)) ih.0
            ∙ sym (append_assoc (block_bytes files first) (blocks_bytes files (second ∷ rest)) _),
        (ws.0, ih.1),
      )

sum_from-push_block :
    (b : Block) (bs : List Block) (sum : ℕ)
    → sum_from sum (push_block b bs) ≡ add_uint64 (sum_from sum bs) b.size
unfolding push_block sum_from
sum_from-push_block b [] sum = refl
sum_from-push_block b (last ∷ []) sum = ground arith
sum_from-push_block b (first ∷ second ∷ rest) sum =
    sum_from-push_block b (second ∷ rest) (add_uint64 sum first.size)

-- `AddBlock` makes the sum of the block sizes larger by the size of the new block, in `uint64`.
sum_of_block_sizes-push_block :
    (b : Block) (bs : List Block)
    → sum_of_block_sizes (push_block b bs) ≡ add_uint64 (sum_of_block_sizes bs) b.size
unfolding sum_of_block_sizes
sum_of_block_sizes-push_block b bs = sum_from-push_block b bs 0
