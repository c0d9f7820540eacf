-- ===== src/Volumes/Extends.antt =====
-- Volume files only grow at their ends, so what a block names stays what it was.
use acbackup.Prelude.{
  ℕ, ◌+◌, ◌≤◌, ◌≡◌, refl, ap, ap₂, ◌∙◌, List, [], ◌∷◌, ◌++◌, arith, length, take, drop, All,
  length-append, length-take, length-drop, take-append_left, drop-append_left, take_of_length-le,
  drop_of_length-le,
}
use acbackup.Node.{Block}
use acbackup.Node.Blocks.{Volumes, slice, Within, block_bytes, blocks_bytes}

abbrev pub Extends : Volumes → Volumes → Type 0
Extends files grown = (n : ℕ) → (more : List ℕ) × (grown n ≡ files n ++ more)

slice-append_left :
    (o c : ℕ) (xs ys : List ℕ) → o + c ≤ length xs → slice o c (xs ++ ys) ≡ slice o c xs
slice-append_left o c xs ys h =
    ap (take c) (drop-append_left o xs ys (omega arith))
    ∙ take-append_left c (drop o xs) ys (omega (arith, length-drop o xs))

-- What is written at the end of a file is what is read from there.
pub slice-append_right :
    (n : ℕ) (xs src : List ℕ) → n ≤ length src → slice (length xs) n (xs ++ take n src) ≡ take n src
slice-append_right n xs src h =
    ap (take n) (
      drop-append_left (length xs) xs (take n src) (omega arith)
      ∙ ap (λ r. r ++ take n src) (drop_of_length-le (length xs) xs (omega arith)))
    ∙ take_of_length-le n (take n src) (omega (arith, length-take n src))

module _ (files grown : Volumes) (x : Extends files grown) where
  Within-Extends : (b : Block) → Within files b → Within grown b
  Within-Extends b w =
      let (more, e) = x b.volume_number in
      omega (arith, ap length e, length-append (files b.volume_number) more)

  block_bytes-Extends : (b : Block) → Within files b → block_bytes grown b ≡ block_bytes files b
  block_bytes-Extends b w =
      let (more, e) = x b.volume_number in
      ap (slice b.offset b.size) e
      ∙ slice-append_left b.offset b.size (files b.volume_number) more w

  pub All-Within-Extends : (bs : List Block) → All (Within files) bs → All (Within grown) bs
  All-Within-Extends [] a = tt
  All-Within-Extends (b ∷ bs) a = (Within-Extends b a.0, All-Within-Extends bs a.1)

  pub blocks_bytes-Extends :
      (bs : List Block) → All (Within files) bs → blocks_bytes grown bs ≡ blocks_bytes files bs
  blocks_bytes-Extends [] a = refl
  blocks_bytes-Extends (b ∷ bs) a =
      ap₂ ◌++◌ (block_bytes-Extends b a.0) (blocks_bytes-Extends bs a.1)
