-- ===== src/BackupIndex/Archive/BlockRoundTrip.antt =====
-- The blocks of a node are read back.
use acbackup.Prelude.{
  ℕ, zero, suc, ◌<◌, ◌≡◌, refl, Bool, true, Option, none, some, List, [], ◌∷◌, arith,
  String_discrete, ok, length, and_then,
}
use acbackup.Node.{FilePath, HashAlgorithm, CompressionSetting, lzma, Block}
use acbackup.BackupIndex.Archive.{
  flag, Element, Elements, element, next, Reader, Dates, NodeBlocks, find_attribute, setting_name,
  setting_of_name, block_element, block_elements, serialize_blocks, optional_attribute, read_block,
}
use acbackup.BackupIndex.Archive.Read.{read_blocks_loop, blocks_of_element, deserialize_blocks}
use acbackup.BackupIndex.Archive.Document.{lacks, FollowsDocument, kept_blocks}

module _ (reader : Reader) (follows : FollowsDocument reader) (dates : Dates)
    (md5 sha512_256 : HashAlgorithm) where
  read_block-block_element : (b : Block) → read_block (block_element b) ≡ ok b
  unfolding read_block block_element find_attribute String_discrete
  read_block-block_element b = refl

  read_blocks_loop_next :
      (fuel : ℕ) (e : Element) (es : Elements) (e' : Element) (rest : Elements) (b : Block)
      (bs : List Block)
      → reader.take_child "Block" (next e es) ≡ some (e', rest)
      → read_block e' ≡ ok b
      → read_blocks_loop reader dates md5 sha512_256 fuel rest ≡ some (ok bs)
      → read_blocks_loop reader dates md5 sha512_256 (suc fuel) (next e es) ≡ some (ok (b ∷ bs))
  unfolding read_blocks_loop
  read_blocks_loop_next fuel e es e' rest b bs taken read more =
      rw (taken, and_then, read, and_then, more) refl

  read_blocks_loop-block_elements :
      (fuel : ℕ) (bs : List Block)
      → length bs < fuel
      → read_blocks_loop reader dates md5 sha512_256 fuel (block_elements bs) ≡ some (ok bs)
  unfolding block_elements
  read_blocks_loop-block_elements zero bs f = absurd (omega arith)
  read_blocks_loop-block_elements (suc fuel) [] f = unfold read_blocks_loop in refl
  read_blocks_loop-block_elements (suc fuel) (b ∷ bs) f =
      read_blocks_loop_next fuel (block_element b) (block_elements bs) (block_element b)
        (block_elements bs) b bs
        (unfold block_element in follows.takes_next (block_element b) (block_elements bs))
        (read_block-block_element b) (read_blocks_loop-block_elements fuel bs (omega arith))

  blocks_of_element_lem :
      (fuel : ℕ) (owns : Bool) (setting : Option CompressionSetting) (owner : Option FilePath)
      (es : Elements) (bs : List Block)
      → read_blocks_loop reader dates md5 sha512_256 fuel es ≡ some (ok bs)
      → blocks_of_element reader dates md5 sha512_256 fuel (
          element "Blocks"
            (("owned", flag owns)
              ∷ optional_attribute "owner"
                  (λ p. p)
                  owner
                  (optional_attribute "compression" setting_name setting []))
            es)
        ≡ some (ok (record { blocks = bs; owns_blocks = owns; setting = setting; owner = owner }))
  unfolding blocks_of_element find_attribute String_discrete setting_name setting_of_name
  blocks_of_element_lem fuel owns none none es bs e = rw e refl
  blocks_of_element_lem fuel owns none (some p) es bs e = rw e refl
  blocks_of_element_lem fuel owns (some lzma) none es bs e = rw e refl
  blocks_of_element_lem fuel owns (some lzma) (some p) es bs e = rw e refl

  deserialize_blocks_there :
      (fuel : ℕ) (es : Elements) (e : Element) (rest : Elements) (b : NodeBlocks)
      → reader.has_child "Blocks" es ≡ true
      → reader.take_child "Blocks" es ≡ some (e, rest)
      → blocks_of_element reader dates md5 sha512_256 fuel e ≡ some (ok b)
      → deserialize_blocks reader dates md5 sha512_256 fuel es ≡ some (ok (b, rest))
  unfolding deserialize_blocks
  deserialize_blocks_there fuel es e rest b there taken read =
      rw (deserialize_blocks, there, taken, and_then, read) refl

  pub deserialize_blocks-serialize_blocks :
      (fuel : ℕ) (bs : List Block) (owns : Bool) (setting : Option CompressionSetting)
      (owner : Option FilePath) (rest : Elements)
      → length bs < fuel
      → lacks "Blocks" rest ≡ true
      → deserialize_blocks reader dates md5 sha512_256 fuel
          (serialize_blocks bs owns setting owner rest)
        ≡ some (ok (kept_blocks bs owns setting owner, rest))
  unfolding serialize_blocks kept_blocks deserialize_blocks
  deserialize_blocks-serialize_blocks fuel [] owns setting owner rest f l =
      let none_there = follows.has_none "Blocks" rest l in rw (deserialize_blocks, none_there) refl
  deserialize_blocks-serialize_blocks fuel (b ∷ bs) owns setting owner rest f l =
      deserialize_blocks_there fuel _ _ rest _ (follows.has_next _ rest) (follows.takes_next _ rest)
        (blocks_of_element_lem fuel owns setting owner (block_elements (b ∷ bs)) (b ∷ bs)
          (read_blocks_loop-block_elements fuel (b ∷ bs) f))
