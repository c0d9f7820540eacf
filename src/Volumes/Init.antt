-- ===== src/Volumes/Init.antt =====
-- The constructor of `FlatVolumesFileSystem`: the volumes begin in order.
use acbackup.Prelude.{ℕ, ◌^◌, ◌<◌, ◌≡◌, refl, [], arith, subst, sym, All}
use acbackup.Node.{FilePath}
use acbackup.Node.Blocks.{Within}
use acbackup.Index.WellFormed.{IsWellFormed}
use acbackup.BackupIndex.{Nodes}
use acbackup.BackupIndex.Changes.{blocks_at}
use acbackup.Volumes.{init}
use acbackup.Volumes.Chunk.{IsConsistent}

-- With a positive volume size in the range of `uint64`, and an index whose nodes have no blocks yet.
pub init-IsConsistent :
    (size : ℕ) (x : Nodes)
    → 0 < size
    → size < 2 ^ 64
    → IsWellFormed x
    → ((p : FilePath) → blocks_at x p ≡ [])
    → IsConsistent (init size x)
unfolding init
init-IsConsistent size x positive small w no_blocks = record {
  room = record {
    positive = positive;
    small = small;
    open_volumes = tt;
    distinct = tt;
    bounded = λ n. omega arith;
    fresh = λ n h. refl;
  };
  well_formed = w;
  within = λ p. subst (All (Within (λ n. []))) (sym (no_blocks p)) tt;
}
