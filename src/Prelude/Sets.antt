-- ===== src/Prelude/Sets.antt =====
-- Sets of node indices, kept in ascending order, and the counting loop over `0 … n - 1`.
use Prim.Native.Nat.{ℕ, zero, suc, ◌+◌, ◌≤◌, ◌<◌}
use mathlib.Core.Path.{◌≡◌, refl}
use mathlib.Core.Bool.{Bool, false, ◌||◌, ◌&&◌, not}
use mathlib.Core.List.{List, [], ◌∷◌}
use native.Mathlib.Omega.{arith}
use acbackup.Prelude.Lists.{All}
use acbackup.Prelude.Tests.{ltb, ◌==◌, if◌then◌else◌}

abbrev pub contains : ℕ → List ℕ → Bool
contains n [] = false
contains n (x ∷ xs) = n == x || contains n xs

unfoldable pub insert : ℕ → List ℕ → List ℕ
insert n [] = n ∷ []
insert n (x ∷ xs) = if ltb n x then n ∷ x ∷ xs else (if n == x then x ∷ xs else x ∷ insert n xs)

unfoldable pub remove : ℕ → List ℕ → List ℕ
remove n [] = []
remove n (x ∷ xs) = if n == x then remove n xs else x ∷ remove n xs

-- `for(uint32 i = first; i < first + count; i++)`, as the list of the values of `i`.
abbrev pub range_from : ℕ → ℕ → List ℕ
range_from first zero = []
range_from first (suc count) = first ∷ range_from (first + 1) count

pub contains-insert : (n m : ℕ) (s : List ℕ) → contains n (insert m s) ≡ (n == m || contains n s)
unfolding insert
contains-insert n m [] = refl
contains-insert n m (x ∷ xs) = ground (arith, contains-insert n m xs)

pub contains-range_from :
    (i first count : ℕ)
    → contains i (range_from first count) ≡ (not (ltb i first) && ltb i (first + count))
contains-range_from i first zero = ground arith
contains-range_from i first (suc count) = ground (arith, contains-range_from i (first + 1) count)

pub range_from-All :
    (first count end : ℕ) → first + count ≤ end → All (λ i. i < end) (range_from first count)
range_from-All first zero end h = tt
range_from-All first (suc count) end h =
    (omega arith, range_from-All (first + 1) count end (omega arith))
