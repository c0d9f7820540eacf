-- ===== src/Backup/Writes.antt =====
-- The calls of `WriteBytes` for one node store their bytes and leave the rest of the index alone.
use acbackup.Prelude.{
  ℕ, ◌+◌, ◌^◌, ◌<◌, ◌≡◌, refl, sym, ap, ◌∙◌, some, List, [], ◌∷◌, ◌++◌, arith, length, ok, Call,
  and_then, String, Bool, append-nil, append_assoc, length-append,
}
use acbackup.Node.{FilePath}
use acbackup.BackupIndex.Changes.{Knows}
use acbackup.Volumes.{FlatVolumes, Writer, Accepts, write_bytes}
use acbackup.Volumes.Chunk.{stored, IsConsistent, IsLawful, IsLively}
use acbackup.Volumes.Write.{Written, Knows-paths, write_bytes-Written}
use acbackup.Statistics.{Floats}
use acbackup.Backup.{Library, Config, write_all}

nothing-Written : (s : FlatVolumes) (w : Writer) → IsConsistent s → Written s w [] s
nothing-Written s w c = record {
  consistent = c;
  added = sym (append-nil (stored s w.path));
  kept = λ p n. refl;
  paths = refl;
  size = refl;
  next = omega arith;
  same = refl;
}

Written-trans :
    (s t u : FlatVolumes) (w : Writer) (xs ys : List ℕ)
    → Written s w xs t
    → Written t w ys u
    → Written s w (xs ++ ys) u
Written-trans s t u w xs ys a b = record {
  consistent = b.consistent;
  added = b.added ∙ ap (λ r. r ++ ys) a.added ∙ append_assoc (stored s w.path) xs ys;
  kept = λ p n. b.kept p n ∙ a.kept p n;
  paths = b.paths ∙ a.paths;
  size = b.size ∙ a.size;
  next = omega (arith, a.next, b.next, length-append xs ys);
  same = b.same ∙ a.same;
}

-- The calls together.
unfoldable pub joined : List (List ℕ) → List ℕ
joined [] = []
joined (c ∷ cs) = c ++ joined cs

module _ (floats : Floats) (to_lowercase get_file_extension : String → String) (library : Library)
    (config : Config) (accepts : Accepts) (is_absolute : FilePath → Bool)
    (lawful : IsLawful accepts) (lively : IsLively accepts) where
  abbrev writes : ℕ → FlatVolumes → Writer → List (List ℕ) → Call FlatVolumes
  writes = write_all floats to_lowercase get_file_extension library config accepts is_absolute

  write_all_next :
      (fuel : ℕ) (s t : FlatVolumes) (w : Writer) (c : List ℕ) (cs : List (List ℕ))
      → write_bytes accepts fuel s w c ≡ some (ok t)
      → writes fuel s w (c ∷ cs) ≡ writes fuel t w cs
  unfolding write_all
  write_all_next fuel s t w c cs e = rw (e, and_then) refl

  pub write_all-Written :
      (fuel : ℕ) (s : FlatVolumes) (w : Writer) (cs : List (List ℕ))
      → IsConsistent s
      → Knows s.index w.path
      → s.volume_size < 2 ^ 32
      → s.next_volume_number + length (joined cs) < 2 ^ 64
      → length (joined cs) < fuel
      → (t : FlatVolumes) × (writes fuel s w cs ≡ some (ok t)) × Written s w (joined cs) t
  unfolding joined
  write_all-Written fuel s w [] c k small b h = (s, unfold write_all in refl, nothing-Written s w c)
  write_all-Written fuel s w (x ∷ xs) c k small b h =
      let l = length-append x (joined xs) in
      let (t, e, first) =
        write_bytes-Written accepts lawful lively fuel s w x c k small (omega arith)
          (omega arith) in
      let (u, e', others) =
        write_all-Written fuel t w xs first.consistent
          (Knows-paths accepts lawful lively s t w.path first.paths k) (omega (arith, first.size))
          (omega (arith, first.next)) (omega arith) in
      (u, write_all_next fuel s t w x xs e ∙ e', Written-trans s t u w x (joined xs) first others)
