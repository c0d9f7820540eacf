-- ===== src/Volumes/Schedule.antt =====
-- Streams that take turns: each stores what it writes, whatever the others do in between.
use acbackup.Prelude.{
  ℕ, zero, suc, ◌+◌, ◌-◌, ◌^◌, ◌<◌, ◌≡◌, refl, sym, ap, subst, ◌∙◌, ite, if_pos, if_neg, some, List,
  [], ◌∷◌, ◌++◌, arith, length, take, drop, String_discrete, ok, length-drop, take-zero_eq,
  append-nil, append_assoc,
}
use acbackup.Node.{FilePath}
use acbackup.Index.{find_index}
use acbackup.BackupIndex.Changes.{Knows}
use acbackup.Volumes.{FlatVolumes, Writer, Accepts, close_file, Event, writes, closes, run}
use acbackup.Volumes.Assign.{find_stream-Assigned}
use acbackup.Volumes.Chunk.{stored, IsConsistent, Stores, IsLawful, round_count, write_chunk-Stores}
use acbackup.Volumes.Streams.{IsOpen, All-close_file, Distinct-close_file}

-- The bytes that the rounds took for a path, in order.
pub taken_for : FilePath → List (FilePath × List ℕ) → List ℕ
taken_for p [] = []
taken_for p ((q, bytes) ∷ log) =
    ite (String_discrete q p) (bytes ++ taken_for p log) (taken_for p log)

-- Every writer among the events is for a path of the index.
abbrev AllKnown : FlatVolumes → List Event → Type 0
AllKnown s [] = Unit {0}
AllKnown s (writes w src ∷ es) = Knows s.index w.path × AllKnown s es
AllKnown s (closes w ∷ es) = AllKnown s es

pub close-IsConsistent :
    (s : FlatVolumes) (w : ℕ)
    → IsConsistent s
    → IsConsistent (record s { open_volumes = close_file w s.open_volumes })
close-IsConsistent s w c = record {
  room = record {
    positive = c.room.positive;
    small = c.room.small;
    open_volumes =
        All-close_file (IsOpen s.volume_size s.next_volume_number s.files) (λ v o h. h) w
          s.open_volumes c.room.open_volumes;
    distinct = Distinct-close_file w s.open_volumes c.room.distinct;
    bounded = c.room.bounded;
    fresh = c.room.fresh;
  };
  well_formed = c.well_formed;
  within = c.within;
}

AllKnown-paths :
    (s t : FlatVolumes) (es : List Event)
    → t.index.path_map ≡ s.index.path_map
    → AllKnown s es
    → AllKnown t es
AllKnown-paths s t [] e a = tt
AllKnown-paths s t (writes w src ∷ es) e a =
    (subst (λ m. (i : ℕ) × (find_index w.path m ≡ some i)) (sym e) a.0, AllKnown-paths s t es e a.1)
AllKnown-paths s t (closes w ∷ es) e a = AllKnown-paths s t es e a

take-length-drop : (n : ℕ) (xs : List ℕ) → take (length xs - length (drop n xs)) xs ≡ take n xs
take-length-drop zero xs = take-zero_eq (length xs - length xs) xs (omega arith)
take-length-drop (suc n) [] = take-zero_eq (0 - 0) [] (omega arith)
take-length-drop (suc n) (x ∷ xs) =
    let e : suc (length xs) - length (drop n xs) ≡ suc (length xs - length (drop n xs)) =
      omega (arith, length-drop n xs) in
    rw e (ap (◌∷◌ x) (take-length-drop n xs))

-- What one more round adds to the log, seen from a path.
log-step :
    (s u t : FlatVolumes) (w : Writer) (src : List ℕ) (n : ℕ) (log : List (FilePath × List ℕ))
    (bytes : List ℕ)
    → Stores s w src n u (drop n src)
    → bytes ≡ take n src
    → ((p : FilePath) → stored t p ≡ stored u p ++ taken_for p log)
    → (p : FilePath) → stored t p ≡ stored s p ++ taken_for p ((w.path, bytes) ∷ log)
unfolding taken_for
log-step s u t w src n log bytes stores e h p = elim (String_discrete w.path p) [
  | yes q ↦
      rw (if_pos _ q, e)
        (subst (λ x. stored t x ≡ stored s x ++ (take n src ++ taken_for x log)) q
          (h w.path
            ∙ ap (λ r. r ++ taken_for w.path log) stores.added
            ∙ append_assoc (stored s w.path) (take n src) (taken_for w.path log)))
  | no q ↦ rw (if_neg _ q) (h p ∙ ap (λ r. r ++ taken_for p log) (stores.kept p (λ e. q (sym e))))
]

module _ (accepts : Accepts) (lawful : IsLawful accepts) where
  -- On a disk that takes no more bytes than it is given, from consistent volumes and with volume
  -- numbers left in `uint64` for a new volume in each event, any sequence of rounds and closes by
  -- streams for paths of the index runs to its end. Then the volumes are consistent, so that no
  -- file is larger than the volume size and every block lies inside its file, and each path holds
  -- what it held before and, behind that, what its rounds took, in order.
  pub run-stored :
      (s : FlatVolumes) (es : List Event)
      → IsConsistent s
      → AllKnown s es
      → s.next_volume_number + length es < 2 ^ 64
      → (t : FlatVolumes) × (log : List (FilePath × List ℕ)) × (run accepts s es ≡ ok (t, log))
        × IsConsistent t
        × ((p : FilePath) → stored t p ≡ stored s p ++ taken_for p log)
  unfolding run taken_for stored
  run-stored s [] c a b = (s, [], refl, c, λ p. sym (append-nil (stored s p)))
  run-stored s (closes w ∷ es) c a b =
      let closed : FlatVolumes = record s { open_volumes = close_file w.address s.open_volumes } in
      run-stored closed es (close-IsConsistent s w.address c) (AllKnown-paths s closed es refl a)
        (omega arith)
  run-stored s (writes w src ∷ es) c a b =
      let n = round_count accepts s w src in
      let (u, e, stores, v) =
        write_chunk-Stores accepts s w src lawful c a.0
          (find_stream-Assigned s w.address c.room (omega arith)) in
      let (t, log, e', c', h) =
        run-stored u es stores.consistent (AllKnown-paths s u es stores.paths a.1)
          (omega (arith, stores.next)) in
      (
        t,
        (w.path, take (length src - length (drop n src)) src) ∷ log,
        rw (e, e'),
        c',
        log-step s u t w src n log _ stores (take-length-drop n src) h,
      )
