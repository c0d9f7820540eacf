-- ===== src/Volumes/Assign.antt =====
-- `FindStream`: the invariant of the open volumes and files, and the volume that it hands out.
use acbackup.Prelude.{
  ℕ, ◌+◌, ◌^◌, ◌≤◌, ◌<◌, ◌≡◌, ◌≢◌, refl, sym, ap, ◌∙◌, inl, inr, if_pos, if_neg, none, some, [],
  arith, length, All, ℕ_discrete,
}
use acbackup.Volumes.{
  FlatVolumes, OpenVolume, Stream, Found, owned, free, nothing, scan, take_over, first_owned,
  update_file, create_volume, find_stream,
}
use acbackup.Volumes.Others.{scan-ownerless, first_owned-take_over_other, first_owned-append_other}
use acbackup.Volumes.Streams.{
  IsOpen, Distinct, Holds, Finds, scan-Finds, All-take_over, Distinct-take_over,
  first_owned-take_over, first_owned-append_last, All-append_last, Distinct-append_last, All-weaken,
}

-- The volumes that are open, and the files: none is larger than a volume may be, and those that
-- come next are not there.
pub record HasRoom (s : FlatVolumes) : Type 0 where
  pub positive : 0 < s.volume_size
  pub small : s.volume_size < 2 ^ 64
  pub open_volumes : All (IsOpen s.volume_size s.next_volume_number s.files) s.open_volumes
  pub distinct : Distinct s.open_volumes
  pub bounded : (n : ℕ) → length (s.files n) ≤ s.volume_size
  pub fresh : (n : ℕ) → s.next_volume_number ≤ n → s.files n ≡ []

-- What `FindStream` hands out: a volume that the writer owns, with room. It is the one that the
-- writer owned before, if there was one. Other writers keep their volumes, and no file is changed.
pub record Assigned (s : FlatVolumes) (w : ℕ) (t : FlatVolumes) (stream : Stream) : Type 0 where
  pub room : HasRoom t
  pub volume : OpenVolume
  pub owner : first_owned w t.open_volumes ≡ some volume
  pub number : volume.number ≡ stream.number
  pub left : volume.left_size ≡ stream.left_size
  pub kept : (v : OpenVolume) → first_owned w s.open_volumes ≡ some v → volume ≡ v
  pub others : (u : ℕ) → u ≢ w → first_owned u t.open_volumes ≡ first_owned u s.open_volumes
  pub files : (n : ℕ) → t.files n ≡ s.files n
  pub index : t.index ≡ s.index
  pub size : t.volume_size ≡ s.volume_size
  pub next :
      (s.next_volume_number ≤ t.next_volume_number)
      × (t.next_volume_number ≤ s.next_volume_number + 1)

module _ (s : FlatVolumes) (w : ℕ) (r : HasRoom s) where
  free-Assigned :
      (v : OpenVolume)
      → first_owned w s.open_volumes ≡ none
      → Holds v s.open_volumes
      → v.owned_writer ≡ none
      → Assigned s w
          (record s { open_volumes = take_over v.number w s.open_volumes })
          (record { number = v.number; left_size = v.left_size })
  free-Assigned v e h o = record {
    room = record {
      positive = r.positive;
      small = r.small;
      open_volumes =
          All-take_over (IsOpen s.volume_size s.next_volume_number s.files) (λ u o k. k) v.number w
            s.open_volumes r.open_volumes;
      distinct = Distinct-take_over v.number w s.open_volumes r.distinct;
      bounded = r.bounded;
      fresh = r.fresh;
    };
    volume = record v { owned_writer = some w };
    owner = first_owned-take_over w v s.open_volumes r.distinct e h;
    number = refl;
    left = refl;
    kept = λ u q. ground arith;
    others = λ u n. first_owned-take_over_other u w v s.open_volumes n r.distinct h o;
    files = λ n. refl;
    index = refl;
    size = refl;
    next = omega arith;
  }

  created-files : (n : ℕ) → (create_volume s w).files n ≡ s.files n
  unfolding create_volume update_file
  created-files n = elim (ℕ_discrete n s.next_volume_number) [
    | yes e ↦ rw (if_pos _ e) (sym (r.fresh n (omega arith)))
    | no e ↦ rw (if_neg _ e) refl
  ]

  nothing-Assigned :
      s.next_volume_number + 1 < 2 ^ 64
      → first_owned w s.open_volumes ≡ none
      → Assigned s w
          (create_volume s w)
          (record { number = s.next_volume_number; left_size = s.volume_size })
  nothing-Assigned b e =
      let n = s.next_volume_number in
      let same = created-files n in
      let empty = r.fresh n (omega arith) in
      unfold create_volume in
      record {
        room = record {
          positive = r.positive;
          small = r.small;
          open_volumes =
              All-append_last _ _ s.open_volumes
                (All-weaken s.open_volumes
                  (λ v o. (omega arith, rw (created-files v.number) o.1, o.2)) r.open_volumes)
                (omega arith, omega (arith, ap length same, ap length empty), r.positive);
          distinct =
              Distinct-append_last _ s.open_volumes r.distinct
                (All-weaken s.open_volumes (λ v o. omega arith) r.open_volumes);
          bounded = λ m. rw (created-files m) (r.bounded m);
          fresh = λ m h. created-files m ∙ r.fresh m (omega arith);
        };
        volume = record { number = n; left_size = s.volume_size; owned_writer = some w };
        owner = first_owned-append_last w _ s.open_volumes e refl;
        number = refl;
        left = refl;
        kept = λ u q. ground arith;
        others = λ u q. first_owned-append_other u w _ s.open_volumes q refl;
        files = created-files;
        index = refl;
        size = refl;
        next = omega arith;
      }

  pub owned-Assigned :
      (v : OpenVolume)
      → first_owned w s.open_volumes ≡ some v
      → Assigned s w s (record { number = v.number; left_size = v.left_size })
  owned-Assigned v e = record {
    room = r;
    volume = v;
    owner = e;
    number = refl;
    left = refl;
    kept = λ u q. ground arith;
    others = λ u n. refl;
    files = λ n. refl;
    index = refl;
    size = refl;
    next = omega arith;
  }

-- Where no volume is larger than allowed and the volumes to come are not there, `FindStream` hands
-- out a volume with room that the writer then owns: the one that it owned before, if there was one.
-- Every other writer keeps its volume; no file changes, at most one volume is new, and the volumes
-- stay in that order.
pub find_stream-Assigned :
    (s : FlatVolumes) (w : ℕ)
    → HasRoom s
    → s.next_volume_number + 1 < 2 ^ 64
    → Assigned s w (find_stream s w).0 (find_stream s w).1
unfolding find_stream
find_stream-Assigned s w r b =
    go (scan w none s.open_volumes) refl (scan-Finds w none s.open_volumes)
  where
    go :
        (f : Found)
        → scan w none s.open_volumes ≡ f
        → Finds w none s.open_volumes f
        → Assigned s w (find_stream s w).0 (find_stream s w).1
    go (owned v) e h = rw (e, find_stream) (owned-Assigned s w r v h)
    go (free v) e (h, inl q) = cc
    go (free v) e (h, inr m) =
        rw (e, find_stream)
          (free-Assigned s w r v h m
            (scan-ownerless w none s.open_volumes v (λ u q. ground arith) e))
    go nothing e h = rw (e, find_stream) (nothing-Assigned s w r b h)
