-- ===== src/Reading/Bytes.antt =====
-- Reading the blocks of a node gives the bytes that they name, in order.
use acbackup.Prelude.{
  ℕ, zero, suc, ◌+◌, ◌-◌, ◌%◌, ◌^◌, ◌≤◌, ◌<◌, min, ◌≡◌, refl, ap, ◌∙◌, inl, inr, true, some, List,
  [], ◌∷◌, arith, ltb, ok, length, take, drop, get_elem?_of_lt, length-drop, append-nil, Bool-cases,
}
use acbackup.Node.Blocks.{Volumes, slice}
use acbackup.BackupIndex.Changes.{length-modify}
use acbackup.Reading.{
  Reading, VolumeForReading, Delivers, change_volume, decrement_volume_count, lock_volume_stream,
  close_volumes, close_unused_volumes, read_loop, read_volume,
}

length-close_volumes :
    (vs : List VolumeForReading) (n : ℕ) → length (close_volumes vs n).0 ≡ length vs
unfolding close_volumes
length-close_volumes [] n = refl
length-close_volumes (v ∷ vs) n = ap suc (length-close_volumes vs _)

pub length-close_unused_volumes :
    (r : Reading) → length (close_unused_volumes r).volumes ≡ length r.volumes
unfolding close_unused_volumes
length-close_unused_volumes r = elim (Bool-cases (ltb 100 r.n_open_volumes)) [
  | inl t ↦ rw t (length-close_volumes r.volumes r.n_open_volumes)
  | inr f ↦ rw f refl
]

-- The volumes stay as many as they are.
abbrev pub SameVolumes : Reading → Reading → Type 0
SameVolumes r r' = length r'.volumes ≡ length r.volumes

pub lock_volume_stream_ok :
    (r : Reading) (n : ℕ)
    → n < length r.volumes
    → (r' : Reading) × (lock_volume_stream r n ≡ ok r') × SameVolumes r r'
unfolding lock_volume_stream change_volume
lock_volume_stream_ok r n h =
    let (v, e) = get_elem?_of_lt r.volumes n h in
    elim (Bool-cases v.is_open) [
      | inl t ↦ (r, rw (e, t) refl, refl)
      | inr f ↦ (
        record (change_volume (λ u. record u { is_open = true }) n r) {
          n_open_volumes = (r.n_open_volumes + 1) % 2 ^ 16;
        },
        rw (e, f) refl,
        length-modify _ r.volumes n,
      )
    ]

pub decrement_volume_count_ok :
    (r : Reading) (n : ℕ)
    → n < length r.volumes
    → (r' : Reading) × (decrement_volume_count r n ≡ ok r') × SameVolumes r r'
unfolding decrement_volume_count change_volume
decrement_volume_count_ok r n h =
    let (v, e) = get_elem?_of_lt r.volumes n h in
    (
      change_volume (λ u. record u { counter = (u.counter + 2 ^ 64 - 1) % 2 ^ 64 }) n r,
      rw e refl,
      length-modify _ r.volumes n,
    )

-- A file that is read gives what is asked for, up to its end.
abbrev pub IsExact : Delivers → Type 0
IsExact delivers = (behind : List ℕ) (n : ℕ) → delivers behind n ≡ min n (length behind)

module _ (delivers : Delivers) (exact : IsExact delivers) (files : Volumes) where
  read_loop_done :
      (fuel : ℕ) (r : Reading) (n offset count : ℕ)
      → count ≡ 0
      → read_loop delivers files (suc fuel) r n offset count ≡ some (ok (r, []))
  unfolding read_loop
  read_loop_done fuel r n offset zero z = refl
  read_loop_done fuel r n offset (suc count) z = absurd (omega arith)

  read_loop-slice :
      (fuel : ℕ) (r : Reading) (n offset count : ℕ)
      → n < length r.volumes
      → offset + count ≤ length (files n)
      → 1 < fuel
      → (r' : Reading) × (read_loop delivers files fuel r n offset count
          ≡ some (ok (r', slice offset count (files n))))
        × SameVolumes r r'
  unfolding read_loop
  read_loop-slice zero r n offset count h w f = absurd (omega arith)
  read_loop-slice (suc zero) r n offset count h w f = absurd (omega arith)
  read_loop-slice (suc (suc fuel)) r n offset zero h w f = (r, refl, refl)
  read_loop-slice (suc (suc fuel)) r n offset (suc count) h w f =
      let behind = drop offset (files n) in
      let all : delivers behind (suc count) ≡ suc count =
        omega (arith, exact behind (suc count), length-drop offset (files n)) in
      let (r', e, l) = lock_volume_stream_ok r n h in
      (
        r',
        rw
            (
              e,
              all,
              read_loop_done fuel r' n offset (suc count - suc count) (omega arith),
              append-nil (take (suc count) behind),
            )
            refl,
        l,
      )

  pub read_volume-slice :
      (fuel : ℕ) (r : Reading) (n offset count : ℕ)
      → n < length r.volumes
      → offset + count ≤ length (files n)
      → 1 < fuel
      → (r' : Reading) × (read_volume delivers files fuel r n offset count
          ≡ some (ok (r', slice offset count (files n))))
        × SameVolumes r r'
  unfolding read_volume
  read_volume-slice fuel r n offset count h w f =
      let l = length-close_unused_volumes r in
      let (r', e, l') =
        read_loop-slice fuel (close_unused_volumes r) n offset count (omega (arith, l)) w f in
      (r', e, l' ∙ l)
