-- ===== src/Reading/Short.antt =====
-- The loop of `FlatVolumesFileSystem::ReadBytes` where the disk gives fewer bytes than asked for.
use acbackup.Prelude.{
  and_then, ℕ, zero, suc, ◌-◌, ◌<◌, ◌≤◌, ◌≡◌, refl, ap, ◌∙◌, none, [], arith, ok, length, drop,
  drop_of_length-le,
}
use acbackup.Node.Blocks.{Volumes}
use acbackup.Reading.{
  Reading, Delivers, lock_volume_stream, close_unused_volumes, read_loop, read_volume,
}
use acbackup.Reading.Bytes.{lock_volume_stream_ok, length-close_unused_volumes}

module _ (delivers : Delivers) (files : Volumes) where
  read_loop_again :
      (fuel : ℕ) (r r' : Reading) (n offset count : ℕ)
      → lock_volume_stream r n ≡ ok r'
      → read_loop delivers files fuel r' n offset
          (suc count - delivers (drop offset (files n)) (suc count))
        ≡ none
      → read_loop delivers files (suc fuel) r n offset (suc count) ≡ none
  unfolding read_loop
  read_loop_again fuel r r' n offset count e again = rw (e, and_then, again) refl

  read_loop_endless :
      (fuel : ℕ) (r : Reading) (n offset count : ℕ)
      → n < length r.volumes
      → delivers (drop offset (files n)) (suc count) ≡ 0
      → read_loop delivers files fuel r n offset (suc count) ≡ none
  read_loop_endless zero r n offset count h z = unfold read_loop in refl
  read_loop_endless (suc fuel) r n offset count h z =
      let (r', e, l) = lock_volume_stream_ok r n h in
      read_loop_again fuel r r' n offset count e (
        ap (read_loop delivers files fuel r' n offset) (omega (arith, z))
        ∙ read_loop_endless fuel r' n offset count (omega (arith, l)) z)

  -- Where a volume among those for reading has a file that ends at the offset or before it, and the
  -- disk gives no bytes at the end of a file, `ReadBytes` of at least one byte does not return,
  -- whatever the fuel.
  pub read_volume_endless :
      (fuel : ℕ) (r : Reading) (n offset count : ℕ)
      → ((asked : ℕ) → delivers [] asked ≡ 0)
      → n < length r.volumes
      → length (files n) ≤ offset
      → read_volume delivers files fuel r n offset (suc count) ≡ none
  unfolding read_volume
  read_volume_endless fuel r n offset count at_end h past =
      read_loop_endless fuel (close_unused_volumes r) n offset count
        (omega (arith, length-close_unused_volumes r))
        (ap (λ xs. delivers xs (suc count)) (drop_of_length-le offset (files n) past)
          ∙ at_end (suc count))
