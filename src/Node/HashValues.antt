-- ===== src/Node/HashValues.antt =====
-- The hash values that the attributes of a node keep, by algorithm.
use acbackup.Prelude.{
  ◌≡◌, ◌≢◌, refl, inl, inr, some, List, [], ◌∷◌, arith, String, String_discrete, Option-cases, ok,
  ◌==◌, if◌then◌else◌,
}
use acbackup.Node.{
  HashAlgorithm, BackupNodeAttributes, find_hash, put_hash, hash_of, add_hash_value,
}

find_hash-put_hash :
    (h k : HashAlgorithm) (v : String) (m : List (HashAlgorithm × String))
    → find_hash h (put_hash k v m) ≡ (if h == k then some v else find_hash h m)
unfolding find_hash put_hash
find_hash-put_hash h k v [] = refl
find_hash-put_hash h k v ((j, w) ∷ m) = ground (arith, find_hash-put_hash h k v m)

-- After `AddHashValue` has returned, the value is the one of its algorithm, any value that the
-- algorithm had before is the same, and the other algorithms keep theirs.
add_hash_value-hash_of :
    (h : HashAlgorithm) (v : String) (a b : BackupNodeAttributes)
    → add_hash_value h v a ≡ ok b
    → (hash_of h b ≡ ok v)
      × ((w : String) → find_hash h a.hashes ≡ some w → w ≡ v)
      × ((k : HashAlgorithm) → k ≢ h → find_hash k b.hashes ≡ find_hash k a.hashes)
unfolding add_hash_value hash_of
add_hash_value-hash_of h v a b e = elim (Option-cases (find_hash h a.hashes)) [
  | inl n ↦
      let is : put_hash h v a.hashes ≡ b.hashes = ground arith in
      (
        rw (← is) (rw (find_hash-put_hash h h v a.hashes) (ground arith)),
        λ w q. absurd (ground arith),
        λ k d. rw (← is) (ground (arith, find_hash-put_hash k h v a.hashes)),
      )
  | inr (w, q) ↦ elim (String_discrete w v) [
    | yes s ↦
        let is : put_hash h v a.hashes ≡ b.hashes = ground arith in
        (
          rw (← is) (rw (find_hash-put_hash h h v a.hashes) (ground arith)),
          λ u p. ground arith,
          λ k d. rw (← is) (ground (arith, find_hash-put_hash k h v a.hashes)),
        )
    | no s ↦ absurd (ground arith)
  ]
]
