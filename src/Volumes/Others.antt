-- ===== src/Volumes/Others.antt =====
-- `FindStream` for a writer leaves the other writers their volumes.
use acbackup.Prelude.{
  ℕ, ◌≡◌, ◌≢◌, refl, inl, inr, Option, none, some, List, [], ◌∷◌, ◌++◌, arith, Bool-cases,
  Option-cases, ◌==◌,
}
use acbackup.Volumes.{OpenVolume, free, scan, take_over, first_owned}
use acbackup.Volumes.Streams.{Distinct, Holds, Differs-Holds}

-- A volume that is offered as free belongs to nobody.
pub scan-ownerless :
    (w : ℕ) (c : Option OpenVolume) (vs : List OpenVolume) (v : OpenVolume)
    → ((u : OpenVolume) → c ≡ some u → u.owned_writer ≡ none)
    → scan w c vs ≡ free v
    → v.owned_writer ≡ none
unfolding scan
scan-ownerless w none [] v h e = cc
scan-ownerless w (some u) [] v h e = ground (arith, h u refl)
scan-ownerless w c (u ∷ us) v h e = elim (Option-cases u.owned_writer) [
  | inl q ↦ scan-ownerless w (some u) us v (λ x k. ground arith) (ground arith)
  | inr (o, q) ↦ elim (Bool-cases (o == w)) [
    | inl t ↦ absurd (ground arith)
    | inr f ↦ scan-ownerless w c us v h (ground arith)
  ]
]

pub first_owned-take_over_other :
    (u w : ℕ) (v : OpenVolume) (vs : List OpenVolume)
    → u ≢ w
    → Distinct vs
    → Holds v vs
    → v.owned_writer ≡ none
    → first_owned u (take_over v.number w vs) ≡ first_owned u vs
unfolding first_owned take_over
first_owned-take_over_other u w v [] n d h o = absurd h
first_owned-take_over_other u w v (x ∷ xs) n d (inl q) o = ground arith
first_owned-take_over_other u w v (x ∷ xs) n d (inr m) o =
    ground (arith, Differs-Holds v xs d.0 m, first_owned-take_over_other u w v xs n d.1 m o)

pub first_owned-append_other :
    (u w : ℕ) (v : OpenVolume) (vs : List OpenVolume)
    → u ≢ w
    → v.owned_writer ≡ some w
    → first_owned u (vs ++ v ∷ []) ≡ first_owned u vs
unfolding first_owned
first_owned-append_other u w v [] n o = ground arith
first_owned-append_other u w v (x ∷ xs) n o = ground (arith, first_owned-append_other u w v xs n o)
