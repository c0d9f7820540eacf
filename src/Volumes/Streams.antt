-- ===== src/Volumes/Streams.antt =====
-- Which volume a stream writes to: the lists of open volumes under `FindStream`, `CloseFile` and
-- `BytesWereWrittenToVolume`.
use acbackup.Prelude.{
  ℕ, ◌+◌, ◌-◌, ◌%◌, ◌^◌, ◌≤◌, ◌<◌, ◌≡◌, refl, ◌⊎◌, inl, inr, ◌≢◌, Option, none, some, List, [], ◌∷◌,
  ◌++◌, arith, length, All, ◌==◌, Bool-cases, Option-cases, subst, sym, true, false,
}
use acbackup.Node.Blocks.{Volumes}
use acbackup.Volumes.{
  OpenVolume, Found, owned, free, nothing, scan, take_over, is_owned_by, first_owned, count_written,
  close_file,
}

-- An open volume has room left, and what its file holds makes up the rest of the volume size.
abbrev pub IsOpen : ℕ → ℕ → Volumes → OpenVolume → Type 0
IsOpen size next files v =
    (v.number < next) × (length (files v.number) + v.left_size ≡ size) × (0 < v.left_size)

abbrev Differs : ℕ → OpenVolume → Type 0
Differs n v = v.number ≢ n

-- No two open volumes have the same number.
abbrev pub Distinct : List OpenVolume → Type 0
Distinct [] = Unit {0}
Distinct (v ∷ vs) = All (Differs v.number) vs × Distinct vs

abbrev pub Holds : OpenVolume → List OpenVolume → Type 0
Holds v [] = ⊥
Holds v (u ∷ us) = (u ≡ v) ⊎ Holds v us

pub Differs-Holds :
    {n : ℕ} (v : OpenVolume) (vs : List OpenVolume) → All (Differs n) vs → Holds v vs → v.number ≢ n
Differs-Holds v [] a h = absurd h
Differs-Holds v (u ∷ us) a (inl e) = ground arith
Differs-Holds v (u ∷ us) a (inr h) = Differs-Holds v us a.1 h

pub All-Holds {ℓ} :
    (P : OpenVolume → Type ℓ) (v : OpenVolume) (vs : List OpenVolume) → All P vs → Holds v vs → P v
All-Holds P v [] a h = absurd h
All-Holds P v (u ∷ us) a (inl e) = rw (← e) a.0
All-Holds P v (u ∷ us) a (inr h) = All-Holds P v us a.1 h

pub Holds-first_owned :
    (w : ℕ) (v : OpenVolume) (vs : List OpenVolume) → first_owned w vs ≡ some v → Holds v vs
unfolding first_owned
Holds-first_owned w v [] e = cc
Holds-first_owned w v (u ∷ us) e = elim (Bool-cases (is_owned_by w u.owned_writer)) [
  | inl t ↦ inl (ground arith)
  | inr f ↦ inr (Holds-first_owned w v us (ground arith))
]

abbrev Candidate : Option OpenVolume → OpenVolume → List OpenVolume → Type 0
Candidate c v vs = (c ≡ some v) ⊎ Holds v vs

-- What the loop of `FindStream` finds.
abbrev pub Finds : ℕ → Option OpenVolume → List OpenVolume → Found → Type 0
Finds w c vs (owned v) = first_owned w vs ≡ some v
Finds w c vs (free v) = (first_owned w vs ≡ none) × Candidate c v vs
Finds w c vs nothing = first_owned w vs ≡ none

Finds-skip :
    (w : ℕ) (c d : Option OpenVolume) (u : OpenVolume) (vs : List OpenVolume) (r : Found)
    → is_owned_by w u.owned_writer ≡ false
    → ((v : OpenVolume) → d ≡ some v → Candidate c v (u ∷ vs))
    → Finds w d vs r
    → Finds w c (u ∷ vs) r
unfolding first_owned
Finds-skip w c d u vs (owned v) n k h = rw n h
Finds-skip w c d u vs (free v) n k (h, inl e) = (rw n h, k v e)
Finds-skip w c d u vs (free v) n k (h, inr m) = (rw n h, inr (inr m))
Finds-skip w c d u vs nothing n k h = rw n h

module _ (w : ℕ) (c : Option OpenVolume) (u : OpenVolume) (us : List OpenVolume) where
  scan_ownerless : u.owned_writer ≡ none → scan w c (u ∷ us) ≡ scan w (some u) us
  unfolding scan
  scan_ownerless e = ground arith

  scan_own : is_owned_by w u.owned_writer ≡ true → scan w c (u ∷ us) ≡ owned u
  unfolding scan
  scan_own e = ground arith

  scan_other :
      (o : ℕ)
      → u.owned_writer ≡ some o
      → is_owned_by w u.owned_writer ≡ false
      → scan w c (u ∷ us) ≡ scan w c us
  unfolding scan
  scan_other o e f = ground arith

pub scan-Finds : (w : ℕ) (c : Option OpenVolume) (vs : List OpenVolume) → Finds w c vs (scan w c vs)
scan-Finds w none [] = unfold scan first_owned in refl
scan-Finds w (some v) [] = unfold scan first_owned in (refl, inl refl)
scan-Finds w c (u ∷ us) = elim (Bool-cases (is_owned_by w u.owned_writer)) [
  | inl t ↦ rw (scan_own w c u us t) (unfold first_owned in ground arith)
  | inr f ↦ elim (Option-cases u.owned_writer) [
    | inl e ↦ rw (scan_ownerless w c u us e) (
        Finds-skip w c (some u) u us (scan w (some u) us) f (λ v q. inr (inl (ground arith)))
          (scan-Finds w (some u) us))
    | inr (o, e) ↦
        rw (scan_other w c u us o e f)
          (Finds-skip w c c u us (scan w c us) f (λ v q. inl q) (scan-Finds w c us))
  ]
]

-- Facts that do not look at the owners.
module _ {ℓ} (P : OpenVolume → Type ℓ)
    (any_owner : (v : OpenVolume) (o : Option ℕ) → P v → P (record v { owned_writer = o })) where
  pub All-take_over : (n w : ℕ) (vs : List OpenVolume) → All P vs → All P (take_over n w vs)
  unfolding take_over
  All-take_over n w [] a = a
  All-take_over n w (v ∷ vs) a = elim (Bool-cases (v.number == n)) [
    | inl t ↦ rw t (any_owner v (some w) a.0, a.1)
    | inr f ↦ rw f (a.0, All-take_over n w vs a.1)
  ]

  pub All-close_file : (w : ℕ) (vs : List OpenVolume) → All P vs → All P (close_file w vs)
  unfolding close_file
  All-close_file w [] a = a
  All-close_file w (v ∷ vs) a = elim (Bool-cases (is_owned_by w v.owned_writer)) [
    | inl t ↦ rw t (any_owner v none a.0, a.1)
    | inr f ↦ rw f (a.0, All-close_file w vs a.1)
  ]

pub Distinct-take_over :
    (n w : ℕ) (vs : List OpenVolume) → Distinct vs → Distinct (take_over n w vs)
unfolding take_over
Distinct-take_over n w [] d = d
Distinct-take_over n w (v ∷ vs) d = elim (Bool-cases (v.number == n)) [
  | inl t ↦ rw t d
  | inr f ↦
      rw f (All-take_over (Differs v.number) (λ u o h. h) n w vs d.0, Distinct-take_over n w vs d.1)
]

pub Distinct-close_file : (w : ℕ) (vs : List OpenVolume) → Distinct vs → Distinct (close_file w vs)
unfolding close_file
Distinct-close_file w [] d = d
Distinct-close_file w (v ∷ vs) d = elim (Bool-cases (is_owned_by w v.owned_writer)) [
  | inl t ↦ rw t d
  | inr f ↦
      rw f (All-close_file (Differs v.number) (λ u o h. h) w vs d.0, Distinct-close_file w vs d.1)
]

-- The writer that takes a free volume over owns that one from then on.
pub first_owned-take_over :
    (w : ℕ) (v : OpenVolume) (vs : List OpenVolume)
    → Distinct vs
    → first_owned w vs ≡ none
    → Holds v vs
    → first_owned w (take_over v.number w vs) ≡ some (record v { owned_writer = some w })
unfolding first_owned take_over
first_owned-take_over w v [] d e h = absurd h
first_owned-take_over w v (u ∷ us) d e (inl q) = ground arith
first_owned-take_over w v (u ∷ us) d e (inr m) =
    ground (arith, Differs-Holds v us d.0 m, first_owned-take_over w v us d.1 (ground arith) m)

pub first_owned-append_last :
    (w : ℕ) (v : OpenVolume) (vs : List OpenVolume)
    → first_owned w vs ≡ none
    → v.owned_writer ≡ some w
    → first_owned w (vs ++ v ∷ []) ≡ some v
unfolding first_owned
first_owned-append_last w v [] e f = ground arith
first_owned-append_last w v (u ∷ us) e f = elim (Bool-cases (is_owned_by w u.owned_writer)) [
  | inl t ↦ ground arith
  | inr n ↦ rw n (first_owned-append_last w v us (ground arith) f)
]

pub All-append_last {ℓ} :
    (P : OpenVolume → Type ℓ) (v : OpenVolume) (vs : List OpenVolume)
    → All P vs
    → P v
    → All P (vs ++ v ∷ [])
All-append_last P v [] a p = (p, tt)
All-append_last P v (u ∷ us) a p = (a.0, All-append_last P v us a.1 p)

pub Distinct-append_last :
    (v : OpenVolume) (vs : List OpenVolume)
    → Distinct vs
    → All (Differs v.number) vs
    → Distinct (vs ++ v ∷ [])
Distinct-append_last v [] d a = (tt, tt)
Distinct-append_last v (u ∷ us) d a = (
  All-append_last (Differs u.number) v us d.0 (λ e. a.0 (sym e)),
  Distinct-append_last v us d.1 a.1,
)

pub All-weaken {ℓ κ} :
    {P : OpenVolume → Type ℓ} {Q : OpenVolume → Type κ} (vs : List OpenVolume)
    → ((v : OpenVolume) → P v → Q v)
    → All P vs
    → All Q vs
All-weaken [] k a = tt
All-weaken (v ∷ vs) k a = (k v a.0, All-weaken vs k a.1)

module _ {ℓ} (P : OpenVolume → Type ℓ)
    (any_size : (v : OpenVolume) (n : ℕ) → P v → P (record v { left_size = n })) where
  All-count_written : (w n : ℕ) (vs : List OpenVolume) → All P vs → All P (count_written w n vs)
  unfolding count_written
  All-count_written w n [] a = a
  All-count_written w n (v ∷ vs) a = elim (Bool-cases (is_owned_by w v.owned_writer)) [
    | inl t ↦ rw t (elim (Bool-cases ((v.left_size + 2 ^ 64 - n) % 2 ^ 64 == 0)) [
      | inl z ↦ rw z a.1
      | inr p ↦ rw p (any_size v _ a.0, a.1)
    ])
    | inr f ↦ rw f (a.0, All-count_written w n vs a.1)
  ]

pub Distinct-count_written :
    (w n : ℕ) (vs : List OpenVolume) → Distinct vs → Distinct (count_written w n vs)
unfolding count_written
Distinct-count_written w n [] d = d
Distinct-count_written w n (v ∷ vs) d = elim (Bool-cases (is_owned_by w v.owned_writer)) [
  | inl t ↦ rw t (elim (Bool-cases ((v.left_size + 2 ^ 64 - n) % 2 ^ 64 == 0)) [
    | inl z ↦ rw z d.1
    | inr p ↦ rw p d
  ])
  | inr f ↦ rw f (
    All-count_written (Differs v.number) (λ u k h. h) w n vs d.0,
    Distinct-count_written w n vs d.1,
  )
]

count_written_other :
    (w n : ℕ) (u : OpenVolume) (us : List OpenVolume)
    → is_owned_by w u.owned_writer ≡ false
    → count_written w n (u ∷ us) ≡ u ∷ count_written w n us
unfolding count_written
count_written_other w n u us f = rw f

-- Another volume's file is not written to.
kept-IsOpen :
    (n size next : ℕ) (files grown : Volumes) (vs : List OpenVolume)
    → ((m : ℕ) → m ≢ n → grown m ≡ files m)
    → All (Differs n) vs
    → All (IsOpen size next files) vs
    → All (IsOpen size next grown) vs
kept-IsOpen n size next files grown [] k d a = tt
kept-IsOpen n size next files grown (v ∷ vs) k d a =
    (rw (k v.number d.0) a.0, kept-IsOpen n size next files grown vs k d.1 a.1)

module _ (w n size next : ℕ) (files grown : Volumes) (v : OpenVolume) (small : size < 2 ^ 64)
    (fits : n ≤ v.left_size) (written : length (grown v.number) ≡ length (files v.number) + n)
    (kept : (m : ℕ) → m ≢ v.number → grown m ≡ files m) where
  counted-IsOpen :
      (us : List OpenVolume)
      → is_owned_by w v.owned_writer ≡ true
      → Distinct (v ∷ us)
      → All (IsOpen size next files) (v ∷ us)
      → All (IsOpen size next grown) (count_written w n (v ∷ us))
  unfolding count_written
  counted-IsOpen us t d a =
      let rest = kept-IsOpen v.number size next files grown us kept d.0 a.1 in
      let open_v = a.0 in
      rw t (elim (Bool-cases ((v.left_size + 2 ^ 64 - n) % 2 ^ 64 == 0)) [
        | inl z ↦ rw z rest
        | inr p ↦ rw p ((open_v.0, ground arith, ground arith), rest)
      ])

  -- The bytes that were written move from the room of the owned volume to its file.
  pub count_written-IsOpen :
      (vs : List OpenVolume)
      → first_owned w vs ≡ some v
      → Distinct vs
      → All (IsOpen size next files) vs
      → All (IsOpen size next grown) (count_written w n vs)
  unfolding first_owned
  count_written-IsOpen [] e d a = cc
  count_written-IsOpen (u ∷ us) e d a = elim (Bool-cases (is_owned_by w u.owned_writer)) [
    | inl t ↦
        let q : u ≡ v = ground arith in
        let P : OpenVolume → Type 0 = λ x.
          is_owned_by w x.owned_writer ≡ true
          → Distinct (x ∷ us)
          → All (IsOpen size next files) (x ∷ us)
          → All (IsOpen size next grown) (count_written w n (x ∷ us)) in
        subst P (sym q) (counted-IsOpen us) t d a
    | inr f ↦
        let m = Holds-first_owned w v us (ground arith) in
        let other = Differs-Holds v us d.0 m in
        rw (count_written_other w n u us f) (
          rw (kept u.number (λ h. other (sym h))) a.0,
          count_written-IsOpen us (ground arith) d.1 a.1,
        )
  ]
